-- ===== src/Errno.antt =====
-- The error codes of src/gdbm.h.in and the error state of src/gdbmerrno.c.
pub mod Laws
use Prim.Native.String.{String}
use gdbm.Prelude.{ℕ, ◌+◌, Bool, true, false, Option, none, some, ◌==◌, if◌then◌else◌}

-- The codes in order, from 0; the header's aliases name the same codes.
pub data GdbmError : Type 0 where
  no_error malloc_error block_size_error file_open_error file_write_error : GdbmError
  file_seek_error file_read_error bad_magic_number empty_database cant_be_reader : GdbmError
  cant_be_writer reader_cant_delete reader_cant_store reader_cant_reorganize unknown_error :
      GdbmError
  item_not_found reorganize_failed cannot_replace malformed_data opt_already_set : GdbmError
  opt_badval byte_swapped bad_file_offset bad_open_flags file_stat_error : GdbmError
  file_eof no_dbname err_file_owner err_file_mode need_recovery : GdbmError
  backup_failed dir_overflow bad_bucket bad_header bad_avail : GdbmError
  bad_hash_table bad_dir_entry file_close_error file_sync_error file_truncate_error : GdbmError
  bucket_cache_corrupted bad_hash_entry err_snapshot_clone err_realpath err_usage : GdbmError

unfoldable pub code : GdbmError → ℕ
code no_error = 0
code malloc_error = 1
code block_size_error = 2
code file_open_error = 3
code file_write_error = 4
code file_seek_error = 5
code file_read_error = 6
code bad_magic_number = 7
code empty_database = 8
code cant_be_reader = 9
code cant_be_writer = 10
code reader_cant_delete = 11
code reader_cant_store = 12
code reader_cant_reorganize = 13
code unknown_error = 14
code item_not_found = 15
code reorganize_failed = 16
code cannot_replace = 17
code malformed_data = 18
code opt_already_set = 19
code opt_badval = 20
code byte_swapped = 21
code bad_file_offset = 22
code bad_open_flags = 23
code file_stat_error = 24
code file_eof = 25
code no_dbname = 26
code err_file_owner = 27
code err_file_mode = 28
code need_recovery = 29
code backup_failed = 30
code dir_overflow = 31
code bad_bucket = 32
code bad_header = 33
code bad_avail = 34
code bad_hash_table = 35
code bad_dir_entry = 36
code file_close_error = 37
code file_sync_error = 38
code file_truncate_error = 39
code bucket_cache_corrupted = 40
code bad_hash_entry = 41
code err_snapshot_clone = 42
code err_realpath = 43
code err_usage = 44

-- `gdbm_errlist`, before translation.
unfoldable pub message : GdbmError → String
message no_error = "No error"
message malloc_error = "Malloc error"
message block_size_error = "Block size error"
message file_open_error = "File open error"
message file_write_error = "File write error"
message file_seek_error = "File seek error"
message file_read_error = "File read error"
message bad_magic_number = "Bad magic number"
message empty_database = "Empty database"
message cant_be_reader = "Can't be reader"
message cant_be_writer = "Can't be writer"
message reader_cant_delete = "Reader can't delete"
message reader_cant_store = "Reader can't store"
message reader_cant_reorganize = "Reader can't reorganize"
message unknown_error = "Should not happen: unused error code"
message item_not_found = "Item not found"
message reorganize_failed = "Reorganize failed"
message cannot_replace = "Cannot replace"
message malformed_data = "Malformed data"
message opt_already_set = "Option already set"
message opt_badval = "Bad option value"
message byte_swapped = "Byte-swapped file"
message bad_file_offset = "File header assumes wrong off_t size"
message bad_open_flags = "Bad file flags"
message file_stat_error = "Cannot stat file"
message file_eof = "Unexpected end of file"
message no_dbname = "Database name not given"
message err_file_owner = "Failed to restore file owner"
message err_file_mode = "Failed to restore file mode"
message need_recovery = "Database needs recovery"
message backup_failed = "Failed to create backup copy"
message dir_overflow = "Bucket directory overflow"
message bad_bucket = "Malformed bucket header"
message bad_header = "Malformed database file header"
message bad_avail = "Malformed avail_block"
message bad_hash_table = "Malformed hash table"
message bad_dir_entry = "Invalid directory entry"
message file_close_error = "Error closing file"
message file_sync_error = "Error synchronizing file"
message file_truncate_error = "Error truncating file"
message bucket_cache_corrupted = "Bucket cache corrupted"
message bad_hash_entry = "Malformed bucket hash entry"
message err_snapshot_clone = "Reflink failed"
message err_realpath = "Failed to resolve real path name"
message err_usage = "Function usage error"

-- `gdbm_syserr`: the codes for which the system's `errno` is kept.
unfoldable pub syserr : GdbmError → Bool
syserr file_open_error = true
syserr file_write_error = true
syserr file_seek_error = true
syserr file_read_error = true
syserr file_stat_error = true
syserr backup_failed = true
syserr file_close_error = true
syserr file_sync_error = true
syserr file_truncate_error = true
syserr err_snapshot_clone = true
syserr err_realpath = true
syserr err_usage = true
syserr _ = false

-- The members of `struct gdbm_file_info` that hold the last error. The formatted text is `none`
-- until it is asked for.
pub record ErrorState : Type 0 where
  pub last_error : GdbmError
  pub last_syserror : ℕ
  pub last_errstr : Option (GdbmError × ℕ)
  pub need_recovery : Bool

-- `gdbm_set_errno` for a database; `errno` is the system's error number.
unfoldable pub set_errno : ℕ → GdbmError → Bool → ErrorState → ErrorState
set_errno errno ec fatal s = record {
  last_error = ec;
  last_syserror = if syserr ec then errno else 0;
  last_errstr = none;
  need_recovery = fatal;
}

unfoldable pub clear_error : ErrorState → ErrorState
clear_error s = record s { last_error = no_error; last_syserror = 0; last_errstr = none }

-- `gdbm_db_strerror`: what the text is made of, the code's message and, for a system error, the
-- system's. It is kept, unless `malloc` fails or there is no system error.
unfoldable pub db_strerror : Bool → ErrorState → (GdbmError × ℕ) × ErrorState
db_strerror malloc_ok s = elim s.last_errstr [
  | some t ↦ (t, s)
  | none ↦
      if s.last_syserror == 0
      then ((s.last_error, 0), s)
      else if malloc_ok
      then (
        (s.last_error, s.last_syserror),
        record s { last_errstr = some (s.last_error, s.last_syserror) },
      )
      else ((s.last_error, 0), s)
]
