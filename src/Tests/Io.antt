-- ===== src/Tests/Io.antt =====
-- Reading and writing with short transfers, interruptions and refusals.
use gdbm.Prelude.{◌≡◌, refl, true, false, none, some, List, [], ◌∷◌, arith}
use gdbm.Errno.{no_error, file_write_error, set_errno, syserr, code}
use gdbm.FullIo.{
  Answer, moved, refused, File, complete, incomplete, full_read, read_loop, full_write, write_loop,
  file_extend, extend_by, extend_loop,
}
use gdbm.FullIo.Read.{ReadEnds, full_read-ReadEnds}
use gdbm.FullIo.Write.{WriteEnds, full_write-WriteEnds}
use gdbm.FullIo.Extend.{ExtendEnds, file_extend-ExtendEnds}

-- EINTR is 4 here, ENOSPC 28 and EIO 5.
abbrev file : List Answer → File
file answers = record {
  behind = 1 ∷ 2 ∷ [];
  ahead = 3 ∷ 4 ∷ 5 ∷ [];
  answers = answers;
  errno = 0;
  file_size = some 5;
  error = record {
    last_error = no_error;
    last_syserror = 0;
    last_errstr = none;
    need_recovery = false;
  };
}

full_read-ReadEnds_example :
    ReadEnds 4 3 []
      (file (moved 0 ∷ refused 4 ∷ []))
      (full_read 4 3 (file (moved 0 ∷ refused 4 ∷ [])))
full_read-ReadEnds_example = full_read-ReadEnds 4 3 (file (moved 0 ∷ refused 4 ∷ []))

read_in_two :
    full_read 4 3 (file (moved 0 ∷ refused 4 ∷ []))
    ≡ complete
        (3 ∷ 4 ∷ 5 ∷ [])
        (record (file []) { behind = 1 ∷ 2 ∷ 3 ∷ 4 ∷ 5 ∷ []; ahead = []; errno = 4 })
unfolding full_read read_loop
read_in_two = refl

full_write-WriteEnds_example :
    WriteEnds 4
      (8 ∷ 9 ∷ [])
      (file (moved 1 ∷ refused 5 ∷ []))
      (full_write 4 28 (8 ∷ 9 ∷ []) (file (moved 1 ∷ refused 5 ∷ [])))
full_write-WriteEnds_example =
    full_write-WriteEnds 4 28 (8 ∷ 9 ∷ []) (file (moved 1 ∷ refused 5 ∷ []))

written_in_part :
    full_write 4 28 (8 ∷ 9 ∷ []) (file (moved 1 ∷ refused 5 ∷ []))
    ≡ incomplete (record (file []) {
      behind = 1 ∷ 2 ∷ 8 ∷ [];
      ahead = 4 ∷ 5 ∷ [];
      errno = 5;
      file_size = none;
      error = record {
        last_error = file_write_error;
        last_syserror = 5;
        last_errstr = none;
        need_recovery = true;
      };
    })
unfolding full_write write_loop set_errno syserr code
written_in_part = refl

file_extend-ExtendEnds_example : ExtendEnds 8 (file []) (file_extend true true 2 8 (file []))
file_extend-ExtendEnds_example =
    file_extend-ExtendEnds true 2 8 (file []) (omega arith) (omega arith)

grown :
    file_extend true true 2 8 (file [])
    ≡ complete tt (record (file []) {
      behind = 1 ∷ 2 ∷ 3 ∷ 4 ∷ 5 ∷ 0 ∷ 0 ∷ 0 ∷ [];
      ahead = [];
      file_size = none;
    })
unfolding file_extend extend_by extend_loop
grown = refl
