-- ===== src/Load/Records.antt =====
-- src/gdbmload.c: the loop over the records of a dump, for any database that stores them.
use gdbm.Prelude.{ℕ, zero, suc, ◌+◌, Bool, true, false, List, [], ◌∷◌, ◌++◌, ◌==◌, if◌then◌else◌}
use gdbm.Errno.{GdbmError, no_error, malformed_data, item_not_found, code}
use gdbm.Load.{DumpFile, LoadEnd, loaded, load_error, undefined, unended}
use gdbm.Load.Record.{Datum, get_num, read_record}

abbrev pub count_name : List ℕ
count_name = b'c' ∷ b'o' ∷ b'u' ∷ b'n' ∷ b't' ∷ []

-- What becomes of GDBM_ITEM_NOT_FOUND where a key is expected, for so many records. A file of an old
-- version has no count.
unfoldable pub check_count : ℕ → DumpFile → LoadEnd GdbmError
check_count count s =
    if s.feof then loaded no_error s else elim (get_num (s.buffer ++ 0 ∷ []) count_name s) [
      | loaded n s1 ↦ loaded (if n == count then no_error else malformed_data) s1
      | load_error ec s1 ↦ loaded malformed_data s1
      | undefined ↦ undefined
      | unended ↦ unended
    ]

-- The database, and gdbm_store for it with the error code that it leaves.
module _ {S : Type 0} (store : Datum → Datum → S → GdbmError × S) where
  -- `while (1)`, with the return code and the database. The rounds are those of the loops on lines;
  -- `realloc_ok` is the decoder's.
  unfoldable pub load_loop : ℕ → ℕ → Bool → ℕ → S → DumpFile → LoadEnd (GdbmError × S)
  load_loop zero fuel realloc_ok count db s = unended
  load_loop (suc k) fuel realloc_ok count db s = elim (read_record fuel realloc_ok 0 s) [
    | load_error ec s1 ↦ elim (code ec == code item_not_found) [
      | false ↦ loaded (ec, db) s1
      | true ↦ elim (check_count count s1) [
        | loaded rc s2 ↦ loaded (rc, db) s2
        | load_error rc s2 ↦ load_error rc s2
        | undefined ↦ undefined
        | unended ↦ unended
      ]
    ]
    | undefined ↦ undefined
    | unended ↦ unended
    | loaded key s1 ↦ elim (read_record fuel realloc_ok 1 s1) [
      | load_error ec s2 ↦ loaded (ec, db) s2
      | undefined ↦ undefined
      | unended ↦ unended
      | loaded content s2 ↦
          let (rc, db') = store key content db in
          elim (code rc == 0) [
            | false ↦ loaded (rc, db') s2
            | true ↦ load_loop k fuel realloc_ok (count + 1) db' s2
          ]
    ]
  ]
