-- ===== src/Alloc/State.antt =====
-- The part of `struct gdbm_file_info` that src/falloc.c works on, and its operations as state
-- passing: a step ends with a value, with -1 after an error was recorded, or runs out of fuel.
use gdbm.Prelude.{ℕ, Bool, true, false, Option, List, [], ◌∷◌, ◌==◌, if◌then◌else◌}
use gdbm.Avail.{AvailElem}
use gdbm.Errno.{GdbmError, file_read_error, file_write_error, code, ErrorState, set_errno}
use gdbm.Validate.{RawBlock}

-- `avail_block`; `count` is the length of the table.
pub record AvailBlock : Type 0 where
  pub size : ℕ
  pub next_block : ℕ
  pub av_table : List AvailElem

-- `block_size`, `bucket_size` and `next_block` are the header's. `disk` is the avail block that
-- stands at an offset of the file, if a whole one can be read there. `answers` are those of the
-- system calls to come (memory, seek, read, write), in order; past its end they succeed.
pub record Dbf : Type 0 where
  pub block_size : ℕ
  pub bucket_size : ℕ
  pub next_block : ℕ
  pub avail : AvailBlock
  pub bucket_table : List AvailElem
  pub central_free : Bool
  pub coalesce_blocks : Bool
  pub read_write : Bool
  pub header_changed : Bool
  pub bucket_changed : Bool
  pub disk : ℕ → Option RawBlock
  pub answers : List Bool
  pub errno : ℕ
  pub error : ErrorState

pub data Outcome {ℓ} (A : Type ℓ) : Type ℓ where
  done : A → Dbf → Outcome A
  failed : Dbf → Outcome A
  out_of_fuel : Outcome A

abbrev pub M : Type 0 → Type 0
M A = Dbf → Outcome A

infixl 5 ◌>>=◌ ◌>>◌
abbrev pub ◌>>=◌ : {A B : Type 0} → M A → (A → M B) → M B
◌>>=◌ m f s = elim (m s) [ done a s' ↦ f a s' | failed s' ↦ failed s' | out_of_fuel ↦ out_of_fuel ]

abbrev pub ◌>>◌ : {A B : Type 0} → M A → M B → M B
◌>>◌ m k = m >>= λ _. k

abbrev pub return : {A : Type 0} → A → M A
return a s = done a s

-- `return 0` of a function that returns a status.
abbrev pub success : M (Unit {0})
success s = done tt s

-- GDBM_SET_ERRNO (dbf, ec, TRUE) and `return -1`. No handler is installed for `_gdbm_fatal`.
abbrev pub fail : {A : Type 0} → GdbmError → M A
fail ec s = failed (record s { error = set_errno s.errno ec true s.error })

-- The same with FALSE: the database is not marked for recovery.
abbrev pub fail_soft : {A : Type 0} → GdbmError → M A
fail_soft ec s = failed (record s { error = set_errno s.errno ec false s.error })

-- The next system call, with what happens if it fails.
abbrev pub next_answer : M (Unit {0}) → M (Unit {0})
next_answer failing s = elim s.answers [
  | [] ↦ success s
  | ok ∷ rest ↦
      if ok then success (record s { answers = rest }) else failing (record s { answers = rest })
]

-- A call whose failure has its own code.
unfoldable pub call : GdbmError → M (Unit {0})
call ec s = next_answer (fail ec) s

-- The read of `_gdbm_full_read` and the write of `_gdbm_full_write`, which keep the code of an
-- earlier error, and then the recovery flag too.
unfoldable pub call_read : M (Unit {0})
call_read =
    next_answer λ s. if code s.error.last_error == 0 then fail_soft file_read_error s else failed s

unfoldable pub call_write : M (Unit {0})
call_write =
    next_answer λ s. if code s.error.last_error == 0 then fail file_write_error s else failed s
