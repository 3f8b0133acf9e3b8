-- ===== src/FullIo.antt =====
-- src/fullio.c: reading and writing exactly so many bytes, and the growing of the file. `read`,
-- `write` and `lseek` are the system's; what they do is an explicit sequence of answers.
pub mod Read
pub mod Write
pub mod Extend
use gdbm.Prelude.{
  ℕ, zero, suc, ◌+◌, ◌-◌, Bool, true, false, Option, none, some, List, [], ◌∷◌, ◌++◌, ltb, ◌==◌,
  if◌then◌else◌, length, take, drop, replicate,
}
use gdbm.Errno.{
  GdbmError, ErrorState, set_errno, code, file_read_error, file_write_error, file_seek_error,
  file_eof, malloc_error,
}

-- What the system does at a call: it moves at most so many bytes, or refuses with an error number.
pub data Answer : Type 0 where
  moved : ℕ → Answer
  refused : ℕ → Answer

-- The file's bytes before and after its position. A `file_size` of -1 is `none`. When there are no
-- more answers, a call does what it is asked for.
pub record File : Type 0 where
  pub behind : List ℕ
  pub ahead : List ℕ
  pub answers : List Answer
  pub errno : ℕ
  pub file_size : Option ℕ
  pub error : ErrorState

-- How an operation ends: with 0 and its result, with -1, or not within the rounds given.
pub data Io {ℓ} (A : Type ℓ) : Type ℓ where
  complete : A → File → Io A
  incomplete : File → Io A
  unended : Io A

abbrev pub set_error : GdbmError → Bool → File → File
set_error ec fatal f = record f { error = set_errno f.errno ec fatal f.error }

abbrev pub advance : ℕ → File → File
advance n f = record f { behind = f.behind ++ take n f.ahead; ahead = drop n f.ahead }

-- `read`: `none` is -1. It moves a byte at least, if there is one and one is asked for.
abbrev pub read_call : ℕ → File → Option (List ℕ) × File
read_call size f = elim f.answers [
  | [] ↦ (some (take size f.ahead), advance size f)
  | answer ∷ rest ↦ elim answer [
    | moved n ↦
        let count = if ltb (n + 1) size then n + 1 else size in
        (some (take count f.ahead), advance count (record f { answers = rest }))
    | refused e ↦ (none, record f { answers = rest; errno = e })
  ]
]

abbrev pub overwrite : List ℕ → File → File
overwrite bytes f = record f { behind = f.behind ++ bytes; ahead = drop (length bytes) f.ahead }

-- `write`: `none` is -1, and otherwise the result is the number of bytes.
abbrev pub write_call : List ℕ → File → Option ℕ × File
write_call bytes f = elim f.answers [
  | [] ↦ (some (length bytes), overwrite bytes f)
  | answer ∷ rest ↦ elim answer [
    | moved n ↦
        let count = if ltb n (length bytes) then n else length bytes in
        (some count, overwrite (take count bytes) (record f { answers = rest }))
    | refused e ↦ (none, record f { answers = rest; errno = e })
  ]
]

-- The loop of `_gdbm_full_read`, with the bytes of the buffer that are filled.
unfoldable pub read_loop : ℕ → ℕ → ℕ → List ℕ → File → Io (List ℕ)
read_loop zero eintr size buffer f = unended
read_loop (suc fuel) eintr size buffer f = elim (size == 0) [
  | true ↦ complete buffer f
  | false ↦
      let (rdbytes, f') = read_call size f in
      elim rdbytes [
        | none ↦ elim (f'.errno == eintr) [
          | true ↦ read_loop fuel eintr size buffer f'
          | false ↦
              incomplete
                (if code f'.error.last_error == 0 then set_error file_read_error false f' else f')
        ]
        | some bytes ↦ elim (length bytes == 0) [
          | true ↦ incomplete (set_error file_eof false f')
          | false ↦ read_loop fuel eintr (size - length bytes) (buffer ++ bytes) f'
        ]
      ]
]

-- A round takes an answer, but for the last three.
unfoldable pub full_read : ℕ → ℕ → File → Io (List ℕ)
full_read eintr size f = read_loop (length f.answers + 3) eintr size [] f

-- The loop of `_gdbm_full_write`, with the bytes that are left.
unfoldable pub write_loop : ℕ → ℕ → ℕ → List ℕ → File → Io (Unit {0})
write_loop zero eintr enospc bytes f = unended
write_loop (suc fuel) eintr enospc bytes f = elim (length bytes == 0) [
  | true ↦ complete tt f
  | false ↦
      let (wrbytes, f') = write_call bytes f in
      elim wrbytes [
        | none ↦ elim (f'.errno == eintr) [
          | true ↦ write_loop fuel eintr enospc bytes f'
          | false ↦
              incomplete
                (if code f'.error.last_error == 0 then set_error file_write_error true f' else f')
        ]
        | some n ↦ elim (n == 0) [
          | true ↦ incomplete (set_error file_write_error true (record f' { errno = enospc }))
          | false ↦ write_loop fuel eintr enospc (drop n bytes) f'
        ]
      ]
]

-- A round takes an answer, but for the last two.
unfoldable pub full_write : ℕ → ℕ → List ℕ → File → Io (Unit {0})
full_write eintr enospc buffer f =
    write_loop (length f.answers + 2) eintr enospc buffer (record f { file_size = none })

-- The loop of `_gdbm_file_extend`: the bytes that could not be written, and the file.
unfoldable pub extend_loop : ℕ → ℕ → ℕ → File → Option (ℕ × File)
extend_loop zero page_size size f = none
extend_loop (suc fuel) page_size size f = elim (size == 0) [
  | true ↦ some (0, f)
  | false ↦
      let (n, f') = write_call (replicate (if ltb size page_size then size else page_size) 0) f in
      elim n [
        | none ↦ some (size, set_error file_write_error true f')
        | some k ↦ elim (k == 0) [
          | true ↦ some (size, set_error file_write_error true f')
          | false ↦ extend_loop fuel page_size (size - k) f'
        ]
      ]
]

-- `lseek` to the end; a failure is `none`, which is -1 in the source and not 0.
abbrev pub seek_end : Bool → File → Option ℕ × File
seek_end ok f =
    if ok
    then (
      some (length f.behind + length f.ahead),
      record f { behind = f.behind ++ f.ahead; ahead = [] },
    )
    else (none, f)

abbrev pub is_zero : Option ℕ → Bool
is_zero none = false
is_zero (some n) = n == 0

abbrev pub bytes_missing : ℕ → Option ℕ → ℕ
bytes_missing size none = size + 1
bytes_missing size (some file_end) = size - file_end

-- The rest of `_gdbm_file_extend`, with so many bytes to write. A round writes a byte at least.
unfoldable pub extend_by : Bool → ℕ → ℕ → File → Io (Unit {0})
extend_by calloc_ok page_size size f = elim (size == 0) [
  | true ↦ complete tt f
  | false ↦ elim calloc_ok [
    | false ↦ incomplete (set_error malloc_error false f)
    | true ↦
        elim (extend_loop (size + 1) (if ltb size page_size then size else page_size) size
          (record f { file_size = none })) [
            | none ↦ unended
            | some r ↦ if r.0 == 0 then complete tt r.1 else incomplete r.1
          ]
  ]
]

unfoldable pub file_extend : Bool → Bool → ℕ → ℕ → File → Io (Unit {0})
file_extend seek_ok calloc_ok page_size size f =
    let (file_end, f') = seek_end seek_ok f in
    elim (is_zero file_end) [
      | true ↦ incomplete (set_error file_seek_error false f')
      | false ↦ extend_by calloc_ok page_size (bytes_missing size file_end) f'
    ]
