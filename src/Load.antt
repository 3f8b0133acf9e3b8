-- ===== src/Load.antt =====
-- src/gdbmload.c: reading the records of an ASCII dump.
pub mod Parms
pub mod Record
pub mod Lines
pub mod Long
pub mod Numbers
pub mod Header
pub mod Data
pub mod First
pub mod RoundTrip
pub mod Records
pub mod Trailer
pub mod Whole
pub mod Loops
use gdbm.Prelude.{
  ℕ, zero, suc, ◌+◌, ◌*◌, ◌/◌, Bool, true, false, not, ◌&&◌, ◌||◌, Option, none, some, List, [],
  ◌∷◌, ◌++◌, ltb, ◌==◌, if◌then◌else◌, length, take, drop,
}
use gdbm.Errno.{GdbmError, malloc_error, file_read_error, file_eof}
use gdbm.Dump.{newline, max_dump_line_len}

-- `struct dump_file`. `fp` are the bytes that the stream still gives, and `fails` tells whether
-- reading past them is an error; `ferror` and `feof` are the stream's flags. The two buffers hold
-- what has been written to them, `buffer` up to `buflevel`. `answers` are those of realloc; when
-- there are no more, it succeeds.
pub record DumpFile : Type 0 where
  pub fp : List ℕ
  pub fails : Bool
  pub ferror : Bool
  pub feof : Bool
  pub line : ℕ
  pub linebuf : List ℕ
  pub lbsize : ℕ
  pub lblevel : ℕ
  pub buffer : List ℕ
  pub bufsize : ℕ
  pub parmc : ℕ
  pub datsize : ℕ → ℕ
  pub answers : List Bool

-- How a function ends: with GDBM_NO_ERROR and its result, with another code, by a read of bytes that
-- have never been written, or not within the rounds given.
pub data LoadEnd {ℓ} (A : Type ℓ) : Type ℓ where
  loaded : A → DumpFile → LoadEnd A
  load_error : GdbmError → DumpFile → LoadEnd A
  undefined unended : LoadEnd A

abbrev pub M : Type 0 → Type 0
M A = DumpFile → LoadEnd A

infixl 40 ◌>>=◌
abbrev pub ◌>>=◌ : {A B : Type 0} → M A → (A → M B) → M B
(m >>= f) s = elim (m s) [
  | loaded a s' ↦ f a s'
  | load_error ec s' ↦ load_error ec s'
  | undefined ↦ undefined
  | unended ↦ unended
]

-- What fgets takes into a buffer for so many bytes.
unfoldable pub take_line : ℕ → List ℕ → List ℕ × List ℕ
take_line zero xs = ([], xs)
take_line (suc k) [] = ([], [])
take_line (suc k) (x ∷ xs) =
    let (l, r) = take_line k xs in if x == newline then (x ∷ [], xs) else (x ∷ l, r)

-- A C string's bytes before the NUL.
unfoldable pub until_nul : List ℕ → List ℕ
until_nul [] = []
until_nul (x ∷ xs) = if x == 0 then [] else x ∷ until_nul xs

-- A string without the newline at its end, and whether there was one.
unfoldable pub chomp : List ℕ → List ℕ × Bool
chomp [] = ([], false)
chomp (x ∷ []) = if x == newline then ([], true) else (x ∷ [], false)
chomp (x ∷ y ∷ ys) = let (l, ended) = chomp (y ∷ ys) in (x ∷ l, ended)

-- fgets for the 80 bytes of `buf`: it returns NULL at the end of the file if it has read nothing,
-- and on an error.
unfoldable pub fgets : DumpFile → Option (List ℕ × DumpFile)
fgets s =
    let (l, r) = take_line 79 s.fp in
    let at_end = not (chomp l).1 && length r == 0 && ltb (length l) 79 in
    if length l == 0 || (s.fails && at_end)
    then none
    else some (l, record s { fp = r; feof = if at_end then true else s.feof })

-- memcpy to an offset within what has been written, or at its end.
unfoldable pub write_at : ℕ → List ℕ → List ℕ → List ℕ
write_at k ys xs = take k xs ++ ys ++ drop (k + length ys) xs

-- realloc.
unfoldable pub reallocate : (DumpFile → DumpFile) → M (Unit {0})
reallocate resize s = elim s.answers [
  | [] ↦ loaded tt (resize s)
  | ok ∷ rest ↦
      if ok
      then loaded tt (resize (record s { answers = rest }))
      else load_error malloc_error (record s { answers = rest })
]

unfoldable pub line_room : ℕ → M (Unit {0})
line_room n s =
    let size = (s.lblevel + n + max_dump_line_len) / max_dump_line_len * max_dump_line_len in
    if ltb s.lbsize (n + 1 + s.lblevel)
    then reallocate (λ s. record s { lbsize = size }) s
    else loaded tt s

-- What a round stores of the text that it has read, and the NUL at the end of the line.
unfoldable pub store_text : List ℕ → Bool → M (Unit {0})
store_text body ended s =
    elim (line_room (length body) (if ended then record s { line = s.line + 1 } else s)) [
      | loaded u s1 ↦
          let level = s1.lblevel + length body in
          let text = write_at s1.lblevel body s1.linebuf in
          loaded tt (record s1 {
            linebuf = if ended then write_at level (0 ∷ []) text else text;
            lblevel = level;
          })
      | load_error ec s1 ↦ load_error ec s1
      | undefined ↦ undefined
      | unended ↦ unended
    ]

-- The `while` loop; each round but the last reads a byte at least.
unfoldable pub line_loop : ℕ → M (Unit {0})
line_loop zero s = unended
line_loop (suc fuel) s = elim (fgets s) [
  | none ↦
      loaded tt (record s { ferror = s.ferror || s.fails; feof = if s.fails then s.feof else true })
  | some (buf, s1) ↦
      let (body, ended) = chomp (until_nul buf) in
      elim (store_text body ended s1) [
        | loaded u s2 ↦ elim ended [ true ↦ loaded tt s2 | false ↦ line_loop fuel s2 ]
        | load_error ec s2 ↦ load_error ec s2
        | undefined ↦ undefined
        | unended ↦ unended
      ]
]

-- The result is `*nread`.
unfoldable pub get_dump_line : M ℕ
get_dump_line s = elim (if s.lblevel == 0 then line_loop (suc (length s.fp)) s else loaded tt s) [
  | loaded u s1 ↦
      if s1.ferror
      then load_error file_read_error s1
      else if s1.lblevel == 0
      then load_error file_eof s1
      else loaded s1.lblevel s1
  | load_error ec s1 ↦ load_error ec s1
  | undefined ↦ undefined
  | unended ↦ unended
]
