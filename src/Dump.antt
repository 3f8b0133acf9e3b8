-- ===== src/Dump.antt =====
-- src/gdbmdump.c: the records of an ASCII dump. A stream is the list of the bytes written to it.
pub mod Digits
pub mod Lines
use gdbm.Prelude.{
  ℕ, zero, suc, ◌+◌, ◌/◌, ◌%◌, Bool, true, false, Option, none, some, List, [], ◌∷◌, ◌++◌, ltb,
  ◌==◌, if◌then◌else◌, length, take, drop,
}
use gdbm.Base64.{Code, Encoded, base64_encode}
use gdbm.Base64
use gdbm.Errno.{GdbmError, no_error, malloc_error, malformed_data, file_write_error, code}

abbrev pub newline : ℕ
newline = b'\n'

-- `_GDBM_MAX_DUMP_LINE_LEN`.
abbrev pub max_dump_line_len : ℕ
max_dump_line_len = 76

-- The decimal digits that `%lu` prints; fuel n + 1 is enough for n.
unfoldable pub digits_of : ℕ → ℕ → List ℕ
digits_of zero n = []
digits_of (suc fuel) n =
    let rest = digits_of fuel (n / 10) in
    if ltb n 10 then (b'0' + n) ∷ [] else rest ++ (b'0' + n % 10) ∷ []

unfoldable pub decimal : ℕ → List ℕ
decimal n = digits_of (suc n) n

-- A return code, and what has been written.
pub record Printed : Type 0 where
  pub rc : GdbmError
  pub output : List ℕ
  pub bufsize : ℕ

-- The lines of the `while` loop. `answers` are those of fwrite; when there are no more, it succeeds.
-- Fuel for each byte is enough, as a line has one at least.
unfoldable pub print_lines : ℕ → List Bool → List ℕ → GdbmError × List ℕ
print_lines zero answers p = (no_error, [])
print_lines (suc fuel) answers [] = (no_error, [])
print_lines (suc fuel) [] (c ∷ p) =
    let (rc, out) = print_lines fuel [] (drop max_dump_line_len (c ∷ p)) in
    (rc, take max_dump_line_len (c ∷ p) ++ newline ∷ out)
print_lines (suc fuel) (false ∷ answers) (c ∷ p) = (file_write_error, [])
print_lines (suc fuel) (true ∷ answers) (c ∷ p) =
    let (rc, out) = print_lines fuel answers (drop max_dump_line_len (c ∷ p)) in
    (rc, take max_dump_line_len (c ∷ p) ++ newline ∷ out)

abbrev pub len_line : ℕ → List ℕ
len_line n = b'#' ∷ b':' ∷ b'l' ∷ b'e' ∷ b'n' ∷ b'=' ∷ decimal n ++ newline ∷ []

-- `realloc_ok` is the answer of realloc, if the encoder calls it.
unfoldable pub print_datum : Bool → List Bool → List ℕ → ℕ → Printed
print_datum realloc_ok answers dat bufsize =
    let head = len_line (length dat) in
    let e = base64_encode realloc_ok dat bufsize in
    elim e.rc [
      | Base64.no_error ↦
          let p = take e.nbytes e.output in
          if e.nbytes == 0
          then record {
            rc = no_error;
            output = head ++ b'#' ∷ newline ∷ [];
            bufsize = e.output_size;
          }
          else (let (rc, out) = print_lines (length p) answers p in
              record { rc = rc; output = head ++ out; bufsize = e.output_size })
      | Base64.malloc_error ↦ record { rc = malloc_error; output = head; bufsize = e.output_size }
      | Base64.malformed_data ↦ record {
        rc = malformed_data;
        output = head;
        bufsize = e.output_size;
      }
    ]

-- The result code, what has been written, and the number of records.
pub record Dumped : Type 0 where
  pub rc : GdbmError
  pub output : List ℕ
  pub count : ℕ

-- The loop over the records. `none` is a key whose content cannot be fetched. `io` gives the answers
-- of realloc and fwrite to each call of print_datum.
unfoldable pub dump_loop :
    (ℕ → Bool × List Bool) → ℕ → List (List ℕ × Option (List ℕ)) → ℕ → ℕ → Dumped
dump_loop io k [] bufsize count = record { rc = no_error; output = []; count = count }
dump_loop io k ((key, none) ∷ rest) bufsize count = record {
  rc = no_error;
  output = [];
  count = count;
}
dump_loop io k ((key, some content) ∷ rest) bufsize count =
    let a = print_datum (io k).0 (io k).1 key bufsize in
    let b = print_datum (io (k + 1)).0 (io (k + 1)).1 content a.bufsize in
    let d = dump_loop io (k + 2) rest b.bufsize (count + 1) in
    if code a.rc == 0
    then (if code b.rc == 0
        then record { rc = d.rc; output = a.output ++ (b.output ++ d.output); count = d.count }
        else record { rc = b.rc; output = a.output ++ b.output; count = count })
    else record { rc = a.rc; output = a.output; count = count }

-- The line "#:count=%lu" and the comment at the end.
abbrev pub trailer : ℕ → List ℕ
trailer n =
    b'#' ∷ b':' ∷ b'c' ∷ b'o' ∷ b'u' ∷ b'n' ∷ b't' ∷ b'=' ∷ decimal n
    ++ newline ∷ b'#' ∷ b' ' ∷ b'E' ∷ b'n' ∷ b'd' ∷ b' ' ∷ b'o' ∷ b'f' ∷ b' ' ∷ b'd' ∷ b'a' ∷ b't'
      ∷ b'a' ∷ newline ∷ []

-- The dump from the first record on.
unfoldable pub dump_records :
    (ℕ → Bool × List Bool) → List (List ℕ × Option (List ℕ)) → GdbmError × List ℕ
dump_records io items = let d = dump_loop io 0 items 0 0 in (d.rc, d.output ++ trailer d.count)
