-- ===== src/Load/Parms.antt =====
-- src/gdbmload.c: the parameter lines of a dump, `#:name=value,...`, and the look-up of a parameter.
use gdbm.Prelude.{
  ℕ, zero, suc, ◌+◌, ◌-◌, ◌*◌, ◌/◌, Bool, true, false, ◌&&◌, ◌||◌, List, [], ◌∷◌, ◌++◌, ltb, ◌==◌,
  if◌then◌else◌, length, bytes_eq, take, drop,
}
use gdbm.Errno.{GdbmError, malformed_data, file_eof, code}
use gdbm.Dump.{max_dump_line_len}
use gdbm.Load.{
  DumpFile, LoadEnd, loaded, load_error, undefined, unended, M, ◌>>=◌, reallocate, get_dump_line,
}

-- The bytes before the first that is NUL or one that stops, and those from it on. An empty second
-- part means that the scan left what has been written.
unfoldable pub take_until : (ℕ → Bool) → List ℕ → List ℕ × List ℕ
take_until stops [] = ([], [])
take_until stops (x ∷ xs) =
    let (l, r) = take_until stops xs in if x == 0 || stops x then ([], x ∷ xs) else (x ∷ l, r)

unfoldable pub skip_blanks : List ℕ → List ℕ
skip_blanks [] = []
skip_blanks (x ∷ xs) = let rest = skip_blanks xs in if x == b' ' || x == b'\t' then rest else x ∷ xs

unfoldable pub has_prefix : List ℕ → List ℕ → Bool
has_prefix pfx xs = bytes_eq (take (length pfx) xs) pfx

abbrev pub len_pfx : List ℕ
len_pfx = b'l' ∷ b'e' ∷ b'n' ∷ b'=' ∷ []

abbrev pub count_pfx : List ℕ
count_pfx = b'c' ∷ b'o' ∷ b'u' ∷ b'n' ∷ b't' ∷ b'=' ∷ []

-- A value, which may be quoted, and what follows it.
unfoldable pub take_value : List ℕ → List ℕ × List ℕ
take_value [] = ([], [])
take_value (c ∷ cs) = elim (c == b'"') [
  | true ↦
      let (v, r) = take_until (λ x. x == b'"') cs in
      (v, elim r [ [] ↦ [] | d ∷ ds ↦ if d == b'"' then ds else d ∷ ds ])
  | false ↦ take_until (λ x. x == b',') (c ∷ cs)
]

-- What the parameters of the lines have given: `file->buffer`, `file->parmc` and `len_seen`.
pub record Parms : Type 0 where
  pub text : List ℕ
  pub count : ℕ
  pub len_seen : Bool

-- How the loop over a line ends: at the end of the line, with `goto end` at the place given, with
-- GDBM_MALFORMED_DATA, or past what has been written.
pub data LineEnd : Type 0 where
  line_done : Parms → LineEnd
  stopped_at_len stopped_at_count : List ℕ → Parms → LineEnd
  malformed : Parms → LineEnd
  off_end : LineEnd

-- `while (*p)`; each round moves p, so that fuel for each byte is enough.
unfoldable pub parm_loop : ℕ → List ℕ → Parms → LineEnd
parm_loop zero p s = off_end
parm_loop (suc fuel) [] s = off_end
parm_loop (suc fuel) (c ∷ cs) s = elim (c == 0) [
  | true ↦ line_done s
  | false ↦
      let p = skip_blanks cs in
      elim p [
        | [] ↦ off_end
        | d ∷ ds ↦
            if d == 0
            then line_done s
            else if has_prefix len_pfx (d ∷ ds) && s.len_seen
            then stopped_at_len (d ∷ ds) s
            else if s.len_seen && has_prefix count_pfx (d ∷ ds)
            then stopped_at_count (d ∷ ds) s
            else (let (name, r) = take_until (λ x. x == b'=') (d ∷ ds) in
                elim r [
                  | [] ↦ off_end
                  | e ∷ es ↦ elim (e == b'=') [
                    | false ↦ malformed (record s { text = s.text ++ name })
                    | true ↦
                        let (value, q) = take_value es in
                        parm_loop fuel q (record {
                          text = s.text ++ name ++ b'=' ∷ value ++ 0 ∷ [];
                          count = s.count + 1;
                          len_seen = s.len_seen || has_prefix len_pfx (d ∷ ds);
                        })
                  ]
                ])
      ]
]

-- Room in `buffer` for n bytes and so many more.
unfoldable pub buffer_room : ℕ → ℕ → M (Unit {0})
buffer_room n extra s =
    let level = length s.buffer in
    let size =
      (level + n + max_dump_line_len - 1 + extra) / max_dump_line_len * max_dump_line_len in
    if ltb s.bufsize (n + extra + level)
    then reallocate (λ s. record s { bufsize = size }) s
    else loaded tt s

-- `file->lblevel = 0`.
abbrev pub next_line : DumpFile → DumpFile
next_line s = record s { lblevel = 0 }

abbrev pub parms_of : Bool → DumpFile → Parms
parms_of seen s = record { text = s.buffer; count = s.parmc; len_seen = seen }

abbrev pub with_parms : Parms → DumpFile → DumpFile
with_parms k s = record s { buffer = k.text; parmc = k.count }

-- The label `end`, for a code: the end of the file is no error when there are parameters.
abbrev pub at_eof : GdbmError → DumpFile → LoadEnd (Unit {0})
at_eof ec s =
    if code ec == code file_eof && ltb 0 (length s.buffer) then loaded tt s else load_error ec s

-- The loop over the parameters of the line in `linebuf`, which start with ':'. The result tells
-- whether the loop over the lines goes on, and the new `len_seen`.
unfoldable pub parms_line : List ℕ → Bool → M (Bool × Bool)
parms_line p seen s = elim (parm_loop (length p) p (parms_of seen s)) [
  | line_done k ↦ loaded (true, k.len_seen) (next_line (with_parms k s))
  | stopped_at_len q k ↦
      let s1 = with_parms k s in
      let (text, end) = take_until (λ x. false) q in
      elim end [
        | [] ↦ undefined
        | nul ∷ rest ↦
            if ltb (length q + 2) (length s.linebuf)
            then loaded (false, k.len_seen)
                (record s1 {
                  linebuf = b'#' ∷ b':' ∷ text ++ 0 ∷ drop (length text + 3) s.linebuf;
                  lblevel = length text + 2;
                })
            else loaded (false, k.len_seen) s1
      ]
  | stopped_at_count q k ↦ loaded (false, k.len_seen) (with_parms k s)
  | malformed k ↦ load_error malformed_data (with_parms k s)
  | off_end ↦ undefined
]

-- The `while` loop over the lines; each round but the last takes a line.
unfoldable pub parms_loop : ℕ → Bool → M (Unit {0})
parms_loop zero seen s = unended
parms_loop (suc fuel) seen s = elim (get_dump_line s) [
  | load_error ec s1 ↦ at_eof ec s1
  | undefined ↦ undefined
  | unended ↦ unended
  | loaded n s1 ↦ elim s1.linebuf [
    | [] ↦ undefined
    | h ∷ t ↦ elim (h == b'#') [
      | false ↦ loaded tt s1
      | true ↦ elim t [
        | [] ↦ undefined
        | c ∷ cs ↦ elim (c == b':') [
          | false ↦ elim (s1.parmc == 0) [
            | true ↦ parms_loop fuel seen (next_line s1)
            | false ↦ loaded tt (next_line s1)
          ]
          | true ↦ elim (n - 1 == 0) [
            | true ↦ parms_loop fuel seen (next_line s1)
            | false ↦ elim ((buffer_room (n - 1) 1 >>= λ u. parms_line (c ∷ cs) seen) s1) [
              | loaded (goes_on, seen') s2 ↦ elim goes_on [
                | true ↦ parms_loop fuel seen' s2
                | false ↦ loaded tt s2
              ]
              | load_error ec s2 ↦ load_error ec s2
              | undefined ↦ undefined
              | unended ↦ unended
            ]
          ]
        ]
      ]
    ]
  ]
]

unfoldable pub get_parms : ℕ → M (Unit {0})
get_parms fuel s = parms_loop fuel false (record s { buffer = []; parmc = 0 })
