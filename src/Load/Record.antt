-- ===== src/Load/Record.antt =====
-- src/gdbmload.c: the lines of data, and a record's key or content.
use gdbm.Prelude.{
  ℕ, zero, suc, ◌+◌, ◌-◌, ◌*◌, ◌%◌, ◌^◌, Bool, true, false, ◌&&◌, ◌||◌, List, [], ◌∷◌, ◌++◌, leb,
  ◌==◌, if◌then◌else◌, length, take,
}
use gdbm.Errno.{malloc_error, malformed_data, item_not_found}
use gdbm.Base64.{base64_decode}
use gdbm.Base64
use gdbm.Load.{loaded, load_error, undefined, unended, M, ◌>>=◌, get_dump_line}
use gdbm.Load.Parms.{buffer_room, next_line, at_eof, get_parms}

-- Where getparm leads to: NULL, a value in the buffer, or past what has been written.
pub data Parm : Type 0 where
  absent : Parm
  value_at : List ℕ → Parm
  beyond : Parm

-- `for (p = parm; *p == *buf; p++, buf++)`: what is left of the name and of the buffer.
unfoldable pub common : List ℕ → List ℕ → List ℕ × List ℕ
common [] buf = ([], buf)
common (p ∷ ps) [] = (p ∷ ps, [])
common (p ∷ ps) (b ∷ bs) = let rest = common ps bs in if p == b then rest else (p ∷ ps, b ∷ bs)

-- `buf += strlen (buf) + 1`.
unfoldable pub after_nul : List ℕ → List ℕ
after_nul [] = []
after_nul (x ∷ xs) = let rest = after_nul xs in if x == 0 then xs else rest

-- Fuel for each byte of the buffer is enough.
unfoldable pub getparm : ℕ → List ℕ → List ℕ → Parm
getparm zero buf parm = beyond
getparm (suc fuel) [] parm = beyond
getparm (suc fuel) (c ∷ cs) parm = elim (c == 0) [
  | true ↦ absent
  | false ↦
      let (p, buf) = common parm (c ∷ cs) in
      let rest = getparm fuel (after_nul buf) parm in
      elim buf [
        | [] ↦ beyond
        | b ∷ bs ↦ elim p [
          | [] ↦ if b == b'=' then value_at bs else if b == 0 then beyond else rest
          | q ∷ qs ↦ rest
        ]
      ]
]

unfoldable pub is_space : ℕ → Bool
is_space c = c == 32 || (leb 9 c && leb c 13)

unfoldable pub skip_space : List ℕ → List ℕ
skip_space [] = []
skip_space (x ∷ xs) = let rest = skip_space xs in if is_space x then rest else x ∷ xs

-- The digits, with the value so far.
unfoldable pub digits_loop : ℕ → List ℕ → ℕ × List ℕ
digits_loop v [] = (v, [])
digits_loop v (x ∷ xs) =
    let rest = digits_loop (v * 10 + (x - b'0')) xs in
    if leb b'0' x && leb x b'9' then rest else (v, x ∷ xs)

-- A sign, and what follows it.
unfoldable pub sign : List ℕ → Bool × List ℕ
sign [] = (false, [])
sign (x ∷ xs) = if x == b'-' then (true, xs) else if x == b'+' then (false, xs) else (false, x ∷ xs)

-- strtoul in base 10: the value, where it stops, and whether there is no overflow.
unfoldable pub strtoul : List ℕ → ℕ × List ℕ × Bool
strtoul p =
    let q = skip_space p in
    let (minus, digits) = sign q in
    let (v, rest) = digits_loop 0 digits in
    if length rest == length digits
    then (0, p, true)
    else if leb (2 ^ 64) v
    then (2 ^ 64 - 1, rest, false)
    else (if minus then (2 ^ 64 - v) % 2 ^ 64 else v, rest, true)

abbrev len_name : List ℕ
len_name = b'l' ∷ b'e' ∷ b'n' ∷ []

unfoldable pub get_num : List ℕ → List ℕ → M ℕ
get_num param name s = elim (getparm (length param) param name) [
  | absent ↦ load_error item_not_found s
  | beyond ↦ undefined
  | value_at p ↦
      let (n, rest, in_range) = strtoul p in
      elim rest [
        | [] ↦ undefined
        | c ∷ cs ↦ if c == 0 && in_range then loaded n s else load_error malformed_data s
      ]
]

unfoldable pub get_len : List ℕ → M ℕ
get_len param = get_num param len_name

-- The first loop. The line that it reads stays where it is, so that a line that starts with '#' is
-- read for ever.
unfoldable pub skip_loop : ℕ → M ℕ
skip_loop zero s = unended
skip_loop (suc fuel) s = elim (get_dump_line s) [
  | loaded n s1 ↦ elim s1.linebuf [
    | [] ↦ undefined
    | h ∷ t ↦ elim (h == b'#') [ true ↦ skip_loop fuel s1 | false ↦ loaded n s1 ]
  ]
  | load_error ec s1 ↦ load_error ec s1
  | undefined ↦ undefined
  | unended ↦ unended
]

-- The second loop, from its body on.
unfoldable pub data_loop : ℕ → ℕ → M (Unit {0})
data_loop zero n s = unended
data_loop (suc fuel) n s = elim s.linebuf [
  | [] ↦ undefined
  | h ∷ t ↦ elim (h == b'#') [
    | true ↦ loaded tt s
    | false ↦ elim (buffer_room n 0 s) [
      | loaded u s1 ↦
          elim (get_dump_line (next_line (record s1 { buffer = s1.buffer ++ take n s1.linebuf }))) [
            | loaded m s2 ↦ data_loop fuel m s2
            | load_error ec s2 ↦ at_eof ec s2
            | undefined ↦ undefined
            | unended ↦ unended
          ]
      | load_error ec s1 ↦ load_error ec s1
      | undefined ↦ undefined
      | unended ↦ unended
    ]
  ]
]

unfoldable pub get_data : ℕ → M (Unit {0})
get_data fuel s = (skip_loop fuel >>= data_loop fuel) (record s { buffer = []; parmc = 0 })

-- `dsize` is an int, in its 32 bits.
pub record Datum : Type 0 where
  pub dsize : ℕ
  pub dptr : List ℕ

-- The decoding of what get_data has read. `realloc_ok` is the answer of realloc, if the decoder
-- calls it.
unfoldable pub decode_data : Bool → ℕ → ℕ → M Datum
decode_data realloc_ok n len s =
    let (d, size) = base64_decode realloc_ok s.buffer (s.datsize n) in
    let s1 = record s { datsize = λ k. if k == n then size else s.datsize k } in
    elim d.rc [
      | Base64.no_error ↦
          if d.inbytes == length s.buffer && d.outbytes == len
          then loaded (record { dsize = len % 2 ^ 32; dptr = d.output }) s1
          else load_error malformed_data s1
      | Base64.malloc_error ↦ load_error malloc_error s1
      | Base64.malformed_data ↦ load_error malformed_data s1
    ]

-- What follows get_parms. The buffer ends with the NUL that get_parms stores.
unfoldable pub read_value : ℕ → Bool → ℕ → M Datum
read_value fuel realloc_ok n s =
    if s.parmc == 0
    then load_error item_not_found s
    else ((get_len (s.buffer ++ 0 ∷ []) >>= λ len.
          if len == 0
          then loaded (record { dsize = 0; dptr = [] })
          else get_data fuel >>= λ u. decode_data realloc_ok n len)
        s)

unfoldable pub read_record : ℕ → Bool → ℕ → M Datum
read_record fuel realloc_ok n = get_parms fuel >>= λ u. read_value fuel realloc_ok n
