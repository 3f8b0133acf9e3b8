-- ===== src/Load/RoundTrip.antt =====
-- src/gdbmload.c and src/gdbmdump.c: a datum that is printed is read again.
use mathlib.Core.Path.{subst}
use mathlib.Core.List.{append_assoc}
use gdbm.Prelude.{
  ℕ, ==_ne, zero, suc, ◌+◌, ◌*◌, ◌^◌, ◌%◌, ◌≤◌, ◌<◌, ◌≡◌, ◌≢◌, refl, ap, sym, ◌∙◌, true, List, [],
  ◌∷◌, ◌++◌, ◌==◌, if◌then◌else◌, length, take, drop, All, inl, inr, arith,
}
use gdbm.Base64.{encode_bytes, base64_decode}
use gdbm.Base64.Buffer.{length-encode_bytes}
use gdbm.Base64.RoundTrip.{AreBytes, base64_decode-encode_bytes}
use gdbm.Dump.{newline, len_line, print_lines, print_datum}
use gdbm.Dump.Lines.{IsText, encode_bytes-IsText, print_datum_empty, print_datum_lines}
use gdbm.Load.{DumpFile, loaded, M, ◌>>=◌}
use gdbm.Load.Lines.{ready, held, get_dump_line-held}
use gdbm.Load.Parms.{get_parms}
use gdbm.Load.Record.{
  Datum, get_len, skip_loop, data_loop, get_data, decode_data, read_value, read_record,
}
use gdbm.Load.Header.{len_bytes, len_text, parms_loop_data, parms_loop_empty}
use gdbm.Load.First.{get_len_text, get_parms_len}
use gdbm.Load.Data.{Pending, Starts, take-IsLine, data_loop-print_lines}

skip_loop_data :
    (fuel : ℕ) (s : DumpFile) (c : ℕ) (l stale rest buffer : List ℕ) (k : ℕ)
    → c ≢ b'#'
    → skip_loop (suc fuel) (held s (c ∷ l) stale rest buffer k)
      ≡ loaded (length (c ∷ l)) (held s (c ∷ l) stale rest buffer k)
unfolding skip_loop
skip_loop_data fuel s c l stale rest buffer k h =
    rw (get_dump_line-held s (c ∷ l) stale rest buffer k (omega arith), skip_loop)
      (rw (==_ne c b'#' h) refl)

pub >>=-loaded :
    {A B : Type 0} (m : M A) (f : A → M B) (s : DumpFile) {a : A} {s' : DumpFile}
    → m s ≡ loaded a s'
    → (m >>= f) s ≡ f a s'
>>=-loaded m f s e = rw (e, ◌>>=◌) refl

-- get_data, from the first line on.
get_data_lines :
    (n fuel : ℕ) (s : DumpFile) (c : ℕ) (p stale text buffer : List ℕ) (k : ℕ)
    → All IsText (c ∷ p)
    → length p ≤ n
    → n + 1 < fuel
    → Starts text
    → (x : DumpFile) × (get_data fuel
          (held s (take 76 (c ∷ p)) stale ((print_lines n [] (drop 76 (c ∷ p))).1 ++ text) buffer k)
        ≡ loaded tt x)
      × Pending text (c ∷ p) x
unfolding get_data
get_data_lines n zero s c p stale text buffer k h few enough starts = absurd (omega arith)
get_data_lines n (suc fuel) s c p stale text buffer k h few enough starts =
    let rest = (print_lines n [] (drop 76 (c ∷ p))).1 ++ text in
    let (x, e, pending) =
      data_loop-print_lines n (suc fuel) s c p stale text [] 0 h few enough starts in
    (
      x,
      >>=-loaded (skip_loop (suc fuel)) (data_loop (suc fuel)) _
            (skip_loop_data fuel s c (take 75 p) stale rest [] 0 h.0.1)
          ∙ e,
      pending,
    )

abbrev resize : (ℕ → ℕ) → DumpFile → DumpFile
resize f x = record x { datsize = f }

Pending-datsize :
    (text buffer : List ℕ) (x : DumpFile) (f : ℕ → ℕ)
    → Pending text buffer x
    → Pending text buffer (resize f x)
Pending-datsize text buffer x f (s, k, inl e) = (resize f s, k, inl (ap (resize f) e))
Pending-datsize text buffer x f (s, k, inr (l, stale, rest, same, h, e)) =
    (resize f s, k, inr (l, stale, rest, same, h, ap (resize f) e))

Pending-buffer : (text buffer : List ℕ) (x : DumpFile) → Pending text buffer x → x.buffer ≡ buffer
Pending-buffer text buffer x (s, k, inl e) = ap (λ y. y.buffer) e
Pending-buffer text buffer x (s, k, inr (l, stale, rest, same, h, e)) = ap (λ y. y.buffer) e

pub ==_self : (n : ℕ) → (n == n) ≡ true
==_self n = ground arith

decode_data-encode_bytes :
    (which : ℕ) (xs text : List ℕ) (x : DumpFile)
    → AreBytes xs
    → length xs < 2 ^ 32
    → Pending text (encode_bytes xs) x
    → (x' : DumpFile) × (decode_data true which (length xs) x
        ≡ loaded (record { dsize = length xs; dptr = xs }) x')
      × Pending text (encode_bytes xs) x'
unfolding decode_data
decode_data-encode_bytes which xs text x h small pending =
    let fits : length xs % 2 ^ 32 ≡ length xs = omega arith in
    let f : ℕ → ℕ = λ k.
      if k == which
      then (base64_decode true (encode_bytes xs) (x.datsize which)).1
      else x.datsize k in
    (
      resize f x,
      rw (Pending-buffer text (encode_bytes xs) x pending) (
          rw (base64_decode-encode_bytes xs (x.datsize which) h, decode_data)
            (rw (base64_decode-encode_bytes xs (x.datsize which) h)
              (rw (==_self (length (encode_bytes xs)), ==_self (length xs), fits) refl))),
      Pending-datsize text (encode_bytes xs) x f pending,
    )

encode_bytes_cons :
    (a : ℕ) (xs : List ℕ)
    → (c : ℕ) × (p : List ℕ) × (encode_bytes (a ∷ xs) ≡ c ∷ p) × (length p ≤ 2 * length xs + 4)
unfolding encode_bytes
encode_bytes_cons a [] = (_, _, refl, omega arith)
encode_bytes_cons a (b ∷ []) = (_, _, refl, omega arith)
encode_bytes_cons a (b ∷ c ∷ xs) = (_, _, refl, omega (arith, length-encode_bytes xs))

-- The first line of what print_datum writes.
pub len_line-len_bytes :
    (n : ℕ) (body text : List ℕ)
    → len_line n ++ body ++ text ≡ len_bytes n ++ newline ∷ (body ++ text)
len_line-len_bytes n body text = simp append_assoc refl

abbrev pub value_of : ℕ → ℕ → ℕ → M Datum
value_of fuel which n =
    if n == 0
    then loaded (record { dsize = 0; dptr = [] })
    else get_data fuel >>= λ u. decode_data true which n

-- What follows get_parms for a length.
pub read_value_len :
    (n fuel which : ℕ) (s : DumpFile)
    → n < 2 ^ 64
    → let s' = record s { buffer = len_text n; parmc = 1 } in
      read_value fuel true which s' ≡ value_of fuel which n s'
unfolding read_value
read_value_len n fuel which s h =
    >>=-loaded (get_len (len_text n ++ 0 ∷ [])) (value_of fuel which)
      (record s { buffer = len_text n; parmc = 1 }) (get_len_text n _ h)

lines_split :
    (c : ℕ) (p text : List ℕ)
    → (print_lines (length (c ∷ p)) [] (c ∷ p)).1 ++ text
      ≡ take 76 (c ∷ p) ++ newline ∷ ((print_lines (length p) [] (drop 76 (c ∷ p))).1 ++ text)
unfolding print_lines
lines_split c p text = rw append_assoc refl

-- The lines of a datum with a byte at least.
print_datum_split :
    (a : ℕ) (xs : List ℕ) (size c : ℕ) (p text : List ℕ)
    → encode_bytes (a ∷ xs) ≡ c ∷ p
    → (print_datum true [] (a ∷ xs) size).output ++ text
      ≡ len_bytes (length (a ∷ xs))
        ++ newline
          ∷ (take 76 (c ∷ p) ++ newline ∷ ((print_lines (length p) [] (drop 76 (c ∷ p))).1 ++ text))
print_datum_split a xs size c p text e =
    ap (λ t. t ++ text)
      (print_datum_lines a xs size
        ∙ ap (λ q. len_line (length (a ∷ xs)) ++ (print_lines (length q) [] q).1) e)
    ∙ len_line-len_bytes (length (a ∷ xs)) _ text
    ∙ ap (λ t. len_bytes (length (a ∷ xs)) ++ newline ∷ t) (lines_split c p text)

-- What get_data and the decoder give for them.
value_of_lines :
    (fuel which : ℕ) (s : DumpFile) (a : ℕ) (xs : List ℕ) (c : ℕ) (p stale text buffer : List ℕ)
    (k : ℕ)
    → AreBytes (a ∷ xs)
    → length (a ∷ xs) < 2 ^ 31
    → encode_bytes (a ∷ xs) ≡ c ∷ p
    → length p + 1 < fuel
    → Starts text
    → let n = length (a ∷ xs) in
      (x : DumpFile) × (value_of fuel which n (
          held s
            (take 76 (c ∷ p))
            stale
            ((print_lines (length p) [] (drop 76 (c ∷ p))).1 ++ text)
            buffer
            k)
        ≡ loaded (record { dsize = n; dptr = a ∷ xs }) x)
      × Pending text (encode_bytes (a ∷ xs)) x
value_of_lines fuel which s a xs c p stale text buffer k h small e enough starts =
    let are_text : All IsText (c ∷ p) = subst (All IsText) e (encode_bytes-IsText (a ∷ xs) h) in
    let (x, read, pending) =
      get_data_lines (length p) fuel s c p stale text buffer k are_text (omega arith) enough
        starts in
    let (x', decoded, pending') =
      decode_data-encode_bytes which (a ∷ xs) text x h (omega arith)
        (subst (λ b. Pending text b x) (sym e) pending) in
    (
      x',
      rw (==_ne (length (a ∷ xs)) 0 (omega arith)) (
          >>=-loaded (get_data fuel) (λ u. decode_data true which (length (a ∷ xs))) _ read
          ∙ decoded),
      pending',
    )

-- A stream in which reading does not fail and memory that is not short, where the text to be read is
-- what print_datum has written for a list of bytes, and a text behind it that is empty or starts with
-- a line of parameters or a comment; a line of it may have been read ahead. With as many rounds as
-- twice the bytes and 8, reading a record gives the list back, if it is shorter than 2 ^ 31, and
-- leaves the text behind it to be read.
pub read_record-print_datum :
    (fuel which size : ℕ) (dat text buffer : List ℕ) (x : DumpFile)
    → AreBytes dat
    → length dat < 2 ^ 31
    → 2 * length dat + 8 ≤ fuel
    → Starts text
    → Pending ((print_datum true [] dat size).output ++ text) buffer x
    → (x' : DumpFile) × (buffer' : List ℕ) × (read_record fuel true which x
        ≡ loaded (record { dsize = length dat; dptr = dat }) x')
      × Pending text buffer' x'
unfolding read_record read_value
read_record-print_datum zero which size dat text buffer x h small enough starts pending =
    absurd (omega arith)
read_record-print_datum (suc zero) which size dat text buffer x h small enough starts pending =
    absurd (omega arith)
read_record-print_datum (suc (suc fuel)) which size [] text buffer x h small enough starts pending =
    let body = b'#' ∷ newline ∷ [] in
    let split = ap (λ t. t ++ text) (print_datum_empty size) ∙ len_line-len_bytes 0 body text in
    let pending' : Pending (len_bytes 0 ++ newline ∷ b'#' ∷ newline ∷ text) buffer x =
      subst (λ t. Pending t buffer x) split pending in
    let (s, first) =
      get_parms_len 0 (suc fuel) (b'#' ∷ newline ∷ text) buffer x (omega arith) pending' in
    let (s', second) = parms_loop_empty s fuel text (len_text 0) 0 in
    let third = read_value_len 0 (suc (suc fuel)) which (ready s' text [] 0) (omega arith) in
    (
      ready s' text (len_text 0) 1,
      len_text 0,
      >>=-loaded (get_parms (suc (suc fuel))) (λ u. read_value (suc (suc fuel)) true which) x
            (first ∙ second)
          ∙ third,
      (s', 1, inl refl),
    )
read_record-print_datum (suc (suc fuel)) which size (a ∷ xs) text buffer x h small enough starts
      pending =
    let (c, p, e, few) = encode_bytes_cons a xs in
    let n = length (a ∷ xs) in
    let lines = (print_lines (length p) [] (drop 76 (c ∷ p))).1 ++ text in
    let pending' : Pending (len_bytes n ++ newline ∷ (take 76 (c ∷ p) ++ newline ∷ lines)) buffer
        x =
      subst (λ t. Pending t buffer x) (print_datum_split a xs size c p text e) pending in
    let are_text : All IsText (c ∷ p) = subst (All IsText) e (encode_bytes-IsText (a ∷ xs) h) in
    let (s, first) =
      get_parms_len n (suc fuel) (take 76 (c ∷ p) ++ newline ∷ lines) buffer x (omega arith)
        pending' in
    let (s', stale, second) =
      parms_loop_data s fuel c (take 75 p) lines (len_text n) 1 (take-IsLine c p are_text)
        (are_text.0.1) in
    let third =
      read_value_len n (suc (suc fuel)) which (held s' (take 76 (c ∷ p)) stale lines [] 0)
        (omega arith) in
    let (x', fourth, after) =
      value_of_lines (suc (suc fuel)) which s' a xs c p stale text (len_text n) 1 h small e
        (omega arith) starts in
    (
      x',
      encode_bytes (a ∷ xs),
      >>=-loaded (get_parms (suc (suc fuel))) (λ u. read_value (suc (suc fuel)) true which) x
            (first ∙ second)
          ∙ third
          ∙ fourth,
      after,
    )
