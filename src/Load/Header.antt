-- ===== src/Load/Header.antt =====
-- src/gdbmload.c: get_parms reads the line with a datum's length, as src/gdbmdump.c prints it.
use gdbm.Prelude.{
  ℕ, ==_ne, suc, ◌+◌, ◌-◌, ◌*◌, ◌^◌, ◌/◌, ◌<◌, ◌≡◌, ◌≢◌, refl, Bool, true, false, List, [], ◌∷◌,
  ◌++◌, ltb, ◌==◌, length, All, Bool-cases, inl, inr, arith, bytes_eq,
}
use gdbm.Dump.{newline, max_dump_line_len, decimal}
use gdbm.Dump.Digits.{IsDigit, decimal-IsDigit, length-decimal}
use gdbm.Load.{DumpFile, loaded, reallocate, get_dump_line}
use gdbm.Load.Lines.{IsLine, ready, held, get_dump_line-ready}
use gdbm.Load.Parms.{
  take_until, skip_blanks, has_prefix, len_pfx, count_pfx, take_value, line_done, parm_loop,
  buffer_room, parms_line, parms_loop,
}

-- The line, without the newline.
abbrev pub len_bytes : ℕ → List ℕ
len_bytes n = b'#' ∷ b':' ∷ len_pfx ++ decimal n

-- What it leaves in the buffer.
abbrev pub len_text : ℕ → List ℕ
len_text n = len_pfx ++ decimal n ++ 0 ∷ []

-- The line with the number of records, and what it leaves in the buffer.
abbrev pub count_bytes : ℕ → List ℕ
count_bytes n = b'#' ∷ b':' ∷ count_pfx ++ decimal n

abbrev pub count_text : ℕ → List ℕ
count_text n = count_pfx ++ decimal n ++ 0 ∷ []

take_until-digits :
    (ds t : List ℕ) → All IsDigit ds → take_until (λ x. x == b',') (ds ++ 0 ∷ t) ≡ (ds, 0 ∷ t)
unfolding take_until
take_until-digits [] t a = refl
take_until-digits (d ∷ ds) t (a, rest) =
    rw (==_ne d 0 (omega arith), ==_ne d b',' (omega arith), take_until-digits ds t rest) refl

take_value-digits :
    (ds t : List ℕ) → 0 < length ds → All IsDigit ds → take_value (ds ++ 0 ∷ t) ≡ (ds, 0 ∷ t)
unfolding take_value
take_value-digits [] t h a = absurd (omega arith)
take_value-digits (d ∷ ds) t h a =
    rw (==_ne d b'"' (omega arith), take_value) (take_until-digits (d ∷ ds) t a)

parm_loop_len :
    (n fuel : ℕ) (stale : List ℕ)
    → 0 < length (decimal n)
    → parm_loop
        (suc (suc fuel))
        (b':' ∷ len_pfx ++ decimal n ++ 0 ∷ stale)
        (record { text = []; count = 0; len_seen = false })
      ≡ line_done (record { text = len_text n; count = 1; len_seen = true })
unfolding parm_loop skip_blanks has_prefix bytes_eq take_until
parm_loop_len n fuel stale h =
    rw (take_value-digits (decimal n) stale h (decimal-IsDigit n), parm_loop) refl

parm_loop_count :
    (n fuel : ℕ) (stale : List ℕ)
    → 0 < length (decimal n)
    → parm_loop
        (suc (suc fuel))
        (b':' ∷ count_pfx ++ decimal n ++ 0 ∷ stale)
        (record { text = []; count = 0; len_seen = false })
      ≡ line_done (record { text = count_text n; count = 1; len_seen = false })
unfolding parm_loop skip_blanks has_prefix bytes_eq take_until
parm_loop_count n fuel stale h =
    rw (take_value-digits (decimal n) stale h (decimal-IsDigit n), parm_loop) refl

pub buffer_room-held :
    (n extra : ℕ) (s : DumpFile) (l stale text buffer : List ℕ) (k : ℕ)
    → (s' : DumpFile) × (buffer_room n extra (held s l stale text buffer k)
        ≡ loaded tt (held s' l stale text buffer k))
unfolding buffer_room reallocate
buffer_room-held n extra s l stale text buffer k =
    let size =
      (length buffer + n + max_dump_line_len - 1 + extra) / max_dump_line_len * max_dump_line_len in
    elim (Bool-cases (ltb s.bufsize (n + extra + length buffer))) [
      | inl grows ↦ (record s { bufsize = size }, rw grows refl)
      | inr fits ↦ (s, rw fits refl)
    ]

-- A line with one parameter, read as the first one.
module _ (c : ℕ) (p : List ℕ) (text : List ℕ) (seen : Bool) (stale : List ℕ)
    (h : parm_loop
        (length (b':' ∷ c ∷ p ++ 0 ∷ stale))
        (b':' ∷ c ∷ p ++ 0 ∷ stale)
        (record { text = []; count = 0; len_seen = false })
      ≡ line_done (record { text = text; count = 1; len_seen = seen })) where
  parms_line_one :
      (s : DumpFile) (rest : List ℕ)
      → parms_line (b':' ∷ c ∷ p ++ 0 ∷ stale) false (held s (b'#' ∷ b':' ∷ c ∷ p) stale rest [] 0)
        ≡ loaded (true, seen) (ready (held s (b'#' ∷ b':' ∷ c ∷ p) stale rest [] 0) rest text 1)
  unfolding parms_line
  parms_line_one s rest = rw (h, parms_line) refl

  parms_loop_one :
      (fuel : ℕ) (x s : DumpFile) (rest : List ℕ)
      → get_dump_line x
        ≡ loaded (length (b'#' ∷ b':' ∷ c ∷ p)) (held s (b'#' ∷ b':' ∷ c ∷ p) stale rest [] 0)
      → (s' : DumpFile) × (parms_loop (suc fuel) false x
          ≡ parms_loop fuel seen (ready s' rest text 1))
  unfolding parms_loop
  parms_loop_one fuel x s rest e =
      let l = b'#' ∷ b':' ∷ c ∷ p in
      let (s1, room) = buffer_room-held (length l - 1) 1 s l stale rest [] 0 in
      (
        held s1 l stale rest [] 0,
        rw (e, parms_loop)
            (rw (==_ne (length l - 1) 0 (omega arith))
              (rw (room) (rw (parms_line_one s1 rest) refl))),
      )

-- The first line is the one with the length.
pub parms_loop_len :
    (n fuel : ℕ) (x s : DumpFile) (stale rest : List ℕ)
    → n < 2 ^ 64
    → get_dump_line x ≡ loaded (length (len_bytes n)) (held s (len_bytes n) stale rest [] 0)
    → (s' : DumpFile) × (parms_loop (suc fuel) false x
        ≡ parms_loop fuel true (ready s' rest (len_text n) 1))
parms_loop_len n fuel x s stale rest h e =
    parms_loop_one b'l' (b'e' ∷ b'n' ∷ b'=' ∷ decimal n) (len_text n) true stale
      (parm_loop_len n _ stale (length-decimal n h).0) fuel x s rest e

-- Or the one with the number of records.
pub parms_loop_count :
    (n fuel : ℕ) (x s : DumpFile) (stale rest : List ℕ)
    → n < 2 ^ 64
    → get_dump_line x ≡ loaded (length (count_bytes n)) (held s (count_bytes n) stale rest [] 0)
    → (s' : DumpFile) × (parms_loop (suc fuel) false x
        ≡ parms_loop fuel false (ready s' rest (count_text n) 1))
parms_loop_count n fuel x s stale rest h e =
    parms_loop_one b'c' (b'o' ∷ b'u' ∷ b'n' ∷ b't' ∷ b'=' ∷ decimal n) (count_text n) false stale
      (parm_loop_count n _ stale (length-decimal n h).0) fuel x s rest e

-- The line after it is the first line of the data, which is kept.
pub parms_loop_data :
    (s : DumpFile) (fuel c : ℕ) (l rest buffer : List ℕ) (k : ℕ)
    → IsLine (c ∷ l)
    → c ≢ b'#'
    → (s' : DumpFile) × (stale : List ℕ) × (parms_loop
          (suc fuel)
          true
          (ready s (c ∷ l ++ newline ∷ rest) buffer k)
        ≡ loaded tt (held s' (c ∷ l) stale rest buffer k))
unfolding parms_loop
parms_loop_data s fuel c l rest buffer k h diff =
    let (s1, stale, e) = get_dump_line-ready s (c ∷ l) rest buffer k h in
    (s1, stale, rw (e, parms_loop) (rw (==_ne c b'#' diff) refl))

-- Or it is a lone '#', for a datum without bytes.
pub parms_loop_empty :
    (s : DumpFile) (fuel : ℕ) (rest buffer : List ℕ) (k : ℕ)
    → (s' : DumpFile) × (parms_loop (suc fuel) true (ready s (b'#' ∷ newline ∷ rest) buffer (suc k))
        ≡ loaded tt (ready s' rest buffer (suc k)))
unfolding parms_loop
parms_loop_empty s fuel rest buffer k =
    let (s1, stale, e) =
      get_dump_line-ready s (b'#' ∷ []) rest buffer (suc k) (
        (((λ e. absurd (omega arith)), λ e. absurd (omega arith)), tt),
        omega arith,
        omega arith,
      ) in
    (
      held s1 (b'#' ∷ []) stale rest buffer (suc k),
      rw (e, parms_loop) (rw (==_ne (suc k) 0 (omega arith)) refl),
    )

-- A comment ends the parameters.
pub parms_loop_comment :
    (s : DumpFile) (fuel c : ℕ) (l rest buffer : List ℕ) (seen : Bool) (k : ℕ)
    → IsLine (b'#' ∷ c ∷ l)
    → c ≢ b':'
    → (s' : DumpFile) × (parms_loop
          (suc fuel)
          seen
          (ready s (b'#' ∷ c ∷ l ++ newline ∷ rest) buffer (suc k))
        ≡ loaded tt (ready s' rest buffer (suc k)))
unfolding parms_loop
parms_loop_comment s fuel c l rest buffer seen k h diff =
    let (s1, stale, e) = get_dump_line-ready s (b'#' ∷ c ∷ l) rest buffer (suc k) h in
    (
      held s1 (b'#' ∷ c ∷ l) stale rest buffer (suc k),
      rw (e, parms_loop) (rw (==_ne c b':' diff, ==_ne (suc k) 0 (omega arith)) refl),
    )
