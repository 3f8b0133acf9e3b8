-- ===== src/Load/Long.antt =====
-- src/gdbmload.c: how get_dump_line puts a line together that is longer than its buffer.
use mathlib.Core.List.{append_assoc}
use mathlib.Core.Path.{subst}
use gdbm.Prelude.{
  ℕ, ==_ne, zero, suc, ◌+◌, ◌*◌, ◌/◌, ◌≤◌, ◌<◌, ◌≡◌, refl, sym, ap, ◌∙◌, true, false, some, List,
  [], ◌∷◌, ◌++◌, ltb, ◌==◌, if◌then◌else◌, length, drop, All, Bool-cases, inl, inr, arith,
  length-append, take-append_self,
}
use gdbm.Errno.{file_eof}
use gdbm.Dump.{newline, max_dump_line_len}
use gdbm.Load.{
  DumpFile, LoadEnd, loaded, load_error, take_line, until_nul, chomp, fgets, write_at, reallocate,
  line_room, store_text, line_loop, get_dump_line,
}
use gdbm.Load.Lines.{IsInline, ready, held, take_line-line, until_nul-line, chomp-line, ends_long}

-- A first part of a line in the line's buffer.
abbrev begun : DumpFile → List ℕ → List ℕ → List ℕ → List ℕ → ℕ → DumpFile
begun s acc stale text buffer parmc = record s {
  fp = text;
  fails = false;
  ferror = false;
  linebuf = acc ++ stale;
  lblevel = length acc;
  buffer = buffer;
  parmc = parmc;
  answers = [];
}

pieces :
    (n : ℕ) (l : List ℕ)
    → All IsInline l
    → n ≤ length l
    → (p : List ℕ) × (q : List ℕ) × (l ≡ p ++ q) × (length p ≡ n) × All IsInline p × All IsInline q
pieces zero l a h = ([], l, refl, refl, tt, a)
pieces (suc n) [] a h = absurd (omega arith)
pieces (suc n) (c ∷ l) (a, t) h =
    let (p, q, e, len, ap_, aq) = pieces n l t (omega arith) in
    (c ∷ p, q, ap (λ (x : List ℕ). c ∷ x) e, omega (arith, len), (a, ap_), aq)

take_line_full :
    (n : ℕ) (p xs : List ℕ) → All IsInline p → length p ≡ n → take_line n (p ++ xs) ≡ (p, xs)
unfolding take_line
take_line_full zero [] xs a h = refl
take_line_full zero (c ∷ p) xs a h = absurd (omega arith)
take_line_full (suc n) [] xs a h = absurd (omega arith)
take_line_full (suc n) (c ∷ p) xs (a, t) h =
    let e = take_line_full n p xs t (omega arith) in rw (e, ==_ne c newline a.1) refl

until_nul_inline : (p : List ℕ) → All IsInline p → until_nul p ≡ p
unfolding until_nul
until_nul_inline [] a = refl
until_nul_inline (c ∷ p) (a, t) = rw (==_ne c 0 a.0, until_nul_inline p t) refl

chomp_inline : (p : List ℕ) → All IsInline p → chomp p ≡ (p, false)
unfolding chomp
chomp_inline [] a = refl
chomp_inline (c ∷ []) a = rw (==_ne c newline a.0.1) refl
chomp_inline (c ∷ d ∷ p) a = rw (chomp_inline (d ∷ p) a.1) refl

module _ (s : DumpFile) (acc stale buffer : List ℕ) (k : ℕ) where
  fgets_last :
      (l rest : List ℕ)
      → All IsInline l
      → length l < 79
      → fgets (begun s acc stale (l ++ newline ∷ rest) buffer k)
        ≡ some (l ++ newline ∷ [], begun s acc stale rest buffer k)
  unfolding fgets
  fgets_last l rest a h = rw (take_line-line 79 l rest a h, ends_long l, chomp-line l) refl

  fgets_piece :
      (p q rest : List ℕ)
      → All IsInline p
      → length p ≡ 79
      → fgets (begun s acc stale (p ++ (q ++ newline ∷ rest)) buffer k)
        ≡ some (p, begun s acc stale (q ++ newline ∷ rest) buffer k)
  unfolding fgets
  fgets_piece p q rest a h =
      let some_byte : (length p == 0) ≡ false = ground arith in
      let more : (length (q ++ newline ∷ rest) == 0) ≡ false =
        ground (arith, length-append q (newline ∷ rest)) in
      rw (take_line_full 79 p (q ++ newline ∷ rest) a h, some_byte, chomp_inline p a, more) refl

  -- There is room for the part, and for a NUL.
  line_room-begun :
      (n : ℕ) (text : List ℕ)
      → (size : ℕ) × (length acc + n < size)
        × (line_room n (begun s acc stale text buffer k)
            ≡ loaded tt (begun (record s { lbsize = size }) acc stale text buffer k))
  unfolding line_room reallocate
  line_room-begun n text =
      let size = (length acc + n + max_dump_line_len) / max_dump_line_len * max_dump_line_len in
      elim (Bool-cases (ltb s.lbsize (n + 1 + length acc))) [
        | inl grows ↦ (size, omega arith, rw (line_room, grows) refl)
        | inr fits ↦ (s.lbsize, ground arith, rw (line_room, fits) refl)
      ]

write_at_end :
    (acc p old : List ℕ)
    → (stale : List ℕ) × (write_at (length acc) p (acc ++ old) ≡ (acc ++ p) ++ stale)
unfolding write_at
write_at_end acc p old =
    (drop (length acc + length p) (acc ++ old), rw (take-append_self acc old) refl)

store_text_piece :
    (s : DumpFile) (acc stale p text buffer : List ℕ) (k : ℕ)
    → (size : ℕ) × (stale' : List ℕ) × (store_text p false (begun s acc stale text buffer k)
        ≡ loaded tt (begun (record s { lbsize = size }) (acc ++ p) stale' text buffer k))
unfolding store_text
store_text_piece s acc stale p text buffer k =
    let (size, fits, room) = line_room-begun s acc stale buffer k (length p) text in
    let (stale', written) = write_at_end acc p stale in
    (size, stale', rw (store_text, room) (rw (written, length-append acc p) refl))

store_text_last :
    (s : DumpFile) (acc stale l text buffer : List ℕ) (k : ℕ)
    → (size : ℕ) × (stale' : List ℕ) × (length (acc ++ l) < size)
      × (store_text l true (begun s acc stale text buffer k)
          ≡ loaded tt (
              held (record s { line = s.line + 1; lbsize = size }) (acc ++ l) stale' text buffer k))
unfolding store_text
store_text_last s acc stale l text buffer k =
    let (size, fits, room) =
      line_room-begun (record s { line = s.line + 1 }) acc stale buffer k (length l) text in
    let (old, written) = write_at_end acc l stale in
    let (stale', ended) = write_at_end (acc ++ l) (0 ∷ []) old in
    let len = length-append acc l in
    (
      size,
      stale',
      omega (arith, fits, len),
      rw (store_text, room)
          (rw (written, sym len) (rw (ended, append_assoc (acc ++ l) (0 ∷ []) stale') refl)),
    )

-- What a round is given, and the line that it leaves in the buffer.
abbrev Comes : DumpFile → List ℕ → List ℕ → List ℕ → ℕ → LoadEnd (Unit {0}) → Type 0
Comes s whole rest buffer k r =
    (size : ℕ) × (stale : List ℕ) × (length whole < size)
    × (r
        ≡ loaded tt
            (held (record s { line = s.line + 1; lbsize = size }) whole stale rest buffer k))

line_loop_piece :
    (fuel : ℕ) (s : DumpFile) (acc stale p q rest buffer : List ℕ) (k : ℕ)
    → All IsInline p
    → length p ≡ 79
    → ((size : ℕ) (stale : List ℕ)
        → Comes
            (record s { lbsize = size })
            ((acc ++ p) ++ q)
            rest
            buffer
            k
            (line_loop fuel
              (begun (record s { lbsize = size }) (acc ++ p) stale (q ++ newline ∷ rest) buffer k)))
    → Comes s
        (acc ++ (p ++ q))
        rest
        buffer
        k
        (line_loop (suc fuel) (begun s acc stale ((p ++ q) ++ newline ∷ rest) buffer k))
unfolding line_loop
line_loop_piece fuel s acc stale p q rest buffer k a len onwards =
    let (size, stale', stored) = store_text_piece s acc stale p (q ++ newline ∷ rest) buffer k in
    let (size', stale'', room, rounds) = onwards size stale' in
    let n = until_nul_inline p a in
    let c = chomp_inline p a in
    let whole = append_assoc acc p q in
    let s' = record s { line = s.line + 1; lbsize = size' } in
    let lines = ap (λ (x : List ℕ). loaded tt (held s' x stale'' rest buffer k)) whole in
    (
      size',
      stale'',
      rw⁻¹ whole room,
      rw (append_assoc p q (newline ∷ rest)) (
          rw (fgets_piece s acc stale buffer k p q rest a len, line_loop)
            (rw (n, c) (rw stored (rw (n, c) (rounds ∙ lines))))),
    )

line_loop-Comes :
    (fuel : ℕ) (s : DumpFile) (acc stale l rest buffer : List ℕ) (k : ℕ)
    → All IsInline l
    → length l < fuel
    → Comes s
        (acc ++ l)
        rest
        buffer
        k
        (line_loop fuel (begun s acc stale (l ++ newline ∷ rest) buffer k))
unfolding line_loop
line_loop-Comes zero s acc stale l rest buffer k a h = absurd (omega arith)
line_loop-Comes (suc fuel) s acc stale l rest buffer k a h = elim (Bool-cases (ltb (length l) 79)) [
  | inl fits ↦
      let (size, stale', room, stored) = store_text_last s acc stale l rest buffer k in
      (
        size,
        stale',
        room,
        rw (fgets_last s acc stale buffer k l rest a (ground arith), line_loop)
            (rw (until_nul-line l a)
              (rw (chomp-line l) (rw stored (rw (until_nul-line l a) (rw (chomp-line l) refl))))),
      )
  | inr longer ↦
      let (p, q, e, len, ap_, aq) = pieces 79 l a (ground arith) in
      let shorter : length q < fuel = omega (arith, ap length e, length-append p q) in
      subst
        (λ x.
          Comes s (acc ++ x) rest buffer k
            (line_loop (suc fuel) (begun s acc stale (x ++ newline ∷ rest) buffer k)))
        (sym e)
        (line_loop_piece fuel s acc stale p q rest buffer k ap_ len (λ size stale'.
          line_loop-Comes fuel (record s { lbsize = size }) (acc ++ p) stale' q rest buffer k aq
            shorter))
]

-- Where the stream works, memory is not short and no line is read ahead: a line of any length, whose
-- bytes are not NUL, is put together whole from what fgets gives for a buffer of 80 bytes. The line,
-- with a NUL, is in the line's buffer, whose size is greater than the line's length; the length is
-- the result; the line is counted once, and the stream is left behind the newline. An empty line
-- gives GDBM_FILE_EOF.
pub get_dump_line_lem :
    (s : DumpFile) (l rest buffer : List ℕ) (k : ℕ)
    → All IsInline l
    → (size : ℕ) × (stale : List ℕ) × (length l < size)
      × (get_dump_line (ready s (l ++ newline ∷ rest) buffer k) ≡ (
          let x = held (record s { line = s.line + 1; lbsize = size }) l stale rest buffer k in
          if length l == 0 then load_error file_eof x else loaded (length l) x))
unfolding get_dump_line
get_dump_line_lem s l rest buffer k a =
    let (size, stale, room, e) =
      line_loop-Comes (suc (length (l ++ newline ∷ rest))) s [] s.linebuf l rest buffer k a
        (omega (arith, length-append l (newline ∷ rest))) in
    (size, stale, room, rw (get_dump_line, e) refl)
