-- ===== src/Load/Data.antt =====
-- src/gdbmload.c: get_data reads the lines of a datum, as src/gdbmdump.c prints them.
use mathlib.Core.Path.{subst}
use mathlib.Core.List.{append_assoc, append-nil}
use gdbm.Prelude.{
  ℕ, ==_ne, zero, suc, ◌+◌, ◌≤◌, ◌<◌, ◌≡◌, ◌≢◌, ◌⊎◌, refl, ap, ◌∙◌, true, List, [], ◌∷◌, ◌++◌,
  length, take, drop, All, inl, inr, arith, length-append, take-append_self, take-append-drop,
  length-take, length-drop, lt→ltb,
}
use gdbm.Errno.{code}
use gdbm.Dump.{newline, print_lines}
use gdbm.Dump.Lines.{IsText}
use gdbm.Load.{DumpFile, LoadEnd, loaded, load_error, undefined, unended, get_dump_line}
use gdbm.Load.Lines.{IsInline, IsLine, ready, held, get_dump_line-ready, get_dump_line_end}
use gdbm.Load.Parms.{at_eof}
use gdbm.Load.Record.{data_loop}
use gdbm.Load.Header.{buffer_room-held}

-- The text that is still to be read, of which a line may have been read ahead.
abbrev pub Pending : List ℕ → List ℕ → DumpFile → Type 0
Pending text buffer x =
    (s : DumpFile) × (k : ℕ) × ((x ≡ ready s text buffer k)
      ⊎ ((l : List ℕ) × (stale : List ℕ) × (rest : List ℕ) × (text ≡ l ++ newline ∷ rest)
          × IsLine l
          × (x ≡ held s l stale rest buffer k)))

-- The end of the file, or a line of parameters or a comment.
abbrev pub Starts : List ℕ → Type 0
Starts text =
    (text ≡ [])
    ⊎ ((l : List ℕ) × (rest : List ℕ) × (text ≡ b'#' ∷ l ++ newline ∷ rest) × IsLine (b'#' ∷ l))

-- What the loop does with the answer of get_dump_line.
abbrev after : ℕ → LoadEnd ℕ → LoadEnd (Unit {0})
after fuel (loaded m s) = data_loop fuel m s
after fuel (load_error ec s) = at_eof ec s
after fuel undefined = undefined
after fuel unended = unended

data_loop_line :
    (fuel : ℕ) (s : DumpFile) (c : ℕ) (l stale rest buffer : List ℕ) (k : ℕ)
    → c ≢ b'#'
    → (s' : DumpFile) × (data_loop (suc fuel) (length (c ∷ l)) (held s (c ∷ l) stale rest buffer k)
        ≡ after fuel (get_dump_line (ready s' rest (buffer ++ c ∷ l) k)))
unfolding data_loop
data_loop_line fuel s c l stale rest buffer k diff =
    let (s1, room) = buffer_room-held (length (c ∷ l)) 0 s (c ∷ l) stale rest buffer k in
    (
      held s1 (c ∷ l) stale rest buffer k,
      rw (==_ne c b'#' diff, data_loop)
          (rw (room) (rw (take-append_self (c ∷ l) (0 ∷ stale)) refl)),
    )

-- What is behind the data ends the loop.
after_data :
    (fuel : ℕ) (s : DumpFile) (text buffer : List ℕ) (k : ℕ)
    → 0 < length buffer
    → Starts text
    → (x : DumpFile) × (after (suc fuel) (get_dump_line (ready s text buffer k)) ≡ loaded tt x)
      × Pending text buffer x
unfolding data_loop code
after_data fuel s text buffer k h (inl e) = (
  ready (record s { feof = true }) text buffer k,
  rw (e, get_dump_line_end s buffer k) (rw (lt→ltb 0 (length buffer) h) refl),
  (record s { feof = true }, k, inl refl),
)
after_data fuel s text buffer k h (inr (l, rest, e, fits)) =
    let (s1, stale, read) = get_dump_line-ready s (b'#' ∷ l) rest buffer k fits in
    (
      held s1 (b'#' ∷ l) stale rest buffer k,
      rw (e, read) refl,
      (s1, k, inr (b'#' ∷ l, stale, rest, e, fits, refl)),
    )

All-take : (n : ℕ) (xs : List ℕ) → All IsText xs → All IsInline (take n xs)
All-take zero xs h = tt
All-take (suc n) [] h = tt
All-take (suc n) (x ∷ xs) (h, hs) = (h.0, All-take n xs hs)

All-drop : (n : ℕ) (xs : List ℕ) → All IsText xs → All IsText (drop n xs)
All-drop zero xs h = h
All-drop (suc n) [] h = tt
All-drop (suc n) (x ∷ xs) (h, hs) = All-drop n xs hs

pub take-IsLine : (c : ℕ) (p : List ℕ) → All IsText (c ∷ p) → IsLine (take 76 (c ∷ p))
take-IsLine c p h = (All-take 76 (c ∷ p) h, omega arith, omega (arith, length-take 76 (c ∷ p)))

Pending-rest :
    (n : ℕ) (text buffer d : List ℕ) (x : DumpFile)
    → Pending text (buffer ++ take n d ++ drop n d) x
    → Pending text (buffer ++ d) x
Pending-rest n text buffer d x =
    subst (λ b. Pending text b x)
      (append_assoc buffer (take n d) (drop n d) ∙ ap (λ e. buffer ++ e) (take-append-drop n d))

-- The loop reads the lines of a text that are not yet read.
after_lines :
    (n fuel : ℕ) (s : DumpFile) (d text buffer : List ℕ) (k : ℕ)
    → All IsText d
    → length d ≤ n
    → n < fuel
    → 0 < length buffer + length d
    → Starts text
    → (x : DumpFile) × (after fuel
          (get_dump_line (ready s ((print_lines n [] d).1 ++ text) buffer k))
        ≡ loaded tt x)
      × Pending text (buffer ++ d) x
unfolding print_lines
after_lines n zero s d text buffer k h few enough some starts = absurd (omega arith)
after_lines zero (suc fuel) s [] text buffer k h few enough some starts =
    rw append-nil (after_data fuel s text buffer k (omega arith) starts)
after_lines zero (suc fuel) s (c ∷ p) text buffer k h few enough some starts = absurd (omega arith)
after_lines (suc n) (suc fuel) s [] text buffer k h few enough some starts =
    rw append-nil (after_data fuel s text buffer k (omega arith) starts)
after_lines (suc n) (suc fuel) s (c ∷ p) text buffer k h few enough some starts =
    let rest = (print_lines n [] (drop 76 (c ∷ p))).1 ++ text in
    let first = take 76 (c ∷ p) in
    let (s1, stale, read) = get_dump_line-ready s first rest buffer k (take-IsLine c p h) in
    let (s2, looped) = data_loop_line fuel s1 c (take 75 p) stale rest buffer k h.0.1 in
    let (x, e, pending) =
      after_lines n fuel s2 (drop 76 (c ∷ p)) text (buffer ++ first) k (All-drop 76 (c ∷ p) h)
        (omega (arith, length-drop 75 p)) (omega arith) (omega (arith, length-append buffer first))
        starts in
    (
      x,
      rw append_assoc (ap (after (suc fuel)) read ∙ looped ∙ e),
      Pending-rest 76 text buffer (c ∷ p) x pending,
    )

-- The loop reads all the lines of a text, the first of which has been read ahead.
pub data_loop-print_lines :
    (n fuel : ℕ) (s : DumpFile) (c : ℕ) (p stale text buffer : List ℕ) (k : ℕ)
    → All IsText (c ∷ p)
    → length p ≤ n
    → n + 1 < fuel
    → Starts text
    → (x : DumpFile) × (data_loop fuel
          (length (take 76 (c ∷ p)))
          (held s (take 76 (c ∷ p)) stale ((print_lines n [] (drop 76 (c ∷ p))).1 ++ text) buffer k)
        ≡ loaded tt x)
      × Pending text (buffer ++ c ∷ p) x
data_loop-print_lines n zero s c p stale text buffer k h few enough starts = absurd (omega arith)
data_loop-print_lines n (suc fuel) s c p stale text buffer k h few enough starts =
    let rest = (print_lines n [] (drop 76 (c ∷ p))).1 ++ text in
    let (s1, looped) = data_loop_line fuel s c (take 75 p) stale rest buffer k h.0.1 in
    let (x, e, pending) =
      after_lines n fuel s1 (drop 76 (c ∷ p)) text (buffer ++ take 76 (c ∷ p)) k
        (All-drop 76 (c ∷ p) h) (omega (arith, length-drop 75 p)) (omega arith)
        (omega (arith, length-append buffer (take 76 (c ∷ p)))) starts in
    (x, looped ∙ e, Pending-rest 76 text buffer (c ∷ p) x pending)
