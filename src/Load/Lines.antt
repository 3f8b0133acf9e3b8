-- ===== src/Load/Lines.antt =====
-- src/gdbmload.c: what get_dump_line does with a whole line.
use native.Mathlib.Nat.{zero-add}
use mathlib.Core.List.{append_assoc}
use gdbm.Prelude.{
  ℕ, ==_ne, zero, suc, ◌+◌, ◌*◌, ◌/◌, ◌<◌, ◌≡◌, ◌≢◌, refl, true, false, some, List, [], ◌∷◌, ◌++◌,
  ltb, ◌==◌, length, drop, All, Bool-cases, inl, inr, arith, length-append, take-append_self,
}
use gdbm.Errno.{file_eof}
use gdbm.Dump.{newline, max_dump_line_len}
use gdbm.Load.{
  DumpFile, loaded, load_error, take_line, until_nul, chomp, fgets, write_at, reallocate, line_room,
  store_text, line_loop, get_dump_line,
}

-- A byte that a line can hold.
abbrev pub IsInline : ℕ → Type 0
IsInline c = (c ≢ 0) × (c ≢ newline)

-- A line that fits in the buffer of get_dump_line.
abbrev pub IsLine : List ℕ → Type 0
IsLine l = All IsInline l × (0 < length l) × (length l < 79)

-- A stream that works and memory that is not short, with no line read ahead.
abbrev pub ready : DumpFile → List ℕ → List ℕ → ℕ → DumpFile
ready s text buffer parmc = record s {
  fp = text;
  fails = false;
  ferror = false;
  lblevel = 0;
  buffer = buffer;
  parmc = parmc;
  answers = [];
}

-- The same with a line read ahead, and what is behind it in the line's buffer.
abbrev pub held : DumpFile → List ℕ → List ℕ → List ℕ → List ℕ → ℕ → DumpFile
held s l stale text buffer parmc = record s {
  fp = text;
  fails = false;
  ferror = false;
  linebuf = l ++ 0 ∷ stale;
  lblevel = length l;
  buffer = buffer;
  parmc = parmc;
  answers = [];
}

pub take_line-line :
    (k : ℕ) (l rest : List ℕ)
    → All IsInline l
    → length l < k
    → take_line k (l ++ newline ∷ rest) ≡ (l ++ newline ∷ [], rest)
unfolding take_line
take_line-line zero l rest a h = absurd (omega arith)
take_line-line (suc k) [] rest a h = refl
take_line-line (suc k) (c ∷ l) rest (a, t) h =
    let e = take_line-line k l rest t (omega arith) in rw (==_ne c newline a.1, e) refl

pub until_nul-line :
    (l : List ℕ) → All IsInline l → until_nul (l ++ newline ∷ []) ≡ l ++ newline ∷ []
unfolding until_nul
until_nul-line [] a = refl
until_nul-line (c ∷ l) (a, t) = rw (==_ne c 0 a.0, until_nul-line l t) refl

pub chomp-line : (l : List ℕ) → chomp (l ++ newline ∷ []) ≡ (l, true)
unfolding chomp
chomp-line [] = refl
chomp-line (c ∷ []) = refl
chomp-line (c ∷ d ∷ l) = rw (chomp-line (d ∷ l)) refl

pub ends_long : (l : List ℕ) → (length (l ++ newline ∷ []) == 0) ≡ false
ends_long l = ground (arith, length-append l (newline ∷ []))

fgets-line :
    (s : DumpFile) (l rest buffer : List ℕ) (k : ℕ)
    → IsLine l
    → fgets (ready s (l ++ newline ∷ rest) buffer k)
      ≡ some (l ++ newline ∷ [], ready s rest buffer k)
unfolding fgets
fgets-line s l rest buffer k (a, some_byte, fits) =
    rw (take_line-line 79 l rest a fits, ends_long l, chomp-line l) refl

-- The growing of the line's buffer.
line_room-ready :
    (n : ℕ) (s : DumpFile) (text buffer : List ℕ) (k : ℕ)
    → (s' : DumpFile) × (s'.linebuf ≡ s.linebuf)
      × (line_room n (ready s text buffer k) ≡ loaded tt (ready s' text buffer k))
unfolding line_room reallocate
line_room-ready n s text buffer k =
    let size = (0 + n + max_dump_line_len) / max_dump_line_len * max_dump_line_len in
    elim (Bool-cases (ltb s.lbsize (n + 1 + 0))) [
      | inl grows ↦ (record s { lbsize = size }, refl, rw grows refl)
      | inr fits ↦ (s, refl, rw fits refl)
    ]

write_at_line :
    (l old : List ℕ)
    → (stale : List ℕ) × (write_at (length l) (0 ∷ []) (write_at 0 l old) ≡ l ++ 0 ∷ stale)
unfolding write_at
write_at_line l old = (
  drop (length l + 1) (l ++ drop (length l) old),
  rw (zero-add, write_at) (rw (take-append_self l (drop (length l) old), append_assoc) refl),
)

store_text-ready :
    (s : DumpFile) (l text buffer : List ℕ) (k : ℕ)
    → (s' : DumpFile) × (stale : List ℕ) × (store_text l true (ready s text buffer k)
        ≡ loaded tt (held s' l stale text buffer k))
unfolding store_text
store_text-ready s l text buffer k =
    let (s1, same, room) =
      line_room-ready (length l) (record s { line = s.line + 1 }) text buffer k in
    let (stale, written) = write_at_line l s1.linebuf in
    (s1, stale, rw (room, store_text) (rw (zero-add) (rw written refl)))

line_loop-ready :
    (s : DumpFile) (fuel : ℕ) (l rest buffer : List ℕ) (k : ℕ)
    → IsLine l
    → (s' : DumpFile) × (stale : List ℕ) × (line_loop
          (suc fuel)
          (ready s (l ++ newline ∷ rest) buffer k)
        ≡ loaded tt (held s' l stale rest buffer k))
unfolding line_loop
line_loop-ready s fuel l rest buffer k h =
    let (s1, stale, stored) = store_text-ready s l rest buffer k in
    (
      s1,
      stale,
      rw (fgets-line s l rest buffer k h, line_loop)
          (rw (until_nul-line l h.0)
            (rw (chomp-line l) (rw stored (rw (until_nul-line l h.0) (rw (chomp-line l) refl))))),
    )

pub get_dump_line-ready :
    (s : DumpFile) (l rest buffer : List ℕ) (k : ℕ)
    → IsLine l
    → (s' : DumpFile) × (stale : List ℕ) × (get_dump_line (ready s (l ++ newline ∷ rest) buffer k)
        ≡ loaded (length l) (held s' l stale rest buffer k))
unfolding get_dump_line
get_dump_line-ready s l rest buffer k h =
    let (s1, stale, e) = line_loop-ready s (length (l ++ newline ∷ rest)) l rest buffer k h in
    (s1, stale, rw (e, get_dump_line, ==_ne (length l) 0 (omega arith)) refl)

pub get_dump_line-held :
    (s : DumpFile) (l stale rest buffer : List ℕ) (k : ℕ)
    → 0 < length l
    → get_dump_line (held s l stale rest buffer k)
      ≡ loaded (length l) (held s l stale rest buffer k)
unfolding get_dump_line
get_dump_line-held s l stale rest buffer k h =
    rw (==_ne (length l) 0 (omega arith), get_dump_line)
      (rw (==_ne (length l) 0 (omega arith)) refl)

pub get_dump_line_end :
    (s : DumpFile) (buffer : List ℕ) (k : ℕ)
    → get_dump_line (ready s [] buffer k)
      ≡ load_error file_eof (ready (record s { feof = true }) [] buffer k)
unfolding get_dump_line line_loop fgets take_line chomp
get_dump_line_end s buffer k = refl
