-- ===== src/Load/First.antt =====
-- src/gdbmload.c: the line with the length of a datum, and what get_parms and getparm make of it.
use mathlib.Core.List.{append_assoc}
use gdbm.Prelude.{
  ℕ, suc, ◌^◌, ◌<◌, ◌≡◌, refl, ap, sym, ◌∙◌, Bool, true, not, List, [], ◌∷◌, ◌++◌, ◌==◌, ◌&&◌,
  length, All, All-append, inl, inr, arith, length-append,
}
use gdbm.Dump.{newline, decimal}
use gdbm.Dump.Digits.{IsDigit, decimal-IsDigit, length-decimal}
use gdbm.Load.{DumpFile, loaded, take_line, chomp, get_dump_line}
use gdbm.Load.Lines.{
  IsInline, IsLine, ready, held, take_line-line, chomp-line, get_dump_line-ready,
  get_dump_line-held,
}
use gdbm.Load.Parms.{get_parms, parms_loop}
use gdbm.Load.Record.{getparm, common, after_nul, get_num, get_len, strtoul}
use gdbm.Load.Numbers.{strtoul-decimal}
use gdbm.Load.Header.{len_bytes, len_text, parms_loop_len}
use gdbm.Load.Data.{Pending}

-- A text has one first line.
line_split :
    (l l' r r' : List ℕ)
    → IsLine l
    → IsLine l'
    → l ++ newline ∷ r ≡ l' ++ newline ∷ r'
    → (l ≡ l') × (r ≡ r')
line_split l l' r r' h h' e =
    let both =
      sym (take_line-line 79 l r h.0 h.2)
      ∙ ap (take_line 79) e
      ∙ take_line-line 79 l' r' h'.0 h'.2 in
    (
      ap (λ t. t.0) (sym (chomp-line l) ∙ ap (λ p. chomp p.0) both ∙ chomp-line l'),
      ap (λ p. p.1) both,
    )

-- The first line of the text to be read, which may have been read ahead.
pub Pending-line :
    (l rest buffer : List ℕ) (x : DumpFile)
    → IsLine l
    → Pending (l ++ newline ∷ rest) buffer x
    → (s : DumpFile) × (stale : List ℕ) × (get_dump_line (record x { buffer = []; parmc = 0 })
        ≡ loaded (length l) (held s l stale rest [] 0))
Pending-line l rest buffer x h (s, k, inl e) =
    let (s1, stale, read) = get_dump_line-ready s l rest [] 0 h in (s1, stale, rw e read)
Pending-line l rest buffer x h (s, k, inr (l', stale, rest', same, h', e)) =
    let (el, er) = line_split l l' rest rest' h h' same in
    (s, stale, rw (e, sym el, sym er) (get_dump_line-held s l stale rest [] 0 h.1))

-- Whether all the bytes can stand in a line.
abbrev pub is_inline : List ℕ → Bool
is_inline [] = true
is_inline (c ∷ l) = not (c == 0) && (not (c == newline) && is_inline l)

pub inlines : (l : List ℕ) → is_inline l ≡ true → All IsInline l
inlines [] h = tt
inlines (c ∷ l) h = ((ground arith, ground arith), inlines l (ground arith))

digits-IsInline : (ds : List ℕ) → All IsDigit ds → All IsInline ds
digits-IsInline [] h = tt
digits-IsInline (d ∷ ds) (h, hs) =
    (((λ e. absurd (omega arith)), λ e. absurd (omega arith)), digits-IsInline ds hs)

-- A line that ends with a number.
pub numbered-IsLine :
    (l : List ℕ) (n : ℕ) → All IsInline l → length l < 59 → n < 2 ^ 64 → IsLine (l ++ decimal n)
numbered-IsLine l n a few h =
    let (some_digit, digits) = length-decimal n h in
    (
      All-append IsInline l (decimal n) a (digits-IsInline (decimal n) (decimal-IsDigit n)),
      omega (arith, length-append l (decimal n)),
      omega (arith, length-append l (decimal n)),
    )

pub len_bytes-IsLine : (n : ℕ) → n < 2 ^ 64 → IsLine (len_bytes n)
len_bytes-IsLine n h =
    numbered-IsLine (b'#' ∷ b':' ∷ b'l' ∷ b'e' ∷ b'n' ∷ b'=' ∷ []) n
      (inlines (b'#' ∷ b':' ∷ b'l' ∷ b'e' ∷ b'n' ∷ b'=' ∷ []) refl) (omega arith) h

pub ended-strtoul :
    (n : ℕ) → n < 2 ^ 64 → strtoul (decimal n ++ 0 ∷ [] ++ 0 ∷ []) ≡ (n, 0 ∷ 0 ∷ [], true)
ended-strtoul n h = rw append_assoc (strtoul-decimal n (0 ∷ []) h)

pub get_len_text :
    (n : ℕ) (s : DumpFile) → n < 2 ^ 64 → get_len (len_text n ++ 0 ∷ []) s ≡ loaded n s
unfolding get_len get_num getparm common after_nul
get_len_text n s h = let e = ended-strtoul n h in rw (e, get_len, get_num) (rw e refl)

-- get_parms, up to the line after the one with the length.
pub get_parms_len :
    (n fuel : ℕ) (rest buffer : List ℕ) (x : DumpFile)
    → n < 2 ^ 64
    → Pending (len_bytes n ++ newline ∷ rest) buffer x
    → (s : DumpFile) × (get_parms (suc fuel) x ≡ parms_loop fuel true (ready s rest (len_text n) 1))
unfolding get_parms
get_parms_len n fuel rest buffer x h pending =
    let (s, stale, read) =
      Pending-line (len_bytes n) rest buffer x (len_bytes-IsLine n h) pending in
    parms_loop_len n fuel (record x { buffer = []; parmc = 0 }) s stale rest h read
