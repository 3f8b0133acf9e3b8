-- ===== src/Avail/Space.antt =====
-- What the operations on a table do to the space that it holds.
use native.Mathlib.Numerals.{towards_suc}
use gdbm.Prelude.{
  ap, ◌∙◌, ℕ, zero, suc, ◌+◌, ◌≤◌, ◌<◌, ◌≡◌, inl, inr, refl, Bool-cases, List, [], ◌∷◌, ◌++◌, ltb,
  leb, ◌==◌, ==_iff, ◌&&◌, if◌then◌else◌, length, get_or, set, take, drop, insert_at, remove_at,
  arith,
}
use gdbm.Avail.{AvailElem, no_elem, avail_move, coalesce}

-- 1 if byte b of the file lies in the element, and 0 otherwise.
abbrev pub covers : ℕ → AvailElem → ℕ
covers b e = if leb e.av_adr b && ltb b (e.av_adr + e.av_size) then 1 else 0

-- How many entries of the table byte b lies in.
abbrev pub cover_count : ℕ → List AvailElem → ℕ
cover_count b [] = 0
cover_count b (e ∷ table) = covers b e + cover_count b table

-- The bytes that the table holds.
abbrev pub total : List AvailElem → ℕ
total [] = 0
total (e ∷ table) = e.av_size + total table

pub cover_count-insert_at :
    (b i : ℕ) (new : AvailElem) (table : List AvailElem)
    → cover_count b (insert_at i new table) ≡ covers b new + cover_count b table
unfolding insert_at
cover_count-insert_at b zero new table = refl
cover_count-insert_at b (suc i) new [] = refl
cover_count-insert_at b (suc i) new (e ∷ table) = omega (arith, cover_count-insert_at b i new table)

pub cover_count-remove_at :
    (b i : ℕ) (table : List AvailElem)
    → i < length table
    → cover_count b (remove_at i table) + covers b (get_or table i no_elem) ≡ cover_count b table
unfolding remove_at
cover_count-remove_at b i [] h = absurd (omega arith)
cover_count-remove_at b zero (e ∷ table) h = omega arith
cover_count-remove_at b (suc i) (e ∷ table) h = omega (arith, cover_count-remove_at b i table)

pub total-insert_at :
    (i : ℕ) (new : AvailElem) (table : List AvailElem)
    → total (insert_at i new table) ≡ new.av_size + total table
unfolding insert_at
total-insert_at zero new table = refl
total-insert_at (suc i) new [] = refl
total-insert_at (suc i) new (e ∷ table) = omega (arith, total-insert_at i new table)

pub total-remove_at :
    (i : ℕ) (table : List AvailElem)
    → i < length table
    → total (remove_at i table) + (get_or table i no_elem).av_size ≡ total table
unfolding remove_at
total-remove_at i [] h = absurd (omega arith)
total-remove_at zero (e ∷ table) h = omega arith
total-remove_at (suc i) (e ∷ table) h = omega (arith, total-remove_at i table)

close_gap :
    (table : List AvailElem) (i : ℕ)
    → i < length table
    → take i (table ++ no_elem ∷ []) ++ drop (suc i) table ≡ remove_at i table
unfolding remove_at
close_gap [] i h = absurd (omega arith)
close_gap (e ∷ table) zero h = refl
close_gap (e ∷ table) (suc i) h = ap (λ t. e ∷ t) (close_gap table i (omega arith))

open_gap :
    (table : List AvailElem) (i : ℕ) (new : AvailElem)
    → i ≤ length table
    → set (take (suc i) (table ++ no_elem ∷ []) ++ drop i table) i new ≡ insert_at i new table
unfolding insert_at
open_gap [] zero new h = refl
open_gap [] (suc i) new h = absurd (omega arith)
open_gap (e ∷ table) zero new h = refl
open_gap (e ∷ table) (suc i) new h = ap (λ t. e ∷ t) (open_gap table i new (omega arith))

-- Closing a gap takes one entry out.
pub avail_move_down :
    (table : List AvailElem) (i : ℕ)
    → i < length table
    → avail_move table (i + 1) i ≡ remove_at i table
unfolding avail_move
avail_move_down table i h = simp towards_suc (close_gap table i h)

-- Opening a gap and filling it puts one entry in.
pub avail_move_up :
    (table : List AvailElem) (i : ℕ) (new : AvailElem)
    → i ≤ length table
    → set (avail_move table i (i + 1)) i new ≡ insert_at i new table
unfolding avail_move
avail_move_up table i new h = simp towards_suc (open_gap table i new h)

covers_merged :
    (b : ℕ) (low high : AvailElem)
    → low.av_adr + low.av_size ≡ high.av_adr
    → covers b (record { av_size = high.av_size + low.av_size; av_adr = low.av_adr })
      ≡ covers b high + covers b low
covers_merged b low high e = ground arith

-- Merging neither loses nor doubles a byte.
pub coalesce-covers :
    (b : ℕ) (new : AvailElem) (table : List AvailElem)
    → let (merged, rest) = coalesce new table in
      covers b merged + cover_count b rest ≡ covers b new + cover_count b table
unfolding coalesce
coalesce-covers b new [] = refl
coalesce-covers b new (e ∷ table) = elim (Bool-cases (e.av_adr + e.av_size == new.av_adr)) [
  | inl h ↦
      let merged : AvailElem = record { av_size = new.av_size + e.av_size; av_adr = e.av_adr } in
      rw (h, coalesce)
        (coalesce-covers b merged table ∙ omega (arith, covers_merged b e new ((==_iff _ _).0 h)))
  | inr n ↦ elim (Bool-cases (new.av_adr + new.av_size == e.av_adr)) [
    | inl h ↦
        rw (n, h, coalesce)
          (coalesce-covers b (record new { av_size = new.av_size + e.av_size }) table
            ∙ omega (arith, merged_above ((==_iff _ _).0 h)))
    | inr m ↦ rw (n, m, coalesce) (omega (arith, coalesce-covers b new table))
  ]
]
  where
    merged_above :
        new.av_adr + new.av_size ≡ e.av_adr
        → covers b (record new { av_size = new.av_size + e.av_size }) ≡ covers b new + covers b e
    merged_above h = ground arith

pub coalesce-total :
    (new : AvailElem) (table : List AvailElem)
    → let (merged, rest) = coalesce new table in
      (merged.av_size + total rest ≡ new.av_size + total table) × (new.av_size ≤ merged.av_size)
unfolding coalesce
coalesce-total new [] = ground arith
coalesce-total new (e ∷ table) = ground (
  arith,
  coalesce-total new table,
  coalesce-total (record { av_size = new.av_size + e.av_size; av_adr = e.av_adr }) table,
  coalesce-total (record new { av_size = new.av_size + e.av_size }) table,
)
