-- ===== src/Validate/Sort.antt =====
-- The sort keeps the entries, and orders them by size.
use gdbm.Prelude.{
  ℕ, ◌+◌, ◌≡◌, inl, inr, refl, Bool-cases, List, [], ◌∷◌, All, map, length, suc, ap, ◌∙◌, arith,
}
use gdbm.Prelude.Int.{ltb_ℤ, ◌≤ℤ◌, ℤ}
use gdbm.Avail.Space.{cover_count, covers}
use gdbm.Validate.{RawElem, from_raw, sort_insert, sort}

abbrev pub SizesFrom : ℤ → List RawElem → Type 0
SizesFrom n = All (λ e. n ≤ℤ e.av_size)

abbrev pub RawSorted : List RawElem → Type 0
RawSorted [] = Unit
RawSorted (e ∷ av) = SizesFrom e.av_size av × RawSorted av

All-sort_insert :
    (P : RawElem → Type 0) (e : RawElem) (av : List RawElem)
    → P e
    → All P av
    → All P (sort_insert e av)
unfolding sort_insert
All-sort_insert P e [] p a = (p, tt)
All-sort_insert P e (x ∷ av) p a = elim (Bool-cases (ltb_ℤ x.av_size e.av_size)) [
  | inl h ↦ rw (h, sort_insert) (a.0, All-sort_insert P e av p a.1)
  | inr h ↦ rw (h, sort_insert) (p, a)
]

-- The sort keeps whatever holds of every entry.
pub All-sort : (P : RawElem → Type 0) (av : List RawElem) → All P av → All P (sort av)
unfolding sort
All-sort P [] a = tt
All-sort P (e ∷ av) a = All-sort_insert P e (sort av) a.0 (All-sort P av a.1)

length-sort_insert : (e : RawElem) (av : List RawElem) → length (sort_insert e av) ≡ suc (length av)
unfolding sort_insert
length-sort_insert e [] = refl
length-sort_insert e (x ∷ av) = elim (Bool-cases (ltb_ℤ x.av_size e.av_size)) [
  | inl h ↦ rw (h, sort_insert) (ap (λ (n : ℕ). suc n) (length-sort_insert e av))
  | inr h ↦ rw (h, sort_insert) refl
]

pub length-sort : (av : List RawElem) → length (sort av) ≡ length av
unfolding sort
length-sort [] = refl
length-sort (e ∷ av) = length-sort_insert e (sort av) ∙ ap (λ (n : ℕ). suc n) (length-sort av)

SizesFrom-mono : (n m : ℤ) (av : List RawElem) → n ≤ℤ m → SizesFrom m av → SizesFrom n av
SizesFrom-mono n m [] h a = tt
SizesFrom-mono n m (e ∷ av) h a = (omega arith, SizesFrom-mono n m av h a.1)

sort_insert-RawSorted :
    (e : RawElem) (av : List RawElem) → RawSorted av → RawSorted (sort_insert e av)
unfolding sort_insert
sort_insert-RawSorted e [] s = (tt, tt)
sort_insert-RawSorted e (x ∷ av) s = elim (Bool-cases (ltb_ℤ x.av_size e.av_size)) [
  | inl h ↦
      let le : x.av_size ≤ℤ e.av_size = ground arith in
      rw (h, sort_insert)
        (All-sort_insert (λ y. x.av_size ≤ℤ y.av_size) e av le s.0, sort_insert-RawSorted e av s.1)
  | inr h ↦
      let le : e.av_size ≤ℤ x.av_size = ground arith in
      rw (h, sort_insert) ((le, SizesFrom-mono e.av_size x.av_size av le s.0), s)
]

pub sort-RawSorted : (av : List RawElem) → RawSorted (sort av)
unfolding sort
sort-RawSorted [] = tt
sort-RawSorted (e ∷ av) = sort_insert-RawSorted e (sort av) (sort-RawSorted av)

cover_count-sort_insert :
    (b : ℕ) (e : RawElem) (av : List RawElem)
    → cover_count b (map from_raw (sort_insert e av))
      ≡ covers b (from_raw e) + cover_count b (map from_raw av)
unfolding sort_insert
cover_count-sort_insert b e [] = refl
cover_count-sort_insert b e (x ∷ av) = elim (Bool-cases (ltb_ℤ x.av_size e.av_size)) [
  | inl h ↦ rw (h, sort_insert) (omega (arith, cover_count-sort_insert b e av))
  | inr h ↦ rw (h, sort_insert) refl
]

pub cover_count-sort :
    (b : ℕ) (av : List RawElem)
    → cover_count b (map from_raw (sort av)) ≡ cover_count b (map from_raw av)
unfolding sort
cover_count-sort b [] = refl
cover_count-sort b (e ∷ av) =
    omega (arith, cover_count-sort_insert b e (sort av), cover_count-sort b av)
