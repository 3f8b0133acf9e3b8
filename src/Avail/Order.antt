-- ===== src/Avail/Order.antt =====
-- Tables in ascending order of size.
use gdbm.Prelude.{
  ℕ, zero, suc, ◌≤◌, ◌<◌, List, [], ◌∷◌, length, All, All-of_positions, insert_at, remove_at, arith,
}
use gdbm.Avail.{AvailElem, no_elem, size_at}

abbrev pub AtLeast : ℕ → AvailElem → Type 0
AtLeast n e = n ≤ e.av_size

abbrev pub IsSorted : List AvailElem → Type 0
IsSorted [] = Unit
IsSorted (e ∷ table) = All (AtLeast e.av_size) table × IsSorted table

All-at :
    (n : ℕ) (table : List AvailElem) (j : ℕ)
    → All (AtLeast n) table
    → j < length table
    → n ≤ size_at table j
All-at n [] j h lt = absurd (omega arith)
All-at n (e ∷ table) zero h lt = h.0
All-at n (e ∷ table) (suc j) h lt = All-at n table j h.1 (omega arith)

pub sorted_at :
    (table : List AvailElem) (i j : ℕ)
    → IsSorted table
    → i ≤ j
    → j < length table
    → size_at table i ≤ size_at table j
sorted_at [] i j s h lt = absurd (omega arith)
sorted_at (e ∷ table) zero zero s h lt = omega arith
sorted_at (e ∷ table) zero (suc j) s h lt = All-at e.av_size table j s.0 (omega arith)
sorted_at (e ∷ table) (suc i) zero s h lt = absurd (omega arith)
sorted_at (e ∷ table) (suc i) (suc j) s h lt = sorted_at table i j s.1 (omega arith) (omega arith)

All-mono :
    (n m : ℕ) (table : List AvailElem) → n ≤ m → All (AtLeast m) table → All (AtLeast n) table
All-mono n m [] h a = tt
All-mono n m (e ∷ table) h a = (omega arith, All-mono n m table h a.1)

All-insert_at :
    (n : ℕ) (new : AvailElem) (i : ℕ) (table : List AvailElem)
    → n ≤ new.av_size
    → All (AtLeast n) table
    → All (AtLeast n) (insert_at i new table)
unfolding insert_at
All-insert_at n new zero table h a = (h, a)
All-insert_at n new (suc i) [] h a = (h, tt)
All-insert_at n new (suc i) (e ∷ table) h a = (a.0, All-insert_at n new i table h a.1)

All-remove_at :
    (n : ℕ) (i : ℕ) (table : List AvailElem)
    → All (AtLeast n) table
    → All (AtLeast n) (remove_at i table)
unfolding remove_at
All-remove_at n i [] a = tt
All-remove_at n zero (e ∷ table) a = a.1
All-remove_at n (suc i) (e ∷ table) a = (a.0, All-remove_at n i table a.1)

pub remove_at-IsSorted :
    (i : ℕ) (table : List AvailElem) → IsSorted table → IsSorted (remove_at i table)
unfolding remove_at
remove_at-IsSorted i [] s = tt
remove_at-IsSorted zero (e ∷ table) s = s.1
remove_at-IsSorted (suc i) (e ∷ table) s =
    (All-remove_at e.av_size i table s.0, remove_at-IsSorted i table s.1)

-- Placed after the smaller and before the larger entries, an element keeps the order.
pub insert_at-IsSorted :
    (new : AvailElem) (i : ℕ) (table : List AvailElem)
    → IsSorted table
    → i ≤ length table
    → ((j : ℕ) → j < i → size_at table j ≤ new.av_size)
    → ((j : ℕ) → i ≤ j → j < length table → new.av_size ≤ size_at table j)
    → IsSorted (insert_at i new table)
unfolding insert_at
insert_at-IsSorted new zero table s b lo hi =
    (All-of_positions (AtLeast new.av_size) no_elem table (λ j lt. hi j (omega arith) lt), s)
insert_at-IsSorted new (suc i) [] s b lo hi = absurd (omega arith)
insert_at-IsSorted new (suc i) (e ∷ table) s b lo hi = (
  All-insert_at e.av_size new i table (lo 0 (omega arith)) s.0,
  insert_at-IsSorted new i table s.1 (omega arith) (λ j lt. lo (suc j) (omega arith))
      (λ j le lt. hi (suc j) (omega arith) (omega arith)),
)
