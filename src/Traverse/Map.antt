-- ===== src/Traverse/Map.antt =====
-- src/avail.c: the sorted array of offsets.
use gdbm.Prelude.{
  ℕ, zero, suc, ◌+◌, ◌-◌, ◌/◌, ◌≤◌, ◌<◌, ◌≡◌, ◌⊎◌, inl, inr, refl, Option, none, some, List, [],
  ◌∷◌, ltb, ◌==◌, length, get_or, insert_at, All, Bool-cases, Option-cases, arith,
}
use mathlib.Core.Path.{subst}
use gdbm.Traverse.{search_loop}

-- Strictly ascending numbers.
abbrev pub Ascending : List ℕ → Type 0
Ascending [] = Unit
Ascending (x ∷ xs) = All (λ y. x < y) xs × Ascending xs

abbrev pub Has : ℕ → List ℕ → Type 0
Has n [] = ⊥
Has n (x ∷ xs) = (n ≡ x) ⊎ Has n xs

All-at : (n : ℕ) (xs : List ℕ) (i : ℕ) → All (λ y. n < y) xs → i < length xs → n < get_or xs i 0
All-at n [] i a lt = absurd (omega arith)
All-at n (x ∷ xs) zero a lt = a.0
All-at n (x ∷ xs) (suc i) a lt = All-at n xs i a.1 (omega arith)

Ascending-at :
    (xs : List ℕ) (i j : ℕ) → Ascending xs → i < j → j < length xs → get_or xs i 0 < get_or xs j 0
Ascending-at [] i j a ij lt = absurd (omega arith)
Ascending-at (x ∷ xs) zero zero a ij lt = absurd (omega arith)
Ascending-at (x ∷ xs) zero (suc j) a ij lt = All-at x xs j a.0 (omega arith)
Ascending-at (x ∷ xs) (suc i) zero a ij lt = absurd (omega arith)
Ascending-at (x ∷ xs) (suc i) (suc j) a ij lt = Ascending-at xs i j a.1 (omega arith) (omega arith)

Has-at : (xs : List ℕ) (i : ℕ) → i < length xs → Has (get_or xs i 0) xs
Has-at [] i lt = absurd (omega arith)
Has-at (x ∷ xs) zero lt = inl refl
Has-at (x ∷ xs) (suc i) lt = inr (Has-at xs i (omega arith))

-- The place of n: everything before it is smaller, and everything from it on larger.
pub record IsPlace (n : ℕ) (xs : List ℕ) (r : ℕ) : Type 0 where
  pub bound : r ≤ length xs
  pub before : (i : ℕ) → i < r → get_or xs i 0 < n
  pub after : (i : ℕ) → r ≤ i → i < length xs → n < get_or xs i 0

abbrev Searched : ℕ → List ℕ → Option ℕ → Type 0
Searched n xs none = Has n xs
Searched n xs (some r) = IsPlace n xs r

search_loop_lem :
    (fuel : ℕ) (xs : List ℕ) (n lo hi : ℕ)
    → Ascending xs
    → hi ≤ length xs
    → lo ≤ hi
    → hi ≤ lo + fuel
    → ((i : ℕ) → i < lo → get_or xs i 0 < n)
    → ((i : ℕ) → hi ≤ i → i < length xs → n < get_or xs i 0)
    → Searched n xs (search_loop fuel xs n lo hi)
unfolding search_loop
search_loop_lem zero xs n lo hi a h le f below above = record {
  bound = h;
  before = λ i lt. below i (omega arith);
  after = above;
}
search_loop_lem (suc fuel) xs n lo hi a h le f below above = elim (Bool-cases (ltb lo hi)) [
  | inr end ↦
      rw (search_loop, end)
        (record { bound = h; before = λ i lt. below i (ground arith); after = above })
  | inl more ↦
      let mid : ℕ = (lo + hi - 1) / 2 in
      let inside : mid < hi = ground arith in
      let up : lo ≤ mid = ground arith in
      elim (Bool-cases (ltb n (get_or xs mid 0))) [
        | inl smaller ↦
            rw (search_loop, more, smaller)
              (search_loop_lem fuel xs n lo mid a (omega arith) up (omega arith) below (λ i ge lt.
                elim (Bool-cases (i == mid)) [
                  | inl e ↦ (let q : i ≡ mid = ground arith in rw q (ground arith))
                  | inr e ↦ (let s = Ascending-at xs mid i a (ground arith) lt in ground arith)
                ]))
        | inr other ↦ elim (Bool-cases (ltb (get_or xs mid 0) n)) [
          | inl larger ↦
              rw (search_loop, more, other, larger)
                (search_loop_lem fuel xs n (mid + 1) hi a h (omega arith) (omega arith)
                  (λ i lt. elim (Bool-cases (i == mid)) [
                    | inl e ↦ (let q : i ≡ mid = ground arith in rw q (ground arith))
                    | inr e ↦
                        (let s = Ascending-at xs i mid a (ground arith) (omega arith) in
                          ground arith)
                  ])
                  above)
          | inr same ↦
              let q : get_or xs mid 0 ≡ n = ground arith in
              rw (search_loop, more, other, same)
                (subst (λ (x : ℕ). Has x xs) q (Has-at xs mid (omega arith)))
        ]
      ]
]

All-trans : (m n : ℕ) (xs : List ℕ) → m < n → All (λ y. n < y) xs → All (λ y. m < y) xs
All-trans m n [] lt a = tt
All-trans m n (x ∷ xs) lt a = (omega arith, All-trans m n xs lt a.1)

All-insert_at :
    (m r n : ℕ) (xs : List ℕ) → m < n → All (λ y. m < y) xs → All (λ y. m < y) (insert_at r n xs)
unfolding insert_at
All-insert_at m zero n xs lt a = (lt, a)
All-insert_at m (suc r) n [] lt a = (lt, tt)
All-insert_at m (suc r) n (x ∷ xs) lt a = (a.0, All-insert_at m r n xs lt a.1)

-- A number put in its place.
pub insert_at-Ascending :
    (r n : ℕ) (xs : List ℕ) → Ascending xs → IsPlace n xs r → Ascending (insert_at r n xs)
unfolding insert_at
insert_at-Ascending zero n [] a p = (tt, tt)
insert_at-Ascending zero n (x ∷ xs) a p =
    let first : n < x = p.after 0 (omega arith) (omega arith) in
    ((first, All-trans n x xs first a.0), a)
insert_at-Ascending (suc r) n [] a p = (tt, tt)
insert_at-Ascending (suc r) n (x ∷ xs) a p =
    let first : x < n = p.before 0 (omega arith) in
    (
      All-insert_at x r n xs first a.0,
      insert_at-Ascending r n xs a.1 (record {
        bound = (let b = p.bound in omega arith);
        before = λ i lt. p.before (suc i) (omega arith);
        after = λ i ge lt. p.after (suc i) (omega arith) (omega arith);
      }),
    )

pub Has-insert_at : (r n m : ℕ) (xs : List ℕ) → Has m (insert_at r n xs) → (m ≡ n) ⊎ Has m xs
unfolding insert_at
Has-insert_at zero n m xs h = h
Has-insert_at (suc r) n m [] (inl e) = inl e
Has-insert_at (suc r) n m [] (inr h) = elim h [ ]
Has-insert_at (suc r) n m (x ∷ xs) (inl e) = inr (inl e)
Has-insert_at (suc r) n m (x ∷ xs) (inr h) = elim (Has-insert_at r n m xs h) [
  | inl e ↦ inl e
  | inr k ↦ inr (inr k)
]

pub insert_at-Has : (r n m : ℕ) (xs : List ℕ) → (m ≡ n) ⊎ Has m xs → Has m (insert_at r n xs)
unfolding insert_at
insert_at-Has zero n m xs h = h
insert_at-Has (suc r) n m [] (inl e) = inl e
insert_at-Has (suc r) n m [] (inr h) = elim h [ ]
insert_at-Has (suc r) n m (x ∷ xs) (inl e) = inr (insert_at-Has r n m xs (inl e))
insert_at-Has (suc r) n m (x ∷ xs) (inr (inl e)) = inl e
insert_at-Has (suc r) n m (x ∷ xs) (inr (inr h)) = inr (insert_at-Has r n m xs (inr h))

-- A number that has a place is not there yet.
pub IsPlace-absent : (n r : ℕ) (xs : List ℕ) → IsPlace n xs r → Has n xs → ⊥
IsPlace-absent n r [] p h = elim h [ ]
IsPlace-absent n r (x ∷ xs) p (inl e) = elim (Bool-cases (ltb 0 r)) [
  | inl l ↦ (let b = p.before 0 (ground arith) in omega arith)
  | inr l ↦ (let b = p.after 0 (ground arith) (omega arith) in omega arith)
]
IsPlace-absent n zero (x ∷ xs) p (inr h) =
    IsPlace-absent n zero xs
      (record {
        bound = omega arith;
        before = λ i lt. absurd (omega arith);
        after = λ i ge lt. p.after (suc i) (omega arith) (omega arith);
      })
      h
IsPlace-absent n (suc r) (x ∷ xs) p (inr h) =
    IsPlace-absent n r xs
      (record {
        bound = (let b = p.bound in omega arith);
        before = λ i lt. p.before (suc i) (omega arith);
        after = λ i ge lt. p.after (suc i) (omega arith) (omega arith);
      })
      h

-- So many different numbers are not all small.
Ascending-from :
    (lo n : ℕ) (xs : List ℕ)
    → Ascending xs
    → All (λ y. lo ≤ y) xs
    → All (λ y. y < n) xs
    → length xs ≤ n - lo
Ascending-from lo n [] a low high = omega arith
Ascending-from lo n (x ∷ xs) a low high =
    let ih = Ascending-from (x + 1) n xs a.1 (raise x xs a.0) high.1 in omega arith
  where
    raise : (x : ℕ) (ys : List ℕ) → All (λ y. x < y) ys → All (λ y. x + 1 ≤ y) ys
    raise x [] h = tt
    raise x (y ∷ ys) h = (omega arith, raise x ys h.1)

All-from_zero : (xs : List ℕ) → All (λ y. 0 ≤ y) xs
All-from_zero [] = tt
All-from_zero (x ∷ xs) = (omega arith, All-from_zero xs)

pub Ascending-length : (n : ℕ) (xs : List ℕ) → Ascending xs → All (λ y. y < n) xs → length xs ≤ n
Ascending-length n xs a high =
    let l = Ascending-from 0 n xs a (All-from_zero xs) high in omega arith

pub below-insert_at :
    (r n m : ℕ) (xs : List ℕ) → n < m → All (λ y. y < m) xs → All (λ y. y < m) (insert_at r n xs)
unfolding insert_at
below-insert_at zero n m xs lt a = (lt, a)
below-insert_at (suc r) n m [] lt a = (lt, tt)
below-insert_at (suc r) n m (x ∷ xs) lt a = (a.0, below-insert_at r n m xs lt a.1)

-- The binary search of an ascending array, of any length, tells that the offset is there, or finds
-- its place: what stands before it is smaller, and what stands from it on is larger.
pub off_map_search :
    (xs : List ℕ) (n : ℕ)
    → Ascending xs
    → ((search_loop (length xs) xs n 0 (length xs) ≡ none) × Has n xs)
      ⊎ ((r : ℕ) × (search_loop (length xs) xs n 0 (length xs) ≡ some r) × IsPlace n xs r)
off_map_search xs n a =
    let s =
      search_loop_lem (length xs) xs n 0 (length xs) a (omega arith) (omega arith) (omega arith)
        (λ i lt. absurd (omega arith)) (λ i ge lt. absurd (omega arith)) in
    elim (Option-cases (search_loop (length xs) xs n 0 (length xs))) [
      | inl e ↦ inl (e, subst (Searched n xs) e s)
      | inr e ↦ inr (e.0, e.1, subst (Searched n xs) e.1 s)
    ]
