-- ===== src/Bucket/Probe.antt =====
-- The loops that probe the bucket's table, in src/findkey.c and src/gdbmstore.c: what they have seen
-- when they stop.
use gdbm.Prelude.{
  ℕ, zero, suc, ◌+◌, ◌%◌, ◌≤◌, ◌<◌, ◌≡◌, ◌≢◌, ◌⊎◌, inl, inr, refl, Bool, true, false, Option, none,
  some, List, [], ◌∷◌, length, set, ◌==◌, Bool-cases, ap, arith,
}
use mathlib.Core.Path.{subst}
use gdbm.Bucket.{BucketElement, at, is_used, find_loop, free_loop}
use gdbm.Bucket.Cyclic.{dist, dist-lt, dist_self, dist_next, dist_inj}

-- A read after a write.
pub at-set :
    (table : List BucketElement) (r k : ℕ) (e : BucketElement)
    → r < length table
    → ((k ≡ r) × (at (set table r e) k ≡ e)) ⊎ ((k ≢ r) × (at (set table r e) k ≡ at table k))
at-set [] r k e lt = absurd (omega arith)
at-set (x ∷ xs) zero zero e lt = inl (refl, refl)
at-set (x ∷ xs) zero (suc k) e lt = inr ((λ h. omega arith), refl)
at-set (x ∷ xs) (suc r) zero e lt = inr ((λ h. omega arith), refl)
at-set (x ∷ xs) (suc r) (suc k) e lt = elim (at-set xs r k e (omega arith)) [
  | inl p ↦ inl (ap suc p.0, p.1)
  | inr p ↦ inr ((λ h. p.0 (omega arith)), p.1)
]

-- Every position that is probed from `home` on before `i` has the property.
abbrev pub Before : List BucketElement → ℕ → ℕ → (ℕ → Type 0) → Type 0
Before table home i P =
    (k : ℕ) → k < length table → dist (length table) home k < dist (length table) home i → P k

-- Every used element is reached from its home by used elements alone.
abbrev pub IsProbed : List BucketElement → Type 0
IsProbed table =
    (i h : ℕ)
    → i < length table
    → (at table i).hash_value ≡ some h
    → Before table (h % length table) i (λ k. is_used (at table k) ≡ true)

-- One more position.
module _ (table : List BucketElement) (P : ℕ → Type 0) (home loc : ℕ) (h : home < length table)
    (l : loc < length table) (before : Before table home loc P) (here : P loc) where
  upto :
      (k : ℕ) → k < length table → dist (length table) home k ≤ dist (length table) home loc → P k
  upto k lt d = elim (Bool-cases (dist (length table) home k == dist (length table) home loc)) [
    | inl q ↦ subst P (dist_inj (length table) home loc k h l lt (ground arith)) here
    | inr q ↦ before k lt (ground arith)
  ]

  pub step_before :
      ((loc + 1) % length table) ≢ home
      → (dist (length table) home ((loc + 1) % length table) ≡ dist (length table) home loc + 1)
        × Before table home ((loc + 1) % length table) P
  step_before ne = elim (dist_next (length table) home loc h l) [
    | inr w ↦ absurd (ne w.0)
    | inl e ↦ (e, λ k lt d. upto k lt (omega arith))
  ]

  pub step_all : ((loc + 1) % length table) ≡ home → (k : ℕ) → k < length table → P k
  step_all eq k lt =
      let z : dist (length table) home ((loc + 1) % length table) ≡ 0 =
        (rw eq (dist_self (length table) home)) in
      elim (dist_next (length table) home loc h l) [
        | inr w ↦
            let b : dist (length table) home k < length table =
              dist-lt (length table) home k h lt in
            upto k lt (omega arith)
        | inl e ↦ absurd (omega arith)
      ]

abbrev pub Misses : List BucketElement → (BucketElement → Bool) → ℕ → Type 0
Misses table matches k = (is_used (at table k) ≡ true) × (matches (at table k) ≡ false)

module _ (table : List BucketElement) (home : ℕ) (h : home < length table) where
  -- The search for an unused element stops at the first one, or has seen them all.
  abbrev pub FreeAt : Option ℕ → Type 0
  FreeAt none = (k : ℕ) → k < length table → is_used (at table k) ≡ true
  FreeAt (some r) =
      (r < length table)
      × (is_used (at table r) ≡ false)
      × Before table home r (λ k. is_used (at table k) ≡ true)

  pub free_loop_lem :
      (fuel loc : ℕ)
      → loc < length table
      → length table ≤ fuel + dist (length table) home loc
      → Before table home loc (λ k. is_used (at table k) ≡ true)
      → FreeAt (free_loop fuel table home loc)
  unfolding free_loop
  free_loop_lem zero loc l f before =
      let b : dist (length table) home loc < length table = dist-lt (length table) home loc h l in
      absurd (omega arith)
  free_loop_lem (suc fuel) loc l f before = elim (Bool-cases (is_used (at table loc))) [
    | inr e ↦ rw (free_loop, e) (l, e, before)
    | inl e ↦ elim (Bool-cases (((loc + 1) % length table) == home)) [
      | inl w ↦
          rw (free_loop, e, w)
            (step_all table (λ k. is_used (at table k) ≡ true) home loc h l before e (ground arith))
      | inr w ↦
          let s =
            step_before table (λ k. is_used (at table k) ≡ true) home loc h l before e
              (ground arith) in
          rw (free_loop, e, w)
            (free_loop_lem fuel ((loc + 1) % length table) (grind arith) (omega arith) s.1)
    ]
  ]

  -- The search stops at the first match, or at an unused element, or has seen them all.
  abbrev pub FoundAt : (BucketElement → Bool) → Option ℕ → Type 0
  FoundAt matches none =
      ((k : ℕ) → k < length table → Misses table matches k)
      ⊎ ((r : ℕ) × (r < length table)
          × (is_used (at table r) ≡ false)
          × Before table home r (Misses table matches))
  FoundAt matches (some r) =
      (r < length table)
      × (is_used (at table r) ≡ true)
      × (matches (at table r) ≡ true)
      × Before table home r (Misses table matches)

  pub find_loop_lem :
      (matches : BucketElement → Bool) (fuel loc : ℕ)
      → loc < length table
      → length table ≤ fuel + dist (length table) home loc
      → Before table home loc (Misses table matches)
      → FoundAt matches (find_loop fuel table matches home loc)
  unfolding find_loop
  find_loop_lem matches zero loc l f before =
      let b : dist (length table) home loc < length table = dist-lt (length table) home loc h l in
      absurd (omega arith)
  find_loop_lem matches (suc fuel) loc l f before = elim (Bool-cases (is_used (at table loc))) [
    | inr e ↦ rw (find_loop, e) (inr (loc, l, e, before))
    | inl e ↦ elim (Bool-cases (matches (at table loc))) [
      | inl m ↦ rw (find_loop, e, m) (l, e, m, before)
      | inr m ↦ elim (Bool-cases (((loc + 1) % length table) == home)) [
        | inl w ↦
            rw (find_loop, e, m, w)
              (inl
                (step_all table (Misses table matches) home loc h l before (e, m) (ground arith)))
        | inr w ↦
            let s =
              step_before table (Misses table matches) home loc h l before (e, m) (ground arith) in
            rw (find_loop, e, m, w)
              (find_loop_lem matches fuel ((loc + 1) % length table) (grind arith) (omega arith)
                s.1)
      ]
    ]
  ]
