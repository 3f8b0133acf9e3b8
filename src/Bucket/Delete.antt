-- ===== src/Bucket/Delete.antt =====
-- src/gdbmdelete.c: what the removal of an element leaves in the bucket's table.
use gdbm.Prelude.{
  ℕ, zero, suc, ◌+◌, ◌-◌, ◌*◌, ◌%◌, ◌≤◌, ◌<◌, ◌≡◌, ◌≢◌, ◌⊎◌, inl, inr, refl, true, false, Option,
  none, some, List, length, length-set, set, ◌==◌, Bool-cases, ap, sym, ◌∙◌, arith,
}
use mathlib.Core.Path.{subst}
use native.Mathlib.Nat.{mul-le-mul_left}
use gdbm.Bucket.{
  BucketElement, at, is_used, home_of, cleared, moves, close_gap, close_fuel, delete_element,
}
use gdbm.Bucket.Cyclic.{dist, dist-lt, dist_self, dist-eq-zero, dist_next}
use gdbm.Bucket.Probe.{IsProbed, at-set}
use gdbm.Bucket.Weights.{weight, weight-set_free}
use gdbm.Bucket.Gap.{
  HasGap, Scanned, ways, closed_all, closed_at, Scanned-next, moved, moved-HasGap, weight-moved,
  ways-moved, hash_of_used, used_of, not_both, ways-le,
}

-- How far the scan from the gap has come when it is at j.
abbrev IsSpan : ℕ → ℕ → ℕ → ℕ → Type 0
IsSpan n g j span = ((g ≢ j) × (span ≡ dist n g j)) ⊎ ((j ≡ g) × (span ≡ n))

next-IsSpan : (n g j : ℕ) → g < n → j < n → IsSpan n g ((j + 1) % n) (dist n g j + 1)
next-IsSpan n g j lg lj = elim (dist_next n g j lg lj) [
  | inr w ↦ inr w
  | inl e ↦ inl (
    (λ same.
        let z = dist_self n g in
        let q : dist n g ((j + 1) % n) ≡ 0 = rw (sym same) z in absurd (omega arith)),
    sym e,
  )
]

first-IsSpan : (n g : ℕ) → g < n → IsSpan n g ((g + 1) % n) 1
first-IsSpan n g lg =
    let z = dist_self n g in
    let e : dist n g g + 1 ≡ 1 = omega (arith, z) in
    subst (λ (s : ℕ). IsSpan n g ((g + 1) % n) s) e (next-IsSpan n g g lg lg)

-- Nothing stands at the gap.
Scanned-first : (n g : ℕ) (table : List BucketElement) → HasGap n g table → Scanned n g 1 table
Scanned-first n g table gap i h li q near =
    let same = dist-eq-zero n g i gap.inside li (omega arith) in
    absurd (
      not_both (used_of (at table i) h q)
        (subst (λ (x : ℕ). is_used (at table x) ≡ false) same gap.free))

-- What the loop leaves.
abbrev Closes : ℕ → List BucketElement → Option (List BucketElement) → Type 0
Closes n table none = ⊥
Closes n table (some result) =
    IsProbed result
    × (length result ≡ n)
    × ((w : BucketElement → ℕ) → weight w result ≡ weight w table)

Closes-some :
    (n : ℕ) (table : List BucketElement) (o : Option (List BucketElement))
    → Closes n table o
    → (t : List BucketElement) × (o ≡ some t) × Closes n table (some t)
Closes-some n table none c = absurd c
Closes-some n table (some t) c = (t, refl, c)

Closes-mono :
    (n : ℕ) (table table' : List BucketElement) (o : Option (List BucketElement))
    → ((w : BucketElement → ℕ) → weight w table ≡ weight w table')
    → Closes n table o
    → Closes n table' o
Closes-mono n table table' none same c = c
Closes-mono n table table' (some t) same c = (c.0, c.1, λ w. c.2 w ∙ same w)

-- A round that is not the last leaves room for the fuel that the next one has.
fuel_after_move :
    (n w w' span fuel : ℕ)
    → w' < w
    → span < n
    → n * w + (n - span) < suc fuel
    → n * w' + (n - 1) < fuel
fuel_after_move n w w' span fuel less lt f =
    let m = mul-le-mul_left n less in let e : n * suc w' ≡ n * w' + n = omega arith in omega arith

-- The rounds that go on.
module _ (n fuel : ℕ) (table : List BucketElement) (g j h : ℕ) (len : length table ≡ n)
    (t : (j == g) ≡ false) (used : is_used (at table j) ≡ true)
    (q : (at table j).hash_value ≡ some h) where
  same_home : home_of (length table) (at table j) ≡ h % n
  same_home = rw (home_of, q, len) refl

  step_on :
      moves g j (h % n) ≡ false
      → close_gap (suc fuel) table g j ≡ close_gap fuel table g ((j + 1) % n)
  unfolding close_gap
  step_on stays =
      let m : moves g j (home_of (length table) (at table j)) ≡ false = rw same_home stays in
      rw (close_gap, t, used, m, len) refl

  step_move :
      moves g j (h % n) ≡ true
      → close_gap (suc fuel) table g j
        ≡ close_gap fuel (set (set table g (at table j)) j (cleared (at table j))) j ((j + 1) % n)
  unfolding close_gap
  step_move goes =
      let m : moves g j (home_of (length table) (at table j)) ≡ true = rw same_home goes in
      rw (close_gap, t, used, m, len) refl

enough_fuel : (n w : ℕ) → 0 < n → w ≤ n * n → n * w + (n - 1) < close_fuel n
enough_fuel n w pos le = let m = mul-le-mul_left n le in omega arith

-- Where one element is cleared, the table has a gap.
cleared-HasGap :
    (table : List BucketElement) (r : ℕ)
    → IsProbed table
    → r < length table
    → is_used (cleared (at table r)) ≡ false
    → HasGap (length table) r (set table r (cleared (at table r)))
cleared-HasGap table r p lr unused = record {
  len = length-set table r (cleared (at table r));
  inside = lr;
  free = elim (at-set table r r (cleared (at table r)) lr) [
    | inl a ↦ rw a.1 unused
    | inr a ↦ absurd (a.0 refl)
  ];
  probed = λ i h li q k lk d. elim (at-set table r k (cleared (at table r)) lr) [
    | inl a ↦ inr a.0
    | inr a ↦ elim (at-set table r i (cleared (at table r)) lr) [
      | inl b ↦
          absurd
            (not_both (used_of (at (set table r (cleared (at table r))) i) h q) (rw b.1 unused))
      | inr b ↦
          inl (rw a.1 (p i h li (sym (ap (λ (x : BucketElement). x.hash_value) b.1) ∙ q) k lk d))
    ]
  ];
}

module _ (n : ℕ) where
  close_gap_lem :
      (fuel : ℕ) (table : List BucketElement) (g j span : ℕ)
      → HasGap n g table
      → j < n
      → IsSpan n g j span
      → Scanned n g span table
      → n * ways n table + (n - span) < fuel
      → Closes n table (close_gap fuel table g j)
  unfolding close_gap
  close_gap_lem zero table g j span gap lj is scanned f = absurd (omega arith)
  close_gap_lem (suc fuel) table g j span gap lj (inr (same, all)) scanned f =
      let t : (j == g) ≡ true = ground arith in
      rw (close_gap, t)
        (
          closed_all n g table gap (subst (λ (s : ℕ). Scanned n g s table) all scanned),
          gap.len,
          λ w. refl,
        )
  close_gap_lem (suc fuel) table g j span gap lj (inl (ne, e)) scanned f =
      let t : (j == g) ≡ false = ground arith in
      let scanned' = subst (λ (s : ℕ). Scanned n g s table) e scanned in
      let small = dist-lt n g j gap.inside lj in
      elim (Bool-cases (is_used (at table j))) [
        | inr free ↦
            rw (close_gap, t, free)
              (closed_at n g table gap j lj free ne scanned', gap.len, λ w. refl)
        | inl used ↦
            let (h, q, unused) = hash_of_used (at table j) used in
            elim (Bool-cases (moves g j (h % n))) [
              | inr stays ↦
                  subst (λ t. Closes n table t)
                    (sym (step_on n fuel table g j h gap.len t used q stays))
                    (close_gap_lem fuel table g ((j + 1) % n) (dist n g j + 1) gap (grind arith)
                      (next-IsSpan n g j gap.inside lj)
                      (Scanned-next n g table gap j h lj q ne stays scanned') (omega arith))
              | inl goes ↦
                  let gap' = moved-HasGap n g table gap j h lj q ne goes in
                  let r =
                    close_gap_lem fuel (moved n g table gap j h lj q ne) j ((j + 1) % n) 1 gap'
                      (grind arith) (first-IsSpan n j lj)
                      (Scanned-first n j (moved n g table gap j h lj q ne) gap')
                      (fuel_after_move n (ways n table) (ways n (moved n g table gap j h lj q ne))
                        span fuel (ways-moved n g table gap j h lj q ne goes) (omega arith) f) in
                  subst (λ t. Closes n table t)
                    (sym (step_move n fuel table g j h gap.len t used q goes))
                    (Closes-mono n (moved n g table gap j h lj q ne) table _
                      (weight-moved n g table gap j h lj q ne) r)
            ]
      ]

-- The removal of a used element from a bucket with at least one position, where every used element
-- is reached from its home by used elements alone: the loop ends; the table then has as many
-- positions as before, every used element is still reached from its home, and the used elements,
-- with whatever is counted of each, are those from before without the one that was removed.
pub delete_element_lem :
    (table : List BucketElement) (r : ℕ)
    → IsProbed table
    → r < length table
    → is_used (at table r) ≡ true
    → (table' : List BucketElement) × (delete_element table r ≡ some table')
      × IsProbed table'
      × (length table' ≡ length table)
      × ((w : BucketElement → ℕ) → weight w table' + w (at table r) ≡ weight w table)
unfolding delete_element
delete_element_lem table r p lr used =
    let n = length table in
    let start = set table r (cleared (at table r)) in
    let unused = (hash_of_used (at table r) used).2 in
    let gap = cleared-HasGap table r p lr unused in
    let c =
      close_gap_lem n (close_fuel n) start r ((r + 1) % n) 1 gap (grind arith) (first-IsSpan n r lr)
        (Scanned-first n r start gap)
        (enough_fuel n (ways n start) (omega arith) (ways-le n start gap.len)) in
    let (t, e, d) = Closes-some n start (close_gap (close_fuel n) start r ((r + 1) % n)) c in
    (
      t,
      e,
      d.0,
      d.1,
      λ w.
          let s = weight-set_free w table r (cleared (at table r)) lr used unused in
          omega (arith, d.2 w, s),
    )
