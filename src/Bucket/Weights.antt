-- ===== src/Bucket/Weights.antt =====
-- Sums over the positions and over the used elements of a bucket's table.
use gdbm.Prelude.{
  ℕ, zero, suc, ◌+◌, ◌*◌, ◌≤◌, ◌<◌, ◌≡◌, refl, sym, Bool, true, false, List, [], ◌∷◌, length, set,
  replicate, if◌then◌else◌, arith,
}
use gdbm.Bucket.{BucketElement, new_element, new_bucket, at, is_used}

unfoldable pub sum_at : (ℕ → BucketElement → ℕ) → ℕ → List BucketElement → ℕ
sum_at f start [] = 0
sum_at f start (e ∷ table) = f start e + sum_at f (start + 1) table

-- A write trades one summand for another.
pub sum_at-set :
    (f : ℕ → BucketElement → ℕ) (start : ℕ) (table : List BucketElement) (r : ℕ) (e : BucketElement)
    → r < length table
    → sum_at f start (set table r e) + f (start + r) (at table r)
      ≡ sum_at f start table + f (start + r) e
unfolding sum_at
sum_at-set f start [] r e lt = absurd (omega arith)
sum_at-set f start (x ∷ table) zero e lt =
    let z : start + zero ≡ start = omega arith in rw z (omega arith)
sum_at-set f start (x ∷ table) (suc r) e lt =
    let z : start + suc r ≡ start + 1 + r = omega arith in
    let ih = sum_at-set f (start + 1) table r e (omega arith) in rw z (omega arith)

pub sum_at-le :
    (f : ℕ → BucketElement → ℕ) (bound start : ℕ) (table : List BucketElement)
    → ((i : ℕ) (e : BucketElement) → i < start + length table → f i e ≤ bound)
    → sum_at f start table ≤ length table * bound
unfolding sum_at
sum_at-le f bound start [] h = omega arith
sum_at-le f bound start (e ∷ table) h =
    let first = h start e (omega arith) in
    let ih = sum_at-le f bound (start + 1) table (λ i x lt. h i x (omega arith)) in omega arith

-- What the used elements weigh together.
unfoldable pub weigh : (BucketElement → ℕ) → ℕ → BucketElement → ℕ
weigh w i e = if is_used e then w e else 0

unfoldable pub weight : (BucketElement → ℕ) → List BucketElement → ℕ
weight w table = sum_at (weigh w) 0 table

-- The number of used elements that pass a test.
abbrev pub one_if : (BucketElement → Bool) → BucketElement → ℕ
one_if test e = if test e then 1 else 0

pub weight-set_used :
    (w : BucketElement → ℕ) (table : List BucketElement) (r : ℕ) (e : BucketElement)
    → r < length table
    → is_used (at table r) ≡ false
    → is_used e ≡ true
    → weight w (set table r e) ≡ weight w table + w e
unfolding weight weigh
weight-set_used w table r e lt free used = ground (arith, sum_at-set (weigh w) 0 table r e lt)

pub weight-set_free :
    (w : BucketElement → ℕ) (table : List BucketElement) (r : ℕ) (e : BucketElement)
    → r < length table
    → is_used (at table r) ≡ true
    → is_used e ≡ false
    → weight w (set table r e) + w (at table r) ≡ weight w table
unfolding weight weigh
weight-set_free w table r e lt used free = ground (arith, sum_at-set (weigh w) 0 table r e lt)

-- A summand is at most the sum.
pub sum_at-position :
    (f : ℕ → BucketElement → ℕ) (start : ℕ) (table : List BucketElement) (r : ℕ)
    → r < length table
    → f (start + r) (at table r) ≤ sum_at f start table
unfolding sum_at
sum_at-position f start [] r lt = absurd (omega arith)
sum_at-position f start (x ∷ table) zero lt =
    let z : start + zero ≡ start = omega arith in rw z (omega arith)
sum_at-position f start (x ∷ table) (suc r) lt =
    let z : start + suc r ≡ start + 1 + r = omega arith in
    let ih = sum_at-position f (start + 1) table r (omega arith) in rw z (omega arith)

-- A sum of nothing but zeros.
pub sum_at-zero :
    (f : ℕ → BucketElement → ℕ) (start : ℕ) (table : List BucketElement)
    → ((r : ℕ) → r < length table → f (start + r) (at table r) ≡ 0)
    → sum_at f start table ≡ 0
unfolding sum_at
sum_at-zero f start [] h = refl
sum_at-zero f start (x ∷ table) h =
    let first = h 0 (omega arith) in
    let z : start + 0 ≡ start = omega arith in
    let zero_first : f start x ≡ 0 = rw (sym z) first in
    let ih = sum_at-zero f (start + 1) table (λ r lt.
      let q : start + suc r ≡ start + 1 + r = omega arith in
      rw (sym q) (h (suc r) (omega arith))) in
    omega arith

-- A sum of nothing but ones.
pub sum_at-full :
    (f : ℕ → BucketElement → ℕ) (start : ℕ) (table : List BucketElement)
    → ((r : ℕ) → r < length table → f (start + r) (at table r) ≡ 1)
    → sum_at f start table ≡ length table
unfolding sum_at
sum_at-full f start [] h = refl
sum_at-full f start (x ∷ table) h =
    let first = h 0 (omega arith) in
    let z : start + 0 ≡ start = omega arith in
    let one_first : f start x ≡ 1 = rw (sym z) first in
    let ih = sum_at-full f (start + 1) table (λ r lt.
      let q : start + suc r ≡ start + 1 + r = omega arith in
      rw (sym q) (h (suc r) (omega arith))) in
    omega arith

pub weight-full :
    (table : List BucketElement)
    → ((k : ℕ) → k < length table → is_used (at table k) ≡ true)
    → weight (λ e. 1) table ≡ length table
unfolding weight weigh
weight-full table h = sum_at-full (weigh (λ e. 1)) 0 table (λ r lt. rw (h r lt) refl)

empty_sum :
    (w : BucketElement → ℕ) (start n : ℕ) → sum_at (weigh w) start (replicate n new_element) ≡ 0
unfolding sum_at weigh is_used
empty_sum w start zero = refl
empty_sum w start (suc n) = omega (arith, empty_sum w (start + 1) n)

pub weight-new_bucket :
    (w : BucketElement → ℕ) (n bits : ℕ) → weight w (new_bucket n bits).h_table ≡ 0
unfolding weight new_bucket
weight-new_bucket w n bits = empty_sum w 0 n

sum_at_shift :
    (w : BucketElement → ℕ) (s t : ℕ) (table : List BucketElement)
    → sum_at (weigh w) s table ≡ sum_at (weigh w) t table
unfolding sum_at weigh
sum_at_shift w s t [] = refl
sum_at_shift w s t (e ∷ table) = omega (arith, sum_at_shift w (s + 1) (t + 1) table)

pub weight-cons :
    (w : BucketElement → ℕ) (e : BucketElement) (table : List BucketElement)
    → is_used e ≡ true
    → weight w (e ∷ table) ≡ w e + weight w table
unfolding weight sum_at weigh
weight-cons w e table used = ground (arith, sum_at_shift w (0 + 1) 0 table)

pub weight-empty : (w : BucketElement → ℕ) → weight w [] ≡ 0
unfolding weight sum_at
weight-empty w = refl
