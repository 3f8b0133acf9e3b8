-- ===== src/Bucket/Cyclic.antt =====
-- Distances round a table of n positions.
use gdbm.Prelude.{
  ℕ, ◌+◌, ◌-◌, ◌%◌, ◌≤◌, ◌<◌, ◌≡◌, ◌≢◌, ◌⊎◌, inl, inr, true, false, leb, ◌==◌, if◌then◌else◌,
  Bool-cases, arith,
}
use native.Mathlib.Nat.{mod_self}
use gdbm.Bucket.{moves}

-- The steps from a to b.
unfoldable pub dist : ℕ → ℕ → ℕ → ℕ
dist n a b = if leb a b then b - a else b + n - a

pub dist-lt : (n a b : ℕ) → a < n → b < n → dist n a b < n
unfolding dist
dist-lt n a b ha hb = ground arith

pub dist_self : (n a : ℕ) → dist n a a ≡ 0
unfolding dist
dist_self n a = ground arith

pub dist-eq-zero : (n a b : ℕ) → a < n → b < n → dist n a b ≡ 0 → a ≡ b
unfolding dist
dist-eq-zero n a b ha hb e = ground arith

-- One step further.
pub dist_next :
    (n a b : ℕ)
    → a < n
    → b < n
    → (dist n a ((b + 1) % n) ≡ dist n a b + 1) ⊎ ((((b + 1) % n) ≡ a) × (dist n a b + 1 ≡ n))
unfolding dist
dist_next n a b ha hb = elim (Bool-cases (b + 1 == n)) [
  | inl e ↦
      let z : (b + 1) % n ≡ 0 = (let q : b + 1 ≡ n = ground arith in rw q (mod_self n)) in
      rw z (ground arith)
  | inr e ↦ let z : (b + 1) % n ≡ b + 1 = grind arith in rw z (ground arith)
]

-- Going from a by way of b to c, where b comes first.
pub dist_via :
    (n a b c : ℕ)
    → a < n
    → b < n
    → c < n
    → dist n a b ≤ dist n a c
    → dist n a b + dist n b c ≡ dist n a c
unfolding dist
dist_via n a b c ha hb hc h = ground arith

pub dist_back : (n a b : ℕ) → a < n → b < n → a ≢ b → dist n a b + dist n b a ≡ n
unfolding dist
dist_back n a b ha hb h = ground arith

-- Going from a to a place that comes after b takes longer than from b.
pub dist_inj : (n a b c : ℕ) → a < n → b < n → c < n → dist n a b ≡ dist n a c → b ≡ c
unfolding dist
dist_inj n a b c ha hb hc h = ground arith

-- The source's test says whether the gap is nearer to the home than the element is.
pub moves_iff :
    (n last loc home : ℕ)
    → last < n
    → loc < n
    → home < n
    → last ≢ loc
    → ((moves last loc home ≡ true) × (dist n home last < dist n home loc))
      ⊎ ((moves last loc home ≡ false) × (dist n home loc < dist n home last))
unfolding dist moves
moves_iff n last loc home h1 h2 h3 h4 = ground arith
