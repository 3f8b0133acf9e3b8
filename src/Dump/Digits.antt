-- ===== src/Dump/Digits.antt =====
-- The decimal numbers that src/gdbmdump.c prints.
use native.Mathlib.Nat.{pow-suc}
use gdbm.Prelude.{
  ℕ, zero, suc, ◌/◌, ◌^◌, ◌≤◌, ◌<◌, ltb, length, All, All-append, Bool-cases, inl, inr, arith,
  length-append, lt→ltb,
}
use gdbm.Dump.{digits_of, decimal}

abbrev pub IsDigit : ℕ → Type 0
IsDigit c = (b'0' ≤ c) × (c ≤ b'9')

digits_of-IsDigit : (fuel n : ℕ) → All IsDigit (digits_of fuel n)
unfolding digits_of
digits_of-IsDigit zero n = tt
digits_of-IsDigit (suc fuel) n = elim (Bool-cases (ltb n 10)) [
  | inl small ↦ rw (small) ((omega arith, ground arith), tt)
  | inr large ↦ rw (large) (
      All-append IsDigit (digits_of fuel (n / 10)) _ (digits_of-IsDigit fuel (n / 10))
        ((omega arith, omega arith), tt))
]

pub decimal-IsDigit : (n : ℕ) → All IsDigit (decimal n)
unfolding decimal
decimal-IsDigit n = digits_of-IsDigit (suc n) n

digits_of-some : (fuel n : ℕ) → 0 < length (digits_of (suc fuel) n)
unfolding digits_of
digits_of-some fuel n = elim (Bool-cases (ltb n 10)) [
  | inl small ↦ rw (small) (omega arith)
  | inr large ↦ rw (large, length-append) (omega arith)
]

length-digits_of : (fuel n k : ℕ) → n < 10 ^ suc k → length (digits_of fuel n) ≤ suc k
unfolding digits_of
length-digits_of zero n k h = omega arith
length-digits_of (suc fuel) n zero h = rw (lt→ltb n 10 (omega arith)) (omega arith)
length-digits_of (suc fuel) n (suc k) h = elim (Bool-cases (ltb n 10)) [
  | inl small ↦ rw (small) (omega arith)
  | inr large ↦
      rw (large, length-append)
        (omega (arith, length-digits_of fuel (n / 10) k (omega (arith, pow-suc 10 (suc k)))))
]

-- The number of digits of an int.
pub length-decimal : (n : ℕ) → n < 2 ^ 64 → (0 < length (decimal n)) × (length (decimal n) ≤ 20)
unfolding decimal
length-decimal n h = (digits_of-some n n, length-digits_of (suc n) n 19 (omega arith))
