-- ===== src/Prelude/Bytes.antt =====
-- Bit operations on bytes, as arithmetic: each law is checked at every value of its range.
use Prim.Native.Nat.{bit_and, bit_or}
use gdbm.Prelude.{
  ℕ, zero, suc, ◌+◌, ◌*◌, ◌%◌, ◌<◌, ◌≡◌, refl, Bool, true, ◌&&◌, arith, ◌==◌, ==_iff,
}

-- Whether every number below the bound passes.
unfoldable pub each_below : ℕ → (ℕ → Bool) → Bool
each_below zero test = true
each_below (suc bound) test = each_below bound test && test bound

pub each_below_lem :
    (bound : ℕ) (test : ℕ → Bool) (k : ℕ) → each_below bound test ≡ true → k < bound → test k ≡ true
unfolding each_below
each_below_lem zero test k every below = absurd (omega arith)
each_below_lem (suc bound) test k every below =
    let earlier = each_below_lem bound test k in ground (arith, earlier)

-- A property of two numbers, the second below `m`.
pub all_pairs_sound :
    (n m : ℕ) (p : ℕ → ℕ → Bool) (x y : ℕ)
    → each_below n (λ a. each_below m (p a)) ≡ true
    → x < n
    → y < m
    → p x y ≡ true
all_pairs_sound n m p x y h hx hy =
    each_below_lem m (p x) y (each_below_lem n (λ a. each_below m (p a)) x h hx) hy

or_shift2_table : each_below 64 (λ a. each_below 4 (λ b. bit_or (a * 4) b == a * 4 + b)) ≡ true
unfolding each_below
or_shift2_table = refl

pub or_shift2 : (a b : ℕ) → a < 64 → b < 4 → bit_or (a * 4) b ≡ a * 4 + b
or_shift2 a b ha hb =
    (==_iff _ _).0
      (all_pairs_sound 64 4 (λ a b. bit_or (a * 4) b == a * 4 + b) a b or_shift2_table ha hb)

or_shift4_table : each_below 16 (λ a. each_below 16 (λ b. bit_or (a * 16) b == a * 16 + b)) ≡ true
unfolding each_below
or_shift4_table = refl

pub or_shift4 : (a b : ℕ) → a < 16 → b < 16 → bit_or (a * 16) b ≡ a * 16 + b
or_shift4 a b ha hb =
    (==_iff _ _).0
      (all_pairs_sound 16 16 (λ a b. bit_or (a * 16) b == a * 16 + b) a b or_shift4_table ha hb)

or_shift6_table : each_below 4 (λ a. each_below 64 (λ b. bit_or (a * 64) b == a * 64 + b)) ≡ true
unfolding each_below
or_shift6_table = refl

pub or_shift6 : (a b : ℕ) → a < 4 → b < 64 → bit_or (a * 64) b ≡ a * 64 + b
or_shift6 a b ha hb =
    (==_iff _ _).0
      (all_pairs_sound 4 64 (λ a b. bit_or (a * 64) b == a * 64 + b) a b or_shift6_table ha hb)

mask_table :
    each_below 256 (λ x.
      (bit_and (x * 16) 0x30 == x % 4 * 16)
      && (bit_and (x * 4) 0x3c == x % 16 * 4)
      && (bit_and x 0x3f == x % 64)
      && (bit_and (x * 16) 0xf0 == x % 16 * 16)
      && (bit_and (x * 64) 0xc0 == x % 4 * 64))
    ≡ true
unfolding each_below
mask_table = refl

-- The masks that the code applies to a shifted byte keep the low bits.
pub masks :
    (x : ℕ)
    → x < 256
    → (bit_and (x * 16) 0x30 ≡ x % 4 * 16)
      × (bit_and (x * 4) 0x3c ≡ x % 16 * 4)
      × (bit_and x 0x3f ≡ x % 64)
      × (bit_and (x * 16) 0xf0 ≡ x % 16 * 16)
      × (bit_and (x * 64) 0xc0 ≡ x % 4 * 64)
masks x h = ground (arith, each_below_lem 256 _ x mask_table h)
