-- ===== src/Prelude/Powers.antt =====
-- Powers of two, for shifts by a computed count.
use native.Mathlib.Nat.{pow-suc, one-le-pow, div-div-eq-div-mul, div-lt_iff_lt-mul}
use gdbm.Prelude.{ℕ, zero, suc, ◌+◌, ◌-◌, ◌*◌, ◌/◌, ◌^◌, ◌≤◌, ◌<◌, ◌≡◌, ap, ◌∙◌, arith}

pub pow-add : (a b : ℕ) → 2 ^ (a + b) ≡ 2 ^ a * 2 ^ b
pow-add zero b = grind arith
pow-add (suc a) b =
    let e : suc a + b ≡ suc (a + b) = omega arith in
    rw (e, pow-suc 2 (a + b), pow-suc 2 a, pow-add a b) (grind arith)

pub pow_pos : (a : ℕ) → 0 < 2 ^ a
pow_pos a = one-le-pow a 2 (omega arith)

-- A number of w bits, shifted right to its b leading bits.
pub div-pow-lt : (w b x : ℕ) → b ≤ w → x < 2 ^ w → x / 2 ^ (w - b) < 2 ^ b
div-pow-lt w b x h lt =
    let e : b + (w - b) ≡ w = omega arith in
    (div-lt_iff_lt-mul (pow_pos (w - b))).1 (
      let p : 2 ^ w ≡ 2 ^ b * 2 ^ (w - b) = ap (λ k. 2 ^ k) (omega arith) ∙ pow-add b (w - b) in
      omega arith)

-- Dropping one bit less, and then that bit.
pub div-pow-half : (w b x : ℕ) → b < w → x / 2 ^ (w - suc b) / 2 ≡ x / 2 ^ (w - b)
div-pow-half w b x h =
    let e : w - b ≡ suc (w - suc b) = omega arith in
    rw (e, pow-suc 2 (w - suc b)) (div-div-eq-div-mul x (2 ^ (w - suc b)) 2)
