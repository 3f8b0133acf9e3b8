-- ===== src/Load/Numbers.antt =====
-- src/gdbmload.c: strtoul reads the number that src/gdbmdump.c prints.
use native.Mathlib.Nat.{zero-add}
use mathlib.Core.List.{append_assoc}
use gdbm.Prelude.{
  ℕ, ==_ne, zero, suc, ◌+◌, ◌*◌, ◌/◌, ◌%◌, ◌^◌, ◌≤◌, ◌<◌, ◌≡◌, refl, ap, ◌∙◌, true, false, List, [],
  ◌∷◌, ◌++◌, ltb, leb, length, All, Bool-cases, inl, inr, arith, length-append,
}
use gdbm.Dump.{digits_of, decimal}
use gdbm.Dump.Digits.{IsDigit, decimal-IsDigit, length-decimal}
use gdbm.Load.Record.{is_space, skip_space, sign, digits_loop, strtoul}

le→leb : (a b : ℕ) → a ≤ b → leb a b ≡ true
le→leb a b h = ground arith

lt→leb_false : (a b : ℕ) → b < a → leb a b ≡ false
lt→leb_false a b h = ground arith

digits_loop-digit :
    (v d : ℕ) (rest : List ℕ)
    → d < 10
    → digits_loop v ((b'0' + d) ∷ rest) ≡ digits_loop (v * 10 + d) rest
unfolding digits_loop
digits_loop-digit v d rest h =
    rw (le→leb b'0' (b'0' + d) (omega arith), le→leb (b'0' + d) b'9' (omega arith))
      (ap (λ x. digits_loop (v * 10 + x) rest) (omega arith))

digits_loop-digits_of :
    (fuel n : ℕ) (rest : List ℕ)
    → n < fuel
    → digits_loop 0 (digits_of fuel n ++ rest) ≡ digits_loop n rest
unfolding digits_of
digits_loop-digits_of zero n rest h = absurd (omega arith)
digits_loop-digits_of (suc fuel) n rest h = elim (Bool-cases (ltb n 10)) [
  | inl small ↦ rw (small) (digits_loop-digit 0 n rest (ground arith) ∙ rw (zero-add) refl)
  | inr large ↦
      rw (large, append_assoc)
        (digits_loop-digits_of fuel (n / 10) ((b'0' + n % 10) ∷ rest) (ground arith)
          ∙ digits_loop-digit (n / 10) (n % 10) rest (omega arith)
          ∙ ap (λ x. digits_loop x rest) (omega arith))
]

digits_loop-decimal : (n : ℕ) (t : List ℕ) → digits_loop 0 (decimal n ++ 0 ∷ t) ≡ (n, 0 ∷ t)
unfolding decimal
digits_loop-decimal n t =
    digits_loop-digits_of (suc n) n (0 ∷ t) (omega arith) ∙ unfold digits_loop in refl

not_space : (d : ℕ) → IsDigit d → is_space d ≡ false
unfolding is_space
not_space d h = ground arith

-- Neither white space nor a sign stands before digits.
sign-digits :
    (ds t : List ℕ)
    → 0 < length ds
    → All IsDigit ds
    → sign (skip_space (ds ++ t)) ≡ (false, ds ++ t)
unfolding sign skip_space is_space
sign-digits [] t h a = absurd (omega arith)
sign-digits (d ∷ ds) t h (a, rest) =
    rw (not_space d a) (rw (==_ne d b'-' (omega arith), ==_ne d b'+' (omega arith)) refl)

pub strtoul-decimal :
    (n : ℕ) (t : List ℕ) → n < 2 ^ 64 → strtoul (decimal n ++ 0 ∷ t) ≡ (n, 0 ∷ t, true)
unfolding strtoul
strtoul-decimal n t h =
    let (some_digit, few) = length-decimal n h in
    rw (sign-digits (decimal n) (0 ∷ t) some_digit (decimal-IsDigit n), digits_loop-decimal n t)
      (rw
        (
          ==_ne (suc (length t)) (length (decimal n ++ 0 ∷ t))
              (omega (arith, length-append (decimal n) (0 ∷ t))),
          lt→leb_false (2 ^ 64) n h,
        )
        refl)
