-- ===== src/Base64/Digits.antt =====
-- src/base64.c: the two tables are inverse, and what one group decodes to.
use gdbm.Prelude.{
  ℕ, ◌+◌, ◌*◌, ◌/◌, ◌%◌, ◌<◌, ◌≡◌, refl, Bool, true, false, not, Option, none, some, [], ◌∷◌, ◌&&◌,
  ◌==◌, arith,
}
use gdbm.Prelude.Bytes.{each_below, each_below_lem, or_shift2, or_shift4, or_shift6, masks}
use gdbm.Base64.{digit, value, decode_group}

-- Whether the value of digit i is i.
has_value : ℕ → Bool
has_value i = elim (value (digit i)) [ none ↦ false | some v ↦ v == i ]

digit_table : each_below 64 (λ i. has_value i && not (digit i == b'=')) ≡ true
unfolding each_below has_value value digit
digit_table = refl

value_of : (o : Option ℕ) (i : ℕ) → elim o [ none ↦ false | some v ↦ v == i ] ≡ true → o ≡ some i
value_of none i h = cc
value_of (some v) i h = ground arith

pub value-digit : (i : ℕ) → i < 64 → value (digit i) ≡ some i
unfolding has_value
value-digit i h = value_of (value (digit i)) i (ground (arith, each_below_lem 64 _ i digit_table h))

pub digit-ne-pad : (i : ℕ) → i < 64 → (digit i == b'=') ≡ false
digit-ne-pad i h = ground (arith, each_below_lem 64 _ i digit_table h)

pub value_pad : value b'=' ≡ none
unfolding value
value_pad = refl

module _ (v0 v1 : ℕ) (h0 : v0 < 64) (h1 : v1 < 64) where
  pub decode_group_one :
      decode_group (digit v0) (digit v1) b'=' b'=' ≡ some ((v0 * 4 + v1 / 16) ∷ [])
  unfolding decode_group
  decode_group_one = ground (
    arith,
    value-digit v0 h0,
    value-digit v1 h1,
    value_pad,
    or_shift2 v0 (v1 / 16) h0 (omega arith),
  )

  pub decode_group_two :
      (v2 : ℕ)
      → v2 < 64
      → decode_group (digit v0) (digit v1) (digit v2) b'='
        ≡ some ((v0 * 4 + v1 / 16) ∷ (v1 % 16 * 16 + v2 / 4) ∷ [])
  unfolding decode_group
  decode_group_two v2 h2 = ground (
    arith,
    value-digit v0 h0,
    value-digit v1 h1,
    digit-ne-pad v2 h2,
    value-digit v2 h2,
    or_shift2 v0 (v1 / 16) h0 (omega arith),
    (masks v1 (omega arith)).3,
    or_shift4 (v1 % 16) (v2 / 4) (omega arith) (omega arith),
  )

  pub decode_group_three :
      (v2 v3 : ℕ)
      → v2 < 64
      → v3 < 64
      → decode_group (digit v0) (digit v1) (digit v2) (digit v3)
        ≡ some ((v0 * 4 + v1 / 16) ∷ (v1 % 16 * 16 + v2 / 4) ∷ (v2 % 4 * 64 + v3) ∷ [])
  unfolding decode_group
  decode_group_three v2 v3 h2 h3 = ground (
    arith,
    value-digit v0 h0,
    value-digit v1 h1,
    digit-ne-pad v2 h2,
    value-digit v2 h2,
    digit-ne-pad v3 h3,
    value-digit v3 h3,
    or_shift2 v0 (v1 / 16) h0 (omega arith),
    (masks v1 (omega arith)).3,
    or_shift4 (v1 % 16) (v2 / 4) (omega arith) (omega arith),
    (masks v2 (omega arith)).4,
    or_shift6 (v2 % 4) v3 (omega arith) h3,
  )
