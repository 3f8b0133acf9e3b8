-- ===== src/Base64/RoundTrip.antt =====
-- src/base64.c: decoding what was encoded gives the input back.
use Prim.Native.Nat.{bit_and, bit_or}
use mathlib.Core.Path.{ap₂}
use native.Mathlib.Nat.{add-zero}
use mathlib.Core.List.{append_assoc, append-nil}
use gdbm.Prelude.{
  ℕ, suc, ◌+◌, ◌*◌, ◌/◌, ◌%◌, ◌<◌, ◌≡◌, refl, List, [], ◌∷◌, ◌++◌, length, arith, ap, ◌∙◌, some,
  ltb, true, false, ◌&&◌, Bool,
}
use gdbm.Prelude.Bytes.{or_shift4, or_shift2, masks}
use gdbm.Base64.{
  no_error, digit, decode_group, encode_bytes, decode_loop, base64_encode, base64_decode, int_size,
}
use gdbm.Base64.Digits.{decode_group_one, decode_group_two, decode_group_three}

-- Every element is a byte.
abbrev pub AreBytes : List ℕ → Type 0
AreBytes [] = Unit
AreBytes (b ∷ bs) = (b < 256) × AreBytes bs

-- The third six-bit value of a group: four bits of one byte and two of the next.
or_shift_mid : (b c : ℕ) → b < 256 → c < 256 → bit_or (b % 16 * 4) (c / 64) ≡ b % 16 * 4 + c / 64
or_shift_mid b c hb hc = or_shift2 (b % 16) (c / 64) (omega arith) (omega arith)

decode_loop_step :
    (a b c d : ℕ) (rest : List ℕ) (ins : ℕ) (out bytes : List ℕ)
    → decode_group a b c d ≡ some bytes
    → decode_loop (a ∷ b ∷ c ∷ d ∷ rest) ins out ≡ decode_loop rest (ins + 4) (out ++ bytes)
unfolding decode_loop
decode_loop_step a b c d rest ins out bytes e = rw (e, decode_loop)

module _ (a b c : ℕ) (ha : a < 256) (hb : b < 256) (hc : c < 256) where
  group_one : decode_group (digit (a / 4)) (digit (bit_and (a * 16) 0x30)) b'=' b'=' ≡ some (a ∷ [])
  group_one = rw (masks a ha).0 (
      decode_group_one (a / 4) (a % 4 * 16) (omega arith) (omega arith)
      ∙ ap (λ x. some (x ∷ [])) (omega arith))

  second_value : bit_or (bit_and (a * 16) 0x30) (b / 16) ≡ a % 4 * 16 + b / 16
  second_value = rw (masks a ha).0 (or_shift4 (a % 4) (b / 16) (omega arith) (omega arith))

  third_value : bit_or (bit_and (b * 4) 0x3c) (c / 64) ≡ b % 16 * 4 + c / 64
  third_value = rw (masks b hb).1 (or_shift_mid b c hb hc)

  group_two :
      decode_group
        (digit (a / 4))
        (digit (bit_or (bit_and (a * 16) 0x30) (b / 16)))
        (digit (bit_and (b * 4) 0x3c))
        b'='
      ≡ some (a ∷ b ∷ [])
  group_two =
      rw (second_value, (masks b hb).1)
        (decode_group_two (a / 4) (a % 4 * 16 + b / 16) (omega arith) (omega arith) (b % 16 * 4)
            (omega arith)
          ∙ ap₂ (λ x y. some (x ∷ y ∷ [])) (omega arith) (omega arith))

  group_three :
      decode_group
        (digit (a / 4))
        (digit (bit_or (bit_and (a * 16) 0x30) (b / 16)))
        (digit (bit_or (bit_and (b * 4) 0x3c) (c / 64)))
        (digit (bit_and c 0x3f))
      ≡ some (a ∷ b ∷ c ∷ [])
  group_three =
      rw (second_value, third_value, (masks c hc).2)
        (decode_group_three (a / 4) (a % 4 * 16 + b / 16) (omega arith) (omega arith)
            (b % 16 * 4 + c / 64) (c % 64) (omega arith) (omega arith)
          ∙ ground arith)

pub decode_loop-encode_bytes :
    (xs : List ℕ) (ins : ℕ) (out : List ℕ)
    → AreBytes xs
    → decode_loop (encode_bytes xs) ins out ≡ (no_error, ins + length (encode_bytes xs), out ++ xs)
unfolding encode_bytes
decode_loop-encode_bytes [] ins out h = unfold decode_loop in rw (append-nil, add-zero)
decode_loop-encode_bytes (a ∷ []) ins out h =
    decode_loop_step _ _ _ _ [] ins out (a ∷ []) (group_one a 0 0 h.0 (omega arith) (omega arith))
    ∙ unfold decode_loop in refl
decode_loop-encode_bytes (a ∷ b ∷ []) ins out h =
    decode_loop_step _ _ _ _ [] ins out (a ∷ b ∷ []) (group_two a b 0 h.0 h.1.0 (omega arith))
    ∙ unfold decode_loop in refl
decode_loop-encode_bytes (a ∷ b ∷ c ∷ rest) ins out h =
    decode_loop_step _ _ _ _ (encode_bytes rest) ins out (a ∷ b ∷ c ∷ [])
      (group_three a b c h.0 h.1.0 h.1.1.0)
    ∙ decode_loop-encode_bytes rest (ins + 4) (out ++ a ∷ b ∷ c ∷ []) h.1.1.1
    ∙ rw append_assoc (
        let e : ins + 4 + length (encode_bytes rest)
            ≡ ins + suc (suc (suc (suc (length (encode_bytes rest))))) =
          omega arith in
        rw e)

and-false : (b : Bool) → (b && false) ≡ false
and-false true = refl
and-false false = refl

-- With `realloc` succeeding.
pub base64_encode_writes :
    (xs : List ℕ) (size : ℕ)
    → let e = base64_encode true xs size in
      (e.rc ≡ no_error)
      × (e.output ≡ encode_bytes xs ++ 0 ∷ [])
      × (e.nbytes ≡ length (encode_bytes xs))
unfolding base64_encode
base64_encode_writes xs size =
    let e = and-false (ltb size (4 * (length xs + 2) / 3 + 1)) in rw e (refl, refl, refl)

base64_decode_reads :
    (xs : List ℕ) (size : ℕ)
    → (base64_decode true xs size).0 ≡ (
        let (rc, ins, out) = decode_loop xs 0 [] in
        record { rc = rc; output = out; inbytes = ins; outbytes = length out })
unfolding base64_decode
base64_decode_reads xs size = rw (and-false (ltb size (int_size (length xs))))

pub base64_decode-encode_bytes :
    (xs : List ℕ) (size : ℕ)
    → AreBytes xs
    → (base64_decode true (encode_bytes xs) size).0 ≡ record {
      rc = no_error;
      output = xs;
      inbytes = length (encode_bytes xs);
      outbytes = length xs;
    }
base64_decode-encode_bytes xs size h =
    rw (base64_decode_reads) (rw (decode_loop-encode_bytes xs 0 [] h) (ground arith))
