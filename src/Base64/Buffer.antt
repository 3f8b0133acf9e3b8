-- ===== src/Base64/Buffer.antt =====
-- src/base64.c: the sizes of what is written against the sizes of the buffers.
use gdbm.Prelude.{
  ℕ, ◌+◌, ◌*◌, ◌/◌, ◌%◌, ◌^◌, ◌≤◌, ◌<◌, ◌≡◌, ◌⊎◌, inl, inr, Option-cases, List, [], ◌∷◌, ◌++◌, Bool,
  some, length, length-append, arith,
}
use gdbm.Base64.{
  Code, no_error, malloc_error, malformed_data, decode_group, encode_bytes, decode_loop,
  base64_encode, base64_decode, int_size,
}

pub length-encode_bytes : (xs : List ℕ) → length (encode_bytes xs) ≡ (length xs + 2) / 3 * 4
unfolding encode_bytes
length-encode_bytes [] = omega arith
length-encode_bytes (a ∷ []) = omega arith
length-encode_bytes (a ∷ b ∷ []) = omega arith
length-encode_bytes (a ∷ b ∷ c ∷ rest) = omega (arith, length-encode_bytes rest)

-- For every input, buffer size and answer of `realloc`: on success `nbytes` is four bytes for each
-- three begun, and the output with its closing NUL is `nbytes + 1` bytes long and fits the buffer;
-- otherwise the code is GDBM_MALLOC_ERROR, the buffer was too small, and its size is unchanged.
pub base64_encode_fits :
    (realloc_ok : Bool) (input : List ℕ) (size : ℕ)
    → let e = base64_encode realloc_ok input size in
      ((e.rc ≡ no_error)
        × (e.nbytes ≡ (length input + 2) / 3 * 4)
        × (length e.output ≡ e.nbytes + 1)
        × (e.nbytes + 1 ≤ e.output_size))
      ⊎ ((e.rc ≡ malloc_error) × (e.output_size ≡ size) × (size < 4 * (length input + 2) / 3 + 1))
unfolding base64_encode
base64_encode_fits realloc_ok input size =
    ground (arith, length-encode_bytes input, length-append (encode_bytes input) (0 ∷ []))

length-decode_group :
    (a b c d : ℕ) (bytes : List ℕ) → decode_group a b c d ≡ some bytes → length bytes ≤ 3
unfolding decode_group
length-decode_group a b c d bytes h = ground arith

-- What the loop consumes are whole groups of the input, each yields three bytes at most, and
-- it stops without an error only where no whole group is left.
abbrev Consumes : ℕ → ℕ → ℕ → Code × ℕ × List ℕ → Type 0
Consumes len ins out (rc, ins', out') =
    (ins' ≤ ins + len)
    × (ins' % 4 ≡ ins % 4)
    × (4 * length out' + 3 * ins ≤ 4 * out + 3 * ins')
    × ((rc ≡ malformed_data) ⊎ ((rc ≡ no_error) × (ins + len < ins' + 4)))

decode_loop-Consumes :
    (input : List ℕ) (ins : ℕ) (out : List ℕ)
    → Consumes (length input) ins (length out) (decode_loop input ins out)
unfolding decode_loop
decode_loop-Consumes [] ins out = ground arith
decode_loop-Consumes (a ∷ []) ins out = ground arith
decode_loop-Consumes (a ∷ b ∷ []) ins out = ground arith
decode_loop-Consumes (a ∷ b ∷ c ∷ []) ins out = ground arith
decode_loop-Consumes (a ∷ b ∷ c ∷ d ∷ rest) ins out = elim (Option-cases (decode_group a b c d)) [
  | inl e ↦ rw (e, decode_loop) (ground arith)
  | inr (bytes, e) ↦
      rw (e, decode_loop)
        (ground (
          arith,
          decode_loop-Consumes rest (ins + 4) (out ++ bytes),
          length-append out bytes,
          length-decode_group a b c d bytes e,
        ))
]

int_size_small : (n : ℕ) → n < 2 ^ 31 → int_size n ≡ n
unfolding int_size
int_size_small n h = ground arith

-- For every input of fewer than 2^31 bytes, whose number fits the decoder's int, and every buffer
-- size and answer of `realloc`: either the code is GDBM_MALLOC_ERROR, the
-- buffer was too small and its size is unchanged; or the decoder consumed whole groups of four
-- bytes of the input, wrote `outbytes` bytes, at most three for each group, which fit the buffer,
-- and the code is GDBM_MALFORMED_DATA, or GDBM_NO_ERROR with fewer than four input bytes left.
pub base64_decode_bounds :
    (realloc_ok : Bool) (input : List ℕ) (size : ℕ)
    → length input < 2 ^ 31
    → let (d, size') = base64_decode realloc_ok input size in
      ((d.rc ≡ malloc_error) × (size < length input) × (size' ≡ size))
      ⊎ ((d.inbytes ≤ length input)
          × (d.inbytes % 4 ≡ 0)
          × (d.outbytes ≡ length d.output)
          × (4 * d.outbytes ≤ 3 * d.inbytes)
          × (d.outbytes ≤ size')
          × ((d.rc ≡ malformed_data) ⊎ ((d.rc ≡ no_error) × (length input < d.inbytes + 4))))
unfolding base64_decode
base64_decode_bounds realloc_ok input size h =
    ground (arith, decode_loop-Consumes input 0 [], int_size_small (length input) h)
