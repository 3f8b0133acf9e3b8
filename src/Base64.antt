-- ===== src/Base64.antt =====
-- src/base64.c: the encoder and the decoder of the ASCII dump format.
pub mod Digits
pub mod RoundTrip
pub mod Buffer
use Prim.Native.Nat.{bit_and, bit_or}
use gdbm.Prelude.{
  ℕ, zero, suc, ◌+◌, ◌-◌, ◌*◌, ◌/◌, ◌%◌, ◌^◌, Bool, true, false, not, Option, none, some, List, [],
  ◌∷◌, ◌++◌, ltb, ◌==◌, ◌&&◌, ◌||◌, if◌then◌else◌, length, get_or, replicate,
}

-- The codes first, first + 1, ..., n of them.
unfoldable pub run : ℕ → ℕ → List ℕ
run zero first = []
run (suc n) first = first ∷ run n (first + 1)

unfoldable pub b64tab : List ℕ
unfolding run
b64tab = run 26 b'A' ++ run 26 b'a' ++ run 10 b'0' ++ b'+' ∷ b'/' ∷ []

unfoldable pub digit : ℕ → ℕ
unfolding b64tab
digit i = get_or b64tab i 0

some_run : ℕ → ℕ → List (Option ℕ)
some_run zero first = []
some_run (suc n) first = some first ∷ some_run n (first + 1)

-- `none` is the table's -1.
unfoldable pub b64val : List (Option ℕ)
unfolding some_run
b64val =
    replicate 43 none
    ++ some 62 ∷ replicate 3 none
    ++ some 63 ∷ some_run 10 52
    ++ replicate 7 none
    ++ some_run 26 0
    ++ replicate 6 none
    ++ some_run 26 26
    ++ replicate 5 none

-- The encoder's output loop, and the tail for one or two bytes. Bytes are `unsigned char`.
unfoldable pub encode_bytes : List ℕ → List ℕ
encode_bytes [] = []
encode_bytes (a ∷ []) = digit (a / 4) ∷ digit (bit_and (a * 16) 0x30) ∷ b'=' ∷ b'=' ∷ []
encode_bytes (a ∷ b ∷ []) =
    digit (a / 4)
    ∷ digit (bit_or (bit_and (a * 16) 0x30) (b / 16))
    ∷ digit (bit_and (b * 4) 0x3c)
    ∷ b'='
    ∷ []
encode_bytes (a ∷ b ∷ c ∷ rest) =
    digit (a / 4)
    ∷ digit (bit_or (bit_and (a * 16) 0x30) (b / 16))
    ∷ digit (bit_or (bit_and (b * 4) 0x3c) (c / 64))
    ∷ digit (bit_and c 0x3f)
    ∷ encode_bytes rest

pub data Code : Type 0 where
  no_error malloc_error malformed_data : Code

-- What is left in the caller's variables: the output bytes, the buffer's size, and `*nbytes`.
pub record Encoded : Type 0 where
  pub rc : Code
  pub output : List ℕ
  pub output_size : ℕ
  pub nbytes : ℕ

-- `realloc_ok` is the answer of `realloc`. The output's last byte is the NUL that ends it.
unfoldable pub base64_encode : Bool → List ℕ → ℕ → Encoded
base64_encode realloc_ok input output_size =
    let olen = 4 * (length input + 2) / 3 + 1 in
    let out = encode_bytes input in
    if ltb output_size olen && not realloc_ok
    then record { rc = malloc_error; output = []; output_size = output_size; nbytes = 0 }
    else record {
      rc = no_error;
      output = out ++ 0 ∷ [];
      output_size = if ltb output_size olen then olen else output_size;
      nbytes = length out;
    }

-- b64val[c], for a byte that the bounds test let through.
unfoldable pub value : ℕ → Option ℕ
unfolding b64val
value c = if ltb 127 c then none else get_or b64val c none

pub record Decoded : Type 0 where
  pub rc : Code
  pub output : List ℕ
  pub inbytes : ℕ
  pub outbytes : ℕ

-- One group's tests and output; `none` is GDBM_MALFORMED_DATA.
unfoldable pub decode_group : ℕ → ℕ → ℕ → ℕ → Option (List ℕ)
decode_group a b c d = elim (value a) [
  | none ↦ none
  | some v0 ↦ elim (value b) [
    | none ↦ none
    | some v1 ↦
        let first = bit_or (v0 * 4) (v1 / 16) % 256 in
        if c == b'='
        then elim (value d) [
          | none ↦ if d == b'=' then some (first ∷ []) else none
          | some v3 ↦ some (first ∷ [])
        ]
        else elim (value c) [
          | none ↦ none
          | some v2 ↦
              let second = bit_or (bit_and (v1 * 16) 0xf0) (v2 / 4) % 256 in
              if d == b'=' then some (first ∷ second ∷ []) else elim (value d) [
                | none ↦ none
                | some v3 ↦ some (first ∷ second ∷ bit_or (bit_and (v2 * 64) 0xc0) v3 % 256 ∷ [])
              ]
        ]
  ]
]

-- The `do` loop: it stops at fewer than four bytes and at a malformed group.
unfoldable pub decode_loop : List ℕ → ℕ → List ℕ → Code × ℕ × List ℕ
decode_loop (a ∷ b ∷ c ∷ d ∷ rest) ins out = elim (decode_group a b c d) [
  | none ↦ (malformed_data, ins, out)
  | some bytes ↦ decode_loop rest (ins + 4) (out ++ bytes)
]
decode_loop _ ins out = (no_error, ins, out)

-- The bytes of the input are counted in a size_t; this is what the int `olen` keeps of them, when it
-- is compared as a size_t of 64 bits again.
unfoldable pub int_size : ℕ → ℕ
int_size n = let low = n % 2 ^ 32 in if ltb low (2 ^ 31) then low else low + (2 ^ 64 - 2 ^ 32)

unfoldable pub base64_decode : Bool → List ℕ → ℕ → Decoded × ℕ
base64_decode realloc_ok input output_size =
    let olen = int_size (length input) in
    let (rc, ins, out) = decode_loop input 0 [] in
    if ltb output_size olen && not realloc_ok
    then (record { rc = malloc_error; output = []; inbytes = 0; outbytes = 0 }, output_size)
    else (
      record { rc = rc; output = out; inbytes = ins; outbytes = length out },
      if ltb output_size olen then olen else output_size,
    )
