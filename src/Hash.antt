-- ===== src/Hash.antt =====
-- src/hash.c: the hash of a key, and where the hash puts it.
pub mod Bounds
use gdbm.Prelude.{
  ℕ, ◌+◌, ◌-◌, ◌*◌, ◌/◌, ◌%◌, ◌^◌, Bool, true, List, [], ◌∷◌, ltb, ◌&&◌, if◌then◌else◌, length,
}

-- GDBM_HASH_BITS
abbrev pub hash_bits : ℕ
hash_bits = 31

-- `(unsigned) key.dptr[index]`: a byte from 128 on is sign-extended where `char` is signed.
unfoldable pub widen : Bool → ℕ → ℕ
widen char_signed b = if char_signed && ltb 127 b then 2 ^ 32 - 256 + b else b

-- The loop's body: a shift, a sum, and the mask 0x7FFFFFFF, all on 32-bit unsigned values.
unfoldable pub mix : Bool → ℕ → ℕ → ℕ → ℕ
unfolding widen
mix char_signed index value b =
    (value + widen char_signed b * 2 ^ (index * 5 % 24) % 2 ^ 32) % 2 ^ 32 % 2 ^ 31

unfoldable pub hash_loop : Bool → ℕ → ℕ → List ℕ → ℕ
unfolding mix
hash_loop char_signed index value [] = value
hash_loop char_signed index value (b ∷ bs) =
    hash_loop char_signed (index + 1) (mix char_signed index value b) bs

unfoldable pub gdbm_hash : Bool → List ℕ → ℕ
unfolding hash_loop
gdbm_hash char_signed key =
    let value = hash_loop char_signed 0 (0x238F13AF * length key % 2 ^ 32) key in
    (1103515243 * value % 2 ^ 32 + 12345) % 2 ^ 32 % 2 ^ 31

unfoldable pub bucket_dir : ℕ → ℕ → ℕ
bucket_dir dir_bits hash = hash / 2 ^ (hash_bits - dir_bits)

pub record Location : Type 0 where
  pub hash : ℕ
  pub bucket : ℕ
  pub offset : ℕ

unfoldable pub hash_key : Bool → ℕ → ℕ → List ℕ → Location
unfolding gdbm_hash bucket_dir
hash_key char_signed dir_bits bucket_elems key =
    let hashval = gdbm_hash char_signed key in
    record { hash = hashval; bucket = bucket_dir dir_bits hashval; offset = hashval % bucket_elems }
