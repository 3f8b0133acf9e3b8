-- ===== src/Hash/Bounds.antt =====
-- src/hash.c: the hash and the indices taken from it stay in range.
use gdbm.Prelude.{ℕ, suc, ◌^◌, ◌/◌, ◌≤◌, ◌<◌, ◌≡◌, Bool, List, arith}
use gdbm.Prelude.Powers.{div-pow-lt, div-pow-half}
use gdbm.Hash.{hash_key, gdbm_hash, bucket_dir, hash_bits}

pub gdbm_hash-lt : (char_signed : Bool) (key : List ℕ) → gdbm_hash char_signed key < 2 ^ 31
unfolding gdbm_hash
gdbm_hash-lt char_signed key = omega arith

-- A shift by 31 - b leaves a number of b bits.
pub bucket_dir-lt :
    (dir_bits hash : ℕ)
    → dir_bits ≤ hash_bits
    → hash < 2 ^ 31
    → bucket_dir dir_bits hash < 2 ^ dir_bits
unfolding bucket_dir
bucket_dir-lt dir_bits hash h lt = div-pow-lt 31 dir_bits hash h lt

-- One more directory bit refines the index: its leading bits are the old index.
pub bucket_dir-half :
    (dir_bits hash : ℕ)
    → dir_bits < hash_bits
    → bucket_dir (suc dir_bits) hash / 2 ≡ bucket_dir dir_bits hash
unfolding bucket_dir
bucket_dir-half dir_bits hash h = div-pow-half 31 dir_bits hash h

-- For every key, a directory of at most 31 bits and a bucket with at least one element: the hash
-- has 31 bits, the directory index is below the directory's 2 ^ dir_bits entries, and the home
-- position is below the bucket's element count.
pub hash_key_bounds :
    (char_signed : Bool) (dir_bits bucket_elems : ℕ) (key : List ℕ)
    → dir_bits ≤ hash_bits
    → 0 < bucket_elems
    → let l = hash_key char_signed dir_bits bucket_elems key in
      (l.hash < 2 ^ 31) × (l.bucket < 2 ^ dir_bits) × (l.offset < bucket_elems)
unfolding hash_key
hash_key_bounds char_signed dir_bits bucket_elems key h pos =
    let lt = gdbm_hash-lt char_signed key in (lt, bucket_dir-lt dir_bits _ h lt, omega arith)
