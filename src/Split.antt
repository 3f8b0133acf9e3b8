-- ===== src/Split.antt =====
-- src/bucket.c: how `_gdbm_split_bucket` deals the elements of a full bucket out to two new ones.
pub mod Copy
pub mod Space
use gdbm.Prelude.{
  ℕ, zero, suc, ◌+◌, ◌-◌, ◌/◌, ◌%◌, ◌^◌, Bool, true, false, Option, none, some, List, [], ◌∷◌, ◌==◌,
  if◌then◌else◌, length, set, get_or, drop,
}
use gdbm.Hash.{hash_bits}
use gdbm.Avail.{AvailElem, bucket_avail, no_elem, put_av_elem}
use gdbm.Bucket.{BucketElement, HashBucket, new_bucket, at, is_used}

-- How the copying ends: with an unused element in the old bucket (GDBM_BAD_BUCKET), never, or with
-- the two buckets.
pub data Copied : Type 0 where
  bad_bucket : Copied
  endless : Copied
  copied : HashBucket → HashBucket → Copied

-- `while (hash_value != -1) elem_loc = (elem_loc + 1) % bucket_elems`, which has no other end.
unfoldable pub place_loop : ℕ → List BucketElement → ℕ → Option ℕ
place_loop zero table elem_loc = none
place_loop (suc fuel) table elem_loc = elim (is_used (at table elem_loc)) [
  | false ↦ some elem_loc
  | true ↦ place_loop fuel table ((elem_loc + 1) % length table)
]

-- The element goes to the first unused position from its home, and is counted.
unfoldable pub place : HashBucket → ℕ → BucketElement → Option HashBucket
place bucket hash e =
    elim (place_loop (length bucket.h_table) bucket.h_table (hash % length bucket.h_table)) [
      | none ↦ none
      | some loc ↦
          some (record bucket { h_table = set bucket.h_table loc e; count = bucket.count + 1 })
    ]

-- Which of the new buckets a hash value belongs to.
unfoldable pub new_side : ℕ → ℕ → ℕ
new_side new_bits hash = hash / 2 ^ (hash_bits - new_bits) % 2

unfoldable pub copy_loop : ℕ → List BucketElement → HashBucket → HashBucket → Copied
copy_loop new_bits [] bucket_0 bucket_1 = copied bucket_0 bucket_1
copy_loop new_bits (e ∷ rest) bucket_0 bucket_1 = elim e.hash_value [
  | none ↦ bad_bucket
  | some hash ↦ elim (new_side new_bits hash == 0) [
    | true ↦ elim (place bucket_0 hash e) [
      | none ↦ endless
      | some bucket ↦ copy_loop new_bits rest bucket bucket_1
    ]
    | false ↦ elim (place bucket_1 hash e) [
      | none ↦ endless
      | some bucket ↦ copy_loop new_bits rest bucket_0 bucket
    ]
  ]
]

-- The new buckets have as many positions as the old one, and one bit more.
unfoldable pub split_elements : HashBucket → Copied
split_elements bucket =
    let new_bits = bucket.bucket_bits + 1 in
    let bucket_elems = length bucket.h_table in
    copy_loop new_bits bucket.h_table (new_bucket bucket_elems new_bits)
      (new_bucket bucket_elems new_bits)

-- The avail tables of the two new buckets, where a block of `block_size` bytes has been allocated
-- at `av_adr` for the second one.
unfoldable pub split_avail : List AvailElem → ℕ → ℕ → Bool → List AvailElem × List AvailElem
split_avail table av_adr block_size coalesce_blocks =
    let allocated = record { av_size = block_size; av_adr = av_adr } ∷ [] in
    if length table == bucket_avail
    then (drop 1 table, put_av_elem (get_or table 0 no_elem) allocated coalesce_blocks)
    else (table, allocated)
