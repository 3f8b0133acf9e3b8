-- ===== src/Bucket.antt =====
-- The hash table of a bucket: src/bucket.c (`_gdbm_new_bucket`), the search of src/findkey.c, the
-- insertion of src/gdbmstore.c and the removal of src/gdbmdelete.c. Positions are probed from an
-- element's home on, round the table.
pub mod Cyclic
pub mod Probe
pub mod Search
pub mod Weights
pub mod Gap
pub mod Delete
pub mod Contents
use gdbm.Prelude.{
  bytes_eq, ℕ, zero, suc, ◌+◌, ◌*◌, ◌%◌, Bool, true, false, not, Option, none, some, List, [], ◌∷◌,
  ltb, leb, ◌==◌, ◌&&◌, ◌||◌, if◌then◌else◌, length, get_or, set, take, replicate,
}

-- `bucket_element`; `none` is the hash value -1 of an unused element.
pub record BucketElement : Type 0 where
  pub hash_value : Option ℕ
  pub key_start : List ℕ
  pub data_pointer : ℕ
  pub key_size : ℕ
  pub data_size : ℕ

-- An element of a new bucket; only its hash value is set.
abbrev pub new_element : BucketElement
new_element = record {
  hash_value = none;
  key_start = [];
  data_pointer = 0;
  key_size = 0;
  data_size = 0;
}

-- `hash_bucket`, without its avail table.
pub record HashBucket : Type 0 where
  pub bucket_bits : ℕ
  pub count : ℕ
  pub h_table : List BucketElement

unfoldable pub new_bucket : ℕ → ℕ → HashBucket
new_bucket bucket_elems bits = record {
  bucket_bits = bits;
  count = 0;
  h_table = replicate bucket_elems new_element;
}

abbrev pub at : List BucketElement → ℕ → BucketElement
at table i = get_or table i new_element

unfoldable pub is_used : BucketElement → Bool
is_used e = elim e.hash_value [ none ↦ false | some h ↦ true ]

-- The home position of a used element.
abbrev pub home_of : ℕ → BucketElement → ℕ
home_of n e = elim e.hash_value [ none ↦ 0 | some h ↦ h % n ]

-- SMALL
abbrev pub small : ℕ
small = 4

-- The tests of the search: the hash value, the size, the first bytes of the key, and then the key
-- in the file, which `read_entry` gives.
unfoldable pub key_matches : (BucketElement → List ℕ) → ℕ → List ℕ → BucketElement → Bool
unfolding bytes_eq
key_matches read_entry hash key e = elim e.hash_value [
  | none ↦ false
  | some h ↦
      h == hash
      && e.key_size == length key
      && bytes_eq (take (if ltb small e.key_size then small else e.key_size) e.key_start)
          (take (if ltb small e.key_size then small else e.key_size) key)
      && bytes_eq (read_entry e) key
]

-- The search from `home_loc`: `some` is the position that was found. It ends at an unused element
-- or back at home, so that n rounds are enough.
unfoldable pub find_loop : ℕ → List BucketElement → (BucketElement → Bool) → ℕ → ℕ → Option ℕ
find_loop zero table matches home_loc elem_loc = none
find_loop (suc fuel) table matches home_loc elem_loc =
    let next = (elem_loc + 1) % length table in
    elim (is_used (at table elem_loc)) [
      | false ↦ none
      | true ↦ elim (matches (at table elem_loc)) [
        | true ↦ some elem_loc
        | false ↦ elim (next == home_loc) [
          | true ↦ none
          | false ↦ find_loop fuel table matches home_loc next
        ]
      ]
    ]

unfoldable pub find_slot : List BucketElement → (BucketElement → Bool) → ℕ → Option ℕ
find_slot table matches hash =
    find_loop (length table) table matches (hash % length table) (hash % length table)

-- The search for an unused element; `none` is GDBM_BAD_HASH_TABLE.
unfoldable pub free_loop : ℕ → List BucketElement → ℕ → ℕ → Option ℕ
free_loop zero table start_loc elem_loc = none
free_loop (suc fuel) table start_loc elem_loc =
    let next = (elem_loc + 1) % length table in
    elim (is_used (at table elem_loc)) [
      | false ↦ some elem_loc
      | true ↦ elim (next == start_loc) [
        | true ↦ none
        | false ↦ free_loop fuel table start_loc next
      ]
    ]

-- A new element with its hash value goes to the first unused position from its home.
unfoldable pub insert_element : List BucketElement → ℕ → BucketElement → Option (List BucketElement)
insert_element table hash e =
    elim (free_loop (length table) table (hash % length table) (hash % length table)) [
      | none ↦ none
      | some loc ↦ some (set table loc (record e { hash_value = some hash }))
    ]

abbrev pub cleared : BucketElement → BucketElement
cleared e = record e { hash_value = none }

-- Whether an element at `elem_loc` with this home is moved to the gap at `last_loc`.
unfoldable pub moves : ℕ → ℕ → ℕ → Bool
moves last_loc elem_loc home =
    (ltb last_loc elem_loc && (leb home last_loc || ltb elem_loc home))
    || (ltb elem_loc last_loc && leb home last_loc && ltb elem_loc home)

-- The loop of `gdbm_delete` that closes the gap; `none` is a loop that has not ended.
unfoldable pub close_gap : ℕ → List BucketElement → ℕ → ℕ → Option (List BucketElement)
close_gap zero table last_loc elem_loc = none
close_gap (suc fuel) table last_loc elem_loc =
    let e = at table elem_loc in
    let next = (elem_loc + 1) % length table in
    elim (not (elem_loc == last_loc) && is_used e) [
      | false ↦ some table
      | true ↦ elim (moves last_loc elem_loc (home_of (length table) e)) [
        | true ↦ close_gap fuel (set (set table last_loc e) elem_loc (cleared e)) elem_loc next
        | false ↦ close_gap fuel table last_loc next
      ]
    ]

-- More rounds than the loop can make: each move brings an element nearer to its home, and there
-- are less than n rounds between two moves.
abbrev pub close_fuel : ℕ → ℕ
close_fuel n = n * (n * n) + n

unfoldable pub delete_element : List BucketElement → ℕ → Option (List BucketElement)
delete_element table elem_loc =
    let n = length table in
    close_gap (close_fuel n) (set table elem_loc (cleared (at table elem_loc))) elem_loc
      ((elem_loc + 1) % n)
