-- ===== src/Tests/Table.antt =====
-- A bucket's table with three positions.
use gdbm.Prelude.{
  bytes_eq, ℕ, ◌≡◌, ◌⊎◌, refl, true, false, none, some, List, [], ◌∷◌, ◌<◌, length, arith,
}
use gdbm.Bucket.{
  BucketElement, new_element, new_bucket, at, is_used, key_matches, find_loop, find_slot, free_loop,
  insert_element, moves, close_gap, delete_element,
}
use gdbm.Bucket.Cyclic.{dist}
use gdbm.Bucket.Probe.{IsProbed}
use gdbm.Bucket.Search.{
  find_slot_finds, find_slot-insert_element, new_bucket-IsProbed, set-IsProbed,
}

abbrev element : ℕ → BucketElement
element hash = record {
  hash_value = some hash;
  key_start = 7 ∷ 8 ∷ [];
  data_pointer = 512;
  key_size = 2;
  data_size = 1;
}

abbrev read_entry : BucketElement → List ℕ
read_entry e = 7 ∷ 8 ∷ []

abbrev empty : List BucketElement
empty = new_element ∷ new_element ∷ new_element ∷ []

empty-IsProbed : IsProbed empty
unfolding new_bucket
empty-IsProbed = new_bucket-IsProbed 3 0

-- The element with hash value 4 is at home.
abbrev one : List BucketElement
one = new_element ∷ element 4 ∷ new_element ∷ []

one-IsProbed : IsProbed one
unfolding dist
one-IsProbed =
    set-IsProbed empty 1 4 (element 4) (omega arith) empty-IsProbed refl
      (λ k lk d. absurd (ground arith))

abbrev key : List ℕ
key = 7 ∷ 8 ∷ []

find_slot_finds_example :
    ((find_slot one (key_matches read_entry 4 key) 4 ≡ none)
      × ((k : ℕ) → k < length one → key_matches read_entry 4 key (at one k) ≡ false))
    ⊎ ((r : ℕ) × (find_slot one (key_matches read_entry 4 key) 4 ≡ some r)
        × (r < length one)
        × (key_matches read_entry 4 key (at one r) ≡ true))
find_slot_finds_example = find_slot_finds read_entry key 4 one (omega arith) one-IsProbed

inserted : insert_element one 7 (element 7) ≡ some (new_element ∷ element 4 ∷ element 7 ∷ [])
unfolding insert_element free_loop is_used
inserted = refl

absent : find_slot one (key_matches read_entry 7 key) 7 ≡ none
unfolding find_slot find_loop is_used key_matches bytes_eq
absent = refl

matches : key_matches read_entry 7 key (element 7) ≡ true
unfolding key_matches bytes_eq
matches = refl

find_slot-insert_element_example :
    (r : ℕ) × (find_slot (new_element ∷ element 4 ∷ element 7 ∷ []) (key_matches read_entry 7 key) 7
      ≡ some r)
    × (at (new_element ∷ element 4 ∷ element 7 ∷ []) r ≡ element 7)
find_slot-insert_element_example =
    find_slot-insert_element read_entry key 7 one (new_element ∷ element 4 ∷ element 7 ∷ [])
      (element 7) (omega arith) one-IsProbed matches absent inserted

-- Once the first of the two is deleted, the second one takes its place.
deleted :
    delete_element (new_element ∷ element 4 ∷ element 7 ∷ []) 1
    ≡ some (new_element ∷ element 7 ∷ record (element 7) { hash_value = none } ∷ [])
unfolding delete_element close_gap moves is_used
deleted = refl
