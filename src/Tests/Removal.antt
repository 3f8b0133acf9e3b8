-- ===== src/Tests/Removal.antt =====
-- The removal from a bucket and its split, on buckets of three and two positions.
use gdbm.Prelude.{
  bytes_eq, All, ◌≤◌, zero, suc, ℕ, ◌+◌, ◌≡◌, ◌⊎◌, refl, true, false, none, some, List, [], ◌∷◌,
  ◌<◌, arith,
}
use gdbm.Bucket.{
  BucketElement, HashBucket, new_element, new_bucket, at, is_used, key_matches, find_loop,
  find_slot, delete_element,
}
use gdbm.Bucket.Cyclic.{dist}
use gdbm.Bucket.Probe.{IsProbed}
use gdbm.Bucket.Search.{new_bucket-IsProbed, set-IsProbed}
use gdbm.Bucket.Weights.{weight}
use gdbm.Bucket.Contents.{CanSearch, occurrences, find_slot_occurs, find_slot-delete_element}
use gdbm.Split.{split_avail, copied, split_elements, copy_loop, place, place_loop, new_side}
use gdbm.Avail.{AvailElem}
use gdbm.Split.Space.{Dealt, split_avail-Dealt}
use gdbm.Split.Copy.{IsBucket, share, split_elements-Shares}

abbrev element : ℕ → BucketElement
element hash = record {
  hash_value = some hash;
  key_start = 7 ∷ 8 ∷ [];
  data_pointer = 512;
  key_size = 2;
  data_size = 1;
}

abbrev read_entry : BucketElement → List ℕ
read_entry e = 7 ∷ 8 ∷ []

abbrev key : List ℕ
key = 7 ∷ 8 ∷ []

abbrev one : List BucketElement
one = new_element ∷ element 4 ∷ new_element ∷ []

-- The second element, with hash value 7, has gone one position past its home.
abbrev two : List BucketElement
two = new_element ∷ element 4 ∷ element 7 ∷ []

one-IsProbed : IsProbed one
unfolding dist new_bucket
one-IsProbed =
    set-IsProbed (new_element ∷ new_element ∷ new_element ∷ []) 1 4 (element 4) (omega arith)
      (new_bucket-IsProbed 3 0) refl (λ k lk d. absurd (ground arith))

between : (k : ℕ) → k < 3 → dist 3 1 k < 1 → is_used (at one k) ≡ true
unfolding dist is_used
between zero lt d = absurd (ground arith)
between (suc zero) lt d = refl
between (suc (suc k)) lt d = absurd (ground arith)

two-IsProbed : IsProbed two
unfolding dist
two-IsProbed = set-IsProbed one 2 7 (element 7) (omega arith) one-IsProbed refl between

first_used : is_used (at two 1) ≡ true
unfolding is_used
first_used = refl

find_slot_occurs_example :
    ((find_slot two (key_matches read_entry 7 key) 7 ≡ none)
      × (occurrences read_entry 7 key two ≡ 0))
    ⊎ ((r : ℕ) × (find_slot two (key_matches read_entry 7 key) 7 ≡ some r)
        × (r < 3)
        × (key_matches read_entry 7 key (at two r) ≡ true)
        × (1 ≤ occurrences read_entry 7 key two))
find_slot_occurs_example = find_slot_occurs read_entry 7 key two (omega arith) two-IsProbed

found : find_slot two (key_matches read_entry 4 key) 4 ≡ some 1
unfolding find_slot find_loop is_used key_matches bytes_eq
found = refl

find_slot-delete_element_example :
    (table' : List BucketElement) × (delete_element two 1 ≡ some table')
    × CanSearch table'
    × (occurrences read_entry 4 key table' + 1 ≡ occurrences read_entry 4 key two)
    × (occurrences read_entry 4 key two ≡ 1
        → find_slot table' (key_matches read_entry 4 key) 4 ≡ none)
    × ((hash' : ℕ) (key' : List ℕ)
        → key_matches read_entry hash' key' (at two 1) ≡ false
        → (occurrences read_entry hash' key' table' ≡ occurrences read_entry hash' key' two)
          × ((find_slot table' (key_matches read_entry hash' key') hash' ≡ none
                → find_slot two (key_matches read_entry hash' key') hash' ≡ none)
              × (find_slot two (key_matches read_entry hash' key') hash' ≡ none
                  → find_slot table' (key_matches read_entry hash' key') hash' ≡ none)))
find_slot-delete_element_example =
    find_slot-delete_element read_entry 4 key two 1 ((omega arith), two-IsProbed) found

-- A full bucket of no bits, whose elements differ in the highest bit of the hash value.
abbrev full : HashBucket
full = record { bucket_bits = 0; count = 2; h_table = element 5 ∷ element 0x40000005 ∷ [] }

-- The first element goes to the first bucket and the second to the other.
dealt :
    split_elements full
    ≡ copied
        (record full { bucket_bits = 1; count = 1; h_table = new_element ∷ element 5 ∷ [] })
        (record full {
          bucket_bits = 1;
          count = 1;
          h_table = new_element ∷ element 0x40000005 ∷ [];
        })
unfolding split_elements copy_loop place place_loop new_side new_bucket is_used
dealt = refl

All-used : All (λ e. is_used e ≡ true) full.h_table
unfolding is_used
All-used = (refl, (refl, tt))

split_elements-Shares_example :
    (b0 b1 : HashBucket) × (split_elements full ≡ copied b0 b1)
    × IsBucket 2 1 b0
    × IsBucket 2 1 b1
    × ((w : BucketElement → ℕ) → weight w b0.h_table ≡ weight (share 1 0 w) full.h_table)
    × ((w : BucketElement → ℕ) → weight w b1.h_table ≡ weight (share 1 1 w) full.h_table)
split_elements-Shares_example = split_elements-Shares full (omega arith) All-used

abbrev free : ℕ → ℕ → AvailElem
free size adr = record { av_size = size; av_adr = adr }

-- Six entries, as many as a bucket takes.
abbrev avail : List AvailElem
avail = free 8 600 ∷ free 20 700 ∷ free 20 900 ∷ free 64 1000 ∷ free 70 1100 ∷ free 80 1200 ∷ []

split_avail-Dealt_example :
    Dealt avail (record { av_size = 512; av_adr = 2048 }) (split_avail avail 2048 512 true)
split_avail-Dealt_example =
    split_avail-Dealt avail 2048 512 true (omega arith) (omega arith) (omega arith)
