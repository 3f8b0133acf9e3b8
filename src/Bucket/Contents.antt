-- ===== src/Bucket/Contents.antt =====
-- src/findkey.c and src/gdbmdelete.c: the bucket's table as a collection of elements, in which the
-- search tells whether an element is there.
use gdbm.Prelude.{
  ℕ, ◌+◌, ◌≤◌, ◌<◌, ◌≡◌, ◌⊎◌, inl, inr, true, false, none, some, List, length, some_inj, sym, ◌∙◌,
  arith,
}
use mathlib.Core.Path.{subst}
use gdbm.Bucket.{BucketElement, at, is_used, key_matches, find_slot, delete_element}
use gdbm.Bucket.Probe.{IsProbed}
use gdbm.Bucket.Search.{find_slot_finds, key_matches_hash, used_iff}
use gdbm.Bucket.Weights.{weight, weigh, one_if, sum_at-zero, sum_at-position}
use gdbm.Bucket.Delete.{delete_element_lem}

-- A key, with its hash value, is in a table as often as it matches a used element.
unfoldable pub occurrences : (BucketElement → List ℕ) → ℕ → List ℕ → List BucketElement → ℕ
occurrences read_entry hash key table = weight (one_if (key_matches read_entry hash key)) table

module _ (read_entry : BucketElement → List ℕ) (hash : ℕ) (key : List ℕ)
    (table : List BucketElement) where
  matches_used :
      (k : ℕ) → key_matches read_entry hash key (at table k) ≡ true → is_used (at table k) ≡ true
  matches_used k m =
      used_iff (at table k) hash (key_matches_hash read_entry hash key (at table k) m)

  none_occurs :
      ((k : ℕ) → k < length table → key_matches read_entry hash key (at table k) ≡ false)
      → occurrences read_entry hash key table ≡ 0
  unfolding occurrences weight weigh
  none_occurs h =
      sum_at-zero (weigh (one_if (key_matches read_entry hash key))) 0 table
        (λ r lt. let z = h r lt in ground arith)

  one_occurs :
      (r : ℕ)
      → r < length table
      → key_matches read_entry hash key (at table r) ≡ true
      → 1 ≤ occurrences read_entry hash key table
  unfolding occurrences weight weigh
  one_occurs r lt m =
      let p = sum_at-position (weigh (one_if (key_matches read_entry hash key))) 0 table r lt in
      let u = matches_used r m in ground (arith, p)

  -- In a bucket with at least one position, where every used element is reached from its home by
  -- used elements alone, the search finds nothing exactly when the key does not occur.
  pub find_slot_occurs :
      0 < length table
      → IsProbed table
      → ((find_slot table (key_matches read_entry hash key) hash ≡ none)
          × (occurrences read_entry hash key table ≡ 0))
        ⊎ ((r : ℕ) × (find_slot table (key_matches read_entry hash key) hash ≡ some r)
            × (r < length table)
            × (key_matches read_entry hash key (at table r) ≡ true)
            × (1 ≤ occurrences read_entry hash key table))
  find_slot_occurs pos p = elim (find_slot_finds read_entry key hash table pos p) [
    | inl n ↦ inl (n.0, none_occurs n.1)
    | inr f ↦ inr (f.0, f.1, f.2, f.3, one_occurs f.0 f.2 f.3)
  ]

  absent :
      0 < length table
      → IsProbed table
      → occurrences read_entry hash key table ≡ 0
      → find_slot table (key_matches read_entry hash key) hash ≡ none
  absent pos p zero_times = elim (find_slot_occurs pos p) [
    | inl n ↦ n.0
    | inr f ↦ absurd (omega arith)
  ]

  absent_occurs :
      0 < length table
      → IsProbed table
      → find_slot table (key_matches read_entry hash key) hash ≡ none
      → occurrences read_entry hash key table ≡ 0
  absent_occurs pos p a = elim (find_slot_occurs pos p) [
    | inl n ↦ n.1
    | inr f ↦ absurd (let z = sym f.1 ∙ a in cc)
  ]

  -- What taking out one element does to a count.
  fewer :
      (r : ℕ) (table' : List BucketElement)
      → ((w : BucketElement → ℕ) → weight w table' + w (at table r) ≡ weight w table)
      → ((key_matches read_entry hash key (at table r) ≡ true)
          → occurrences read_entry hash key table' + 1 ≡ occurrences read_entry hash key table)
        × ((key_matches read_entry hash key (at table r) ≡ false)
            → occurrences read_entry hash key table' ≡ occurrences read_entry hash key table)
  unfolding occurrences
  fewer r table' w =
      let e = w (one_if (key_matches read_entry hash key)) in
      ((λ m. ground (arith, e)), (λ m. ground (arith, e)))

-- The state of a table that is searched: positions, and ways from home.
abbrev pub CanSearch : List BucketElement → Type 0
CanSearch table = (0 < length table) × IsProbed table

-- In a bucket that can be searched, once the element is removed that the search for a key found:
-- the bucket can be searched; the key occurs once less, so that the search finds nothing if it
-- occurred once; and every other key that the removed element does not match occurs as often as
-- before, so that the search finds it exactly when it found it before.
pub find_slot-delete_element :
    (read_entry : BucketElement → List ℕ) (hash : ℕ) (key : List ℕ) (table : List BucketElement)
    (r : ℕ)
    → CanSearch table
    → find_slot table (key_matches read_entry hash key) hash ≡ some r
    → (table' : List BucketElement) × (delete_element table r ≡ some table')
      × CanSearch table'
      × (occurrences read_entry hash key table' + 1 ≡ occurrences read_entry hash key table)
      × (occurrences read_entry hash key table ≡ 1
          → find_slot table' (key_matches read_entry hash key) hash ≡ none)
      × ((hash' : ℕ) (key' : List ℕ)
          → key_matches read_entry hash' key' (at table r) ≡ false
          → (occurrences read_entry hash' key' table' ≡ occurrences read_entry hash' key' table)
            × ((find_slot table' (key_matches read_entry hash' key') hash' ≡ none
                  → find_slot table (key_matches read_entry hash' key') hash' ≡ none)
                × (find_slot table (key_matches read_entry hash' key') hash' ≡ none
                    → find_slot table' (key_matches read_entry hash' key') hash' ≡ none)))
find_slot-delete_element read_entry hash key table r (pos, p) found =
    elim (find_slot_occurs read_entry hash key table pos p) [
      | inl n ↦ absurd (let z = sym n.0 ∙ found in cc)
      | inr f ↦
          let same : f.0 ≡ r = some_inj (sym f.1 ∙ found) in
          let lt : r < length table = subst (λ (x : ℕ). x < length table) same f.2 in
          let m : key_matches read_entry hash key (at table r) ≡ true =
            subst (λ (x : ℕ). key_matches read_entry hash key (at table x) ≡ true) same f.3 in
          let (t, d, p', len, w) =
            delete_element_lem table r p lt (matches_used read_entry hash key table r m) in
          let pos' : 0 < length t = rw len pos in
          let once = fewer read_entry hash key table r t w in
          (
            t,
            d,
            (pos', p'),
            omega (arith, once.0 m),
            (λ one. absent read_entry hash key t pos' p' (let o = once.0 m in omega arith)),
            λ hash' key' other.
                let kept = (fewer read_entry hash' key' table r t w).1 other in
                (
                  kept,
                  (
                    (λ a.
                        absent read_entry hash' key' table pos p
                          (let z = absent_occurs read_entry hash' key' t pos' p' a in omega arith)),
                    (λ a.
                        absent read_entry hash' key' t pos' p' (
                          let z = absent_occurs read_entry hash' key' table pos p a in
                          omega arith)),
                  ),
                ),
          )
    ]
