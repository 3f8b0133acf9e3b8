-- ===== src/Avail/Laws.antt =====
-- src/falloc.c: what a client of a sorted table knows of `get_elem` and `_gdbm_put_av_elem`.
use gdbm.Prelude.{
  ℕ, ◌+◌, ◌≤◌, ◌<◌, ◌≡◌, ◌⊎◌, inl, inr, refl, Bool, Bool-cases, List, [], ◌∷◌, ap, ◌≢◌, ◌∙◌, ◌==◌,
  leb→le, ltb→lt, ltb, leb, length, All, All-of_positions, insert_at, length-insert_at,
  length-remove_at, arith,
}
use gdbm.Avail.{
  AvailElem, no_elem, size_at, ignore_size, avail_lookup, get_elem, coalesce, place_elem,
  put_av_elem,
}
use gdbm.Avail.Order.{IsSorted, AtLeast, sorted_at, insert_at-IsSorted, remove_at-IsSorted}
use gdbm.Avail.Lookup.{Splits, avail_lookup-Splits}
use gdbm.Avail.Space.{
  covers, cover_count, total, cover_count-insert_at, cover_count-remove_at, total-insert_at,
  total-remove_at, avail_move_down, avail_move_up, coalesce-covers, coalesce-total,
}

-- The merging loop only takes entries out.
All-coalesce :
    (n : ℕ) (table : List AvailElem) (new : AvailElem)
    → All (AtLeast n) table
    → All (AtLeast n) (coalesce new table).1
unfolding coalesce
All-coalesce n [] new a = tt
All-coalesce n (e ∷ table) new a = elim (Bool-cases (e.av_adr + e.av_size == new.av_adr)) [
  | inl h ↦ rw (h, coalesce) (All-coalesce n table _ a.1)
  | inr h ↦ elim (Bool-cases (new.av_adr + new.av_size == e.av_adr)) [
    | inl k ↦ rw (h, k, coalesce) (All-coalesce n table _ a.1)
    | inr k ↦ rw (h, k, coalesce) (a.0, All-coalesce n table new a.1)
  ]
]

coalesce-IsSorted :
    (table : List AvailElem) (new : AvailElem) → IsSorted table → IsSorted (coalesce new table).1
unfolding coalesce
coalesce-IsSorted [] new s = tt
coalesce-IsSorted (e ∷ table) new s = elim (Bool-cases (e.av_adr + e.av_size == new.av_adr)) [
  | inl h ↦ rw (h, coalesce) (coalesce-IsSorted table _ s.1)
  | inr h ↦ elim (Bool-cases (new.av_adr + new.av_size == e.av_adr)) [
    | inl k ↦ rw (h, k, coalesce) (coalesce-IsSorted table _ s.1)
    | inr k ↦
        rw (h, k, coalesce) (All-coalesce e.av_size table new s.0, coalesce-IsSorted table new s.1)
  ]
]

module _ (new : AvailElem) (table : List AvailElem) (s : IsSorted table) where
  place_elem_lem : place_elem new table ≡ insert_at (avail_lookup new.av_size table) new table
  unfolding place_elem
  place_elem_lem =
      avail_move_up table (avail_lookup new.av_size table) new
        (avail_lookup-Splits new.av_size table s).bound

  place_elem-IsSorted : IsSorted (place_elem new table)
  place_elem-IsSorted =
      let p = avail_lookup-Splits new.av_size table s in
      rw place_elem_lem (insert_at-IsSorted new _ table s p.bound p.before p.after)

  place_elem_space :
      ((b : ℕ) → cover_count b (place_elem new table) ≡ covers b new + cover_count b table)
      × (total (place_elem new table) ≡ new.av_size + total table)
  place_elem_space = (
    λ b. rw place_elem_lem (cover_count-insert_at b _ new table),
    rw place_elem_lem (total-insert_at _ new table),
  )

module _ (new : AvailElem) (table : List AvailElem) (s : IsSorted table) where
  merged_space :
      let (merged, rest) = coalesce new table in
      ((b : ℕ) → cover_count b (place_elem merged rest) ≡ covers b new + cover_count b table)
      × (total (place_elem merged rest) ≡ new.av_size + total table)
  merged_space =
      let p =
        place_elem_space (coalesce new table).0 (coalesce new table).1
          (coalesce-IsSorted table new s) in
      (λ b. p.0 b ∙ coalesce-covers b new table, p.1 ∙ (coalesce-total new table).0)

-- Putting any element into a sorted table, with or without merging, leaves it sorted.
pub put_av_elem-IsSorted :
    (new : AvailElem) (table : List AvailElem) (can_merge : Bool)
    → IsSorted table
    → IsSorted (put_av_elem new table can_merge)
unfolding put_av_elem
put_av_elem-IsSorted new table can_merge s = elim (Bool-cases (leb new.av_size ignore_size)) [
  | inl e ↦ rw e s
  | inr n ↦ elim (Bool-cases can_merge) [
    | inl e ↦ rw (n, e) (place_elem-IsSorted _ _ (coalesce-IsSorted table new s))
    | inr e ↦ rw (n, e) (place_elem-IsSorted new table s)
  ]
]

-- For a sorted table and an element of more than IGNORE_SIZE bytes, merged or not, every byte of
-- the file lies in as many entries afterwards as in the entries and the element before, and the
-- sizes add up. A smaller element leaves the table as it was.
pub put_av_elem_space :
    (new : AvailElem) (table : List AvailElem) (can_merge : Bool)
    → IsSorted table
    → let table' = put_av_elem new table can_merge in
      ((new.av_size ≤ ignore_size) × (table' ≡ table))
      ⊎ ((ignore_size < new.av_size)
          × ((b : ℕ) → cover_count b table' ≡ covers b new + cover_count b table)
          × (total table' ≡ new.av_size + total table))
unfolding put_av_elem
put_av_elem_space new table can_merge s = elim (Bool-cases (leb new.av_size ignore_size)) [
  | inl e ↦ rw e (inl (ground arith, refl))
  | inr n ↦ elim (Bool-cases can_merge) [
    | inl e ↦
        rw (n, e) (inr (ground arith, (merged_space new table s).0, (merged_space new table s).1))
    | inr e ↦
        rw (n, e)
          (inr (ground arith, (place_elem_space new table s).0, (place_elem_space new table s).1))
  ]
]

-- Every entry is smaller than the request, or at least as large as the entry e.
abbrev pub IsBest : ℕ → AvailElem → List AvailElem → Type 0
IsBest size e = All (λ x. (x.av_size < size) ⊎ (e.av_size ≤ x.av_size))

best_at :
    (size i j : ℕ) (table : List AvailElem)
    → IsSorted table
    → Splits size table i
    → j < length table
    → (size_at table j < size) ⊎ (size_at table i ≤ size_at table j)
best_at size i j table s p lt = elim p.tight [
  | inl small ↦ elim (Bool-cases (ltb j i)) [
    | inl e ↦ inl (small j (ltb→lt j i e))
    | inr e ↦ let le : i ≤ j = ground arith in inr (sorted_at table i j s le lt)
  ]
  | inr hit ↦ elim (Bool-cases (ltb (size_at table j) size)) [
    | inl e ↦ inl (ltb→lt _ _ e)
    | inr e ↦ let le : size ≤ size_at table j = ground arith in inr (omega arith)
  ]
]

-- In a sorted table `get_elem` finds nothing, and changes nothing, exactly when every entry is
-- smaller than the request. Otherwise it takes out an entry that is large enough and no larger
-- than any other that is: the table has one entry less, stays sorted, and each byte of the file
-- lies in the entry or the rest as often as it lay in the table.
pub get_elem-IsBest :
    (size : ℕ) (table : List AvailElem)
    → IsSorted table
    → let (e, table') = get_elem size table in
      ((e ≡ no_elem) × (table' ≡ table) × All (λ x. x.av_size < size) table)
      ⊎ ((size ≤ e.av_size)
          × IsBest size e table
          × (length table' + 1 ≡ length table)
          × IsSorted table'
          × ((b : ℕ) → cover_count b table' + covers b e ≡ cover_count b table)
          × (total table' + e.av_size ≡ total table))
unfolding get_elem
get_elem-IsBest size table s =
    let i = avail_lookup size table in
    let p = avail_lookup-Splits size table s in
    elim (Bool-cases (leb (length table) i)) [
      | inl e ↦
          let end : length table ≤ i = leb→le (length table) i e in
          rw e (
            inl (
              refl,
              refl,
              All-of_positions (λ x. x.av_size < size) no_elem table
                  (λ j lt. elim p.tight [
                    | inl small ↦ small j (omega arith)
                    | inr hit ↦ absurd (omega arith)
                  ]),
            ))
      | inr n ↦
          let inside : i < length table = ground arith in
          rw (n, avail_move_down table i inside)
            (inr (
              p.after i (omega arith) inside,
              All-of_positions (λ x. (x.av_size < size) ⊎ (size_at table i ≤ x.av_size)) no_elem
                  table (λ j lt. best_at size i j table s p lt),
              length-remove_at i table inside,
              remove_at-IsSorted i table s,
              λ b. cover_count-remove_at b i table inside,
              total-remove_at i table inside,
            ))
    ]

length-coalesce :
    (table : List AvailElem) (new : AvailElem) → length (coalesce new table).1 ≤ length table
unfolding coalesce
length-coalesce [] new = omega arith
length-coalesce (e ∷ table) new = ground (
  arith,
  length-coalesce table new,
  length-coalesce table (record { av_size = new.av_size + e.av_size; av_adr = e.av_adr }),
  length-coalesce table (record new { av_size = new.av_size + e.av_size }),
)

pub length-place_elem :
    (new : AvailElem) (table : List AvailElem)
    → IsSorted table
    → length (place_elem new table) ≡ length table + 1
length-place_elem new table s = rw (place_elem_lem new table s) (length-insert_at _ new table)

-- A table grows by one entry at most.
pub length-put_av_elem-le :
    (new : AvailElem) (table : List AvailElem) (can_merge : Bool)
    → IsSorted table
    → length (put_av_elem new table can_merge) ≤ length table + 1
unfolding put_av_elem
length-put_av_elem-le new table can_merge s =
    let (merged, rest) = coalesce new table in
    ground (
      arith,
      length-coalesce table new,
      length-place_elem merged rest (coalesce-IsSorted table new s),
      length-place_elem new table s,
    )

-- What `get_elem` leaves is sorted and no longer than before.
pub get_elem_rest :
    (size : ℕ) (table : List AvailElem)
    → IsSorted table
    → IsSorted (get_elem size table).1 × (length (get_elem size table).1 ≤ length table)
get_elem_rest size table s = elim (get_elem-IsBest size table s) [
  | inl n ↦ (rw n.1 s, rw n.1 (omega arith))
  | inr f ↦ (f.3, omega arith)
]

-- What is taken out leaves one entry less.
pub get_elem_found :
    (size : ℕ) (table : List AvailElem)
    → IsSorted table
    → (get_elem size table).0.av_size ≢ 0
    → length (get_elem size table).1 + 1 ≡ length table
get_elem_found size table s h = elim (get_elem-IsBest size table s) [
  | inl n ↦ absurd (h (ap (λ (e : AvailElem). e.av_size) n.0))
  | inr f ↦ f.2
]
