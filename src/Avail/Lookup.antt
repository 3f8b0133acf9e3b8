-- ===== src/Avail/Lookup.antt =====
-- `avail_lookup` of src/falloc.c finds the place of a size in a sorted table.
use gdbm.Prelude.{
  ℕ, zero, suc, ◌+◌, ◌-◌, ◌/◌, ◌≤◌, ◌<◌, ◌≡◌, ◌⊎◌, inl, inr, Bool-cases, List, ltb, ◌==◌, ==_iff,
  ltb→lt, sym, length, arith,
}
use gdbm.Avail.{AvailElem, size_at, lookup_loop, avail_lookup}
use gdbm.Avail.Order.{IsSorted, sorted_at}

-- Nothing before the place is larger and nothing from it on is smaller; and either all before it
-- is strictly smaller, or the entry at the place has exactly the size.
pub record Splits (size : ℕ) (table : List AvailElem) (i : ℕ) : Type 0 where
  pub bound : i ≤ length table
  pub before : (j : ℕ) → j < i → size_at table j ≤ size
  pub after : (j : ℕ) → i ≤ j → j < length table → size ≤ size_at table j
  pub tight :
      ((j : ℕ) → j < i → size_at table j < size) ⊎ ((i < length table) × (size_at table i ≡ size))

module _ (size : ℕ) (table : List AvailElem) (sorted : IsSorted table) where
  lookup_loop-Splits :
      (fuel start count : ℕ)
      → count ≤ fuel
      → start + count ≤ length table
      → ((j : ℕ) → j < start → size_at table j < size)
      → ((j : ℕ) → start + count ≤ j → j < length table → size ≤ size_at table j)
      → Splits size table (lookup_loop fuel size table start count)
  unfolding lookup_loop
  lookup_loop-Splits zero start count f b lo hi = record {
    bound = omega arith;
    before = λ j lt. omega (arith, lo j lt);
    after = λ j le lt. hi j (omega arith) lt;
    tight = inl lo;
  }
  lookup_loop-Splits (suc fuel) start count f b lo hi =
      let pivot = start + count / 2 in
      elim (Bool-cases (count == 0)) [
        | inl e ↦
            let z = (==_iff count 0).0 e in
            rw (e, lookup_loop)
              (record {
                bound = omega arith;
                before = λ j lt. omega (arith, lo j lt);
                after = λ j le lt. hi j (omega arith) lt;
                tight = inl lo;
              })
        | inr n ↦ elim (Bool-cases (size == size_at table pivot)) [
          | inl e ↦
              let pos : 0 < count = ground arith in
              let same = (==_iff size (size_at table pivot)).0 e in
              rw (n, e, lookup_loop)
                (record {
                  bound = omega arith;
                  before = λ j lt.
                      omega (arith, sorted_at table j pivot sorted (omega arith) (omega arith));
                  after = λ j le lt. omega (arith, sorted_at table pivot j sorted le lt);
                  tight = inr (omega arith, sym same);
                })
          | inr m ↦ elim (Bool-cases (ltb (size_at table pivot) size)) [
            | inl e ↦
                let pos : 0 < count = ground arith in
                let larger = ltb→lt (size_at table pivot) size e in
                rw (n, m, e, lookup_loop)
                  (lookup_loop-Splits fuel (pivot + 1) ((count - 1) / 2) (omega arith) (omega arith)
                    (λ j lt.
                      omega (arith, sorted_at table j pivot sorted (omega arith) (omega arith)))
                    (λ j le lt. hi j (omega arith) lt))
            | inr e ↦
                let pos : 0 < count = ground arith in
                let smaller : size ≤ size_at table pivot = ground arith in
                rw (n, m, e, lookup_loop)
                  (lookup_loop-Splits fuel start (count / 2) (omega arith) (omega arith) lo
                    (λ j le lt. omega (arith, sorted_at table pivot j sorted (omega arith) lt)))
          ]
        ]
      ]

-- In a sorted table, for every size, `avail_lookup` returns the place of the size: at most the
-- count of entries, all entries before it at most as large and all from it on at least as large,
-- and either all before it are strictly smaller or the entry there has exactly the size.
pub avail_lookup-Splits :
    (size : ℕ) (table : List AvailElem)
    → IsSorted table
    → Splits size table (avail_lookup size table)
unfolding avail_lookup
avail_lookup-Splits size table sorted =
    lookup_loop-Splits size table sorted (length table) 0 (length table) (omega arith) (omega arith)
      (λ j lt. absurd (omega arith)) (λ j le lt. absurd (omega arith))
