-- ===== src/Split/Space.antt =====
-- src/bucket.c: no free space is lost when a bucket is split.
use gdbm.Prelude.{
  ℕ, ◌+◌, ◌≤◌, ◌<◌, ◌≡◌, inl, inr, Bool, List, [], ◌∷◌, All, length, ◌==◌, Bool-cases, arith,
}
use gdbm.Avail.{AvailElem, bucket_avail, ignore_size}
use gdbm.Avail.Order.{IsSorted}
use gdbm.Avail.Space.{cover_count, covers, total}
use gdbm.Avail.Laws.{put_av_elem-IsSorted, put_av_elem_space, length-put_av_elem-le}
use gdbm.Split.{split_avail}

-- Two tables with room, which hold the free space of one table and a new block.
abbrev pub Dealt : List AvailElem → AvailElem → List AvailElem × List AvailElem → Type 0
Dealt table new (table_0, table_1) =
    IsSorted table_0
    × IsSorted table_1
    × (length table_0 < bucket_avail)
    × (length table_1 < bucket_avail)
    × ((b : ℕ) → cover_count b table_0 + cover_count b table_1 ≡ covers b new + cover_count b table)
    × (total table_0 + total table_1 ≡ new.av_size + total table)

-- For a sorted table of at most BUCKET_AVAIL entries, each of more than IGNORE_SIZE bytes, the
-- tables of the two new buckets are sorted, both have room for another entry, and every byte of the
-- file lies in as many of their entries as in the table's and the new block, with the sizes adding
-- up.
pub split_avail-Dealt :
    (table : List AvailElem) (av_adr block_size : ℕ) (coalesce_blocks : Bool)
    → IsSorted table
    → length table ≤ bucket_avail
    → All (λ e. ignore_size < e.av_size) table
    → Dealt table
        (record { av_size = block_size; av_adr = av_adr })
        (split_avail table av_adr block_size coalesce_blocks)
unfolding split_avail
split_avail-Dealt [] av_adr block_size coalesce_blocks s few large = omega arith
split_avail-Dealt (e ∷ table) av_adr block_size coalesce_blocks s few large =
    elim (Bool-cases (length (e ∷ table) == bucket_avail)) [
      | inr room ↦
          rw room (s, (tt, tt), (ground arith), (omega arith), (λ b. omega arith), (omega arith))
      | inl full ↦
          let allocated : List AvailElem = record { av_size = block_size; av_adr = av_adr } ∷ [] in
          let l = length-put_av_elem-le e allocated coalesce_blocks (tt, tt) in
          rw full (elim (put_av_elem_space e allocated coalesce_blocks (tt, tt)) [
            | inl small ↦ absurd (omega arith)
            | inr (sum, same, whole) ↦ (
              s.1,
              put_av_elem-IsSorted e allocated coalesce_blocks (tt, tt),
              (ground arith),
              (omega arith),
              (λ b. omega (arith, same b)),
              (omega arith),
            )
          ])
    ]
