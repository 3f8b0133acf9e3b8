-- ===== src/Validate/Laws.antt =====
-- src/avail.c: what validation decides of a table, and what it leaves.
use mathlib.Core.Path.{subst}
use gdbm.Prelude.{
  ℕ, ◌+◌, ◌-◌, ◌/◌, ◌≤◌, ◌<◌, ◌≡◌, ◌⊎◌, inl, inr, refl, Bool, true, false, Bool-cases, Option, none,
  some, Option-cases, List, [], ◌∷◌, All, map, arith, if◌then◌else◌, ◌&&◌, take, length, ap,
}
use gdbm.Prelude.Int.{ℤ, pos, ◌≤ℤ◌, pos_part, neg_part}
use gdbm.Avail.Order.{IsSorted, AtLeast}
use gdbm.Avail.Space.{cover_count}
use gdbm.Validate.{
  RawElem, RawBlock, from_raw, off_t_max, table_scan, table_valid, sort, avail_block_validate,
  sizeof_avail_block, sizeof_avail_elem,
}
use gdbm.Validate.Sort.{
  length-sort, RawSorted, SizesFrom, All-sort, sort-RawSorted, cover_count-sort,
}
use gdbm.Validate.Table.{InFile, Chain, Scanned, table_scan_lem}

SizesFrom-Chain : (n prev : ℤ) (av : List RawElem) → n ≤ℤ prev → Chain prev av → SizesFrom n av
SizesFrom-Chain n prev [] h c = tt
SizesFrom-Chain n prev (e ∷ av) h c =
    let le : n ≤ℤ e.av_size = omega arith in (le, SizesFrom-Chain n e.av_size av le c.1)

Chain-RawSorted : (prev : ℤ) (av : List RawElem) → Chain prev av → RawSorted av
Chain-RawSorted prev [] c = tt
Chain-RawSorted prev (e ∷ av) c =
    (SizesFrom-Chain e.av_size e.av_size av (omega arith) c.1, Chain-RawSorted e.av_size av c.1)

module _ (bucket_size next_block : ℕ) where
  AtLeast-of_sizes :
      (e : RawElem) (av : List RawElem)
      → SizesFrom e.av_size av
      → InFile bucket_size next_block e
      → All (InFile bucket_size next_block) av
      → All (AtLeast (pos_part e.av_size)) (map from_raw av)
  AtLeast-of_sizes e [] a v h = tt
  AtLeast-of_sizes e (x ∷ av) a v h = (
    omega (arith, ap (λ (r : RawElem). neg_part r.av_size) v.0, a.0),
    AtLeast-of_sizes e av a.1 v h.1,
  )

  RawSorted-IsSorted :
      (av : List RawElem)
      → RawSorted av
      → All (InFile bucket_size next_block) av
      → IsSorted (map from_raw av)
  RawSorted-IsSorted [] s h = tt
  RawSorted-IsSorted (e ∷ av) s h =
      (AtLeast-of_sizes e av s.0 h.0 h.1, RawSorted-IsSorted av s.1 h.1)

-- What validation says of a table `av`: with `none` an entry does not lie in the file; with
-- `some av'` every entry does, before and after, no byte is lost or doubled, the table is sorted
-- if the database may be written, and it is the same table if it was in order or may not.
abbrev pub Validated : Bool → ℕ → ℕ → List RawElem → Option (List RawElem) → Type 0
Validated read_write bucket_size next_block av none = ¬ All (InFile bucket_size next_block) av
Validated read_write bucket_size next_block av (some av') =
    All (InFile bucket_size next_block) av
    × All (InFile bucket_size next_block) av'
    × ((b : ℕ) → cover_count b (map from_raw av') ≡ cover_count b (map from_raw av))
    × ((read_write ≡ true) → IsSorted (map from_raw av'))
    × ((Chain (pos 0) av ⊎ (read_write ≡ false)) → av' ≡ av)
    × (length av' ≡ length av)

-- For any table, in a file of at most OFF_T_MAX bytes: `gdbm_avail_table_valid_p` refuses it
-- exactly when an entry has a negative size or does not lie between the header and the end of the
-- file. Otherwise the table that it leaves holds the same bytes as often, in entries in the file;
-- it is in ascending order if the database may be written, and is the same table if it was in
-- order before or the database may only be read.
pub table_valid-Validated :
    (read_write : Bool) (bucket_size next_block : ℕ) (av : List RawElem)
    → next_block ≤ off_t_max
    → Validated read_write bucket_size next_block av
        (table_valid read_write bucket_size next_block av)
unfolding table_valid
table_valid-Validated read_write bucket_size next_block av bound =
    scanned (table_scan bucket_size next_block (pos 0) av)
      (table_scan_lem bucket_size next_block bound av (pos 0))
  where
    scanned :
        (o : Option Bool)
        → Scanned bucket_size next_block (pos 0) av o
        → Validated read_write bucket_size next_block av (elim o [
          | none ↦ none
          | some needs_sorting ↦ some (if needs_sorting && read_write then sort av else av)
        ])
    scanned none h = h
    scanned (some false) h = (
      h.0,
      h.0,
      λ b. refl,
      λ w. RawSorted-IsSorted bucket_size next_block av (Chain-RawSorted (pos 0) av h.1) h.0,
      λ c. refl,
      refl,
    )
    scanned (some true) h = elim (Bool-cases read_write) [
      | inl w ↦
          let kept = All-sort (InFile bucket_size next_block) av h.0 in
          rw w (
            h.0,
            kept,
            λ b. cover_count-sort b av,
            λ _. RawSorted-IsSorted bucket_size next_block (sort av) (sort-RawSorted av) kept,
            elim [ inl c ↦ absurd (h.1 c) | inr r ↦ cc ],
            length-sort av,
          )
      | inr r ↦ rw r (h.0, h.0, λ b. refl, λ w. cc, λ c. refl, refl)
    ]

-- A block that passes had its counts in range and its table passed.
block_inversion :
    (read_write : Bool) (bucket_size next_block size : ℕ) (blk blk' : RawBlock)
    → avail_block_validate read_write bucket_size next_block blk size ≡ some blk'
    → (av : List RawElem) × (table_valid read_write bucket_size next_block
          (take (pos_part blk.count) blk.slots)
        ≡ some av)
      × (blk' ≡ record blk { slots = av })
      × (sizeof_avail_block < size)
      × (pos 2 ≤ℤ blk.size)
      × (pos 0 ≤ℤ blk.count)
      × (blk.count ≤ℤ blk.size)
      × (blk.count ≤ℤ pos ((size - sizeof_avail_block) / sizeof_avail_elem + 1))
unfolding avail_block_validate
block_inversion read_write bucket_size next_block size blk blk' h =
    elim (Option-cases
      (table_valid read_write bucket_size next_block (take (pos_part blk.count) blk.slots))) [
        | inl e ↦ absurd (ground arith)
        | inr (av, e) ↦ (
          av,
          e,
          ground arith,
          ground arith,
          ground arith,
          ground arith,
          ground arith,
          ground arith,
        )
      ]

-- In a file of at most OFF_T_MAX bytes, a block that `gdbm_avail_block_validate` passes, read into
-- `size` bytes of memory, has room for more than one entry, and no more entries than it has room
-- for nor than the memory holds. Its size, its count and its link are left. From the first `count`
-- entries that were read it has a table of as many entries, all in the file and covering the same
-- bytes as often: these very entries if they ascended or the database may only be read, and in
-- ascending order if it may be written.
pub avail_block_validate_sound :
    (read_write : Bool) (bucket_size next_block size : ℕ) (blk blk' : RawBlock)
    → next_block ≤ off_t_max
    → avail_block_validate read_write bucket_size next_block blk size ≡ some blk'
    → (sizeof_avail_block < size)
      × (pos 2 ≤ℤ blk.size)
      × (pos 0 ≤ℤ blk.count)
      × (blk.count ≤ℤ blk.size)
      × (blk.count ≤ℤ pos ((size - sizeof_avail_block) / sizeof_avail_elem + 1))
      × (blk'.next_block ≡ blk.next_block)
      × All (InFile bucket_size next_block) blk'.slots
      × ((read_write ≡ true) → IsSorted (map from_raw blk'.slots))
      × (blk'.size ≡ blk.size)
      × (blk'.count ≡ blk.count)
      × (length blk'.slots ≡ length (take (pos_part blk.count) blk.slots))
      × ((b : ℕ)
          → cover_count b (map from_raw blk'.slots)
            ≡ cover_count b (map from_raw (take (pos_part blk.count) blk.slots)))
      × ((Chain (pos 0) (take (pos_part blk.count) blk.slots) ⊎ (read_write ≡ false))
          → blk'.slots ≡ take (pos_part blk.count) blk.slots)
avail_block_validate_sound read_write bucket_size next_block size blk blk' bound h =
    let (av, e, same, big, room, nonneg, fits, held) =
      block_inversion read_write bucket_size next_block size blk blk' h in
    let table = take (pos_part blk.count) blk.slots in
    let valid : Validated read_write bucket_size next_block table (some av) =
      subst (Validated read_write bucket_size next_block table) e
        (table_valid-Validated read_write bucket_size next_block table bound) in
    rw same
      (big, room, nonneg, fits, held, refl, valid.1, valid.3, refl, refl, valid.5, valid.2, valid.4)
