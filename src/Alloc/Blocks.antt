-- ===== src/Alloc/Blocks.antt =====
-- src/falloc.c: new blocks at the end of the file, and the two halves of a table.
use gdbm.Prelude.{
  ℕ, zero, suc, ◌+◌, ◌/◌, ◌%◌, ◌≤◌, ◌<◌, ◌≡◌, ◌⊎◌, inl, inr, refl, Bool-cases, List, [], ◌∷◌, true,
  ltb, ltb→lt, length, All, arith,
}
use gdbm.Avail.{AvailElem}
use gdbm.Avail.Order.{IsSorted, AtLeast}
use gdbm.Avail.Space.{cover_count}
use gdbm.Alloc.{Dbf, done, grow, get_block, halve}

module _ (block_size size : ℕ) (pos : 0 < block_size) where
  -- A multiple of the block size, as large as needed, and no block too many.
  abbrev pub Covers : ℕ → Type 0
  Covers n = (size ≤ n) × ((n ≡ block_size) ⊎ (n < size + block_size)) × (n % block_size ≡ 0)

  grow-Covers :
      (fuel av_size : ℕ)
      → size ≤ av_size + fuel
      → (av_size ≡ block_size) ⊎ (av_size < size + block_size)
      → av_size % block_size ≡ 0
      → Covers (grow fuel block_size size av_size)
  unfolding grow
  grow-Covers zero av_size f h m = (omega arith, h, m)
  grow-Covers (suc fuel) av_size f h m = elim (Bool-cases (ltb av_size size)) [
    | inl e ↦
        let lt = ltb→lt av_size size e in
        rw (e, grow)
          (grow-Covers fuel (av_size + block_size) (omega arith) (inr (omega arith)) (grind arith))
    | inr e ↦ rw (e, grow) (ground arith, h, m)
  ]

-- With a block size above 0, `get_block` returns space that begins at the end of the file, is at
-- least as large as asked for and a whole number of blocks, the fewest that will do; the end of
-- the file moves behind it, the header is marked as changed, and the tables stay.
pub get_block_lem :
    (size : ℕ) (s : Dbf)
    → 0 < s.block_size
    → (n : ℕ) × (get_block size s
        ≡ done
            (record { av_size = n; av_adr = s.next_block })
            (record s { next_block = s.next_block + n; header_changed = true }))
      × (size ≤ n)
      × ((n ≡ s.block_size) ⊎ (n < size + s.block_size))
      × (n % s.block_size ≡ 0)
unfolding get_block
get_block_lem size s pos =
    let c =
      grow-Covers s.block_size size pos size s.block_size (omega arith) (inl refl) (grind arith) in
    (grow size s.block_size size s.block_size, refl, c.0, c.1, c.2)

All-halve :
    (n : ℕ) (table : List AvailElem)
    → All (AtLeast n) table
    → All (AtLeast n) (halve table).0 × All (AtLeast n) (halve table).1
unfolding halve
All-halve n [] a = (tt, tt)
All-halve n (e ∷ table) a = let (k, m) = All-halve n table a.1 in ((a.0, m), k)

pub halve-IsSorted :
    (table : List AvailElem) → IsSorted table → IsSorted (halve table).0 × IsSorted (halve table).1
unfolding halve
halve-IsSorted [] s = (tt, tt)
halve-IsSorted (e ∷ table) s =
    let (k, m) = halve-IsSorted table s.1 in (((All-halve e.av_size table s.0).1, m), k)

pub length-halve :
    (table : List AvailElem)
    → (length (halve table).0 ≡ (length table + 1) / 2)
      × (length (halve table).1 ≡ length table / 2)
unfolding halve
length-halve [] = omega arith
length-halve (e ∷ table) = omega (arith, length-halve table)

pub cover_count-halve :
    (b : ℕ) (table : List AvailElem)
    → cover_count b (halve table).0 + cover_count b (halve table).1 ≡ cover_count b table
unfolding halve
cover_count-halve b [] = refl
cover_count-halve b (e ∷ table) = omega (arith, cover_count-halve b table)
