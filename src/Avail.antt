-- ===== src/Avail.antt =====
-- src/falloc.c, the operations on one table of available space: the search, the removal and the
-- insertion of an element. A table is the list of its first `av_count` entries.
pub mod Lookup
pub mod Order
pub mod Space
pub mod Laws
use gdbm.Prelude.{
  ℕ, zero, suc, ◌+◌, ◌-◌, ◌/◌, Bool, true, false, List, [], ◌∷◌, ◌++◌, ltb, leb, ◌==◌,
  if◌then◌else◌, length, get_or, set, take, drop,
}

-- `int` sizes and `off_t` addresses that passed the validation of src/avail.c are not negative.
pub record AvailElem : Type 0 where
  pub av_size : ℕ
  pub av_adr : ℕ

-- IGNORE_SIZE and BUCKET_AVAIL
abbrev pub ignore_size : ℕ
ignore_size = 4

abbrev pub bucket_avail : ℕ
bucket_avail = 6

-- The value that `avail_elem_init (&val, 0, 0)` leaves.
abbrev pub no_elem : AvailElem
no_elem = record { av_size = 0; av_adr = 0 }

abbrev pub size_at : List AvailElem → ℕ → ℕ
size_at table i = (get_or table i no_elem).av_size

-- The loop of `avail_lookup`; `count` falls in each round, so that `count` rounds are enough.
unfoldable pub lookup_loop : ℕ → ℕ → List AvailElem → ℕ → ℕ → ℕ
lookup_loop zero size table start count = start
lookup_loop (suc fuel) size table start count = elim (count == 0) [
  | true ↦ start
  | false ↦ elim (size == size_at table (start + count / 2)) [
    | true ↦ start + count / 2
    | false ↦ elim (ltb (size_at table (start + count / 2)) size) [
      | true ↦ lookup_loop fuel size table (start + count / 2 + 1) ((count - 1) / 2)
      | false ↦ lookup_loop fuel size table start (count / 2)
    ]
  ]
]

unfoldable pub avail_lookup : ℕ → List AvailElem → ℕ
avail_lookup size table = lookup_loop (length table) size table 0 (length table)

-- The `memmove` from position `src` to `dst`, with the new count. A move up by one leaves a slot
-- with a stale value, which the caller overwrites.
unfoldable pub avail_move : List AvailElem → ℕ → ℕ → List AvailElem
avail_move table src dst = take dst (table ++ no_elem ∷ []) ++ drop src table

unfoldable pub get_elem : ℕ → List AvailElem → AvailElem × List AvailElem
get_elem size table =
    let index = avail_lookup size table in
    if leb (length table) index
    then (no_elem, table)
    else (get_or table index no_elem, avail_move table (index + 1) index)

-- The merging loop: an adjacent entry is absorbed into the new element and leaves the table.
unfoldable pub coalesce : AvailElem → List AvailElem → AvailElem × List AvailElem
coalesce new [] = (new, [])
coalesce new (e ∷ table) = elim (e.av_adr + e.av_size == new.av_adr) [
  | true ↦ coalesce (record { av_size = new.av_size + e.av_size; av_adr = e.av_adr }) table
  | false ↦ elim (new.av_adr + new.av_size == e.av_adr) [
    | true ↦ coalesce (record new { av_size = new.av_size + e.av_size }) table
    | false ↦ let r = coalesce new table in (r.0, e ∷ r.1)
  ]
]

-- The search for the place, the move up, and the write.
unfoldable pub place_elem : AvailElem → List AvailElem → List AvailElem
place_elem new table =
    let index = avail_lookup new.av_size table in set (avail_move table index (index + 1)) index new

unfoldable pub put_av_elem : AvailElem → List AvailElem → Bool → List AvailElem
put_av_elem new table can_merge =
    if leb new.av_size ignore_size
    then table
    else if can_merge
    then (let (merged, rest) = coalesce new table in place_elem merged rest)
    else place_elem new table
