-- ===== src/Validate.antt =====
-- src/avail.c: the validation of avail tables and blocks that were read from the file.
pub mod Sort
pub mod Table
pub mod Laws
use gdbm.Prelude.{
  ℕ, ◌+◌, ◌-◌, ◌/◌, ◌^◌, Bool, true, false, Option, none, some, List, [], ◌∷◌, ltb, leb, ◌&&◌, ◌||◌,
  if◌then◌else◌, length, take, map,
}
use gdbm.Prelude.Int.{ℤ, pos, negsuc, pos_part, ltb_ℤ, leb_ℤ, ◌+ℤ◌, ◌-ℤ◌}
use gdbm.Avail.{AvailElem, bucket_avail}

-- `avail_elem` and `avail_block` as they stand in the file, with any `int` and `off_t` values.
-- `slots` are the elements that the memory read from the file has room for.
pub record RawElem : Type 0 where
  pub av_size : ℤ
  pub av_adr : ℤ

pub record RawBlock : Type 0 where
  pub size : ℤ
  pub count : ℤ
  pub next_block : ℕ
  pub slots : List RawElem

-- OFF_T_MAX for a 64-bit `off_t`; sizeof (avail_block) and sizeof (avail_elem) on such a system.
abbrev pub off_t_max : ℕ
off_t_max = 2 ^ 63 - 1

abbrev pub sizeof_avail_block : ℕ
sizeof_avail_block = 32

abbrev pub sizeof_avail_elem : ℕ
sizeof_avail_elem = 16

unfoldable pub off_t_sum_ok : ℤ → ℤ → Bool
off_t_sum_ok a b = leb_ℤ (pos 0) a && leb_ℤ (pos 0) b && leb_ℤ b (pos off_t_max -ℤ a)

unfoldable pub elem_valid : ℕ → ℕ → RawElem → Bool
elem_valid bucket_size next_block e =
    leb_ℤ (pos bucket_size) e.av_adr
    && off_t_sum_ok e.av_adr e.av_size
    && leb_ℤ (e.av_adr +ℤ e.av_size) (pos next_block)

-- The loop: `none` for an invalid element, or whether the order is broken.
unfoldable pub table_scan : ℕ → ℕ → ℤ → List RawElem → Option Bool
table_scan bucket_size next_block prev [] = some false
table_scan bucket_size next_block prev (e ∷ av) =
    let rest = table_scan bucket_size next_block e.av_size av in
    if elem_valid bucket_size next_block e
    then elim rest [ none ↦ none | some unsorted ↦ some (ltb_ℤ e.av_size prev || unsorted) ]
    else none

-- `qsort` with `avail_comp`, which compares sizes. (It leaves the order of equal sizes open.)
unfoldable pub sort_insert : RawElem → List RawElem → List RawElem
sort_insert e [] = e ∷ []
sort_insert e (x ∷ av) = if ltb_ℤ x.av_size e.av_size then x ∷ sort_insert e av else e ∷ x ∷ av

unfoldable pub sort : List RawElem → List RawElem
unfolding sort_insert
sort [] = []
sort (e ∷ av) = sort_insert e (sort av)

-- `none` if the table is not valid, or the table as it is left.
unfoldable pub table_valid : Bool → ℕ → ℕ → List RawElem → Option (List RawElem)
table_valid read_write bucket_size next_block av =
    elim (table_scan bucket_size next_block (pos 0) av) [
      | none ↦ none
      | some needs_sorting ↦ some (if needs_sorting && read_write then sort av else av)
    ]

-- `gdbm_avail_block_validate` on a block in `size` bytes of memory: `none` stands for -1.
unfoldable pub avail_block_validate : Bool → ℕ → ℕ → RawBlock → ℕ → Option RawBlock
avail_block_validate read_write bucket_size next_block blk size =
    if ltb sizeof_avail_block size
      && ltb_ℤ (pos 1) blk.size
      && leb_ℤ (pos 0) blk.count
      && leb_ℤ blk.count blk.size
      && leb_ℤ blk.count (pos ((size - sizeof_avail_block) / sizeof_avail_elem + 1))
    then elim (table_valid read_write bucket_size next_block
        (take (pos_part blk.count) blk.slots)) [
          | none ↦ none
          | some av ↦ some (record blk { slots = av })
        ]
    else none

unfoldable pub bucket_avail_table_validate : Bool → ℕ → ℕ → ℤ → List RawElem → Option (List RawElem)
bucket_avail_table_validate read_write bucket_size next_block av_count table =
    if leb_ℤ (pos 0) av_count && leb_ℤ av_count (pos bucket_avail)
    then table_valid read_write bucket_size next_block (take (pos_part av_count) table)
    else none

-- The numbers that a valid element holds.
abbrev pub from_raw : RawElem → AvailElem
from_raw e = record { av_size = pos_part e.av_size; av_adr = pos_part e.av_adr }

abbrev pub to_raw : AvailElem → RawElem
to_raw e = record { av_size = pos e.av_size; av_adr = pos e.av_adr }
