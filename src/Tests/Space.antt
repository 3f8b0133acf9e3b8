-- ===== src/Tests/Space.antt =====
-- Runs and instances for src/falloc.c and src/avail.c.
use gdbm.Prelude.{
  ℕ, ◌+◌, ◌-◌, ◌/◌, ◌%◌, ◌≤◌, ◌<◌, ◌≡◌, ◌⊎◌, refl, true, false, none, some, [], ◌∷◌, List, length,
  All, map, arith,
}
use gdbm.Prelude.Int.{ℤ, pos, ◌+ℤ◌, ◌-ℤ◌, ◌≤ℤ◌}
use gdbm.Avail.{
  AvailElem, no_elem, ignore_size, avail_lookup, get_elem, put_av_elem, coalesce, place_elem,
  lookup_loop, avail_move,
}
use gdbm.Avail.Order.{IsSorted}
use gdbm.Avail.Space.{cover_count, covers, total}
use gdbm.Avail.Laws.{put_av_elem-IsSorted, put_av_elem_space, get_elem-IsBest, IsBest}
use gdbm.Errno.{no_error}
use gdbm.Validate.{
  RawElem, RawBlock, table_scan, elem_valid, off_t_sum_ok, sort, table_valid, avail_block_validate,
  from_raw, sizeof_avail_block, sizeof_avail_elem,
}
use gdbm.Validate.Table.{InFile, Chain}
use gdbm.Validate.Laws.{avail_block_validate_sound}
use gdbm.Alloc.{Dbf, AvailBlock, done, gdbm_free, gdbm_alloc, get_block, pop_rest, push}
use gdbm.Alloc.Blocks.{get_block_lem}
use gdbm.Alloc.Valid.{IsValid, Ends}
use gdbm.Alloc.Pop.{Keeps, gdbm_free-Keeps, gdbm_alloc-Keeps, pop_rest-top}

abbrev elem : ℕ → ℕ → AvailElem
elem size adr = record { av_size = size; av_adr = adr }

abbrev table : List AvailElem
table = elem 8 600 ∷ elem 20 700 ∷ elem 20 900 ∷ elem 64 1000 ∷ []

table-IsSorted : IsSorted table
table-IsSorted = omega arith

put_av_elem-IsSorted_example : IsSorted (put_av_elem (elem 10 720) table true)
put_av_elem-IsSorted_example = put_av_elem-IsSorted (elem 10 720) table true table-IsSorted

put_merges : put_av_elem (elem 180 720) table true ≡ elem 8 600 ∷ elem 64 1000 ∷ elem 220 700 ∷ []
unfolding put_av_elem coalesce place_elem avail_lookup lookup_loop avail_move
put_merges = refl

put_av_elem_space_example :
    let table' = put_av_elem (elem 180 720) table true in
    ((180 ≤ ignore_size) × (table' ≡ table))
    ⊎ ((ignore_size < 180)
        × ((b : ℕ) → cover_count b table' ≡ covers b (elem 180 720) + cover_count b table)
        × (total table' ≡ 180 + total table))
put_av_elem_space_example = put_av_elem_space (elem 180 720) table true table-IsSorted

get_elem-IsBest_example :
    let (e, table') = get_elem 21 table in
    ((e ≡ no_elem) × (table' ≡ table) × All (λ x. x.av_size < 21) table)
    ⊎ ((21 ≤ e.av_size)
        × IsBest 21 e table
        × (length table' + 1 ≡ length table)
        × IsSorted table'
        × ((b : ℕ) → cover_count b table' + covers b e ≡ cover_count b table)
        × (total table' + e.av_size ≡ total table))
get_elem-IsBest_example = get_elem-IsBest 21 table table-IsSorted

abbrev raw : ℤ → ℤ → RawElem
raw size adr = record { av_size = size; av_adr = adr }

abbrev raw_table : List RawElem
raw_table = raw (pos 20) (pos 700) ∷ raw (pos 8) (pos 600) ∷ []

abbrev raw_block : List RawElem → RawBlock
raw_block slots = record { size = pos 8; count = pos 2; next_block = 0; slots = slots }

raw_block_passes :
    avail_block_validate true 512 2048 (raw_block raw_table) 96
    ≡ some (raw_block (raw (pos 8) (pos 600) ∷ raw (pos 20) (pos 700) ∷ []))
unfolding avail_block_validate table_valid table_scan elem_valid off_t_sum_ok sort ◌+ℤ◌ ◌-ℤ◌
raw_block_passes = refl

abbrev sorted_table : List RawElem
sorted_table = raw (pos 8) (pos 600) ∷ raw (pos 20) (pos 700) ∷ []

avail_block_validate_sound_example :
    (sizeof_avail_block < 96)
    × (pos 2 ≤ℤ pos 8)
    × (pos 0 ≤ℤ pos 2)
    × (pos 2 ≤ℤ pos 8)
    × (pos 2 ≤ℤ pos ((96 - sizeof_avail_block) / sizeof_avail_elem + 1))
    × (◌≡◌ {A = ℕ} 0 0)
    × All (InFile 512 2048) sorted_table
    × ((true ≡ true) → IsSorted (map from_raw sorted_table))
    × (pos 8 ≡ pos 8)
    × (pos 2 ≡ pos 2)
    × (length sorted_table ≡ length raw_table)
    × ((b : ℕ) → cover_count b (map from_raw sorted_table) ≡ cover_count b (map from_raw raw_table))
    × ((Chain (pos 0) raw_table ⊎ (true ≡ false)) → sorted_table ≡ raw_table)
avail_block_validate_sound_example =
    avail_block_validate_sound true 512 2048 96 (raw_block raw_table) (raw_block sorted_table)
      (omega arith) raw_block_passes

abbrev dbf : List AvailElem → List AvailElem → Dbf
dbf header_table bucket = record {
  block_size = 512;
  bucket_size = 512;
  next_block = 2048;
  avail = record { size = 8; next_block = 0; av_table = header_table };
  bucket_table = bucket;
  central_free = false;
  coalesce_blocks = false;
  read_write = true;
  header_changed = false;
  bucket_changed = false;
  disk = λ _. none;
  answers = [];
  errno = 0;
  error = record {
    last_error = no_error;
    last_syserror = 0;
    last_errstr = none;
    need_recovery = false;
  };
}

dbf-IsValid : IsValid (dbf table table)
dbf-IsValid = omega arith

get_block_lem_example :
    (n : ℕ) × (get_block 600 (dbf table table)
      ≡ done
          (record { av_size = n; av_adr = 2048 })
          (record (dbf table table) { next_block = 2048 + n; header_changed = true }))
    × (600 ≤ n)
    × ((n ≡ 512) ⊎ (n < 600 + 512))
    × (n % 512 ≡ 0)
get_block_lem_example = get_block_lem 600 (dbf table table) (omega arith)

gdbm_free-Keeps_example :
    Ends (λ _ t. Keeps (dbf table table) t) (gdbm_free 2 1500 100 (dbf table table))
gdbm_free-Keeps_example = gdbm_free-Keeps 0 1500 100 (dbf table table) dbf-IsValid

gdbm_alloc-Keeps_example :
    Ends (λ _ t. Keeps (dbf table table) t) (gdbm_alloc 200 (dbf table table))
gdbm_alloc-Keeps_example = gdbm_alloc-Keeps 200 (dbf table table) dbf-IsValid

-- Four entries come from the block, and fill the header's table.
abbrev popped : AvailBlock
popped = record {
  size = 8;
  next_block = 0;
  av_table = elem 10 1200 ∷ elem 10 1300 ∷ elem 10 1400 ∷ elem 10 1500 ∷ [];
}

pop_rest-top_example :
    Ends
      (λ _ t. Keeps (dbf table table) t × (t.avail.next_block ≡ 0))
      (pop_rest push (elem 96 1600) popped (dbf table table))
pop_rest-top_example =
    pop_rest-top (elem 96 1600) popped (dbf table table) dbf-IsValid (omega arith)
