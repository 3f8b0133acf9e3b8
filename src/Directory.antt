-- ===== src/Directory.antt =====
-- The directory of buckets: its growth and update when a bucket is split, in src/bucket.c, and the
-- walk through it, in src/recover.c and src/gdbmcount.c.
pub mod Fill
pub mod Split
pub mod Walk
pub mod Count
use gdbm.Prelude.{
  ℕ, zero, suc, ◌+◌, ◌-◌, ◌*◌, ◌/◌, ◌^◌, Bool, true, false, Option, none, some, List, [], ◌∷◌, ltb,
  leb, ◌==◌, ◌&&◌, ◌||◌, if◌then◌else◌, length, get_or, set,
}
use gdbm.Prelude.Int.{ℤ, pos, negsuc}
use gdbm.Errno.{ErrorState, need_recovery, set_errno}

-- `dir`, with its address bits, and `bucket_dir`, the index that gave the current bucket. The
-- entries have 8 bytes.
pub record Directory : Type 0 where
  pub dir_bits : ℕ
  pub dir : List ℕ
  pub bucket_dir : ℕ

abbrev pub sizeof_off_t : ℕ
sizeof_off_t = 8

-- `header->dir_size`
abbrev pub dir_size : Directory → ℕ
dir_size d = length d.dir * sizeof_off_t

-- GDBM_MAX_DIR_HALF
abbrev pub max_dir_half : ℕ
max_dir_half = 1073741823

abbrev pub entry : List ℕ → ℕ → ℕ
entry dir i = get_or dir i 0

-- The loop that writes each entry twice.
unfoldable pub double : List ℕ → List ℕ
double [] = []
double (adr ∷ dir) = adr ∷ adr ∷ double dir

-- The directory is doubled if the bucket to be split has as many bits; `none` is
-- GDBM_DIR_OVERFLOW.
unfoldable pub make_room : ℕ → Directory → Option Directory
make_room bucket_bits d =
    if d.dir_bits == bucket_bits
    then (if leb max_dir_half (dir_size d)
        then none
        else some (record {
          dir_bits = bucket_bits + 1;
          dir = double d.dir;
          bucket_dir = d.bucket_dir * 2;
        }))
    else some d

-- `for (index = start; index < start + count; index++) dbf->dir[index] = adr`
unfoldable pub fill : List ℕ → ℕ → ℕ → ℕ → List ℕ
fill dir start zero adr = dir
fill dir start (suc count) adr = fill (set dir start adr) (start + 1) count adr

-- `(dbf->bucket_dir >> (dbf->header->dir_bits - new_bits)) | 1`
unfoldable pub upper_half : Directory → ℕ → ℕ
upper_half d new_bits = d.bucket_dir / 2 ^ (d.dir_bits - new_bits) / 2 * 2 + 1

-- The entries of the bucket that was split: the lower half goes to `adr_0`, the upper to `adr_1`.
unfoldable pub update_directory : Directory → ℕ → ℕ → ℕ → List ℕ
update_directory d new_bits adr_0 adr_1 =
    let width = 2 ^ (d.dir_bits - new_bits) in
    let dir_end = (upper_half d new_bits + 1) * width in
    let dir_start1 = upper_half d new_bits * width in
    let dir_start0 = dir_start1 - (dir_end - dir_start1) in
    fill (fill d.dir dir_start0 (dir_start1 - dir_start0) adr_0) dir_start1 (dir_end - dir_start1)
      adr_1

-- `gdbm_dir_entry_valid_p`, for an index that is not negative.
unfoldable pub dir_entry_valid : ℕ → List ℕ → ℕ → Bool
dir_entry_valid block_size dir dir_index =
    ltb dir_index (length dir) && leb block_size (entry dir dir_index)

-- The loop of `_gdbm_next_bucket_dir`: from the index on, past the entries of the same bucket.
unfoldable pub skip_loop : ℕ → List ℕ → ℕ → ℕ → ℕ
skip_loop zero dir cur bucket_dir = bucket_dir
skip_loop (suc fuel) dir cur bucket_dir =
    let rest = skip_loop fuel dir cur (bucket_dir + 1) in
    if ltb bucket_dir (length dir) && cur == entry dir bucket_dir then rest else bucket_dir

-- The directory's length is enough rounds. The index is an int.
unfoldable pub next_bucket_dir : List ℕ → ℤ → ℕ
next_bucket_dir dir (negsuc n) = length dir
next_bucket_dir dir (pos bucket_dir) =
    if leb (length dir) bucket_dir
    then length dir
    else skip_loop (length dir) dir (entry dir bucket_dir) (bucket_dir + 1)

-- The loop of `gdbm_count`, with `get_bucket` the count of the bucket that `_gdbm_get_bucket` reads
-- at an index, or `none` if it fails, and that of `gdbm_bucket_count`, which reads nothing.
unfoldable pub count_loop : ℕ → (ℕ → Option ℕ) → List ℕ → ℕ → ℕ → Option ℕ
count_loop zero get_bucket dir i count = some count
count_loop (suc fuel) get_bucket dir i count = elim (ltb i (length dir)) [
  | false ↦ some count
  | true ↦ elim (get_bucket i) [
    | none ↦ none
    | some n ↦ count_loop fuel get_bucket dir (next_bucket_dir dir (pos i)) (count + n)
  ]
]

-- How a count ends: with 0 and `*pcount`, with -1 where GDBM_ASSERT_CONSISTENCY sets the error
-- state, or with -1 where `_gdbm_get_bucket` has done so.
pub data CountEnd : Type 0 where
  counted : ℕ → CountEnd
  inconsistent : ErrorState → CountEnd
  unreadable : CountEnd

abbrev pub count_end : Option ℕ → CountEnd
count_end none = unreadable
count_end (some n) = counted n

-- GDBM_ASSERT_CONSISTENCY, and what follows if it passes. The number is the system's `errno`.
abbrev pub if_consistent : ℕ → ErrorState → CountEnd → CountEnd
if_consistent errno error r =
    if error.need_recovery then inconsistent (set_errno errno need_recovery true error) else r

unfoldable pub bucket_count : ℕ → ErrorState → List ℕ → CountEnd
bucket_count errno error dir =
    if_consistent errno error (count_end (count_loop (length dir) (λ i. some 1) dir 0 0))

unfoldable pub gdbm_count : (ℕ → Option ℕ) → ℕ → ErrorState → List ℕ → CountEnd
gdbm_count get_bucket errno error dir =
    if_consistent errno error (count_end (count_loop (length dir) get_bucket dir 0 0))
