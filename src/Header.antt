-- ===== src/Header.antt =====
-- The checks of a file's header in src/gdbmopen.c, on a machine with 64-bit offsets: sizeof (int) is
-- 4 and sizeof (off_t) is 8. The header's numbers are signed, as a damaged file may hold any.
pub mod Sizes
pub mod Laws
use gdbm.Prelude.{
  ℕ, zero, suc, ◌+◌, ◌-◌, ◌*◌, ◌/◌, Bool, true, false, Option, none, some, ltb, leb, ◌==◌, ◌&&◌,
  ◌||◌, if◌then◌else◌,
}
use gdbm.Prelude.Int.{ℤ, pos, negsuc, ◌+ℤ◌, ltb_ℤ}
use gdbm.Errno.{
  GdbmError, no_error, block_size_error, need_recovery, bad_header, byte_swapped, bad_file_offset,
  bad_magic_number, file_stat_error, bad_avail,
}

-- `gdbm_file_header`; the magic number is its 32 bits.
pub record FileHeader : Type 0 where
  pub header_magic : ℕ
  pub block_size : ℤ
  pub dir : ℤ
  pub dir_size : ℤ
  pub dir_bits : ℤ
  pub bucket_size : ℤ
  pub bucket_elems : ℤ
  pub next_block : ℤ

abbrev pub sizeof_file_header : ℕ
sizeof_file_header = 40

abbrev pub sizeof_ext_header : ℕ
sizeof_ext_header = 32

abbrev pub sizeof_hash_bucket : ℕ
sizeof_hash_bucket = 136

abbrev pub sizeof_bucket_element : ℕ
sizeof_bucket_element = 24

abbrev pub sizeof_avail_block : ℕ
sizeof_avail_block = 32

-- INT_MAX / 2
abbrev pub int_max_half : ℕ
int_max_half = 1073741823

-- The loop makes 25 rounds at most, from 3 bits to GDBM_HASH_BITS - 3.
unfoldable pub size_loop : ℕ → ℕ → ℕ → ℕ → ℕ × ℕ
size_loop zero block_size dir_size dir_bits = (dir_size, dir_bits)
size_loop (suc fuel) block_size dir_size dir_bits =
    let rest = size_loop fuel block_size (dir_size * 2) (dir_bits + 1) in
    if ltb dir_size block_size && ltb dir_bits 28 then rest else (dir_size, dir_bits)

-- The size of the directory in bytes, and its bits.
unfoldable pub compute_directory_size : ℕ → ℕ × ℕ
compute_directory_size block_size =
    size_loop 25 (if ltb int_max_half block_size then int_max_half else block_size) 64 3

unfoldable pub bucket_element_count : ℕ → ℕ
bucket_element_count bucket_size = (bucket_size - sizeof_hash_bucket) / sizeof_bucket_element + 1

-- Whether a field is greater than 0 and then than a size.
abbrev pub exceeds : ℤ → ℕ → Bool
exceeds a n = elim a [ pos k ↦ ltb 0 k && ltb n k | negsuc k ↦ false ]

abbrev pub is_nat : ℤ → ℕ → Bool
is_nat a n = elim a [ pos k ↦ k == n | negsuc k ↦ false ]

-- The number in a field that was found positive.
abbrev pub nat_of : ℤ → ℕ
nat_of a = elim a [ pos k ↦ k | negsuc k ↦ 0 ]

-- The tests of the directory and the buckets, in the source's order.
unfoldable pub check_tables : FileHeader → ℕ → Bool
check_tables hdr st_size =
    ltb_ℤ (pos 0) hdr.dir
    && ltb_ℤ hdr.dir (pos st_size)
    && ltb_ℤ (pos 0) hdr.dir_size
    && ltb_ℤ (hdr.dir +ℤ hdr.dir_size) (pos st_size)
    && leb (compute_directory_size (nat_of hdr.block_size)).0 (nat_of hdr.dir_size)
    && is_nat hdr.dir_bits (compute_directory_size (nat_of hdr.dir_size)).1
    && exceeds hdr.bucket_size sizeof_hash_bucket
    && is_nat hdr.bucket_elems (bucket_element_count (nat_of hdr.bucket_size))

-- What `validate_header_std` and `validate_header_numsync` do, which differ in the size of what
-- stands in front of the avail block.
unfoldable pub validate_sized : ℕ → FileHeader → ℕ → GdbmError
validate_sized front hdr st_size =
    if exceeds hdr.block_size front && leb sizeof_avail_block (nat_of hdr.block_size - front)
    then (if check_tables hdr st_size
        then (if ltb_ℤ hdr.next_block (pos st_size) then need_recovery else no_error)
        else bad_header)
    else block_size_error

unfoldable pub validate_header_std : FileHeader → ℕ → GdbmError
validate_header_std hdr st_size = validate_sized sizeof_file_header hdr st_size

unfoldable pub validate_header_numsync : FileHeader → ℕ → GdbmError
validate_header_numsync hdr st_size =
    validate_sized (sizeof_file_header + sizeof_ext_header) hdr st_size

-- GDBM_OMAGIC, GDBM_MAGIC and GDBM_NUMSYNC_MAGIC, the numbers of the other width of offsets, and
-- all of them with the bytes swapped.
abbrev pub omagic : ℕ
omagic = 324508366

abbrev pub magic32 : ℕ
magic32 = 324508365

abbrev pub magic64 : ℕ
magic64 = 324508367

abbrev pub numsync_magic32 : ℕ
numsync_magic32 = 324508368

abbrev pub numsync_magic64 : ℕ
numsync_magic64 = 324508369

unfoldable pub is_swapped : ℕ → Bool
is_swapped m =
    m == 3466221331 || m == 3449444115 || m == 3482998547 || m == 3499775763 || m == 3516552979

unfoldable pub validate_header : FileHeader → ℕ → GdbmError
validate_header hdr st_size =
    if hdr.header_magic == omagic || hdr.header_magic == magic64
    then validate_header_std hdr st_size
    else if hdr.header_magic == numsync_magic64
    then validate_header_numsync hdr st_size
    else if is_swapped hdr.header_magic
    then byte_swapped
    else if hdr.header_magic == magic32 || hdr.header_magic == numsync_magic32
    then bad_file_offset
    else bad_magic_number

-- `gdbm_header_avail`: where the avail block starts, and its size, for a known magic number.
unfoldable pub header_avail : FileHeader → ℕ × ℕ
header_avail hdr =
    if hdr.header_magic == numsync_magic64
    then (
      sizeof_file_header + sizeof_ext_header,
      nat_of hdr.block_size - (sizeof_file_header + sizeof_ext_header),
    )
    else (sizeof_file_header, nat_of hdr.block_size - sizeof_file_header)
