-- ===== src/Tests/Opening.antt =====
-- A header and two snapshots.
use gdbm.Prelude.{
  ℕ, ◌*◌, ◌^◌, ◌≤◌, ◌<◌, ◌≡◌, ◌⊎◌, inl, refl, true, false, some, List, [], ◌∷◌, bytes_eq, arith,
}
use gdbm.Prelude.Int.{pos, negsuc, ◌+ℤ◌}
use gdbm.Errno.{no_error, need_recovery, bad_header}
use gdbm.Header.{
  FileHeader, size_loop, compute_directory_size, bucket_element_count, check_tables, validate_sized,
  validate_header_std, validate_header, header_avail, magic64, omagic, numsync_magic64,
}
use gdbm.Header.Sizes.{compute_directory_size_fits}
use gdbm.Header.Laws.{IsUsable, validate_header_sound}
use gdbm.Snapshot.{
  Snapshot, snapshot_ok, gdbm_latest_snapshot, select_readable, select_by_time, timespec_cmp,
  check_snapshot_mode, stat_snapshot, gdbm_numsync_cmp, numsync_cmp_of, uint_max,
}
use gdbm.Snapshot.Laws.{
  gdbm_latest_snapshot_swap, gdbm_latest_snapshot_selects, IsUnsigned, IsNewer,
}

compute_directory_size_fits_example :
    let (dir_size, dir_bits) = compute_directory_size 4096 in
    (dir_size ≡ 8 * 2 ^ dir_bits)
    × (3 ≤ dir_bits)
    × (dir_bits ≤ 27)
    × (dir_size < 2 ^ 31)
    × (4096 ≤ dir_size)
    × ((dir_bits ≡ 3) ⊎ (dir_size < 2 * 4096))
compute_directory_size_fits_example = compute_directory_size_fits 4096

directory_of_4096 : compute_directory_size 4096 ≡ (4096, 9)
unfolding compute_directory_size size_loop
directory_of_4096 = refl

abbrev header : FileHeader
header = record {
  header_magic = magic64;
  block_size = pos 512;
  dir = pos 512;
  dir_size = pos 512;
  dir_bits = pos 6;
  bucket_size = pos 512;
  bucket_elems = pos 16;
  next_block = pos 1536;
}

header_passes : validate_header header 1536 ≡ no_error
unfolding validate_header validate_header_std validate_sized check_tables compute_directory_size
    size_loop bucket_element_count ◌+ℤ◌
header_passes = refl

-- The file is longer than the header says.
header_short : validate_header header 2048 ≡ need_recovery
unfolding validate_header validate_header_std validate_sized check_tables compute_directory_size
    size_loop bucket_element_count ◌+ℤ◌
header_short = refl

negative_directory : validate_header (record header { dir_size = negsuc 3 }) 1536 ≡ bad_header
unfolding validate_header validate_header_std validate_sized check_tables compute_directory_size
    size_loop bucket_element_count ◌+ℤ◌
negative_directory = refl

validate_header_sound_example :
    IsUsable header 1536 (header_avail header).0 (validate_header header 1536)
    × ((header.header_magic ≡ omagic)
        ⊎ (header.header_magic ≡ magic64)
        ⊎ (header.header_magic ≡ numsync_magic64))
validate_header_sound_example = validate_header_sound header 1536 (inl header_passes)

abbrev snapshot : ℕ → ℕ → Snapshot
snapshot n count = record {
  name = n ∷ [];
  stat = some (record {
    st_mode = record {
      regular = true;
      owner_read = true;
      owner_write = false;
      owner_execute = false;
    };
    tv_sec = 10;
    tv_nsec = 0;
  });
  numsync = some count;
}

-- The count has just wrapped round.
wrapped : gdbm_latest_snapshot (snapshot 1 4294967295) (snapshot 2 0) ≡ (snapshot_ok, some (2 ∷ []))
unfolding gdbm_latest_snapshot select_readable select_by_time timespec_cmp check_snapshot_mode
    stat_snapshot gdbm_numsync_cmp numsync_cmp_of uint_max bytes_eq
wrapped = refl

gdbm_latest_snapshot_swap_example :
    gdbm_latest_snapshot (snapshot 2 0) (snapshot 1 4294967295)
    ≡ gdbm_latest_snapshot (snapshot 1 4294967295) (snapshot 2 0)
gdbm_latest_snapshot_swap_example = gdbm_latest_snapshot_swap (snapshot 1 4294967295) (snapshot 2 0)

wrapped_count : IsUnsigned (snapshot 1 4294967295)
wrapped_count n h = ground arith

new_count : IsUnsigned (snapshot 2 0)
new_count n h = ground arith

gdbm_latest_snapshot_selects_example :
    ((◌≡◌ {A = List ℕ} (2 ∷ []) (1 ∷ [])) × IsNewer (snapshot 1 4294967295) (snapshot 2 0))
    ⊎ ((◌≡◌ {A = List ℕ} (2 ∷ []) (2 ∷ [])) × IsNewer (snapshot 2 0) (snapshot 1 4294967295))
gdbm_latest_snapshot_selects_example =
    gdbm_latest_snapshot_selects (snapshot 1 4294967295) (snapshot 2 0) (2 ∷ []) wrapped_count
      new_count wrapped
