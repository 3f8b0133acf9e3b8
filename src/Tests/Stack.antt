-- ===== src/Tests/Stack.antt =====
-- The walk through a stack of one avail block, and through one that has no end.
use gdbm.Prelude.{
  ℕ, ◌≡◌, ◌⊎◌, refl, true, false, none, some, List, [], ◌∷◌, ◌==◌, if◌then◌else◌, arith, Bool-cases,
  inl, inr, insert_at,
}
use gdbm.Prelude.Int.{pos, ◌+ℤ◌, ◌-ℤ◌}
use gdbm.Errno.{no_error}
use gdbm.Validate.{avail_block_validate, table_valid, table_scan, elem_valid, off_t_sum_ok, sort}
use gdbm.Alloc.{Dbf, done, read_avail_block, call_read}
use gdbm.Alloc.Valid.{Ends}
use gdbm.Traverse.{
  search_loop, off_map_lookup, off_map_expand, traverse_loop, assert_consistency,
  validate_header_avail, gdbm_avail_traverse, gdbm_avail_verify, max_entries,
}
use gdbm.Traverse.Map.{Has, IsPlace, off_map_search}
use gdbm.Traverse.Loop.{IsWithin}
use gdbm.Traverse.Verify.{IsVerified, gdbm_avail_verify_lem}

-- One block at 1024, whose next block is `next`.
abbrev dbf : ℕ → Dbf
dbf next = record {
  block_size = 512;
  bucket_size = 512;
  next_block = 2048;
  avail = record {
    size = 8;
    next_block = 1024;
    av_table = record { av_size = 8; av_adr = 600 } ∷ [];
  };
  bucket_table = [];
  central_free = false;
  coalesce_blocks = false;
  read_write = true;
  header_changed = false;
  bucket_changed = false;
  disk = λ n.
      if n == 1024
      then some (record {
        size = pos 8;
        count = pos 1;
        next_block = next;
        slots = record { av_size = pos 20; av_adr = pos 700 } ∷ [];
      })
      else none;
  answers = [];
  errno = 0;
  error = record {
    last_error = no_error;
    last_syserror = 0;
    last_errstr = none;
    need_recovery = false;
  };
}

abbrev offsets : List ℕ
offsets = 40 ∷ 1024 ∷ 1536 ∷ []

off_map_search_example :
    ((search_loop 3 offsets 1200 0 3 ≡ none) × Has 1200 offsets)
    ⊎ ((r : ℕ) × (search_loop 3 offsets 1200 0 3 ≡ some r) × IsPlace 1200 offsets r)
off_map_search_example = off_map_search offsets 1200 (omega arith)

placed : search_loop 3 offsets 1200 0 3 ≡ some 2
unfolding search_loop
placed = refl

ends-IsWithin : IsWithin (dbf 0) 2048
ends-IsWithin n le = elim (Bool-cases (n == 1024)) [
  | inl e ↦ absurd (ground arith)
  | inr e ↦ rw e refl
]

gdbm_avail_verify_lem_example :
    Ends (λ _ t. IsVerified 40 152 (dbf 0)) (gdbm_avail_verify 2048 40 152 (dbf 0))
gdbm_avail_verify_lem_example =
    gdbm_avail_verify_lem 2048 40 152 (dbf 0) ends-IsWithin (omega arith)

verified : gdbm_avail_verify 3 40 152 (dbf 0) ≡ done tt (dbf 0)
unfolding gdbm_avail_verify gdbm_avail_traverse assert_consistency validate_header_avail
    off_map_lookup off_map_expand search_loop traverse_loop call_read read_avail_block
    avail_block_validate table_valid table_scan elem_valid off_t_sum_ok sort ◌+ℤ◌ ◌-ℤ◌ insert_at
    max_entries
verified = refl
