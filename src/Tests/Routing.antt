-- ===== src/Tests/Routing.antt =====
-- A directory of four entries, of which the last two lead to one bucket with one bit.
use gdbm.Prelude.{
  ℕ, ◌%◌, ◌<◌, ◌≡◌, ◌⊎◌, refl, Bool, true, false, ◌+◌, Option, none, some, List, [], ◌∷◌, ◌==◌,
  if◌then◌else◌, length, arith,
}
use gdbm.Prelude.Int.{pos, negsuc, ◌≤ℤ◌}
use gdbm.Errno.{ErrorState, no_error, need_recovery, set_errno}
use gdbm.Hash.{bucket_dir}
use gdbm.Directory.{
  Directory, entry, double, make_room, fill, upper_half, update_directory, skip_loop,
  next_bucket_dir, count_loop, gdbm_count, bucket_count, counted, inconsistent, unreadable,
  count_end,
}
use gdbm.Directory.Split.{split_directory_routes}
use gdbm.Directory.Count.{sum_runs, runs, gdbm_count_lem}
use gdbm.Directory.Walk.{IsNext, next_bucket_dir-IsNext}

abbrev addresses : List ℕ
addresses = 100 ∷ 200 ∷ 300 ∷ 300 ∷ []

-- The current bucket is the third; 1610612736 is 3 * 2 ^ 29.
abbrev directory : Directory
directory = record { dir_bits = 2; dir = addresses; bucket_dir = 3 }

index : 3 ≡ bucket_dir 2 1610612736
unfolding bucket_dir
index = refl

room : make_room 1 directory ≡ some directory
unfolding make_room
room = refl

split_directory_routes_example :
    entry (update_directory directory 2 400 500) (bucket_dir 2 1073741824) ≡ (
      if bucket_dir 1 1073741824 == bucket_dir 1 1610612736
      then (if bucket_dir 2 1073741824 % 2 == 1 then 500 else 400)
      else entry addresses (bucket_dir 2 1073741824))
split_directory_routes_example =
    split_directory_routes directory directory 1 400 500 1610612736 1073741824 (omega arith)
      (omega arith) (omega arith) refl (omega arith) index room

after_split : update_directory directory 2 400 500 ≡ 100 ∷ 200 ∷ 400 ∷ 500 ∷ []
unfolding update_directory upper_half fill
after_split = refl

-- A bucket with as many bits as the directory doubles it.
doubled :
    make_room 2 directory
    ≡ some (record {
      dir_bits = 3;
      dir = 100 ∷ 100 ∷ 200 ∷ 200 ∷ 300 ∷ 300 ∷ 300 ∷ 300 ∷ [];
      bucket_dir = 6;
    })
unfolding make_room double
doubled = refl

next_bucket_dir-IsNext_example :
    ((i : ℕ) × (pos 2 ≡ pos i)
      × (i < length addresses)
      × (i < next_bucket_dir addresses (pos 2))
      × IsNext addresses (entry addresses i) i (next_bucket_dir addresses (pos 2)))
    ⊎ (((pos 2 ≤ℤ negsuc 0) ⊎ (pos (length addresses) ≤ℤ pos 2))
        × (next_bucket_dir addresses (pos 2) ≡ length addresses))
next_bucket_dir-IsNext_example = next_bucket_dir-IsNext addresses (pos 2)

-- The error state of an open database that needs recovery, or not.
abbrev errors : Bool → ErrorState
errors broken = record {
  last_error = no_error;
  last_syserror = 0;
  last_errstr = none;
  need_recovery = broken;
}

three_buckets : bucket_count 0 (errors false) addresses ≡ counted 3
unfolding bucket_count count_loop next_bucket_dir skip_loop
three_buckets = refl

-- The counts of the buckets at the indexes; the one at 3 is never asked for.
abbrev bucket_at : ℕ → Option ℕ
bucket_at i = if i == 3 then none else some (i + 5)

three_counts : gdbm_count bucket_at 0 (errors false) addresses ≡ counted 18
unfolding gdbm_count count_loop next_bucket_dir skip_loop
three_counts = refl

third_unreadable :
    gdbm_count (λ i. if i == 2 then none else some 1) 0 (errors false) addresses ≡ unreadable
unfolding gdbm_count count_loop next_bucket_dir skip_loop
third_unreadable = refl

gdbm_count_lem_example :
    (((errors false).need_recovery ≡ true)
      × (bucket_count 0 (errors false) addresses
          ≡ inconsistent (set_errno 0 need_recovery true (errors false)))
      × (gdbm_count bucket_at 0 (errors false) addresses
          ≡ inconsistent (set_errno 0 need_recovery true (errors false))))
    ⊎ (((errors false).need_recovery ≡ false)
        × (bucket_count 0 (errors false) addresses ≡ counted (runs addresses))
        × (gdbm_count bucket_at 0 (errors false) addresses
            ≡ count_end (sum_runs bucket_at 0 addresses)))
gdbm_count_lem_example = gdbm_count_lem bucket_at 0 (errors false) addresses
