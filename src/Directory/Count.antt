-- ===== src/Directory/Count.antt =====
-- src/gdbmcount.c: what the counts are.
use gdbm.Prelude.{
  ℕ, zero, suc, ◌+◌, ◌≤◌, ◌<◌, ◌≡◌, inl, inr, refl, List, [], ◌∷◌, ltb, ◌==◌, if◌then◌else◌, length,
  drop, Bool-cases, Option-cases, Option, none, some, true, false, ◌⊎◌, ◌∙◌, arith,
}
use gdbm.Prelude.Int.{pos}
use gdbm.Errno.{ErrorState, need_recovery, set_errno}
use gdbm.Directory.{
  counted, inconsistent, count_end, entry, skip_loop, next_bucket_dir, count_loop, bucket_count,
  gdbm_count,
}
use gdbm.Directory.Walk.{skip_loop_lem}

abbrev add : Option ℕ → Option ℕ → Option ℕ
add none b = none
add (some n) none = none
add (some n) (some m) = some (n + m)

-- The sum over the entries that differ from the one before them, which have indexes from i on.
unfoldable pub sum_changes : (ℕ → Option ℕ) → ℕ → ℕ → List ℕ → Option ℕ
sum_changes value prev i [] = some 0
sum_changes value prev i (x ∷ dir) =
    let rest = sum_changes value x (i + 1) dir in if prev == x then rest else add (value i) rest

-- The sum over the first entry of each run of the same address, or `none` if one has no value.
unfoldable pub sum_runs : (ℕ → Option ℕ) → ℕ → List ℕ → Option ℕ
sum_runs value i [] = some 0
sum_runs value i (x ∷ dir) = add (value i) (sum_changes value x (i + 1) dir)

-- How often an entry differs from the one before it, and the number of runs.
unfoldable pub changes : ℕ → List ℕ → ℕ
changes prev [] = 0
changes prev (x ∷ dir) = (if prev == x then 0 else 1) + changes x dir

unfoldable pub runs : List ℕ → ℕ
runs [] = 0
runs (x ∷ dir) = 1 + changes x dir

drop_end : (dir : List ℕ) (i : ℕ) → length dir ≤ i → drop i dir ≡ []
drop_end [] zero h = refl
drop_end [] (suc i) h = refl
drop_end (x ∷ dir) zero h = absurd (omega arith)
drop_end (x ∷ dir) (suc i) h = drop_end dir i (omega arith)

drop-suc : (dir : List ℕ) (i : ℕ) → i < length dir → drop i dir ≡ entry dir i ∷ drop (suc i) dir
drop-suc [] i h = absurd (omega arith)
drop-suc (x ∷ dir) zero h = refl
drop-suc (x ∷ dir) (suc i) h = drop-suc dir i (omega arith)

drop_inside : (dir : List ℕ) (i : ℕ) → i < length dir → drop i dir ≡ entry dir i ∷ drop (i + 1) dir
drop_inside dir i h = let e : i + 1 ≡ suc i = omega arith in rw e (drop-suc dir i h)

sum_changes-skip :
    (value : ℕ → Option ℕ) (fuel : ℕ) (dir : List ℕ) (cur i : ℕ)
    → length dir ≤ i + fuel
    → let n = skip_loop fuel dir cur i in
      sum_changes value cur i (drop i dir) ≡ sum_runs value n (drop n dir)
unfolding skip_loop sum_changes sum_runs
sum_changes-skip value zero dir cur i f = let e = drop_end dir i (omega arith) in rw e refl
sum_changes-skip value (suc fuel) dir cur i f = elim (Bool-cases (ltb i (length dir))) [
  | inr end ↦ let e = drop_end dir i (ground arith) in rw (end, e) refl
  | inl inside ↦
      let e = drop_inside dir i (ground arith) in
      elim (Bool-cases (cur == entry dir i)) [
        | inr other ↦ rw (inside, other, e) (rw other refl)
        | inl same ↦
            let q : entry dir i ≡ cur = ground arith in
            let ih = sum_changes-skip value fuel dir cur (i + 1) (omega arith) in
            rw (inside, same, e) (rw same (rw q ih))
      ]
]

next_inside :
    (dir : List ℕ) (i : ℕ)
    → i < length dir
    → skip_loop (length dir) dir (entry dir i) (i + 1) ≡ next_bucket_dir dir (pos i)
unfolding next_bucket_dir
next_inside dir i h = ground arith

add-zero : (o : Option ℕ) → add (some 0) o ≡ o
add-zero none = refl
add-zero (some n) = ground arith

add-add : (n m : ℕ) (o : Option ℕ) → add (some (n + m)) o ≡ add (some n) (add (some m) o)
add-add n m none = refl
add-add n m (some k) = ground arith

count_loop_lem :
    (fuel : ℕ) (value : ℕ → Option ℕ) (dir : List ℕ) (i count : ℕ)
    → length dir ≤ i + fuel
    → count_loop fuel value dir i count ≡ add (some count) (sum_runs value i (drop i dir))
unfolding count_loop sum_runs
count_loop_lem zero value dir i count f =
    let e = drop_end dir i (omega arith) in rw e (ground arith)
count_loop_lem (suc fuel) value dir i count f = elim (Bool-cases (ltb i (length dir))) [
  | inr end ↦ let e = drop_end dir i (ground arith) in rw (count_loop, end, e) (ground arith)
  | inl inside ↦
      let e = drop_inside dir i (ground arith) in
      let w = next_inside dir i (ground arith) in
      let n = skip_loop_lem (length dir) dir (entry dir i) (i + 1) (ground arith) (omega arith) in
      let s = sum_changes-skip value (length dir) dir (entry dir i) (i + 1) (omega arith) in
      elim (Option-cases (value i)) [
        | inl unread ↦ rw (count_loop, inside, e) (rw unread refl)
        | inr (k, read) ↦
            let ih =
              count_loop_lem fuel value dir (next_bucket_dir dir (pos i)) (count + k)
                (omega (arith, n.0, w)) in
            rw (count_loop, inside, e) (rw read (rw ih (rw (s, w) (add-add count k _))))
      ]
]

sum_changes-changes :
    (prev i : ℕ) (dir : List ℕ) → sum_changes (λ i. some 1) prev i dir ≡ some (changes prev dir)
unfolding sum_changes changes
sum_changes-changes prev i [] = refl
sum_changes-changes prev i (x ∷ dir) = rw (sum_changes-changes x (i + 1) dir) (ground arith)

sum_runs-runs : (dir : List ℕ) → sum_runs (λ i. some 1) 0 dir ≡ some (runs dir)
unfolding sum_runs runs
sum_runs-runs [] = refl
sum_runs-runs (x ∷ dir) = rw (sum_changes-changes x 1 dir) refl

whole :
    (value : ℕ → Option ℕ) (dir : List ℕ)
    → count_loop (length dir) value dir 0 0 ≡ sum_runs value 0 dir
whole value dir =
    count_loop_lem (length dir) value dir 0 0 (omega arith) ∙ add-zero (sum_runs value 0 dir)

-- For any directory, both counts fail with GDBM_NEED_RECOVERY, which is set as fatal, if the
-- database needs recovery. Otherwise `gdbm_bucket_count` gives the number of the runs of equal
-- entries; `gdbm_count` gives the sum of the counts of the buckets read for the first entry of each
-- run, or fails if one of these cannot be read.
pub gdbm_count_lem :
    (get_bucket : ℕ → Option ℕ) (errno : ℕ) (error : ErrorState) (dir : List ℕ)
    → let refusal = inconsistent (set_errno errno need_recovery true error) in
      ((error.need_recovery ≡ true)
        × (bucket_count errno error dir ≡ refusal)
        × (gdbm_count get_bucket errno error dir ≡ refusal))
      ⊎ ((error.need_recovery ≡ false)
          × (bucket_count errno error dir ≡ counted (runs dir))
          × (gdbm_count get_bucket errno error dir ≡ count_end (sum_runs get_bucket 0 dir)))
unfolding bucket_count gdbm_count
gdbm_count_lem get_bucket errno error dir = elim (Bool-cases error.need_recovery) [
  | inl broken ↦ inl (broken, ground arith, ground arith)
  | inr sound ↦ inr (
    sound,
    rw (sound, bucket_count) (rw (whole (λ i. some 1) dir ∙ sum_runs-runs dir) refl),
    rw (sound, gdbm_count) (rw (whole get_bucket dir) refl),
  )
]
