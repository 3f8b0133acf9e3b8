-- ===== src/Snapshot.antt =====
-- src/gdbmsync.c: which of two snapshots a database is recovered from.
pub mod Laws
use gdbm.Prelude.{
  ℕ, zero, suc, ◌+◌, ◌-◌, ◌^◌, Bool, true, false, not, Option, none, some, List, ltb, ◌==◌, ◌&&◌,
  ◌||◌, if◌then◌else◌, bytes_eq,
}

-- The bits of `st_mode` that are read.
pub record Mode : Type 0 where
  pub regular : Bool
  pub owner_read : Bool
  pub owner_write : Bool
  pub owner_execute : Bool

-- What `stat` gives of a file.
pub record Stat : Type 0 where
  pub st_mode : Mode
  pub tv_sec : ℕ
  pub tv_nsec : ℕ

-- A snapshot on the disk: its name, what `stat` gives, and the number of synchronisations in the
-- extended header. `none` is a file that `stat` refuses, or one that cannot be opened or has no
-- extended header.
pub record Snapshot : Type 0 where
  pub name : List ℕ
  pub stat : Option Stat
  pub numsync : Option ℕ

-- The constants GDBM_SNAPSHOT_*.
pub data Verdict : Type 0 where
  snapshot_ok : Verdict
  snapshot_bad : Verdict
  snapshot_err : Verdict
  snapshot_same : Verdict
  snapshot_suspicious : Verdict

-- The results of the comparisons, from -2 to 2.
pub data Sign : Type 0 where
  less_by_far : Sign
  less : Sign
  equal : Sign
  greater : Sign
  greater_by_far : Sign

unfoldable pub timespec_cmp : Stat → Stat → Sign
timespec_cmp a b =
    if ltb a.tv_sec b.tv_sec
    then less
    else if ltb b.tv_sec a.tv_sec
    then greater
    else if ltb a.tv_nsec b.tv_nsec
    then less
    else if ltb b.tv_nsec a.tv_nsec
    then greater
    else equal

unfoldable pub check_snapshot_mode : Mode → Bool
check_snapshot_mode mode =
    if not mode.regular
    then false
    else if mode.owner_execute
    then false
    else if mode.owner_read
    then not mode.owner_write
    else mode.owner_write

unfoldable pub stat_snapshot : Snapshot → Option Stat
stat_snapshot f = elim f.stat [
  | none ↦ none
  | some st ↦ if check_snapshot_mode st.st_mode then some st else none
]

-- UINT_MAX
unfoldable pub uint_max : ℕ
uint_max = 2 ^ 32 - 1

unfoldable pub numsync_cmp_of : ℕ → ℕ → Sign
numsync_cmp_of na nb =
    if na == uint_max && nb == 0
    then less
    else if na == 0 && nb == uint_max
    then greater
    else if ltb na nb
    then (if na + 1 == nb then less else less_by_far)
    else if ltb nb na
    then (if na == nb + 1 then greater else greater_by_far)
    else equal

unfoldable pub gdbm_numsync_cmp : Snapshot → Snapshot → Sign
gdbm_numsync_cmp a b = elim a.numsync [
  | none ↦ equal
  | some na ↦ elim b.numsync [ none ↦ equal | some nb ↦ numsync_cmp_of na nb ]
]

-- The last of the tests, and the one by the numbers of synchronisations.
unfoldable pub select_by_time : Snapshot → Snapshot → Stat → Stat → Verdict × Option (List ℕ)
select_by_time even odd st_even st_odd = elim (timespec_cmp st_even st_odd) [
  | less ↦ (snapshot_ok, some odd.name)
  | greater ↦ (snapshot_ok, some even.name)
  | _ ↦ (snapshot_same, none)
]

unfoldable pub select_readable : Snapshot → Snapshot → Stat → Stat → Verdict × Option (List ℕ)
select_readable even odd st_even st_odd = elim (gdbm_numsync_cmp even odd) [
  | less ↦ (snapshot_ok, some odd.name)
  | less_by_far ↦ (snapshot_suspicious, none)
  | greater ↦ (snapshot_ok, some even.name)
  | greater_by_far ↦ (snapshot_suspicious, none)
  | equal ↦ select_by_time even odd st_even st_odd
]

-- The verdict, and the name that is stored in `*ret`. The arguments are no null pointers.
unfoldable pub gdbm_latest_snapshot : Snapshot → Snapshot → Verdict × Option (List ℕ)
gdbm_latest_snapshot even odd =
    if bytes_eq even.name odd.name then (snapshot_err, none) else elim (stat_snapshot even) [
      | none ↦ (snapshot_err, none)
      | some st_even ↦ elim (stat_snapshot odd) [
        | none ↦ (snapshot_err, none)
        | some st_odd ↦
            if st_even.st_mode.owner_read
            then (if not st_odd.st_mode.owner_read
                then (snapshot_ok, some even.name)
                else select_readable even odd st_even st_odd)
            else if st_odd.st_mode.owner_read
            then (snapshot_ok, some odd.name)
            else (snapshot_bad, none)
      ]
    ]
