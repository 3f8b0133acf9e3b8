-- ===== src/Snapshot/Laws.antt =====
-- src/gdbmsync.c: what the choice of a snapshot is worth.
use gdbm.Prelude.{
  ℕ, ◌+◌, ◌%◌, ◌^◌, ◌<◌, ◌≡◌, ◌⊎◌, inl, inr, true, false, not, none, some, List, bytes_eq_comm,
  arith, Option-cases, Bool-cases,
}
use gdbm.Snapshot.{
  Stat, Snapshot, snapshot_ok, snapshot_same, snapshot_suspicious, Sign, less_by_far, less, equal,
  greater, greater_by_far, timespec_cmp, check_snapshot_mode, stat_snapshot, uint_max,
  numsync_cmp_of, gdbm_numsync_cmp, select_by_time, select_readable, gdbm_latest_snapshot,
}

unfoldable pub flip : Sign → Sign
flip less_by_far = greater_by_far
flip less = greater
flip equal = equal
flip greater = less
flip greater_by_far = less_by_far

timespec_cmp-flip : (a b : Stat) → timespec_cmp b a ≡ flip (timespec_cmp a b)
unfolding timespec_cmp flip
timespec_cmp-flip a b = ground arith

numsync_cmp_of-flip : (a b : ℕ) → numsync_cmp_of b a ≡ flip (numsync_cmp_of a b)
unfolding numsync_cmp_of flip uint_max
numsync_cmp_of-flip a b = ground arith

gdbm_numsync_cmp-flip : (a b : Snapshot) → gdbm_numsync_cmp b a ≡ flip (gdbm_numsync_cmp a b)
unfolding gdbm_numsync_cmp flip
gdbm_numsync_cmp-flip a b = elim (Option-cases a.numsync) [
  | inl n ↦ ground arith
  | inr m ↦ elim (Option-cases b.numsync) [
    | inl n ↦ ground arith
    | inr k ↦ ground (arith, numsync_cmp_of-flip m.0 k.0)
  ]
]

select_by_time_swap :
    (a b : Snapshot) (sa sb : Stat) → select_by_time b a sb sa ≡ select_by_time a b sa sb
unfolding select_by_time flip
select_by_time_swap a b sa sb = ground (arith, timespec_cmp-flip sa sb)

select_readable_swap :
    (a b : Snapshot) (sa sb : Stat) → select_readable b a sb sa ≡ select_readable a b sa sb
unfolding select_readable flip
select_readable_swap a b sa sb =
    ground (arith, gdbm_numsync_cmp-flip a b, select_by_time_swap a b sa sb)

-- The order in which the two snapshots are given changes neither the verdict nor the name that is
-- selected.
pub gdbm_latest_snapshot_swap :
    (even odd : Snapshot) → gdbm_latest_snapshot odd even ≡ gdbm_latest_snapshot even odd
unfolding gdbm_latest_snapshot
gdbm_latest_snapshot_swap even odd = elim (Option-cases (stat_snapshot even)) [
  | inl e ↦ elim (Option-cases (stat_snapshot odd)) [
    | inl o ↦ ground (arith, bytes_eq_comm even.name odd.name)
    | inr o ↦ ground (arith, bytes_eq_comm even.name odd.name)
  ]
  | inr e ↦ elim (Option-cases (stat_snapshot odd)) [
    | inl o ↦ ground (arith, bytes_eq_comm even.name odd.name)
    | inr o ↦
        ground (arith, bytes_eq_comm even.name odd.name, select_readable_swap even odd e.0 o.0)
  ]
]

-- What makes a file fit to be a snapshot: it is regular, not executable, and either readable or
-- writable by its owner, but not both.
abbrev pub IsComplete : Snapshot → Stat → Type 0
IsComplete f st =
    (f.stat ≡ some st)
    × (st.st_mode.regular ≡ true)
    × (st.st_mode.owner_execute ≡ false)
    × (st.st_mode.owner_write ≡ not st.st_mode.owner_read)

-- The times in the order of the seconds and then the nanoseconds.
abbrev pub Later : Stat → Stat → Type 0
Later a b = (b.tv_sec < a.tv_sec) ⊎ ((b.tv_sec ≡ a.tv_sec) × (b.tv_nsec < a.tv_nsec))

-- The next number of synchronisations, modulo 2 ^ 32.
abbrev pub Follows : Snapshot → Snapshot → Type 0
Follows a b = (m n : ℕ) × (a.numsync ≡ some m) × (b.numsync ≡ some n) × (m ≡ (n + 1) % 2 ^ 32)

-- The numbers of synchronisations tell nothing.
abbrev pub NoOrder : Snapshot → Snapshot → Type 0
NoOrder a b =
    (a.numsync ≡ none)
    ⊎ (b.numsync ≡ none)
    ⊎ ((m : ℕ) × (a.numsync ≡ some m) × (b.numsync ≡ some m))

abbrev pub IsNewer : Snapshot → Snapshot → Type 0
IsNewer a b =
    (sa sb : Stat) × IsComplete a sa
    × IsComplete b sb
    × (sa.st_mode.owner_read ≡ true)
    × ((sb.st_mode.owner_read ≡ false) ⊎ Follows a b ⊎ (NoOrder a b × Later sa sb))

stat_snapshot_lem : (f : Snapshot) (st : Stat) → stat_snapshot f ≡ some st → IsComplete f st
unfolding stat_snapshot check_snapshot_mode
stat_snapshot_lem f st h = elim (Option-cases f.stat) [
  | inl n ↦ absurd (ground arith)
  | inr s ↦ ground arith
]

timespec_cmp_lem :
    (a b : Stat)
    → ((timespec_cmp a b ≡ greater) × Later a b)
      ⊎ ((timespec_cmp a b ≡ less) × Later b a)
      ⊎ ((timespec_cmp a b ≡ equal) × (a.tv_sec ≡ b.tv_sec) × (a.tv_nsec ≡ b.tv_nsec))
unfolding timespec_cmp
timespec_cmp_lem a b = ground arith

numsync_cmp_of_lem :
    (m n : ℕ)
    → m < 2 ^ 32
    → n < 2 ^ 32
    → ((numsync_cmp_of m n ≡ greater) × (m ≡ (n + 1) % 2 ^ 32))
      ⊎ ((numsync_cmp_of m n ≡ less) × (n ≡ (m + 1) % 2 ^ 32))
      ⊎ ((numsync_cmp_of m n ≡ equal) × (m ≡ n))
      ⊎ (numsync_cmp_of m n ≡ less_by_far)
      ⊎ (numsync_cmp_of m n ≡ greater_by_far)
unfolding numsync_cmp_of uint_max
numsync_cmp_of_lem m n lm ln = ground arith

-- A number of synchronisations is an unsigned int.
abbrev pub IsUnsigned : Snapshot → Type 0
IsUnsigned f = (n : ℕ) → f.numsync ≡ some n → n < 2 ^ 32

gdbm_numsync_cmp_lem :
    (a b : Snapshot)
    → IsUnsigned a
    → IsUnsigned b
    → ((gdbm_numsync_cmp a b ≡ greater) × Follows a b)
      ⊎ ((gdbm_numsync_cmp a b ≡ less) × Follows b a)
      ⊎ ((gdbm_numsync_cmp a b ≡ equal) × NoOrder a b)
      ⊎ (gdbm_numsync_cmp a b ≡ less_by_far)
      ⊎ (gdbm_numsync_cmp a b ≡ greater_by_far)
unfolding gdbm_numsync_cmp
gdbm_numsync_cmp_lem a b ua ub = elim (Option-cases a.numsync) [
  | inl n ↦ inr (inr (inl (ground arith, inl n)))
  | inr m ↦ elim (Option-cases b.numsync) [
    | inl n ↦ inr (inr (inl (ground arith, inr (inl n))))
    | inr k ↦ elim (numsync_cmp_of_lem m.0 k.0 (ua m.0 m.1) (ub k.0 k.1)) [
      | inl g ↦ inl (rw (gdbm_numsync_cmp, m.1, k.1) g.0, (m.0, k.0, m.1, k.1, g.1))
      | inr (inl l) ↦ inr (inl (rw (gdbm_numsync_cmp, m.1, k.1) l.0, (k.0, m.0, k.1, m.1, l.1)))
      | inr (inr (inl e)) ↦
          inr (inr (inl (rw (gdbm_numsync_cmp, m.1, k.1) e.0, inr (inr (m.0, m.1, rw e.1 k.1)))))
      | inr (inr (inr (inl f))) ↦ inr (inr (inr (inl (rw (gdbm_numsync_cmp, m.1, k.1) f))))
      | inr (inr (inr (inr f))) ↦ inr (inr (inr (inr (rw (gdbm_numsync_cmp, m.1, k.1) f))))
    ]
  ]
]

-- What `select_readable` can answer.
abbrev Selects : Snapshot → Snapshot → Stat → Stat → Type 0
Selects even odd sa sb =
    ((select_readable even odd sa sb ≡ (snapshot_ok, some even.name))
      × (Follows even odd ⊎ (NoOrder even odd × Later sa sb)))
    ⊎ ((select_readable even odd sa sb ≡ (snapshot_ok, some odd.name))
        × (Follows odd even ⊎ (NoOrder odd even × Later sb sa)))
    ⊎ (select_readable even odd sa sb ≡ (snapshot_same, none))
    ⊎ (select_readable even odd sa sb ≡ (snapshot_suspicious, none))

NoOrder-sym : (a b : Snapshot) → NoOrder a b → NoOrder b a
NoOrder-sym a b (inl n) = inr (inl n)
NoOrder-sym a b (inr (inl n)) = inl n
NoOrder-sym a b (inr (inr (m, p, q))) = inr (inr (m, q, p))

select_readable_lem :
    (even odd : Snapshot) (sa sb : Stat) → IsUnsigned even → IsUnsigned odd → Selects even odd sa sb
unfolding select_readable select_by_time
select_readable_lem even odd sa sb ue uo = elim (gdbm_numsync_cmp_lem even odd ue uo) [
  | inl g ↦ inl (ground arith, inl g.1)
  | inr (inl l) ↦ inr (inl (ground arith, inl l.1))
  | inr (inr (inl e)) ↦ elim (timespec_cmp_lem sa sb) [
    | inl t ↦ inl (ground arith, inr (e.1, t.1))
    | inr (inl t) ↦ inr (inl (ground arith, inr (NoOrder-sym even odd e.1, t.1)))
    | inr (inr t) ↦ inr (inr (inl (ground arith)))
  ]
  | inr (inr (inr (inl f))) ↦ inr (inr (inr (ground arith)))
  | inr (inr (inr (inr f))) ↦ inr (inr (inr (ground arith)))
]

-- When the verdict is GDBM_SNAPSHOT_OK, for two snapshots whose numbers of synchronisations are
-- below 2 ^ 32, then both are regular files, not executable, and either readable or writable; the
-- selected one is readable; and the other one is not readable, or its number of synchronisations
-- is the one before modulo 2 ^ 32, or the numbers are the same or not both known and the other's
-- modification time is earlier.
pub gdbm_latest_snapshot_selects :
    (even odd : Snapshot) (name : List ℕ)
    → IsUnsigned even
    → IsUnsigned odd
    → gdbm_latest_snapshot even odd ≡ (snapshot_ok, some name)
    → ((name ≡ even.name) × IsNewer even odd) ⊎ ((name ≡ odd.name) × IsNewer odd even)
unfolding gdbm_latest_snapshot
gdbm_latest_snapshot_selects even odd name ue uo h = elim (Option-cases (stat_snapshot even)) [
  | inl e ↦ absurd (ground arith)
  | inr e ↦ elim (Option-cases (stat_snapshot odd)) [
    | inl o ↦ absurd (ground arith)
    | inr o ↦
        let ce = stat_snapshot_lem even e.0 e.1 in
        let co = stat_snapshot_lem odd o.0 o.1 in
        elim (Bool-cases e.0.st_mode.owner_read) [
          | inl re ↦ elim (Bool-cases o.0.st_mode.owner_read) [
            | inl ro ↦ elim (select_readable_lem even odd e.0 o.0 ue uo) [
              | inl s ↦ inl (ground arith, (e.0, o.0, ce, co, re, inr s.1))
              | inr (inl s) ↦ inr (ground arith, (o.0, e.0, co, ce, ro, inr s.1))
              | inr (inr (inl s)) ↦ absurd (ground arith)
              | inr (inr (inr s)) ↦ absurd (ground arith)
            ]
            | inr ro ↦ inl (ground arith, (e.0, o.0, ce, co, re, inl ro))
          ]
          | inr re ↦ elim (Bool-cases o.0.st_mode.owner_read) [
            | inl ro ↦ inr (ground arith, (o.0, e.0, co, ce, ro, inl re))
            | inr ro ↦ absurd (ground arith)
          ]
        ]
  ]
]
