-- ===== src/Directory/Walk.antt =====
-- src/recover.c: the walk from one bucket of the directory to the next.
use gdbm.Prelude.{
  ℕ, zero, suc, ◌+◌, ◌≤◌, ◌<◌, ◌≡◌, ◌≢◌, ◌⊎◌, inl, inr, refl, List, ltb, leb, ◌==◌, length,
  Bool-cases, arith,
}
use gdbm.Prelude.Int.{ℤ, pos, negsuc, ◌≤ℤ◌}
use gdbm.Directory.{entry, skip_loop, next_bucket_dir}

-- The walk from `start` ends at r: the entries between are those of one bucket, and r is the end or
-- belongs to another one.
abbrev pub IsNext : List ℕ → ℕ → ℕ → ℕ → Type 0
IsNext dir cur start r =
    (start ≤ r)
    × (r ≤ length dir)
    × ((j : ℕ) → start ≤ j → j < r → entry dir j ≡ cur)
    × ((r ≡ length dir) ⊎ (entry dir r ≢ cur))

pub skip_loop_lem :
    (fuel : ℕ) (dir : List ℕ) (cur i : ℕ)
    → i ≤ length dir
    → length dir ≤ i + fuel
    → IsNext dir cur i (skip_loop fuel dir cur i)
unfolding skip_loop
skip_loop_lem zero dir cur i le f =
    (omega arith, le, (λ j l k. absurd (omega arith)), inl (omega arith))
skip_loop_lem (suc fuel) dir cur i le f = elim (Bool-cases (ltb i (length dir))) [
  | inr end ↦ rw end (omega arith, le, (λ j l k. absurd (omega arith)), inl (ground arith))
  | inl inside ↦ elim (Bool-cases (cur == entry dir i)) [
    | inr other ↦
        rw (inside, other)
          (omega arith, le, (λ j l k. absurd (omega arith)), inr (λ e. ground arith))
    | inl same ↦
        let ih = skip_loop_lem fuel dir cur (i + 1) (ground arith) (omega arith) in
        rw (inside, same)
          (
            omega (arith, ih.0),
            ih.1,
            (λ j l k. elim (Bool-cases (j == i)) [
              | inl e ↦ (let q : j ≡ i = ground arith in rw q (ground arith))
              | inr n ↦ ih.2 j (ground arith) k
            ]),
            ih.3,
          )
  ]
]

-- From an index in the directory, `_gdbm_next_bucket_dir` goes forward, to the end or to the first
-- entry that holds another address: all the entries passed hold the address of the first. From an
-- index that is negative or past the end it gives the end.
pub next_bucket_dir-IsNext :
    (dir : List ℕ) (index : ℤ)
    → ((i : ℕ) × (index ≡ pos i)
        × (i < length dir)
        × (i < next_bucket_dir dir index)
        × IsNext dir (entry dir i) i (next_bucket_dir dir index))
      ⊎ (((index ≤ℤ negsuc 0) ⊎ (pos (length dir) ≤ℤ index))
          × (next_bucket_dir dir index ≡ length dir))
unfolding next_bucket_dir
next_bucket_dir-IsNext dir (negsuc n) = inr (inl (omega arith), refl)
next_bucket_dir-IsNext dir (pos i) = elim (Bool-cases (leb (length dir) i)) [
  | inl past ↦ rw past (inr (inr (ground arith), refl))
  | inr inside ↦
      let lt : i < length dir = ground arith in
      let s = skip_loop_lem (length dir) dir (entry dir i) (i + 1) (omega arith) (omega arith) in
      rw inside (
        inl (
          i,
          refl,
          lt,
          omega (arith, s.0),
          (
            omega (arith, s.0),
            s.1,
            (λ j l k. elim (Bool-cases (j == i)) [
              | inl e ↦ (let q : j ≡ i = ground arith in rw q refl)
              | inr n ↦ s.2 j (ground arith) k
            ]),
            s.3,
          ),
        ))
]
