-- ===== src/Header/Sizes.antt =====
-- src/gdbmopen.c: the size of a new directory.
use gdbm.Prelude.{
  ℕ, zero, suc, ◌+◌, ◌*◌, ◌^◌, ◌≤◌, ◌<◌, ◌≡◌, ◌⊎◌, inl, inr, refl, true, ltb, if◌then◌else◌,
  Bool-cases, arith,
}
use native.Mathlib.Nat.{pow-suc, pow-le-pow_right}
use gdbm.Header.{size_loop, compute_directory_size, int_max_half}

-- A size that the loop can have.
abbrev pub IsSize : ℕ → ℕ × ℕ → Type 0
IsSize block (size, bits) = (size ≡ 8 * 2 ^ bits) × (3 ≤ bits) × ((bits ≡ 3) ⊎ (size < 2 * block))

step_size : (size bits : ℕ) → size ≡ 8 * 2 ^ bits → size * 2 ≡ 8 * 2 ^ (bits + 1)
step_size size bits e =
    let p : bits + 1 ≡ suc bits = omega arith in rw (p, pow-suc 2 bits) (omega arith)

few_bits : (k size bits : ℕ) → size ≡ 8 * 2 ^ bits → size < 8 * 2 ^ k → bits < k
few_bits k size bits e lt = elim (Bool-cases (ltb bits k)) [
  | inl h ↦ ground arith
  | inr h ↦
      let le : k ≤ bits = ground arith in
      let p : 2 ^ k ≤ 2 ^ bits = pow-le-pow_right (omega arith) le in absurd (omega arith)
]

size_loop_lem :
    (fuel block size bits : ℕ)
    → block < 2 ^ 30
    → bits + fuel ≡ 28
    → IsSize block (size, bits)
    → let r = size_loop fuel block size bits in IsSize block r × (block ≤ r.0) × (r.1 ≤ 27)
unfolding size_loop
size_loop_lem zero block size bits b f s =
    let few = few_bits 28 size bits s.0 in absurd (omega arith)
size_loop_lem (suc fuel) block size bits b f s = elim (Bool-cases (ltb size block)) [
  | inl lt ↦
      let few : bits < 27 = few_bits 27 size bits s.0 (ground arith) in
      let more : ltb bits 28 ≡ true = ground arith in
      rw (lt, more)
        (size_loop_lem fuel block (size * 2) (bits + 1) b (omega arith)
          (step_size size bits s.0, omega arith, inr (ground arith)))
  | inr ge ↦
      let few : bits < 28 = few_bits 28 size bits s.0 (ground arith) in
      rw ge (s, ground arith, omega arith)
]

-- For any block size, the directory's size is 8 * 2 ^ bits bytes, with 3 to 27 bits, so that no
-- doubling leaves the range of an int. It is at least the block size, capped at INT_MAX / 2, and
-- the smallest such size: with one bit less, unless there are 3, it would be smaller than that.
pub compute_directory_size_fits :
    (block_size : ℕ)
    → let block = if ltb int_max_half block_size then int_max_half else block_size in
      let (dir_size, dir_bits) = compute_directory_size block_size in
      (dir_size ≡ 8 * 2 ^ dir_bits)
      × (3 ≤ dir_bits)
      × (dir_bits ≤ 27)
      × (dir_size < 2 ^ 31)
      × (block ≤ dir_size)
      × ((dir_bits ≡ 3) ⊎ (dir_size < 2 * block))
unfolding compute_directory_size
compute_directory_size_fits block_size =
    let block = if ltb int_max_half block_size then int_max_half else block_size in
    let p = size_loop_lem 25 block 64 3 (ground arith) refl (refl, omega arith, inl refl) in
    let most : 2 ^ (size_loop 25 block 64 3).1 ≤ 2 ^ 27 = pow-le-pow_right (omega arith) p.2 in
    (p.0.0, p.0.1, p.2, omega (arith, most), p.1, p.0.2)
