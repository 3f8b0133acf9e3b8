-- ===== src/Directory/Fill.antt =====
-- src/bucket.c: what the loops that write the directory leave in it.
use gdbm.Prelude.{
  ℕ, zero, suc, ◌+◌, ◌*◌, ◌/◌, ◌≤◌, ◌<◌, ◌≡◌, refl, List, [], ◌∷◌, ltb, leb, ◌==◌, ◌&&◌,
  if◌then◌else◌, length, length-set, set, arith,
}
use gdbm.Directory.{entry, double, fill}

pub length-double : (dir : List ℕ) → length (double dir) ≡ length dir * 2
unfolding double
length-double [] = refl
length-double (adr ∷ dir) = omega (arith, length-double dir)

pub entry-double : (dir : List ℕ) (i : ℕ) → entry (double dir) i ≡ entry dir (i / 2)
unfolding double
entry-double [] i = refl
entry-double (adr ∷ dir) zero = refl
entry-double (adr ∷ dir) (suc zero) = refl
entry-double (adr ∷ dir) (suc (suc i)) =
    let e : suc (suc i) / 2 ≡ suc (i / 2) = omega arith in rw e (entry-double dir i)

entry-set :
    (dir : List ℕ) (start i adr : ℕ)
    → start < length dir
    → entry (set dir start adr) i ≡ (if i == start then adr else entry dir i)
entry-set [] start i adr h = absurd (omega arith)
entry-set (x ∷ dir) zero zero adr h = refl
entry-set (x ∷ dir) zero (suc i) adr h = ground arith
entry-set (x ∷ dir) (suc start) zero adr h = ground arith
entry-set (x ∷ dir) (suc start) (suc i) adr h =
    ground (arith, entry-set dir start i adr (omega arith))

pub length-fill :
    (count : ℕ) (dir : List ℕ) (start adr : ℕ) → length (fill dir start count adr) ≡ length dir
unfolding fill
length-fill zero dir start adr = refl
length-fill (suc count) dir start adr =
    omega (arith, length-fill count (set dir start adr) (start + 1) adr, length-set dir start adr)

-- The loop writes exactly the range.
pub entry-fill :
    (count : ℕ) (dir : List ℕ) (start adr i : ℕ)
    → start + count ≤ length dir
    → entry (fill dir start count adr) i
      ≡ (if leb start i && ltb i (start + count) then adr else entry dir i)
unfolding fill
entry-fill zero dir start adr i h = ground arith
entry-fill (suc count) dir start adr i h =
    let len = length-set dir start adr in
    ground (
      arith,
      len,
      entry-fill count (set dir start adr) (start + 1) adr i (omega (arith, len)),
      entry-set dir start i adr (omega arith),
    )
