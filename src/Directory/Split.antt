-- ===== src/Directory/Split.antt =====
-- src/bucket.c: where the directory leads each hash after a bucket was split.
use gdbm.Prelude.{
  ℕ, suc, ◌+◌, ◌-◌, ◌*◌, ◌/◌, ◌%◌, ◌^◌, ◌≤◌, ◌<◌, ◌≡◌, inl, inr, refl, some, List, ltb, leb, ◌==◌,
  ◌&&◌, if◌then◌else◌, length, Bool-cases, some_inj, ap, sym, ◌∙◌, arith,
}
use mathlib.Core.Path.{subst}
use mathlib.Core.Logic.{◌↔◌}
use native.Mathlib.Nat.{div-lt_iff_lt-mul, div-div-eq-div-mul, mul-le-mul_right, pow-suc}
use gdbm.Prelude.Powers.{pow-add, pow_pos}
use gdbm.Hash.{bucket_dir, hash_bits}
use gdbm.Hash.Bounds.{bucket_dir-lt, bucket_dir-half}
use gdbm.Directory.{
  Directory, dir_size, max_dir_half, entry, double, make_room, fill, upper_half, update_directory,
}
use gdbm.Directory.Fill.{length-double, entry-double, length-fill, entry-fill}

-- A shift of an index gives the index with fewer bits.
pub bucket_dir_shift :
    (dir_bits bits hash : ℕ)
    → bits ≤ dir_bits
    → dir_bits ≤ hash_bits
    → bucket_dir dir_bits hash / 2 ^ (dir_bits - bits) ≡ bucket_dir bits hash
unfolding bucket_dir
bucket_dir_shift dir_bits bits hash h k =
    div-div-eq-div-mul hash (2 ^ (hash_bits - dir_bits)) (2 ^ (dir_bits - bits))
    ∙ ap (λ n. hash / n)
        (sym (pow-add (hash_bits - dir_bits) (dir_bits - bits)) ∙ ap (λ n. 2 ^ n) (omega arith))

range_lem :
    (lo hi i a s : ℕ)
    → (a < s) ↔ (i < lo)
    → (a < s + 1) ↔ (i < hi)
    → lo ≤ hi
    → (leb lo i && ltb i (lo + (hi - lo))) ≡ (a == s)
range_lem lo hi i a s lower upper le = ground arith

-- A range of `width` indices, from a multiple on.
in_range :
    (width s i : ℕ)
    → 0 < width
    → (leb (s * width) i && ltb i (s * width + ((s + 1) * width - s * width))) ≡ ((i / width) == s)
in_range width s i pos =
    range_lem (s * width) ((s + 1) * width) i (i / width) s (div-lt_iff_lt-mul pos)
      (div-lt_iff_lt-mul pos) (mul-le-mul_right width (omega arith))

halves :
    (a a0 x y z : ℕ)
    → (if a == a0 / 2 * 2 + 1 then x else (if a == a0 / 2 * 2 then y else z))
      ≡ (if a / 2 == a0 / 2 then (if a % 2 == 1 then x else y) else z)
halves a a0 x y z = ground arith

-- The directory with its two ranges written, at an index whose leading bits are `a`, where those of
-- the split bucket are `a0`.
two_ranges :
    (width a0 adr_0 adr_1 i : ℕ) (dir : List ℕ)
    → 0 < width
    → (a0 / 2 * 2 + 1 + 1) * width ≤ length dir
    → let s = a0 / 2 * 2 + 1 in
      let lower = s * width - ((s + 1) * width - s * width) in
      entry
        (fill
          (fill dir lower (s * width - lower) adr_0)
          (s * width)
          ((s + 1) * width - s * width)
          adr_1)
        i
      ≡ (if (i / width) / 2 == a0 / 2
          then (if (i / width) % 2 == 1 then adr_1 else adr_0)
          else entry dir i)
two_ranges width a0 adr_0 adr_1 i dir pos fits =
    let s : ℕ = a0 / 2 * 2 + 1 in
    let t : ℕ = a0 / 2 * 2 in
    let sw : s * width ≡ t * width + width = omega arith in
    let tw : (s + 1) * width ≡ t * width + width + width = omega arith in
    let low : s * width - ((s + 1) * width - s * width) ≡ t * width = omega arith in
    let first = entry-fill (s * width - t * width) dir (t * width) adr_0 i (omega arith) in
    let second =
      entry-fill ((s + 1) * width - s * width) (fill dir (t * width) (s * width - t * width) adr_0)
        (s * width) adr_1 i
        (omega (arith, length-fill (s * width - t * width) dir (t * width) adr_0)) in
    let r0 = in_range width t i pos in
    let r1 = in_range width s i pos in
    rw (low, second, r1, first, r0) (halves (i / width) a0 adr_1 adr_0 (entry dir i))

-- Where the update leads each hash, if the current index has the leading bits of `inserted`.
update_directory_routes :
    (d : Directory) (bits adr_0 adr_1 inserted hash : ℕ)
    → suc bits ≤ d.dir_bits
    → d.dir_bits ≤ hash_bits
    → length d.dir ≡ 2 ^ d.dir_bits
    → inserted < 2 ^ 31
    → d.bucket_dir / 2 ^ (d.dir_bits - bits) ≡ bucket_dir bits inserted
    → entry (update_directory d (suc bits) adr_0 adr_1) (bucket_dir d.dir_bits hash) ≡ (
        if bucket_dir bits hash == bucket_dir bits inserted
        then (if bucket_dir (suc bits) hash % 2 == 1 then adr_1 else adr_0)
        else entry d.dir (bucket_dir d.dir_bits hash))
unfolding update_directory upper_half
update_directory_routes d bits adr_0 adr_1 inserted hash h top len small at =
    let width : ℕ = 2 ^ (d.dir_bits - suc bits) in
    let a0 : ℕ = d.bucket_dir / width in
    let q : bucket_dir d.dir_bits hash / width ≡ bucket_dir (suc bits) hash =
      bucket_dir_shift d.dir_bits (suc bits) hash h top in
    let more : d.dir_bits - bits ≡ suc (d.dir_bits - suc bits) = omega arith in
    let p0 : a0 / 2 ≡ bucket_dir bits inserted =
      div-div-eq-div-mul d.bucket_dir width 2
      ∙ ap (λ n. d.bucket_dir / n)
          (sym (pow-suc 2 (d.dir_bits - suc bits)) ∙ ap (λ n. 2 ^ n) (sym more))
      ∙ at in
    let p : bucket_dir (suc bits) hash / 2 ≡ bucket_dir bits hash =
      bucket_dir-half bits hash (omega arith) in
    let fits : (a0 / 2 * 2 + 1 + 1) * width ≤ length d.dir =
      (let e : 2 ^ (suc bits) * width ≡ 2 ^ d.dir_bits =
          sym (pow-add (suc bits) (d.dir_bits - suc bits)) ∙ ap (λ n. 2 ^ n) (omega arith) in
        let low = bucket_dir-lt bits inserted (omega arith) small in
        let few : a0 / 2 * 2 + 1 + 1 ≤ 2 ^ (suc bits) = omega (arith, low, p0, pow-suc 2 bits) in
        let m = mul-le-mul_right width few in omega (arith, m, e, len)) in
    let r =
      two_ranges width a0 adr_0 adr_1 (bucket_dir d.dir_bits hash) d.dir
        (pow_pos (d.dir_bits - suc bits)) fits in
    rw (update_directory, upper_half, sym p0, sym p, sym q) r

-- What `make_room` keeps, so that the update can follow.
abbrev HasRoom : ℕ → Directory → Directory → Type 0
HasRoom bucket_bits d d' =
    (suc bucket_bits ≤ d'.dir_bits)
    × (d'.dir_bits ≤ hash_bits)
    × (length d'.dir ≡ 2 ^ d'.dir_bits)
    × (d'.bucket_dir / 2 ^ (d'.dir_bits - bucket_bits)
        ≡ d.bucket_dir / 2 ^ (d.dir_bits - bucket_bits))
    × ((hash : ℕ)
        → entry d'.dir (bucket_dir d'.dir_bits hash) ≡ entry d.dir (bucket_dir d.dir_bits hash))

doubled_room :
    (d : Directory)
    → d.dir_bits < hash_bits
    → length d.dir ≡ 2 ^ d.dir_bits
    → HasRoom d.dir_bits d
        (record { dir_bits = d.dir_bits + 1; dir = double d.dir; bucket_dir = d.bucket_dir * 2 })
doubled_room d top len =
    let next : d.dir_bits + 1 ≡ suc d.dir_bits = omega arith in
    let one : d.dir_bits + 1 - d.dir_bits ≡ 1 = omega arith in
    let none : d.dir_bits - d.dir_bits ≡ 0 = omega arith in
    (
      omega arith,
      omega arith,
      rw next (omega (arith, length-double d.dir, len, pow-suc 2 d.dir_bits)),
      rw (one, none) (omega arith),
      λ hash.
          entry-double d.dir (bucket_dir (d.dir_bits + 1) hash)
          ∙ ap (λ i. entry d.dir i) (rw next (bucket_dir-half d.dir_bits hash top)),
    )

make_room-HasRoom :
    (d d' : Directory) (bucket_bits : ℕ)
    → bucket_bits ≤ d.dir_bits
    → d.dir_bits ≤ hash_bits
    → bucket_bits < hash_bits
    → length d.dir ≡ 2 ^ d.dir_bits
    → make_room bucket_bits d ≡ some d'
    → HasRoom bucket_bits d d'
unfolding make_room
make_room-HasRoom d d' bucket_bits le top few len h =
    elim (Bool-cases (d.dir_bits == bucket_bits)) [
      | inl full ↦ elim (Bool-cases (leb max_dir_half (dir_size d))) [
        | inl large ↦ absurd (ground arith)
        | inr fits ↦
            let e : d.dir_bits ≡ bucket_bits = ground arith in
            let doubled : ℕ → Directory =
              λ b. record { dir_bits = b + 1; dir = double d.dir; bucket_dir = d.bucket_dir * 2 } in
            let made : make_room bucket_bits d ≡ some (doubled bucket_bits) =
              rw (make_room, full, fits) refl in
            subst (λ t. HasRoom bucket_bits d t) (some_inj (sym made ∙ h))
              (subst (λ b. HasRoom b d (doubled b)) e (doubled_room d (omega arith) len))
      ]
      | inr room ↦
          let made : make_room bucket_bits d ≡ some d = rw (make_room, room) refl in
          subst (λ t. HasRoom bucket_bits d t) (some_inj (sym made ∙ h))
            (ground arith, top, len, refl, λ hash. refl)
    ]

-- The directory of a split, for one of 2 ^ dir_bits entries and at most 31 bits, a bucket to be
-- split of no more bits and 30 at most, and the current index being that of the hash that is
-- inserted. If there is room, for every hash: where its leading bits are those of the split bucket,
-- its next bit leads it to the second new bucket if it is 1 and to the first if it is 0; every
-- other hash is led to the bucket to which the old directory led it.
pub split_directory_routes :
    (d d' : Directory) (bucket_bits adr_0 adr_1 inserted hash : ℕ)
    → bucket_bits ≤ d.dir_bits
    → d.dir_bits ≤ hash_bits
    → bucket_bits < hash_bits
    → length d.dir ≡ 2 ^ d.dir_bits
    → inserted < 2 ^ 31
    → d.bucket_dir ≡ bucket_dir d.dir_bits inserted
    → make_room bucket_bits d ≡ some d'
    → entry (update_directory d' (suc bucket_bits) adr_0 adr_1) (bucket_dir d'.dir_bits hash) ≡ (
        if bucket_dir bucket_bits hash == bucket_dir bucket_bits inserted
        then (if bucket_dir (suc bucket_bits) hash % 2 == 1 then adr_1 else adr_0)
        else entry d.dir (bucket_dir d.dir_bits hash))
split_directory_routes d d' bucket_bits adr_0 adr_1 inserted hash le top few len small at h =
    let r = make_room-HasRoom d d' bucket_bits le top few len h in
    let index : d'.bucket_dir / 2 ^ (d'.dir_bits - bucket_bits) ≡ bucket_dir bucket_bits inserted =
      r.3
      ∙ ap (λ n. n / 2 ^ (d.dir_bits - bucket_bits)) at
      ∙ bucket_dir_shift d.dir_bits bucket_bits inserted le top in
    rw (sym (r.4 hash))
      (update_directory_routes d' bucket_bits adr_0 adr_1 inserted hash r.0 r.1 r.2 small index)
