-- ===== src/Split/Copy.antt =====
-- src/bucket.c: each new bucket gets the elements of its side, and can be searched.
use gdbm.Prelude.{
  ℕ, zero, suc, ◌+◌, ◌%◌, ◌≤◌, ◌<◌, ◌≡◌, inl, inr, refl, true, none, some, List, [], ◌∷◌, All,
  length, length-set, length-replicate, set, ◌==◌, if◌then◌else◌, Bool-cases, Option-cases, sym,
  ◌∙◌, arith,
}
use mathlib.Core.Path.{subst}
use gdbm.Hash.{bucket_dir}
use gdbm.Bucket.{BucketElement, HashBucket, new_element, new_bucket, at, is_used, free_loop}
use gdbm.Bucket.Cyclic.{dist_self}
use gdbm.Bucket.Probe.{IsProbed, FreeAt, free_loop_lem}
use gdbm.Bucket.Search.{set-IsProbed, new_bucket-IsProbed, used_iff}
use gdbm.Bucket.Weights.{
  weight, weight-full, weight-set_used, weight-new_bucket, weight-cons, weight-empty,
}
use gdbm.Bucket.Gap.{hash_of_used}
use gdbm.Split.{Copied, copied, place_loop, place, new_side, copy_loop, split_elements}

-- A search that comes to an end anyway is the same without its own end.
place_loop-eq :
    (fuel : ℕ) (table : List BucketElement) (start loc r : ℕ)
    → free_loop fuel table start loc ≡ some r
    → place_loop fuel table loc ≡ some r
unfolding free_loop place_loop
place_loop-eq zero table start loc r h = absurd (cc)
place_loop-eq (suc fuel) table start loc r h = elim (Bool-cases (is_used (at table loc))) [
  | inr e ↦ ground arith
  | inl e ↦ elim (Bool-cases (((loc + 1) % length table) == start)) [
    | inl w ↦ absurd (ground arith)
    | inr w ↦
        let same : free_loop fuel table start ((loc + 1) % length table) ≡ some r = ground arith in
        rw (place_loop, e) (place_loop-eq fuel table start ((loc + 1) % length table) r same)
  ]
]

abbrev one : BucketElement → ℕ
one e = 1

-- A bucket that can take an element, and what it counts.
pub record IsBucket (n bits : ℕ) (b : HashBucket) : Type 0 where
  pub len : length b.h_table ≡ n
  pub probed : IsProbed b.h_table
  pub counted : b.count ≡ weight one b.h_table
  pub bits_of : b.bucket_bits ≡ bits

place_lem :
    (n bits : ℕ) (b : HashBucket) (hash : ℕ) (e : BucketElement)
    → 0 < n
    → IsBucket n bits b
    → b.count < n
    → e.hash_value ≡ some hash
    → (b' : HashBucket) × (place b hash e ≡ some b')
      × IsBucket n bits b'
      × ((w : BucketElement → ℕ) → weight w b'.h_table ≡ weight w b.h_table + w e)
      × (b'.count ≡ b.count + 1)
unfolding place
place_lem n bits b hash e pos v room q =
    let table = b.h_table in
    let home = hash % length table in
    let some_room : 0 < length table = subst (λ (m : ℕ). 0 < m) (sym v.len) pos in
    let free =
      free_loop_lem table home (grind arith) (length table) home (grind arith) (omega arith)
        (λ k lk d. absurd (let z = dist_self (length table) home in omega arith)) in
    elim (Option-cases (free_loop (length table) table home home)) [
      | inl full ↦
          let f = subst (FreeAt table home (grind arith)) full free in
          let all : weight one table ≡ length table = weight-full table f in
          absurd (let c = v.counted in let l = v.len in omega arith)
      | inr at_r ↦
          let (r, s) = at_r in
          let f = subst (FreeAt table home (grind arith)) s free in
          let p = place_loop-eq (length table) table home home r s in
          let used = used_iff e hash q in
          let grows = λ (w : BucketElement → ℕ). weight-set_used w table r e f.0 f.1 used in
          (
            record b { h_table = set table r e; count = b.count + 1 },
            rw (place, p) refl,
            record {
              len = length-set table r e ∙ v.len;
              probed = set-IsProbed table r hash e f.0 v.probed q f.2;
              counted = (let g = grows one in let c = v.counted in omega arith);
              bits_of = v.bits_of;
            },
            grows,
            refl,
          )
    ]

-- The side of an element, the last bit of its index in a directory of so many bits, and what the elements of one side weigh.
pub side_of : ℕ → BucketElement → ℕ
side_of bits e = elim e.hash_value [ none ↦ 0 | some hash ↦ bucket_dir bits hash % 2 ]

abbrev pub share : ℕ → ℕ → (BucketElement → ℕ) → BucketElement → ℕ
share bits side w e = if side_of bits e == side then w e else 0

-- Two buckets that have got the elements of their sides.
abbrev pub Shares : ℕ → ℕ → List BucketElement → HashBucket → HashBucket → Copied → Type 0
Shares n bits els b0 b1 r =
    (c0 c1 : HashBucket) × (r ≡ copied c0 c1)
    × IsBucket n bits c0
    × IsBucket n bits c1
    × ((w : BucketElement → ℕ)
        → weight w c0.h_table ≡ weight w b0.h_table + weight (share bits 0 w) els)
    × ((w : BucketElement → ℕ)
        → weight w c1.h_table ≡ weight w b1.h_table + weight (share bits 1 w) els)

new_side-lt : (bits hash : ℕ) → new_side bits hash < 2
unfolding new_side
new_side-lt bits hash = omega arith

-- What one element adds on each side.
share_of :
    (bits side : ℕ) (w : BucketElement → ℕ) (e : BucketElement) (hash : ℕ)
    → e.hash_value ≡ some hash
    → share bits side w e ≡ (if new_side bits hash == side then w e else 0)
unfolding side_of new_side bucket_dir
share_of bits side w e hash q = rw (share, side_of, q) refl

copy_loop_lem :
    (n bits : ℕ) (els : List BucketElement) (b0 b1 : HashBucket)
    → 0 < n
    → IsBucket n bits b0
    → IsBucket n bits b1
    → b0.count + length els ≤ n
    → b1.count + length els ≤ n
    → All (λ e. is_used e ≡ true) els
    → Shares n bits els b0 b1 (copy_loop bits els b0 b1)
unfolding copy_loop
copy_loop_lem n bits [] b0 b1 pos v0 v1 r0 r1 used = (
  b0,
  b1,
  refl,
  v0,
  v1,
  (λ w. omega (arith, weight-empty (share bits 0 w))),
  (λ w. omega (arith, weight-empty (share bits 1 w))),
)
copy_loop_lem n bits (e ∷ els) b0 b1 pos v0 v1 r0 r1 (u, used) =
    let (hash, q, gone) = hash_of_used e u in
    let c0 = λ (w : BucketElement → ℕ). weight-cons (share bits 0 w) e els u in
    let c1 = λ (w : BucketElement → ℕ). weight-cons (share bits 1 w) e els u in
    elim (Bool-cases (new_side bits hash == 0)) [
      | inl zero_side ↦
          let (b, p, v, grows, more) = place_lem n bits b0 hash e pos v0 (omega arith) q in
          let (d0, d1, s, w0, w1, g0, g1) =
            copy_loop_lem n bits els b b1 pos v v1 (omega arith) (omega arith) used in
          (
            d0,
            d1,
            rw (copy_loop, q, zero_side, p) s,
            w0,
            w1,
            (λ w. let x = share_of bits 0 w e hash q in ground (arith, g0 w, grows w, c0 w)),
            (λ w. let x = share_of bits 1 w e hash q in ground (arith, g1 w, c1 w)),
          )
      | inr one_side ↦
          let (b, p, v, grows, more) = place_lem n bits b1 hash e pos v1 (omega arith) q in
          let (d0, d1, s, w0, w1, g0, g1) =
            copy_loop_lem n bits els b0 b pos v0 v (omega arith) (omega arith) used in
          let two = new_side-lt bits hash in
          (
            d0,
            d1,
            rw (copy_loop, q, one_side, p) s,
            w0,
            w1,
            (λ w. let x = share_of bits 0 w e hash q in ground (arith, g0 w, c0 w)),
            (λ w. let x = share_of bits 1 w e hash q in ground (arith, g1 w, grows w, c1 w)),
          )
    ]

new_bucket-IsBucket : (n bits : ℕ) → IsBucket n bits (new_bucket n bits)
unfolding new_bucket
new_bucket-IsBucket n bits = record {
  len = length-replicate n new_element;
  probed = new_bucket-IsProbed n bits;
  counted = sym (weight-new_bucket one n bits);
  bits_of = refl;
}

-- The copying of a bucket with at least one position, whose elements are all used, ends with two
-- new buckets of one bit more and as many positions. Each new bucket counts its elements, every
-- used element in it is reached from its home, and the first one has exactly the elements whose
-- index in a directory of that many bits is even, and the second one exactly those whose index is
-- odd, with whatever is counted of each.
pub split_elements-Shares :
    (bucket : HashBucket)
    → 0 < length bucket.h_table
    → All (λ e. is_used e ≡ true) bucket.h_table
    → (b0 b1 : HashBucket) × (split_elements bucket ≡ copied b0 b1)
      × IsBucket (length bucket.h_table) (bucket.bucket_bits + 1) b0
      × IsBucket (length bucket.h_table) (bucket.bucket_bits + 1) b1
      × ((w : BucketElement → ℕ)
          → weight w b0.h_table ≡ weight (share (bucket.bucket_bits + 1) 0 w) bucket.h_table)
      × ((w : BucketElement → ℕ)
          → weight w b1.h_table ≡ weight (share (bucket.bucket_bits + 1) 1 w) bucket.h_table)
unfolding split_elements
split_elements-Shares bucket pos used =
    let n = length bucket.h_table in
    let bits = bucket.bucket_bits + 1 in
    let fresh = new_bucket-IsBucket n bits in
    let none_yet : (new_bucket n bits).count ≡ 0 = unfold new_bucket in refl in
    let (b0, b1, s, v0, v1, g0, g1) =
      copy_loop_lem n bits bucket.h_table (new_bucket n bits) (new_bucket n bits) pos fresh fresh
        (omega (arith, none_yet)) (omega (arith, none_yet)) used in
    (
      b0,
      b1,
      s,
      v0,
      v1,
      (λ w. omega (arith, g0 w, weight-new_bucket w n bits)),
      (λ w. omega (arith, g1 w, weight-new_bucket w n bits)),
    )
