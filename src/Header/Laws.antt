-- ===== src/Header/Laws.antt =====
-- src/gdbmopen.c: what a header is like that passes the checks.
use gdbm.Prelude.{
  ℕ, ◌+◌, ◌-◌, ◌*◌, ◌≤◌, ◌<◌, ◌≡◌, ◌⊎◌, inl, inr, refl, true, false, leb, ◌==◌, ◌&&◌, ◌||◌,
  Bool-cases, ap, arith,
}
use mathlib.Core.Path.{subst}
use gdbm.Prelude.Int.{ℤ, pos, negsuc, ◌+ℤ◌, ltb_ℤ}
use gdbm.Errno.{GdbmError, no_error, block_size_error, need_recovery, bad_header}
use gdbm.Header.{
  FileHeader, sizeof_file_header, sizeof_ext_header, sizeof_hash_bucket, sizeof_bucket_element,
  sizeof_avail_block, compute_directory_size, bucket_element_count, exceeds, is_nat, nat_of,
  check_tables, validate_sized, validate_header_std, validate_header_numsync, omagic, magic64,
  numsync_magic64, validate_header, header_avail,
}

-- The directory lies in the file, it has at least the size for the block size, and its bits are those for its size.
abbrev pub HasDirectory : FileHeader → ℕ → Type 0
HasDirectory hdr st_size =
    (d s : ℕ) × (hdr.dir ≡ pos d)
    × (hdr.dir_size ≡ pos s)
    × (0 < d)
    × (0 < s)
    × (d + s < st_size)
    × ((compute_directory_size (nat_of hdr.block_size)).0 ≤ s)
    × (hdr.dir_bits ≡ pos (compute_directory_size s).1)

-- A bucket has as many elements as fit into its size, and at least one.
abbrev pub HasBuckets : FileHeader → Type 0
HasBuckets hdr =
    (k n : ℕ) × (hdr.bucket_size ≡ pos k)
    × (hdr.bucket_elems ≡ pos n)
    × (1 ≤ n)
    × (sizeof_hash_bucket + (n - 1) * sizeof_bucket_element ≤ k)
    × (k < sizeof_hash_bucket + n * sizeof_bucket_element)

-- The avail block fills the rest of the first block, and has room for an entry.
abbrev pub HasAvail : FileHeader → ℕ → Type 0
HasAvail hdr front = (b : ℕ) × (hdr.block_size ≡ pos b) × (front + sizeof_avail_block ≤ b)

exceeds_lem : (a : ℤ) (n : ℕ) → exceeds a n ≡ true → (k : ℕ) × (a ≡ pos k) × (n < k)
exceeds_lem (pos k) n h = (k, refl, ground arith)
exceeds_lem (negsuc k) n h = absurd (cc)

is_nat_lem : (a : ℤ) (n : ℕ) → is_nat a n ≡ true → a ≡ pos n
is_nat_lem (pos k) n h = ap pos (ground arith)
is_nat_lem (negsuc k) n h = absurd (cc)

in_file : (a b : ℕ) (n : ℕ) → ltb_ℤ (pos a +ℤ pos b) (pos n) ≡ true → a + b < n
unfolding ◌+ℤ◌
in_file a b n h = ground arith

count_lem :
    (k : ℕ)
    → sizeof_hash_bucket < k
    → (1 ≤ bucket_element_count k)
      × (sizeof_hash_bucket + (bucket_element_count k - 1) * sizeof_bucket_element ≤ k)
      × (k < sizeof_hash_bucket + bucket_element_count k * sizeof_bucket_element)
unfolding bucket_element_count
count_lem k h = omega arith

directory_lem :
    (dir size bits : ℤ) (st_size lowest : ℕ)
    → ltb_ℤ (pos 0) dir ≡ true
    → ltb_ℤ (pos 0) size ≡ true
    → ltb_ℤ (dir +ℤ size) (pos st_size) ≡ true
    → leb lowest (nat_of size) ≡ true
    → is_nat bits (compute_directory_size (nat_of size)).1 ≡ true
    → (d s : ℕ) × (dir ≡ pos d)
      × (size ≡ pos s)
      × (0 < d)
      × (0 < s)
      × (d + s < st_size)
      × (lowest ≤ s)
      × (bits ≡ pos (compute_directory_size s).1)
directory_lem (pos d) (pos s) bits st_size lowest d1 s1 w l b = (
  d,
  s,
  refl,
  refl,
  ground arith,
  ground arith,
  in_file d s st_size w,
  ground arith,
  is_nat_lem bits _ b,
)
directory_lem (negsuc d) size bits st_size lowest d1 s1 w l b = absurd (ground arith)
directory_lem (pos d) (negsuc s) bits st_size lowest d1 s1 w l b = absurd (ground arith)

buckets_lem :
    (size elems : ℤ)
    → exceeds size sizeof_hash_bucket ≡ true
    → is_nat elems (bucket_element_count (nat_of size)) ≡ true
    → (k n : ℕ) × (size ≡ pos k)
      × (elems ≡ pos n)
      × (1 ≤ n)
      × (sizeof_hash_bucket + (n - 1) * sizeof_bucket_element ≤ k)
      × (k < sizeof_hash_bucket + n * sizeof_bucket_element)
buckets_lem (pos k) elems h e =
    let c = count_lem k (ground arith) in
    (k, bucket_element_count k, refl, is_nat_lem elems _ e, c.0, c.1, c.2)
buckets_lem (negsuc k) elems h e = absurd (cc)

checked :
    (hdr : FileHeader) (st_size : ℕ)
    → check_tables hdr st_size ≡ true
    → (ltb_ℤ (pos 0) hdr.dir ≡ true)
      × (ltb_ℤ (pos 0) hdr.dir_size ≡ true)
      × (ltb_ℤ (hdr.dir +ℤ hdr.dir_size) (pos st_size) ≡ true)
      × (leb (compute_directory_size (nat_of hdr.block_size)).0 (nat_of hdr.dir_size) ≡ true)
      × (is_nat hdr.dir_bits (compute_directory_size (nat_of hdr.dir_size)).1 ≡ true)
      × (exceeds hdr.bucket_size sizeof_hash_bucket ≡ true)
      × (is_nat hdr.bucket_elems (bucket_element_count (nat_of hdr.bucket_size)) ≡ true)
unfolding check_tables
checked hdr st_size h = (
  ground arith,
  ground arith,
  ground arith,
  ground arith,
  ground arith,
  ground arith,
  ground arith,
)

-- What passes has tables.
check_tables_lem :
    (hdr : FileHeader) (st_size : ℕ)
    → check_tables hdr st_size ≡ true
    → HasDirectory hdr st_size × HasBuckets hdr
check_tables_lem hdr st_size h =
    let (d1, s1, w, b, n, k, e) = checked hdr st_size h in
    (
      directory_lem hdr.dir hdr.dir_size hdr.dir_bits st_size _ d1 s1 w b n,
      buckets_lem hdr.bucket_size hdr.bucket_elems k e,
    )

avail_lem :
    (size : ℤ) (front : ℕ)
    → (exceeds size front && leb sizeof_avail_block (nat_of size - front)) ≡ true
    → (b : ℕ) × (size ≡ pos b) × (front + sizeof_avail_block ≤ b)
avail_lem (pos b) front h = (b, refl, ground arith)
avail_lem (negsuc b) front h = absurd (ground arith)

-- What a header has that is accepted, and what is known of the end of the file.
abbrev pub IsUsable : FileHeader → ℕ → ℕ → GdbmError → Type 0
IsUsable hdr st_size front e =
    HasAvail hdr front
    × HasDirectory hdr st_size
    × HasBuckets hdr
    × (((e ≡ no_error) × (ltb_ℤ hdr.next_block (pos st_size) ≡ false))
        ⊎ ((e ≡ need_recovery) × (ltb_ℤ hdr.next_block (pos st_size) ≡ true)))

validate_sized_lem :
    (front : ℕ) (hdr : FileHeader) (st_size : ℕ)
    → IsUsable hdr st_size front (validate_sized front hdr st_size)
      ⊎ (validate_sized front hdr st_size ≡ bad_header)
      ⊎ (validate_sized front hdr st_size ≡ block_size_error)
unfolding validate_sized
validate_sized_lem front hdr st_size =
    elim (Bool-cases
      (exceeds hdr.block_size front && leb sizeof_avail_block (nat_of hdr.block_size - front))) [
        | inr n ↦ inr (inr (rw n refl))
        | inl a ↦ elim (Bool-cases (check_tables hdr st_size)) [
          | inr n ↦ inr (inl (rw (a, n) refl))
          | inl t ↦
              let c = check_tables_lem hdr st_size t in
              inl (
                avail_lem hdr.block_size front a,
                c.0,
                c.1,
                elim (Bool-cases (ltb_ℤ hdr.next_block (pos st_size))) [
                  | inl l ↦ inr (rw (a, t, l) refl, l)
                  | inr l ↦ inl (rw (a, t, l) refl, l)
                ],
              )
        ]
      ]

-- An answer that accepts is neither of the two refusals.
abbrev Accepts : GdbmError → Type 0
Accepts e = (e ≡ no_error) ⊎ (e ≡ need_recovery)

accepted :
    (front : ℕ) (hdr : FileHeader) (st_size : ℕ)
    → Accepts (validate_sized front hdr st_size)
    → IsUsable hdr st_size front (validate_sized front hdr st_size)
accepted front hdr st_size h = elim (validate_sized_lem front hdr st_size) [
  | inl u ↦ u
  | inr (inl b) ↦ absurd (ground arith)
  | inr (inr b) ↦ absurd (ground arith)
]

-- A header is accepted, with or without the demand for a recovery, only with a known magic number.
-- Then the avail block behind the header has room for an entry in the first block; the directory
-- lies inside the file, is not smaller than the one for the block size, and its bits are those of
-- its size; and a bucket has exactly the number of elements, at least one, that fit into its size.
-- The recovery is demanded exactly when the next block lies before the end of the file.
pub validate_header_sound :
    (hdr : FileHeader) (st_size : ℕ)
    → (validate_header hdr st_size ≡ no_error) ⊎ (validate_header hdr st_size ≡ need_recovery)
    → IsUsable hdr st_size (header_avail hdr).0 (validate_header hdr st_size)
      × ((hdr.header_magic ≡ omagic)
          ⊎ (hdr.header_magic ≡ magic64)
          ⊎ (hdr.header_magic ≡ numsync_magic64))
unfolding validate_header header_avail validate_header_std validate_header_numsync
validate_header_sound hdr st_size h =
    elim (Bool-cases (hdr.header_magic == omagic || hdr.header_magic == magic64)) [
      | inl std ↦
          let here : validate_header hdr st_size ≡ validate_sized sizeof_file_header hdr st_size =
            rw (std, validate_header) refl in
          let front : (header_avail hdr).0 ≡ sizeof_file_header = ground arith in
          (
            rw (front, here) (accepted sizeof_file_header hdr st_size (subst Accepts here h)),
            ground arith,
          )
      | inr other ↦ elim (Bool-cases (hdr.header_magic == numsync_magic64)) [
        | inl ext ↦
            let all = sizeof_file_header + sizeof_ext_header in
            let here : validate_header hdr st_size ≡ validate_sized all hdr st_size =
              rw (other, ext, validate_header) refl in
            let front : (header_avail hdr).0 ≡ all = rw (ext, header_avail) refl in
            (rw (front, here) (accepted all hdr st_size (subst Accepts here h)), ground arith)
        | inr neither ↦ absurd (ground arith)
      ]
    ]
