-- ===== src/Alloc/Valid.antt =====
-- src/falloc.c: the tables stay sorted and within their room when entries move between them.
use gdbm.Prelude.{
  ℕ, zero, suc, ◌+◌, ◌-◌, ◌≤◌, ◌<◌, ◌≡◌, inl, inr, refl, true, Bool-cases, List, [], ◌∷◌, ltb,
  ltb→lt, ◌==◌, ◌&&◌, length, get_or, All, take, arith,
}
use gdbm.Avail.{AvailElem, bucket_avail, no_elem, get_elem, put_av_elem}
use gdbm.Avail.Order.{IsSorted, AtLeast}
use gdbm.Avail.Laws.{put_av_elem-IsSorted, length-put_av_elem-le, get_elem_rest, get_elem_found}
use gdbm.Alloc.{
  Dbf, Outcome, done, failed, out_of_fuel, M, put_bucket, drain_bucket, adjust_bucket_avail,
}

-- The header's block has room for eight entries and no more entries than it has room for, the
-- bucket's table has six at most, and both are sorted.
pub record IsValid (s : Dbf) : Type 0 where
  pub room : 8 ≤ s.avail.size
  pub fits : length s.avail.av_table ≤ s.avail.size
  pub bucket_fits : length s.bucket_table ≤ bucket_avail
  pub sorted : IsSorted s.avail.av_table
  pub bucket_sorted : IsSorted s.bucket_table
  pub block_pos : 0 < s.block_size

-- The call ends, and P holds if it succeeds.
abbrev pub Ends {ℓ} : {A : Type ℓ} → (A → Dbf → Type 0) → Outcome A → Type 0
Ends P (done a s) = P a s
Ends P (failed s) = Unit
Ends P out_of_fuel = ⊥

pub Ends-bind :
    {A B : Type 0} (P : A → Dbf → Type 0) (Q : B → Dbf → Type 0) (o : Outcome A) (f : A → M B)
    → Ends P o
    → ((a : A) (s : Dbf) → P a s → Ends Q (f a s))
    → Ends Q (elim o [ done a s' ↦ f a s' | failed s' ↦ failed s' | out_of_fuel ↦ out_of_fuel ])
Ends-bind P Q (done a s) f h k = k a s h
Ends-bind P Q (failed s) f h k = tt
Ends-bind P Q out_of_fuel f h k = h

pub Ends-mono :
    {A : Type 0} (P Q : A → Dbf → Type 0) (o : Outcome A)
    → Ends P o
    → ((a : A) (s : Dbf) → P a s → Q a s)
    → Ends Q o
Ends-mono P Q (done a s) h k = k a s h
Ends-mono P Q (failed s) h k = tt
Ends-mono P Q out_of_fuel h k = h

-- Valid, with the same room, and at most k entries more in the header's table.
pub record Grows (k : ℕ) (s s' : Dbf) : Type 0 where
  pub valid : IsValid s'
  pub same_room : s'.avail.size ≡ s.avail.size
  pub few : length s'.avail.av_table ≤ length s.avail.av_table + k

take-All :
    (n k : ℕ) (table : List AvailElem) → All (AtLeast n) table → All (AtLeast n) (take k table)
take-All n zero table a = tt
take-All n (suc k) [] a = tt
take-All n (suc k) (e ∷ table) a = (a.0, take-All n k table a.1)

take-IsSorted : (k : ℕ) (table : List AvailElem) → IsSorted table → IsSorted (take k table)
take-IsSorted zero table s = tt
take-IsSorted (suc k) [] s = tt
take-IsSorted (suc k) (e ∷ table) s = (take-All e.av_size k table s.0, take-IsSorted k table s.1)

length-take-le : {A : Type 0} (k : ℕ) (xs : List A) → length (take k xs) ≤ length xs
length-take-le zero xs = omega arith
length-take-le (suc k) [] = omega arith
length-take-le (suc k) (x ∷ xs) = omega (arith, length-take-le k xs)

pub put_bucket-Grows :
    (el : AvailElem) (s : Dbf)
    → IsValid s
    → length s.bucket_table < bucket_avail
    → Ends (λ _ s'. Grows 0 s s') (put_bucket el s)
unfolding put_bucket
put_bucket-Grows el s v h = record {
  valid = record {
    room = v.room;
    fits = v.fits;
    bucket_fits =
        omega (arith, length-put_av_elem-le el s.bucket_table s.coalesce_blocks v.bucket_sorted);
    sorted = v.sorted;
    bucket_sorted = put_av_elem-IsSorted el s.bucket_table s.coalesce_blocks v.bucket_sorted;
    block_pos = v.block_pos;
  };
  same_room = refl;
  few = omega arith;
}

drain_bucket-Grows :
    (fuel : ℕ) (s : Dbf)
    → IsValid s
    → Ends (λ _ s'. Grows (length s.bucket_table - 4) s s') (drain_bucket fuel s)
unfolding drain_bucket
drain_bucket-Grows zero s v = record { valid = v; same_room = refl; few = omega arith }
drain_bucket-Grows (suc fuel) s v =
    elim (Bool-cases
      (ltb 4 (length s.bucket_table) && ltb (length s.avail.av_table) s.avail.size)) [
        | inr n ↦ rw (n, drain_bucket) (record { valid = v; same_room = refl; few = omega arith })
        | inl y ↦
            let r = get_elem 0 s.bucket_table in
            let t : Dbf = record s {
              bucket_table = r.1;
              avail = record s.avail {
                av_table = put_av_elem r.0 s.avail.av_table s.coalesce_blocks;
              };
              bucket_changed = true;
            } in
            elim (Bool-cases (r.0.av_size == 0)) [
              | inl z ↦ rw (y, z, drain_bucket) tt
              | inr nz ↦
                  let found = get_elem_found 0 s.bucket_table v.bucket_sorted (ground arith) in
                  let tv : IsValid t = record {
                    room = v.room;
                    fits = omega (
                      arith,
                      length-put_av_elem-le r.0 s.avail.av_table s.coalesce_blocks v.sorted,
                      less y,
                    );
                    bucket_fits = omega (arith, v.bucket_fits);
                    sorted = put_av_elem-IsSorted r.0 s.avail.av_table s.coalesce_blocks v.sorted;
                    bucket_sorted = (get_elem_rest 0 s.bucket_table v.bucket_sorted).0;
                    block_pos = v.block_pos;
                  } in
                  rw (y, nz, drain_bucket)
                    (Ends-mono (λ _ s'. Grows (length t.bucket_table - 4) t s') _
                      (drain_bucket fuel t) (drain_bucket-Grows fuel t tv)
                      (λ _ s' g. record {
                        valid = g.valid;
                        same_room = g.same_room;
                        few = omega (
                          arith,
                          g.few,
                          found,
                          more y,
                          length-put_av_elem-le r.0 s.avail.av_table s.coalesce_blocks v.sorted,
                        );
                      }))
            ]
      ]
  where
    less :
        (ltb 4 (length s.bucket_table) && ltb (length s.avail.av_table) s.avail.size) ≡ true
        → length s.avail.av_table < s.avail.size
    less y = ground arith

    more :
        (ltb 4 (length s.bucket_table) && ltb (length s.avail.av_table) s.avail.size) ≡ true
        → 4 < length s.bucket_table
    more y = ground arith

pub adjust_bucket_avail-Grows :
    (s : Dbf) → IsValid s → Ends (λ _ s'. Grows 2 s s') (adjust_bucket_avail s)
unfolding adjust_bucket_avail
adjust_bucket_avail-Grows s v =
    let n = length s.avail.av_table in
    let last = get_or s.avail.av_table (n - 1) no_elem in
    elim (Bool-cases (ltb (length s.bucket_table) 2)) [
      | inl small ↦ elim (Bool-cases (ltb 0 n)) [
        | inl some_left ↦
            rw (small, some_left)
              (record {
                valid = record {
                  room = v.room;
                  fits = omega (arith, v.fits, length-take-le (n - 1) s.avail.av_table);
                  bucket_fits = omega (
                    arith,
                    ltb→lt _ _ small,
                    length-put_av_elem-le last s.bucket_table s.coalesce_blocks v.bucket_sorted,
                  );
                  sorted = take-IsSorted (n - 1) s.avail.av_table v.sorted;
                  bucket_sorted =
                      put_av_elem-IsSorted last s.bucket_table s.coalesce_blocks v.bucket_sorted;
                  block_pos = v.block_pos;
                };
                same_room = refl;
                few = omega (arith, length-take-le (n - 1) s.avail.av_table);
              })
        | inr none_left ↦
            rw (small, none_left) (record { valid = v; same_room = refl; few = omega arith })
      ]
      | inr large ↦ rw large (
          Ends-mono (λ _ s'. Grows (length s.bucket_table - 4) s s') _
            (drain_bucket (length s.bucket_table) s)
            (drain_bucket-Grows (length s.bucket_table) s v)
            (λ _ s' g. record {
              valid = g.valid;
              same_room = g.same_room;
              few = omega (arith, g.few, v.bucket_fits);
            }))
    ]
