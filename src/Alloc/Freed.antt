-- ===== src/Alloc/Freed.antt =====
-- src/falloc.c: `_gdbm_free` keeps the tables sorted and within their room, if the push of a full
-- header's table does.
use gdbm.Prelude.{
  ℕ, suc, ◌+◌, ◌≤◌, ◌<◌, ◌≡◌, inl, inr, refl, Bool, true, Bool-cases, ◌∙◌, ltb, leb, ltb→lt, ◌==◌,
  ==_iff, ==_false, ◌||◌, length, arith,
}
use gdbm.Avail.{AvailElem, bucket_avail, ignore_size, put_av_elem}
use gdbm.Avail.Laws.{put_av_elem-IsSorted, length-put_av_elem-le}
use gdbm.Alloc.{
  Dbf, M, success, push_avail_block, put_header, put_bucket, store_freed, adjust_if_changed,
  gdbm_free,
}
use gdbm.Alloc.Valid.{
  IsValid, Ends, Ends-bind, Ends-mono, Grows, put_bucket-Grows, adjust_bucket_avail-Grows,
}

abbrev pub HasRoom : Dbf → Type 0
HasRoom s = length s.avail.av_table < s.avail.size

abbrev pub stored : AvailElem → Bool → Dbf → Dbf
stored el can_merge s = record s {
  avail = record s.avail { av_table = put_av_elem el s.avail.av_table can_merge };
  header_changed = true;
}

pub stored-Grows :
    (el : AvailElem) (can_merge : Bool) (s : Dbf)
    → IsValid s
    → HasRoom s
    → Grows 1 s (stored el can_merge s)
stored-Grows el can_merge s v lt =
    let le = length-put_av_elem-le el s.avail.av_table can_merge v.sorted in
    record {
      valid = record {
        room = v.room;
        fits = omega (arith, le);
        bucket_fits = v.bucket_fits;
        sorted = put_av_elem-IsSorted el s.avail.av_table can_merge v.sorted;
        bucket_sorted = v.bucket_sorted;
        block_pos = v.block_pos;
      };
      same_room = refl;
      few = le;
    }

pub Grows-trans : (j k : ℕ) (s t u : Dbf) → Grows j s t → Grows k t u → Grows (j + k) s u
Grows-trans j k s t u g h = record {
  valid = h.valid;
  same_room = h.same_room ∙ g.same_room;
  few = omega (arith, g.few, h.few);
}

pub Grows-mono : (j k : ℕ) (s t : Dbf) → j ≤ k → Grows j s t → Grows k s t
Grows-mono j k s t le g = record {
  valid = g.valid;
  same_room = g.same_room;
  few = omega (arith, g.few);
}

-- Storing in the header's table, given what the push before it does where the table is full.
put_header-Grows :
    (push : M (Unit {0})) (el : AvailElem) (can_merge : Bool) (s : Dbf) (k : ℕ)
    → IsValid s
    → ((length s.avail.av_table ≡ s.avail.size) → Ends (λ _ s'. Grows k s s' × HasRoom s') (push s))
    → Ends (λ _ s'. Grows (k + 1) s s') (put_header push el can_merge s)
unfolding put_header
put_header-Grows push el can_merge s k v h =
    elim (Bool-cases (length s.avail.av_table == s.avail.size)) [
      | inr other ↦
          let lt : HasRoom s = omega (arith, v.fits, ==_false _ _ other) in
          rw other (Grows-mono 1 (k + 1) s _ (omega arith) (stored-Grows el can_merge s v lt))
      | inl full ↦ rw full (
          Ends-bind (λ _ s'. Grows k s s' × HasRoom s') _ (push s)
            (λ _ s'. success (stored el can_merge s')) (h ((==_iff _ _).0 full))
            (λ _ t g. Grows-trans k 1 s t _ g.0 (stored-Grows el can_merge t g.0.valid g.1)))
    ]

module _ (push : M (Unit {0})) (temp : AvailElem) (s : Dbf) (k : ℕ) where
  store_freed-Grows :
      IsValid s
      → ((length s.avail.av_table ≡ s.avail.size)
          → Ends (λ _ s'. Grows k s s' × HasRoom s') (push s))
      → Ends (λ _ s'. Grows (k + 1) s s') (store_freed push temp s)
  unfolding store_freed
  store_freed-Grows v h =
      let header = put_header-Grows push temp s.coalesce_blocks s k v h in
      elim (Bool-cases (leb s.block_size temp.av_size || s.central_free)) [
        | inl central ↦ rw central header
        | inr local ↦ elim (Bool-cases (ltb (length s.bucket_table) bucket_avail)) [
          | inl room ↦
              rw (local, room)
                (Ends-mono (λ _ s'. Grows 0 s s') (λ _ s'. Grows (k + 1) s s') (put_bucket temp s)
                  (put_bucket-Grows temp s v (ltb→lt _ _ room))
                  (λ _ s'. Grows-mono 0 (k + 1) s s' (omega arith)))
          | inr full ↦ rw (local, full) header
        ]
      ]

adjust_if_changed-Grows : (s : Dbf) → IsValid s → Ends (λ _ s'. Grows 2 s s') (adjust_if_changed s)
unfolding adjust_if_changed
adjust_if_changed-Grows s v = elim (Bool-cases s.header_changed) [
  | inl e ↦ simp e (adjust_bucket_avail-Grows s v)
  | inr e ↦ simp e (record { valid = v; same_room = refl; few = omega arith })
]

-- One call of `_gdbm_free`, over what its push does where the table is full.
pub free_step-Grows :
    (fuel file_adr num_bytes : ℕ) (s : Dbf) (k : ℕ)
    → IsValid s
    → ((length s.avail.av_table ≡ s.avail.size)
        → Ends (λ _ s'. Grows k s s' × HasRoom s') (push_avail_block (gdbm_free fuel) s))
    → Ends (λ _ s'. Grows (k + 1 + 2) s s') (gdbm_free (suc fuel) file_adr num_bytes s)
unfolding gdbm_free
free_step-Grows fuel file_adr num_bytes s k v h =
    let temp : AvailElem = record { av_size = num_bytes; av_adr = file_adr } in
    elim (Bool-cases (leb num_bytes ignore_size)) [
      | inl e ↦ rw e (record { valid = v; same_room = refl; few = omega arith })
      | inr e ↦ rw e (
          Ends-bind (λ _ s'. Grows (k + 1) s s') _
            (store_freed (push_avail_block (gdbm_free fuel)) temp s) (λ _. adjust_if_changed)
            (store_freed-Grows (push_avail_block (gdbm_free fuel)) temp s k v h)
            (λ _ t g.
              Ends-mono (λ _ u. Grows 2 t u) (λ _ u. Grows (k + 1 + 2) s u) (adjust_if_changed t)
                (adjust_if_changed-Grows t g.valid) (λ _ u. Grows-trans (k + 1) 2 s t u g)))
    ]

-- With room in the header's table no push is made, so that one level of calls is enough.
pub free-Grows :
    (fuel file_adr num_bytes : ℕ) (s : Dbf)
    → IsValid s
    → HasRoom s
    → Ends (λ _ s'. Grows 3 s s') (gdbm_free (suc fuel) file_adr num_bytes s)
free-Grows fuel file_adr num_bytes s v lt =
    free_step-Grows fuel file_adr num_bytes s 0 v (λ full. absurd (omega arith))
