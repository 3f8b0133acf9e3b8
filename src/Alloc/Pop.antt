-- ===== src/Alloc/Pop.antt =====
-- src/falloc.c: `pop_avail_block` and `_gdbm_alloc` end and keep the tables valid, and where the
-- stack stands after a pop.
use gdbm.Prelude.{
  ℕ, zero, suc, ◌+◌, ◌-◌, ◌/◌, ◌≤◌, ◌≡◌, ◌∙◌, inl, inr, refl, Bool, true, false, not, Bool-cases,
  Option, none, some, List, [], ◌∷◌, ltb, leb, ltb→lt, lt→ltb, ◌==◌, ==_iff, ==_false, ◌&&◌,
  if◌then◌else◌, length, map, arith,
}
use gdbm.Prelude.Int.{pos_part}
use gdbm.Avail.{AvailElem, get_elem, put_av_elem}
use gdbm.Avail.Laws.{get_elem_rest}
use gdbm.Errno.{malloc_error, file_seek_error, bad_avail, file_eof}
use gdbm.Validate.{RawBlock, avail_block_validate, from_raw}
use gdbm.Alloc.{
  AvailBlock, Dbf, done, M, success, fail, fail_soft, call, call_read, find_space, split_size,
  gdbm_free, read_avail_block, fill_header, push_if_full, refill_header, pop_rest, pop_avail_block,
  depth, push, alloc_elem, gdbm_alloc,
}
use gdbm.Alloc.Valid.{IsValid, Ends, Ends-bind, Ends-mono, Grows}
use gdbm.Alloc.Freed.{HasRoom, Grows-trans, stored, stored-Grows, free-Grows}
use gdbm.Alloc.Ends.{
  same_tables, call-Grows, call_read-Grows, find_space-Grows, Pushed, push_avail_block-Pushed,
  gdbm_free-Grows,
}

-- Valid, with the same room.
abbrev pub Keeps : Dbf → Dbf → Type 0
Keeps s t = IsValid t × (t.avail.size ≡ s.avail.size)

Keeps-trans : (s t u : Dbf) → Keeps s t → Keeps t u → Keeps s u
Keeps-trans s t u k l = (l.0, l.1 ∙ k.1)

Grows-Keeps : (k : ℕ) (s t : Dbf) → Grows k s t → Keeps s t
Grows-Keeps k s t g = (g.valid, g.same_room)

read_avail_block-Keeps :
    (adr size : ℕ) (s : Dbf) → IsValid s → Ends (λ _ t. t ≡ s) (read_avail_block adr size s)
unfolding read_avail_block
read_avail_block-Keeps adr size s v = found (s.disk adr)
  where
    valid_block :
        (o : Option RawBlock)
        → Ends {A = AvailBlock}
            (λ _ t. t ≡ s)
            (elim o [
              | none ↦ fail bad_avail s
              | some valid ↦
                  done
                    (record {
                      size = pos_part valid.size;
                      next_block = valid.next_block;
                      av_table = map from_raw valid.slots;
                    })
                    s
            ])
    valid_block none = tt
    valid_block (some valid) = refl

    found :
        (o : Option RawBlock)
        → Ends {A = AvailBlock}
            (λ _ t. t ≡ s)
            (elim o [
              | none ↦ fail_soft file_eof s
              | some blk ↦
                  elim (avail_block_validate s.read_write s.bucket_size s.next_block blk size) [
                    | none ↦ fail bad_avail s
                    | some valid ↦
                        done
                          (record {
                            size = pos_part valid.size;
                            next_block = valid.next_block;
                            av_table = map from_raw valid.slots;
                          })
                          s
                  ]
            ])
    found none = tt
    found (some blk) =
        valid_block (avail_block_validate s.read_write s.bucket_size s.next_block blk size)

-- The inner loop leaves no more entries than it was given.
fill_header-Keeps :
    (rest : List AvailElem) (s : Dbf)
    → IsValid s
    → Ends (λ left t. Keeps s t × (length left ≤ length rest)) (fill_header rest s)
unfolding fill_header
fill_header-Keeps [] s v = ((v, refl), omega arith)
fill_header-Keeps (e ∷ rest) s v = elim (Bool-cases (ltb (length s.avail.av_table) s.avail.size)) [
  | inr full ↦ rw (full, fill_header) ((v, refl), omega arith)
  | inl room ↦
      let lt : HasRoom s = ltb→lt _ _ room in
      let g = stored-Grows e true s v lt in
      let t : Dbf = record s {
        avail = record s.avail { av_table = put_av_elem e s.avail.av_table true };
      } in
      let tv = same_tables (stored e true s) t g.valid refl refl refl in
      rw (room, fill_header)
        (Ends-mono _ _ (fill_header rest t) (fill_header-Keeps rest t tv.valid)
          (λ left u k. (Keeps-trans s t u (tv.valid, refl) k.0, omega (arith, k.1))))
]

-- With room in the table it takes one at least.
fill_header-takes :
    (e : AvailElem) (rest : List AvailElem) (s : Dbf)
    → IsValid s
    → HasRoom s
    → Ends (λ left t. Keeps s t × (length left ≤ length rest)) (fill_header (e ∷ rest) s)
unfolding fill_header
fill_header-takes e rest s v lt =
    let g = stored-Grows e true s v lt in
    let t : Dbf = record s {
      avail = record s.avail { av_table = put_av_elem e s.avail.av_table true };
    } in
    let tv = same_tables (stored e true s) t g.valid refl refl refl in
    rw (lt→ltb _ _ lt, fill_header)
      (Ends-mono _ _ (fill_header rest t) (fill_header-Keeps rest t tv.valid)
        (λ left u k. (Keeps-trans s t u (tv.valid, refl) k.0, k.1)))

-- A push of the header's table works where the table is full.
abbrev Pushes : M (Unit {0}) → Type 0
Pushes push =
    (s : Dbf)
    → IsValid s
    → length s.avail.av_table ≡ s.avail.size
    → Ends (λ _ t. Pushed s t) (push s)

module _ (push : M (Unit {0})) (pushes : Pushes push) where
  push_if_full-Keeps :
      (s : Dbf) → IsValid s → Ends (λ _ t. Keeps s t × HasRoom t) (push_if_full push s)
  unfolding push_if_full
  push_if_full-Keeps s v = elim (Bool-cases (length s.avail.av_table == s.avail.size)) [
    | inl full ↦ rw full (
        Ends-mono (λ _ t. Pushed s t) _ (push s) (pushes s v ((==_iff _ _).0 full))
          (λ _ t p. (Grows-Keeps 0 s t p.0, p.1)))
    | inr other ↦ rw other ((v, refl), omega (arith, v.fits, ==_false _ _ other))
  ]

  refill_header-Keeps :
      (fuel : ℕ) (rest : List AvailElem) (s : Dbf)
      → length rest ≤ fuel
      → IsValid s
      → HasRoom s
      → Ends (λ _ t. Keeps s t × HasRoom t) (refill_header fuel push rest s)
  unfolding refill_header
  refill_header-Keeps zero [] s f v lt = ((v, refl), lt)
  refill_header-Keeps (suc fuel) [] s f v lt = ((v, refl), lt)
  refill_header-Keeps zero (e ∷ rest) s f v lt = absurd (omega arith)
  refill_header-Keeps (suc fuel) (e ∷ rest) s f v lt =
      Ends-bind _ _ (fill_header (e ∷ rest) s) _ (fill_header-takes e rest s v lt) λ left t k.
        Ends-bind _ _ (push_if_full push t) _ (push_if_full-Keeps t k.0.0) λ _ u l.
          Ends-mono _ _ (refill_header fuel push left u)
            (refill_header-Keeps fuel left u (omega (arith, k.1)) l.0.0 l.1)
            (λ _ w m. (Keeps-trans s t w k.0 (Keeps-trans t u w l.0 m.0), m.1))

  -- With room in the table nothing is pushed.
  push_if_full-skips : (s : Dbf) → HasRoom s → Ends (λ _ t. t ≡ s) (push_if_full push s)
  unfolding push_if_full
  push_if_full-skips s lt =
      let no_push : (length s.avail.av_table == s.avail.size) ≡ false = ground arith in
      rw no_push refl

  -- From the reading of the block on.
  pop_rest-Keeps :
      (new_el : AvailElem) (new_blk : AvailBlock) (s : Dbf)
      → IsValid s
      → HasRoom s
      → Ends
          (λ _ t. Keeps s t × (t.avail.next_block ≡ new_blk.next_block))
          (pop_rest push new_el new_blk s)
  unfolding pop_rest
  pop_rest-Keeps new_el new_blk s v lt =
      Ends-bind _ _ (refill_header (length new_blk.av_table) push new_blk.av_table s) _
        (refill_header-Keeps (length new_blk.av_table) new_blk.av_table s (omega arith) v lt)
        λ _ t k.
          let u : Dbf = record t {
            avail = record t.avail { next_block = new_blk.next_block };
            header_changed = true;
          } in
          let uv : IsValid u = record {
            room = k.0.0.room;
            fits = k.0.0.fits;
            bucket_fits = k.0.0.bucket_fits;
            sorted = k.0.0.sorted;
            bucket_sorted = k.0.0.bucket_sorted;
            block_pos = k.0.0.block_pos;
          } in
          let g = stored-Grows new_el true u uv k.1 in
          Ends-bind _ _ (push_if_full push u) _ (push_if_full-skips u k.1)
            λ _ w same. rw same (((same_tables _ _ g.valid refl refl refl).valid, k.0.1), refl)

  pop_avail_block-Keeps : (s : Dbf) → IsValid s → Ends (λ _ t. Keeps s t) (pop_avail_block push s)
  unfolding pop_avail_block
  pop_avail_block-Keeps s v =
      Ends-bind _ _ (push_if_full push s) _ (push_if_full-Keeps s v) λ _ t k.
        Ends-bind _ _ (call malloc_error t) _ (call-Grows malloc_error t k.0.0) λ _ u gu.
          Ends-bind _ _ (call file_seek_error u) _ (call-Grows file_seek_error u gu.valid) λ _ w gw.
            Ends-bind _ _ (call_read w) _ (call_read-Grows w gw.valid) λ _ x gx.
              Ends-bind _ _ (read_avail_block t.avail.next_block (split_size t) x) _
                (read_avail_block-Keeps t.avail.next_block (split_size t) x gx.valid)
                λ blk y same.
                  let g = Grows-trans 0 0 t w x (Grows-trans 0 0 t u w gu gw) gx in
                  let room : HasRoom x = omega (arith, k.1, g.few, g.same_room) in
                  rw same (
                    Ends-mono _ _ (pop_rest push _ blk x) (pop_rest-Keeps _ blk x gx.valid room)
                      (λ _ z l.
                        Keeps-trans s x z (Keeps-trans s t x k.0 (Grows-Keeps 0 t x g)) l.0))

push-Pushes : Pushes push
unfolding push
push-Pushes s v full = push_avail_block-Pushed (gdbm_free depth) s v (free-Grows 2) full

-- For a valid state whose header table has room, whatever block of the stack was read and whatever
-- the system calls answer: the rest of `pop_avail_block` ends, and if it succeeds, the state is
-- valid with the same room, and the top of the stack is the block below the one that was read.
pub pop_rest-top :
    (new_el : AvailElem) (new_blk : AvailBlock) (s : Dbf)
    → IsValid s
    → HasRoom s
    → Ends
        (λ _ t. Keeps s t × (t.avail.next_block ≡ new_blk.next_block))
        (pop_rest push new_el new_blk s)
pop_rest-top = pop_rest-Keeps push push-Pushes

pub if-Ends :
    {A : Type 0} (P : A → Dbf → Type 0) (b : Bool) (m k : M A) (s : Dbf)
    → Ends P (m s)
    → Ends P (k s)
    → Ends P ((if b then m else k) s)
if-Ends P true m k s h g = h
if-Ends P false m k s h g = g

alloc_elem-Keeps :
    (num_bytes : ℕ) (s : Dbf) → IsValid s → Ends (λ _ t. Keeps s t) (alloc_elem num_bytes s)
unfolding alloc_elem
alloc_elem-Keeps num_bytes s v =
    let r = get_elem num_bytes s.bucket_table in
    let kept = get_elem_rest num_bytes s.bucket_table v.bucket_sorted in
    let s' : Dbf = record s { bucket_table = r.1 } in
    let v' : IsValid s' = record {
      room = v.room;
      fits = v.fits;
      bucket_fits = omega (arith, kept.1, v.bucket_fits);
      sorted = v.sorted;
      bucket_sorted = kept.0;
      block_pos = v.block_pos;
    } in
    elim (Bool-cases (r.0.av_size == 0)) [
      | inr found ↦ rw found (v', refl)
      | inl none_found ↦ rw none_found (
          Ends-bind (λ _ t. Keeps s' t) _
            ((if leb (length s.avail.av_table) (s.avail.size / 2) && not (s.avail.next_block == 0)
                then pop_avail_block push
                else success)
              s')
            _
            (if-Ends (λ _ t. Keeps s' t)
              (leb (length s.avail.av_table) (s.avail.size / 2) && not (s.avail.next_block == 0))
              (pop_avail_block push) success s' (pop_avail_block-Keeps push push-Pushes s' v')
              (v', refl))
            λ _ t k.
              Ends-bind _ _ (find_space num_bytes t) _ (find_space-Grows num_bytes t k.0) λ e u g.
                let l = same_tables u (record u { header_changed = true }) g.valid refl refl refl in
                (l.valid, g.same_room ∙ k.1))
    ]

-- For a valid state, whatever the system calls answer: `_gdbm_free` ends, within two levels of
-- calls through `push_avail_block`, and if it succeeds the state is valid with the same room.
pub gdbm_free-Keeps :
    (fuel file_adr num_bytes : ℕ) (s : Dbf)
    → IsValid s
    → Ends (λ _ t. Keeps s t) (gdbm_free (suc (suc fuel)) file_adr num_bytes s)
gdbm_free-Keeps fuel file_adr num_bytes s v =
    Ends-mono _ _ (gdbm_free (suc (suc fuel)) file_adr num_bytes s)
      (gdbm_free-Grows fuel file_adr num_bytes s v) (λ _ t. Grows-Keeps 3 s t)

-- For a valid state and any request, whatever stands in the file and whatever the system calls
-- answer: `_gdbm_alloc` ends, with the fuel that the model gives it, and if it succeeds the state
-- is valid with the same room.
pub gdbm_alloc-Keeps :
    (num_bytes : ℕ) (s : Dbf) → IsValid s → Ends (λ _ t. Keeps s t) (gdbm_alloc num_bytes s)
unfolding gdbm_alloc
gdbm_alloc-Keeps num_bytes s v =
    Ends-bind _ _ (alloc_elem num_bytes s) _ (alloc_elem-Keeps num_bytes s v) λ e t k.
      Ends-bind _ _ (gdbm_free depth (e.av_adr + num_bytes) (e.av_size - num_bytes) t) _
        (gdbm_free-Keeps 1 (e.av_adr + num_bytes) (e.av_size - num_bytes) t k.0)
        λ _ u l. Keeps-trans s t u k l
