-- ===== src/Alloc/Ends.antt =====
-- src/falloc.c: the stack operations and `_gdbm_alloc` end, and keep the tables valid.
use gdbm.Prelude.{
  ℕ, suc, ◌+◌, ◌-◌, ◌/◌, ◌≤◌, ◌≡◌, ◌∙◌, inl, inr, refl, Bool, true, false, Bool-cases, List, [],
  ◌∷◌, ◌==◌, if◌then◌else◌, length, arith,
}
use gdbm.Avail.{get_elem}
use gdbm.Avail.Laws.{get_elem_rest}
use gdbm.Errno.{GdbmError, code, malloc_error, file_seek_error, file_read_error, file_write_error}
use gdbm.Alloc.{
  AvailBlock, Dbf, failed, M, ◌>>=◌, success, fail, fail_soft, call, call_read, call_write,
  next_answer, take_header, find_space, get_block, split_size, split_header, write_avail_block,
  push_avail_block, gdbm_free,
}
use gdbm.Alloc.Blocks.{halve-IsSorted, length-halve}
use gdbm.Alloc.Valid.{IsValid, Ends, Ends-bind, Ends-mono, Grows}
use gdbm.Alloc.Freed.{HasRoom, Grows-trans, free-Grows, free_step-Grows}

-- A state with the same tables is as valid.
pub same_tables :
    (s t : Dbf)
    → IsValid s
    → t.avail ≡ s.avail
    → t.bucket_table ≡ s.bucket_table
    → t.block_size ≡ s.block_size
    → Grows 0 s t
same_tables s t v a b c = record {
  valid = record {
    room = rw a v.room;
    fits = rw a v.fits;
    bucket_fits = rw b v.bucket_fits;
    sorted = rw a v.sorted;
    bucket_sorted = rw b v.bucket_sorted;
    block_pos = rw c v.block_pos;
  };
  same_room = rw a;
  few = rw a (omega arith);
}

-- A system call changes nothing but the answers to come.
next_answer-Grows :
    (failing : M (Unit {0})) (s : Dbf)
    → IsValid s
    → ((t : Dbf) → Ends (λ _ s'. Grows 0 s s') (failing t))
    → Ends (λ _ s'. Grows 0 s s') (next_answer failing s)
next_answer-Grows failing s v h = answered s.answers
  where
    answered :
        (answers : List Bool)
        → Ends
            (λ _ s'. Grows 0 s s')
            (elim answers [
              | [] ↦ success s
              | ok ∷ rest ↦
                  if ok
                  then success (record s { answers = rest })
                  else failing (record s { answers = rest })
            ])
    answered [] = same_tables s s v refl refl refl
    answered (true ∷ rest) = same_tables s _ v refl refl refl
    answered (false ∷ rest) = h _

pub call-Grows : (ec : GdbmError) (s : Dbf) → IsValid s → Ends (λ _ s'. Grows 0 s s') (call ec s)
unfolding call
call-Grows ec s v = next_answer-Grows (fail ec) s v (λ t. tt)

pub either_fails :
    (P : Unit {0} → Dbf → Type 0) (b : Bool) (m k : M (Unit {0})) (t : Dbf)
    → Ends P (m t)
    → Ends P (k t)
    → Ends P (if b then m t else k t)
either_fails P true m k t h g = h
either_fails P false m k t h g = g

call_write-Grows : (s : Dbf) → IsValid s → Ends (λ _ s'. Grows 0 s s') (call_write s)
unfolding call_write
call_write-Grows s v = next_answer-Grows _ s v (λ t.
    either_fails (λ _ s'. Grows 0 s s') (code t.error.last_error == 0) (fail file_write_error)
      failed t tt tt)

pub call_read-Grows : (s : Dbf) → IsValid s → Ends (λ _ s'. Grows 0 s s') (call_read s)
unfolding call_read
call_read-Grows s v = next_answer-Grows _ s v (λ t.
    either_fails (λ _ s'. Grows 0 s s') (code t.error.last_error == 0) (fail_soft file_read_error)
      failed t tt tt)

pub find_space-Grows :
    (size : ℕ) (s : Dbf) → IsValid s → Ends (λ _ s'. Grows 0 s s') (find_space size s)
unfolding find_space take_header get_block
find_space-Grows size s v =
    let r = get_elem size s.avail.av_table in
    let kept = get_elem_rest size s.avail.av_table v.sorted in
    let taken : Grows 0 s (record s { avail = record s.avail { av_table = r.1 } }) = record {
      valid = record {
        room = v.room;
        fits = omega (arith, kept.1, v.fits);
        bucket_fits = v.bucket_fits;
        sorted = kept.0;
        bucket_sorted = v.bucket_sorted;
        block_pos = v.block_pos;
      };
      same_room = refl;
      few = omega (arith, kept.1);
    } in
    elim (Bool-cases (r.0.av_size == 0)) [
      | inl e ↦ rw e (Grows-trans 0 0 s _ _ taken (same_tables _ _ taken.valid refl refl refl))
      | inr e ↦ rw e taken
    ]

write_avail_block-Grows :
    (av_adr : ℕ) (temp : AvailBlock) (s : Dbf)
    → IsValid s
    → Ends (λ _ s'. Grows 0 s s') (write_avail_block av_adr temp s)
unfolding write_avail_block
write_avail_block-Grows av_adr temp s v = same_tables s _ v refl refl refl

-- The split leaves half of a table.
split_header-halves :
    (av_adr : ℕ) (s : Dbf)
    → IsValid s
    → Ends
        (λ _ s'.
          IsValid s'
          × (s'.avail.size ≡ s.avail.size)
          × (length s'.avail.av_table ≤ (length s.avail.av_table + 1) / 2))
        (split_header av_adr s)
unfolding split_header
split_header-halves av_adr s v =
    let (kept, moved) = length-halve s.avail.av_table in
    (
      record {
        room = v.room;
        fits = omega (arith, kept, v.fits);
        bucket_fits = v.bucket_fits;
        sorted = (halve-IsSorted s.avail.av_table v.sorted).0;
        bucket_sorted = v.bucket_sorted;
        block_pos = v.block_pos;
      },
      refl,
      omega (arith, kept),
    )

-- A step after others: the growths add up.
Grows-bind :
    {A B : Type 0} (j k : ℕ) (s t : Dbf) (m : M A) (f : A → M B) (Q : B → Dbf → Type 0)
    → Grows j s t
    → Ends (λ _ u. Grows k t u) (m t)
    → ((a : A) (u : Dbf) → Grows (j + k) s u → Ends Q (f a u))
    → Ends Q ((m >>= f) t)
Grows-bind j k s t m f Q g h next =
    Ends-bind (λ _ u. Grows k t u) Q (m t) f h (λ a u gu. next a u (Grows-trans j k s t u g gu))

abbrev pub Pushed : Dbf → Dbf → Type 0
Pushed s s' = Grows 0 s s' × HasRoom s'

-- From half a table on, three entries at most fit.
Pushed-of_half :
    (s w x : Dbf)
    → length s.avail.av_table ≡ s.avail.size
    → w.avail.size ≡ s.avail.size
    → length w.avail.av_table ≤ (s.avail.size + 1) / 2
    → Grows 3 w x
    → Pushed s x
Pushed-of_half s w x full size half g = (
  record {
    valid = g.valid;
    same_room = g.same_room ∙ size;
    few = omega (arith, g.few, g.valid.fits, g.same_room);
  },
  omega (arith, g.few, g.valid.room, g.same_room),
)

-- A push ends, and leaves room in the table, over a `_gdbm_free` that adds three entries at most.
pub push_avail_block-Pushed :
    (free : ℕ → ℕ → M (Unit {0})) (s : Dbf)
    → IsValid s
    → ((a n : ℕ) (t : Dbf) → IsValid t → HasRoom t → Ends (λ _ u. Grows 3 t u) (free a n t))
    → length s.avail.av_table ≡ s.avail.size
    → Ends (λ _ s'. Pushed s s') (push_avail_block free s)
unfolding push_avail_block
push_avail_block-Pushed free s v h full =
    let q : Unit {0} → Dbf → Type 0 = λ _ s'. Pushed s s' in
    Grows-bind 0 0 s s (find_space (split_size s)) _ q (same_tables s s v refl refl refl)
      (find_space-Grows (split_size s) s v)
      λ new_loc t g.
        Grows-bind 0 0 s t (call malloc_error) _ q g (call-Grows malloc_error t g.valid) λ _ u gu.
          Ends-bind _ q (split_header new_loc.av_adr u) _
            (split_header-halves new_loc.av_adr u gu.valid)
            λ temp w (wv, size, half).
              let few : length w.avail.av_table ≤ (s.avail.size + 1) / 2 =
                omega (arith, gu.few, half) in
              let room : HasRoom w = omega (arith, wv.room, size, gu.same_room) in
              Grows-bind 0 3 w w
                (free (new_loc.av_adr + split_size s) (new_loc.av_size - split_size s)) _ q
                (same_tables w w wv refl refl refl) (h _ _ w wv room)
                λ _ x gx.
                  Grows-bind 3 0 w x (call file_seek_error) _ q gx
                    (call-Grows file_seek_error x gx.valid)
                    λ _ y gy.
                      Grows-bind 3 0 w y call_write _ q gy (call_write-Grows y gy.valid) λ _ z gz.
                        Ends-mono _ q (write_avail_block new_loc.av_adr temp z)
                          (write_avail_block-Grows new_loc.av_adr temp z gz.valid)
                          (λ _ o go.
                            Pushed-of_half s w o full (size ∙ gu.same_room) few
                              (Grows-trans 3 0 w z o gz go))

-- `_gdbm_free` ends with two levels of calls.
pub gdbm_free-Grows :
    (fuel file_adr num_bytes : ℕ) (s : Dbf)
    → IsValid s
    → Ends (λ _ s'. Grows 3 s s') (gdbm_free (suc (suc fuel)) file_adr num_bytes s)
gdbm_free-Grows fuel file_adr num_bytes s v =
    free_step-Grows (suc fuel) file_adr num_bytes s 0 v
      (push_avail_block-Pushed (gdbm_free (suc fuel)) s v (free-Grows fuel))
