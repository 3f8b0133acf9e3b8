-- ===== src/Traverse/Walk.antt =====
-- src/avail.c: the walk ends, and what it has checked when it succeeds.
use gdbm.Prelude.{
  ℕ, ◌+◌, ◌/◌, ◌≡◌, inl, inr, refl, Bool, true, false, Option, none, some, List, [], ◌∷◌, leb, ◌==◌,
  if◌then◌else◌, length, insert_at, Option-cases, ap, ◌∙◌,
}
use gdbm.Errno.{GdbmError, malloc_error, file_read_error, code}
use gdbm.Alloc.{
  Dbf, Outcome, failed, M, ◌>>◌, return, success, fail_soft, next_answer, call_read,
  read_avail_block,
}
use gdbm.Alloc.Valid.{Ends, Ends-bind, Ends-mono}
use gdbm.Alloc.Ends.{either_fails}
use gdbm.Alloc.Pop.{if-Ends}
use gdbm.Validate.{RawBlock, avail_block_validate}
use gdbm.Traverse.{OffMap, max_entries, call_soft, off_map_expand, off_map_lookup}
use gdbm.Traverse.Map.{Ascending, Has, IsPlace, off_map_search}

-- What a step of the walk leaves alone.
abbrev pub Same : Dbf → Dbf → Type 0
Same s t =
    (t.disk ≡ s.disk)
    × (t.read_write ≡ s.read_write)
    × (t.bucket_size ≡ s.bucket_size)
    × (t.next_block ≡ s.next_block)
    × (t.avail ≡ s.avail)

pub Same-trans : (s t u : Dbf) → Same s t → Same t u → Same s u
Same-trans s t u p q = (q.0 ∙ p.0, q.1 ∙ p.1, q.2 ∙ p.2, q.3 ∙ p.3, q.4 ∙ p.4)

next_answer-Same :
    (failing : M (Unit {0})) (s : Dbf)
    → ((t : Dbf) → Ends (λ _ u. ⊥) (failing t))
    → Ends (λ _ t. Same s t) (next_answer failing s)
next_answer-Same failing s f = answered s.answers
  where
    answered :
        (l : List Bool)
        → Ends {A = Unit {0}}
            (λ _ t. Same s t)
            (elim l [
              | [] ↦ success s
              | ok ∷ rest ↦
                  if ok
                  then success (record s { answers = rest })
                  else failing (record s { answers = rest })
            ])
    answered [] = (refl, refl, refl, refl, refl)
    answered (true ∷ rest) = (refl, refl, refl, refl, refl)
    answered (false ∷ rest) =
        Ends-mono (λ _ u. ⊥) (λ _ t. Same s t) (failing (record s { answers = rest })) (f _)
          (λ _ t b. absurd b)

pub call_soft-Same : (ec : GdbmError) (s : Dbf) → Ends (λ _ t. Same s t) (call_soft ec s)
call_soft-Same ec s = next_answer-Same (fail_soft ec) s (λ t. tt)

pub call_read-Same : (s : Dbf) → Ends (λ _ t. Same s t) (call_read s)
unfolding call_read
call_read-Same s = next_answer-Same _ s (λ t.
    either_fails (λ _ u. ⊥) (code t.error.last_error == 0) (fail_soft file_read_error) failed t tt
      tt)

-- More room, and the same offsets.
expanded :
    (m m' : OffMap)
    → m'.map_base ≡ m.map_base
    → (s : Dbf)
    → Ends (λ m' t. Same s t × (m'.map_base ≡ m.map_base)) ((call_soft malloc_error >> return m') s)
expanded m m' e s =
    Ends-bind (λ _ t. Same s t) (λ m' t. Same s t × (m'.map_base ≡ m.map_base))
      (call_soft malloc_error s) (λ _. return m') (call_soft-Same malloc_error s) (λ _ t k. (k, e))

branch_Ends :
    {A : Type 0} (P : A → Dbf → Type 0) (c : Bool) (x y : Outcome A)
    → Ends P x
    → Ends P y
    → Ends P (if c then x else y)
branch_Ends P true x y p q = p
branch_Ends P false x y p q = q

off_map_expand-Same :
    (m : OffMap) (s : Dbf)
    → Ends (λ m' t. Same s t × (m'.map_base ≡ m.map_base)) (off_map_expand m s)
unfolding off_map_expand
off_map_expand-Same m s =
    branch_Ends (λ m' t. Same s t × (m'.map_base ≡ m.map_base)) m.allocated _ _
      (branch_Ends (λ m' t. Same s t × (m'.map_base ≡ m.map_base)) (leb max_entries m.map_max) _ _
        tt (expanded m (record m { map_max = m.map_max + (m.map_max + 1) / 2 }) refl s))
      (expanded m
        (record m { map_max = if m.map_max == 0 then 64 else m.map_max; allocated = true }) refl s)

-- What `off_map_lookup` answers.
abbrev pub LookedUp : ℕ → List ℕ → Option OffMap → Type 0
LookedUp n base none = Has n base
LookedUp n base (some m') = (r : ℕ) × IsPlace n base r × (m'.map_base ≡ insert_at r n base)

-- In an ascending array, whatever `realloc` answers, the lookup tells that the offset is there, or
-- puts it in its place, or fails; nothing else changes.
pub off_map_lookup-LookedUp :
    (m : OffMap) (n : ℕ) (s : Dbf)
    → Ascending m.map_base
    → Ends (λ o t. Same s t × LookedUp n m.map_base o) (off_map_lookup m n s)
unfolding off_map_lookup
off_map_lookup-LookedUp m n s a = elim (off_map_search m.map_base n a) [
  | inl there ↦ rw (off_map_lookup, there.0) ((refl, refl, refl, refl, refl), there.1)
  | inr (r, e, place) ↦
      rw (off_map_lookup, e)
        (Ends-bind (λ m' t. Same s t × (m'.map_base ≡ m.map_base))
          (λ o t. Same s t × LookedUp n m.map_base o)
          ((if length m.map_base == m.map_max then off_map_expand m else return m) s)
          (λ m'. return (some (record m' { map_base = insert_at r n m'.map_base })))
          (if-Ends (λ m' t. Same s t × (m'.map_base ≡ m.map_base)) (length m.map_base == m.map_max)
            (off_map_expand m) (return m) s (off_map_expand-Same m s)
            ((refl, refl, refl, refl, refl), refl))
          (λ m' t k. (k.0, (r, place, ap (insert_at r n) k.1))))
]

-- A block that was read has passed the validation.
abbrev pub ReadsAs : Dbf → ℕ → ℕ → ℕ → Type 0
ReadsAs s size n next =
    (raw valid : RawBlock) × (s.disk n ≡ some raw)
    × (avail_block_validate s.read_write s.bucket_size s.next_block raw size ≡ some valid)
    × (next ≡ valid.next_block)

pub read_avail_block-ReadsAs :
    (n size : ℕ) (s : Dbf)
    → Ends (λ blk t. (t ≡ s) × ReadsAs s size n blk.next_block) (read_avail_block n size s)
unfolding read_avail_block
read_avail_block-ReadsAs n size s = elim (Option-cases (s.disk n)) [
  | inl e ↦ rw (read_avail_block, e) tt
  | inr (raw, e) ↦
      elim (Option-cases (avail_block_validate s.read_write s.bucket_size s.next_block raw size)) [
        | inl v ↦ rw (read_avail_block, e, v) tt
        | inr (valid, v) ↦ rw (read_avail_block, e, v) (refl, (raw, valid, refl, v, refl))
      ]
]
