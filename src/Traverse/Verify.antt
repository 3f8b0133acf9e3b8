-- ===== src/Traverse/Verify.antt =====
-- src/avail.c: `gdbm_avail_verify` ends, and what it has checked when it succeeds.
use gdbm.Prelude.{
  ℕ, zero, suc, ◌+◌, ◌*◌, ◌/◌, ◌<◌, ◌≡◌, ◌≢◌, inl, refl, Bool, true, false, Option, none, some,
  List, [], ◌∷◌, if◌then◌else◌, insert_at, map, All, sym, ◌∙◌, arith,
}
use mathlib.Core.Path.{subst}
use gdbm.Errno.{malloc_error, bad_avail, need_recovery}
use gdbm.Alloc.{AvailBlock, Dbf, M, ◌>>◌, success, fail, fail_soft, block_image}
use gdbm.Alloc.Valid.{Ends, Ends-bind, Ends-mono}
use gdbm.Avail.{AvailElem}
use gdbm.Validate.{RawBlock, from_raw, avail_block_validate, sizeof_avail_block, sizeof_avail_elem}
use gdbm.Traverse.{
  OffMap, empty_map, call_soft, off_map_lookup, traverse_loop, assert_consistency,
  validate_header_avail, gdbm_avail_traverse, gdbm_avail_verify,
}
use gdbm.Traverse.Map.{IsPlace}
use gdbm.Traverse.Walk.{Same, Same-trans, call_soft-Same, LookedUp, off_map_lookup-LookedUp}
use gdbm.Traverse.Loop.{
  Chain, AreNew, Distinct, IsWithin, Chain-Same, IsWithin-Same, Walked, traverse_loop-Ends,
}

Chain-with_avail :
    (s : Dbf) (av : AvailBlock) (size n : ℕ) (ns : List ℕ)
    → Chain (record s { avail = av }) size n ns
    → Chain s size n ns
Chain-with_avail s av size n [] c = c
Chain-with_avail s av size n (x ∷ xs) (e, nz, (next, r, c)) =
    (e, nz, (next, r, Chain-with_avail s av size next xs c))

-- The size of a stack block, half of the header's table and its fixed part.
abbrev pub stack_size : Dbf → ℕ
stack_size s = s.avail.size * sizeof_avail_elem / 2 + sizeof_avail_block

-- What a verified file is like.
pub record IsVerified (header_offset avail_size : ℕ) (s : Dbf) : Type 0 where
  pub consistent : s.error.need_recovery ≡ false
  pub header :
      avail_block_validate s.read_write s.bucket_size s.next_block (block_image s.avail) avail_size
      ≢ none
  pub stack : List ℕ
  pub chain : Chain s (stack_size s) s.avail.next_block stack
  pub distinct : Distinct (header_offset ∷ stack)

-- The stack below the header.
abbrev StackOf : Dbf → ℕ → Type 0
StackOf s header_offset =
    (ns : List ℕ) × Chain s (stack_size s) s.avail.next_block ns × Distinct (header_offset ∷ ns)

-- The first offset's place is the beginning of the empty array.
IsPlace-empty : (n r : ℕ) → IsPlace n [] r → insert_at r n [] ≡ n ∷ []
unfolding insert_at
IsPlace-empty n zero p = refl
IsPlace-empty n (suc r) p = refl

from_header :
    (fuel header_offset : ℕ) (s : Dbf)
    → IsWithin s fuel
    → header_offset < fuel
    → (m : OffMap) → m.map_base ≡ header_offset ∷ []
    → Ends
        (λ _ t. StackOf s header_offset)
        (traverse_loop fuel (λ blk n. false) (stack_size s) m s.avail.next_block s)
from_header fuel header_offset s w lt m e =
    Ends-mono (λ _ _. Walked s m.map_base (stack_size s) s.avail.next_block) _ _
      (traverse_loop-Ends fuel (stack_size s) fuel fuel m s.avail.next_block s (rw e (tt, tt))
        (rw e (lt, tt)) (omega arith) (rw e (omega arith)) w)
      (λ _ _ k. (k.0, k.1, (apart k.0 (subst (λ (b : List ℕ). AreNew b k.0) e k.2), k.3)))
  where
    apart : (xs : List ℕ) → AreNew (header_offset ∷ []) xs → All (λ y. y ≢ header_offset) xs
    apart [] a = tt
    apart (x ∷ xs) a = ((λ q. a.0 (inl q)), apart xs a.1)

assert_consistency-Ends :
    (s : Dbf) → Ends (λ _ t. (t ≡ s) × (s.error.need_recovery ≡ false)) (assert_consistency s)
unfolding assert_consistency
assert_consistency-Ends s = decided s.error.need_recovery refl
  where
    decided :
        (b : Bool)
        → s.error.need_recovery ≡ b
        → Ends {A = Unit {0}}
            (λ _ t. (t ≡ s) × (s.error.need_recovery ≡ false))
            (if b then fail need_recovery s else success s)
    decided true e = tt
    decided false e = (refl, e)

abbrev HeaderValidated : ℕ → Dbf → Dbf → Type 0
HeaderValidated avail_size s t =
    ((l : List AvailElem) × (t ≡ record s { avail = record s.avail { av_table = l } }))
    × (avail_block_validate s.read_write s.bucket_size s.next_block (block_image s.avail) avail_size
        ≢ none)

validate_header_avail-Ends :
    (avail_size : ℕ) (s : Dbf)
    → Ends (λ _ t. HeaderValidated avail_size s t) (validate_header_avail avail_size s)
unfolding validate_header_avail
validate_header_avail-Ends avail_size s =
    decided
      (avail_block_validate s.read_write s.bucket_size s.next_block (block_image s.avail)
        avail_size)
      refl
  where
    decided :
        (o : Option RawBlock)
        → avail_block_validate s.read_write s.bucket_size s.next_block
            (block_image s.avail)
            avail_size
          ≡ o
        → Ends {A = Unit {0}}
            (λ _ t. HeaderValidated avail_size s t)
            (elim o [
              | none ↦ fail bad_avail s
              | some valid ↦
                  success
                    (record s { avail = record s.avail { av_table = map from_raw valid.slots } })
            ])
    decided none e = tt
    decided (some valid) e = ((map from_raw valid.slots, refl), (λ q. some_none (sym e ∙ q)))
      where
        some_none : {A : Type 0} {a : A} → some a ≡ none → ⊥
        some_none e = cc

from_lookup :
    (fuel header_offset : ℕ) (s : Dbf)
    → IsWithin s fuel
    → header_offset < fuel
    → (o : Option OffMap) (t : Dbf) → Same s t
    → LookedUp header_offset [] o
    → Ends {A = Unit {0}}
        (λ _ _. StackOf s header_offset)
        ((elim o as (λ _. M (Unit {0})) [
          | none ↦ fail_soft malloc_error
          | some m ↦ call_soft malloc_error >> (λ u.
              traverse_loop fuel
                (λ blk n. false)
                (u.avail.size * sizeof_avail_elem / 2 + sizeof_avail_block)
                m
                u.avail.next_block
                u)
        ])
          t)
from_lookup fuel header_offset s w lt none t p k = absurd k
from_lookup fuel header_offset s w lt (some m) t p (r, place, e) =
    Ends-bind (λ _ u. Same s u) (λ _ _. StackOf s header_offset) (call_soft malloc_error t) _
      (Ends-mono (λ _ u. Same t u) (λ _ u. Same s u) _ (call_soft-Same malloc_error t)
        (λ _ u q. Same-trans s t u p q))
      (λ _ u q.
        Ends-mono (λ _ _. StackOf u header_offset) (λ _ _. StackOf s header_offset) _
          (from_header fuel header_offset u (IsWithin-Same s u fuel q w) lt m
            (e ∙ IsPlace-empty header_offset r place))
          (λ _ _ h. (
            h.0,
            subst
                (λ (a : AvailBlock).
                  Chain s (a.size * sizeof_avail_elem / 2 + sizeof_avail_block) a.next_block h.0)
                q.4 (Chain-Same s u (stack_size u) u.avail.next_block h.0 q h.1),
            h.2,
          )))

-- With more fuel than the offset of the header's table and than every offset at which a block can be
-- read, the walk ends, whatever the file holds and whatever
-- answers the reads get; and when it succeeds, the database was not marked for recovery, the header's
-- table passes the validation, every block of the stack could be read and passes it, down to the
-- offset 0, and no offset occurs twice, the header's included.
pub gdbm_avail_verify_lem :
    (fuel header_offset avail_size : ℕ) (s : Dbf)
    → IsWithin s fuel
    → header_offset < fuel
    → Ends
        (λ _ t. IsVerified header_offset avail_size s)
        (gdbm_avail_verify fuel header_offset avail_size s)
unfolding gdbm_avail_verify gdbm_avail_traverse
gdbm_avail_verify_lem fuel header_offset avail_size s w lt =
    Ends-bind (λ _ t. (t ≡ s) × (s.error.need_recovery ≡ false))
      (λ _ _. IsVerified header_offset avail_size s) (assert_consistency s) _
      (assert_consistency-Ends s)
      (λ _ t k. rw k.0 (
        Ends-bind (λ _ u. HeaderValidated avail_size s u)
          (λ _ _. IsVerified header_offset avail_size s) (validate_header_avail avail_size s) _
          (validate_header_avail-Ends avail_size s)
          (λ _ u h. rw h.0.1 (
            let v : Dbf = record s { avail = record s.avail { av_table = h.0.0 } } in
            Ends-bind (λ o x. Same v x × LookedUp header_offset [] o)
              (λ _ _. IsVerified header_offset avail_size s)
              (off_map_lookup empty_map header_offset v) _
              (off_map_lookup-LookedUp empty_map header_offset v tt)
              (λ o x q.
                Ends-mono _ (λ _ _. IsVerified header_offset avail_size s) _
                  (from_lookup fuel header_offset v w lt o x q.0 q.1)
                  (λ _ _ r. record {
                    consistent = k.1;
                    header = h.1;
                    stack = r.0;
                    chain = Chain-with_avail s v.avail (stack_size s) s.avail.next_block r.0 r.1;
                    distinct = r.2;
                  }))))))
