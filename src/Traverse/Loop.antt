-- ===== src/Traverse/Loop.antt =====
-- src/avail.c: the loop of `gdbm_avail_traverse`, and the blocks that it walks through.
use gdbm.Prelude.{
  ℕ, zero, suc, ◌+◌, ◌≤◌, ◌<◌, ◌≡◌, ◌≢◌, inl, inr, refl, false, Option, none, some, List, [], ◌∷◌,
  ltb, ◌==◌, length, length-insert_at, insert_at, All, Bool-cases, sym, ◌∙◌, arith,
}
use mathlib.Core.Path.{subst}
use gdbm.Errno.{bad_avail, file_seek_error}
use gdbm.Alloc.{Dbf, M, ◌>>=◌, ◌>>◌, fail, call_read, read_avail_block}
use gdbm.Alloc.Valid.{Ends, Ends-bind, Ends-mono}
use gdbm.Traverse.{OffMap, call_soft, off_map_lookup, traverse_loop}
use gdbm.Traverse.Map.{
  Ascending, Has, IsPlace, IsPlace-absent, insert_at-Ascending, insert_at-Has, Ascending-length,
  below-insert_at,
}
use gdbm.Traverse.Walk.{
  Same, Same-trans, call_soft-Same, call_read-Same, LookedUp, off_map_lookup-LookedUp, ReadsAs,
  read_avail_block-ReadsAs,
}

-- The blocks of the stack from the offset n down to its end, each of which can be read and passes
-- the validation.
abbrev pub Chain : Dbf → ℕ → ℕ → List ℕ → Type 0
Chain s size n [] = n ≡ 0
Chain s size n (x ∷ xs) =
    (n ≡ x) × (n ≢ 0) × ((next : ℕ) × ReadsAs s size x next × Chain s size next xs)

abbrev pub AreNew : List ℕ → List ℕ → Type 0
AreNew base xs = All (λ x. Has x base → ⊥) xs

-- No number occurs twice.
abbrev pub Distinct : List ℕ → Type 0
Distinct [] = Unit
Distinct (x ∷ xs) = All (λ y. y ≢ x) xs × Distinct xs

-- The file ends before the offset `end`.
abbrev pub IsWithin : Dbf → ℕ → Type 0
IsWithin s end = (n : ℕ) → end ≤ n → s.disk n ≡ none

ReadsAs-Same :
    (s t : Dbf) (size n next : ℕ) → Same s t → ReadsAs t size n next → ReadsAs s size n next
ReadsAs-Same s t size n next p (raw, valid, d, v, e) =
    (raw, valid, (let q = p.0 in cc), (let q = p.1 in let r = p.2 in let u = p.3 in cc), e)

pub Chain-Same :
    (s t : Dbf) (size n : ℕ) (ns : List ℕ) → Same s t → Chain t size n ns → Chain s size n ns
Chain-Same s t size n [] p c = c
Chain-Same s t size n (x ∷ xs) p (e, nz, (next, r, c)) =
    (e, nz, (next, ReadsAs-Same s t size x next p r, Chain-Same s t size next xs p c))

pub IsWithin-Same : (s t : Dbf) (end : ℕ) → Same s t → IsWithin s end → IsWithin t end
IsWithin-Same s t end p w n le = (let q = p.0 in let r = w n le in cc)

weaken-AreNew : (r n : ℕ) (base xs : List ℕ) → AreNew (insert_at r n base) xs → AreNew base xs
weaken-AreNew r n base [] a = tt
weaken-AreNew r n base (x ∷ xs) a =
    ((λ h. a.0 (insert_at-Has r n x base (inr h))), weaken-AreNew r n base xs a.1)

others : (r n : ℕ) (base xs : List ℕ) → AreNew (insert_at r n base) xs → All (λ y. y ≢ n) xs
others r n base [] a = tt
others r n base (x ∷ xs) a = ((λ e. a.0 (insert_at-Has r n x base (inl e))), others r n base xs a.1)

-- What the loop has walked through when it succeeds.
abbrev pub Walked : Dbf → List ℕ → ℕ → ℕ → Type 0
Walked s base size n = (ns : List ℕ) × Chain s size n ns × AreNew base ns × Distinct ns

Walked-insert_at :
    (s t : Dbf) (base : List ℕ) (size n next r : ℕ)
    → Same s t
    → n ≢ 0
    → IsPlace n base r
    → ReadsAs t size n next
    → Walked t (insert_at r n base) size next
    → Walked s base size n
Walked-insert_at s t base size n next r p nz place reads (ns, c, new, d) = (
  n ∷ ns,
  (refl, nz, (next, ReadsAs-Same s t size n next p reads, Chain-Same s t size next ns p c)),
  (IsPlace-absent n r base place, weaken-AreNew r n base ns new),
  (others r n base ns new, d),
)

ReadsAs-below : (s : Dbf) (size n next end : ℕ) → IsWithin s end → ReadsAs s size n next → n < end
ReadsAs-below s size n next end w (raw, valid, d, v, e) = elim (Bool-cases (ltb n end)) [
  | inl y ↦ ground arith
  | inr past ↦ (let gone = w n (ground arith) in absurd (none-some (sym gone ∙ d)))
]
  where
    none-some : {A : Type 0} {a : A} → none ≡ some a → ⊥
    none-some e = cc

after_lookup :
    (fuel size end high : ℕ) (m : OffMap) (n : ℕ) (s : Dbf)
    → Ascending m.map_base
    → All (λ y. y < high) m.map_base
    → end ≤ high
    → high < suc fuel + length m.map_base
    → IsWithin s end
    → ((m' : OffMap) (n' : ℕ) (v : Dbf)
        → Ascending m'.map_base
        → All (λ y. y < high) m'.map_base
        → high < fuel + length m'.map_base
        → IsWithin v end
        → Ends
            (λ _ _. Walked v m'.map_base size n')
            (traverse_loop fuel (λ blk x. false) size m' n' v))
    → n ≢ 0
    → (o : Option OffMap) (t : Dbf) → Same s t
    → LookedUp n m.map_base o
    → Ends {A = Unit {0}}
        (λ _ _. Walked s m.map_base size n)
        ((elim o as (λ _. M (Unit {0})) [
          | none ↦ fail bad_avail
          | some m' ↦
              call_soft file_seek_error
              >> (call_read
                  >> (read_avail_block n size
                      >>= (λ blk. traverse_loop fuel (λ blk x. false) size m' blk.next_block)))
        ])
          t)
after_lookup fuel size end high m n s asc below eh enough w ih nz none t p k = tt
after_lookup fuel size end high m n s asc below eh enough w ih nz (some m') t p (r, place, e) =
    Ends-bind (λ _ u. Same s u) (λ _ _. Walked s m.map_base size n) (call_soft file_seek_error t) _
      (Ends-mono (λ _ u. Same t u) (λ _ u. Same s u) _ (call_soft-Same file_seek_error t)
        (λ _ u q. Same-trans s t u p q))
      (λ _ u q.
        Ends-bind (λ _ v. Same s v) (λ _ _. Walked s m.map_base size n) (call_read u) _
          (Ends-mono (λ _ v. Same u v) (λ _ v. Same s v) _ (call_read-Same u)
            (λ _ v q'. Same-trans s u v q q'))
          (λ _ v q'.
            Ends-bind (λ blk x. (x ≡ v) × ReadsAs v size n blk.next_block)
              (λ _ _. Walked s m.map_base size n) (read_avail_block n size v) _
              (read_avail_block-ReadsAs n size v)
              (λ blk x k. rw k.0 (
                let low : n < end =
                  ReadsAs-below v size n blk.next_block end (IsWithin-Same s v end q' w) k.1 in
                let grown = length-insert_at r n m.map_base in
                Ends-mono (λ _ _. Walked v m'.map_base size blk.next_block)
                  (λ _ _. Walked s m.map_base size n) _
                  (ih m' blk.next_block v (rw e (insert_at-Ascending r n m.map_base asc place))
                    (rw e (below-insert_at r n high m.map_base (omega arith) below))
                    (rw e (omega arith)) (IsWithin-Same s v end q' w))
                  (λ _ _ h.
                    Walked-insert_at s v m.map_base size n blk.next_block r q' nz place k.1
                      (subst (λ (b : List ℕ). Walked v b size blk.next_block) e h))))))

pub traverse_loop-Ends :
    (fuel size end high : ℕ) (m : OffMap) (n : ℕ) (s : Dbf)
    → Ascending m.map_base
    → All (λ y. y < high) m.map_base
    → end ≤ high
    → high < fuel + length m.map_base
    → IsWithin s end
    → Ends (λ _ t. Walked s m.map_base size n) (traverse_loop fuel (λ blk x. false) size m n s)
unfolding traverse_loop
traverse_loop-Ends zero size end high m n s asc below eh enough w =
    (let l = Ascending-length high m.map_base asc below in absurd (omega arith))
traverse_loop-Ends (suc fuel) size end high m n s asc below eh enough w =
    elim (Bool-cases (n == 0)) [
      | inl z ↦ rw (traverse_loop, z) ([], (ground arith), tt, tt)
      | inr nz ↦
          rw (traverse_loop, nz)
            (Ends-bind (λ o t. Same s t × LookedUp n m.map_base o)
              (λ _ t. Walked s m.map_base size n) (off_map_lookup m n s) _
              (off_map_lookup-LookedUp m n s asc)
              (λ o t k.
                after_lookup fuel size end high m n s asc below eh enough w
                  (λ m' n' v a b h. traverse_loop-Ends fuel size end high m' n' v a b eh h)
                  (ground arith) o t k.0 k.1))
    ]
