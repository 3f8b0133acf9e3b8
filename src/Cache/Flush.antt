-- ===== src/Cache/Flush.antt =====
-- src/bucket.c: `_gdbm_cache_flush` writes every changed bucket.
use gdbm.Prelude.{
  ℕ, zero, suc, ◌≤◌, ◌≡◌, ◌⊎◌, inl, inr, refl, sym, ap, ◌∙◌, Bool, true, false, Option, none, some,
  List, [], ◌∷◌, ◌==◌, if◌then◌else◌, All, Bool-cases, length, arith,
}
use mathlib.Core.Path.{subst}
use gdbm.Errno.{GdbmError, file_seek_error, file_write_error, set_errno, code}
use gdbm.Cache.State.{
  CacheElem, CachedDbf, Outcome, done, failed, aborted, out_of_fuel, M, call, call_write, update,
}
use gdbm.Cache.Links.{Elems, change, first, Linked, IsNew, Distinct, itself}
use gdbm.Cache.Order.{IsOrder}
use gdbm.Cache.{write_bucket, flush_loop, cache_flush}

-- A step that ends, and what holds when it succeeds.
abbrev pub Ends : {A : Type 0} → (A → CachedDbf → Type 0) → Outcome A → Type 0
Ends P (done a s) = P a s
Ends P (failed s) = Unit
Ends P aborted = ⊥
Ends P out_of_fuel = ⊥

pub Ends-bind :
    {A B : Type 0} (P : A → CachedDbf → Type 0) (Q : B → CachedDbf → Type 0) (o : Outcome A)
    (f : A → M B)
    → Ends P o
    → ((a : A) (s : CachedDbf) → P a s → Ends Q (f a s))
    → Ends Q (elim o [
      | done a s' ↦ f a s'
      | failed s' ↦ failed s'
      | aborted ↦ aborted
      | out_of_fuel ↦ out_of_fuel
    ])
Ends-bind P Q (done a s) f h k = k a s h
Ends-bind P Q (failed s) f h k = tt
Ends-bind P Q aborted f h k = h
Ends-bind P Q out_of_fuel f h k = h

pub Ends-mono :
    {A : Type 0} (P Q : A → CachedDbf → Type 0) (o : Outcome A)
    → Ends P o
    → ((a : A) (s : CachedDbf) → P a s → Q a s)
    → Ends Q o
Ends-mono P Q (done a s) h k = k a s h
Ends-mono P Q (failed s) h k = tt
Ends-mono P Q aborted h k = h
Ends-mono P Q out_of_fuel h k = h

-- Only answers are used up.
abbrev Answered : CachedDbf → CachedDbf → Type 0
Answered s t = (l : List Bool) × (t ≡ record s { answers = l })

call-Answered :
    (fatal : Bool) (ec : GdbmError) (s : CachedDbf) → Ends (λ _ t. Answered s t) (call fatal ec s)
call-Answered fatal ec s = answered s.answers refl
  where
    answered :
        (l : List Bool)
        → s.answers ≡ l
        → Ends {A = Unit {0}}
            (λ _ t. Answered s t)
            (elim l [
              | [] ↦ done tt s
              | ok ∷ rest ↦
                  if ok
                  then done tt (record s { answers = rest })
                  else failed
                      (record s { answers = rest; error = set_errno s.errno ec fatal s.error })
            ])
    answered [] e = (s.answers, refl)
    answered (true ∷ rest) e = (rest, refl)
    answered (false ∷ rest) e = tt

call_write-Answered : (s : CachedDbf) → Ends (λ _ t. Answered s t) (call_write s)
call_write-Answered s = answered s.answers
  where
    refusal :
        (c : Bool) (t u : CachedDbf)
        → Ends {A = Unit {0}} (λ _ t. Answered s t) (if c then failed t else failed u)
    refusal true t u = tt
    refusal false t u = tt

    answered :
        (l : List Bool)
        → Ends {A = Unit {0}}
            (λ _ t. Answered s t)
            (elim l [
              | [] ↦ done tt s
              | ok ∷ rest ↦
                  if ok
                  then done tt (record s { answers = rest })
                  else if code s.error.last_error == 0
                  then failed (record s {
                    answers = rest;
                    error = set_errno s.errno file_write_error true s.error;
                  })
                  else failed (record s { answers = rest })
            ])
    answered [] = (s.answers, refl)
    answered (true ∷ rest) = (rest, refl)
    answered (false ∷ rest) = refusal (code s.error.last_error == 0) _ _

abbrev pub cleaned : CacheElem → CacheElem
cleaned e = record e { ca_changed = false }

-- Only changed buckets become unchanged, and answers are used up.
pub record Keeps (s t : CachedDbf) : Type 0 where
  pub mru : t.cache_mru ≡ s.cache_mru
  pub lru : t.cache_lru ≡ s.cache_lru
  pub current : t.bucket ≡ s.bucket
  pub elem : (k : ℕ) → (t.elems k ≡ s.elems k) ⊎ (t.elems k ≡ cleaned (s.elems k))

pub Keeps-trans : (s t u : CachedDbf) → Keeps s t → Keeps t u → Keeps s u
Keeps-trans s t u a b = record {
  mru = b.mru ∙ a.mru;
  lru = b.lru ∙ a.lru;
  current = b.current ∙ a.current;
  elem = λ k. elim (b.elem k) [
    | inl e ↦ elim (a.elem k) [ inl f ↦ inl (e ∙ f) | inr f ↦ inr (e ∙ f) ]
    | inr e ↦ elim (a.elem k) [ inl f ↦ inr (e ∙ ap cleaned f) | inr f ↦ inr (e ∙ ap cleaned f) ]
  ];
}

abbrev pub Written : ℕ → CachedDbf → CachedDbf → Type 0
Written id s t = (l : List Bool) × (t ≡ record (update id cleaned s) { answers = l })

write_bucket-Written : (id : ℕ) (s : CachedDbf) → Ends (λ _ t. Written id s t) (write_bucket id s)
unfolding write_bucket
write_bucket-Written id s =
    Ends-bind (λ _ t. Answered s t) (λ _ t. Written id s t) (call true file_seek_error s) _
      (call-Answered true file_seek_error s)
      (λ _ t k.
        Ends-bind (λ _ u. Answered t u) (λ _ u. Written id s u) (call_write t) _
          (call_write-Answered t)
          (λ _ u j. (
            j.0,
            ap (update id cleaned) (j.1 ∙ ap (λ (x : CachedDbf). record x { answers = j.0 }) k.1),
          )))

-- No bucket of the list is changed.
abbrev pub AllClean : Elems → List ℕ → Type 0
AllClean e l = All (λ x. (e x).ca_changed ≡ false) l

-- The changed buckets of the list come first.
abbrev pub Contiguous : Elems → List ℕ → Type 0
Contiguous e [] = Unit
Contiguous e (x ∷ xs) = (((e x).ca_changed ≡ true) × Contiguous e xs) ⊎ AllClean e (x ∷ xs)

Keeps-clean :
    (s t : CachedDbf) (k : ℕ)
    → Keeps s t
    → (s.elems k).ca_changed ≡ false
    → (t.elems k).ca_changed ≡ false
Keeps-clean s t k p c = elim (p.elem k) [
  | inl e ↦ ap (λ (x : CacheElem). x.ca_changed) e ∙ c
  | inr e ↦ ap (λ (x : CacheElem). x.ca_changed) e
]

pub Keeps-Linked :
    (s t : CachedDbf) (before after : Option ℕ) (l : List ℕ)
    → Keeps s t
    → Linked s.elems before l after
    → Linked t.elems before l after
Keeps-Linked s t before after [] p k = tt
Keeps-Linked s t before after (x ∷ xs) p (a, b, c) = elim (p.elem x) [
  | inl e ↦ (
    ap (λ (x : CacheElem). x.ca_prev) e ∙ a,
    ap (λ (x : CacheElem). x.ca_next) e ∙ b,
    Keeps-Linked s t (some x) after xs p c,
  )
  | inr e ↦ (
    ap (λ (x : CacheElem). x.ca_prev) e ∙ a,
    ap (λ (x : CacheElem). x.ca_next) e ∙ b,
    Keeps-Linked s t (some x) after xs p c,
  )
]

pub Written-Keeps : (id : ℕ) (s t : CachedDbf) → Written id s t → Keeps s t
Written-Keeps id s t (l, e) = rw e (record {
  mru = refl;
  lru = refl;
  current = refl;
  elem = λ k. elim (Bool-cases (k == id)) [ inl y ↦ inr (rw y refl) | inr n ↦ inl (rw n refl) ];
})

AllClean-change :
    (id : ℕ) (e : Elems) (l : List ℕ) → IsNew id l → AllClean e l → AllClean (change id cleaned e) l
AllClean-change id e [] new c = tt
AllClean-change id e (x ∷ xs) (ne, new) (c, cs) = (rw ne c, AllClean-change id e xs new cs)

Contiguous-change :
    (id : ℕ) (e : Elems) (l : List ℕ)
    → IsNew id l
    → Contiguous e l
    → Contiguous (change id cleaned e) l
Contiguous-change id e [] new c = tt
Contiguous-change id e (x ∷ xs) (ne, new) (inl (c, cs)) =
    inl (rw ne c, Contiguous-change id e xs new cs)
Contiguous-change id e (x ∷ xs) new (inr c) = inr (AllClean-change id e (x ∷ xs) new c)

pub Keeps-refl : (s : CachedDbf) → Keeps s s
Keeps-refl s = record { mru = refl; lru = refl; current = refl; elem = λ k. inl refl }

flush_loop_lem :
    (fuel : ℕ) (l : List ℕ) (before : Option ℕ) (s : CachedDbf)
    → length l ≤ fuel
    → Distinct l
    → Linked s.elems before l none
    → Contiguous s.elems l
    → Ends (λ _ t. AllClean t.elems l × Keeps s t) (flush_loop fuel (first l none) s)
unfolding flush_loop
flush_loop_lem zero [] before s h d k c = (tt, Keeps-refl s)
flush_loop_lem (suc fuel) [] before s h d k c = (tt, Keeps-refl s)
flush_loop_lem zero (x ∷ xs) before s h d k c = absurd (omega arith)
flush_loop_lem (suc fuel) (x ∷ xs) before s h d k (inr clean) =
    rw (flush_loop, clean.0) (clean, Keeps-refl s)
flush_loop_lem (suc fuel) (x ∷ xs) before s h (new, d) (p, n, k) (inl (changed, c)) =
    rw (flush_loop, changed)
      (Ends-bind (λ _ t. Written x s t) (λ _ t. AllClean t.elems (x ∷ xs) × Keeps s t)
        (write_bucket x s) _ (write_bucket-Written x s)
        (λ _ t w.
          let kept = Written-Keeps x s t w in
          let (l, e) = w in
          let elems_are : t.elems ≡ change x cleaned s.elems = ap (λ (u : CachedDbf). u.elems) e in
          let clean : (t.elems x).ca_changed ≡ false =
            ap (λ (f : Elems). (f x).ca_changed) elems_are ∙ rw (itself x) refl in
          let next : (t.elems x).ca_next ≡ first xs none =
            (Keeps-Linked s t before none (x ∷ xs) kept (p, n, k)).1 in
          let rest =
            flush_loop_lem fuel xs (some x) t (omega arith) d
              (Keeps-Linked s t (some x) none xs kept k)
              (subst (λ (f : Elems). Contiguous f xs) (sym elems_are)
                (Contiguous-change x s.elems xs new c)) in
          subst
            (λ (o : Option ℕ).
              Ends (λ _ u. AllClean u.elems (x ∷ xs) × Keeps s u) (flush_loop fuel o t))
            (sym next)
            (Ends-mono (λ _ u. AllClean u.elems xs × Keeps t u)
              (λ _ u. AllClean u.elems (x ∷ xs) × Keeps s u) _ rest
              (λ _ u r. ((Keeps-clean t u x r.1 clean, r.0), Keeps-trans s t u kept r.1)))))

-- For a list no longer than the elements that were allocated, in which the changed buckets come
-- first: the flush ends, whatever the writes answer; and when it succeeds, no bucket of the list is
-- changed any more, and the list, its order and the current bucket are as before.
pub cache_flush_lem :
    (l : List ℕ) (s : CachedDbf)
    → IsOrder l s
    → length l ≤ s.fresh
    → Contiguous s.elems l
    → Ends (λ _ t. AllClean t.elems l × IsOrder l t) (cache_flush s)
unfolding cache_flush
cache_flush_lem l s o h c =
    subst
      (λ (m : Option ℕ). Ends (λ _ t. AllClean t.elems l × IsOrder l t) (flush_loop s.fresh m s))
      (sym o.mru)
      (Ends-mono (λ _ t. AllClean t.elems l × Keeps s t) (λ _ t. AllClean t.elems l × IsOrder l t) _
        (flush_loop_lem s.fresh l none s h o.distinct o.linked c)
        (λ _ t k. (
          k.0,
          record {
            mru = k.1.mru ∙ o.mru;
            lru = k.1.lru ∙ o.lru;
            current = k.1.current ∙ o.current;
            linked = Keeps-Linked s t none none l k.1 o.linked;
            distinct = o.distinct;
          },
        )))
