-- ===== src/Cache/Order.antt =====
-- src/bucket.c: the doubly linked list of the cache's elements is a sequence, from the most to the
-- least recently used one.
use gdbm.Prelude.{ℕ, ◌≡◌, refl, sym, ◌∙◌, false, Option, none, some, List, [], ◌∷◌, ◌++◌, ◌==◌}
use mathlib.Core.Path.{subst}
use mathlib.Core.List.{append-nil}
use gdbm.Cache.State.{CacheElem, CachedDbf}
use gdbm.Cache.Links.{
  Elems, change, first, last, last_or, Linked, IsNew, Distinct, apart, itself, Linked-change,
  Linked-first, Linked-last, Linked-split, Linked-join, Disjoint, Disjoint-cons, Disjoint-last,
  IsNew-split, IsNew-join, Distinct-split, Distinct-join, last_or-append, first-append,
}
use gdbm.Cache.{lru_link_elem, link_between, unlink_between, lru_unlink_elem}

-- The list of the database's cache.
pub record IsOrder (l : List ℕ) (s : CachedDbf) : Type 0 where
  pub mru : s.cache_mru ≡ first l none
  pub lru : s.cache_lru ≡ last_or l none
  pub current : s.bucket ≡ first l none
  pub linked : Linked s.elems none l none
  pub distinct : Distinct l

-- An element linked at the head becomes the most recently used one, and the current bucket's.
pub lru_link_elem-head :
    (elem : ℕ) (l : List ℕ) (s : CachedDbf)
    → IsNew elem l
    → IsOrder l s
    → IsOrder (elem ∷ l) (lru_link_elem elem none s)
unfolding lru_link_elem
lru_link_elem-head elem [] s new o = rw o.mru (record {
  mru = refl;
  lru = refl;
  current = refl;
  linked = (rw (itself elem) refl, rw (itself elem) o.mru, tt);
  distinct = (tt, tt);
})
lru_link_elem-head elem (x ∷ xs) s new o = rw o.mru (record {
  mru = refl;
  lru = o.lru;
  current = refl;
  linked = (
    rw (apart x elem new.0, itself elem) refl,
    rw (apart x elem new.0, itself elem) o.mru,
    Linked-first (change elem (λ c. record c { ca_prev = none; ca_next = s.cache_mru }) s.elems)
        none (some elem) none x xs o.distinct.0
        (Linked-change elem (λ c. record c { ca_prev = none; ca_next = s.cache_mru }) s.elems none
          none (x ∷ xs) new o.linked),
  );
  distinct = (new, o.distinct);
})

-- What is known of an element in the middle of the list.
abbrev pub Around : List ℕ → ℕ → List ℕ → CachedDbf → Type 0
Around l elem m s =
    ((s.elems elem).ca_prev ≡ last_or l none)
    × ((s.elems elem).ca_next ≡ first m none)
    × Linked s.elems none l (some elem)
    × Linked s.elems (some elem) m none
    × Distinct l
    × Distinct m
    × Disjoint l m
    × IsNew elem l
    × IsNew elem m

pub IsOrder-Around :
    (l : List ℕ) (elem : ℕ) (m : List ℕ) (s : CachedDbf)
    → IsOrder (l ++ elem ∷ m) s
    → Around l elem m s
IsOrder-Around l elem m s o =
    let (left, (p, n, right)) = Linked-split s.elems none none l (elem ∷ m) o.linked in
    let (dl, (new, dm), apart_) = Distinct-split l (elem ∷ m) o.distinct in
    let (newl, disjoint) = Disjoint-cons l m elem apart_ in
    (p, n, left, right, dl, dm, disjoint, newl, new)

abbrev unlinked : CacheElem → CacheElem
unlinked c = record c { ca_prev = none; ca_next = none }

unlink_between-eq :
    (elem : ℕ) (s : CachedDbf) (prev next : Option ℕ) (l : List ℕ)
    → (s.elems elem).ca_prev ≡ prev
    → (s.elems elem).ca_next ≡ next
    → IsOrder l (unlink_between prev next elem s)
    → IsOrder l (lru_unlink_elem elem s)
unfolding lru_unlink_elem
unlink_between-eq elem s prev next l p n o =
    subst (λ (a : Option ℕ). IsOrder l (unlink_between a (s.elems elem).ca_next elem s)) (sym p)
      (subst (λ (b : Option ℕ). IsOrder l (unlink_between prev b elem s)) (sym n) o)

-- An element unlinked is out of the list, and the others keep their order.
pub lru_unlink_elem-IsOrder :
    (l : List ℕ) (elem : ℕ) (m : List ℕ) (s : CachedDbf)
    → IsOrder (l ++ elem ∷ m) s
    → IsOrder (l ++ m) (lru_unlink_elem elem s)
lru_unlink_elem-IsOrder [] elem [] s o =
    let (p, n, left, right, dl, dm, disjoint, newl, newm) = IsOrder-Around [] elem [] s o in
    unlink_between-eq elem s _ _ _ p n
      (record { mru = refl; lru = refl; current = refl; linked = tt; distinct = tt })
lru_unlink_elem-IsOrder [] elem (z ∷ zs) s o =
    let (p, n, left, right, dl, dm, disjoint, newl, newm) = IsOrder-Around [] elem (z ∷ zs) s o in
    unlink_between-eq elem s _ _ _ p n (record {
      mru = refl;
      lru = o.lru;
      current = refl;
      distinct = dm;
      linked =
          Linked-change elem unlinked (change z (λ c. record c { ca_prev = none }) s.elems) none
            none (z ∷ zs) newm (Linked-first s.elems (some elem) none none z zs dm.0 right);
    })
lru_unlink_elem-IsOrder (y ∷ ys) elem [] s o =
    let (p, n, left, right, dl, dm, disjoint, newl, newm) = IsOrder-Around (y ∷ ys) elem [] s o in
    let none_right : (y ∷ ys) ++ [] ≡ y ∷ ys = append-nil (y ∷ ys) in
    subst (λ (k : List ℕ). IsOrder k (lru_unlink_elem elem s)) (sym none_right)
      (unlink_between-eq elem s _ _ _ p n (record {
        mru = o.mru;
        lru = refl;
        current = o.current;
        distinct = dl;
        linked =
            Linked-change elem unlinked
              (change (last y ys) (λ c. record c { ca_next = none }) s.elems) none none (y ∷ ys)
              newl (Linked-last s.elems none (some elem) none y ys dl left);
      }))
lru_unlink_elem-IsOrder (y ∷ ys) elem (z ∷ zs) s o =
    let (p, n, left, right, dl, dm, disjoint, newl, newm) =
      IsOrder-Around (y ∷ ys) elem (z ∷ zs) s o in
    let next_of : CacheElem → CacheElem = λ c. record c { ca_next = some z } in
    let prev_of : CacheElem → CacheElem = λ c. record c { ca_prev = some (last y ys) } in
    let e1 : Elems = change (last y ys) next_of s.elems in
    let e2 : Elems = change z prev_of e1 in
    let d = Disjoint-cons (y ∷ ys) zs z disjoint in
    unlink_between-eq elem s _ _ _ p n (record {
      mru = o.mru;
      lru =
          o.lru
          ∙ last_or-append (y ∷ ys) elem (z ∷ zs) none
          ∙ sym (last_or-append (y ∷ ys) z zs none);
      current = o.current;
      distinct = Distinct-join (y ∷ ys) (z ∷ zs) dl dm disjoint;
      linked =
          Linked-join (change elem unlinked e2) none none (y ∷ ys) (z ∷ zs)
            (Linked-change elem unlinked e2 none (some z) (y ∷ ys) newl (
              Linked-change z prev_of e1 none (some z) (y ∷ ys) d.0
                (Linked-last s.elems none (some elem) (some z) y ys dl left)))
            (Linked-change elem unlinked e2 (some (last y ys)) none (z ∷ zs) newm (
              Linked-first e1 (some elem) (some (last y ys)) none z zs dm.0 (
                Linked-change (last y ys) next_of s.elems (some elem) none (z ∷ zs)
                  (Disjoint-last y ys (z ∷ zs) disjoint) right)));
    })

link_between-eq :
    (elem ref : ℕ) (s : CachedDbf) (next : Option ℕ) (l : List ℕ)
    → (s.elems ref).ca_next ≡ next
    → IsOrder l (link_between ref next elem s)
    → IsOrder l (lru_link_elem elem (some ref) s)
unfolding lru_link_elem
link_between-eq elem ref s next l n o =
    subst (λ (a : Option ℕ). IsOrder l (link_between ref a elem s)) (sym n) o

-- The links round the new element, from those of the elements around it.
Linked-between :
    (ref elem : ℕ) (l m : List ℕ) (e : Elems)
    → (e ref).ca_prev ≡ last_or l none
    → (e ref).ca_next ≡ some elem
    → (e elem).ca_prev ≡ some ref
    → (e elem).ca_next ≡ first m none
    → Linked e none l (some ref)
    → Linked e (some elem) m none
    → Linked e none (l ++ ref ∷ elem ∷ m) none
Linked-between ref elem l m e rp rn ep en left right =
    Linked-join e none none l (ref ∷ elem ∷ m) left (rp, rn, (ep, en, right))

Distinct-between :
    (ref elem : ℕ) (l m : List ℕ)
    → Distinct (l ++ ref ∷ m)
    → IsNew elem (l ++ ref ∷ m)
    → Distinct (l ++ ref ∷ elem ∷ m)
Distinct-between ref elem [] m (new, d) (ne, k) = ((apart ref elem ne, new), (k, d))
Distinct-between ref elem (y ∷ ys) m (new, d) (ne, k) =
    let s = IsNew-split y ys (ref ∷ m) new in
    (
      IsNew-join y ys (ref ∷ elem ∷ m) s.0 (s.1.0, (apart y elem ne, s.1.1)),
      Distinct-between ref elem ys m d k,
    )

-- An element linked after another one comes next in the list, and the current bucket stays.
pub lru_link_elem-after :
    (l : List ℕ) (ref elem : ℕ) (m : List ℕ) (s : CachedDbf)
    → IsNew elem (l ++ ref ∷ m)
    → IsOrder (l ++ ref ∷ m) s
    → IsOrder (l ++ ref ∷ elem ∷ m) (lru_link_elem elem (some ref) s)
lru_link_elem-after l ref elem [] s new o =
    let a : Around l ref [] s = IsOrder-Around l ref [] s o in
    let (p, n, left, right, dl, dm, disjoint, newl, newm) = a in
    let (el, (er, em)) = IsNew-split elem l (ref ∷ []) new in
    let place : CacheElem → CacheElem = λ c. record c { ca_prev = some ref; ca_next = none } in
    let next_of : CacheElem → CacheElem = λ c. record c { ca_next = some elem } in
    let e1 : Elems = change elem place s.elems in
    link_between-eq elem ref s none _ n (record {
      mru = o.mru ∙ first-append l ref [] (elem ∷ []);
      lru = sym (last_or-append l ref (elem ∷ []) none);
      current = o.current ∙ first-append l ref [] (elem ∷ []);
      distinct = Distinct-between ref elem l [] o.distinct new;
      linked =
          Linked-between ref elem l [] (change ref next_of e1) (rw (itself ref, er) p)
            (rw (itself ref) refl) (rw (apart ref elem er, itself elem) refl)
            (rw (apart ref elem er, itself elem) refl)
            (Linked-change ref next_of e1 none (some ref) l newl
              (Linked-change elem place s.elems none (some ref) l el left))
            tt;
    })
lru_link_elem-after l ref elem (z ∷ zs) s new o =
    let a : Around l ref (z ∷ zs) s = IsOrder-Around l ref (z ∷ zs) s o in
    let (p, n, left, right, dl, dm, disjoint, newl, newm) = a in
    let (el, (er, em)) = IsNew-split elem l (ref ∷ z ∷ zs) new in
    let place : CacheElem → CacheElem = λ c. record c { ca_prev = some ref; ca_next = some z } in
    let prev_of : CacheElem → CacheElem = λ c. record c { ca_prev = some elem } in
    let next_of : CacheElem → CacheElem = λ c. record c { ca_next = some elem } in
    let e1 : Elems = change elem place s.elems in
    let e2 : Elems = change z prev_of e1 in
    let d = Disjoint-cons l zs z disjoint in
    let rz : (ref == z) ≡ false = apart z ref newm.0 in
    link_between-eq elem ref s (some z) _ n (record {
      mru = o.mru ∙ first-append l ref (z ∷ zs) (elem ∷ z ∷ zs);
      lru =
          o.lru
          ∙ last_or-append l ref (z ∷ zs) none
          ∙ sym (last_or-append l ref (elem ∷ z ∷ zs) none);
      current = o.current ∙ first-append l ref (z ∷ zs) (elem ∷ z ∷ zs);
      distinct = Distinct-between ref elem l (z ∷ zs) o.distinct new;
      linked =
          Linked-between ref elem l (z ∷ zs) (change ref next_of e2) (rw (itself ref, rz, er) p)
            (rw (itself ref) refl) (rw (apart ref elem er, apart z elem em.0, itself elem) refl)
            (rw (apart ref elem er, apart z elem em.0, itself elem) refl)
            (Linked-change ref next_of e2 none (some ref) l newl (
              Linked-change z prev_of e1 none (some ref) l d.0
                (Linked-change elem place s.elems none (some ref) l el left)))
            (Linked-change ref next_of e2 (some elem) none (z ∷ zs) newm (
              Linked-first e1 (some ref) (some elem) none z zs dm.0
                (Linked-change elem place s.elems (some ref) none (z ∷ zs) em right)));
    })

-- An element that is unlinked and linked at the head comes first, and its bucket is the current
-- one; the others keep their order.
pub lru_link_elem-unlink :
    (l : List ℕ) (elem : ℕ) (m : List ℕ) (s : CachedDbf)
    → IsOrder (l ++ elem ∷ m) s
    → IsOrder (elem ∷ l ++ m) (lru_link_elem elem none (lru_unlink_elem elem s))
lru_link_elem-unlink l elem m s o =
    let (p, n, left, right, dl, dm, disjoint, newl, newm) = IsOrder-Around l elem m s o in
    lru_link_elem-head elem (l ++ m) (lru_unlink_elem elem s) (IsNew-join elem l m newl newm)
      (lru_unlink_elem-IsOrder l elem m s o)
