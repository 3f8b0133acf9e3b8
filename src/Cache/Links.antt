-- ===== src/Cache/Links.antt =====
-- Elements linked in a sequence, and what a change of one element does to the links.
use gdbm.Prelude.{
  ℕ, ◌≡◌, refl, true, false, Option, none, some, List, [], ◌∷◌, ◌++◌, ◌==◌, if◌then◌else◌, All,
  arith,
}
use gdbm.Cache.State.{CacheElem}

abbrev pub Elems : Type 0
Elems = ℕ → CacheElem

abbrev pub change : ℕ → (CacheElem → CacheElem) → Elems → Elems
change id f e = λ k. if k == id then f (e k) else e k

abbrev pub first : List ℕ → Option ℕ → Option ℕ
first [] d = d
first (x ∷ xs) d = some x

abbrev pub last : ℕ → List ℕ → ℕ
last x [] = x
last x (y ∷ ys) = last y ys

abbrev pub last_or : List ℕ → Option ℕ → Option ℕ
last_or [] d = d
last_or (x ∷ xs) d = some (last x xs)

-- The elements are linked in this order, between an element before them and one after them.
abbrev pub Linked : Elems → Option ℕ → List ℕ → Option ℕ → Type 0
Linked e before [] after = Unit
Linked e before (x ∷ xs) after =
    ((e x).ca_prev ≡ before) × ((e x).ca_next ≡ first xs after) × Linked e (some x) xs after

abbrev pub IsNew : ℕ → List ℕ → Type 0
IsNew x xs = All (λ y. (y == x) ≡ false) xs

abbrev pub Distinct : List ℕ → Type 0
Distinct [] = Unit
Distinct (x ∷ xs) = IsNew x xs × Distinct xs

pub apart : (x y : ℕ) → (x == y) ≡ false → (y == x) ≡ false
apart x y e = ground arith

pub itself : (x : ℕ) → (x == x) ≡ true
itself x = ground arith

-- A change elsewhere.
pub Linked-change :
    (id : ℕ) (f : CacheElem → CacheElem) (e : Elems) (before after : Option ℕ) (l : List ℕ)
    → IsNew id l
    → Linked e before l after
    → Linked (change id f e) before l after
Linked-change id f e before after [] new s = tt
Linked-change id f e before after (x ∷ xs) (ne, new) (p, n, s) =
    (rw ne p, rw ne n, Linked-change id f e (some x) after xs new s)

-- Another element before the first one.
pub Linked-first :
    (e : Elems) (before before' after : Option ℕ) (x : ℕ) (xs : List ℕ)
    → IsNew x xs
    → Linked e before (x ∷ xs) after
    → Linked (change x (λ c. record c { ca_prev = before' }) e) before' (x ∷ xs) after
Linked-first e before before' after x xs new (p, n, s) = (
  rw (itself x) refl,
  rw (itself x) n,
  Linked-change x (λ c. record c { ca_prev = before' }) e (some x) after xs new s,
)

pub IsNew-last : (y x : ℕ) (xs : List ℕ) → IsNew y (x ∷ xs) → (last x xs == y) ≡ false
IsNew-last y x [] (ne, new) = ne
IsNew-last y x (z ∷ zs) (ne, new) = IsNew-last y z zs new

-- Another element after the last one.
pub Linked-last :
    (e : Elems) (before after after' : Option ℕ) (x : ℕ) (xs : List ℕ)
    → Distinct (x ∷ xs)
    → Linked e before (x ∷ xs) after
    → Linked (change (last x xs) (λ c. record c { ca_next = after' }) e) before (x ∷ xs) after'
Linked-last e before after after' x [] d (p, n, s) = (rw (itself x) p, rw (itself x) refl, tt)
Linked-last e before after after' x (y ∷ ys) (new, d) (p, n, s) =
    let ne : (x == last y ys) ≡ false = apart (last y ys) x (IsNew-last x y ys new) in
    (rw ne p, rw ne n, Linked-last e (some x) after after' y ys d s)

-- Two parts of a list.
pub Linked-split :
    (e : Elems) (before after : Option ℕ) (l m : List ℕ)
    → Linked e before (l ++ m) after
    → Linked e before l (first m after) × Linked e (last_or l before) m after
Linked-split e before after [] m s = (tt, s)
Linked-split e before after (x ∷ []) m (p, n, s) = ((p, n, tt), s)
Linked-split e before after (x ∷ y ∷ ys) m (p, n, s) =
    let r = Linked-split e (some x) after (y ∷ ys) m s in ((p, n, r.0), r.1)

pub Linked-join :
    (e : Elems) (before after : Option ℕ) (l m : List ℕ)
    → Linked e before l (first m after)
    → Linked e (last_or l before) m after
    → Linked e before (l ++ m) after
Linked-join e before after [] m s t = t
Linked-join e before after (x ∷ []) m (p, n, s) t = (p, n, t)
Linked-join e before after (x ∷ y ∷ ys) m (p, n, s) t =
    (p, n, Linked-join e (some x) after (y ∷ ys) m s t)

abbrev pub Disjoint : List ℕ → List ℕ → Type 0
Disjoint l m = All (λ x. IsNew x m) l

pub Disjoint-cons : (l m : List ℕ) (z : ℕ) → Disjoint l (z ∷ m) → IsNew z l × Disjoint l m
Disjoint-cons [] m z d = (tt, tt)
Disjoint-cons (x ∷ xs) m z (d, ds) =
    let r = Disjoint-cons xs m z ds in ((apart z x d.0, r.0), (d.1, r.1))

pub Disjoint-last : (x : ℕ) (xs m : List ℕ) → Disjoint (x ∷ xs) m → IsNew (last x xs) m
Disjoint-last x [] m d = d.0
Disjoint-last x (y ∷ ys) m d = Disjoint-last y ys m d.1

pub IsNew-split : (x : ℕ) (l m : List ℕ) → IsNew x (l ++ m) → IsNew x l × IsNew x m
IsNew-split x [] m d = (tt, d)
IsNew-split x (y ∷ ys) m (ne, d) = let r = IsNew-split x ys m d in ((ne, r.0), r.1)

pub IsNew-join : (x : ℕ) (l m : List ℕ) → IsNew x l → IsNew x m → IsNew x (l ++ m)
IsNew-join x [] m a b = b
IsNew-join x (y ∷ ys) m (ne, a) b = (ne, IsNew-join x ys m a b)

pub Distinct-split : (l m : List ℕ) → Distinct (l ++ m) → Distinct l × Distinct m × Disjoint l m
Distinct-split [] m d = (tt, d, tt)
Distinct-split (x ∷ xs) m (new, d) =
    let r = Distinct-split xs m d in let k = IsNew-split x xs m new in ((k.0, r.0), r.1, (k.1, r.2))

pub Distinct-join : (l m : List ℕ) → Distinct l → Distinct m → Disjoint l m → Distinct (l ++ m)
Distinct-join [] m d e a = e
Distinct-join (x ∷ xs) m (new, d) e (k, a) = (IsNew-join x xs m new k, Distinct-join xs m d e a)

pub last_or-append :
    (l : List ℕ) (z : ℕ) (zs : List ℕ) (d : Option ℕ) → last_or (l ++ z ∷ zs) d ≡ some (last z zs)
last_or-append [] z zs d = refl
last_or-append (x ∷ []) z zs d = refl
last_or-append (x ∷ y ∷ ys) z zs d = last_or-append (y ∷ ys) z zs d

pub first-append :
    (l : List ℕ) (x : ℕ) (m m' : List ℕ) → first (l ++ x ∷ m) none ≡ first (l ++ x ∷ m') none
first-append [] x m m' = refl
first-append (y ∷ ys) x m m' = refl
