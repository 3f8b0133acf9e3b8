-- ===== src/Cache/Chains.antt =====
-- src/bucket.c: the chains of the cache's table.
use gdbm.Prelude.{ℕ, ◌≡◌, Option, none, some, List, [], ◌∷◌, ◌==◌, if◌then◌else◌}
use gdbm.Cache.State.{CacheElem, CachedDbf}
use gdbm.Cache.Links.{Elems, change, last, IsNew}
use gdbm.Cache.{Slot, table, coll, read_slot}

-- The elements that a link leads to, one after the other.
abbrev pub Chained : Elems → Option ℕ → List ℕ → Type 0
Chained e link [] = link ≡ none
Chained e link (x ∷ xs) = (link ≡ some x) × Chained e (e x).ca_coll xs

-- The first element with an address.
abbrev pub first_with : ℕ → Elems → List ℕ → Option ℕ
first_with adr e [] = none
first_with adr e (x ∷ xs) = if (e x).ca_adr == adr then some x else first_with adr e xs

-- The link at the end of the chain of a slot.
abbrev pub end_of : ℕ → List ℕ → Slot
end_of h [] = table h
end_of h (x ∷ xs) = coll (last x xs)

-- What the look-up answers for a chain.
abbrev pub Found : ℕ → ℕ → List ℕ → CachedDbf → Slot → Type 0
Found adr h l s slot =
    (read_slot slot s ≡ first_with adr s.elems l)
    × (first_with adr s.elems l ≡ none → slot ≡ end_of h l)

Chained-change :
    (id : ℕ) (f : CacheElem → CacheElem) (e : Elems) (link : Option ℕ) (l : List ℕ)
    → IsNew id l
    → Chained e link l
    → Chained (change id f e) link l
Chained-change id f e link [] new c = c
Chained-change id f e link (x ∷ xs) (ne, new) (p, c) =
    (p, rw ne (Chained-change id f e (e x).ca_coll xs new c))
