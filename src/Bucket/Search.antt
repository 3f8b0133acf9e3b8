-- ===== src/Bucket/Search.antt =====
-- The search of src/findkey.c (`_gdbm_findkey`) and the insertion of src/gdbmstore.c in a bucket's
-- table, as a client knows them.
use gdbm.Bucket.{new_element, new_bucket}
use gdbm.Prelude.{
  zero, suc, replicate, ℕ, ◌%◌, ◌<◌, ◌≡◌, ◌≢◌, ◌⊎◌, inl, inr, refl, true, false, Option, none, some,
  List, length, length-set, set, ltb, ◌==◌, Bool-cases, Option-cases, some_inj, ltb→lt, ap, sym,
  ◌∙◌, arith,
}
use mathlib.Core.Path.{subst}
use gdbm.Bucket.{
  BucketElement, at, is_used, key_matches, find_loop, find_slot, free_loop, insert_element,
}
use gdbm.Bucket.Cyclic.{dist, dist_self, dist_inj}
use gdbm.Bucket.Probe.{
  IsProbed, Before, Misses, FoundAt, FreeAt, at-set, find_loop_lem, free_loop_lem,
}

-- A match is an element with the hash value.
pub key_matches_hash :
    (read_entry : BucketElement → List ℕ) (hash : ℕ) (key : List ℕ) (e : BucketElement)
    → key_matches read_entry hash key e ≡ true
    → e.hash_value ≡ some hash
unfolding key_matches
key_matches_hash read_entry hash key e m = elim (Option-cases e.hash_value) [
  | inl q ↦ absurd (ground arith)
  | inr q ↦ elim (Bool-cases (q.0 == hash)) [
    | inl t ↦ q.1 ∙ ap some (ground arith)
    | inr t ↦ absurd (ground arith)
  ]
]

pub used_iff : (e : BucketElement) (h : ℕ) → e.hash_value ≡ some h → is_used e ≡ true
unfolding is_used
used_iff e h q = rw q refl

pub unused_lem : (e : BucketElement) (h : ℕ) → e.hash_value ≡ some h → is_used e ≢ false
unused_lem e h q f = let u = used_iff e h q in absurd (cc)

module _ (read_entry : BucketElement → List ℕ) (key : List ℕ) (hash : ℕ)
    (table : List BucketElement) (some_room : 0 < length table) (p : IsProbed table) where
  -- A match lies no later than the first unused element.
  missed :
      (r k : ℕ)
      → r < length table
      → k < length table
      → is_used (at table r) ≡ false
      → Before table (hash % length table) r (Misses table (key_matches read_entry hash key))
      → key_matches read_entry hash key (at table k) ≡ false
  missed r k lr lk free before = elim (Bool-cases (key_matches read_entry hash key (at table k))) [
    | inr n ↦ n
    | inl m ↦
        let n = length table in
        let home = hash % length table in
        let q = key_matches_hash read_entry hash key (at table k) m in
        elim (Bool-cases (ltb (dist n home k) (dist n home r))) [
          | inl e ↦ (before k lk (ltb→lt _ _ e)).1
          | inr e ↦ elim (Bool-cases (dist n home k == dist n home r)) [
            | inl d ↦
                let same = dist_inj n home k r (grind arith) lk lr (ground arith) in
                absurd (
                  unused_lem (at table k) hash q
                    (subst (λ (x : ℕ). is_used (at table x) ≡ false) (sym same) free))
            | inr d ↦ let u = p k hash lk q r lr (ground arith) in absurd (cc)
          ]
        ]
  ]

  -- In a bucket with at least one position, where every used element is reached from its home by
  -- used elements alone, the search for a key finds nothing exactly when no position holds an
  -- element that matches the key. Otherwise it gives a position inside the table that does.
  pub find_slot_finds :
      ((find_slot table (key_matches read_entry hash key) hash ≡ none)
        × ((k : ℕ) → k < length table → key_matches read_entry hash key (at table k) ≡ false))
      ⊎ ((r : ℕ) × (find_slot table (key_matches read_entry hash key) hash ≡ some r)
          × (r < length table)
          × (key_matches read_entry hash key (at table r) ≡ true))
  unfolding find_slot
  find_slot_finds =
      let matches = key_matches read_entry hash key in
      let home = hash % length table in
      let found =
        find_loop_lem table home (grind arith) matches (length table) home (grind arith)
          (omega arith) (λ k lk d. absurd (let z = dist_self (length table) home in omega arith)) in
      elim (Option-cases (find_loop (length table) table matches home home)) [
        | inl e ↦ inl (
          e,
          λ k lk. elim (subst (FoundAt table home (grind arith) matches) e found) [
            | inl all ↦ (all k lk).1
            | inr stop ↦ missed stop.0 k stop.1 lk stop.2 stop.3
          ],
        )
        | inr e ↦
            let f = subst (FoundAt table home (grind arith) matches) e.1 found in
            inr (e.0, e.1, f.0, f.2)
      ]

abbrev hash_of : BucketElement → Option ℕ
hash_of e = e.hash_value

some≢none : {A : Type 0} {a : A} → some a ≢ none
some≢none h = absurd (cc)

pub set-IsProbed :
    (table : List BucketElement) (r h : ℕ) (e : BucketElement)
    → r < length table
    → IsProbed table
    → e.hash_value ≡ some h
    → Before table (h % length table) r (λ k. is_used (at table k) ≡ true)
    → IsProbed (set table r e)
set-IsProbed table r h e lr p q before i h' li qi k lk d = elim (at-set table r k e lr) [
  | inl new ↦ subst (λ x. is_used x ≡ true) (sym new.1) (used_iff e h q)
  | inr old ↦
      let len = length-set table r e in
      let lk' = subst (λ (n : ℕ). k < n) len lk in
      let d' = subst (λ (n : ℕ). dist n (h' % n) k < dist n (h' % n) i) len d in
      rw old.1 (elim (at-set table r i e lr) [
        | inl here ↦
            let same : h' ≡ h = some_inj (sym qi ∙ ap hash_of here.1 ∙ q) in
            before k lk' (rw (sym same, sym here.0) d')
        | inr there ↦
            p i h' (subst (λ (n : ℕ). i < n) len li) (sym (ap hash_of there.1) ∙ qi) k lk' d'
      ])
]

-- The insertion into a bucket with at least one position, where every used element is reached from
-- its home by used elements alone: it fails exactly when every position is used. Otherwise the
-- element, with its hash value, is written to a position that was unused, nothing else changes,
-- and every used element is still reached from its home.
pub insert_element_lem :
    (table : List BucketElement) (hash : ℕ) (e : BucketElement)
    → 0 < length table
    → IsProbed table
    → ((insert_element table hash e ≡ none)
        × ((k : ℕ) → k < length table → is_used (at table k) ≡ true))
      ⊎ ((r : ℕ) × (insert_element table hash e
            ≡ some (set table r (record e { hash_value = some hash })))
          × (r < length table)
          × (is_used (at table r) ≡ false)
          × IsProbed (set table r (record e { hash_value = some hash })))
unfolding insert_element
insert_element_lem table hash e room p =
    let home = hash % length table in
    let free =
      free_loop_lem table home (grind arith) (length table) home (grind arith) (omega arith)
        (λ k lk d. absurd (let z = dist_self (length table) home in omega arith)) in
    elim (Option-cases (free_loop (length table) table home home)) [
      | inl none_free ↦ inl (
        rw (insert_element, none_free) refl,
        subst (FreeAt table home (grind arith)) none_free free,
      )
      | inr at_r ↦
          let f = subst (FreeAt table home (grind arith)) at_r.1 free in
          inr (
            at_r.0,
            rw (insert_element, at_r.1) refl,
            f.0,
            f.1,
            set-IsProbed table at_r.0 hash (record e { hash_value = some hash }) f.0 p refl f.2,
          )
    ]

-- In a bucket with at least one position, where every used element is reached from its home by
-- used elements alone, and where the search for a key finds nothing: once an element is inserted
-- that matches the key, the search for the key finds that element.
pub find_slot-insert_element :
    (read_entry : BucketElement → List ℕ) (key : List ℕ) (hash : ℕ)
    (table table' : List BucketElement) (e : BucketElement)
    → 0 < length table
    → IsProbed table
    → key_matches read_entry hash key (record e { hash_value = some hash }) ≡ true
    → find_slot table (key_matches read_entry hash key) hash ≡ none
    → insert_element table hash e ≡ some table'
    → (r : ℕ) × (find_slot table' (key_matches read_entry hash key) hash ≡ some r)
      × (at table' r ≡ record e { hash_value = some hash })
find_slot-insert_element read_entry key hash table table' e room p m absent inserted =
    elim (find_slot_finds read_entry key hash table room p) [
      | inr f ↦ absurd (some≢none (sym f.1 ∙ absent))
      | inl nowhere ↦ elim (insert_element_lem table hash e room p) [
        | inl full ↦ absurd (some≢none (sym inserted ∙ full.0))
        | inr w ↦
            let new : BucketElement = record e { hash_value = some hash } in
            let same : set table w.0 new ≡ table' = some_inj (sym w.1 ∙ inserted) in
            let len = length-set table w.0 new in
            subst
              (λ t.
                (r : ℕ) × (find_slot t (key_matches read_entry hash key) hash ≡ some r)
                × (at t r ≡ new))
              same
              (elim (find_slot_finds read_entry key hash (set table w.0 new) (rw len room) w.4) [
                | inl n ↦
                    let miss = n.1 w.0 (rw len w.2) in
                    elim (at-set table w.0 w.0 new w.2) [
                      | inl self ↦
                          absurd (let z = ap (key_matches read_entry hash key) self.1 in cc)
                      | inr other ↦ absurd (other.0 refl)
                    ]
                | inr y ↦ (
                  y.0,
                  y.1,
                  elim (at-set table w.0 y.0 new w.2) [
                    | inl self ↦ self.1
                    | inr other ↦
                        let z = ap (key_matches read_entry hash key) other.1 in
                        let miss = nowhere.1 y.0 (subst (λ (n : ℕ). y.0 < n) len y.2) in absurd (cc)
                  ],
                )
              ])
      ]
    ]

at-replicate : (n i : ℕ) → at (replicate n new_element) i ≡ new_element
at-replicate zero i = refl
at-replicate (suc n) zero = refl
at-replicate (suc n) (suc i) = at-replicate n i

-- A new bucket has no used element.
pub new_bucket-IsProbed : (n bits : ℕ) → IsProbed (new_bucket n bits).h_table
unfolding new_bucket
new_bucket-IsProbed n bits i h li q k lk d =
    let e = sym (ap hash_of (at-replicate n i)) ∙ q in absurd (some≢none (sym e))
