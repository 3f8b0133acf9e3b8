-- ===== src/Cache.antt =====
-- src/bucket.c: the bucket cache, a hash table with chains, a list in order of use, and a pool of
-- elements.
pub mod State
pub mod Links
pub mod Order
pub mod Flush
pub mod Chains
pub mod Access
pub mod Hit
use Prim.Native.Nat.{bit_and, bit_or, bit_xor}
use gdbm.Prelude.{
  ℕ, zero, suc, ◌+◌, ◌-◌, ◌*◌, ◌/◌, ◌%◌, ◌^◌, Bool, true, false, not, ◌&&◌, ◌||◌, Option, none,
  some, List, [], ◌∷◌, ltb, leb, ◌==◌, if◌then◌else◌, get_or,
}
use gdbm.Hash.{hash_bits}
use gdbm.Errno.{
  GdbmError, malloc_error, file_seek_error, file_write_error, opt_badval, set_errno, code,
}
use gdbm.Cache.State.{
  CacheElem, CachedDbf, Outcome, done, failed, aborted, out_of_fuel, M, ◌>>=◌, ◌>>◌, return, step,
  call, call_write, update,
}

-- The product of unsigned longs is cut to 32 bits.
unfoldable pub adrhash : ℕ → ℕ → ℕ
adrhash adr nbits =
    let mixed = bit_xor adr (adr / 2 ^ (hash_bits + 1 - nbits)) in
    265443576910 * mixed % 2 ^ 32 / 2 ^ (hash_bits + 1 - nbits)

-- A `cache_elem **`: a slot of the table, or the link of an element to the next of its chain.
pub data Slot : Type 0 where
  table : ℕ → Slot
  coll : ℕ → Slot

abbrev pub read_slot : Slot → CachedDbf → Option ℕ
read_slot (table h) s = s.cache h
read_slot (coll p) s = (s.elems p).ca_coll

abbrev pub write_slot : Slot → Option ℕ → CachedDbf → CachedDbf
write_slot (table h) v s = record s { cache = λ k. if k == h then v else s.cache k }
write_slot (coll p) v s = update p (λ e. record e { ca_coll = v }) s

-- The walk along a chain: the link to the element with this address, or the last link.
unfoldable pub chain_loop : ℕ → ℕ → ℕ → CachedDbf → Option Slot
chain_loop zero adr prev s = none
chain_loop (suc fuel) adr prev s = elim (s.elems prev).ca_coll [
  | none ↦ some (coll prev)
  | some p ↦ elim ((s.elems p).ca_adr == adr) [
    | true ↦ some (coll prev)
    | false ↦ chain_loop fuel adr p s
  ]
]

-- A chain is no longer than the elements that were allocated.
unfoldable pub cache_tab_lookup_slot : ℕ → M Slot
cache_tab_lookup_slot adr s =
    let h = adrhash adr s.cache_bits in
    elim (s.cache h) [
      | none ↦ done (table h) s
      | some first ↦ elim ((s.elems first).ca_adr == adr) [
        | true ↦ done (table h) s
        | false ↦ elim (chain_loop s.fresh adr first s) [
          | none ↦ out_of_fuel
          | some slot ↦ done slot s
        ]
      ]
    ]

-- What is done to an element that may be NULL.
abbrev pub update_opt : Option ℕ → (CacheElem → CacheElem) → CachedDbf → CachedDbf
update_opt none f s = s
update_opt (some id) f s = update id f s

-- The element linked between `ref` and what follows it.
abbrev pub link_between : ℕ → Option ℕ → ℕ → CachedDbf → CachedDbf
link_between ref next elem s =
    let s1 : CachedDbf = update elem (λ e. record e { ca_prev = some ref; ca_next = next }) s in
    let s2 : CachedDbf = elim next [
      | none ↦ record s1 { cache_lru = some elem }
      | some x ↦ update x (λ e. record e { ca_prev = some elem }) s1
    ] in
    update ref (λ e. record e { ca_next = some elem }) s2

unfoldable pub lru_link_elem : ℕ → Option ℕ → CachedDbf → CachedDbf
lru_link_elem elem none s =
    let s1 : CachedDbf = update elem (λ e. record e { ca_prev = none; ca_next = s.cache_mru }) s in
    let s2 : CachedDbf = elim s.cache_mru [
      | none ↦ record s1 { cache_lru = some elem }
      | some mru ↦ update mru (λ e. record e { ca_prev = some elem }) s1
    ] in
    record s2 { cache_mru = some elem; bucket = some elem }
lru_link_elem elem (some ref) s = link_between ref (s.elems ref).ca_next elem s

-- The element unlinked from between these two.
abbrev pub unlink_between : Option ℕ → Option ℕ → ℕ → CachedDbf → CachedDbf
unlink_between prev next elem s =
    let s1 : CachedDbf = elim prev [
      | none ↦ record s { cache_mru = next; bucket = next }
      | some x ↦ update x (λ e. record e { ca_next = next }) s
    ] in
    let s2 : CachedDbf = elim next [
      | none ↦ record s1 { cache_lru = prev }
      | some x ↦ update x (λ e. record e { ca_prev = prev }) s1
    ] in
    update elem (λ e. record e { ca_prev = none; ca_next = none }) s2

unfoldable pub lru_unlink_elem : ℕ → CachedDbf → CachedDbf
lru_unlink_elem elem s = unlink_between (s.elems elem).ca_prev (s.elems elem).ca_next elem s

-- An element of the pool, or new memory.
unfoldable pub cache_elem_new : ℕ → M ℕ
cache_elem_new adr s =
    let init : CacheElem → CacheElem = λ e. record {
      ca_adr = adr;
      ca_changed = false;
      ca_prev = none;
      ca_next = none;
      ca_coll = none;
      ca_hits = 0;
    } in
    elim s.cache_avail [
      | some elem ↦ done elem (update elem init (record s { cache_avail = (s.elems elem).ca_next }))
      | none ↦ elim s.answers [
        | [] ↦ done s.fresh (update s.fresh init (record s { fresh = s.fresh + 1 }))
        | ok ∷ rest ↦
            if ok
            then done s.fresh
                (update s.fresh init (record s { fresh = s.fresh + 1; answers = rest }))
            else failed (record s { answers = rest })
      ]
    ]

-- The element taken out of its chain, if it is there.
unfoldable pub unchain_loop : ℕ → ℕ → Slot → M (Unit {0})
unchain_loop zero elem pp s = out_of_fuel
unchain_loop (suc fuel) elem pp s = elim (read_slot pp s) [
  | none ↦ done tt s
  | some p ↦ elim (p == elem) [
    | true ↦ done tt (write_slot pp (s.elems p).ca_coll s)
    | false ↦ unchain_loop fuel elem (coll p) s
  ]
]

unfoldable pub cache_elem_free : ℕ → M (Unit {0})
cache_elem_free elem s =
    let h = adrhash (s.elems elem).ca_adr s.cache_bits in
    let s1 = lru_unlink_elem elem s in
    let s2 : CachedDbf = update elem (λ e. record e { ca_next = s1.cache_avail }) s1 in
    unchain_loop (s.fresh + 1) elem (table h)
      (record s2 { cache_avail = some elem; cache_num = s2.cache_num - 1 })

-- The bucket is sought and written.
unfoldable pub write_bucket : ℕ → M (Unit {0})
write_bucket elem = do
  call true file_seek_error
  call_write
  step (update elem (λ e. record e { ca_changed = false }))

unfoldable pub flush_loop : ℕ → Option ℕ → M (Unit {0})
flush_loop fuel none s = done tt s
flush_loop zero (some elem) s = out_of_fuel
flush_loop (suc fuel) (some elem) s = elim (s.elems elem).ca_changed [
  | false ↦ done tt s
  | true ↦ (write_bucket elem >> (λ t. flush_loop fuel (t.elems elem).ca_next t)) s
]

-- The list is no longer than the elements that were allocated.
unfoldable pub cache_flush : M (Unit {0})
cache_flush s = flush_loop s.fresh s.cache_mru s

-- It is called with a list that is not empty.
unfoldable pub cache_lru_free : M (Unit {0})
cache_lru_free s = elim s.cache_lru [
  | none ↦ aborted
  | some last ↦ elim (s.elems last).ca_changed [
    | true ↦ (write_bucket last >> cache_elem_free last) s
    | false ↦ cache_elem_free last s
  ]
]
