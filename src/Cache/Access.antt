-- ===== src/Cache/Access.antt =====
-- src/bucket.c: the size of the bucket cache, and the look-up of a bucket in it.
use Prim.Native.Nat.{bit_or}
use gdbm.Prelude.{
  ℕ, zero, suc, ◌+◌, ◌-◌, ◌*◌, ◌/◌, ◌%◌, ◌^◌, true, false, ◌&&◌, Option, none, some, List, [], ◌∷◌,
  ltb, ◌==◌, if◌then◌else◌, get_or,
}
use gdbm.Errno.{malloc_error, opt_badval, set_errno}
use gdbm.Cache.State.{
  CachedDbf, Outcome, done, failed, aborted, out_of_fuel, M, ◌>>=◌, ◌>>◌, return, step, call,
  update,
}
use gdbm.Cache.{
  Slot, read_slot, write_slot, cache_tab_lookup_slot, lru_link_elem, lru_unlink_elem,
  cache_elem_new, cache_elem_free, cache_flush, cache_lru_free,
}

-- The 32 bits below the highest bit that is set are set too.
abbrev pub smear : ℕ → ℕ
smear v =
    let v1 = bit_or v (v / 2) in
    let v2 = bit_or v1 (v1 / 4) in
    let v3 = bit_or v2 (v2 / 16) in let v4 = bit_or v3 (v3 / 256) in bit_or v4 (v4 / 65536)

abbrev pub dbp : List ℕ
dbp =
    0 ∷ 1 ∷ 28 ∷ 2 ∷ 29 ∷ 14 ∷ 24 ∷ 3 ∷ 30 ∷ 22 ∷ 20 ∷ 15 ∷ 25 ∷ 17 ∷ 4 ∷ 8 ∷ 31 ∷ 27 ∷ 13 ∷ 23 ∷ 21
    ∷ 19 ∷ 16 ∷ 7 ∷ 26 ∷ 12 ∷ 18 ∷ 6 ∷ 11 ∷ 5 ∷ 10 ∷ 9 ∷ []

-- An unsigned int of 32 bits; the decrement wraps.
unfoldable pub log2i : ℕ → ℕ
log2i v =
    get_or dbp ((smear ((v + (2 ^ 32 - 1)) % 2 ^ 32) + 1) % 2 ^ 32 * 0x077CB531 % 2 ^ 32 / 2 ^ 27) 0

-- The elements from the least recently used one on, put into the new table, or freed while there
-- are more of them than the table has slots.
unfoldable pub rehash_loop : ℕ → Option ℕ → M (Unit {0})
rehash_loop fuel none s = done tt s
rehash_loop zero (some elem) s = out_of_fuel
rehash_loop (suc fuel) (some elem) s =
    let prev = (s.elems elem).ca_prev in
    let s1 = update elem (λ e. record e { ca_coll = none }) s in
    elim (ltb s1.cache_size s1.cache_num) [
      | true ↦ (cache_elem_free elem >> rehash_loop fuel prev) s1
      | false ↦
          (cache_tab_lookup_slot (s1.elems elem).ca_adr >>= (λ p t. elim (read_slot p t) [
            | some other ↦ aborted
            | none ↦ rehash_loop fuel prev (write_slot p (some elem) t)
          ]))
            s1
    ]

unfoldable pub cache_tab_resize : ℕ → M (Unit {0})
cache_tab_resize bits s =
    if s.allocated && (2 ^ bits == s.cache_size)
    then done tt s
    else (do
      cache_flush
      call false malloc_error
      step (λ t. record t {
        cache = λ _. none;
        allocated = true;
        cache_size = 2 ^ bits;
        cache_bits = bits;
      })
      λ t. rehash_loop t.fresh t.cache_lru t)
        s

pub data Lookup : Type 0 where
  cache_found cache_new : ℕ → Lookup

-- The end of `cache_lookup`, with the element found or made. What the flush returns is not looked
-- at.
unfoldable pub make_current : ℕ → Option ℕ → M (Unit {0})
make_current elem ref s =
    let linked = step (lru_link_elem elem ref) in
    elim ref [
      | some r ↦ linked s
      | none ↦ elim (s.elems elem).ca_changed [
        | true ↦ linked s
        | false ↦ elim (cache_flush s) [
          | done u t ↦ linked t
          | failed t ↦ linked t
          | aborted ↦ aborted
          | out_of_fuel ↦ out_of_fuel
        ]
      ]
    ]

-- Room for one more element: the slot to put it in, by the larger table or an element less. `none`
-- is a failure of `cache_lru_free`.
unfoldable pub room_for : ℕ → Slot → M (Option Slot)
room_for adr elp s =
    let free_last : CachedDbf → Outcome (Option Slot) = λ t. elim (cache_lru_free t) [
      | done u t' ↦ done (some elp) t'
      | failed t' ↦ done none t'
      | aborted ↦ aborted
      | out_of_fuel ↦ out_of_fuel
    ] in
    elim (s.cache_num == s.cache_size) [
      | false ↦ done (some elp) s
      | true ↦ elim (s.cache_auto && ltb s.cache_bits s.dir_bits) [
        | false ↦ free_last s
        | true ↦ elim (cache_tab_resize (s.cache_bits + 1) s) [
          | done u t ↦ (cache_tab_lookup_slot adr >>= (λ slot. return (some slot))) t
          | failed t ↦ free_last t
          | aborted ↦ aborted
          | out_of_fuel ↦ out_of_fuel
        ]
      ]
    ]

unfoldable pub cache_lookup : ℕ → Option ℕ → M Lookup
cache_lookup adr ref s =
    (cache_tab_lookup_slot adr >>= (λ elp t. elim (read_slot elp t) [
      | some elem ↦
          (do
            step (λ u. record (update elem (λ e. record e { ca_hits = e.ca_hits + 1 }) u) {
              cache_hits = u.cache_hits + 1;
            })
            step (lru_unlink_elem elem)
            make_current elem ref
            return (cache_found elem))
            t
      | none ↦
          (cache_elem_new adr >>= (λ elem. room_for adr elp >>= (λ room. elim room [
            | some slot ↦ do
              step (write_slot slot (some elem))
              step (λ u. record u { cache_num = u.cache_num + 1 })
              make_current elem ref
              return (cache_new elem)
            | none ↦ make_current elem ref >> failed
          ])))
            t
    ]))
      (record s { cache_access_count = s.cache_access_count + 1 })

-- A size of `none` is GDBM_CACHE_AUTO. INIT_CACHE_BITS is 9.
unfoldable pub cache_init : Option ℕ → M (Unit {0})
cache_init none s =
    cache_tab_resize (if s.allocated then s.cache_bits else 9) (record s { cache_auto = true })
cache_init (some size) s =
    if ltb ((2 ^ 64 - 1) / 8) size
    then failed (record s { error = set_errno s.errno opt_badval false s.error })
    else cache_tab_resize (log2i (if ltb size 4 then 4 else size % 2 ^ 32))
        (record s { cache_auto = false })
