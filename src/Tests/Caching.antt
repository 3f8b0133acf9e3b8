-- ===== src/Tests/Caching.antt =====
-- Runs of the bucket cache.
use gdbm.Prelude.{inl, inr, ◌==◌, if◌then◌else◌, arith, ◌≡◌, refl, true, false, none, some, [], ◌∷◌}
use gdbm.Errno.{no_error}
use gdbm.Cache.State.{CachedDbf, CacheElem, aborted, M, ◌>>◌, return}
use gdbm.Cache
use gdbm.Cache.Access
use gdbm.Cache.Order.{IsOrder, lru_link_elem-after}
use gdbm.Cache.Flush.{Ends, AllClean, cache_flush_lem}

abbrev unset : CacheElem
unset = record {
  ca_adr = 0;
  ca_changed = false;
  ca_prev = none;
  ca_next = none;
  ca_coll = none;
  ca_hits = 0;
}

-- No memory has been allocated.
abbrev start : CachedDbf
start = record {
  elems = λ k. unset;
  fresh = 0;
  cache = λ h. none;
  allocated = false;
  cache_bits = 0;
  cache_size = 0;
  cache_num = 0;
  cache_auto = false;
  dir_bits = 3;
  cache_mru = none;
  cache_lru = none;
  cache_avail = none;
  bucket = none;
  cache_access_count = 0;
  cache_hits = 0;
  answers = [];
  errno = 0;
  error = record {
    last_error = no_error;
    last_syserror = 0;
    last_errstr = none;
    need_recovery = false;
  };
}

-- A cache of four slots, with four buckets in it, and then a fifth one whose slot is that of the
-- bucket that goes.
abbrev five : M (Unit {0})
five = do
  Cache.Access.cache_init (some 4)
  Cache.Access.cache_lookup 4096 none
  Cache.Access.cache_lookup 8192 none
  Cache.Access.cache_lookup 12288 none
  Cache.Access.cache_lookup 16384 none
  Cache.Access.cache_lookup 20480 none
  return tt

-- The fifth bucket is linked to the element that has gone, where the table does not lead, so that
-- it is read once more when it is looked up. The two elements with its address meet when the table
-- is made larger, which calls abort.
resized :
    (five >> Cache.Access.cache_lookup 20480 none >> Cache.Access.cache_init (some 16)) start
    ≡ aborted
unfolding Cache.Access.cache_init Cache.Access.cache_lookup Cache.Access.cache_tab_resize
    Cache.cache_tab_lookup_slot Cache.chain_loop Cache.adrhash Cache.Access.log2i
    Cache.Access.rehash_loop Cache.Access.make_current Cache.Access.room_for Cache.cache_elem_new
    Cache.cache_elem_free Cache.unchain_loop Cache.cache_lru_free Cache.cache_flush Cache.flush_loop
    Cache.lru_link_elem Cache.lru_unlink_elem Cache.write_bucket
resized = refl

logarithms :
    Cache.Access.log2i 4
      ∷ Cache.Access.log2i 5
      ∷ Cache.Access.log2i 8
      ∷ Cache.Access.log2i 9
      ∷ Cache.Access.log2i 100
      ∷ []
    ≡ 2 ∷ 3 ∷ 3 ∷ 4 ∷ 7 ∷ []
unfolding Cache.Access.log2i
logarithms = refl

-- Three elements, the first one with a changed bucket.
abbrev three : CachedDbf
three = record start {
  elems = λ k.
      if k == 0
      then record unset { ca_changed = true; ca_next = some 1 }
      else if k == 1
      then record unset { ca_prev = some 0; ca_next = some 2 }
      else record unset { ca_prev = some 1 };
  fresh = 6;
  cache_mru = some 0;
  cache_lru = some 2;
  bucket = some 0;
}

three-IsOrder : IsOrder (0 ∷ 1 ∷ 2 ∷ []) three
three-IsOrder = record {
  mru = refl;
  lru = refl;
  current = refl;
  linked = (refl, refl, (refl, refl, (refl, refl, tt)));
  distinct = ((refl, (refl, tt)), ((refl, tt), (tt, tt)));
}

lru_link_elem-after_example : IsOrder (0 ∷ 1 ∷ 5 ∷ 2 ∷ []) (Cache.lru_link_elem 5 (some 1) three)
lru_link_elem-after_example =
    lru_link_elem-after (0 ∷ []) 1 5 (2 ∷ []) three (refl, (refl, (refl, tt))) three-IsOrder

cache_flush_lem_example :
    Ends
      (λ _ t. AllClean t.elems (0 ∷ 1 ∷ 2 ∷ []) × IsOrder (0 ∷ 1 ∷ 2 ∷ []) t)
      (Cache.cache_flush three)
cache_flush_lem_example =
    cache_flush_lem (0 ∷ 1 ∷ 2 ∷ []) three three-IsOrder (omega arith)
      (inl (refl, inr (refl, (refl, tt))))

-- Two elements in the chain of slot 2, and a third address that belongs there.
abbrev chained : CachedDbf
chained = record start {
  elems = λ k.
      if k == 0
      then record unset { ca_adr = 4096; ca_coll = some 1 }
      else if k == 1
      then record unset { ca_adr = 20480 }
      else record unset { ca_adr = 49152 };
  fresh = 3;
  cache = λ h. if h == 2 then some 0 else none;
  allocated = true;
  cache_bits = 2;
  cache_size = 4;
  cache_num = 2;
}

the_slot : Cache.adrhash 49152 2 ≡ 2
unfolding Cache.adrhash
the_slot = refl

-- The two elements in the list too.
abbrev both : CachedDbf
both = record chained {
  elems = λ k.
      if k == 0
      then record unset { ca_adr = 4096; ca_coll = some 1; ca_next = some 1 }
      else if k == 1
      then record unset { ca_adr = 20480; ca_prev = some 0 }
      else unset;
  cache_mru = some 0;
  cache_lru = some 1;
  bucket = some 0;
}
