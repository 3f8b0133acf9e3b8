-- ===== src/Cache/Hit.antt =====
-- src/bucket.c: a look-up that finds the bucket in the cache.
use gdbm.Prelude.{◌+◌, ◌≡◌}
use gdbm.Cache.State.{CacheElem, CachedDbf, Outcome, done, failed, aborted, out_of_fuel}

-- A step that ends, and what holds when it succeeds or fails.
abbrev Leaves : {A : Type 0} → (CachedDbf → Type 0) → Outcome A → Type 0
Leaves P (done a s) = P s
Leaves P (failed s) = P s
Leaves P aborted = ⊥
Leaves P out_of_fuel = ⊥

-- A call leaves the elements and the list as they are.
abbrev Untouched : CachedDbf → CachedDbf → Type 0
Untouched s t =
    (t.cache_mru ≡ s.cache_mru)
    × (t.cache_lru ≡ s.cache_lru)
    × (t.bucket ≡ s.bucket)
    × (t.elems ≡ s.elems)

abbrev hit : CacheElem → CacheElem
hit e = record e { ca_hits = e.ca_hits + 1 }
