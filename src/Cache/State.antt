-- ===== src/Cache/State.antt =====
-- The members of `struct gdbm_file_info` that the bucket cache of src/bucket.c uses, the cache's
-- elements, and the steps on that state. An element is known by a number, which stands for its
-- address in memory; the buckets themselves are not part of the state.
use gdbm.Prelude.{ℕ, Bool, true, Option, List, [], ◌∷◌, ◌==◌, if◌then◌else◌}
use gdbm.Errno.{GdbmError, file_write_error, ErrorState, set_errno, code}

pub record CacheElem : Type 0 where
  pub ca_adr : ℕ
  pub ca_changed : Bool
  pub ca_prev : Option ℕ
  pub ca_next : Option ℕ
  pub ca_coll : Option ℕ
  pub ca_hits : ℕ

-- `bucket` is the element whose bucket `dbf->bucket` points to. `elems` is the memory, of which the
-- elements below `fresh` have been allocated. `answers` are those of calloc, realloc, lseek and
-- `_gdbm_full_write` in order; when there are no more, a call succeeds.
pub record CachedDbf : Type 0 where
  pub elems : ℕ → CacheElem
  pub fresh : ℕ
  pub cache : ℕ → Option ℕ
  pub allocated : Bool
  pub cache_bits : ℕ
  pub cache_size : ℕ
  pub cache_num : ℕ
  pub cache_auto : Bool
  pub dir_bits : ℕ
  pub cache_mru : Option ℕ
  pub cache_lru : Option ℕ
  pub cache_avail : Option ℕ
  pub bucket : Option ℕ
  pub cache_access_count : ℕ
  pub cache_hits : ℕ
  pub answers : List Bool
  pub errno : ℕ
  pub error : ErrorState

-- How a step ends; `aborted` is a call of abort.
pub data Outcome {ℓ} (A : Type ℓ) : Type ℓ where
  done : A → CachedDbf → Outcome A
  failed : CachedDbf → Outcome A
  aborted out_of_fuel : Outcome A

abbrev pub M : Type 0 → Type 0
M A = CachedDbf → Outcome A

infixl 40 ◌>>=◌ ◌>>◌
abbrev pub ◌>>=◌ : {A B : Type 0} → M A → (A → M B) → M B
(m >>= f) s = elim (m s) [
  | done a s' ↦ f a s'
  | failed s' ↦ failed s'
  | aborted ↦ aborted
  | out_of_fuel ↦ out_of_fuel
]

abbrev pub ◌>>◌ : {A B : Type 0} → M A → M B → M B
m >> k = m >>= (λ _. k)

abbrev pub return : {A : Type 0} → A → M A
return a s = done a s

-- A change of the state.
abbrev pub step : (CachedDbf → CachedDbf) → M (Unit {0})
step f s = done tt (f s)

-- The next answer; a failure sets the error.
abbrev pub call : Bool → GdbmError → M (Unit {0})
call fatal ec s = elim s.answers [
  | [] ↦ done tt s
  | ok ∷ rest ↦
      if ok
      then done tt (record s { answers = rest })
      else failed (record s { answers = rest; error = set_errno s.errno ec fatal s.error })
]

-- The write of `_gdbm_full_write`, which keeps the code of an earlier error.
abbrev pub call_write : M (Unit {0})
call_write s = elim s.answers [
  | [] ↦ done tt s
  | ok ∷ rest ↦
      if ok
      then done tt (record s { answers = rest })
      else if code s.error.last_error == 0
      then failed
          (record s { answers = rest; error = set_errno s.errno file_write_error true s.error })
      else failed (record s { answers = rest })
]

-- The member of an element that a pointer leads to, changed.
abbrev pub update : ℕ → (CacheElem → CacheElem) → CachedDbf → CachedDbf
update id f s = record s { elems = λ k. if k == id then f (s.elems k) else s.elems k }
