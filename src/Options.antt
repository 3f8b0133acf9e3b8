-- ===== src/Options.antt =====
-- src/gdbmsetopt.c: the options of an open database, in a build without memory mapping.
pub mod Laws
pub mod Switches
use Prim.Native.Nat.{bit_or}
use gdbm.Prelude.{ℕ, Bool, true, false, not, Option, none, some, List, [], ◌∷◌, ◌==◌, if◌then◌else◌}
use gdbm.Errno.{GdbmError, opt_badval, malloc_error, need_recovery, set_errno}
use gdbm.Header.{omagic, magic64, numsync_magic64}
use gdbm.Cache.State.{CachedDbf, done, failed, aborted, out_of_fuel}
use gdbm.Cache.Access.{cache_init}

-- The members that the options concern. `cache` has those of the bucket cache, with the directory's
-- bits and the error state; the magic number, the block's size and the bucket's number of elements
-- are the header's.
pub record OpenDbf : Type 0 where
  pub cache : CachedDbf
  pub name : List ℕ
  pub read_write : ℕ
  pub fast_write : Bool
  pub central_free : Bool
  pub coalesce_blocks : Bool
  pub file_locking : Bool
  pub memory_mapping : Bool
  pub mmap_preread : Bool
  pub cloexec : Bool
  pub header_magic : ℕ
  pub block_size : ℕ
  pub bucket_elems : ℕ

-- What a call leaves at `optval`.
pub data Stored : Type 0 where
  nothing : Stored
  number : ℕ → Stored
  text : List ℕ → Stored

-- How a call ends: with 0, with -1, or as the step of the cache that it makes.
pub data SetoptEnd : Type 0 where
  succeeded : Stored → OpenDbf → SetoptEnd
  refused : OpenDbf → SetoptEnd
  crashed unended : SetoptEnd

-- `optval` is `none` for NULL, or the number that the `optlen` bytes there hold; `strdup_ok` is the
-- answer of strdup.
pub record Call : Type 0 where
  pub optval : Option ℕ
  pub optlen : ℕ
  pub strdup_ok : Bool

-- The sizes of int, unsigned long and size_t, and pointers.
abbrev pub sizeof_int : ℕ
sizeof_int = 4

abbrev pub sizeof_long : ℕ
sizeof_long = 8

abbrev pub record_error : GdbmError → Bool → OpenDbf → OpenDbf
record_error ec fatal s = record s {
  cache = record s.cache { error = set_errno s.cache.errno ec fatal s.cache.error };
}

abbrev pub bad_value : OpenDbf → SetoptEnd
bad_value s = refused (record_error opt_badval false s)

-- `none` is -1.
unfoldable pub getbool : Call → Option Bool
getbool c = elim c.optval [
  | none ↦ none
  | some n ↦
      if c.optlen == sizeof_int
      then (if n == 1 then some true else if n == 0 then some false else none)
      else none
]

unfoldable pub get_size : Call → Option ℕ
get_size c = elim c.optval [
  | none ↦ none
  | some n ↦
      if c.optlen == sizeof_int then some n else if c.optlen == sizeof_long then some n else none
]

-- A handler that sets a member from a truth value.
unfoldable pub set_flag : (Bool → OpenDbf → OpenDbf) → Call → OpenDbf → SetoptEnd
set_flag assign c s = elim (getbool c) [
  | none ↦ bad_value s
  | some n ↦ succeeded nothing (assign n s)
]

-- A handler that stores a value, if there is room for one of this size.
unfoldable pub get_value : ℕ → (OpenDbf → Stored) → Call → OpenDbf → SetoptEnd
get_value size stored c s = elim c.optval [
  | none ↦ bad_value s
  | some n ↦ if c.optlen == size then succeeded (stored s) s else bad_value s
]

abbrev pub truth : Bool → Stored
truth b = number (if b then 1 else 0)

-- GDBM_CACHE_AUTO is 0.
unfoldable pub setcachesize : Call → OpenDbf → SetoptEnd
setcachesize c s = elim (get_size c) [
  | none ↦ bad_value s
  | some sz ↦ elim (cache_init (if sz == 0 then none else some sz) s.cache) [
    | done u cache ↦ succeeded nothing (record s { cache = cache })
    | failed cache ↦ refused (record s { cache = cache })
    | aborted ↦ crashed
    | out_of_fuel ↦ unended
  ]
]

abbrev pub getcachesize : Call → OpenDbf → SetoptEnd
getcachesize = get_value sizeof_long (λ s. number s.cache.cache_size)

abbrev pub setcacheauto : Call → OpenDbf → SetoptEnd
setcacheauto = set_flag (λ n s. record s { cache = record s.cache { cache_auto = n } })

abbrev pub getcacheauto : Call → OpenDbf → SetoptEnd
getcacheauto = get_value sizeof_int (λ s. truth s.cache.cache_auto)

abbrev pub fastmode : Call → OpenDbf → SetoptEnd
fastmode = set_flag (λ n s. record s { fast_write = n })

abbrev pub setsyncmode : Call → OpenDbf → SetoptEnd
setsyncmode = set_flag (λ n s. record s { fast_write = not n })

abbrev pub getsyncmode : Call → OpenDbf → SetoptEnd
getsyncmode = get_value sizeof_int (λ s. truth (not s.fast_write))

abbrev pub setcentfree : Call → OpenDbf → SetoptEnd
setcentfree = set_flag (λ n s. record s { central_free = n })

abbrev pub getcentfree : Call → OpenDbf → SetoptEnd
getcentfree = get_value sizeof_int (λ s. truth (not s.central_free))

abbrev pub setcoalesceblks : Call → OpenDbf → SetoptEnd
setcoalesceblks = set_flag (λ n s. record s { coalesce_blocks = n })

abbrev pub getcoalesceblks : Call → OpenDbf → SetoptEnd
getcoalesceblks = get_value sizeof_int (λ s. truth s.coalesce_blocks)

abbrev pub is_numsync : ℕ → Bool
is_numsync magic = magic == numsync_magic64

-- GDBM_SYNC, GDBM_NOLOCK, GDBM_NOMMAP, GDBM_PREREAD, GDBM_CLOEXEC and GDBM_NUMSYNC.
unfoldable pub flags_of : OpenDbf → ℕ
flags_of s =
    let f1 = if s.fast_write then s.read_write else bit_or s.read_write 0x20 in
    let f2 = if s.file_locking then f1 else bit_or f1 0x40 in
    let f3 =
      if s.memory_mapping
      then (if s.mmap_preread then bit_or f2 0x1000 else f2)
      else bit_or f2 0x80 in
    let f4 = if s.cloexec then bit_or f3 0x100 else f3 in
    if is_numsync s.header_magic then bit_or f4 0x2000 else f4

abbrev pub getflags : Call → OpenDbf → SetoptEnd
getflags = get_value sizeof_int (λ s. number (flags_of s))

unfoldable pub getdbname : Call → OpenDbf → SetoptEnd
getdbname c s = elim c.optval [
  | none ↦ bad_value s
  | some n ↦
      if c.optlen == sizeof_long
      then (if c.strdup_ok
          then succeeded (text s.name) s
          else refused (record_error malloc_error false s))
      else bad_value s
]

abbrev pub getblocksize : Call → OpenDbf → SetoptEnd
getblocksize = get_value sizeof_int (λ s. number s.block_size)

-- Nothing is stored for another magic number.
abbrev pub format_of : OpenDbf → Stored
format_of s =
    if s.header_magic == omagic
    then number 0
    else if s.header_magic == magic64
    then number 0
    else if is_numsync s.header_magic
    then number 0x2000
    else nothing

abbrev pub getdbformat : Call → OpenDbf → SetoptEnd
getdbformat = get_value sizeof_int format_of

abbrev pub getdirdepth : Call → OpenDbf → SetoptEnd
getdirdepth = get_value sizeof_int (λ s. number s.cache.dir_bits)

abbrev pub getbucketsize : Call → OpenDbf → SetoptEnd
getbucketsize = get_value sizeof_int (λ s. number s.bucket_elems)

abbrev pub Handler : Type 0
Handler = Call → OpenDbf → SetoptEnd

-- The entries that are not NULL, by the options' numbers.
abbrev pub setopt_handler_tab : List (ℕ × Handler)
setopt_handler_tab =
    (1, setcachesize)
    ∷ (10, getcachesize)
    ∷ (2, fastmode)
    ∷ (3, setsyncmode)
    ∷ (11, getsyncmode)
    ∷ (4, setcentfree)
    ∷ (12, getcentfree)
    ∷ (5, setcoalesceblks)
    ∷ (13, getcoalesceblks)
    ∷ (8, getflags)
    ∷ (15, getdbname)
    ∷ (16, getblocksize)
    ∷ (17, getdbformat)
    ∷ (18, getdirdepth)
    ∷ (19, getbucketsize)
    ∷ (20, getcacheauto)
    ∷ (21, setcacheauto)
    ∷ []

unfoldable pub handler_at : ℕ → List (ℕ × Handler) → Option Handler
handler_at n [] = none
handler_at n ((m, h) ∷ rest) = if n == m then some h else handler_at n rest

unfoldable pub gdbm_setopt : ℕ → Handler
gdbm_setopt optflag c s =
    if s.cache.error.need_recovery
    then refused (record_error need_recovery true s)
    else elim (handler_at optflag setopt_handler_tab) [ none ↦ bad_value s | some h ↦ h c s ]
