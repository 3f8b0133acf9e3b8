-- ===== src/Tests/Settings.antt =====
-- Options of an open database, set and asked for.
use gdbm.Prelude.{ℕ, ◌≡◌, ◌≢◌, ◌⊎◌, refl, true, false, none, [], ◌∷◌, arith}
use gdbm.Errno.{no_error, opt_badval, need_recovery}
use gdbm.Cache.State.{CachedDbf}
use gdbm.Header.{magic64}
use gdbm.Options.{
  OpenDbf, Stored, nothing, number, text, succeeded, refused, Call, record_error, gdbm_setopt,
}
use gdbm.Options
use gdbm.Options.Laws.{Settles, gdbm_setopt-Settles}
use gdbm.Options.Switches.{
  Switch, cent_free, int_at, gdbm_setopt_switches, get_number, set_number, shown, int_of,
}

abbrev closed : CachedDbf
closed = record {
  elems = λ k. record {
    ca_adr = 0;
    ca_changed = false;
    ca_prev = none;
    ca_next = none;
    ca_coll = none;
    ca_hits = 0;
  };
  fresh = 0;
  cache = λ h. none;
  allocated = false;
  cache_bits = 0;
  cache_size = 64;
  cache_num = 0;
  cache_auto = true;
  dir_bits = 9;
  cache_mru = none;
  cache_lru = none;
  cache_avail = none;
  bucket = none;
  cache_access_count = 0;
  cache_hits = 0;
  answers = [];
  errno = 0;
  error = record {
    last_error = no_error;
    last_syserror = 0;
    last_errstr = none;
    need_recovery = false;
  };
}

-- A database opened by GDBM_WRITER, without GDBM_SYNC.
abbrev writer : OpenDbf
writer = record {
  cache = closed;
  name = b'd' ∷ b'b' ∷ [];
  read_write = 1;
  fast_write = true;
  central_free = false;
  coalesce_blocks = false;
  file_locking = true;
  memory_mapping = false;
  mmap_preread = false;
  cloexec = true;
  header_magic = magic64;
  block_size = 4096;
  bucket_elems = 168;
}

-- GDBM_NOMMAP and GDBM_CLOEXEC.
flags_of_writer : gdbm_setopt 8 (int_at 0) writer ≡ succeeded (number 0x181) writer
unfolding gdbm_setopt Options.handler_at Options.get_value Options.flags_of
flags_of_writer = refl

-- An int is too short for the size of the cache.
cache_size_of_writer :
    gdbm_setopt 10 (int_at 0) writer ≡ refused (record_error opt_badval false writer)
unfolding gdbm_setopt Options.handler_at Options.get_value
cache_size_of_writer = refl

-- 2 is not a truth value.
not_a_switch : gdbm_setopt 3 (int_at 2) writer ≡ refused (record_error opt_badval false writer)
unfolding gdbm_setopt Options.handler_at Options.set_flag Options.getbool
not_a_switch = refl

-- Nothing stands at 7 in this build.
no_handler : gdbm_setopt 7 (int_at 1) writer ≡ refused (record_error opt_badval false writer)
unfolding gdbm_setopt Options.handler_at
no_handler = refl

gdbm_setopt-Settles_example :
    ((writer.cache.error.need_recovery ≡ true)
      × (gdbm_setopt 3 (int_at 1) writer ≡ refused (record_error need_recovery true writer)))
    ⊎ ((writer.cache.error.need_recovery ≡ false)
        × Settles 3 (int_at 1) writer (gdbm_setopt 3 (int_at 1) writer))
gdbm_setopt-Settles_example = gdbm_setopt-Settles 3 (int_at 1) writer (omega arith)

gdbm_setopt_switches_example :
    (s' : OpenDbf) × (gdbm_setopt (set_number cent_free) (int_at 1) writer ≡ succeeded nothing s')
    × ((old : ℕ)
        → gdbm_setopt (get_number cent_free) (int_at old) s'
          ≡ succeeded (number (int_of (shown cent_free true))) s')
    × ((other : Switch) (old : ℕ) (a : Stored)
        → other ≢ cent_free
        → gdbm_setopt (get_number other) (int_at old) writer ≡ succeeded a writer
        → gdbm_setopt (get_number other) (int_at old) s' ≡ succeeded a s')
gdbm_setopt_switches_example = gdbm_setopt_switches cent_free true writer refl
