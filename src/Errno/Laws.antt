-- ===== src/Errno/Laws.antt =====
-- src/gdbmerrno.c: the error state after a call.
use gdbm.Prelude.{ℕ, ◌≡◌, Bool, true, false, none, some, arith, ◌⊎◌}
use gdbm.Errno.{GdbmError, syserr, ErrorState, set_errno, db_strerror}

-- A cached text is always that of the last error.
abbrev pub IsCurrent : ErrorState → Type 0
IsCurrent s = (s.last_errstr ≡ none) ⊎ (s.last_errstr ≡ some (s.last_error, s.last_syserror))

-- Whatever came before, after `gdbm_set_errno` the text is made of the error that was set, and of
-- the system's error number exactly for the codes that carry one, if `malloc` works; asking
-- changes neither the error nor the recovery flag, and asking again gives the same text.
pub db_strerror-set_errno :
    (errno : ℕ) (ec : GdbmError) (fatal : Bool) (s : ErrorState)
    → let s' = set_errno errno ec fatal s in
      let (t, s'') = db_strerror true s' in
      (t.0 ≡ ec)
      × ((syserr ec ≡ true) → t.1 ≡ errno)
      × ((syserr ec ≡ false) → t.1 ≡ 0)
      × (s''.need_recovery ≡ fatal)
      × (s''.last_error ≡ ec)
      × ((db_strerror true s'').0 ≡ t)
unfolding db_strerror set_errno
db_strerror-set_errno errno ec fatal s = ground arith
