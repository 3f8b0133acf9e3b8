-- ===== src/Options/Switches.antt =====
-- The options of src/gdbmsetopt.c that switch something on or off: setting one and asking for it.
use gdbm.Prelude.{ℕ, ◌≡◌, ◌≢◌, refl, sym, ◌∙◌, Bool, true, false, not, some, if◌then◌else◌, arith}
use gdbm.Options.{
  OpenDbf, Stored, nothing, number, succeeded, Call, getbool, set_flag, get_value, handler_at,
  gdbm_setopt,
}

-- The options that switch something on or off.
pub data Switch : Type 0 where
  sync_mode cent_free coalesce_blks cache_auto : Switch

unfoldable pub set_number : Switch → ℕ
set_number sync_mode = 3
set_number cent_free = 4
set_number coalesce_blks = 5
set_number cache_auto = 21

unfoldable pub get_number : Switch → ℕ
get_number sync_mode = 11
get_number cent_free = 12
get_number coalesce_blks = 13
get_number cache_auto = 20

-- What asking for a switch stores when it has been set to a value.
unfoldable pub shown : Switch → Bool → Bool
shown sync_mode b = b
shown cent_free b = not b
shown coalesce_blks b = b
shown cache_auto b = b

-- A pointer to an int.
abbrev pub int_at : ℕ → Call
int_at n = record { optval = some n; optlen = 4; strdup_ok = true }

abbrev pub int_of : Bool → ℕ
int_of b = if b then 1 else 0

-- The value that asking for a switch reads.
current : Switch → OpenDbf → Bool
current sync_mode s = not s.fast_write
current cent_free s = not s.central_free
current coalesce_blks s = s.coalesce_blocks
current cache_auto s = s.cache.cache_auto

get_number-current :
    (sw : Switch) (old : ℕ) (s : OpenDbf)
    → s.cache.error.need_recovery ≡ false
    → gdbm_setopt (get_number sw) (int_at old) s ≡ succeeded (number (int_of (current sw s))) s
unfolding gdbm_setopt handler_at get_value get_number current
get_number-current sync_mode old s h = rw h refl
get_number-current cent_free old s h = rw h refl
get_number-current coalesce_blks old s h = rw h refl
get_number-current cache_auto old s h = rw h refl

succeeded-inj : {a b : Stored} {s : OpenDbf} → succeeded a s ≡ succeeded b s → a ≡ b
succeeded-inj e = ground arith

get_number-same :
    (sw : Switch) (old : ℕ) (a : Stored) (s s' : OpenDbf)
    → s.cache.error.need_recovery ≡ false
    → s'.cache.error.need_recovery ≡ false
    → current sw s' ≡ current sw s
    → gdbm_setopt (get_number sw) (int_at old) s ≡ succeeded a s
    → gdbm_setopt (get_number sw) (int_at old) s' ≡ succeeded a s'
get_number-same sw old a s s' h h' same e =
    let read = get_number-current sw old s h in
    let read' = get_number-current sw old s' h' in
    let stores = succeeded-inj (sym read ∙ e) in rw (read', same, stores) refl

switch : Switch → Bool → OpenDbf → OpenDbf
switch sync_mode b s = record s { fast_write = not b }
switch cent_free b s = record s { central_free = b }
switch coalesce_blks b s = record s { coalesce_blocks = b }
switch cache_auto b s = record s { cache = record s.cache { cache_auto = b } }

switch-error :
    (sw : Switch) (b : Bool) (s : OpenDbf)
    → (switch sw b s).cache.error.need_recovery ≡ s.cache.error.need_recovery
unfolding switch
switch-error sync_mode b s = refl
switch-error cent_free b s = refl
switch-error coalesce_blks b s = refl
switch-error cache_auto b s = refl

current-switch-other :
    (sw other : Switch) (b : Bool) (s : OpenDbf)
    → other ≢ sw
    → current other (switch sw b s) ≡ current other s
unfolding switch current
current-switch-other sync_mode other b s h =
    elim other as (λ o. o ≢ sync_mode → current o (switch sync_mode b s) ≡ current o s) [
      | sync_mode ↦ λ k. absurd (k refl)
      | cent_free ↦ λ k. refl
      | coalesce_blks ↦ λ k. refl
      | cache_auto ↦ λ k. refl
    ]
      h
current-switch-other cent_free other b s h =
    elim other as (λ o. o ≢ cent_free → current o (switch cent_free b s) ≡ current o s) [
      | sync_mode ↦ λ k. refl
      | cent_free ↦ λ k. absurd (k refl)
      | coalesce_blks ↦ λ k. refl
      | cache_auto ↦ λ k. refl
    ]
      h
current-switch-other coalesce_blks other b s h =
    elim other as (λ o. o ≢ coalesce_blks → current o (switch coalesce_blks b s) ≡ current o s) [
      | sync_mode ↦ λ k. refl
      | cent_free ↦ λ k. refl
      | coalesce_blks ↦ λ k. absurd (k refl)
      | cache_auto ↦ λ k. refl
    ]
      h
current-switch-other cache_auto other b s h =
    elim other as (λ o. o ≢ cache_auto → current o (switch cache_auto b s) ≡ current o s) [
      | sync_mode ↦ λ k. refl
      | cent_free ↦ λ k. refl
      | coalesce_blks ↦ λ k. refl
      | cache_auto ↦ λ k. absurd (k refl)
    ]
      h

current-switch : (sw : Switch) (b : Bool) (s : OpenDbf) → current sw (switch sw b s) ≡ shown sw b
unfolding switch current shown
current-switch sync_mode b s = ground arith
current-switch cent_free b s = refl
current-switch coalesce_blks b s = refl
current-switch cache_auto b s = refl

set_number-switch :
    (sw : Switch) (b : Bool) (s : OpenDbf)
    → s.cache.error.need_recovery ≡ false
    → gdbm_setopt (set_number sw) (int_at (int_of b)) s ≡ succeeded nothing (switch sw b s)
unfolding gdbm_setopt handler_at set_flag getbool set_number switch
set_number-switch sync_mode b s h = ground arith
set_number-switch cent_free b s h = ground arith
set_number-switch coalesce_blks b s h = ground arith
set_number-switch cache_auto b s h = ground arith

-- In a database that needs no recovery, a switch can be set. Asking for it then stores the value
-- that was set, or the opposite value for GDBM_GETCENTFREE, and asking for another switch stores
-- what it did before.
pub gdbm_setopt_switches :
    (sw : Switch) (b : Bool) (s : OpenDbf)
    → s.cache.error.need_recovery ≡ false
    → (s' : OpenDbf) × (gdbm_setopt (set_number sw) (int_at (int_of b)) s ≡ succeeded nothing s')
      × ((old : ℕ)
          → gdbm_setopt (get_number sw) (int_at old) s'
            ≡ succeeded (number (int_of (shown sw b))) s')
      × ((other : Switch) (old : ℕ) (a : Stored)
          → other ≢ sw
          → gdbm_setopt (get_number other) (int_at old) s ≡ succeeded a s
          → gdbm_setopt (get_number other) (int_at old) s' ≡ succeeded a s')
gdbm_setopt_switches sw b s h =
    let h' = switch-error sw b s ∙ h in
    (
      switch sw b s,
      set_number-switch sw b s h,
      (λ old. rw (sym (current-switch sw b s)) (get_number-current sw old (switch sw b s) h')),
      λ other old a diff e.
          get_number-same other old a s (switch sw b s) h h'
            (current-switch-other sw other b s diff) e,
    )
