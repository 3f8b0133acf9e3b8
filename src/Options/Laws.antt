-- ===== src/Options/Laws.antt =====
-- The options of src/gdbmsetopt.c: what a call stores, and what it leaves as it was.
use gdbm.Prelude.{
  ℕ, ◌≡◌, ◌≢◌, ◌⊎◌, inl, inr, refl, Bool, true, false, none, some, List, [], ◌∷◌, ◌||◌, ◌==◌, ◌&&◌,
  leb, not, if◌then◌else◌, All, Bool-cases, Option-cases, arith,
}
use mathlib.Core.Path.{subst}
use gdbm.Errno.{opt_badval, malloc_error, need_recovery}
use gdbm.Options.{
  OpenDbf, Stored, nothing, number, text, truth, flags_of, format_of, SetoptEnd, succeeded, refused,
  crashed, unended, Call, Handler, record_error, getbool, set_flag, get_value, getdbname,
  setopt_handler_tab, handler_at, gdbm_setopt,
}

-- The options that set a member from a truth value, and those that ask, have these numbers.
abbrev pub is_setter : ℕ → Bool
is_setter n = n == 2 || n == 3 || n == 4 || n == 5 || n == 21

abbrev pub is_getter : ℕ → Bool
is_getter n = n == 8 || (leb 10 n && leb n 20 && not (n == 14))

-- The database in which an option has been set to a truth value.
unfoldable pub set_to : ℕ → Bool → OpenDbf → OpenDbf
set_to n b s =
    if n == 2
    then record s { fast_write = b }
    else if n == 3
    then record s { fast_write = not b }
    else if n == 4
    then record s { central_free = b }
    else if n == 5
    then record s { coalesce_blocks = b }
    else record s { cache = record s.cache { cache_auto = b } }

-- What asking for an option stores.
unfoldable pub answer : ℕ → OpenDbf → Stored
answer n s =
    if n == 10
    then number s.cache.cache_size
    else if n == 11
    then truth (not s.fast_write)
    else if n == 12
    then truth (not s.central_free)
    else if n == 13
    then truth s.coalesce_blocks
    else if n == 8
    then number (flags_of s)
    else if n == 15
    then text s.name
    else if n == 16
    then number s.block_size
    else if n == 17
    then format_of s
    else if n == 18
    then number s.cache.dir_bits
    else if n == 19
    then number s.bucket_elems
    else truth s.cache.cache_auto

-- The size of what is stored there: that of a size_t or a pointer, or that of an int.
abbrev pub answer_size : ℕ → ℕ
answer_size n = if n == 10 || n == 15 then 8 else 4

-- `optval` points to an int that is this truth value.
abbrev pub IsTruth : Call → Bool → Type 0
IsTruth c b = (c.optval ≡ some (if b then 1 else 0)) × (c.optlen ≡ 4)

-- `optval` points to a place of this size.
abbrev pub HasRoom : ℕ → Call → Type 0
HasRoom size c = (c.optval ≢ none) × (c.optlen ≡ size)

-- How a call for an option ends in a database that needs no recovery.
abbrev pub Settles : ℕ → Call → OpenDbf → SetoptEnd → Type 0
Settles n c s (succeeded a s') =
    ((is_setter n ≡ true) × (b : Bool) × IsTruth c b × (a ≡ nothing) × (s' ≡ set_to n b s))
    ⊎ ((is_getter n ≡ true)
        × HasRoom (answer_size n) c
        × (n ≡ 15 → c.strdup_ok ≡ true)
        × (a ≡ answer n s)
        × (s' ≡ s))
Settles n c s (refused s') =
    ((s' ≡ record_error opt_badval false s)
      × ((b : Bool) → is_setter n ≡ true → ¬ IsTruth c b)
      × (is_getter n ≡ true → ¬ HasRoom (answer_size n) c))
    ⊎ ((s' ≡ record_error malloc_error false s) × (n ≡ 15) × HasRoom 8 c × (c.strdup_ok ≡ false))
Settles n c s crashed = ⊥
Settles n c s unended = ⊥

getbool-some : (c : Call) {b : Bool} → getbool c ≡ some b → IsTruth c b
unfolding getbool
getbool-some c {b} e = ground arith

getbool-none : (c : Call) (b : Bool) → getbool c ≡ none → ¬ IsTruth c b
unfolding getbool
getbool-none c b e t = ground arith

set_flag-Settles :
    (n : ℕ) (assign : Bool → OpenDbf → OpenDbf)
    → is_setter n ≡ true
    → is_getter n ≡ false
    → ((b : Bool) (s : OpenDbf) → assign b s ≡ set_to n b s)
    → (c : Call) (s : OpenDbf) → Settles n c s (set_flag assign c s)
unfolding set_flag
set_flag-Settles n assign k j h c s = elim (Option-cases (getbool c)) [
  | inl bad ↦ rw (bad, set_flag) (inl (refl, λ b t. getbool-none c b bad, λ g. cc))
  | inr (b, e) ↦ rw (e, set_flag) (inl (k, b, getbool-some c e, refl, h b s))
]

get_value-Settles :
    (n size : ℕ) (stored : OpenDbf → Stored)
    → is_setter n ≡ false
    → is_getter n ≡ true
    → (n == 15) ≡ false
    → answer_size n ≡ size
    → ((s : OpenDbf) → stored s ≡ answer n s)
    → (c : Call) (s : OpenDbf) → Settles n c s (get_value size stored c s)
unfolding get_value
get_value-Settles n size stored k j o z h c s = elim (Option-cases c.optval) [
  | inl null ↦ simp (null, get_value) (inl (refl, λ b t. cc, λ g r. r.0 refl))
  | inr (v, e) ↦ elim (Bool-cases (c.optlen == size)) [
    | inl fits ↦
        simp (e, fits, get_value)
          (inr (j, (ground arith, ground arith), λ q. absurd (ground arith), h s, refl))
    | inr other ↦ simp (e, other, get_value) (inl (refl, λ b t. cc, λ g r. ground arith))
  ]
]

getdbname-Settles : (c : Call) (s : OpenDbf) → Settles 15 c s (getdbname c s)
unfolding getdbname answer
getdbname-Settles c s = elim (Option-cases c.optval) [
  | inl null ↦ simp (null, getdbname) (inl (refl, λ b t. cc, λ g r. r.0 refl))
  | inr (v, e) ↦ elim (Bool-cases (c.optlen == 8)) [
    | inr other ↦ simp (e, other, getdbname) (inl (refl, λ b t. cc, λ g r. ground arith))
    | inl fits ↦ elim (Bool-cases c.strdup_ok) [
      | inl got ↦
          simp (e, fits, got, getdbname)
            (inr (refl, (ground arith, ground arith), λ q. refl, refl, refl))
      | inr out_of_memory ↦
          simp (e, fits, out_of_memory, getdbname)
            (inr (refl, refl, (ground arith, ground arith), refl))
    ]
  ]
]

-- What holds of an entry of the table of handlers.
abbrev Entry : ℕ × Handler → Type 0
Entry (n, h) = (n ≡ 1) ⊎ ((c : Call) (s : OpenDbf) → Settles n c s (h c s))

setopt_handler_tab-Entry : All Entry setopt_handler_tab
unfolding answer set_to
setopt_handler_tab-Entry = (
  inl refl,
  (
    inr (get_value-Settles 10 8 _ refl refl refl refl (λ s. refl)),
    (
      inr (set_flag-Settles 2 _ refl refl (λ b s. refl)),
      (
        inr (set_flag-Settles 3 _ refl refl (λ b s. refl)),
        (
          inr (get_value-Settles 11 4 _ refl refl refl refl (λ s. refl)),
          (
            inr (set_flag-Settles 4 _ refl refl (λ b s. refl)),
            (
              inr (get_value-Settles 12 4 _ refl refl refl refl (λ s. refl)),
              (
                inr (set_flag-Settles 5 _ refl refl (λ b s. refl)),
                (
                  inr (get_value-Settles 13 4 _ refl refl refl refl (λ s. refl)),
                  (
                    inr (get_value-Settles 8 4 _ refl refl refl refl (λ s. refl)),
                    (
                      inr getdbname-Settles,
                      (
                        inr (get_value-Settles 16 4 _ refl refl refl refl (λ s. refl)),
                        (
                          inr (get_value-Settles 17 4 _ refl refl refl refl (λ s. refl)),
                          (
                            inr (get_value-Settles 18 4 _ refl refl refl refl (λ s. refl)),
                            (
                              inr (get_value-Settles 19 4 _ refl refl refl refl (λ s. refl)),
                              (
                                inr (get_value-Settles 20 4 _ refl refl refl refl (λ s. refl)),
                                (inr (set_flag-Settles 21 _ refl refl (λ b s. refl)), tt),
                              ),
                            ),
                          ),
                        ),
                      ),
                    ),
                  ),
                ),
              ),
            ),
          ),
        ),
      ),
    ),
  ),
)

handler_at-Entry :
    (n : ℕ) (tab : List (ℕ × Handler)) {h : Handler}
    → All Entry tab
    → handler_at n tab ≡ some h
    → Entry (n, h)
unfolding handler_at
handler_at-Entry n [] a e = ground arith
handler_at-Entry n ((m, k) ∷ tab) (a, rest) e = elim (Bool-cases (n == m)) [
  | inl t ↦ subst Entry (ground arith) a
  | inr f ↦ handler_at-Entry n tab rest (ground arith)
]

-- The table has a handler for each of these options.
no_handler :
    (n : ℕ) → handler_at n setopt_handler_tab ≡ none → (is_setter n ≡ false) × (is_getter n ≡ false)
unfolding handler_at
no_handler n e = ground arith

-- In a build without memory mapping, a call of gdbm_setopt for any number but that of
-- GDBM_SETCACHESIZE ends, with 0 or with -1. In a database that needs recovery it fails with that
-- error, whatever is asked. Otherwise it returns 0 exactly when either the option sets a member
-- and `optval` points to an int that is 0 or 1, or it asks for one, `optval` points to a place of
-- the size of the answer, and strdup, for the name, returned a copy. In the first case that one
-- member is changed, to the value or (GDBM_SETSYNCMODE) its opposite, and nothing else; in the
-- second the answer is what is stored at `optval` and nothing is changed. In every other case it
-- returns -1 and only sets the error state, to GDBM_MALLOC_ERROR if strdup failed and to
-- GDBM_OPT_BADVAL if not, neither of them fatal.
pub gdbm_setopt-Settles :
    (optflag : ℕ) (c : Call) (s : OpenDbf)
    → optflag ≢ 1
    → ((s.cache.error.need_recovery ≡ true)
        × (gdbm_setopt optflag c s ≡ refused (record_error need_recovery true s)))
      ⊎ ((s.cache.error.need_recovery ≡ false) × Settles optflag c s (gdbm_setopt optflag c s))
unfolding gdbm_setopt
gdbm_setopt-Settles optflag c s h = elim (Bool-cases s.cache.error.need_recovery) [
  | inl broken ↦ inl (broken, ground arith)
  | inr sound ↦ inr (
    sound,
    elim (Option-cases (handler_at optflag setopt_handler_tab)) [
      | inl unknown ↦
          let (k, j) = no_handler optflag unknown in
          simp (sound, unknown, gdbm_setopt) (inl (refl, λ b t u. cc, λ g u. cc))
      | inr (k, e) ↦ elim (handler_at-Entry optflag setopt_handler_tab setopt_handler_tab-Entry e) [
        | inl one ↦ absurd (h one)
        | inr lawful ↦ simp (sound, e, gdbm_setopt) (lawful c s)
      ]
    ],
  )
]
