-- ===== src/Load/Loops.antt =====
-- src/gdbmload.c: whether the loops on lines end.
use gdbm.Prelude.{
  ℕ, ==_ne, zero, suc, ◌+◌, ◌*◌, ◌/◌, ◌^◌, ◌<◌, ◌≡◌, ◌≢◌, refl, ap, ◌∙◌, Bool, true, false, none,
  some, List, [], ◌∷◌, ◌++◌, ltb, ◌==◌, ◌||◌, if◌then◌else◌, length, Bool-cases, Option-cases, inl,
  inr, arith, some_inj,
}
use mathlib.Core.Option.{none-ne-some}
use gdbm.Errno.{malloc_error, file_read_error, file_eof}
use gdbm.Dump.{newline, max_dump_line_len}
use gdbm.Load.{
  DumpFile, LoadEnd, loaded, load_error, undefined, unended, M, ◌>>=◌, take_line, until_nul, chomp,
  fgets, reallocate, line_room, store_text, line_loop, get_dump_line,
}
use gdbm.Load.Lines.{IsLine, ready, held, get_dump_line-ready, get_dump_line-held}
use gdbm.Load.Parms.{get_parms, parms_loop}
use gdbm.Load.Record.{skip_loop, data_loop, get_data, decode_data, read_value, read_record}
use gdbm.Load.Header.{len_bytes, len_text, parms_loop_comment}
use gdbm.Load.First.{get_parms_len}
use gdbm.Load.RoundTrip.{>>=-loaded, value_of, read_value_len}
use gdbm.Load.Data.{Pending}

length-take_line :
    (k : ℕ) (xs : List ℕ) → length (take_line k xs).0 + length (take_line k xs).1 ≡ length xs
unfolding take_line
length-take_line zero xs = omega arith
length-take_line (suc k) [] = refl
length-take_line (suc k) (x ∷ xs) = elim (Bool-cases (x == newline)) [
  | inl e ↦ rw e (omega arith)
  | inr e ↦ rw e (omega (arith, length-take_line k xs))
]

if_some :
    {A : Type 0} (b : Bool) (x : A) {y : A}
    → (if b then none else some x) ≡ some y
    → (b ≡ false) × (x ≡ y)
if_some true x e = absurd (none-ne-some _ e)
if_some false x e = (refl, some_inj e)

or_false : (n : ℕ) (b : Bool) → (n == 0 || b) ≡ false → 0 < n
or_false n b h = ground arith

-- Each call of fgets that gives a text takes some bytes from the stream.
fgets-shrinks :
    (s s1 : DumpFile) (buf : List ℕ) → fgets s ≡ some (buf, s1) → length s1.fp < length s.fp
unfolding fgets
fgets-shrinks s s1 buf e =
    let (some_byte, same) = if_some _ _ e in
    let fp = ap (λ p. length p.1.fp) same in
    let nonempty = or_false (length (take_line 79 s.fp).0) _ some_byte in
    omega (arith, length-take_line 79 s.fp)

-- A step keeps the stream.
abbrev KeepsStream : {A : Type 0} → DumpFile → LoadEnd A → Type 0
KeepsStream s (loaded a s1) = s1.fp ≡ s.fp
KeepsStream s (load_error ec s1) = Unit
KeepsStream s undefined = ⊥
KeepsStream s unended = ⊥

answered :
    (resize : DumpFile → DumpFile) (s : DumpFile) (answers : List Bool)
    → ((s : DumpFile) → (resize s).fp ≡ s.fp)
    → KeepsStream s (elim answers as (λ a. LoadEnd (Unit {0})) [
      | [] ↦ loaded tt (resize s)
      | ok ∷ rest ↦
          if ok
          then loaded tt (resize (record s { answers = rest }))
          else load_error malloc_error (record s { answers = rest })
    ])
answered resize s [] h = h s
answered resize s (true ∷ rest) h = h (record s { answers = rest })
answered resize s (false ∷ rest) h = tt

line_room-KeepsStream : (n : ℕ) (s : DumpFile) → KeepsStream s (line_room n s)
unfolding line_room reallocate
line_room-KeepsStream n s =
    let size = (s.lblevel + n + max_dump_line_len) / max_dump_line_len * max_dump_line_len in
    let resize : DumpFile → DumpFile = λ t. record t { lbsize = size } in
    elim (Bool-cases (ltb s.lbsize (n + 1 + s.lblevel))) [
      | inl grows ↦ rw grows (answered resize s s.answers (λ t. refl))
      | inr fits ↦ rw fits refl
    ]

KeepsStream-elim :
    {A : Type 0} (s : DumpFile) (m : LoadEnd A) (f : DumpFile → DumpFile)
    → KeepsStream s m
    → ((s1 : DumpFile) → (f s1).fp ≡ s1.fp)
    → KeepsStream s (elim m as (λ x. LoadEnd (Unit {0})) [
      | loaded a s1 ↦ loaded tt (f s1)
      | load_error ec s1 ↦ load_error ec s1
      | undefined ↦ undefined
      | unended ↦ unended
    ])
KeepsStream-elim s (loaded a s1) f h k = k s1 ∙ h
KeepsStream-elim s (load_error ec s1) f h k = tt
KeepsStream-elim s undefined f h k = h
KeepsStream-elim s unended f h k = h

store_text-KeepsStream :
    (body : List ℕ) (ended : Bool) (s : DumpFile) → KeepsStream s (store_text body ended s)
unfolding store_text
store_text-KeepsStream body true s =
    KeepsStream-elim s _ _ (line_room-KeepsStream (length body) (record s { line = s.line + 1 }))
      (λ s1. refl)
store_text-KeepsStream body false s =
    KeepsStream-elim s _ _ (line_room-KeepsStream (length body) s) (λ s1. refl)

-- It ends, and reads no byte that has not been written.
abbrev Ends : {A : Type 0} → LoadEnd A → Type 0
Ends (loaded a s) = Unit
Ends (load_error ec s) = Unit
Ends undefined = ⊥
Ends unended = ⊥

Ends-stored :
    (s : DumpFile) (m : LoadEnd (Unit {0})) (ended : Bool) (f : DumpFile → LoadEnd (Unit {0}))
    → KeepsStream s m
    → ((s2 : DumpFile) → s2.fp ≡ s.fp → Ends (f s2))
    → Ends (elim m as (λ x. LoadEnd (Unit {0})) [
      | loaded u s2 ↦ elim ended as (λ x. LoadEnd (Unit {0})) [ true ↦ loaded tt s2 | false ↦ f s2 ]
      | load_error ec s2 ↦ load_error ec s2
      | undefined ↦ undefined
      | unended ↦ unended
    ])
Ends-stored s (loaded u s2) true f h k = tt
Ends-stored s (loaded u s2) false f h k = k s2 h
Ends-stored s (load_error ec s2) ended f h k = tt
Ends-stored s undefined ended f h k = h
Ends-stored s unended ended f h k = h

line_loop-Ends : (fuel : ℕ) (s : DumpFile) → length s.fp < fuel → Ends (line_loop fuel s)
unfolding line_loop
line_loop-Ends zero s h = absurd (omega arith)
line_loop-Ends (suc fuel) s h = elim (Option-cases (fgets s)) [
  | inl e ↦ rw (e, line_loop) tt
  | inr ((buf, s1), e) ↦
      let (body, ended) = chomp (until_nul buf) in
      rw (e, line_loop)
        (Ends-stored s1 (store_text body ended s1) ended (line_loop fuel)
          (store_text-KeepsStream body ended s1)
          (λ s2 same. line_loop-Ends fuel s2 (rw same (omega (arith, fgets-shrinks s s1 buf e)))))
]

Ends-if : {A : Type 0} (b : Bool) (x y : LoadEnd A) → Ends x → Ends y → Ends (if b then x else y)
Ends-if true x y h k = h
Ends-if false x y h k = k

Ends-line :
    (m : LoadEnd (Unit {0}))
    → Ends m
    → Ends (elim m as (λ x. LoadEnd ℕ) [
      | loaded u s1 ↦
          if s1.ferror
          then load_error file_read_error s1
          else if s1.lblevel == 0
          then load_error file_eof s1
          else loaded s1.lblevel s1
      | load_error ec s1 ↦ load_error ec s1
      | undefined ↦ undefined
      | unended ↦ unended
    ])
Ends-line (loaded u s1) h = Ends-if s1.ferror _ _ tt (Ends-if (s1.lblevel == 0) _ _ tt tt)
Ends-line (load_error ec s1) h = tt
Ends-line undefined h = h
Ends-line unended h = h

-- Whatever the stream gives, whether reading or memory fails, and whatever is in the buffers,
-- get_dump_line ends, with a line or an error: each round takes some bytes from the stream.
get_dump_line-Ends : (s : DumpFile) → Ends (get_dump_line s)
unfolding get_dump_line
get_dump_line-Ends s =
    let rounds = suc (length s.fp) in
    Ends-line (if s.lblevel == 0 then line_loop rounds s else loaded tt s) (
      Ends-if (s.lblevel == 0) (line_loop rounds s) (loaded tt s)
        (line_loop-Ends rounds s (omega arith)) tt)

>>=-unended :
    {A B : Type 0} (m : M A) (f : A → M B) (s : DumpFile) → m s ≡ unended → (m >>= f) s ≡ unended
>>=-unended m f s e = rw (e, ◌>>=◌) refl

skip_loop_hash :
    (fuel : ℕ) (s : DumpFile) (l stale rest buffer : List ℕ) (k : ℕ)
    → skip_loop fuel (held s (b'#' ∷ l) stale rest buffer k) ≡ unended
unfolding skip_loop
skip_loop_hash zero s l stale rest buffer k = refl
skip_loop_hash (suc fuel) s l stale rest buffer k =
    rw (get_dump_line-held s (b'#' ∷ l) stale rest buffer k (omega arith), skip_loop)
      (skip_loop_hash fuel s l stale rest buffer k)

skip_loop-ready :
    (fuel : ℕ) (s : DumpFile) (l rest buffer : List ℕ) (k : ℕ)
    → IsLine (b'#' ∷ l)
    → skip_loop fuel (ready s (b'#' ∷ l ++ newline ∷ rest) buffer k) ≡ unended
unfolding skip_loop
skip_loop-ready zero s l rest buffer k h = refl
skip_loop-ready (suc fuel) s l rest buffer k h =
    let (s1, stale, e) = get_dump_line-ready s (b'#' ∷ l) rest buffer k h in
    rw (e, skip_loop) (skip_loop_hash fuel s1 l stale rest buffer k)

get_data_hash :
    (fuel : ℕ) (s : DumpFile) (l rest buffer : List ℕ) (k : ℕ)
    → IsLine (b'#' ∷ l)
    → get_data fuel (ready s (b'#' ∷ l ++ newline ∷ rest) buffer k) ≡ unended
unfolding get_data
get_data_hash fuel s l rest buffer k h =
    >>=-unended (skip_loop fuel) (data_loop fuel) (ready s (b'#' ∷ l ++ newline ∷ rest) [] 0)
      (skip_loop-ready fuel s l rest [] 0 h)

value_of_hash :
    (fuel which n : ℕ) (s : DumpFile) (l rest buffer : List ℕ) (k : ℕ)
    → 0 < n
    → IsLine (b'#' ∷ l)
    → value_of fuel which n (ready s (b'#' ∷ l ++ newline ∷ rest) buffer k) ≡ unended
value_of_hash fuel which n s l rest buffer k some_byte h =
    let x = ready s (b'#' ∷ l ++ newline ∷ rest) buffer k in
    rw (==_ne n 0 (omega arith)) (
      >>=-unended (get_data fuel) (λ u. decode_data true which n) x
        (get_data_hash fuel s l rest buffer k h))

-- A datum whose length is given and not 0, then a comment, and then a line that starts with '#'
-- again: read_record never ends. However many rounds there are, it is still reading that line, which
-- get_data does not drop.
pub read_record_hangs :
    (fuel which n c : ℕ) (l l' rest buffer : List ℕ) (x : DumpFile)
    → 0 < n
    → n < 2 ^ 64
    → c ≢ b':'
    → IsLine (b'#' ∷ c ∷ l)
    → IsLine (b'#' ∷ l')
    → Pending
        (len_bytes n ++ newline ∷ (b'#' ∷ c ∷ l ++ newline ∷ (b'#' ∷ l' ++ newline ∷ rest)))
        buffer
        x
    → read_record fuel true which x ≡ unended
unfolding read_record get_parms parms_loop
read_record_hangs zero which n c l l' rest buffer x some_byte small diff h h' pending = refl
read_record_hangs (suc zero) which n c l l' rest buffer x some_byte small diff h h' pending =
    let (s, first) = get_parms_len n 0 _ buffer x small pending in
    >>=-unended (get_parms 1) (λ u. read_value 1 true which) x first
read_record_hangs (suc (suc fuel)) which n c l l' rest buffer x some_byte small diff h h' pending =
    let f = suc (suc fuel) in
    let next = b'#' ∷ l' ++ newline ∷ rest in
    let (s, first) =
      get_parms_len n (suc fuel) (b'#' ∷ c ∷ l ++ newline ∷ next) buffer x small pending in
    let (s', second) = parms_loop_comment s fuel c l next (len_text n) true 0 h diff in
    >>=-loaded (get_parms f) (λ u. read_value f true which) x (first ∙ second)
    ∙ read_value_len n f which (ready s' next [] 0) small
    ∙ value_of_hash f which n s' l' rest (len_text n) 1 some_byte h'
