-- ===== src/FullIo/Extend.antt =====
-- src/fullio.c: `_gdbm_file_extend` ends, with the file grown by zeros, or an error.
use gdbm.Prelude.{
  ℕ, zero, suc, ◌+◌, ◌-◌, ◌≤◌, ◌<◌, ◌≡◌, ◌⊎◌, inl, inr, refl, Bool, true, false, Option, none, some,
  List, [], ◌∷◌, ◌++◌, ltb, ◌==◌, if◌then◌else◌, length, take, drop, replicate, length-replicate,
  Bool-cases, sym, ap, ◌∙◌, arith,
}
use mathlib.Core.Path.{subst}
use mathlib.Core.List.{append_assoc, append-nil}
use gdbm.Errno.{GdbmError, code, ErrorState, set_errno, file_write_error}
use gdbm.FullIo.{
  Answer, moved, refused, File, Io, complete, incomplete, unended, set_error, overwrite,
  extend_loop, extend_by, file_extend,
}

-- The bytes of zeros that were written at the end, and how many are missing.
abbrev pub Extended : ℕ → File → Option (ℕ × File) → Type 0
Extended size f none = ⊥
Extended size f (some (left, f')) =
    (k : ℕ) × (k + left ≡ size)
    × (f'.behind ≡ f.behind ++ replicate k 0)
    × (f'.ahead ≡ [])
    × ((left ≡ 0) ⊎ (f'.error.last_error ≡ file_write_error))

replicate-append : (m n : ℕ) → replicate {A = ℕ} m 0 ++ replicate n 0 ≡ replicate (m + n) 0
replicate-append zero n = ap (λ (k : ℕ). replicate {A = ℕ} k 0) (omega arith)
replicate-append (suc m) n =
    ap (λ (l : List ℕ). 0 ∷ l) (replicate-append m n)
    ∙ ap (λ (k : ℕ). replicate {A = ℕ} k 0) {x = suc (m + n)} {y = suc m + n} (omega arith)

take-replicate : (m n : ℕ) → m ≤ n → take m (replicate {A = ℕ} n 0) ≡ replicate m 0
take-replicate zero n h = refl
take-replicate (suc m) zero h = absurd (omega arith)
take-replicate (suc m) (suc n) h = ap (λ (l : List ℕ). 0 ∷ l) (take-replicate m n (omega arith))

drop_none : (k : ℕ) → drop {A = ℕ} k [] ≡ []
drop_none zero = refl
drop_none (suc k) = refl

stopped :
    (size : ℕ) (f f' : File)
    → f'.behind ≡ f.behind
    → f'.ahead ≡ []
    → f'.error.last_error ≡ file_write_error
    → Extended size f (some (size, f'))
stopped size f f' b a e = (0, (omega arith), b ∙ sym (append-nil f.behind), a, inr e)

Extended-overwrite :
    (size k : ℕ) (f g : File) (r : Option (ℕ × File))
    → k ≤ size
    → g.behind ≡ f.behind ++ replicate k 0
    → Extended (size - k) g r
    → Extended size f r
Extended-overwrite size k f g none le b h = h
Extended-overwrite size k f g (some (left, f')) le b (j, e, b', a', w) = (
  k + j,
  (omega arith),
  b'
      ∙ ap (λ (l : List ℕ). l ++ replicate j 0) b
      ∙ append_assoc f.behind _ _
      ∙ ap (λ (l : List ℕ). f.behind ++ l) (replicate-append k j),
  a',
  w,
)

module _ (page_size : ℕ) (file_size : Option ℕ) where
  abbrev file : List ℕ → List ℕ → List Answer → ℕ → ErrorState → File
  file behind ahead answers errno error = record {
    behind = behind;
    ahead = ahead;
    answers = answers;
    errno = errno;
    file_size = file_size;
    error = error;
  }

  nothing : (size : ℕ) (f : File) → f.ahead ≡ [] → size ≡ 0 → Extended size f (some (0, f))
  nothing size f e z = (0, (omega arith), sym (append-nil f.behind), e, inl refl)

  none_ahead : (bytes ahead : List ℕ) → ahead ≡ [] → drop (length bytes) ahead ≡ []
  none_ahead bytes ahead e = ap (λ (l : List ℕ). drop (length bytes) l) e ∙ drop_none (length bytes)

  -- One call that wrote so many of the chunk's bytes.
  piece :
      (size chunk k : ℕ) (f : File) (bytes : List ℕ) (rest : List Answer)
      (continue : ℕ → File → Option (ℕ × File))
      → f.ahead ≡ []
      → k ≤ chunk
      → chunk ≤ size
      → bytes ≡ replicate k 0
      → (0 < k
          → Extended
              (size - k)
              (overwrite bytes (record f { answers = rest }))
              (continue (size - k) (overwrite bytes (record f { answers = rest }))))
      → Extended size f (elim (k == 0) [
        | true ↦
            some (
              size,
              set_error file_write_error true (overwrite bytes (record f { answers = rest })),
            )
        | false ↦ continue (size - k) (overwrite bytes (record f { answers = rest }))
      ])
  piece size chunk k f bytes rest continue empty le fits e ih = elim (Bool-cases (k == 0)) [
    | inl z ↦
        let gone : bytes ≡ [] =
          e ∙ ap (λ (n : ℕ). replicate {A = ℕ} n 0) {x = k} {y = 0} (ground arith) in
        rw z (
          stopped size f
            (set_error file_write_error true (overwrite bytes (record f { answers = rest })))
            (ap (λ (l : List ℕ). f.behind ++ l) gone ∙ append-nil f.behind)
            (ap (λ (l : List ℕ). drop (length bytes) l) empty ∙ drop_none (length bytes))
            (unfold set_errno in refl))
    | inr nz ↦ rw nz (
        Extended-overwrite size k f (overwrite bytes (record f { answers = rest })) _ (omega arith)
          (ap (λ (l : List ℕ). f.behind ++ l) e) (ih (ground arith)))
  ]

  extend_loop_lem :
      (fuel size : ℕ) (behind ahead : List ℕ) (answers : List Answer) (errno : ℕ)
      (error : ErrorState)
      → ahead ≡ []
      → 0 < page_size
      → size < fuel
      → Extended size
          (file behind ahead answers errno error)
          (extend_loop fuel page_size size (file behind ahead answers errno error))
  unfolding extend_loop
  extend_loop_lem zero size behind ahead answers errno error e pos h = absurd (omega arith)
  extend_loop_lem (suc fuel) size behind ahead [] errno error e pos h =
      elim (Bool-cases (size == 0)) [
        | inl z ↦
            rw (extend_loop, z) (nothing size (file behind ahead [] errno error) e (ground arith))
        | inr nz ↦
            let chunk : ℕ = if ltb size page_size then size else page_size in
            let bytes : List ℕ = replicate chunk 0 in
            let l : length bytes ≡ chunk = length-replicate chunk 0 in
            rw (extend_loop, nz)
              (piece size chunk (length bytes) (file behind ahead [] errno error) bytes []
                (extend_loop fuel page_size) e (omega arith) (ground arith)
                (ap (λ (k : ℕ). replicate {A = ℕ} k 0) (sym l))
                (λ more.
                  extend_loop_lem fuel (size - length bytes) (behind ++ bytes)
                    (drop (length bytes) ahead) [] errno error (none_ahead bytes ahead e) pos
                    (ground arith)))
      ]
  extend_loop_lem (suc fuel) size behind ahead (moved n ∷ rest) errno error e pos h =
      elim (Bool-cases (size == 0)) [
        | inl z ↦
            rw (extend_loop, z)
              (nothing size (file behind ahead (moved n ∷ rest) errno error) e (ground arith))
        | inr nz ↦
            let chunk : ℕ = if ltb size page_size then size else page_size in
            let l : length (replicate {A = ℕ} chunk 0) ≡ chunk = length-replicate chunk 0 in
            let count : ℕ =
              if ltb n (length (replicate {A = ℕ} chunk 0))
              then n
              else length (replicate {A = ℕ} chunk 0) in
            let bytes : List ℕ = take count (replicate chunk 0) in
            let le : count ≤ chunk = ground arith in
            rw (extend_loop, nz)
              (piece size chunk count (file behind ahead (moved n ∷ rest) errno error) bytes rest
                (extend_loop fuel page_size) e le (ground arith) (take-replicate count chunk le)
                (λ more.
                  extend_loop_lem fuel (size - count) (behind ++ bytes) (drop (length bytes) ahead)
                    rest errno error (none_ahead bytes ahead e) pos (ground arith)))
      ]
  extend_loop_lem (suc fuel) size behind ahead (refused n ∷ rest) errno error e pos h =
      elim (Bool-cases (size == 0)) [
        | inl z ↦
            rw (extend_loop, z)
              (nothing size (file behind ahead (refused n ∷ rest) errno error) e (ground arith))
        | inr nz ↦
            rw (extend_loop, nz)
              (stopped size (file behind ahead (refused n ∷ rest) errno error)
                (set_error file_write_error true (file behind ahead rest n error)) refl e
                (unfold set_errno in refl))
      ]

-- How the growing to so many bytes ends, for a file that is not empty.
abbrev pub ExtendEnds : ℕ → File → Io (Unit {0}) → Type 0
ExtendEnds size f (complete _ f') =
    (f'.behind ≡ (f.behind ++ f.ahead) ++ replicate (size - (length f.behind + length f.ahead)) 0)
    × (f'.ahead ≡ [])
ExtendEnds size f (incomplete f') =
    (k : ℕ) × (length f.behind + length f.ahead + k < size)
    × (f'.behind ≡ (f.behind ++ f.ahead) ++ replicate k 0)
    × (f'.ahead ≡ [])
    × (0 < code f'.error.last_error)
ExtendEnds size f unended = ⊥

-- What the end of the loop means.
concluded :
    (size : ℕ) (f : File) (o : Option (ℕ × File))
    → length f.behind + length f.ahead < size
    → Extended
        (size - (length f.behind + length f.ahead))
        (record f { behind = f.behind ++ f.ahead; ahead = []; file_size = none })
        o
    → ExtendEnds size f
        (elim o [ none ↦ unended | some r ↦ if r.0 == 0 then complete tt r.1 else incomplete r.1 ])
concluded size f none lt h = h
concluded size f (some (left, f')) lt (k, sum, b, a, w) = elim (Bool-cases (left == 0)) [
  | inl z ↦
      let all : k ≡ size - (length f.behind + length f.ahead) = ground arith in
      rw z (b ∙ ap (λ (n : ℕ). (f.behind ++ f.ahead) ++ replicate n 0) all, a)
  | inr nz ↦ rw nz (
    k,
    (ground arith),
    b,
    a,
    elim w [
      | inl y ↦ absurd (ground arith)
      | inr e ↦ subst (λ (ec : GdbmError). 0 < code ec) (sym e) (unfold code in omega arith)
    ],
  )
]

-- For a file that is not empty, where the position can be set and pages have bytes: whatever the
-- answers are, the growing to so many bytes ends. It succeeds with the file's bytes and then zeros
-- up to that size, or none where the file is as long already; it fails with an error code and less
-- zeros than that. Every byte that was in the file is kept either way.
pub file_extend-ExtendEnds :
    (calloc_ok : Bool) (page_size size : ℕ) (f : File)
    → 0 < page_size
    → 0 < length f.behind + length f.ahead
    → ExtendEnds size f (file_extend true calloc_ok page_size size f)
unfolding file_extend extend_by
file_extend-ExtendEnds calloc_ok page_size size f pos some_bytes =
    let missing : ℕ = size - (length f.behind + length f.ahead) in
    let start : ((length f.behind + length f.ahead) == 0) ≡ false = ground arith in
    elim (Bool-cases (missing == 0)) [
      | inl z ↦
          let all : missing ≡ 0 = ground arith in
          rw (file_extend, start, extend_by, z)
            (
              sym (append-nil (f.behind ++ f.ahead))
                  ∙ ap (λ (n : ℕ). (f.behind ++ f.ahead) ++ replicate n 0) (sym all),
              refl,
            )
      | inr nz ↦ elim (Bool-cases calloc_ok) [
        | inr fault ↦
            rw (file_extend, start, extend_by, nz, fault)
              (
                0,
                (ground arith),
                sym (append-nil (f.behind ++ f.ahead)),
                refl,
                (unfold set_errno code in omega arith),
              )
        | inl good ↦
            rw (file_extend, start, extend_by, nz, good)
              (concluded size f _ (ground arith) (
                extend_loop_lem (if ltb missing page_size then missing else page_size) none
                  (missing + 1) missing (f.behind ++ f.ahead) [] f.answers f.errno f.error refl
                  (ground arith) (omega arith)))
      ]
    ]
