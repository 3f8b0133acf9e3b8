-- ===== src/FullIo/Write.antt =====
-- src/fullio.c: `_gdbm_full_write` ends with the bytes written, or an error and a prefix of them.
use gdbm.Prelude.{
  ℕ, zero, suc, ◌+◌, ◌≤◌, ◌<◌, ◌≡◌, ◌≢◌, ◌⊎◌, inl, inr, refl, Bool, true, false, Option, none, List,
  [], ◌∷◌, ◌++◌, ltb, ◌==◌, if◌then◌else◌, length, take, drop, take-append-drop, length-take,
  length-drop, Bool-cases, sym, ap, ◌∙◌, arith,
}
use mathlib.Core.List.{append_assoc, append-nil}
use mathlib.Core.Path.{subst}
use gdbm.Errno.{ErrorState, set_errno, code, file_write_error}
use gdbm.FullIo.{
  Answer, moved, refused, File, Io, complete, incomplete, unended, set_error, overwrite, write_loop,
  full_write,
}
use gdbm.FullIo.Read.{recorded, take_none, drop_none}

-- Some answer is a write of nothing, or a refusal that is not an interruption.
abbrev pub HasFault : ℕ → List Answer → Type 0
HasFault eintr [] = ⊥
HasFault eintr (moved n ∷ rest) = (n ≡ 0) ⊎ HasFault eintr rest
HasFault eintr (refused e ∷ rest) = (e ≢ eintr) ⊎ HasFault eintr rest

-- How a write of these bytes ends.
abbrev pub WriteEnds : ℕ → List ℕ → File → Io (Unit {0}) → Type 0
WriteEnds eintr bytes f (complete _ f') =
    (f'.behind ≡ f.behind ++ bytes)
    × (f'.ahead ≡ drop (length bytes) f.ahead)
    × (f'.error ≡ f.error)
WriteEnds eintr bytes f (incomplete f') =
    (k : ℕ) × (k < length bytes)
    × (f'.behind ≡ f.behind ++ take k bytes)
    × (f'.ahead ≡ drop k f.ahead)
    × HasFault eintr f.answers
    × (0 < code f'.error.last_error)
WriteEnds eintr bytes f unended = ⊥

pub drop-drop : (m n : ℕ) (xs : List ℕ) → drop n (drop m xs) ≡ drop (m + n) xs
drop-drop zero n xs = ap (λ (k : ℕ). drop k xs) (omega arith)
drop-drop (suc m) zero [] = sym (drop_none (suc m + 0))
drop-drop (suc m) (suc n) [] = sym (drop_none (suc m + suc n))
drop-drop (suc m) n (x ∷ xs) =
    drop-drop m n xs
    ∙ ap (λ (k : ℕ). drop k (x ∷ xs)) {x = suc (m + n)} {y = suc m + n} (omega arith)

take_add : (m n : ℕ) (xs : List ℕ) → take m xs ++ take n (drop m xs) ≡ take (m + n) xs
take_add zero n xs = ap (λ (k : ℕ). take k xs) (omega arith)
take_add (suc m) zero [] = sym (take_none (suc m + 0))
take_add (suc m) (suc n) [] = sym (take_none (suc m + suc n))
take_add (suc m) n (x ∷ xs) =
    ap (λ (l : List ℕ). x ∷ l) (take_add m n xs)
    ∙ ap (λ (k : ℕ). take k (x ∷ xs)) {x = suc (m + n)} {y = suc m + n} (omega arith)

take_all : (xs : List ℕ) → take (length xs) xs ≡ xs
take_all [] = refl
take_all (x ∷ xs) = ap (λ (l : List ℕ). x ∷ l) (take_all xs)

-- A write of some bytes, and then of the rest.
WriteEnds-overwrite :
    (eintr count : ℕ) (bytes : List ℕ) (f : File) (rest : List Answer) (r : Io (Unit {0}))
    → count ≤ length bytes
    → (HasFault eintr rest → HasFault eintr f.answers)
    → WriteEnds eintr
        (drop count bytes)
        (overwrite (take count bytes) (record f { answers = rest }))
        r
    → WriteEnds eintr bytes f r
WriteEnds-overwrite eintr count bytes f rest (complete _ f') le h (behind, ahead, same) =
    let l = length-take count bytes in
    let d = length-drop count bytes in
    (
      behind
          ∙ append_assoc f.behind _ _
          ∙ ap (λ (x : List ℕ). f.behind ++ x) (take-append-drop count bytes),
      ahead
          ∙ drop-drop (length (take count bytes)) (length (drop count bytes)) f.ahead
          ∙ ap (λ (k : ℕ). drop k f.ahead) (ground arith),
      same,
    )
WriteEnds-overwrite eintr count bytes f rest (incomplete f') le h (k, lt, behind, ahead, fault, e) =
    let l = length-take count bytes in
    let d = length-drop count bytes in
    (
      count + k,
      (ground arith),
      behind
          ∙ append_assoc f.behind _ _
          ∙ ap (λ (x : List ℕ). f.behind ++ x) (take_add count k bytes),
      ahead
          ∙ drop-drop (length (take count bytes)) k f.ahead
          ∙ ap (λ (k : ℕ). drop k f.ahead) (ground arith),
      h fault,
      e,
    )
WriteEnds-overwrite eintr count bytes f rest unended le h k = elim k [ ]

-- After an interruption the write goes on.
retried :
    (eintr : ℕ) (bytes : List ℕ) (f : File) (rest : List Answer) (errno : ℕ) (r : Io (Unit {0}))
    → (HasFault eintr rest → HasFault eintr f.answers)
    → WriteEnds eintr bytes (record f { answers = rest; errno = errno }) r
    → WriteEnds eintr bytes f r
retried eintr bytes f rest errno (complete _ f') h k = k
retried eintr bytes f rest errno (incomplete f') h (k, lt, behind, ahead, fault, e) =
    (k, lt, behind, ahead, h fault, e)
retried eintr bytes f rest errno unended h k = elim k [ ]

nothing :
    (eintr : ℕ) (bytes : List ℕ) (f : File)
    → length bytes ≡ 0
    → WriteEnds eintr bytes f (complete tt f)
nothing eintr [] f z = (sym (append-nil f.behind), refl, refl)
nothing eintr (x ∷ xs) f z = absurd (omega arith)

-- A write that stops at once.
stopped :
    (eintr : ℕ) (bytes : List ℕ) (f f' : File)
    → 0 < length bytes
    → f'.behind ≡ f.behind
    → f'.ahead ≡ f.ahead
    → HasFault eintr f.answers
    → 0 < code f'.error.last_error
    → WriteEnds eintr bytes f (incomplete f')
stopped eintr bytes f f' pos b a fault e = (0, pos, b ∙ sym (append-nil f.behind), a, fault, e)

same_bytes :
    (c : Bool) (f g : File)
    → g.behind ≡ f.behind
    → g.ahead ≡ f.ahead
    → ((if c then g else f).behind ≡ f.behind) × ((if c then g else f).ahead ≡ f.ahead)
same_bytes true f g b a = (b, a)
same_bytes false f g b a = (refl, refl)

-- One call that moved some bytes.
piece :
    (eintr enospc count : ℕ) (bytes chunk : List ℕ) (f : File) (rest : List Answer)
    (continue : List ℕ → File → Io (Unit {0}))
    → 0 < length bytes
    → count ≤ length bytes
    → chunk ≡ take count bytes
    → (HasFault eintr rest → HasFault eintr f.answers)
    → (count ≡ 0 → HasFault eintr f.answers)
    → (0 < count
        → WriteEnds eintr
            (drop count bytes)
            (overwrite chunk (record f { answers = rest }))
            (continue (drop count bytes) (overwrite chunk (record f { answers = rest }))))
    → WriteEnds eintr bytes f (elim (count == 0) [
      | true ↦ incomplete (
          set_error file_write_error true
            (record (overwrite chunk (record f { answers = rest })) { errno = enospc }))
      | false ↦ continue (drop count bytes) (overwrite chunk (record f { answers = rest }))
    ])
piece eintr enospc count bytes chunk f rest continue pos le e h none_moved ih =
    elim (Bool-cases (count == 0)) [
      | inl z ↦
          let c : count ≡ 0 = ground arith in
          let gone : chunk ≡ [] = e ∙ ap (λ (k : ℕ). take k bytes) c in
          rw z (
            stopped eintr bytes f
              (set_error file_write_error true
                (record (overwrite chunk (record f { answers = rest })) { errno = enospc }))
              pos (ap (λ (x : List ℕ). f.behind ++ x) gone ∙ append-nil f.behind)
              (ap (λ (x : List ℕ). drop (length x) f.ahead) gone) (none_moved c)
              (unfold set_errno code in omega arith))
      | inr nz ↦ rw nz (
          WriteEnds-overwrite eintr count bytes f rest _ le h (
            subst
              (λ (x : List ℕ).
                WriteEnds eintr (drop count bytes) (overwrite x (record f { answers = rest }))
                  (continue (drop count bytes) (overwrite chunk (record f { answers = rest }))))
              e (ih (ground arith))))
    ]

-- So many rounds are enough.
abbrev rounds : List ℕ → List Answer → ℕ
rounds bytes answers = length answers + (if length bytes == 0 then 1 else 2)

module _ (eintr enospc : ℕ) (file_size : Option ℕ) (error : ErrorState) where
  abbrev file : List ℕ → List ℕ → List Answer → ℕ → File
  file behind ahead answers errno = record {
    behind = behind;
    ahead = ahead;
    answers = answers;
    errno = errno;
    file_size = file_size;
    error = error;
  }

  write_loop_lem :
      (fuel : ℕ) (bytes behind ahead : List ℕ) (answers : List Answer) (errno : ℕ)
      → rounds bytes answers ≤ fuel
      → WriteEnds eintr bytes
          (file behind ahead answers errno)
          (write_loop fuel eintr enospc bytes (file behind ahead answers errno))
  unfolding write_loop
  write_loop_lem zero bytes behind ahead answers errno h = absurd (ground arith)
  write_loop_lem (suc fuel) bytes behind ahead [] errno h = elim (Bool-cases (length bytes == 0)) [
    | inl z ↦ rw (write_loop, z) (nothing eintr bytes (file behind ahead [] errno) (ground arith))
    | inr nz ↦
        rw (write_loop, nz)
          (piece eintr enospc (length bytes) bytes bytes (file behind ahead [] errno) []
            (write_loop fuel eintr enospc) (ground arith) (omega arith) (sym (take_all bytes))
            (λ k. k) (λ z. absurd (ground arith))
            (λ more.
              write_loop_lem fuel (drop (length bytes) bytes) (behind ++ bytes)
                (drop (length bytes) ahead) [] errno
                (let d = length-drop (length bytes) bytes in ground arith)))
  ]
  write_loop_lem (suc fuel) bytes behind ahead (moved n ∷ rest) errno h =
      elim (Bool-cases (length bytes == 0)) [
        | inl z ↦
            rw (write_loop, z)
              (nothing eintr bytes (file behind ahead (moved n ∷ rest) errno) (ground arith))
        | inr nz ↦
            let count : ℕ = if ltb n (length bytes) then n else length bytes in
            rw (write_loop, nz)
              (piece eintr enospc count bytes (take count bytes)
                (file behind ahead (moved n ∷ rest) errno) rest (write_loop fuel eintr enospc)
                (ground arith) (ground arith) refl (λ k. inr k) (λ z. inl (ground arith))
                (λ more.
                  write_loop_lem fuel (drop count bytes) (behind ++ take count bytes)
                    (drop (length (take count bytes)) ahead) rest errno
                    (let d = length-drop count bytes in ground arith)))
      ]
  write_loop_lem (suc fuel) bytes behind ahead (refused e ∷ rest) errno h =
      elim (Bool-cases (length bytes == 0)) [
        | inl z ↦
            rw (write_loop, z)
              (nothing eintr bytes (file behind ahead (refused e ∷ rest) errno) (ground arith))
        | inr nz ↦ elim (Bool-cases (e == eintr)) [
          | inl again ↦
              rw (write_loop, nz, again)
                (retried eintr bytes (file behind ahead (refused e ∷ rest) errno) rest e _
                  (λ k. inr k) (write_loop_lem fuel bytes behind ahead rest e (ground arith)))
          | inr fault ↦
              rw (write_loop, nz, fault)
                (stopped eintr bytes (file behind ahead (refused e ∷ rest) errno)
                  (if code error.last_error == 0
                    then set_error file_write_error true (file behind ahead rest e)
                    else file behind ahead rest e)
                  (ground arith)
                  (same_bytes (code error.last_error == 0) (file behind ahead rest e)
                    (set_error file_write_error true (file behind ahead rest e)) refl refl).0
                  (same_bytes (code error.last_error == 0) (file behind ahead rest e)
                    (set_error file_write_error true (file behind ahead rest e)) refl refl).1
                  (inl (ground arith))
                  (recorded file_write_error true (file behind ahead rest e)
                    (unfold code in omega arith)))
        ]
      ]

-- Whatever the answers are, short writes and interruptions included, the write of these bytes
-- ends. It succeeds with exactly these bytes in place of as many after the position, or past the
-- end of the file; it fails with an error code only where the system wrote nothing, or refused
-- otherwise than by an interruption, and then less than all of the bytes, from the first on, are in
-- the file.
pub full_write-WriteEnds :
    (eintr enospc : ℕ) (bytes : List ℕ) (f : File)
    → WriteEnds eintr bytes f (full_write eintr enospc bytes f)
unfolding full_write
full_write-WriteEnds eintr enospc bytes f =
    (write_loop_lem eintr enospc none f.error (length f.answers + 2) bytes f.behind f.ahead
      f.answers f.errno (ground arith))
