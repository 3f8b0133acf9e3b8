-- ===== src/FullIo/Read.antt =====
-- src/fullio.c: `_gdbm_full_read` ends, with exactly the bytes that were asked for, or an error.
use gdbm.Prelude.{
  ℕ, zero, suc, ◌+◌, ◌-◌, ◌≤◌, ◌<◌, ◌≡◌, ◌≢◌, ◌⊎◌, inl, inr, refl, Bool, true, false, Option, List,
  [], ◌∷◌, ◌++◌, ltb, ◌==◌, if◌then◌else◌, length, take, drop, length-take, length-drop, Bool-cases,
  sym, ap, ◌∙◌, arith,
}
use mathlib.Core.List.{append_assoc, append-nil}
use gdbm.Errno.{GdbmError, ErrorState, set_errno, code, file_read_error, file_eof}
use gdbm.FullIo.{
  Answer, moved, refused, File, Io, complete, incomplete, unended, set_error, advance, read_loop,
  full_read,
}

-- Some answer is a refusal that is not an interruption.
abbrev pub HasRefusal : ℕ → List Answer → Type 0
HasRefusal eintr [] = ⊥
HasRefusal eintr (moved n ∷ rest) = HasRefusal eintr rest
HasRefusal eintr (refused e ∷ rest) = (e ≢ eintr) ⊎ HasRefusal eintr rest

-- How a read of so many bytes ends.
abbrev pub ReadEnds : ℕ → ℕ → List ℕ → File → Io (List ℕ) → Type 0
ReadEnds eintr size buffer f (complete bytes f') =
    (size ≤ length f.ahead)
    × (bytes ≡ buffer ++ take size f.ahead)
    × (f'.behind ≡ f.behind ++ take size f.ahead)
    × (f'.ahead ≡ drop size f.ahead)
    × (f'.error ≡ f.error)
ReadEnds eintr size buffer f (incomplete f') =
    ((length f.ahead < size) × (f'.error.last_error ≡ file_eof))
    ⊎ (HasRefusal eintr f.answers
        × (((code f.error.last_error ≡ 0) × (f'.error.last_error ≡ file_read_error))
            ⊎ ((0 < code f.error.last_error) × (f'.error ≡ f.error))))
ReadEnds eintr size buffer f unended = ⊥

pub take_none : (k : ℕ) → take {A = ℕ} k [] ≡ []
take_none zero = refl
take_none (suc k) = refl

pub drop_none : (k : ℕ) → drop {A = ℕ} k [] ≡ []
drop_none zero = refl
drop_none (suc k) = refl

-- A prefix taken in two pieces.
pub take_pieces :
    (n m : ℕ) (xs : List ℕ)
    → n ≤ m
    → take n xs ++ take (m - length (take n xs)) (drop n xs) ≡ take m xs
take_pieces zero m xs h = ap (λ (x : ℕ). take x xs) (omega arith)
take_pieces (suc n) zero xs h = absurd (omega arith)
take_pieces (suc n) (suc m) [] h = take_none (suc m - 0)
take_pieces (suc n) (suc m) (x ∷ xs) h =
    let shift : suc m - suc (length (take n xs)) ≡ m - length (take n xs) = omega arith in
    ap (λ (l : List ℕ). x ∷ l)
      (ap (λ (k : ℕ). take n xs ++ take k (drop n xs)) shift ∙ take_pieces n m xs (omega arith))

pub drop_pieces :
    (n m : ℕ) (xs : List ℕ) → n ≤ m → drop (m - length (take n xs)) (drop n xs) ≡ drop m xs
drop_pieces zero m xs h = ap (λ (x : ℕ). drop x xs) (omega arith)
drop_pieces (suc n) zero xs h = absurd (omega arith)
drop_pieces (suc n) (suc m) [] h = drop_none (suc m - 0)
drop_pieces (suc n) (suc m) (x ∷ xs) h =
    let shift : suc m - suc (length (take n xs)) ≡ m - length (take n xs) = omega arith in
    ap (λ (k : ℕ). drop k (drop n xs)) shift ∙ drop_pieces n m xs (omega arith)

-- A read of some bytes, and then of the rest.
ReadEnds-advance :
    (eintr size count : ℕ) (buffer : List ℕ) (f : File) (rest : List Answer) (r : Io (List ℕ))
    → count ≤ size
    → (HasRefusal eintr rest → HasRefusal eintr f.answers)
    → ReadEnds eintr
        (size - length (take count f.ahead))
        (buffer ++ take count f.ahead)
        (advance count (record f { answers = rest }))
        r
    → ReadEnds eintr size buffer f r
ReadEnds-advance eintr size count buffer f rest (complete bytes f') le h
      (room, got, behind, ahead, same) =
    let l = length-take count f.ahead in
    let k = length-drop count f.ahead in
    let p = take_pieces count size f.ahead le in
    (
      ground arith,
      got ∙ append_assoc buffer _ _ ∙ ap (λ (x : List ℕ). buffer ++ x) p,
      behind ∙ append_assoc f.behind _ _ ∙ ap (λ (x : List ℕ). f.behind ++ x) p,
      ahead ∙ drop_pieces count size f.ahead le,
      same,
    )
ReadEnds-advance eintr size count buffer f rest (incomplete f') le h (inl (short, e)) =
    let l = length-take count f.ahead in let k = length-drop count f.ahead in inl (ground arith, e)
ReadEnds-advance eintr size count buffer f rest (incomplete f') le h (inr (refusal, e)) =
    inr (h refusal, e)
ReadEnds-advance eintr size count buffer f rest unended le h k = elim k [ ]

piece :
    (eintr size count : ℕ) (buffer : List ℕ) (f : File) (rest : List Answer)
    (continue : ℕ → List ℕ → File → Io (List ℕ))
    → 0 < count
    → count ≤ size
    → (HasRefusal eintr rest → HasRefusal eintr f.answers)
    → (0 < length (take count f.ahead)
        → ReadEnds eintr
            (size - length (take count f.ahead))
            (buffer ++ take count f.ahead)
            (advance count (record f { answers = rest }))
            (continue
              (size - length (take count f.ahead))
              (buffer ++ take count f.ahead)
              (advance count (record f { answers = rest }))))
    → ReadEnds eintr size buffer f (elim (length (take count f.ahead) == 0) [
      | true ↦ incomplete (set_error file_eof false (advance count (record f { answers = rest })))
      | false ↦
          continue
            (size - length (take count f.ahead))
            (buffer ++ take count f.ahead)
            (advance count (record f { answers = rest }))
    ])
piece eintr size count buffer f rest continue pos le h ih =
    elim (Bool-cases (length (take count f.ahead) == 0)) [
      | inl z ↦
          rw z
            (inl ((let l = length-take count f.ahead in ground arith), (unfold set_errno in refl)))
      | inr nz ↦ rw nz (ReadEnds-advance eintr size count buffer f rest _ le h (ih (ground arith)))
    ]

nothing :
    (eintr size : ℕ) (buffer : List ℕ) (f : File)
    → size ≡ 0
    → ReadEnds eintr size buffer f (complete buffer f)
nothing eintr size buffer f z =
    rw z ((omega arith), sym (append-nil buffer), sym (append-nil f.behind), refl, refl)

-- After an interruption the read goes on.
retried :
    (eintr size : ℕ) (buffer : List ℕ) (f : File) (rest : List Answer) (errno : ℕ) (r : Io (List ℕ))
    → (HasRefusal eintr rest → HasRefusal eintr f.answers)
    → ReadEnds eintr size buffer (record f { answers = rest; errno = errno }) r
    → ReadEnds eintr size buffer f r
retried eintr size buffer f rest errno (complete bytes f') h k = k
retried eintr size buffer f rest errno (incomplete f') h (inl k) = inl k
retried eintr size buffer f rest errno (incomplete f') h (inr (refusal, e)) = inr (h refusal, e)
retried eintr size buffer f rest errno unended h k = elim k [ ]

-- An error is left that stood there already.
pub recorded :
    (ec : GdbmError) (fatal : Bool) (f : File)
    → 0 < code ec
    → 0 < code (if code f.error.last_error == 0 then set_error ec fatal f else f).error.last_error
unfolding set_errno
recorded ec fatal f h = elim (Bool-cases (code f.error.last_error == 0)) [
  | inl z ↦ rw z h
  | inr nz ↦ rw nz (ground arith)
]

-- What a refused read leaves in the error state.
read_recorded :
    (f : File)
    → let f' = if code f.error.last_error == 0 then set_error file_read_error false f else f in
      ((code f.error.last_error ≡ 0) × (f'.error.last_error ≡ file_read_error))
      ⊎ ((0 < code f.error.last_error) × (f'.error ≡ f.error))
unfolding set_errno
read_recorded f = elim (Bool-cases (code f.error.last_error == 0)) [
  | inl z ↦ rw z (inl (ground arith, refl))
  | inr nz ↦ rw nz (inr (ground arith, refl))
]

-- So many rounds are enough.
abbrev rounds : ℕ → List ℕ → List Answer → ℕ
rounds size ahead answers =
    length answers + (if size == 0 then 1 else if length ahead == 0 then 2 else 3)

module _ (eintr : ℕ) (file_size : Option ℕ) (error : ErrorState) where
  abbrev file : List ℕ → List ℕ → List Answer → ℕ → File
  file behind ahead answers errno = record {
    behind = behind;
    ahead = ahead;
    answers = answers;
    errno = errno;
    file_size = file_size;
    error = error;
  }

  read_loop_lem :
      (fuel size : ℕ) (buffer behind ahead : List ℕ) (answers : List Answer) (errno : ℕ)
      → rounds size ahead answers ≤ fuel
      → ReadEnds eintr size buffer
          (file behind ahead answers errno)
          (read_loop fuel eintr size buffer (file behind ahead answers errno))
  unfolding read_loop
  read_loop_lem zero size buffer behind ahead answers errno h = absurd (ground arith)
  read_loop_lem (suc fuel) size buffer behind ahead [] errno h = elim (Bool-cases (size == 0)) [
    | inl z ↦
        rw (read_loop, z) (nothing eintr size buffer (file behind ahead [] errno) (ground arith))
    | inr nz ↦
        rw (read_loop, nz)
          (piece eintr size size buffer (file behind ahead [] errno) [] (read_loop fuel eintr)
            (ground arith) (omega arith) (λ k. k)
            (λ more.
              read_loop_lem fuel (size - length (take size ahead)) (buffer ++ take size ahead)
                (behind ++ take size ahead) (drop size ahead) [] errno
                (let l = length-take size ahead in let d = length-drop size ahead in ground arith)))
  ]
  read_loop_lem (suc fuel) size buffer behind ahead (moved n ∷ rest) errno h =
      elim (Bool-cases (size == 0)) [
        | inl z ↦
            rw (read_loop, z)
              (nothing eintr size buffer (file behind ahead (moved n ∷ rest) errno) (ground arith))
        | inr nz ↦
            let count : ℕ = if ltb (n + 1) size then n + 1 else size in
            rw (read_loop, nz)
              (piece eintr size count buffer (file behind ahead (moved n ∷ rest) errno) rest
                (read_loop fuel eintr) (ground arith) (ground arith) (λ k. k)
                (λ more.
                  read_loop_lem fuel (size - length (take count ahead)) (buffer ++ take count ahead)
                    (behind ++ take count ahead) (drop count ahead) rest errno
                    (let l = length-take count ahead in
                      let d = length-drop count ahead in ground arith)))
      ]
  read_loop_lem (suc fuel) size buffer behind ahead (refused e ∷ rest) errno h =
      elim (Bool-cases (size == 0)) [
        | inl z ↦
            rw (read_loop, z)
              (nothing eintr size buffer (file behind ahead (refused e ∷ rest) errno)
                (ground arith))
        | inr nz ↦ elim (Bool-cases (e == eintr)) [
          | inl again ↦
              rw (read_loop, nz, again)
                (retried eintr size buffer (file behind ahead (refused e ∷ rest) errno) rest e _
                  (λ k. inr k) (read_loop_lem fuel size buffer behind ahead rest e (ground arith)))
          | inr fault ↦
              rw (read_loop, nz, fault)
                (inr (inl (ground arith), read_recorded (file behind ahead rest e)))
        ]
      ]

-- Whatever the answers are, short reads and interruptions included, the read of so many bytes
-- ends. It succeeds with exactly the bytes that stand after the position, which it passes, where
-- there are so many, and leaves the error state. It fails only in two ways: there are fewer bytes,
-- and the error is GDBM_FILE_EOF; or the system refused a read otherwise than by an interruption,
-- and the error is GDBM_FILE_READ_ERROR if there was none before, while an earlier error is left
-- as it was.
pub full_read-ReadEnds :
    (eintr size : ℕ) (f : File) → ReadEnds eintr size [] f (full_read eintr size f)
unfolding full_read
full_read-ReadEnds eintr size f =
    read_loop_lem eintr f.file_size f.error (length f.answers + 3) size [] f.behind f.ahead
      f.answers f.errno (ground arith)
