-- ===== src/Dump/Lines.antt =====
-- src/gdbmdump.c: the bytes that print_datum writes.
use Prim.Native.Nat.{bit_and, bit_or}
use gdbm.Prelude.{
  ℕ, ==_ne, zero, suc, ◌*◌, ◌/◌, ◌%◌, ◌<◌, ◌≡◌, ◌≢◌, refl, Bool, true, false, not, ◌&&◌, List, [],
  ◌∷◌, ◌++◌, ◌==◌, if◌then◌else◌, length, drop, take-append_self, All, arith,
}
use gdbm.Prelude.Bytes.{each_below, each_below_lem, or_shift2, or_shift4, masks}
use gdbm.Base64.{digit, encode_bytes, base64_encode}
use gdbm.Base64.Buffer.{length-encode_bytes}
use gdbm.Base64.RoundTrip.{AreBytes, base64_encode_writes}
use gdbm.Errno.{no_error}
use gdbm.Dump.{Printed, newline, print_lines, len_line, print_datum}

-- A byte that a line of data can hold.
abbrev pub IsText : ℕ → Type 0
IsText c = ((c ≢ 0) × (c ≢ newline)) × (c ≢ b'#')

is_text : ℕ → Bool
is_text c = not (c == 0) && not (c == newline) && not (c == b'#')

digit_texts : each_below 64 (λ i. is_text (digit i)) ≡ true
unfolding each_below is_text digit
digit_texts = refl

digit-IsText : (i : ℕ) → i < 64 → IsText (digit i)
unfolding is_text
digit-IsText i h =
    let e = each_below_lem 64 (λ i. is_text (digit i)) i digit_texts h in
    ((ground arith, ground arith), ground arith)

-- The numbers whose digits the encoder writes.
last_two : (a : ℕ) → a < 256 → bit_and (a * 16) 0x30 < 64
last_two a h = rw ((masks a h).0) (omega arith)

middle : (a b : ℕ) → a < 256 → b < 256 → bit_or (bit_and (a * 16) 0x30) (b / 16) < 64
middle a b h k =
    rw ((masks a h).0, or_shift4 (a % 4) (b / 16) (omega arith) (omega arith)) (omega arith)

last_four : (b : ℕ) → b < 256 → bit_and (b * 4) 0x3c < 64
last_four b h = rw ((masks b h).1) (omega arith)

next : (b c : ℕ) → b < 256 → c < 256 → bit_or (bit_and (b * 4) 0x3c) (c / 64) < 64
next b c h k =
    rw ((masks b h).1, or_shift2 (b % 16) (c / 64) (omega arith) (omega arith)) (omega arith)

last_six : (c : ℕ) → c < 256 → bit_and c 0x3f < 64
last_six c h = rw ((masks c h).2) (omega arith)

pad-IsText : IsText b'='
pad-IsText = (((λ e. absurd (omega arith)), λ e. absurd (omega arith)), λ e. absurd (omega arith))

pub encode_bytes-IsText : (xs : List ℕ) → AreBytes xs → All IsText (encode_bytes xs)
unfolding encode_bytes
encode_bytes-IsText [] h = tt
encode_bytes-IsText (a ∷ []) (h, rest) = (
  digit-IsText (a / 4) (omega arith),
  (digit-IsText _ (last_two a h), (pad-IsText, (pad-IsText, tt))),
)
encode_bytes-IsText (a ∷ b ∷ []) (h, (k, rest)) = (
  digit-IsText (a / 4) (omega arith),
  (digit-IsText _ (middle a b h k), (digit-IsText _ (last_four b k), (pad-IsText, tt))),
)
encode_bytes-IsText (a ∷ b ∷ c ∷ xs) (h, (k, (l, rest))) = (
  digit-IsText (a / 4) (omega arith),
  (
    digit-IsText _ (middle a b h k),
    (digit-IsText _ (next b c k l), (digit-IsText _ (last_six c l), encode_bytes-IsText xs rest)),
  ),
)

pub print_datum_empty :
    (size : ℕ) → (print_datum true [] [] size).output ≡ len_line 0 ++ b'#' ∷ newline ∷ []
unfolding print_datum encode_bytes
print_datum_empty size =
    let (rc, out, n) = base64_encode_writes [] size in rw (rc, n, print_datum) refl

pub print_datum_lines :
    (a : ℕ) (xs : List ℕ) (size : ℕ)
    → let p = encode_bytes (a ∷ xs) in
      (print_datum true [] (a ∷ xs) size).output
      ≡ len_line (length (a ∷ xs)) ++ (print_lines (length p) [] p).1
unfolding print_datum
print_datum_lines a xs size =
    let p = encode_bytes (a ∷ xs) in
    let (rc, out, n) = base64_encode_writes (a ∷ xs) size in
    rw (rc, n, out, print_datum)
      (rw
        (
          ==_ne (length p) 0 (omega (arith, length-encode_bytes (a ∷ xs))),
          take-append_self p (0 ∷ []),
        )
        refl)

print_lines_no_error : (n : ℕ) (p : List ℕ) → (print_lines n [] p).0 ≡ no_error
unfolding print_lines
print_lines_no_error zero p = refl
print_lines_no_error (suc n) [] = refl
print_lines_no_error (suc n) (c ∷ p) = print_lines_no_error n (drop 76 (c ∷ p))

either_rc :
    (b : Bool) (x y : Printed)
    → x.rc ≡ no_error
    → y.rc ≡ no_error
    → (if b then x else y).rc ≡ no_error
either_rc true x y h k = h
either_rc false x y h k = k

pub print_datum_no_error : (dat : List ℕ) (size : ℕ) → (print_datum true [] dat size).rc ≡ no_error
unfolding print_datum
print_datum_no_error dat size =
    let e = base64_encode true dat size in
    let (rc, out, n) = base64_encode_writes dat size in
    rw (rc, print_datum) (either_rc (e.nbytes == 0) _ _ refl (print_lines_no_error _ _))
