-- ===== src/Load/Trailer.antt =====
-- src/gdbmload.c: the end of a dump, as src/gdbmdump.c prints it.
use mathlib.Core.List.{append_assoc}
use gdbm.Prelude.{
  ℕ, ==_ne, suc, ◌^◌, ◌<◌, ◌≡◌, refl, ap, ◌∙◌, Bool, true, false, List, [], ◌∷◌, ◌++◌,
  if◌then◌else◌, All, drop, arith,
}
use gdbm.Errno.{GdbmError, no_error, item_not_found}
use gdbm.Dump.{newline, decimal, trailer}
use gdbm.Dump.Digits.{IsDigit, decimal-IsDigit}
use gdbm.Load.{DumpFile, loaded, load_error, M, ◌>>=◌}
use gdbm.Load.Lines.{IsLine, ready}
use gdbm.Load.Parms.{get_parms, count_pfx}
use gdbm.Load.Record.{absent, getparm, common, after_nul, get_num, get_len, read_value, read_record}
use gdbm.Load.Header.{count_bytes, count_text, parms_loop_count, parms_loop_comment}
use gdbm.Load.Data.{Pending}
use gdbm.Load.First.{Pending-line, numbered-IsLine, ended-strtoul, inlines}
use gdbm.Load.RoundTrip.{==_self, >>=-loaded}
use gdbm.Load.Records.{count_name, check_count}

abbrev end_bytes : List ℕ
end_bytes =
    b'#' ∷ b' ' ∷ b'E' ∷ b'n' ∷ b'd' ∷ b' ' ∷ b'o' ∷ b'f' ∷ b' ' ∷ b'd' ∷ b'a' ∷ b't' ∷ b'a' ∷ []

end_bytes-IsLine : IsLine end_bytes
end_bytes-IsLine = (inlines end_bytes refl, omega arith, omega arith)

after_nul-digits : (ds t : List ℕ) → All IsDigit ds → after_nul (ds ++ 0 ∷ t) ≡ t
unfolding after_nul
after_nul-digits [] t h = refl
after_nul-digits (d ∷ ds) t (h, hs) = rw (==_ne d 0 (omega arith), after_nul-digits ds t hs) refl

after_count : (n : ℕ) → after_nul (decimal n ++ 0 ∷ [] ++ 0 ∷ []) ≡ 0 ∷ []
after_count n = rw append_assoc (after_nul-digits (decimal n) (0 ∷ []) (decimal-IsDigit n))

-- There is no length in the last line.
getparm_count :
    (n fuel : ℕ)
    → getparm (suc (suc fuel)) (count_text n ++ 0 ∷ []) (b'l' ∷ b'e' ∷ b'n' ∷ []) ≡ absent
unfolding getparm common after_nul
getparm_count n fuel = ap (λ t. getparm (suc fuel) t (b'l' ∷ b'e' ∷ b'n' ∷ [])) (after_count n)

get_len_count :
    (n : ℕ) (s : DumpFile) → get_len (count_text n ++ 0 ∷ []) s ≡ load_error item_not_found s
unfolding get_len get_num
get_len_count n s = rw (getparm_count n _, get_num) refl

get_num_count :
    (n : ℕ) (s : DumpFile) → n < 2 ^ 64 → get_num (count_text n ++ 0 ∷ []) count_name s ≡ loaded n s
unfolding get_num getparm common after_nul
get_num_count n s h = let e = ended-strtoul n h in rw (e, get_num) (rw e refl)

>>=-load_error :
    {A B : Type 0} (m : M A) (f : A → M B) (s : DumpFile) {ec : GdbmError} {s' : DumpFile}
    → m s ≡ load_error ec s'
    → (m >>= f) s ≡ load_error ec s'
>>=-load_error m f s e = rw (e, ◌>>=◌) refl

read_value_count :
    (n fuel which : ℕ) (s : DumpFile)
    → let s' = record s { buffer = count_text n; parmc = 1 } in
      read_value fuel true which s' ≡ load_error item_not_found s'
unfolding read_value
read_value_count n fuel which s =
    >>=-load_error (get_len (count_text n ++ 0 ∷ [])) _
      (record s { buffer = count_text n; parmc = 1 }) (get_len_count n _)

if_same {ℓ} : {A : Type ℓ} (b : Bool) (x : A) → (if b then x else x) ≡ x
if_same true x = refl
if_same false x = refl

check_count_same :
    (n : ℕ) (s : DumpFile)
    → n < 2 ^ 64
    → let s' = record s { buffer = count_text n; parmc = 1 } in
      check_count n s' ≡ loaded no_error s'
unfolding check_count
check_count_same n s h =
    rw (get_num_count n (record s { buffer = count_text n; parmc = 1 }) h, check_count)
      (rw (==_self n) (if_same s.feof _))

-- At the end of a dump no key is found, and the number of records is the one that it gives.
pub read_record-trailer :
    (n fuel which : ℕ) (buffer : List ℕ) (x : DumpFile)
    → n < 2 ^ 64
    → Pending (trailer n) buffer x
    → (x' : DumpFile) × (read_record (suc (suc fuel)) true which x ≡ load_error item_not_found x')
      × (check_count n x' ≡ loaded no_error x')
unfolding read_record get_parms
read_record-trailer n fuel which buffer x h pending =
    let (s, stale, read) =
      Pending-line (count_bytes n) (end_bytes ++ newline ∷ []) buffer x
        (numbered-IsLine (b'#' ∷ b':' ∷ count_pfx) n (inlines (b'#' ∷ b':' ∷ count_pfx) refl)
          (omega arith) h)
        pending in
    let (s1, first) =
      parms_loop_count n (suc fuel) (record x { buffer = []; parmc = 0 }) s stale
        (end_bytes ++ newline ∷ []) h read in
    let (s2, second) =
      parms_loop_comment s1 fuel b' ' (drop 2 end_bytes) [] (count_text n) false 0 end_bytes-IsLine
        (λ e. absurd (omega arith)) in
    (
      ready s2 [] (count_text n) 1,
      >>=-loaded (get_parms (suc (suc fuel))) (λ u. read_value (suc (suc fuel)) true which) x
            (first ∙ second)
          ∙ read_value_count n (suc (suc fuel)) which (ready s2 [] [] 0),
      check_count_same n (ready s2 [] [] 0) h,
    )
