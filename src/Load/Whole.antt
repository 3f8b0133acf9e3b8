-- ===== src/Load/Whole.antt =====
-- src/gdbmload.c and src/gdbmdump.c: the records of a dump, all of them, are loaded again.
use mathlib.Core.Path.{subst}
use mathlib.Core.List.{append_assoc}
use gdbm.Prelude.{
  ℕ, zero, suc, ◌+◌, ◌*◌, ◌^◌, ◌≤◌, ◌<◌, ◌≡◌, refl, ap, ◌∙◌, Bool, true, Option, some, List, [],
  ◌∷◌, ◌++◌, length, drop, All, inr, arith,
}
use gdbm.Errno.{GdbmError, no_error, item_not_found, code}
use gdbm.Base64.RoundTrip.{AreBytes}
use gdbm.Dump.{len_line, trailer, print_datum, dump_loop, dump_records}
use gdbm.Dump.Lines.{print_datum_empty, print_datum_lines, print_datum_no_error}
use gdbm.Load.{DumpFile, loaded, load_error}
use gdbm.Load.Record.{Datum, read_record}
use gdbm.Load.Records.{load_loop, check_count}
use gdbm.Load.Header.{len_bytes, count_bytes}
use gdbm.Load.Parms.{count_pfx}
use gdbm.Load.Data.{Pending, Starts}
use gdbm.Load.First.{len_bytes-IsLine, numbered-IsLine, inlines}
use gdbm.Load.RoundTrip.{read_record-print_datum, len_line-len_bytes}
use gdbm.Load.Trailer.{read_record-trailer}

-- Each content can be fetched.
abbrev pub fetched : List (List ℕ × List ℕ) → List (List ℕ × Option (List ℕ))
fetched [] = []
fetched ((key, content) ∷ items) = (key, some content) ∷ fetched items

-- Memory is not short, and no write fails.
abbrev pub all_well : ℕ → Bool × List Bool
all_well k = (true, [])

abbrev pub datum : List ℕ → Datum
datum xs = record { dsize = length xs; dptr = xs }

-- A list of bytes that is not too long for the rounds.
abbrev pub IsLoadable : ℕ → List ℕ → Type 0
IsLoadable fuel xs = AreBytes xs × (length xs < 2 ^ 31) × (2 * length xs + 8 ≤ fuel)

dump_loop_cons :
    (key content : List ℕ) (items : List (List ℕ × List ℕ)) (k bufsize count : ℕ)
    → (size : ℕ) × (size' : ℕ) × (let d =
          dump_loop all_well (k + 2) (fetched items) size' (count + 1) in
        dump_loop all_well k (fetched ((key, content) ∷ items)) bufsize count ≡ record {
          rc = d.rc;
          output =
              (print_datum true [] key bufsize).output
              ++ ((print_datum true [] content size).output ++ d.output);
          count = d.count;
        })
unfolding dump_loop code
dump_loop_cons key content items k bufsize count =
    let a = print_datum true [] key bufsize in
    let b = print_datum true [] content a.bufsize in
    (
      a.bufsize,
      b.bufsize,
      rw (print_datum_no_error key bufsize, print_datum_no_error content a.bufsize, dump_loop) refl,
    )

-- What print_datum writes starts with the line that has the length.
print_datum_first :
    (dat : List ℕ) (size : ℕ)
    → (body : List ℕ) × ((print_datum true [] dat size).output ≡ len_line (length dat) ++ body)
print_datum_first [] size = (_, print_datum_empty size)
print_datum_first (a ∷ xs) size = (_, print_datum_lines a xs size)

print_datum-Starts :
    (dat text : List ℕ) (size : ℕ)
    → length dat < 2 ^ 64
    → Starts ((print_datum true [] dat size).output ++ text)
print_datum-Starts dat text size h =
    let (body, e) = print_datum_first dat size in
    inr (
      drop 1 (len_bytes (length dat)),
      body ++ text,
      ap (λ t. t ++ text) e ∙ len_line-len_bytes (length dat) body text,
      len_bytes-IsLine (length dat) h,
    )

trailer-Starts : (n : ℕ) → n < 2 ^ 64 → Starts (trailer n)
trailer-Starts n h =
    let pfx = b'#' ∷ b':' ∷ count_pfx in
    inr (drop 1 (count_bytes n), _, refl, numbered-IsLine pfx n (inlines pfx refl) (omega arith) h)

-- The records of a list of pairs, put into a database in order.
module _ {S : Type 0} (put : Datum → Datum → S → S) where
  unfoldable pub put_all : List (List ℕ × List ℕ) → S → S
  put_all [] db = db
  put_all ((key, content) ∷ items) db = put_all items (put (datum key) (datum content) db)

-- A database that stores every record.
abbrev pub storing : {S : Type 0} → (Datum → Datum → S → S) → Datum → Datum → S → GdbmError × S
storing put key content db = (no_error, put key content db)

dump_loop_count :
    (items : List (List ℕ × List ℕ)) (k bufsize count : ℕ)
    → ((dump_loop all_well k (fetched items) bufsize count).rc ≡ no_error)
      × ((dump_loop all_well k (fetched items) bufsize count).count ≡ count + length items)
dump_loop_count [] k bufsize count = unfold dump_loop in (refl, omega arith)
dump_loop_count ((key, content) ∷ items) k bufsize count =
    let (size, size', e) = dump_loop_cons key content items k bufsize count in
    let (rc, total) = dump_loop_count items (k + 2) size' (count + 1) in
    (ap (λ d. d.rc) e ∙ rc, ap (λ d. d.count) e ∙ total ∙ omega arith)

dump_loop-Starts :
    (fuel : ℕ) (items : List (List ℕ × List ℕ)) (k bufsize count n : ℕ)
    → All (λ item. IsLoadable fuel item.0 × IsLoadable fuel item.1) items
    → n < 2 ^ 64
    → Starts ((dump_loop all_well k (fetched items) bufsize count).output ++ trailer n)
dump_loop-Starts fuel [] k bufsize count n h small = unfold dump_loop in trailer-Starts n small
dump_loop-Starts fuel ((key, content) ∷ items) k bufsize count n (h, hs) small =
    let (size, size', e) = dump_loop_cons key content items k bufsize count in
    rw (e, append_assoc) (print_datum-Starts key _ bufsize (omega arith))

dump_end :
    (k bufsize count : ℕ)
    → (dump_loop all_well k [] bufsize count).output ++ trailer (count + 0) ≡ trailer count
dump_end k bufsize count = unfold dump_loop in ap trailer (omega arith)

-- What is printed for the first record, and for the others.
dump_split :
    (key content : List ℕ) (items : List (List ℕ × List ℕ)) (k bufsize count n : ℕ)
    → let (size, size', e) = dump_loop_cons key content items k bufsize count in
      (dump_loop all_well k (fetched ((key, content) ∷ items)) bufsize count).output
        ++ trailer (count + suc n)
      ≡ (print_datum true [] key bufsize).output
        ++ ((print_datum true [] content size).output
            ++ ((dump_loop all_well (k + 2) (fetched items) size' (count + 1)).output
                ++ trailer (count + 1 + n)))
dump_split key content items k bufsize count n =
    let (size, size', e) = dump_loop_cons key content items k bufsize count in
    let same : count + suc n ≡ count + 1 + n = omega arith in rw (e, same) (simp append_assoc refl)

module _ {S : Type 0} (put : Datum → Datum → S → S) (m fuel count : ℕ) (db : S) where
  load_loop_done :
      (x x' : DumpFile)
      → read_record fuel true 0 x ≡ load_error item_not_found x'
      → check_count count x' ≡ loaded no_error x'
      → load_loop (storing put) (suc m) fuel true count db x ≡ loaded (no_error, db) x'
  unfolding load_loop code
  load_loop_done x x' h same = rw (h, load_loop) (rw same refl)

  load_loop_step :
      (x x1 x2 : DumpFile) (key content : Datum)
      → read_record fuel true 0 x ≡ loaded key x1
      → read_record fuel true 1 x1 ≡ loaded content x2
      → load_loop (storing put) (suc m) fuel true count db x
        ≡ load_loop (storing put) m fuel true (count + 1) (put key content db) x2
  unfolding load_loop code
  load_loop_step x x1 x2 key content h k = rw (h, load_loop) (rw k refl)

load_loop-dump_loop :
    {S : Type 0} (put : Datum → Datum → S → S) (m fuel : ℕ) (items : List (List ℕ × List ℕ))
    (k bufsize count : ℕ) (db : S) (buffer : List ℕ) (x : DumpFile)
    → All (λ item. IsLoadable fuel item.0 × IsLoadable fuel item.1) items
    → 2 ≤ fuel
    → length items < m
    → count + length items < 2 ^ 64
    → Pending
        ((dump_loop all_well k (fetched items) bufsize count).output
          ++ trailer (count + length items))
        buffer
        x
    → (x' : DumpFile) × (load_loop (storing put) m fuel true count db x
        ≡ loaded (no_error, put_all put items db) x')
unfolding put_all
load_loop-dump_loop put zero fuel items k bufsize count db buffer x h rounds few small pending =
    absurd (omega arith)
load_loop-dump_loop put (suc m) zero items k bufsize count db buffer x h rounds few small pending =
    absurd (omega arith)
load_loop-dump_loop put (suc m) (suc zero) items k bufsize count db buffer x h rounds few small
      pending =
    absurd (omega arith)
load_loop-dump_loop put (suc m) (suc (suc fuel)) [] k bufsize count db buffer x h rounds few small
      pending =
    let (x', no_key, same) =
      read_record-trailer count fuel 0 buffer x (omega arith)
        (subst (λ t. Pending t buffer x) (dump_end k bufsize count) pending) in
    (x', load_loop_done put m (suc (suc fuel)) count db x x' no_key same)
load_loop-dump_loop put (suc m) (suc (suc fuel)) ((key, content) ∷ items) k bufsize count db buffer
      x (h, hs) rounds few small pending =
    let f = suc (suc fuel) in
    let (size, size', e) = dump_loop_cons key content items k bufsize count in
    let rest =
      (dump_loop all_well (k + 2) (fetched items) size' (count + 1)).output
      ++ trailer (count + 1 + length items) in
    let text = (print_datum true [] content size).output ++ rest in
    let starts =
      dump_loop-Starts f items (k + 2) size' (count + 1) (count + 1 + length items) hs
        (omega arith) in
    let (x1, buffer1, first, pending1) =
      read_record-print_datum f 0 bufsize key text buffer x h.0.0 h.0.1 h.0.2
        (print_datum-Starts content rest size (omega arith))
        (subst (λ t. Pending t buffer x)
          (dump_split key content items k bufsize count (length items)) pending) in
    let (x2, buffer2, second, pending2) =
      read_record-print_datum f 1 size content rest buffer1 x1 h.1.0 h.1.1 h.1.2 starts pending1 in
    let (x3, others) =
      load_loop-dump_loop put m f items (k + 2) size' (count + 1)
        (put (datum key) (datum content) db) buffer2 x2 hs rounds (omega arith) (omega arith)
        pending2 in
    (x3, load_loop_step put m f count db x x1 x2 (datum key) (datum content) first second ∙ others)

-- The records that dump_records prints when no call fails, read from a stream whose unread text they
-- are, where reading does not fail and memory is not short, into a database that stores every record:
-- the loader returns GDBM_NO_ERROR, and has put the same records into the database in the same order.
-- Keys and contents are lists of bytes shorter than 2 ^ 31. The rounds of the loop are more than the
-- records, and those of the loops on lines are 2 at least, and twice the bytes of each datum and 8.
pub load_loop-dump_records :
    {S : Type 0} (put : Datum → Datum → S → S) (m fuel : ℕ) (items : List (List ℕ × List ℕ))
    (db : S) (buffer : List ℕ) (x : DumpFile)
    → All (λ item. IsLoadable fuel item.0 × IsLoadable fuel item.1) items
    → 2 ≤ fuel
    → length items < m
    → length items < 2 ^ 64
    → Pending (dump_records all_well (fetched items)).1 buffer x
    → (x' : DumpFile) × (load_loop (storing put) m fuel true 0 db x
        ≡ loaded (no_error, put_all put items db) x')
unfolding dump_records
load_loop-dump_records put m fuel items db buffer x h rounds few small pending =
    let (rc, total) = dump_loop_count items 0 0 0 in
    load_loop-dump_loop put m fuel items 0 0 0 db buffer x h rounds few (omega arith) (
      subst (λ n. Pending ((dump_loop all_well 0 (fetched items) 0 0).output ++ trailer n) buffer x)
        total pending)
