-- ===== src/Tests/Dumps.antt =====
-- An ASCII dump, written and read.
use gdbm.Prelude.{
  ℕ, ◌<◌, ◌≡◌, refl, true, false, List, [], ◌∷◌, ◌++◌, inl, inr, arith, length, All, replicate,
  if◌then◌else◌, ◌==◌,
}
use gdbm.Errno.{no_error}
use gdbm.Base64.RoundTrip.{AreBytes}
use gdbm.Dump.{newline, print_datum, dump_records}
use gdbm.Load
use gdbm.Load.{DumpFile, LoadEnd, load_error, loaded, undefined, unended, get_dump_line}
use gdbm.Load.Parms
use gdbm.Load.Record.{Datum, read_record}
use gdbm.Load.Records.{load_loop}
use gdbm.Load.Data.{Pending}
use gdbm.Load.First.{inlines}
use gdbm.Load.Header.{len_bytes}
use gdbm.Load.RoundTrip.{read_record-print_datum}
use gdbm.Load.Whole.{fetched, all_well, datum, IsLoadable, put_all, storing, load_loop-dump_records}
use gdbm.Load.Lines.{ready, held}
use gdbm.Load.Long.{get_dump_line_lem}
use gdbm.Load.Loops.{read_record_hangs}
use gdbm.Errno.{file_eof}

-- A stream that has just been opened.
abbrev opened : List ℕ → DumpFile
opened text = record {
  fp = text;
  fails = false;
  ferror = false;
  feof = false;
  line = 0;
  linebuf = [];
  lbsize = 0;
  lblevel = 0;
  buffer = [];
  bufsize = 0;
  parmc = 0;
  datsize = λ k. 0;
  answers = [];
}

abbrev four_bytes : List ℕ
four_bytes = 1 ∷ 0 ∷ 255 ∷ 35 ∷ []

four_bytes-AreBytes : AreBytes four_bytes
four_bytes-AreBytes = (omega arith, (omega arith, (omega arith, (omega arith, tt))))

read_record-print_datum_example :
    (x' : DumpFile) × (buffer' : List ℕ) × (read_record 16 true 0
        (opened ((print_datum true [] four_bytes 0).output ++ []))
      ≡ loaded (record { dsize = 4; dptr = four_bytes }) x')
    × Pending [] buffer' x'
read_record-print_datum_example =
    read_record-print_datum 16 0 0 four_bytes [] []
      (opened ((print_datum true [] four_bytes 0).output ++ [])) four_bytes-AreBytes (omega arith)
      (omega arith) (inl refl)
      (opened ((print_datum true [] four_bytes 0).output ++ []), 0, inl refl)

-- Two records; the content of the second one is empty.
abbrev two_records : List (List ℕ × List ℕ)
two_records = (b'k' ∷ [], four_bytes) ∷ (four_bytes, []) ∷ []

abbrev keep : Datum → Datum → List (Datum × Datum) → List (Datum × Datum)
keep key content db = db ++ (key, content) ∷ []

two_records-IsLoadable : All (λ item. IsLoadable 16 item.0 × IsLoadable 16 item.1) two_records
two_records-IsLoadable = (
  (((omega arith, tt), omega arith, omega arith), (four_bytes-AreBytes, omega arith, omega arith)),
  (((four_bytes-AreBytes, omega arith, omega arith), (tt, omega arith, omega arith)), tt),
)

load_loop-dump_records_example :
    (x' : DumpFile) × (load_loop
        (storing keep)
        3
        16
        true
        0
        []
        (opened (dump_records all_well (fetched two_records)).1)
      ≡ loaded (no_error, put_all keep two_records []) x')
load_loop-dump_records_example =
    load_loop-dump_records keep 3 16 two_records [] []
      (opened (dump_records all_well (fetched two_records)).1) two_records-IsLoadable (omega arith)
      (omega arith) (omega arith)
      (opened (dump_records all_well (fetched two_records)).1, 0, inl refl)

two_records_put :
    put_all keep two_records []
    ≡ (datum (b'k' ∷ []), datum four_bytes) ∷ (datum four_bytes, datum []) ∷ []
unfolding put_all
two_records_put = refl

-- "#:len=5", "# a" and "# b".
abbrev two_comments : List ℕ
two_comments =
    len_bytes 5 ++ newline ∷ (b'#' ∷ b' ' ∷ b'a' ∷ newline ∷ (b'#' ∷ b' ' ∷ b'b' ∷ newline ∷ []))

read_record_hangs_example : read_record 100 true 0 (opened two_comments) ≡ unended
read_record_hangs_example =
    read_record_hangs 100 0 5 b' ' (b'a' ∷ []) (b' ' ∷ b'b' ∷ []) [] [] (opened two_comments)
      (omega arith) (omega arith) (λ e. absurd (omega arith))
      (inlines (b'#' ∷ b' ' ∷ b'a' ∷ []) refl, omega arith, omega arith)
      (inlines (b'#' ∷ b' ' ∷ b'b' ∷ []) refl, omega arith, omega arith)
      (opened two_comments, 0, inl refl)

-- A line of 100 bytes, which takes two rounds, and the rest of the text.
abbrev long_line : List ℕ
long_line = replicate 100 b'x'

get_dump_line_lem_example :
    (size : ℕ) × (stale : List ℕ) × (length long_line < size)
    × (get_dump_line (ready (opened []) (long_line ++ newline ∷ b'y' ∷ []) [] 0) ≡ (
        let x =
          held (record (opened []) { line = 1; lbsize = size }) long_line stale (b'y' ∷ []) [] 0 in
        if length long_line == 0 then load_error file_eof x else loaded (length long_line) x))
get_dump_line_lem_example =
    get_dump_line_lem (opened []) long_line (b'y' ∷ []) [] 0 (inlines long_line refl)

-- A last line without a newline, which is read past its end.
no_newline :
    read_record 2 true 0 (opened (b'#' ∷ b':' ∷ b'l' ∷ b'e' ∷ b'n' ∷ b'=' ∷ b'0' ∷ [])) ≡ undefined
unfolding read_record Load.Parms.get_parms Load.Parms.parms_loop Load.get_dump_line Load.line_loop
    Load.fgets Load.take_line Load.chomp Load.until_nul Load.store_text Load.line_room
    Load.reallocate Load.write_at Load.Parms.buffer_room Load.Parms.parms_line Load.Parms.parm_loop
    Load.Parms.skip_blanks Load.Parms.has_prefix Load.Parms.take_until Load.Parms.take_value
    gdbm.Prelude.bytes_eq
no_newline = refl
