-- ===== src/Validate/Table.antt =====
-- The loop of `gdbm_avail_table_valid_p` of src/avail.c decides that every entry lies in the file.
use gdbm.Prelude.{
  ℕ, ◌+◌, ◌≤◌, ◌≡◌, ◌↔◌, ap, inl, inr, Bool, true, false, Bool-cases, Option, none, some, List, [],
  ◌∷◌, All, arith, ◌||◌,
}
use gdbm.Prelude.Int.{ℤ, pos, negsuc, ltb_ℤ, ◌≤ℤ◌, ◌+ℤ◌, ◌-ℤ◌, pos_part}
use gdbm.Validate.{RawElem, from_raw, to_raw, off_t_max, off_t_sum_ok, elem_valid, table_scan}

-- The entry stands for an element between the header and the end of the file.
abbrev pub InFile : ℕ → ℕ → RawElem → Type 0
InFile bucket_size next_block e =
    (e ≡ to_raw (from_raw e))
    × (bucket_size ≤ (from_raw e).av_adr)
    × ((from_raw e).av_adr + (from_raw e).av_size ≤ next_block)

-- Each entry is at least as large as the one before it, the first at least `prev`.
abbrev pub Chain : ℤ → List RawElem → Type 0
Chain prev [] = Unit
Chain prev (e ∷ av) = (prev ≤ℤ e.av_size) × Chain e.av_size av

-- What a scan that began after an entry of size `prev` says of the table.
abbrev pub Scanned : ℕ → ℕ → ℤ → List RawElem → Option Bool → Type 0
Scanned bucket_size next_block prev av none = ¬ All (InFile bucket_size next_block) av
Scanned bucket_size next_block prev av (some true) =
    All (InFile bucket_size next_block) av × ¬ (Chain prev av)
Scanned bucket_size next_block prev av (some false) =
    All (InFile bucket_size next_block) av × Chain prev av

module _ (bucket_size next_block : ℕ) (bound : next_block ≤ off_t_max) where
  -- The tests on the two numbers of an entry, by their signs.
  elem_valid_iff :
      (s a : ℤ)
      → (elem_valid bucket_size next_block (record { av_size = s; av_adr = a }) ≡ true) ↔ (
          (s ≡ pos (pos_part s))
          × (a ≡ pos (pos_part a))
          × (bucket_size ≤ pos_part a)
          × (pos_part a + pos_part s ≤ next_block))
  unfolding elem_valid off_t_sum_ok ◌+ℤ◌ ◌-ℤ◌
  elem_valid_iff (pos s) (pos a) = (λ h. ground arith, λ h. ground arith)
  elem_valid_iff (pos s) (negsuc a) = (λ h. ground arith, λ h. ground arith)
  elem_valid_iff (negsuc s) (pos a) = (λ h. ground arith, λ h. ground arith)
  elem_valid_iff (negsuc s) (negsuc a) = (λ h. ground arith, λ h. ground arith)

  pub elem_valid-InFile :
      (e : RawElem) → elem_valid bucket_size next_block e ≡ true → InFile bucket_size next_block e
  elem_valid-InFile e h =
      let p = (elem_valid_iff e.av_size e.av_adr).0 h in
      (λ i. record { av_size = p.0 i; av_adr = p.1 i }, p.2, p.3)

  pub InFile-elem_valid :
      (e : RawElem) → InFile bucket_size next_block e → elem_valid bucket_size next_block e ≡ true
  InFile-elem_valid e h =
      (elem_valid_iff e.av_size e.av_adr).1
        (ap (λ (x : RawElem). x.av_size) h.0, ap (λ (x : RawElem). x.av_adr) h.0, h.1, h.2)

  scan_more :
      (prev : ℤ) (e : RawElem) (av : List RawElem) (rest : Option Bool)
      → Scanned bucket_size next_block e.av_size av rest
      → InFile bucket_size next_block e
      → Scanned bucket_size next_block prev
          (e ∷ av)
          (elim rest [ none ↦ none | some unsorted ↦ some (ltb_ℤ e.av_size prev || unsorted) ])
  scan_more prev e av none h v = λ a. h a.1
  scan_more prev e av (some true) h v = elim (Bool-cases (ltb_ℤ e.av_size prev)) [
    | inl lt ↦ rw lt ((v, h.0), λ c. h.1 c.1)
    | inr ge ↦ rw ge ((v, h.0), λ c. h.1 c.1)
  ]
  scan_more prev e av (some false) h v = elim (Bool-cases (ltb_ℤ e.av_size prev)) [
    | inl lt ↦ rw lt ((v, h.0), λ c. let le : prev ≤ℤ e.av_size = c.0 in absurd (ground arith))
    | inr ge ↦ let le : prev ≤ℤ e.av_size = ground arith in rw ge ((v, h.0), (le, h.1))
  ]

  pub table_scan_lem :
      (av : List RawElem) (prev : ℤ)
      → Scanned bucket_size next_block prev av (table_scan bucket_size next_block prev av)
  unfolding table_scan
  table_scan_lem [] prev = (tt, tt)
  table_scan_lem (e ∷ av) prev =
      let ih = table_scan_lem av e.av_size in
      elim (Bool-cases (elem_valid bucket_size next_block e)) [
        | inl v ↦
            rw (v, table_scan)
              (scan_more prev e av (table_scan bucket_size next_block e.av_size av) ih
                (elem_valid-InFile e v))
        | inr v ↦ rw (v, table_scan) (λ a. cc (InFile-elem_valid e a.0))
      ]
