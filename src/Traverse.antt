-- ===== src/Traverse.antt =====
-- src/avail.c from `struct off_map` on: the walk through the stack of avail blocks, which keeps the
-- offsets that it has seen in a sorted array.
pub mod Map
pub mod Walk
pub mod Loop
pub mod Verify
use gdbm.Prelude.{
  ℕ, zero, suc, ◌+◌, ◌-◌, ◌*◌, ◌/◌, ◌^◌, Bool, true, false, not, Option, none, some, List, [], ◌∷◌,
  ltb, leb, ◌==◌, if◌then◌else◌, length, get_or, insert_at, map,
}
use gdbm.Errno.{GdbmError, malloc_error, bad_avail, file_seek_error, need_recovery}
use gdbm.Alloc.{
  AvailBlock, Dbf, Outcome, done, failed, out_of_fuel, M, ◌>>=◌, ◌>>◌, return, success, fail,
  fail_soft, next_answer, call_read, block_image, read_avail_block,
}
use gdbm.Validate.{from_raw, avail_block_validate, sizeof_avail_block, sizeof_avail_elem}

-- `struct off_map`; `map_size` is the length of `map_base`, and `allocated` says whether that
-- pointer is set.
pub record OffMap : Type 0 where
  pub map_base : List ℕ
  pub map_max : ℕ
  pub allocated : Bool

-- OFF_MAP_INITIALIZER
abbrev pub empty_map : OffMap
empty_map = record { map_base = []; map_max = 0; allocated = false }

-- SIZE_T_MAX / 3 * 2 / sizeof (map->map_base[0])
unfoldable pub max_entries : ℕ
max_entries = (2 ^ 64 - 1) / 3 * 2 / 8

-- A call whose failure is recorded without marking the database for recovery.
abbrev pub call_soft : GdbmError → M (Unit {0})
call_soft ec s = next_answer (fail_soft ec) s

-- The room is as large as asked for at first, and then half as large again.
unfoldable pub off_map_expand : OffMap → M OffMap
off_map_expand m s =
    if m.allocated
    then (if leb max_entries m.map_max
        then fail_soft malloc_error s
        else (call_soft malloc_error
              >> return (record m { map_max = m.map_max + (m.map_max + 1) / 2 }))
            s)
    else (call_soft malloc_error
          >> return
              (record m { map_max = if m.map_max == 0 then 64 else m.map_max; allocated = true }))
        s

-- The binary search; `hi_next` is the source's `hi + 1`. `none` is an offset that is there, and
-- otherwise the result is `hi + 1` at the end. The distance of the bounds is enough rounds.
unfoldable pub search_loop : ℕ → List ℕ → ℕ → ℕ → ℕ → Option ℕ
search_loop zero base n lo hi_next = some hi_next
search_loop (suc fuel) base n lo hi_next =
    let mid = (lo + hi_next - 1) / 2 in
    elim (ltb lo hi_next) [
      | false ↦ some hi_next
      | true ↦ elim (ltb n (get_or base mid 0)) [
        | true ↦ search_loop fuel base n lo mid
        | false ↦ elim (ltb (get_or base mid 0) n) [
          | true ↦ search_loop fuel base n (mid + 1) hi_next
          | false ↦ none
        ]
      ]
    ]

-- `none` is GDBM_CANNOT_REPLACE.
unfoldable pub off_map_lookup : OffMap → ℕ → M (Option OffMap)
off_map_lookup m n s = elim (search_loop (length m.map_base) m.map_base n 0 (length m.map_base)) [
  | none ↦ done none s
  | some at ↦
      (do
        m' ← if length m.map_base == m.map_max then off_map_expand m else return m
        return (some (record m' { map_base = insert_at at n m'.map_base })))
        s
]

-- The loop of `gdbm_avail_traverse`. `cb` tells of a block and its offset whether to stop.
unfoldable pub traverse_loop : ℕ → (AvailBlock → ℕ → Bool) → ℕ → OffMap → ℕ → M (Unit {0})
traverse_loop zero cb size m n s = out_of_fuel
traverse_loop (suc fuel) cb size m n s = elim (n == 0) [
  | true ↦ success s
  | false ↦
      (do
        seen ← off_map_lookup m n
        elim seen [
          | none ↦ fail bad_avail
          | some m' ↦ do
            call_soft file_seek_error
            call_read
            blk ← read_avail_block n size
            elim (cb blk n) [
              | true ↦ success
              | false ↦ traverse_loop fuel cb size m' blk.next_block
            ]
        ])
        s
]

-- GDBM_ASSERT_CONSISTENCY
unfoldable pub assert_consistency : M (Unit {0})
assert_consistency s = if s.error.need_recovery then fail need_recovery s else success s

-- The validation of the header's block, which may sort its table.
unfoldable pub validate_header_avail : ℕ → M (Unit {0})
validate_header_avail avail_size s =
    elim (avail_block_validate s.read_write s.bucket_size s.next_block (block_image s.avail)
      avail_size) [
        | none ↦ fail bad_avail s
        | some valid ↦
            success (record s { avail = record s.avail { av_table = map from_raw valid.slots } })
      ]

-- The header's block has its offset in the file, `header_offset`, and `avail_size` bytes.
unfoldable pub gdbm_avail_traverse : ℕ → (AvailBlock → ℕ → Bool) → ℕ → ℕ → M (Unit {0})
gdbm_avail_traverse fuel cb header_offset avail_size = do
  assert_consistency
  validate_header_avail avail_size
  seen ← off_map_lookup empty_map header_offset
  elim seen [
    | none ↦ fail_soft malloc_error
    | some m ↦ do
      call_soft malloc_error
      λ s.
          if cb s.avail 0
          then success s
          else traverse_loop fuel cb (s.avail.size * sizeof_avail_elem / 2 + sizeof_avail_block) m
              s.avail.next_block s
  ]

unfoldable pub gdbm_avail_verify : ℕ → ℕ → ℕ → M (Unit {0})
gdbm_avail_verify fuel header_offset avail_size =
    gdbm_avail_traverse fuel (λ blk n. false) header_offset avail_size
