-- ===== src/Alloc.antt =====
-- src/falloc.c, the file's space: the avail block of the header, the stack of avail blocks in the
-- file, and the avail table of the current bucket.
mod State
pub mod Blocks
pub mod Valid
pub mod Freed
pub mod Ends
pub mod Pop
unfoldable pub use State.*
use gdbm.Prelude.{
  ℕ, zero, suc, ◌+◌, ◌-◌, ◌*◌, ◌/◌, Bool, true, false, not, Option, none, some, List, [], ◌∷◌, ltb,
  leb, ◌==◌, ◌&&◌, ◌||◌, if◌then◌else◌, length, get_or, take, map,
}
use gdbm.Prelude.Int.{pos, pos_part}
use gdbm.Avail.{AvailElem, bucket_avail, ignore_size, no_elem, get_elem, put_av_elem}
use gdbm.Errno.{bad_avail, file_seek_error, malloc_error, file_eof}
use gdbm.Validate.{
  RawBlock, from_raw, to_raw, avail_block_validate, sizeof_avail_block, sizeof_avail_elem,
}

-- The loop of `get_block`: one more block until the need is met, for at most `fuel` blocks.
unfoldable pub grow : ℕ → ℕ → ℕ → ℕ → ℕ
grow zero block_size size av_size = av_size
grow (suc fuel) block_size size av_size = elim (ltb av_size size) [
  | true ↦ grow fuel block_size size (av_size + block_size)
  | false ↦ av_size
]

-- `size` rounds are enough, since a block has at least one byte.
unfoldable pub get_block : ℕ → M AvailElem
get_block size s =
    let av_size = grow size s.block_size size s.block_size in
    done (record { av_size = av_size; av_adr = s.next_block })
      (record s { next_block = s.next_block + av_size; header_changed = true })

-- The size in bytes of a pushed block: half a table and the block's head.
unfoldable pub split_size : Dbf → ℕ
split_size s = s.avail.size * sizeof_avail_elem / 2 + sizeof_avail_block

-- The entries at even and at odd positions.
unfoldable pub halve : List AvailElem → List AvailElem × List AvailElem
halve [] = ([], [])
halve (e ∷ table) = let r = halve table in (e ∷ r.1, r.0)

-- `get_elem` on the header's table.
unfoldable pub take_header : ℕ → M AvailElem
take_header size s =
    let r = get_elem size s.avail.av_table in
    done r.0 (record s { avail = record s.avail { av_table = r.1 } })

-- `get_elem` and, where it finds nothing, `get_block`.
unfoldable pub find_space : ℕ → M AvailElem
find_space size = do
  av_el ← take_header size
  if av_el.av_size == 0 then get_block size else return av_el

-- The even entries stay in the header's table, and the odd ones go to a block that is put above
-- the stack, at `av_adr`.
unfoldable pub split_header : ℕ → M AvailBlock
split_header av_adr s =
    let r = halve s.avail.av_table in
    done (record { size = s.avail.size; next_block = s.avail.next_block; av_table = r.1 })
      (record s { avail = record s.avail { next_block = av_adr; av_table = r.0 } })

abbrev pub block_image : AvailBlock → RawBlock
block_image temp = record {
  size = pos temp.size;
  count = pos (length temp.av_table);
  next_block = temp.next_block;
  slots = map to_raw temp.av_table;
}

unfoldable pub write_avail_block : ℕ → AvailBlock → M (Unit {0})
write_avail_block av_adr temp s =
    success
      (record s { disk = λ adr. if adr == av_adr then some (block_image temp) else s.disk adr })

-- `push_avail_block`, over the `_gdbm_free` that it calls.
unfoldable pub push_avail_block : (ℕ → ℕ → M (Unit {0})) → M (Unit {0})
push_avail_block free s₀ =
    (do
      let av_size = split_size s₀
      new_loc ← find_space av_size
      call malloc_error
      temp ← split_header new_loc.av_adr
      free (new_loc.av_adr + av_size) (new_loc.av_size - av_size)
      call file_seek_error
      call_write
      write_avail_block new_loc.av_adr temp)
      s₀

-- `_gdbm_put_av_elem` on the header's table, after a push if the table is full.
unfoldable pub put_header : M (Unit {0}) → AvailElem → Bool → M (Unit {0})
put_header push el can_merge s₀ =
    ((if length s₀.avail.av_table == s₀.avail.size then push else success) >> λ s.
    success (record s {
      avail = record s.avail { av_table = put_av_elem el s.avail.av_table can_merge };
      header_changed = true;
    }))
      s₀

-- The loop that moves entries of the bucket to the header; each round takes one out.
unfoldable pub drain_bucket : ℕ → M (Unit {0})
drain_bucket zero s = success s
drain_bucket (suc fuel) s =
    elim (ltb (bucket_avail - bucket_avail / 3) (length s.bucket_table)
      && ltb (length s.avail.av_table) s.avail.size) [
        | false ↦ success s
        | true ↦
            let r = get_elem 0 s.bucket_table in
            if r.0.av_size == 0
            then fail bad_avail (record s { bucket_table = r.1 })
            else drain_bucket fuel (record s {
              bucket_table = r.1;
              avail = record s.avail {
                av_table = put_av_elem r.0 s.avail.av_table s.coalesce_blocks;
              };
              bucket_changed = true;
            })
      ]

unfoldable pub adjust_bucket_avail : M (Unit {0})
adjust_bucket_avail s =
    let count = length s.avail.av_table in
    if ltb (length s.bucket_table) (bucket_avail / 3)
    then if ltb 0 count
      then success (record s {
        avail = record s.avail { av_table = take (count - 1) s.avail.av_table };
        bucket_table =
            put_av_elem (get_or s.avail.av_table (count - 1) no_elem) s.bucket_table
              s.coalesce_blocks;
        bucket_changed = true;
      })
      else success s
    else drain_bucket (length s.bucket_table) s

unfoldable pub put_bucket : AvailElem → M (Unit {0})
put_bucket el s =
    success (record s { bucket_table = put_av_elem el s.bucket_table s.coalesce_blocks })

-- Large space goes to the header, small space to the current bucket while that has room.
unfoldable pub store_freed : M (Unit {0}) → AvailElem → M (Unit {0})
store_freed push temp s =
    if leb s.block_size temp.av_size || s.central_free
    then put_header push temp s.coalesce_blocks s
    else if ltb (length s.bucket_table) bucket_avail
    then put_bucket temp s
    else put_header push temp s.coalesce_blocks s

unfoldable pub adjust_if_changed : M (Unit {0})
adjust_if_changed s = if s.header_changed then adjust_bucket_avail s else success s

-- `_gdbm_free`. `fuel` bounds the depth of the calls that `push_avail_block` makes.
unfoldable pub gdbm_free : ℕ → ℕ → ℕ → M (Unit {0})
gdbm_free zero file_adr num_bytes s = out_of_fuel
gdbm_free (suc fuel) file_adr num_bytes s =
    let temp : AvailElem = record { av_size = num_bytes; av_adr = file_adr } in
    let rest = (store_freed (push_avail_block (gdbm_free fuel)) temp >> adjust_if_changed) s in
    if leb num_bytes ignore_size then success s else rest

-- `_gdbm_avail_block_read`: the block at an offset, read and validated.
unfoldable pub read_avail_block : ℕ → ℕ → M AvailBlock
read_avail_block adr size s = elim (s.disk adr) [
  | none ↦ fail_soft file_eof s
  | some blk ↦ elim (avail_block_validate s.read_write s.bucket_size s.next_block blk size) [
    | none ↦ fail bad_avail s
    | some valid ↦
        done
          (record {
            size = pos_part valid.size;
            next_block = valid.next_block;
            av_table = map from_raw valid.slots;
          })
          s
  ]
]

-- The inner loop of `pop_avail_block`: entries move to the header's table until it is full.
unfoldable pub fill_header : List AvailElem → M (List AvailElem)
fill_header [] s = done [] s
fill_header (e ∷ rest) s = elim (ltb (length s.avail.av_table) s.avail.size) [
  | true ↦
      fill_header rest
        (record s { avail = record s.avail { av_table = put_av_elem e s.avail.av_table true } })
  | false ↦ done (e ∷ rest) s
]

unfoldable pub push_if_full : M (Unit {0}) → M (Unit {0})
push_if_full push s = if length s.avail.av_table == s.avail.size then push s else success s

-- The outer loop; each round moves an entry.
unfoldable pub refill_header : ℕ → M (Unit {0}) → List AvailElem → M (Unit {0})
refill_header fuel push [] s = success s
refill_header zero push (e ∷ rest) s = out_of_fuel
refill_header (suc fuel) push (e ∷ rest) s =
    (do left ← fill_header (e ∷ rest); push_if_full push; refill_header fuel push left) s

-- `pop_avail_block` from the block that it read on: the entries go to the header's table, the
-- block below becomes the top of the stack, and the block's own space is freed.
unfoldable pub pop_rest : M (Unit {0}) → AvailElem → AvailBlock → M (Unit {0})
pop_rest push new_el new_blk = do
  refill_header (length new_blk.av_table) push new_blk.av_table
  λ s. success (record s {
    avail = record s.avail { next_block = new_blk.next_block };
    header_changed = true;
  })
  push_if_full push
  λ s.
      success (record s {
        avail = record s.avail { av_table = put_av_elem new_el s.avail.av_table true };
      })

unfoldable pub pop_avail_block : M (Unit {0}) → M (Unit {0})
pop_avail_block push = do
  push_if_full push
  new_el ← λ s. done (record { av_size = split_size s; av_adr = s.avail.next_block }) s
  call malloc_error
  call file_seek_error
  call_read
  new_blk ← read_avail_block new_el.av_adr new_el.av_size
  pop_rest push new_el new_blk

-- Depth of the calls between `_gdbm_free` and `push_avail_block` that is allowed for.
abbrev pub depth : ℕ
depth = 3

unfoldable pub push : M (Unit {0})
push = push_avail_block (gdbm_free depth)

-- The element from which `_gdbm_alloc` takes space.
unfoldable pub alloc_elem : ℕ → M AvailElem
alloc_elem num_bytes s =
    let r = get_elem num_bytes s.bucket_table in
    let s' = record s { bucket_table = r.1 } in
    let count = length s.avail.av_table in
    if r.0.av_size == 0
    then (do
      if leb count (s.avail.size / 2) && not (s.avail.next_block == 0)
          then pop_avail_block push
          else success
      av_el ← find_space num_bytes
      λ t. done av_el (record t { header_changed = true }))
        s'
    else done r.0 s'

-- `_gdbm_alloc`: the address of the space. The source's 0 is `failed`.
unfoldable pub gdbm_alloc : ℕ → M ℕ
gdbm_alloc num_bytes = do
  av_el ← alloc_elem num_bytes
  gdbm_free depth (av_el.av_adr + num_bytes) (av_el.av_size - num_bytes)
  return av_el.av_adr
