-- ===== src/Lib.antt =====
-- A verification library for GNU dbm: the parts of the database library in src/ that compute, as
-- functions, and the theorems that make them correct.
--
-- A database is one file: a header with a table of free space (the avail block), a stack of further
-- avail blocks, a directory, and buckets, which are small hash tables. A key is hashed; the hash's
-- leading bits choose the directory's entry and so the bucket, and the rest of a division by the
-- bucket's size is the key's home in it. The bucket's element says where in the file the key and its
-- content stand. Space in the file is taken from and given back to the bucket's own small avail
-- table, the header's table, and the end of the file.
--
-- The files, and the code that they model:
-- - Prelude, with Prelude/Tests, Lists, Bytes, Int and Powers: Boolean tests on numbers, lists by
--   position, masks of bytes, signed integers, and powers of two.
-- - Hash (src/hash.c): `gdbm_hash` is `_gdbm_hash`, `bucket_dir` is `_gdbm_bucket_dir`, `hash_key` is
--   `_gdbm_hash_key`. Arithmetic is modulo 2 ^ 32, and `widen` is the conversion of a char, signed or
--   not. Hash/Bounds: their ranges.
-- - Avail (src/falloc.c): `avail_lookup`, `avail_move`, `get_elem` and `put_av_elem` on one table.
--   Avail/Order: sorted tables. Avail/Lookup: the search. Avail/Space: the bytes that a table covers.
--   Avail/Laws: extraction and insertion.
-- - Validate (src/avail.c): the checks of a table that was read, on signed numbers. Validate/Sort,
--   Validate/Table and Validate/Laws: what a table is like that passes.
-- - Alloc (src/falloc.c): `get_block`, `push_avail_block`, `pop_avail_block`, `gdbm_free`,
--   `adjust_bucket_avail` and `gdbm_alloc`, as steps on the state of Alloc/State, which end with a
--   value or with the error state after GDBM_SET_ERRNO. Alloc/Blocks: the end of the file and the
--   halving of a table. Alloc/Valid, Alloc/Freed, Alloc/Ends and Alloc/Pop: what every call keeps.
-- - Bucket (src/bucket.c, src/findkey.c, src/gdbmstore.c, src/gdbmdelete.c): the hash table of a
--   bucket. `find_slot` is the search of `_gdbm_findkey`, `insert_element` the loop of `gdbm_store`,
--   `delete_element` the one of `gdbm_delete`. Bucket/Cyclic: distances round the table. Bucket/Probe:
--   the loops. Bucket/Search: the search and the insertion together. Bucket/Weights: counting the used
--   elements. Bucket/Gap and Bucket/Delete: the removal. Bucket/Contents: the search after a removal.
-- - Split (src/bucket.c): `split_elements` and `split_avail` are the parts of `_gdbm_split_bucket` that
--   deal a full bucket's elements and its free space out to the two new buckets. Split/Copy and
--   Split/Space.
-- - Cache (src/bucket.c): the bucket cache, from `adrhash` to `cache_lookup`, with `write_bucket`,
--   `cache_flush` and `cache_init`, as steps on the state of Cache/State, where an element is a
--   number and its pointers are members. Cache/Access: the sizes of the table, and the look-up.
--   Cache/Links and Cache/Order: the list in order of use. Cache/Flush: the writing of changed
--   buckets. Cache/Chains: the chains of the table. Cache/Hit: a look-up that finds its bucket.
-- - Directory (src/bucket.c, src/recover.c, src/gdbmcount.c, src/proto.h): `make_room` and
--   `update_directory` are the parts of `_gdbm_split_bucket` that double the directory and write the
--   new buckets into it; `next_bucket_dir`, `bucket_count` and `gdbm_count` walk through it, for any answers of
--   `_gdbm_get_bucket`.
--   Directory/Fill: the loops that write. Directory/Split: where a hash is led after a split.
--   Directory/Walk and Directory/Count: the walk, and what the counts are.
-- - Header (src/gdbmopen.c): `validate_header` and what it calls, and `compute_directory_size`.
--   Header/Sizes and Header/Laws: a new directory's size, and what a header is like that passes.
-- - Snapshot (src/gdbmsync.c): `gdbm_latest_snapshot` and what it calls. Snapshot/Laws: the choice.
-- - Traverse (src/avail.c): `off_map_lookup`, `gdbm_avail_traverse` and `gdbm_avail_verify`, as steps on
--   the state of Alloc/State. Traverse/Map: the sorted array of offsets. Traverse/Walk,
--   Traverse/Loop and Traverse/Verify: the calls of a round, the rounds, and the whole walk.
-- - FullIo (src/fullio.c): `full_read`, `full_write` and `file_extend` on a file with a position.
--   FullIo/Read, FullIo/Write and FullIo/Extend: how each of them ends.
-- - Base64 (src/base64.c): both directions. Base64/Digits, Base64/RoundTrip and Base64/Buffer: the
--   tables, the two directions together, and the buffers.
-- - Options (src/gdbmsetopt.c): `gdbm_setopt` with its table and its handlers, on the members of the
--   database that they concern. Options/Laws: how any call ends. Options/Switches: setting and asking.
-- - Dump (src/gdbmdump.c): `print_datum`, and `dump_records`, which is the loop of `_gdbm_dump_ascii`
--   with what follows it, for the keys and contents that the database gives. Dump/Digits and Dump/Lines:
--   numbers, and the bytes that are written.
-- - Load (src/gdbmload.c): `get_dump_line` on a stream and the buffers of `struct dump_file`. Load/Parms:
--   `get_parms`. Load/Record: `getparm`, `get_num`, `get_data` and `read_record`. Load/Records: the loop
--   of `_gdbm_load_file`, for any database that stores records. Load/Lines, Load/Numbers, Load/Header,
--   Load/First and Load/Data: a line, a number, the first line of a datum, and its data, as they are
--   printed. Load/RoundTrip and Load/Trailer: a datum, and the end of a dump. Load/Whole: all the
--   records. Load/Long: a line longer than the buffer of fgets. Load/Loops: which loops end.
-- - Errno (src/gdbm.h.in, src/gdbmerrno.c): the codes, their texts, and the error state. Errno/Laws.
-- - Tests: the theorems at concrete inputs, and runs.
--
-- Bounds and fuel. The search of an avail table runs on as many rounds as the table has entries, since
-- its count falls in each. `get_block` adds at most as many blocks as bytes are asked for. The search
-- and the insertion in a bucket make one round for each position, and then are back at home. The
-- walk through the directory and the counts make at most one round for each entry. The
-- calls of `_gdbm_free` and `push_avail_block` to each other are three deep at most, which holds for
-- tables with room for at least 8 entries, and moving a popped block's entries takes at most one round
-- for each entry. In the removal from a bucket of n positions each move brings an element nearer to its
-- home, and there are less than n rounds between two moves. The walk through the stack of avail blocks
-- never comes to an offset twice, so that as many rounds as the file has bytes are enough. A round of
-- `full_read` or `full_write` takes an answer, and there are at most three more; a round of
-- `file_extend` writes a byte at least. The walks along the cache's chains and its list make one round
-- for each element that was allocated. A call of fgets takes a byte at least. The loops of the loader
-- on lines take their rounds from the caller, since one of them need not end; for what the dump prints
-- twice the bytes of a datum and 8 more are enough. The loops within a line move on in each round. Where fuel could run out, a theorem says that it does not, but
-- for the taking of an element out of its chain and the rehashing of the cache's table.
--
-- Assumptions. Offsets and sizes have 64 bits and an int has 32, in the layout that the compilers give
-- the structures there. Sizes and addresses that the code computes itself stay in range, and are
-- numbers; those that it reads and checks are signed. The answers of malloc, lseek, read and write are
-- data of the state, and past the end of that list the calls succeed. The link from one avail block to
-- the next is a number. `gdbm_file_read` and `gdbm_file_write` are read and write, as in a build without
-- memory mapping; a read moves a byte at least, if there is one. A size of the cache is less than
-- 2 ^ 30. The bytes that fgets gives are any, and reading a buffer past what has been written is an
-- outcome of its own. The loader's gdbm_store is any function of the key, the content and the database.
-- The search in a bucket can
-- read the keys in the file: where `_gdbm_read_entry` fails, `_gdbm_findkey` returns -1, which `find_slot`
-- leaves out. The size of the decoder's input is any, and what its int keeps of it is written out.
-- No handler is installed for fatal errors. `qsort` is a stable sort.
--
-- Not modelled: the rest of the split of a bucket, with its allocations; in the cache, the buckets
-- themselves, what is done with one that was read, and the freeing of the cache; the cache of the last
-- entry; the writing of updates, locks, memory mapping and its options, recovery, sequential
-- access, the header and the other formats of dumps, the compatibility interface and the tools.
pub mod Prelude
pub mod Hash
pub mod Base64
pub mod Errno
pub mod Avail
pub mod Validate
pub mod Alloc
pub mod Bucket
pub mod Traverse
pub mod FullIo
pub mod Cache
pub mod Options
pub mod Dump
pub mod Load
pub mod Split
pub mod Directory
pub mod Header
pub mod Snapshot
mod Tests
