-- ===== src/Tests/Codec.antt =====
-- Runs and instances for src/hash.c, src/base64.c and src/gdbmerrno.c.
use gdbm.Prelude.{
  ℕ, ◌+◌, ◌-◌, ◌*◌, ◌%◌, ◌^◌, ◌≤◌, ◌<◌, ◌≡◌, ◌⊎◌, refl, none, true, false, [], ◌∷◌, List, length,
  arith,
}
use gdbm.Hash.{hash_key, gdbm_hash}
use gdbm.Hash.Bounds.{hash_key_bounds}
use gdbm.Base64.{no_error, malloc_error, malformed_data, base64_decode, encode_bytes, digit}
use gdbm.Base64.Buffer.{base64_decode_bounds}
use gdbm.Errno.{bad_avail, file_seek_error, ErrorState, set_errno, db_strerror, syserr}
use gdbm.Errno.Laws.{db_strerror-set_errno}

abbrev key : List ℕ
key = b'k' ∷ b'e' ∷ b'y' ∷ 200 ∷ []

hash_key_bounds_example :
    let l = hash_key true 3 50 key in (l.hash < 2 ^ 31) × (l.bucket < 2 ^ 3) × (l.offset < 50)
hash_key_bounds_example = hash_key_bounds true 3 50 key (omega arith) (omega arith)

-- Where `char` is signed, a byte above 127 changes the hash.
hash_signed :
    gdbm_hash true (200 ∷ [])
    ≡ (1103515243 * ((0x238F13AF + 2 ^ 32 - 56) % 2 ^ 32 % 2 ^ 31) % 2 ^ 32 + 12345)
      % 2 ^ 32
      % 2 ^ 31
unfolding gdbm_hash
hash_signed = refl

encode_man :
    encode_bytes (b'M' ∷ b'a' ∷ b'n' ∷ b'!' ∷ [])
    ≡ b'T' ∷ b'W' ∷ b'F' ∷ b'u' ∷ b'I' ∷ b'Q' ∷ b'=' ∷ b'=' ∷ []
unfolding encode_bytes digit
encode_man = refl

base64_decode_bounds_example :
    let (d, size') = base64_decode true key 9 in
    ((d.rc ≡ malloc_error) × (9 < length key) × (size' ≡ 9))
    ⊎ ((d.inbytes ≤ length key)
        × (d.inbytes % 4 ≡ 0)
        × (d.outbytes ≡ length d.output)
        × (4 * d.outbytes ≤ 3 * d.inbytes)
        × (d.outbytes ≤ size')
        × ((d.rc ≡ malformed_data) ⊎ ((d.rc ≡ no_error) × (length key < d.inbytes + 4))))
base64_decode_bounds_example = base64_decode_bounds true key 9 (omega arith)

abbrev damaged : ErrorState
damaged = record {
  last_error = bad_avail;
  last_syserror = 0;
  last_errstr = none;
  need_recovery = true;
}

db_strerror-set_errno_example :
    let s' = set_errno 5 file_seek_error false damaged in
    let (t, s'') = db_strerror true s' in
    (t.0 ≡ file_seek_error)
    × ((syserr file_seek_error ≡ true) → t.1 ≡ 5)
    × ((syserr file_seek_error ≡ false) → t.1 ≡ 0)
    × (s''.need_recovery ≡ false)
    × (s''.last_error ≡ file_seek_error)
    × ((db_strerror true s'').0 ≡ t)
db_strerror-set_errno_example = db_strerror-set_errno 5 file_seek_error false damaged
