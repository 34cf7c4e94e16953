-- ===== src/Codec.antt =====
-- The wire encoding: little-endian words and length-encoded integers and strings
-- (pkg/mysqlmock/protocol_codec.go, and readLenEnc… of pkg/mysqlmock/prepared.go).
pub mod RoundTrip
pub mod Bounds
use mysqlmock.Base.{
  ℕ, zero, suc, ◌+◌, ◌-◌, ◌*◌, ◌/◌, ◌%◌, ◌≡◌, Bool, true, false, List, [], ◌∷◌, ◌++◌, Bytes, ◌==◌,
  ltb, leb, if◌then◌else◌, length, slice,
}
use mysqlmock.Errors.{DecodeError, packet_too_short, invalid_marker, Result, ok, err, ◌>>=◌}

-- The conversion `byte(n)`.
abbrev pub byte : ℕ → ℕ
byte n = n % 256

unfoldable pub append_uint16 : Bytes → ℕ → Bytes
append_uint16 buf n = buf ++ (byte n ∷ byte (n / 256) ∷ [])

unfoldable pub append_uint32 : Bytes → ℕ → Bytes
append_uint32 buf n = buf ++ (byte n ∷ byte (n / 256) ∷ byte (n / 65536) ∷ byte (n / 16777216) ∷ [])

-- The loop over the eight bytes of a word, lowest first.
append_shifted : ℕ → Bytes → ℕ → Bytes
append_shifted zero buf n = buf
append_shifted (suc rounds) buf n = append_shifted rounds (buf ++ (byte n ∷ [])) (n / 256)

unfoldable pub append_uint64 : Bytes → ℕ → Bytes
unfolding append_shifted
append_uint64 buf n = append_shifted 8 buf n

unfoldable pub append_len_enc_int : Bytes → ℕ → Bytes
unfolding append_uint16 append_uint64
append_len_enc_int buf n =
    if ltb n 251
    then buf ++ (byte n ∷ [])
    else if leb n 0xffff
    then append_uint16 (buf ++ (0xfc ∷ [])) n
    else if leb n 0xff_ffff
    then buf ++ (0xfd ∷ byte n ∷ byte (n / 256) ∷ byte (n / 65536) ∷ [])
    else append_uint64 (buf ++ (0xfe ∷ [])) n

unfoldable pub append_len_enc_bytes : Bytes → Bytes → Bytes
append_len_enc_bytes buf value = append_len_enc_int buf (length value) ++ value

unfoldable pub append_len_enc_string : Bytes → Bytes → Bytes
append_len_enc_string buf s = append_len_enc_int buf (length s) ++ s

-- binary.LittleEndian.Uint16, Uint32 and Uint64 of a slice of two, four or eight bytes.
abbrev pub little_endian : Bytes → ℕ
little_endian [] = 0
little_endian (b ∷ bs) = b + 256 * little_endian bs

-- The value, the bytes read, and whether it is the NULL marker.
unfoldable pub read_len_enc_int : Bytes → Result DecodeError (ℕ × ℕ × Bool)
read_len_enc_int [] = err packet_too_short
read_len_enc_int (m ∷ body) =
    let data_bytes = m ∷ body in
    if m == 0xfb
    then ok (0, 1, true)
    else if m == 0xfc
    then (if ltb (length data_bytes) 3
        then err packet_too_short
        else ok (little_endian (slice data_bytes 1 3), 3, false))
    else if m == 0xfd
    then (if ltb (length data_bytes) 4
        then err packet_too_short
        else ok (little_endian (slice data_bytes 1 4), 4, false))
    else if m == 0xfe
    then (if ltb (length data_bytes) 9
        then err packet_too_short
        else ok (little_endian (slice data_bytes 1 9), 9, false))
    else if ltb m 0xfb
    then ok (m, 1, false)
    else err (invalid_marker m)

-- A NULL marker reads as an empty value.
slice_value : Bytes → ℕ × ℕ × Bool → Result DecodeError (Bytes × ℕ)
slice_value data_bytes (n, start, true) = ok ([], start)
slice_value data_bytes (n, start, false) =
    if ltb (length data_bytes - start) n
    then err packet_too_short
    else ok (slice data_bytes start (start + n), start + n)

unfoldable pub read_len_enc_bytes : Bytes → Result DecodeError (Bytes × ℕ)
unfolding slice_value
read_len_enc_bytes data_bytes = read_len_enc_int data_bytes >>= slice_value data_bytes
