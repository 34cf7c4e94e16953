-- ===== src/Prepared/Decode.antt =====
-- Reading one value of COM_STMT_EXECUTE (`decodePreparedValue`,
-- `decodeBinaryDateTime`, `decodeBinaryTime`).
use mysqlmock.Base.{
  ℕ, ◌+◌, ◌*◌, ◌%◌, ◌^◌, Bool, false, not, ◌&&◌, ◌||◌, List, [], ◌∷◌, ◌++◌, ltb, leb, ◌==◌,
  if◌then◌else◌, length, get_or, take, slice, Bytes, codes,
}
use mysqlmock.Value.{
  int64, float64, Time, Value, null, bytes, text, time, signed_num, float_num, Runtime, pad,
}
use mysqlmock.Codec.{little_endian, read_len_enc_bytes}
use mysqlmock.Rows.FieldType
use mysqlmock.Base.Int.{pos, signed}
use mysqlmock.Base.Decimal.{format_uint}
use mysqlmock.Errors.{
  DecodeError, packet_too_short, invalid_datetime_length, invalid_time_length, unsupported_type,
  Result, ok, err, ◌>>=◌,
}

pub record ParamType : Type 0 where
  pub field_type : ℕ
  pub is_unsigned : Bool

abbrev pub one_of : ℕ → List ℕ → Bool
one_of n [] = false
one_of n (k ∷ ks) = (n == k) || one_of n ks

abbrev field : Bytes → ℕ → ℕ → ℕ
field input lo hi = little_endian (slice input lo hi)

abbrev pub byte_at : Bytes → ℕ → ℕ
byte_at input i = get_or input i 0

-- The integer of a word of `width` bytes.
int_value : ℕ → Bytes → Bool → Result DecodeError (Value × ℕ)
int_value width input is_unsigned =
    if ltb (length input) width
    then err packet_too_short
    else (let n = little_endian (take width input) in
        ok (signed_num int64 (if is_unsigned then pos n else signed (256 ^ width) n), width))

-- An unsigned 64-bit word beyond the signed range is handed on as its decimal text.
long_long_value : Bytes → Bool → Result DecodeError (Value × ℕ)
long_long_value input is_unsigned =
    if ltb (length input) 8
    then err packet_too_short
    else (let n = little_endian (take 8 input) in
        ok (
          if is_unsigned
              then (if ltb n (2 ^ 63) then signed_num int64 (pos n) else text (format_uint n))
              else signed_num int64 (signed (2 ^ 64) n),
          8,
        ))

decode_float : Runtime → Bytes → Result DecodeError (Value × ℕ)
decode_float go input =
    if ltb (length input) 4
    then err packet_too_short
    else ok (float_num float64 (go.widen (little_endian (take 4 input))), 4)

decode_double : Bytes → Result DecodeError (Value × ℕ)
decode_double input =
    if ltb (length input) 8
    then err packet_too_short
    else ok (float_num float64 (little_endian (take 8 input)), 8)

-- time.Time{}
abbrev pub zero_time : Time
zero_time = record {
  year = 1;
  month = 1;
  day = 1;
  hour = 0;
  minute = 0;
  second = 0;
  nanosecond = 0;
}

unfoldable pub decode_binary_date_time : Runtime → Bytes → Result DecodeError (Time × ℕ)
decode_binary_date_time go input =
    let size = byte_at input 0 in
    let clock = leb 7 size in
    let micro = if size == 11 then field input 8 12 else 0 in
    if ltb (length input) 1
    then err packet_too_short
    else if ltb (length input) (1 + size)
    then err packet_too_short
    else if size == 0
    then ok (zero_time, 1)
    else if not (size == 4) && (not (size == 7) && not (size == 11))
    then err (invalid_datetime_length size)
    else ok (
      go.date (field input 1 3) (byte_at input 3) (byte_at input 4)
          (if clock then byte_at input 5 else 0) (if clock then byte_at input 6 else 0)
          (if clock then byte_at input 7 else 0) (micro * 1000),
      1 + size,
    )

-- The text of a binary TIME; the hours are a 32-bit sum.
unfoldable pub decode_binary_time : Bytes → Result DecodeError (Bytes × ℕ)
unfolding pad
decode_binary_time input =
    let size = byte_at input 0 in
    let sign = if byte_at input 1 == 1 then codes "-" else [] in
    let hours = (byte_at input 6 + field input 2 6 * 24) % 2 ^ 32 in
    let clock =
      sign
      ++ (pad 2 hours ++ (b':' ∷ (pad 2 (byte_at input 7) ++ (b':' ∷ pad 2 (byte_at input 8))))) in
    if ltb (length input) 1
    then err packet_too_short
    else if ltb (length input) (1 + size)
    then err packet_too_short
    else if size == 0
    then ok (codes "00:00:00", 1)
    else if not (size == 8) && not (size == 12)
    then err (invalid_time_length size)
    else if size == 12
    then ok (clock ++ (b'.' ∷ pad 6 (field input 9 13)), 13)
    else ok (clock, 9)

abbrev pub string_types : List ℕ
string_types =
    FieldType.decimal ∷ FieldType.new_dec ∷ FieldType.var_char ∷ FieldType.var_string
    ∷ FieldType.string_type ∷ FieldType.enum ∷ FieldType.set_type ∷ []

abbrev pub blob_types : List ℕ
blob_types =
    FieldType.blob ∷ FieldType.tiny_blob ∷ FieldType.med_blob ∷ FieldType.long_blob ∷ FieldType.bit
    ∷ FieldType.json ∷ FieldType.geometry ∷ []

abbrev pub date_types : List ℕ
date_types = FieldType.date ∷ FieldType.new_date ∷ FieldType.date_time ∷ FieldType.timestamp ∷ []

-- The value at the front of the input, and the bytes that it takes.
unfoldable pub decode_prepared_value : Runtime → Bytes → ParamType → Result DecodeError (Value × ℕ)
unfolding int_value long_long_value decode_float decode_double
decode_prepared_value go input typ =
    let t = typ.field_type in
    if t == FieldType.null_type
    then ok (null, 0)
    else if t == FieldType.tiny
    then int_value 1 input typ.is_unsigned
    else if one_of t (FieldType.short ∷ FieldType.year ∷ [])
    then int_value 2 input typ.is_unsigned
    else if one_of t (FieldType.long ∷ FieldType.int24 ∷ [])
    then int_value 4 input typ.is_unsigned
    else if t == FieldType.long_long
    then long_long_value input typ.is_unsigned
    else if t == FieldType.float
    then decode_float go input
    else if t == FieldType.double
    then decode_double input
    else if one_of t string_types
    then (read_len_enc_bytes input >>= λ (value, used). ok (text value, used))
    else if one_of t blob_types
    then (read_len_enc_bytes input >>= λ (value, used). ok (bytes value, used))
    else if one_of t date_types
    then (decode_binary_date_time go input >>= λ (value, used). ok (time value, used))
    else if t == FieldType.time_type
    then (decode_binary_time input >>= λ (value, used). ok (text value, used))
    else err (unsupported_type t)
