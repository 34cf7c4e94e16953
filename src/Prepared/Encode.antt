-- ===== src/Prepared/Encode.antt =====
-- Rows of the binary protocol (`binaryRow`, `appendBinaryValue`, `appendBinaryDateTime`,
-- `asTime`, `parseDateTimeString`, `toInt64`, `toFloat64`).
use mysqlmock.Base.{
  ℕ, zero, suc, ◌+◌, ◌/◌, ◌%◌, ◌^◌, Bool, not, ◌&&◌, ◌||◌, Option, none, some, List, [], ◌∷◌, ◌++◌,
  ltb, ◌==◌, if◌then◌else◌, length, get_or, set, replicate, Bytes, codes, beq, has_prefix,
  trim_space,
}
use mysqlmock.Value.{
  int64, uint, uint64, float32, float64, Time, Value, null, bytes, text, time, bool, signed_num,
  unsigned_num, float_num, Runtime, text_value,
}
use mysqlmock.Codec.{byte, append_uint16, append_uint32, append_uint64, append_len_enc_bytes}
use mysqlmock.Rows.{ResultColumn, no_column}
use mysqlmock.Prepared.Decode.{one_of, byte_at, zero_time, date_types}
use mysqlmock.Rows.FieldType
use mysqlmock.Base.Int.{ℤ, pos, negsuc, word}
use mysqlmock.Base.Decimal.{digits_value}
use mysqlmock.Errors.{Result, ok, err, ◌>>=◌}
use Prim.Native.Nat.{bit_or}

pub data EncodeError : Type 0 where
  count_mismatch : EncodeError
  in_column : Bytes → EncodeError → EncodeError
  integer_overflow : ℕ → EncodeError
  cannot_convert : EncodeError
  not_an_integer : Bytes → EncodeError
  not_a_float : Bytes → EncodeError
  not_a_datetime : Bytes → EncodeError

-- An integer of the signed 64-bit range.
in_int64 : ℤ → Result EncodeError ℤ
in_int64 (pos n) = if ltb n (2 ^ 63) then ok (pos n) else err (integer_overflow n)
in_int64 (negsuc n) = if ltb n (2 ^ 63) then ok (negsuc n) else err (integer_overflow n)

unsigned_digits : Bytes → Option ℕ
unfolding digits_value
unsigned_digits [] = none
unsigned_digits (c ∷ cs) = digits_value 0 (c ∷ cs)

negated : ℕ → ℤ
negated zero = pos 0
negated (suc n) = negsuc n

-- strconv.ParseInt(s, 10, 64)
unfoldable pub parse_int : Bytes → Result EncodeError ℤ
unfolding in_int64 unsigned_digits negated
parse_int [] = err (not_an_integer [])
parse_int (c ∷ cs) =
    if c == b'-'
    then elim (unsigned_digits cs) [
      | some n ↦ in_int64 (negated n)
      | none ↦ err (not_an_integer (c ∷ cs))
    ]
    else elim (unsigned_digits (if c == b'+' then cs else c ∷ cs)) [
      | some n ↦ in_int64 (pos n)
      | none ↦ err (not_an_integer (c ∷ cs))
    ]

-- The unsigned kinds that may exceed the signed range are checked.
unfoldable pub to_int64 : Value → Result EncodeError ℤ
unfolding parse_int in_int64
to_int64 (signed_num k n) = ok n
to_int64 (unsigned_num uint n) = in_int64 (pos n)
to_int64 (unsigned_num uint64 n) = in_int64 (pos n)
to_int64 (unsigned_num k n) = ok (pos n)
to_int64 (bool b) = ok (pos (if b then 1 else 0))
to_int64 (bytes b) = parse_int b
to_int64 (text s) = parse_int s
to_int64 v = err cannot_convert

parsed_float : Bytes → Option ℕ → Result EncodeError ℕ
parsed_float s none = err (not_a_float s)
parsed_float s (some x) = ok x

unfoldable pub to_float64 : Runtime → Value → Result EncodeError ℕ
unfolding parsed_float
to_float64 go (float_num float32 x) = ok (go.widen x)
to_float64 go (float_num float64 x) = ok x
to_float64 go (signed_num int64 n) = ok (go.of_int n)
to_float64 go (bytes b) = parsed_float b (go.parse_float b)
to_float64 go (text s) = parsed_float s (go.parse_float s)
to_float64 go v = err cannot_convert

abbrev layouts : List Bytes
layouts =
    codes "2006-01-02T15:04:05.999999999Z07:00"
    ∷ codes "2006-01-02 15:04:05.999999999"
    ∷ codes "2006-01-02 15:04:05.999999"
    ∷ codes "2006-01-02 15:04:05"
    ∷ codes "2006-01-02"
    ∷ []

-- The first layout that reads the value.
first_layout : Runtime → List Bytes → Bytes → Result EncodeError Time
first_layout go [] value = err (not_a_datetime value)
first_layout go (l ∷ ls) value =
    let later = first_layout go ls value in
    elim (go.parse_in_location l value) [ some t ↦ ok t | none ↦ later ]

unfoldable pub parse_date_time_string : Runtime → Bytes → Result EncodeError Time
unfolding first_layout trim_space beq has_prefix
parse_date_time_string go input =
    let value = trim_space input in
    if beq value [] || (beq value (codes "0000-00-00") || has_prefix value (codes "0000-00-00 "))
    then ok zero_time
    else first_layout go layouts value

unfoldable pub as_time : Runtime → Value → Result EncodeError Time
unfolding parse_date_time_string
as_time go (time t) = ok t
as_time go (text s) = parse_date_time_string go s
as_time go (bytes b) = parse_date_time_string go b
as_time go v = err cannot_convert

-- `t.IsZero()`
abbrev pub is_zero_time : Time → Bool
is_zero_time t =
    (t.year == 1)
    && ((t.month == 1)
        && ((t.day == 1)
            && ((t.hour == 0) && ((t.minute == 0) && ((t.second == 0) && (t.nanosecond == 0))))))

unfoldable pub date_fields : Bytes → Time → Bytes
date_fields buf t =
    append_uint16 buf t.year
    ++ (byte t.month ∷ byte t.day ∷ byte t.hour ∷ byte t.minute ∷ byte t.second ∷ [])

unfoldable pub append_time : Bytes → Time → Bytes
unfolding date_fields append_uint16 append_uint32
append_time buf t =
    let micro = t.nanosecond / 1000 in
    if is_zero_time t
    then buf ++ (0x00 ∷ [])
    else if ltb 0 micro
    then append_uint32 (date_fields (buf ++ (0x0b ∷ [])) t) micro
    else date_fields (buf ++ (0x07 ∷ [])) t

unfoldable pub append_binary_date_time : Runtime → Bytes → Value → Result EncodeError Bytes
unfolding append_time as_time
append_binary_date_time go buf value = as_time go value >>= λ t. ok (append_time buf t)

unfoldable pub append_binary_value : Runtime → Bytes → ℕ → Value → Result EncodeError Bytes
unfolding append_uint16 append_uint32 append_uint64 to_int64 to_float64
append_binary_value go buf t value =
    if t == FieldType.tiny
    then (to_int64 value >>= λ n. ok (buf ++ (word 256 n ∷ [])))
    else if one_of t (FieldType.short ∷ FieldType.year ∷ [])
    then (to_int64 value >>= λ n. ok (append_uint16 buf (word (2 ^ 16) n)))
    else if one_of t (FieldType.long ∷ FieldType.int24 ∷ [])
    then (to_int64 value >>= λ n. ok (append_uint32 buf (word (2 ^ 32) n)))
    else if t == FieldType.long_long
    then (to_int64 value >>= λ n. ok (append_uint64 buf (word (2 ^ 64) n)))
    else if t == FieldType.float
    then (to_float64 go value >>= λ x. ok (append_uint32 buf (go.narrow x)))
    else if t == FieldType.double
    then (to_float64 go value >>= λ x. ok (append_uint64 buf x))
    else if one_of t date_types
    then append_binary_date_time go buf value
    else ok (append_len_enc_bytes buf (text_value go value))

unfoldable pub in_column_error : {A : Type 0} → Bytes → Result EncodeError A → Result EncodeError A
in_column_error name (ok a) = ok a
in_column_error name (err e) = err (in_column name e)

-- `payload[1+(i+2)/8] |= 1 << ((i + 2) & 7)`
unfoldable pub set_null_bit : Bytes → ℕ → Bytes
set_null_bit payload i =
    let k = 1 + (i + 2) / 8 in set payload k (bit_or (byte_at payload k) (2 ^ ((i + 2) % 8)))

unfoldable pub encode_cell : Runtime → Bytes → ResultColumn → ℕ → Value → Result EncodeError Bytes
unfolding append_binary_value in_column_error set_null_bit
encode_cell go payload column i null = ok (set_null_bit payload i)
encode_cell go payload column i value =
    in_column_error column.name (append_binary_value go payload column.field_type value)

unfoldable pub binary_row_from :
    Runtime → List ResultColumn → List Value → ℕ → Bytes → Result EncodeError Bytes
unfolding encode_cell
binary_row_from go columns [] i payload = ok payload
binary_row_from go columns (value ∷ values) i payload =
    encode_cell go payload (get_or columns i no_column) i value
    >>= binary_row_from go columns values (i + 1)

unfoldable pub binary_row : Runtime → List ResultColumn → List Value → Result EncodeError Bytes
unfolding binary_row_from
binary_row go columns values =
    if not (length values == length columns)
    then err count_mismatch
    else binary_row_from go columns values 0 (replicate (1 + (length columns + 7 + 2) / 8) 0)
