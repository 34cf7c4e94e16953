-- ===== src/Rows.antt =====
-- Columns and rows of the text protocol (pkg/mysqlmock/protocol_codec.go).
pub mod FieldType
pub mod Reading
pub mod ZeroFill
use mysqlmock.Base.{
  ℕ, zero, suc, ◌+◌, ◌-◌, ◌*◌, ◌/◌, ◌%◌, ◌^◌, ◌≤◌, ◌<◌, ◌≡◌, refl, sym, ap, ◌∙◌, ◌≢◌, ◌↔◌, ◌⊎◌, inl,
  inr, Bool, true, false, not, ◌&&◌, ◌||◌, Option, none, some, List, [], ◌∷◌, ◌++◌, map, append-nil,
  append_assoc, arith, ltb, leb, ◌==◌, if◌then◌else◌, ltb→lt, ltb→ge, lt→ltb, ge→ltb, leb→le,
  le→leb, ==_iff, ==_refl, tests, Bool-cases, Option-cases, length, get_elem?, get_or, set, take,
  drop, replicate, slice, length-append, length-take, length-drop, length-replicate, length-set,
  take-length_append, drop-length_append, take-append-drop, take_all, drop_all, drop-drop, Bytes,
  codes, beq, beq_iff, beq_refl, lower_byte, upper_byte, to_lower, to_upper, equal_fold, has_prefix,
  trim_prefix, has_suffix, trim_suffix, contains, is_space, trim_space, fields, join, index_byte,
}
use mysqlmock.Value.{
  SignedKind, int, int8, int16, int32, int64, UnsignedKind, uint, uint8, uint16, uint32, uint64,
  FloatKind, float32, float64, Time, Value, null, bytes, text, time, bool, signed_num, unsigned_num,
  float_num, other, Runtime, pad, format_time, sprint, text_value,
}
use mysqlmock.Codec.{
  byte, append_uint16, append_uint32, append_uint64, append_len_enc_int, append_len_enc_bytes,
  append_len_enc_string, little_endian, read_len_enc_int, read_len_enc_bytes,
}
use mysqlmock.Base.Int.{ℤ, pos, negsuc}
use mysqlmock.Base.Decimal.{format_int, format_uint, is_digit}
use mysqlmock.Rows.FieldType

pub record ResultColumn : Type 0 where
  pub name : Bytes
  pub field_type : ℕ
  pub zero_fill_width : ℕ

-- The zero value of the struct.
abbrev pub no_column : ResultColumn
no_column = record { name = []; field_type = 0; zero_fill_width = 0 }

pub record ResultSet : Type 0 where
  pub columns : List ResultColumn
  pub rows : List (List Value)

unfoldable pub column_definition : Bytes → ResultColumn → Bytes
unfolding append_len_enc_string append_uint16 append_uint32
column_definition schema col =
    let p1 = append_len_enc_string [] (codes "def") in
    let p2 = append_len_enc_string p1 schema in
    let p3 = append_len_enc_string p2 [] in
    let p4 = append_len_enc_string p3 [] in
    let p5 = append_len_enc_string p4 col.name in
    let p6 = append_len_enc_string p5 col.name in
    let p7 = p6 ++ (0x0c ∷ []) in
    let charset : ℕ =
      if not (col.field_type == FieldType.var_string) && not (col.field_type == FieldType.blob)
      then 63
      else 45 in
    let p8 = append_uint16 p7 charset in
    let p9 = append_uint32 p8 1024 in
    let p10 = p9 ++ (col.field_type ∷ []) in
    let p11 = append_uint16 p10 0 in let p12 = p11 ++ (0 ∷ []) in p12 ++ (0x00 ∷ 0x00 ∷ [])

unfoldable pub all_digits : Bytes → Bool
all_digits [] = true
all_digits (c ∷ cs) = is_digit c && all_digits cs

-- A positive `ZeroFillWidth` pads a text of digits that is shorter.
unfoldable pub text_value_for_column : Runtime → Value → ResultColumn → Bytes
unfolding text_value all_digits has_prefix
text_value_for_column go value column =
    let t = text_value go value in
    if column.zero_fill_width == 0
    then t
    else if leb column.zero_fill_width (length t) || has_prefix t (codes "-")
    then t
    else if all_digits t
    then replicate (column.zero_fill_width - length t) b'0' ++ t
    else t

-- `appendLenEncSigned`, `appendLenEncUnsigned`, `appendLenEncFloat`
append_len_enc_signed : Bytes → ℤ → Bytes
append_len_enc_signed buf n = append_len_enc_bytes buf (format_int n)

append_len_enc_unsigned : Bytes → ℕ → Bytes
append_len_enc_unsigned buf n = append_len_enc_bytes buf (format_uint n)

append_len_enc_float : Runtime → Bytes → ℕ → FloatKind → Bytes
append_len_enc_float go buf x float32 = append_len_enc_bytes buf (go.format_float32 (go.widen x))
append_len_enc_float go buf x float64 = append_len_enc_bytes buf (go.format_float64 x)

pub append_plain_value : Runtime → Bytes → Value → Bytes
unfolding append_len_enc_signed append_len_enc_unsigned append_len_enc_float
append_plain_value go buf (bytes b) = append_len_enc_bytes buf b
append_plain_value go buf (text s) = append_len_enc_string buf s
append_plain_value go buf (time t) = append_len_enc_string buf (format_time t)
append_plain_value go buf (bool b) =
    if b then append_len_enc_string buf (codes "1") else append_len_enc_string buf (codes "0")
append_plain_value go buf (signed_num k n) = append_len_enc_signed buf n
append_plain_value go buf (unsigned_num k n) = append_len_enc_unsigned buf n
append_plain_value go buf (float_num k x) = append_len_enc_float go buf x k
append_plain_value go buf v = append_len_enc_string buf (sprint go v)

unfoldable pub append_text_value_for_column : Runtime → Bytes → Value → ResultColumn → Bytes
unfolding append_plain_value text_value_for_column
append_text_value_for_column go buf value column =
    if ltb 0 column.zero_fill_width
    then append_len_enc_string buf (text_value_for_column go value column)
    else append_plain_value go buf value

-- What the loop appends for value number `i`.
pub append_cell : Runtime → Bytes → Value → ResultColumn → Bytes
append_cell go buf null column = buf ++ (0xfb ∷ [])
append_cell go buf value column = append_text_value_for_column go buf value column

pub text_row_from : Runtime → List ResultColumn → List Value → ℕ → Bytes → Bytes
unfolding append_cell
text_row_from go columns [] i payload = payload
text_row_from go columns (value ∷ values) i payload =
    text_row_from go columns values (i + 1)
      (append_cell go payload value (get_or columns i no_column))

unfoldable pub text_row : Runtime → List ResultColumn → List Value → Bytes
unfolding text_row_from
text_row go columns values = text_row_from go columns values 0 []

-- `fieldTypeFromValue`
unfoldable pub field_type_from_value : Value → ℕ
field_type_from_value (signed_num k n) = FieldType.long_long
field_type_from_value (unsigned_num k n) = FieldType.long_long
field_type_from_value (float_num k x) = FieldType.double
field_type_from_value (bytes b) = FieldType.blob
field_type_from_value (time t) = FieldType.date_time
field_type_from_value v = FieldType.var_string

-- `mysqlFieldType`, on the database type name of the column
unfoldable pub mysql_field_type : Bytes → ℕ
unfolding to_upper contains beq
mysql_field_type name =
    let db_type = to_upper name in
    if contains db_type (codes "INT")
    then FieldType.long_long
    else if beq db_type (codes "REAL")
        || (beq db_type (codes "DOUBLE") || beq db_type (codes "FLOAT"))
    then FieldType.double
    else if beq db_type (codes "NUMERIC") || beq db_type (codes "DECIMAL")
    then FieldType.decimal
    else if contains db_type (codes "BLOB")
    then FieldType.blob
    else if contains db_type (codes "DATE") || contains db_type (codes "TIME")
    then FieldType.date_time
    else FieldType.var_string
