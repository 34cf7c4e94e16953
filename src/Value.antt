-- ===== src/Value.antt =====
-- The dynamic values (`any`) that rows and parameters hold, and their text
-- (pkg/mysqlmock/protocol_codec.go). Floating-point numbers are bit patterns. What the program
-- takes from Go's runtime about floats and calendar times is the record `Runtime`.
use mysqlmock.Base.{
  ℕ, zero, suc, ◌-◌, ◌/◌, ◌%◌, Bool, [], ◌∷◌, ◌++◌, Bytes, ◌==◌, if◌then◌else◌, length, Option,
  codes, replicate, join, map,
}
use mysqlmock.Base.Int.{ℤ}
use mysqlmock.Base.Decimal.{format_int, format_uint}

pub data SignedKind : Type 0 where
  int int8 int16 int32 int64 : SignedKind

pub data UnsignedKind : Type 0 where
  uint uint8 uint16 uint32 uint64 : UnsignedKind

pub data FloatKind : Type 0 where
  float32 float64 : FloatKind

-- A time.Time of the program's zone, by its fields.
pub record Time : Type 0 where
  pub year : ℕ
  pub month : ℕ
  pub day : ℕ
  pub hour : ℕ
  pub minute : ℕ
  pub second : ℕ
  pub nanosecond : ℕ

pub data Value : Type 0 where
  null : Value
  bytes : Bytes → Value
  text : Bytes → Value
  time : Time → Value
  bool : Bool → Value
  signed_num : SignedKind → ℤ → Value
  unsigned_num : UnsignedKind → ℕ → Value
  float_num : FloatKind → ℕ → Value
  -- A value of any other type, by what fmt.Sprint prints for it.
  other : Bytes → Value

-- Go's runtime, as far as the program uses it on floats and times.
pub record Runtime : Type 0 where
  -- float64(x) of a float32, float32(x) of a float64, float64(n) of an integer
  pub widen : ℕ → ℕ
  pub narrow : ℕ → ℕ
  pub of_int : ℤ → ℕ
  -- strconv.ParseFloat(s, 64)
  pub parse_float : Bytes → Option ℕ
  -- strconv.AppendFloat(_, x, 'g', -1, 32) and (_, x, 'g', -1, 64)
  pub format_float32 : ℕ → Bytes
  pub format_float64 : ℕ → Bytes
  -- fmt.Sprint on a float and on a time
  pub sprint_float : FloatKind → ℕ → Bytes
  pub sprint_time : Time → Bytes
  -- time.Date, which normalises its arguments
  pub date : ℕ → ℕ → ℕ → ℕ → ℕ → ℕ → ℕ → Time
  -- time.ParseInLocation(layout, value, time.Local)
  pub parse_in_location : Bytes → Bytes → Option Time

-- A numeral of at least `width` digits, `%0*d`.
unfoldable pub pad : ℕ → ℕ → Bytes
pad width n = let digits = format_uint n in replicate (width - length digits) b'0' ++ digits

-- The six digits of the microseconds with no trailing zeros.
fraction_digits : ℕ → ℕ → Bytes
fraction_digits zero n = []
fraction_digits (suc places) n =
    let shorter = fraction_digits places (n / 10) in
    if n % 10 == 0 then shorter else pad (suc places) n

-- v.Format("2006-01-02 15:04:05.999999")
unfoldable pub format_time : Time → Bytes
unfolding pad fraction_digits
format_time t =
    let micro = t.nanosecond / 1000 in
    pad 4 t.year
    ++ (b'-'
        ∷ (pad 2 t.month
            ++ (b'-'
                ∷ (pad 2 t.day
                    ++ (b' '
                        ∷ (pad 2 t.hour
                            ++ (b':'
                                ∷ (pad 2 t.minute
                                    ++ (b':'
                                        ∷ (pad 2 t.second
                                            ++ (if micro == 0
                                                then []
                                                else b'.' ∷ fraction_digits 6 micro)))))))))))

-- fmt.Sprint(v)
unfoldable pub sprint : Runtime → Value → Bytes
unfolding format_int format_uint
sprint go null = codes "<nil>"
sprint go (bytes b) = codes "[" ++ join (map format_uint b) (codes " ") ++ codes "]"
sprint go (text s) = s
sprint go (time t) = go.sprint_time t
sprint go (bool b) = if b then codes "true" else codes "false"
sprint go (signed_num k n) = format_int n
sprint go (unsigned_num k n) = format_uint n
sprint go (float_num k x) = go.sprint_float k x
sprint go (other s) = s

-- `textValue`
unfoldable pub text_value : Runtime → Value → Bytes
unfolding sprint format_time
text_value go null = []
text_value go (bytes b) = b
text_value go (time t) = format_time t
text_value go (bool b) = if b then codes "1" else codes "0"
text_value go v = sprint go v
