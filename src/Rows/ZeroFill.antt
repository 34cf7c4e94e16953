-- ===== src/Rows/ZeroFill.antt =====
-- About `textValueForColumn` and zero-fill widths.
use mysqlmock.Base.{
  ltb, if◌then◌else◌, ℕ, zero, suc, ◌-◌, ◌≡◌, refl, true, false, [], ◌∷◌, ◌++◌, arith, length,
  replicate, length-append, length-replicate, Bytes, codes, has_prefix,
}
use mysqlmock.Value.{Value, Runtime, text_value}
use mysqlmock.Rows.{ResultColumn, all_digits, text_value_for_column}
use mysqlmock.Base.Decimal.{digits_value}

digits_value-zeros : (n : ℕ) (t : Bytes) → digits_value 0 (replicate n b'0' ++ t) ≡ digits_value 0 t
unfolding digits_value
digits_value-zeros zero t = refl
digits_value-zeros (suc n) t = digits_value-zeros n t

minus_no_digit : (t : Bytes) → has_prefix t (codes "-") ≡ true → all_digits t ≡ false
unfolding all_digits has_prefix
minus_no_digit [] h = cc
minus_no_digit (c ∷ cs) h = ground arith

-- The padded text stands for the same number as the text.
pub text_value_for_column-value :
    (go : Runtime) (v : Value) (column : ResultColumn)
    → digits_value 0 (text_value_for_column go v column) ≡ digits_value 0 (text_value go v)
unfolding text_value_for_column
text_value_for_column-value go v column =
    let t = text_value go v in
    ground (arith, digits_value-zeros (column.zero_fill_width - length t) t, minus_no_digit t)

-- A text of digits is padded to the column's width, and one that is no narrower stays as it is.
pub text_value_for_column-width :
    (go : Runtime) (v : Value) (column : ResultColumn)
    → all_digits (text_value go v) ≡ true
    → length (text_value_for_column go v column) ≡ (
        if ltb (length (text_value go v)) column.zero_fill_width
        then column.zero_fill_width
        else length (text_value go v))
unfolding text_value_for_column
text_value_for_column-width go v column h =
    let t = text_value go v in
    let w = column.zero_fill_width in
    ground (
      arith,
      minus_no_digit t,
      length-append (replicate (w - length t) b'0') t,
      length-replicate {A = ℕ} (w - length t) b'0',
    )
