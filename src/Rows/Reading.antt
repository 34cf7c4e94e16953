-- ===== src/Rows/Reading.antt =====
-- About `textRow`, with a client that reads the cells of a row.
use mysqlmock.Base.{
  subst, append-nil, sym, ap, drop-length_append, arith, ℕ, zero, suc, ◌+◌, ◌^◌, ◌<◌, ◌≡◌, refl,
  ◌∙◌, inl, inr, true, false, Option, none, some, List, [], ◌∷◌, ◌++◌, append_assoc, ltb, ◌==◌,
  if◌then◌else◌, Bool-cases, length, get_or, drop, Bytes, codes,
}
use mysqlmock.Value.{
  float32, float64, Value, null, bytes, text, time, bool, signed_num, unsigned_num, float_num,
  Runtime, format_time, sprint,
}
use mysqlmock.Codec.{
  append_len_enc_int, append_len_enc_bytes, append_len_enc_string, read_len_enc_bytes,
}
use mysqlmock.Codec.RoundTrip.{read-append_len_enc_bytes, append_len_enc_int-onto}
use mysqlmock.Rows.{
  text_row, text_row_from, append_cell, append_plain_value, ResultColumn, no_column,
  text_value_for_column, append_text_value_for_column,
}
use mysqlmock.Errors.{Result, ok, err, ◌>>=◌, DecodeError, packet_too_short}
use mysqlmock.Base.Decimal.{format_int, format_uint}

-- The text that a value has in a row, NULL having none.
abbrev pub plain_text : Runtime → Value → Bytes
plain_text go (bytes b) = b
plain_text go (text s) = s
plain_text go (time t) = format_time t
plain_text go (bool b) = if b then codes "1" else codes "0"
plain_text go (signed_num k n) = format_int n
plain_text go (unsigned_num k n) = format_uint n
plain_text go (float_num float32 x) = go.format_float32 (go.widen x)
plain_text go (float_num float64 x) = go.format_float64 x
plain_text go v = sprint go v

abbrev pub cell : Runtime → Value → ResultColumn → Option Bytes
cell go null column = none
cell go v column =
    some
      (if ltb 0 column.zero_fill_width then text_value_for_column go v column else plain_text go v)

-- The cells of the values from number `i` on.
abbrev pub cells : Runtime → List ResultColumn → List Value → ℕ → List (Option Bytes)
cells go columns [] i = []
cells go columns (v ∷ vs) i = cell go v (get_or columns i no_column) ∷ cells go columns vs (i + 1)

-- A 64-bit length describes the text.
abbrev pub Fits : Option Bytes → Type 0
Fits none = Unit
Fits (some t) = length t < 2 ^ 64

abbrev pub AllFit : List (Option Bytes) → Type 0
AllFit [] = Unit
AllFit (c ∷ cs) = Fits c × AllFit cs

-- The client: a NULL marker or a length-encoded text.
abbrev pub read_cell : Bytes → Result DecodeError (Option Bytes × ℕ)
read_cell [] = err packet_too_short
read_cell (m ∷ body) =
    if m == 0xfb
    then ok (none, 1)
    else (read_len_enc_bytes (m ∷ body) >>= λ (t, used). ok (some t, used))

abbrev pub read_cells : ℕ → Bytes → Result DecodeError (List (Option Bytes) × Bytes)
read_cells zero input = ok ([], input)
read_cells (suc n) input = read_cell input >>= λ (c, used).
    read_cells n (drop used input) >>= λ (cs, rest). ok (c ∷ cs, rest)

encoded : Option Bytes → Bytes
encoded none = 0xfb ∷ []
encoded (some t) = append_len_enc_bytes [] t

append_len_enc_bytes-onto :
    (buf value : Bytes) → append_len_enc_bytes buf value ≡ buf ++ append_len_enc_bytes [] value
unfolding append_len_enc_bytes
append_len_enc_bytes-onto buf value =
    rw (append_len_enc_int-onto buf) (append_assoc buf (append_len_enc_int [] (length value)) value)

string_lem : (buf s : Bytes) → append_len_enc_string buf s ≡ append_len_enc_bytes buf s
unfolding append_len_enc_string append_len_enc_bytes
string_lem buf s = refl

append_plain_value-text :
    (go : Runtime) (buf : Bytes) (v : Value)
    → append_plain_value go buf v ≡ append_len_enc_bytes buf (plain_text go v)
unfolding append_plain_value
append_plain_value-text go buf (bytes b) = refl
append_plain_value-text go buf (text s) = string_lem buf s
append_plain_value-text go buf (time t) = string_lem buf (format_time t)
append_plain_value-text go buf (bool true) = string_lem buf (codes "1")
append_plain_value-text go buf (bool false) = string_lem buf (codes "0")
append_plain_value-text go buf (signed_num k n) = refl
append_plain_value-text go buf (unsigned_num k n) = refl
append_plain_value-text go buf (float_num float32 x) = refl
append_plain_value-text go buf (float_num float64 x) = refl
append_plain_value-text go buf v = string_lem buf (sprint go v)

append_text_value-encoded :
    (go : Runtime) (buf : Bytes) (v : Value) (column : ResultColumn)
    → append_text_value_for_column go buf v column
      ≡ append_len_enc_bytes buf (
          if ltb 0 column.zero_fill_width
          then text_value_for_column go v column
          else plain_text go v)
unfolding append_text_value_for_column
append_text_value-encoded go buf v column = elim (Bool-cases (ltb 0 column.zero_fill_width)) [
  | inl e ↦ rw e (string_lem buf (text_value_for_column go v column))
  | inr e ↦ rw e (append_plain_value-text go buf v)
]

append_cell-encoded :
    (go : Runtime) (buf : Bytes) (v : Value) (column : ResultColumn)
    → append_cell go buf v column ≡ buf ++ encoded (cell go v column)
unfolding append_cell encoded
append_cell-encoded go buf null column = refl
append_cell-encoded go buf v column =
    append_text_value-encoded go buf v column ∙ append_len_enc_bytes-onto buf _

-- The first byte is no NULL marker.
abbrev Plain : Bytes → Type 0
Plain [] = ⊥
Plain (m ∷ body) = (m == 0xfb) ≡ false

append_len_enc_int-Plain : (n : ℕ) (rest : Bytes) → Plain (append_len_enc_int [] n ++ rest)
unfolding append_len_enc_int
append_len_enc_int-Plain n rest = ground arith

read_cell-Plain :
    (input : Bytes)
    → Plain input
    → read_cell input ≡ (read_len_enc_bytes input >>= λ (t, used). ok (some t, used))
read_cell-Plain [] p = absurd p
read_cell-Plain (m ∷ body) p = rw p

read_cell-encoded :
    (c : Option Bytes) (rest : Bytes)
    → Fits c
    → read_cell (encoded c ++ rest) ≡ ok (c, length (encoded c))
unfolding encoded
read_cell-encoded none rest h = refl
read_cell-encoded (some t) rest h =
    let head = append_len_enc_int [] (length t) in
    let whole : append_len_enc_bytes [] t ++ rest ≡ head ++ (t ++ rest) =
      (unfold append_len_enc_bytes in append_assoc head t rest) in
    read_cell-Plain (append_len_enc_bytes [] t ++ rest)
      (subst Plain (sym whole) (append_len_enc_int-Plain (length t) (t ++ rest)))
    ∙ rw (read-append_len_enc_bytes t rest h)

render : List (Option Bytes) → Bytes
render [] = []
render (c ∷ cs) = encoded c ++ render cs

text_row_from-render :
    (go : Runtime) (columns : List ResultColumn) (values : List Value) (i : ℕ) (payload : Bytes)
    → text_row_from go columns values i payload ≡ payload ++ render (cells go columns values i)
unfolding text_row_from render
text_row_from-render go columns [] i payload = sym (append-nil payload)
text_row_from-render go columns (v ∷ vs) i payload =
    text_row_from-render go columns vs (i + 1)
      (append_cell go payload v (get_or columns i no_column))
    ∙ rw (append_cell-encoded go payload v (get_or columns i no_column))
        (append_assoc payload _ (render (cells go columns vs (i + 1))))

read_cells-render :
    (cs : List (Option Bytes)) (rest : Bytes)
    → AllFit cs
    → read_cells (length cs) (render cs ++ rest) ≡ ok (cs, rest)
unfolding render
read_cells-render [] rest h = refl
read_cells-render (c ∷ cs) rest h = rw (append_assoc (encoded c) (render cs) rest) (
    rw (read_cell-encoded c (render cs ++ rest) h.0) (
      rw (drop-length_append (encoded c) (render cs ++ rest)) (rw (read_cells-render cs rest h.1))))

length-cells :
    (go : Runtime) (columns : List ResultColumn) (values : List Value) (i : ℕ)
    → length (cells go columns values i) ≡ length values
length-cells go columns [] i = refl
length-cells go columns (v ∷ vs) i = ap suc (length-cells go columns vs (i + 1))

-- A client that reads as many cells as the row has values gets, of each value, NULL or its
-- text (padded where the column has a zero-fill width), and nothing is left over; each text
-- has a length that 64 bits describe.
pub read_cells-text_row :
    (go : Runtime) (columns : List ResultColumn) (values : List Value)
    → AllFit (cells go columns values 0)
    → read_cells (length values) (text_row go columns values) ≡ ok (cells go columns values 0, [])
unfolding text_row
read_cells-text_row go columns values h =
    let cs = cells go columns values 0 in
    rw (← length-cells go columns values 0) (
      ap (read_cells (length cs))
        (text_row_from-render go columns values 0 [] ∙ sym (append-nil (render cs)))
      ∙ read_cells-render cs [] h)
