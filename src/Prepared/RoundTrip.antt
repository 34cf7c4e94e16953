-- ===== src/Prepared/RoundTrip.antt =====
-- About `appendBinaryValue` and `decodePreparedValue` together.
use mysqlmock.Codec.{append_len_enc_bytes}
use mysqlmock.Codec.RoundTrip.{read-append_len_enc_bytes}
use mysqlmock.Base.{
  ◌/◌, ltb, ◌%◌, ◌<◌, length, subst, ℕ, ◌^◌, ◌≡◌, sym, ◌⊎◌, inl, inr, true, false, List, [], ◌∷◌,
  ◌++◌, arith, ◌==◌, if◌then◌else◌, ==_iff, Bool-cases, Bytes,
}
use mysqlmock.Value.{bytes, text, Time, text_value, int64, signed_num, Runtime}
use mysqlmock.Prepared.Decode.{
  zero_time, blob_types, decode_binary_date_time, string_types, one_of, decode_prepared_value,
}
use mysqlmock.Prepared.Encode.{append_time, is_zero_time, EncodeError, append_binary_value}
use mysqlmock.Rows.FieldType
use mysqlmock.Base.Int.{ℤ, pos, negsuc, InRange}
use mysqlmock.Errors.{Result, ok, err}

-- The bytes that an integer field takes.
abbrev pub int_width : ℕ → ℕ
int_width t =
    if t == FieldType.tiny
    then 1
    else if one_of t (FieldType.short ∷ FieldType.year ∷ [])
    then 2
    else if one_of t (FieldType.long ∷ FieldType.int24 ∷ [])
    then 4
    else 8

abbrev pub int_types : List ℕ
int_types =
    FieldType.tiny ∷ FieldType.short ∷ FieldType.year ∷ FieldType.long ∷ FieldType.int24
    ∷ FieldType.long_long ∷ []

-- What the encoder gave, as a client sends it.
abbrev pub encoding : Result EncodeError Bytes → Bytes
encoding (ok b) = b
encoding (err e) = []

abbrev ReadsBack : Runtime → ℕ → Type 0
ReadsBack go t =
    (n : ℤ) (rest : Bytes)
    → InRange (256 ^ int_width t) n
    → decode_prepared_value go (encoding (append_binary_value go [] t (signed_num int64 n)) ++ rest)
        (record { field_type = t; is_unsigned = false })
      ≡ ok (signed_num int64 n, int_width t)

tiny_lem : (go : Runtime) → ReadsBack go FieldType.tiny
unfolding decode_prepared_value append_binary_value
tiny_lem go (pos n) rest h = ground arith
tiny_lem go (negsuc n) rest h = ground arith

short_lem : (go : Runtime) → ReadsBack go FieldType.short
unfolding decode_prepared_value append_binary_value
short_lem go (pos n) rest h = ground arith
short_lem go (negsuc n) rest h = ground arith

year_lem : (go : Runtime) → ReadsBack go FieldType.year
unfolding decode_prepared_value append_binary_value
year_lem go (pos n) rest h = ground arith
year_lem go (negsuc n) rest h = ground arith

long_lem : (go : Runtime) → ReadsBack go FieldType.long
unfolding decode_prepared_value append_binary_value
long_lem go (pos n) rest h = ground arith
long_lem go (negsuc n) rest h = ground arith

int24_lem : (go : Runtime) → ReadsBack go FieldType.int24
unfolding decode_prepared_value append_binary_value
int24_lem go (pos n) rest h = ground arith
int24_lem go (negsuc n) rest h = ground arith

long_long_lem : (go : Runtime) → ReadsBack go FieldType.long_long
unfolding decode_prepared_value append_binary_value
long_long_lem go (pos n) rest h = ground arith
long_long_lem go (negsuc n) rest h = ground arith

one_of-cases : (t k : ℕ) (ks : List ℕ) → one_of t (k ∷ ks) ≡ true → (t ≡ k) ⊎ (one_of t ks ≡ true)
one_of-cases t k ks h = elim (Bool-cases (t == k)) [
  | inl e ↦ inl ((==_iff t k).0 e)
  | inr e ↦ inr (rw e at h)
]

abbrev AllTypes : (ℕ → Type 0) → List ℕ → Type 0
AllTypes P [] = Unit
AllTypes P (k ∷ ks) = P k × AllTypes P ks

all_read_back : (go : Runtime) → AllTypes (ReadsBack go) int_types
all_read_back go = (
  tiny_lem go,
  (short_lem go, (year_lem go, (long_lem go, (int24_lem go, (long_long_lem go, tt))))),
)

-- Every signed integer of the field's width reads back from its encoding, whatever follows.
pub decode-append_int :
    (go : Runtime) (t : ℕ) (n : ℤ) (rest : Bytes)
    → one_of t int_types ≡ true
    → InRange (256 ^ int_width t) n
    → decode_prepared_value go
        (encoding (append_binary_value go [] t (signed_num int64 n)) ++ rest)
        (record { field_type = t; is_unsigned = false })
      ≡ ok (signed_num int64 n, int_width t)
decode-append_int go t n rest m = among int_types (all_read_back go) m n rest
  where
    among : (ks : List ℕ) → AllTypes (ReadsBack go) ks → one_of t ks ≡ true → ReadsBack go t
    among [] all h = cc
    among (k ∷ ks) all h = elim (one_of-cases t k ks h) [
      | inl e ↦ subst (ReadsBack go) (sym e) all.0
      | inr later ↦ among ks all.1 later
    ]

abbrev TextReadsBack : Runtime → ℕ → Type 0
TextReadsBack go t =
    (s rest : Bytes)
    → length s < 2 ^ 64
    → decode_prepared_value go (encoding (append_binary_value go [] t (text s)) ++ rest)
        (record { field_type = t; is_unsigned = false })
      ≡ ok (text s, length (append_len_enc_bytes [] s))

abbrev BlobReadsBack : Runtime → ℕ → Type 0
BlobReadsBack go t =
    (s rest : Bytes)
    → length s < 2 ^ 64
    → decode_prepared_value go (encoding (append_binary_value go [] t (bytes s)) ++ rest)
        (record { field_type = t; is_unsigned = false })
      ≡ ok (bytes s, length (append_len_enc_bytes [] s))

module _ (go : Runtime) where
  all_texts_read_back : AllTypes (TextReadsBack go) string_types
  unfolding decode_prepared_value append_binary_value text_value
  all_texts_read_back =
      let by_length =
        λ (s rest : Bytes) (h : length s < 2 ^ 64). read-append_len_enc_bytes s rest h in
      (
        λ s rest h. rw (by_length s rest h),
        (
          λ s rest h. rw (by_length s rest h),
          (
            λ s rest h. rw (by_length s rest h),
            (
              λ s rest h. rw (by_length s rest h),
              (
                λ s rest h. rw (by_length s rest h),
                (λ s rest h. rw (by_length s rest h), (λ s rest h. rw (by_length s rest h), tt)),
              ),
            ),
          ),
        ),
      )

  all_blobs_read_back : AllTypes (BlobReadsBack go) blob_types
  unfolding decode_prepared_value append_binary_value text_value
  all_blobs_read_back =
      let by_length =
        λ (s rest : Bytes) (h : length s < 2 ^ 64). read-append_len_enc_bytes s rest h in
      (
        λ s rest h. rw (by_length s rest h),
        (
          λ s rest h. rw (by_length s rest h),
          (
            λ s rest h. rw (by_length s rest h),
            (
              λ s rest h. rw (by_length s rest h),
              (
                λ s rest h. rw (by_length s rest h),
                (λ s rest h. rw (by_length s rest h), (λ s rest h. rw (by_length s rest h), tt)),
              ),
            ),
          ),
        ),
      )

  among_types : (P : ℕ → Type 0) (ks : List ℕ) (t : ℕ) → AllTypes P ks → one_of t ks ≡ true → P t
  among_types P [] t all h = cc
  among_types P (k ∷ ks) t all h = elim (one_of-cases t k ks h) [
    | inl e ↦ subst P (sym e) all.0
    | inr later ↦ among_types P ks t all.1 later
  ]

-- A text in a field of a string type reads back whole from its encoding, whatever follows, if 64
-- bits describe its length.
pub decode-append_text :
    (go : Runtime) (t : ℕ) (s rest : Bytes)
    → one_of t string_types ≡ true
    → length s < 2 ^ 64
    → decode_prepared_value go
        (encoding (append_binary_value go [] t (text s)) ++ rest)
        (record { field_type = t; is_unsigned = false })
      ≡ ok (text s, length (append_len_enc_bytes [] s))
decode-append_text go t s rest m h =
    among_types go (TextReadsBack go) string_types t (all_texts_read_back go) m s rest h

-- Bytes in a field of a blob type read back whole from their encoding, whatever follows, if 64
-- bits describe their length.
pub decode-append_blob :
    (go : Runtime) (t : ℕ) (s rest : Bytes)
    → one_of t blob_types ≡ true
    → length s < 2 ^ 64
    → decode_prepared_value go
        (encoding (append_binary_value go [] t (bytes s)) ++ rest)
        (record { field_type = t; is_unsigned = false })
      ≡ ok (bytes s, length (append_len_enc_bytes [] s))
decode-append_blob go t s rest m h =
    among_types go (BlobReadsBack go) blob_types t (all_blobs_read_back go) m s rest h

-- A time that a binary field can hold: whole microseconds, and fields of the field's widths.
pub record Holds (t : Time) : Type 0 where
  pub year_fits : t.year < 2 ^ 16
  pub month_fits : t.month < 256
  pub day_fits : t.day < 256
  pub hour_fits : t.hour < 256
  pub minute_fits : t.minute < 256
  pub second_fits : t.second < 256
  pub micro_fits : t.nanosecond < 10 ^ 9
  pub whole_micro : t.nanosecond % 1000 ≡ 0

-- Year one's first instant is the zero time, which is sent as a length of zero.
time_eq : (t : Time) → is_zero_time t ≡ true → t ≡ zero_time
time_eq t h = ground arith

-- A time reads back from its binary encoding, whatever follows, where time.Date keeps its
-- fields as they are.
pub decode-append_date_time :
    (go : Runtime) (t : Time) (rest : Bytes)
    → Holds t
    → go.date t.year t.month t.day t.hour t.minute t.second t.nanosecond ≡ t
    → decode_binary_date_time go (append_time [] t ++ rest) ≡ ok (t, length (append_time [] t))
unfolding decode_binary_date_time append_time
decode-append_date_time go t rest h e = elim (Bool-cases (is_zero_time t)) [
  | inl zero ↦ rw zero (ground (arith, time_eq t zero))
  | inr more ↦ elim (Bool-cases (ltb 0 (t.nanosecond / 1000))) [
    | inl micro ↦ rw more (rw micro (ground (arith, e)))
    | inr whole ↦ rw more (rw whole (ground (arith, e)))
  ]
]
