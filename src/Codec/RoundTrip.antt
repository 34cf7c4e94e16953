-- ===== src/Codec/RoundTrip.antt =====
-- About `appendLenEncInt`, `appendLenEncBytes`, `readLenEncInt` and `readLenEncBytes` together.
use mysqlmock.Base.{
  leb, inr, inl, ltb, Bool-cases, ℕ, ◌+◌, ◌-◌, ◌^◌, ◌<◌, ◌≡◌, ap, ◌∙◌, false, [], ◌++◌, Bytes,
  length, take, arith, append_assoc, length-append, take-length_append, drop-length_append, ge→ltb,
  slice,
}
use mysqlmock.Errors.{ok, ◌>>=◌}
use mysqlmock.Codec.{
  append_len_enc_int, append_len_enc_bytes, read_len_enc_int, read_len_enc_bytes, slice_value,
}

-- Reading a length-encoded 64-bit number gives the number and the bytes that its encoding
-- takes, whatever stands behind it.
pub read-append_len_enc_int :
    (n : ℕ) (rest : Bytes)
    → n < 2 ^ 64
    → read_len_enc_int (append_len_enc_int [] n ++ rest)
      ≡ ok (n, length (append_len_enc_int [] n), false)
unfolding read_len_enc_int append_len_enc_int
read-append_len_enc_int n rest h = ground arith

-- The encoder appends: what stood in the buffer stays in front.
pub append_len_enc_int-onto :
    (buf : Bytes) (n : ℕ) → append_len_enc_int buf n ≡ buf ++ append_len_enc_int [] n
unfolding append_len_enc_int
append_len_enc_int-onto buf n = elim (Bool-cases (ltb n 251)) [
  | inl a ↦ rw a
  | inr a ↦ rw a (elim (Bool-cases (leb n 0xffff)) [
    | inl b ↦ rw b (simp append_assoc)
    | inr b ↦
        rw b
          (elim (Bool-cases (leb n 0xff_ffff)) [ inl c ↦ rw c | inr c ↦ rw c (simp append_assoc) ])
  ])
]

pub slice-append :
    (head value rest : Bytes)
    → slice (head ++ value ++ rest) (length head) (length head + length value) ≡ value
slice-append head value rest =
    rw (append_assoc, drop-length_append)
      (ap (λ (k : ℕ). take k (value ++ rest)) gap ∙ take-length_append value rest)
  where
    gap : length head + length value - length head ≡ length value
    gap = omega arith

slice_value-append :
    (head value rest : Bytes)
    → slice_value (head ++ value ++ rest) (length value, length head, false)
      ≡ ok (value, length head + length value)
unfolding slice_value
slice_value-append head value rest =
    rw
      (ge→ltb (length (head ++ value ++ rest) - length head) (length value)
        (omega (arith, length-append (head ++ value) rest, length-append head value)))
      (rw (slice-append head value rest))

-- A length-encoded byte string reads back whole, and the reader stops behind it.
pub read-append_len_enc_bytes :
    (value rest : Bytes)
    → length value < 2 ^ 64
    → read_len_enc_bytes (append_len_enc_bytes [] value ++ rest)
      ≡ ok (value, length (append_len_enc_bytes [] value))
unfolding read_len_enc_bytes append_len_enc_bytes
read-append_len_enc_bytes value rest h =
    let head = append_len_enc_int [] (length value) in
    ap (λ r. r >>= slice_value (head ++ value ++ rest))
      (ap read_len_enc_int (append_assoc head value rest)
        ∙ read-append_len_enc_int (length value) (value ++ rest) h)
    ∙ slice_value-append head value rest
    ∙ rw (length-append head value)
