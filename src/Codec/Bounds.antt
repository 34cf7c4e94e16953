-- ===== src/Codec/Bounds.antt =====
-- About the sizes in `appendLenEncInt`, `readLenEncInt` and `readLenEncBytes`.
use mysqlmock.Base.{
  ℕ, ◌+◌, ◌-◌, ◌^◌, ◌<◌, ◌≤◌, ◌≡◌, refl, Bool, true, false, [], ◌∷◌, Bytes, length, ltb, arith,
  if◌then◌else◌, length-take, drop,
}
use mysqlmock.Errors.{Result, ok, err, ◌>>=◌, DecodeError}
use mysqlmock.Codec.{append_len_enc_int, read_len_enc_int, read_len_enc_bytes, slice_value}

-- A number takes one, three, four or nine bytes, by its size.
pub length-append_len_enc_int :
    (n : ℕ)
    → length (append_len_enc_int [] n)
      ≡ (if ltb n 251 then 1 else if ltb n (2 ^ 16) then 3 else if ltb n (2 ^ 24) then 4 else 9)
unfolding append_len_enc_int
length-append_len_enc_int n = ground arith

-- The reader never goes past the end of its input.
pub read_len_enc_int-le :
    (input : Bytes) {n used : ℕ} {null : Bool}
    → read_len_enc_int input ≡ ok (n, used, null)
    → (0 < used) × (used ≤ length input)
unfolding read_len_enc_int
read_len_enc_int-le [] h = ground arith
read_len_enc_int-le (m ∷ body) h = ground arith

slice_value-le :
    (input : Bytes) (n start : ℕ) (null : Bool) {value : Bytes} {used : ℕ}
    → start ≤ length input
    → slice_value input (n, start, null) ≡ ok (value, used)
    → (start ≤ used) × (used ≤ length input) × (length value ≤ used - start)
unfolding slice_value
slice_value-le input n start true b h = ground arith
slice_value-le input n start false b h =
    ground (arith, length-take (start + n - start) (drop start input))

-- A value that was read lies within the input, and so does the end that the reader reports.
pub read_len_enc_bytes-le :
    (input : Bytes) {value : Bytes} {used : ℕ}
    → read_len_enc_bytes input ≡ ok (value, used)
    → (0 < used) × (used ≤ length input) × (length value < used)
unfolding read_len_enc_bytes
read_len_enc_bytes-le input h = from (read_len_enc_int input) refl h
  where
    from :
        (r : Result DecodeError (ℕ × ℕ × Bool)) {value : Bytes} {used : ℕ}
        → read_len_enc_int input ≡ r
        → (r >>= slice_value input) ≡ ok (value, used)
        → (0 < used) × (used ≤ length input) × (length value < used)
    from (ok (n, start, null)) e h =
        let (p, q) = read_len_enc_int-le input e in
        let (a, b, c) = slice_value-le input n start null q h in (omega arith, b, omega arith)
    from (err e) _ h = cc
