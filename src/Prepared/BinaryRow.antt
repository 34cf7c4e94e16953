-- ===== src/Prepared/BinaryRow.antt =====
-- About the NULL bitmap of `binaryRow`.
use mysqlmock.Base.{
  ap₂, ℕ_discrete, subst, le_trans, ℕ, zero, suc, ◌+◌, ◌/◌, ◌%◌, ◌^◌, ◌≤◌, ◌<◌, ◌≡◌, refl, sym, ap,
  ◌∙◌, ◌≢◌, inl, inr, Bool, true, false, ◌&&◌, ◌||◌, List, [], ◌∷◌, arith, ◌==◌, ==_iff, Bool-cases,
  length, get_or, set, replicate, length-replicate, length-set, Bytes,
}
use mysqlmock.Value.{Value, null, bytes, Runtime}
use mysqlmock.Rows.{ResultColumn, no_column}
use mysqlmock.Prepared.Decode.{byte_at}
use mysqlmock.Prepared.Encode.{
  EncodeError, count_mismatch, append_binary_value, in_column_error, set_null_bit, encode_cell,
  binary_row_from, binary_row,
}
use mysqlmock.Prepared.Arguments.{bit_set}
use mysqlmock.Prepared.NullBits.{bit_set-bit_or, Extends, Gives, append_binary_value-Extends}
use mysqlmock.Errors.{Result, ok, err, ◌>>=◌}
use Prim.Native.Nat.{bit_or}

abbrev pub is_null : Value → Bool
is_null null = true
is_null v = false

-- The bit of value number `j` in the bitmap that stands behind the first byte.
abbrev pub row_null_bit : Bytes → ℕ → Bool
row_null_bit payload j = bit_set (byte_at payload (1 + (j + 2) / 8)) ((j + 2) % 8)

-- Of the values from number `i` on, value `j` is NULL.
abbrev pub null_at : List Value → ℕ → ℕ → Bool
null_at [] i j = false
null_at (v ∷ vs) i j = (is_null v && (i == j)) || null_at vs (i + 1) j

-- The first `n` bytes are there, and are bytes.
record Headed (n : ℕ) (payload : Bytes) : Type 0 where
  long_enough : n ≤ length payload
  byte_range : (k : ℕ) → k < n → byte_at payload k < 256

abbrev Marks : ℕ → Bytes → Bytes → (ℕ → Bool) → Type 0
Marks n before after marked =
    Headed n after
    × ((j : ℕ) → 1 + (j + 2) / 8 < n → row_null_bit after j ≡ marked j || row_null_bit before j)

byte_at-set_self : (p : Bytes) (k v : ℕ) → k < length p → byte_at (set p k v) k ≡ v
byte_at-set_self [] k v h = absurd (omega arith)
byte_at-set_self (b ∷ p) zero v h = refl
byte_at-set_self (b ∷ p) (suc k) v h = byte_at-set_self p k v (omega arith)

byte_at-set_ne : (p : Bytes) (k m v : ℕ) → k ≢ m → byte_at (set p k v) m ≡ byte_at p m
byte_at-set_ne [] k m v h = refl
byte_at-set_ne (b ∷ p) zero zero v h = absurd (h refl)
byte_at-set_ne (b ∷ p) zero (suc m) v h = refl
byte_at-set_ne (b ∷ p) (suc k) zero v h = refl
byte_at-set_ne (b ∷ p) (suc k) (suc m) v h = byte_at-set_ne p k m v (λ e. h (ap suc e))

same_byte : (i j : ℕ) → (i + 2) / 8 ≡ (j + 2) / 8 → ((i + 2) % 8 == (j + 2) % 8) ≡ (i == j)
same_byte i j h = ground arith

set_null_bit-Marks :
    (n : ℕ) (p : Bytes) (i : ℕ)
    → Headed n p
    → 1 + (i + 2) / 8 < n
    → Marks n p (set_null_bit p i) (λ j. i == j)
unfolding set_null_bit
set_null_bit-Marks n p i g h =
    let k = 1 + (i + 2) / 8 in
    let v = bit_or (byte_at p k) (2 ^ ((i + 2) % 8)) in
    let in_range : k < length p = le_trans h g.long_enough in
    let set_bit = λ (j : ℕ).
      bit_set-bit_or (byte_at p k) ((i + 2) % 8) ((j + 2) % 8) (g.byte_range k h) (omega arith)
        (omega arith) in
    (
      record {
        long_enough = omega (arith, length-set p k v, g.long_enough);
        byte_range = λ m hm. elim (ℕ_discrete k m) [
          | yes e ↦
              subst (λ x. byte_at (set p k v) x < 256) e
                (rw (byte_at-set_self p k v in_range) (set_bit 0).1)
          | no ne ↦ rw (byte_at-set_ne p k m v ne) (g.byte_range m hm)
        ];
      },
      λ j hj. elim (ℕ_discrete k (1 + (j + 2) / 8)) [
        | yes e ↦
            ap (λ x. bit_set (byte_at (set p k v) x) ((j + 2) % 8)) (sym e)
            ∙ ap (λ b. bit_set b ((j + 2) % 8)) (byte_at-set_self p k v in_range)
            ∙ (set_bit j).0
            ∙ ap₂ ◌||◌ (same_byte i j (omega arith))
                (ap (λ x. bit_set (byte_at p x) ((j + 2) % 8)) e)
        | no ne ↦
            ap (λ b. bit_set b ((j + 2) % 8)) (byte_at-set_ne p k (1 + (j + 2) / 8) v ne)
            ∙ ap (λ b. b || row_null_bit p j) (other_bit i j ne)
      ],
    )
  where
    other_bit : (a b : ℕ) → 1 + (a + 2) / 8 ≢ 1 + (b + 2) / 8 → false ≡ (a == b)
    other_bit a b ne = ground arith

Extends-Marks : (n : ℕ) (p out : Bytes) → Headed n p → Extends p out → Marks n p out (λ j. false)
Extends-Marks n p out g e =
    let kept = λ (k : ℕ) (h : k < n). e.1 k (le_trans h g.long_enough) in
    (
      record {
        long_enough = le_trans g.long_enough e.0;
        byte_range = λ k h. rw (kept k h) (g.byte_range k h);
      },
      λ j hj. ap (λ b. bit_set b ((j + 2) % 8)) (kept (1 + (j + 2) / 8) hj),
    )

in_column-Gives :
    (P : Bytes → Type 0) (name : Bytes) (r : Result EncodeError Bytes) {out : Bytes}
    → Gives P r
    → in_column_error name r ≡ ok out
    → P out
unfolding in_column_error
in_column-Gives P name (ok a) g h = subst (Gives P) h g
in_column-Gives P name (err e) g h = cc

value-Marks :
    (go : Runtime) (n : ℕ) (p : Bytes) (column : ResultColumn) (v : Value) {out : Bytes}
    → Headed n p
    → in_column_error column.name (append_binary_value go p column.field_type v) ≡ ok out
    → Marks n p out (λ j. false)
value-Marks go n p column v {out} g h = Extends-Marks n p out g (
    in_column-Gives (Extends p) column.name (append_binary_value go p column.field_type v)
      (append_binary_value-Extends go p column.field_type v) h)

encode_cell-Marks :
    (go : Runtime) (n : ℕ) (p : Bytes) (column : ResultColumn) (i : ℕ) (v : Value) {out : Bytes}
    → Headed n p
    → 1 + (i + 2) / 8 < n
    → encode_cell go p column i v ≡ ok out
    → Marks n p out (λ j. is_null v && (i == j))
encode_cell-Marks go n p column i null {out} g h e =
    let built : ◌≡◌ {A = Result EncodeError Bytes} (ok (set_null_bit p i)) (ok out) =
      (unfold encode_cell in e) in
    subst (λ r. Gives (λ o. Marks n p o (λ j. i == j)) r) built (set_null_bit-Marks n p i g h)
encode_cell-Marks go n p column i (bytes b) {out} g h e =
    value-Marks go n p column (bytes b) g (unfold encode_cell in e)
encode_cell-Marks go n p column i v {out} g h e =
    value-Marks go n p column v g (unfold encode_cell in e)

bind-ok :
    {A B : Type 0} (m : Result EncodeError A) (f : A → Result EncodeError B) {b : B}
    → (m >>= f) ≡ ok b
    → (a : A) × (m ≡ ok a) × (f a ≡ ok b)
bind-ok (ok a) f h = (a, refl, h)
bind-ok (err e) f h = cc

either : (a b c : Bool) → (a || (b || c)) ≡ ((b || a) || c)
either true true c = refl
either true false c = refl
either false true c = refl
either false false c = refl

binary_row_from-Marks :
    (go : Runtime) (n : ℕ) (columns : List ResultColumn) (values : List Value) (i : ℕ) (p : Bytes)
    {out : Bytes}
    → Headed n p
    → 1 + (i + length values + 1) / 8 < n
    → binary_row_from go columns values i p ≡ ok out
    → Marks n p out (null_at values i)
unfolding binary_row_from
binary_row_from-Marks go n columns [] i p g h e =
    subst (λ r. Gives (λ out. Marks n p out (λ j. false)) r) e (g, λ j hj. refl)
binary_row_from-Marks go n columns (v ∷ vs) i p {out} g h e =
    let (mid, first, later) =
      bind-ok (encode_cell go p (get_or columns i no_column) i v)
        (binary_row_from go columns vs (i + 1)) e in
    let (g1, m1) =
      encode_cell-Marks go n p (get_or columns i no_column) i v g (omega arith) first in
    let (g2, m2) = binary_row_from-Marks go n columns vs (i + 1) mid g1 (omega arith) later in
    (
      g2,
      λ j hj.
          m2 j hj
          ∙ ap (λ b. null_at vs (i + 1) j || b) (m1 j hj)
          ∙ either (null_at vs (i + 1) j) (is_null v && (i == j)) (row_null_bit p j),
    )

byte_at-zeros : (n k : ℕ) → byte_at (replicate n 0) k ≡ 0
byte_at-zeros zero k = refl
byte_at-zeros (suc n) zero = refl
byte_at-zeros (suc n) (suc k) = byte_at-zeros n k

-- In a binary row that is built, the bit of each value in the bitmap says whether it is NULL.
pub binary_row_null_bits :
    (go : Runtime) (columns : List ResultColumn) (values : List Value) (payload : Bytes) (j : ℕ)
    → binary_row go columns values ≡ ok payload
    → j < length values
    → row_null_bit payload j ≡ null_at values 0 j
unfolding binary_row
binary_row_null_bits go columns values payload j h lt =
    elim (Bool-cases (length values == length columns)) [
      | inr differ ↦ absurd (no_row (rw differ at h))
      | inl equal ↦
          let n = 1 + (length columns + 7 + 2) / 8 in
          let zeros : Bytes = replicate n 0 in
          let headed : Headed n zeros = record {
            long_enough = omega (arith, length-replicate {A = ℕ} n 0);
            byte_range = λ k hk. rw (byte_at-zeros n k) (omega arith);
          } in
          let len : length values ≡ length columns =
            (==_iff (length values) (length columns)).0 equal in
          let (g, m) =
            binary_row_from-Marks go n columns values 0 zeros headed (omega arith)
              (rw equal at h) in
          m j (omega arith)
          ∙ ap (λ b. null_at values 0 j || bit_set b ((j + 2) % 8))
              (byte_at-zeros n (1 + (j + 2) / 8))
          ∙ no_bit (null_at values 0 j) ((j + 2) % 8)
    ]
  where
    no_row : err count_mismatch ≡ ok payload → ⊥
    no_row e = cc

    no_bit : (b : Bool) (k : ℕ) → b || bit_set 0 k ≡ b
    no_bit b k = ground arith
