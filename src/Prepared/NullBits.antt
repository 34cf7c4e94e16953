-- ===== src/Prepared/NullBits.antt =====
-- Bits of a byte, and the bytes that `appendBinaryValue` leaves in place.
use mysqlmock.Codec.RoundTrip.{append_len_enc_int-onto}
use mysqlmock.Codec.{append_len_enc_bytes, append_uint64, append_uint32, append_uint16}
use mysqlmock.Prepared.Decode.{date_types, one_of, byte_at}
use mysqlmock.Errors.{err, ◌>>=◌, ok, Result}
use mysqlmock.Value.{Time, Value, Runtime}
use mysqlmock.Prepared.Encode.{
  as_time, to_float64, is_zero_time, to_int64, append_binary_date_time, append_binary_value,
  EncodeError, date_fields, append_time,
}
use mysqlmock.Base.{
  ◌/◌, inr, inl, [], append_assoc, Bool-cases, subst, if◌then◌else◌, ◌∷◌, length-append, ◌≤◌, ◌∙◌,
  ◌++◌, length, Bytes, ℕ, zero, suc, ◌^◌, ◌<◌, ◌≡◌, refl, sym, Bool, true, false, not, ◌&&◌, ◌||◌,
  arith, ltb, ◌==◌,
}
use mysqlmock.Prepared.Arguments.{bit_set}
use mysqlmock.Rows.FieldType
use Prim.Native.Nat.{bit_or}

all_below : ℕ → (ℕ → Bool) → Bool
all_below zero p = true
all_below (suc n) p = p n && all_below n p

all_below-at : (n : ℕ) (p : ℕ → Bool) (x : ℕ) → all_below n p ≡ true → x < n → p x ≡ true
unfolding all_below
all_below-at zero p x h lt = absurd (omega arith)
all_below-at (suc n) p x h lt = ground (arith, all_below-at n p x)

abbrev same : Bool → Bool → Bool
same true b = b
same false b = not b

same-eq : (a b : Bool) → same a b ≡ true → a ≡ b
same-eq true b h = sym h
same-eq false true h = cc
same-eq false false h = refl

-- Of a byte and two bits, checked one by one.
abbrev or_check : ℕ → ℕ → ℕ → Bool
or_check b k j =
    same (bit_set (bit_or b (2 ^ k)) j) ((k == j) || bit_set b j) && ltb (bit_or b (2 ^ k)) 256

or_table : all_below 256 (λ b. all_below 8 (λ k. all_below 8 (λ j. or_check b k j))) ≡ true
unfolding all_below
or_table = refl

or_check_all : (b k j : ℕ) → b < 256 → k < 8 → j < 8 → or_check b k j ≡ true
or_check_all b k j hb hk hj =
    all_below-at 8 (λ j'. or_check b k j') j
      (all_below-at 8 (λ k'. all_below 8 (λ j'. or_check b k' j')) k
        (all_below-at 256 (λ b'. all_below 8 (λ k'. all_below 8 (λ j'. or_check b' k' j'))) b
          or_table hb)
        hk)
      hj

pub bit_set-bit_or :
    (b k j : ℕ)
    → b < 256
    → k < 8
    → j < 8
    → (bit_set (bit_or b (2 ^ k)) j ≡ (k == j) || bit_set b j) × (bit_or b (2 ^ k) < 256)
bit_set-bit_or b k j hb hk hj =
    let check = or_check_all b k j hb hk hj in
    (same-eq (bit_set (bit_or b (2 ^ k)) j) ((k == j) || bit_set b j) (ground arith), ground arith)

-- `out` goes on from `buf`: no shorter, and the same bytes where `buf` has some.
abbrev pub Extends : Bytes → Bytes → Type 0
Extends buf out =
    (length buf ≤ length out) × ((k : ℕ) → k < length buf → byte_at out k ≡ byte_at buf k)

byte_at-append :
    (buf rest : Bytes) (k : ℕ) → k < length buf → byte_at (buf ++ rest) k ≡ byte_at buf k
byte_at-append [] rest k h = absurd (omega arith)
byte_at-append (b ∷ buf) rest zero h = refl
byte_at-append (b ∷ buf) rest (suc k) h = byte_at-append buf rest k (omega arith)

Extends-append : (buf rest : Bytes) → Extends buf (buf ++ rest)
Extends-append buf rest = (omega (arith, length-append buf rest), byte_at-append buf rest)

Extends-trans : (a b c : Bytes) → Extends a b → Extends b c → Extends a c
Extends-trans a b c p q = (omega arith, λ k h. q.1 k (omega arith) ∙ p.1 k h)

Extends-append2 : (buf xs ys : Bytes) → Extends buf ((buf ++ xs) ++ ys)
Extends-append2 buf xs ys =
    Extends-trans buf (buf ++ xs) ((buf ++ xs) ++ ys) (Extends-append buf xs)
      (Extends-append (buf ++ xs) ys)

Extends-append3 : (buf xs ys zs : Bytes) → Extends buf (((buf ++ xs) ++ ys) ++ zs)
Extends-append3 buf xs ys zs =
    Extends-trans buf ((buf ++ xs) ++ ys) (((buf ++ xs) ++ ys) ++ zs) (Extends-append2 buf xs ys)
      (Extends-append ((buf ++ xs) ++ ys) zs)

-- The property holds of the bytes, if there are any.
abbrev pub Gives : (Bytes → Type 0) → Result EncodeError Bytes → Type 0
Gives P (ok out) = P out
Gives P (err e) = Unit

Gives-if :
    (P : Bytes → Type 0) (b : Bool) (x y : Result EncodeError Bytes)
    → Gives P x
    → Gives P y
    → Gives P (if b then x else y)
Gives-if P true x y p q = p
Gives-if P false x y p q = q

Gives-bind :
    {A : Type 0} (P : Bytes → Type 0) (m : Result EncodeError A) (f : A → Result EncodeError Bytes)
    → ((a : A) → Gives P (f a))
    → Gives P (m >>= f)
Gives-bind P (ok a) f p = p a
Gives-bind P (err e) f p = tt

uint16-Extends : (buf : Bytes) (n : ℕ) → Extends buf (append_uint16 buf n)
unfolding append_uint16
uint16-Extends buf n = Extends-append buf _

uint32-Extends : (buf : Bytes) (n : ℕ) → Extends buf (append_uint32 buf n)
unfolding append_uint32
uint32-Extends buf n = Extends-append buf _

uint64-Extends : (buf : Bytes) (n : ℕ) → Extends buf (append_uint64 buf n)
unfolding append_uint64
uint64-Extends buf n =
    subst (Extends buf) (sym (simp append_assoc)) (Extends-append buf (append_uint64 [] n))

bytes-Extends : (buf value : Bytes) → Extends buf (append_len_enc_bytes buf value)
unfolding append_len_enc_bytes
bytes-Extends buf value =
    rw (append_len_enc_int-onto buf (length value)) (Extends-append2 buf _ value)

date_fields-Extends : (buf : Bytes) (t : Time) → Extends buf (date_fields buf t)
unfolding date_fields append_uint16
date_fields-Extends buf t = Extends-append2 buf _ _

append_time-Extends : (buf : Bytes) (t : Time) → Extends buf (append_time buf t)
unfolding append_time
append_time-Extends buf t = elim (Bool-cases (is_zero_time t)) [
  | inl z ↦ rw z (Extends-append buf _)
  | inr n ↦ rw n (elim (Bool-cases (ltb 0 (t.nanosecond / 1000))) [
    | inl m ↦ rw m (
        Extends-trans buf _ _ (Extends-append buf (0x0b ∷ [])) (
          Extends-trans _ _ _ (date_fields-Extends (buf ++ 0x0b ∷ []) t)
            (uint32-Extends (date_fields (buf ++ 0x0b ∷ []) t) (t.nanosecond / 1000))))
    | inr w ↦ rw w (
        Extends-trans buf _ _ (Extends-append buf (0x07 ∷ []))
          (date_fields-Extends (buf ++ 0x07 ∷ []) t))
  ])
]

pub append_binary_value-Extends :
    (go : Runtime) (buf : Bytes) (t : ℕ) (v : Value)
    → Gives (Extends buf) (append_binary_value go buf t v)
unfolding append_binary_value append_binary_date_time
append_binary_value-Extends go buf t v =
    let P = Extends buf in
    Gives-if P (t == FieldType.tiny) _ _ (Gives-bind P (to_int64 v) _ (λ n. Extends-append buf _)) (
      Gives-if P (one_of t (FieldType.short ∷ FieldType.year ∷ [])) _ _
        (Gives-bind P (to_int64 v) _ (λ n. uint16-Extends buf _))
        (Gives-if P (one_of t (FieldType.long ∷ FieldType.int24 ∷ [])) _ _
          (Gives-bind P (to_int64 v) _ (λ n. uint32-Extends buf _))
          (Gives-if P (t == FieldType.long_long) _ _
            (Gives-bind P (to_int64 v) _ (λ n. uint64-Extends buf _))
            (Gives-if P (t == FieldType.float) _ _
              (Gives-bind P (to_float64 go v) _ (λ n. uint32-Extends buf _))
              (Gives-if P (t == FieldType.double) _ _
                (Gives-bind P (to_float64 go v) _ (λ n. uint64-Extends buf _))
                (Gives-if P (one_of t date_types) _ _
                  (Gives-bind P (as_time go v) _ (λ u. append_time-Extends buf u))
                  (bytes-Extends buf _)))))))
