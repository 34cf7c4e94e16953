-- ===== src/Errors.antt =====
-- Errors of the protocol code, and the result of a step that may fail.
use mysqlmock.Base.{ℕ}

-- The errors that reading a packet's fields gives (prepared.go).
pub data DecodeError : Type 0 where
  packet_too_short : DecodeError
  invalid_marker : ℕ → DecodeError
  invalid_datetime_length : ℕ → DecodeError
  invalid_time_length : ℕ → DecodeError
  unsupported_type : ℕ → DecodeError
  malformed_header : DecodeError
  malformed_types : DecodeError
  types_omitted : DecodeError
  in_parameter : ℕ → DecodeError → DecodeError
  malformed_values : DecodeError

pub data Result {ℓ} (E A : Type ℓ) : Type ℓ where
  ok : A → Result E A
  err : E → Result E A

infixl 5 ◌>>=◌
abbrev pub ◌>>=◌ {ℓ} : {E A B : Type ℓ} → Result E A → (A → Result E B) → Result E B
ok a >>= f = f a
err e >>= f = err e
