-- ===== src/Base/Decimal.antt =====
-- Decimal numerals: what the program uses of Go's package `strconv`.
use Prim.Native.Nat.{ℕ, zero, suc, ◌+◌, ◌-◌, ◌*◌, ◌/◌, ◌%◌, ◌≤◌}
use mathlib.Core.Path.{◌≡◌, ◌∙◌}
use mathlib.Core.Logic.{inl, inr}
use mathlib.Core.Bool.{Bool, ◌&&◌}
use mathlib.Core.Option.{Option, none, some}
use mathlib.Core.List.{[], ◌∷◌}
use native.Mathlib.Omega.{arith}
use mysqlmock.Base.Tests.{ltb, leb, if◌then◌else◌, Bool-cases}
use mysqlmock.Base.Text.{Bytes}
use mysqlmock.Base.Int.{ℤ, pos, negsuc}

-- The digits of `n` in front of `tail`; `n` rounds are enough.
digits_onto : ℕ → ℕ → Bytes → Bytes
digits_onto zero n tail = (b'0' + n % 10) ∷ tail
digits_onto (suc fuel) n tail =
    let more = digits_onto fuel (n / 10) ((b'0' + n % 10) ∷ tail) in
    if ltb n 10 then (b'0' + n) ∷ tail else more

-- strconv.FormatUint(n, 10).
unfoldable pub format_uint : ℕ → Bytes
unfolding digits_onto
format_uint n = digits_onto n n []

-- strconv.FormatInt(n, 10).
unfoldable pub format_int : ℤ → Bytes
unfolding format_uint
format_int (pos n) = format_uint n
format_int (negsuc n) = b'-' ∷ format_uint (n + 1)

abbrev pub is_digit : ℕ → Bool
is_digit c = leb b'0' c && leb c b'9'

-- The number that the digits `cs` make behind the digits of `acc`.
unfoldable pub digits_value : ℕ → Bytes → Option ℕ
digits_value acc [] = some acc
digits_value acc (c ∷ cs) =
    let later = digits_value (acc * 10 + (c - b'0')) cs in if is_digit c then later else none

digits_onto-value :
    (fuel n : ℕ) (tail : Bytes)
    → n ≤ fuel
    → digits_value 0 (digits_onto fuel n tail) ≡ digits_value n tail
unfolding digits_onto digits_value
digits_onto-value zero n tail h = ground arith
digits_onto-value (suc fuel) n tail h = elim (Bool-cases (ltb n 10)) [
  | inl small ↦ ground arith
  | inr large ↦
      rw large (
        digits_onto-value fuel (n / 10) ((b'0' + n % 10) ∷ tail) (ground arith) ∙ ground (arith, n))
]

-- Reading back the digits of a number gives the number.
pub digits_value-format_uint : (n : ℕ) → digits_value 0 (format_uint n) ≡ some n
unfolding format_uint digits_value
digits_value-format_uint n = digits_onto-value n n [] (omega arith)
