-- ===== src/Base/Int.antt =====
-- Signed integers over the native numbers, and their two's complement words.
use Prim.Native.Nat.{ℕ, ◌-◌, ◌/◌, ◌%◌, ◌<◌}
use mathlib.Core.Bool.{Bool, false}
use mysqlmock.Base.Tests.{ltb, if◌then◌else◌}

-- `negsuc n` is -(n + 1).
pub data ℤ : Type 0 where
  pos : ℕ → ℤ
  negsuc : ℕ → ℤ

-- The number that a word of modulus `m` (a power of two) stands for as a signed integer.
abbrev pub signed : ℕ → ℕ → ℤ
signed m w = if ltb w (m / 2) then pos w else negsuc (m - w - 1)

-- The word of modulus `m` that a conversion from a signed integer gives.
abbrev pub word : ℕ → ℤ → ℕ
word m (pos n) = n % m
word m (negsuc n) = m - 1 - n % m

-- The values of a signed integer of modulus `m`.
abbrev pub InRange : ℕ → ℤ → Type 0
InRange m (pos n) = n < m / 2
InRange m (negsuc n) = n < m / 2

-- `n <= 0`, `n > 0`
abbrev pub is_positive : ℤ → Bool
is_positive (pos n) = ltb 0 n
is_positive (negsuc n) = false
