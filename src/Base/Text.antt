-- ===== src/Base/Text.antt =====
-- Byte strings: Go's `string` and `[]byte` as lists of numbers, and what the program uses of
-- Go's package `strings`, on ASCII texts.
use Prim.Native.Char.{code}
use Prim.Native.String.{String}
use Prim.Native.Nat.{ℕ, ◌+◌, ◌-◌}
use mathlib.Core.Path.{◌≡◌, refl}
use mathlib.Core.Logic.{◌↔◌}
use mathlib.Core.Bool.{Bool, true, false, ◌&&◌, ◌||◌}
use mathlib.Core.Option.{Option, none, some}
use mathlib.Core.List.{List, [], ◌∷◌, ◌++◌, map, reverse}
use native.Mathlib.Omega.{arith}
use mysqlmock.Base.Tests.{◌==◌, leb, if◌then◌else◌}
use mysqlmock.Base.Lists.{length, drop, take}

abbrev pub Bytes : Type 0
Bytes = List ℕ

-- The code points of a literal: its bytes, if it is ASCII.
abbrev pub codes : String → Bytes
codes String.[] = []
codes (String.◌∷◌ c s) = code c ∷ codes s

-- `a == b` on strings.
unfoldable pub beq : Bytes → Bytes → Bool
beq [] [] = true
beq [] (y ∷ ys) = false
beq (x ∷ xs) [] = false
beq (x ∷ xs) (y ∷ ys) = (x == y) && beq xs ys

pub beq_iff : (a b : Bytes) → (beq a b ≡ true) ↔ (a ≡ b)
unfolding beq
beq_iff [] [] = ground arith
beq_iff [] (y ∷ ys) = ground arith
beq_iff (x ∷ xs) [] = ground arith
beq_iff (x ∷ xs) (y ∷ ys) = ground (arith, beq_iff xs ys)

pub beq_refl : (a : Bytes) → beq a a ≡ true
beq_refl a = (beq_iff a a).1 refl

-- ASCII case folding, one byte at a time.
abbrev pub lower_byte : ℕ → ℕ
lower_byte c = if leb b'A' c && leb c b'Z' then c + 32 else c

abbrev pub upper_byte : ℕ → ℕ
upper_byte c = if leb b'a' c && leb c b'z' then c - 32 else c

-- strings.ToLower, strings.ToUpper and strings.EqualFold.
unfoldable pub to_lower : Bytes → Bytes
to_lower = map lower_byte

unfoldable pub to_upper : Bytes → Bytes
to_upper = map upper_byte

unfoldable pub equal_fold : Bytes → Bytes → Bool
unfolding beq to_lower
equal_fold a b = beq (to_lower a) (to_lower b)

-- strings.HasPrefix and strings.TrimPrefix.
unfoldable pub has_prefix : Bytes → Bytes → Bool
has_prefix s [] = true
has_prefix [] (y ∷ ys) = false
has_prefix (x ∷ xs) (y ∷ ys) = (x == y) && has_prefix xs ys

unfoldable pub trim_prefix : Bytes → Bytes → Bytes
unfolding has_prefix
trim_prefix s p = if has_prefix s p then drop (length p) s else s

-- strings.HasSuffix and strings.TrimSuffix.
unfoldable pub has_suffix : Bytes → Bytes → Bool
unfolding has_prefix
has_suffix s p = has_prefix (reverse s) (reverse p)

unfoldable pub trim_suffix : Bytes → Bytes → Bytes
unfolding has_suffix
trim_suffix s p = if has_suffix s p then take (length s - length p) s else s

-- strings.Contains.
unfoldable pub contains : Bytes → Bytes → Bool
unfolding has_prefix
contains [] p = has_prefix [] p
contains (x ∷ xs) p = has_prefix (x ∷ xs) p || contains xs p

-- unicode.IsSpace on ASCII: tab, newline, vertical tab, form feed, carriage return, blank.
abbrev pub is_space : ℕ → Bool
is_space c = (leb 9 c && leb c 13) || (c == b' ')

trim_left : Bytes → Bytes
trim_left [] = []
trim_left (c ∷ cs) = let rest = trim_left cs in if is_space c then rest else c ∷ cs

-- strings.TrimSpace.
unfoldable pub trim_space : Bytes → Bytes
unfolding trim_left
trim_space s = reverse (trim_left (reverse (trim_left s)))

end_word : Bytes → List Bytes → List Bytes
end_word [] later = later
end_word (w ∷ ws) later = reverse (w ∷ ws) ∷ later

-- The words of `cs`, the first of which goes on from `word`, which is in reverse order.
fields_loop : Bytes → Bytes → List Bytes
unfolding end_word
fields_loop word [] = end_word word []
fields_loop word (c ∷ cs) =
    let later = fields_loop (if is_space c then [] else c ∷ word) cs in
    if is_space c then end_word word later else later

-- strings.Fields.
unfoldable pub fields : Bytes → List Bytes
unfolding fields_loop
fields = fields_loop []

-- strings.Join.
unfoldable pub join : List Bytes → Bytes → Bytes
join [] sep = []
join (w ∷ []) sep = w
join (w ∷ (v ∷ ws)) sep = w ++ (sep ++ join (v ∷ ws) sep)

-- strings.IndexByte.
unfoldable pub index_byte : Bytes → ℕ → Option ℕ
index_byte [] b = none
index_byte (c ∷ cs) b =
    if c == b then some 0 else elim (index_byte cs b) [ none ↦ none | some i ↦ some (i + 1) ]
