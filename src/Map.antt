-- ===== src/Map.antt =====
-- Go's maps as association lists with one entry for each key, over any type of keys that can be
-- compared. A new key goes to the end, and an old one keeps its place.
pub mod Laws
pub mod Distinct
use mysqlmock.Base.{
  ℕ, zero, suc, ◌+◌, ◌-◌, ◌*◌, ◌/◌, ◌%◌, ◌^◌, ◌≤◌, ◌<◌, ◌≡◌, refl, sym, ap, ◌∙◌, ◌≢◌, ◌↔◌, ◌⊎◌, inl,
  inr, Bool, true, false, not, ◌&&◌, ◌||◌, Option, none, some, List, [], ◌∷◌, ◌++◌, map, append-nil,
  append_assoc, arith, ltb, leb, ◌==◌, if◌then◌else◌, ltb→lt, ltb→ge, lt→ltb, ge→ltb, leb→le,
  le→leb, ==_iff, ==_refl, tests, Bool-cases, Option-cases, length, get_elem?, get_or, set, take,
  drop, replicate, slice, length-append, length-take, length-drop, length-replicate, length-set,
  take-length_append, drop-length_append, take-append-drop, take_all, drop_all, drop-drop, Bytes,
  codes, beq, beq_iff, beq_refl, lower_byte, upper_byte, to_lower, to_upper, equal_fold, has_prefix,
  trim_prefix, has_suffix, trim_suffix, contains, is_space, trim_space, fields, join, index_byte,
}

pub record Eq {ℓ} (K : Type ℓ) : Type ℓ where
  pub same : K → K → Bool
  pub same_iff : (a b : K) → (same a b ≡ true) ↔ (a ≡ b)

instance abbrev pub nat_eq : Eq ℕ
nat_eq = record { same = ◌==◌; same_iff = ==_iff }

instance abbrev pub bytes_eq : Eq Bytes
bytes_eq = record { same = beq; same_iff = beq_iff }

abbrev pub Assoc {ℓ κ} : Type ℓ → Type κ → Type (ℓ ⊔ κ)
Assoc K V = List (K × V)

module _ {ℓ κ} {K : Type ℓ} {V : Type κ} ⦃e : Eq K⦄ where
  -- `v, ok := m[k]`
  unfoldable pub lookup : K → Assoc K V → Option V
  lookup k [] = none
  lookup k ((j, v) ∷ m) = if e.same j k then some v else lookup k m

  -- `m[k] = v`
  unfoldable pub insert : K → V → Assoc K V → Assoc K V
  insert k v [] = (k, v) ∷ []
  insert k v ((j, w) ∷ m) =
      let later = insert k v m in if e.same j k then (j, v) ∷ m else (j, w) ∷ later

  -- `delete(m, k)`
  unfoldable pub delete : K → Assoc K V → Assoc K V
  delete k [] = []
  delete k ((j, w) ∷ m) = let later = delete k m in if e.same j k then later else (j, w) ∷ later

abbrev pub keys {ℓ κ} : {K : Type ℓ} {V : Type κ} → Assoc K V → List K
keys [] = []
keys ((k, v) ∷ m) = k ∷ keys m

-- `ok` alone
abbrev pub is_some {ℓ} : {A : Type ℓ} → Option A → Bool
is_some none = false
is_some (some a) = true
