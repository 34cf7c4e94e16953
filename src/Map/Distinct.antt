-- ===== src/Map/Distinct.antt =====
-- Maps in which every key has one entry, as Go's maps are.
use mysqlmock.Base.{
  ◌≡◌, refl, ap, ◌∙◌, false, none, some, [], ◌∷◌, arith, if◌then◌else◌, Bool-cases, inl, inr,
}
use mysqlmock.Map.{Eq, nat_eq, bytes_eq, Assoc, lookup, insert}
use mysqlmock.Map.Laws.{lookup-insert}

same_sym_false {ℓ} : {K : Type ℓ} ⦃e : Eq K⦄ (k j : K) → e.same j k ≡ false → e.same k j ≡ false
same_sym_false ⦃e⦄ k j h = ground (arith, e.same_iff k j, e.same_iff j k)

module _ {ℓ κ} {K : Type ℓ} {V : Type κ} ⦃e : Eq K⦄ where
  unfoldable pub OneEach : Assoc K V → Type κ
  OneEach [] = Unit
  OneEach ((k, v) ∷ m) = (lookup k m ≡ none) × OneEach m

  pub insert-OneEach : (k : K) (v : V) (m : Assoc K V) → OneEach m → OneEach (insert k v m)
  unfolding OneEach insert lookup
  insert-OneEach k v [] d = (refl, tt)
  insert-OneEach k v ((j, w) ∷ m) (fresh, d) = elim (Bool-cases (e.same j k)) [
    | inl eq ↦ rw eq (fresh, d)
    | inr eq ↦ rw eq (
      lookup-insert k j v m
          ∙ (ap (λ b. if b then some v else lookup j m) (same_sym_false k j eq) ∙ fresh),
      insert-OneEach k v m d,
    )
  ]
