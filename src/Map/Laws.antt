-- ===== src/Map/Laws.antt =====
-- Laws of lookups in maps.
use mysqlmock.Base.{◌≡◌, refl, true, none, some, [], ◌∷◌, arith, if◌then◌else◌}
use mysqlmock.Map.{Eq, nat_eq, bytes_eq, Assoc, lookup, insert, delete}

pub same_refl {ℓ} : {K : Type ℓ} ⦃e : Eq K⦄ (k : K) → e.same k k ≡ true
same_refl ⦃e⦄ k = (e.same_iff k k).1 refl

module _ {ℓ κ} {K : Type ℓ} {V : Type κ} ⦃e : Eq K⦄ where
  pub lookup-insert :
      (k j : K) (v : V) (m : Assoc K V)
      → lookup j (insert k v m) ≡ (if e.same k j then some v else lookup j m)
  unfolding lookup insert
  lookup-insert k j v [] = refl
  lookup-insert k j v ((i, w) ∷ m) =
      ground (arith, lookup-insert k j v m, e.same_iff k j, e.same_iff i k, e.same_iff i j)

  pub lookup-delete :
      (k j : K) (m : Assoc K V) → lookup j (delete k m) ≡ (if e.same k j then none else lookup j m)
  unfolding lookup delete
  lookup-delete k j [] = ground arith
  lookup-delete k j ((i, w) ∷ m) =
      ground (arith, lookup-delete k j m, e.same_iff k j, e.same_iff i k, e.same_iff i j)
