-- ===== src/Cache/Coherence.antt =====
-- About `translateSQLCached` and `cacheStore`: what a lookup in the cache gives.
use mysqlmock.Map.Laws.{lookup-insert}
use mysqlmock.Cache.Bounds.{
  Absent, store_within-InStep, store_new, without_oldest, InStep, room_for, Distinct,
}
use mysqlmock.Cache.{
  store_within, sql_translation_cache_limit, cached, Cache, translate_cached, cache_store,
}
use mysqlmock.Base.{
  false, Bool, not, subst, List, ◌&&◌, Option-cases, none, if◌then◌else◌, length, ltb, ℕ, ◌≡◌, refl,
  sym, ap, inl, inr, some, [], ◌∷◌, arith, Bool-cases, Bytes, beq, beq_iff,
}
use mysqlmock.Map.{keys, nat_eq, bytes_eq, Assoc, lookup, insert}

abbrev pub is_oldest : Bytes → List Bytes → Bool
is_oldest j [] = false
is_oldest j (k ∷ ks) = beq k j

module _ {ℓ} {V : Type ℓ} where
  -- Every entry is what the translation gives for its key.
  abbrev pub Coherent : (Bytes → V) → Assoc Bytes V → Type ℓ
  Coherent translate [] = Unit
  Coherent translate ((k, v) ∷ m) = (v ≡ translate k) × Coherent translate m

  Coherent-lookup :
      (translate : Bytes → V) (k : Bytes) (v : V) (m : Assoc Bytes V)
      → Coherent translate m
      → lookup k m ≡ some v
      → v ≡ translate k
  unfolding lookup
  Coherent-lookup translate k v [] c h = cc
  Coherent-lookup translate k v ((j, w) ∷ m) c h =
      ground (arith, Coherent-lookup translate k v m c.1, beq_iff j k)

  Coherent-insert :
      (translate : Bytes → V) (k : Bytes) (m : Assoc Bytes V)
      → Coherent translate m
      → Coherent translate (insert k (translate k) m)
  unfolding insert
  Coherent-insert translate k [] c = (refl, tt)
  Coherent-insert translate k ((j, w) ∷ m) c = elim (Bool-cases (beq j k)) [
    | inl e ↦ rw e (ap translate (sym ((beq_iff j k).0 e)), c.1)
    | inr e ↦ rw e (c.0, Coherent-insert translate k m c.1)
  ]

  Coherent-room :
      (translate : Bytes → V) (limit : ℕ) (m : Assoc Bytes V)
      → Coherent translate m
      → Coherent translate (room_for limit m)
  Coherent-room translate limit [] c = elim (Bool-cases (ltb 0 limit)) [
    | inl p ↦ rw p tt
    | inr p ↦ rw p tt
  ]
  Coherent-room translate limit ((k, v) ∷ m) c =
      elim (Bool-cases (ltb (length ((k, v) ∷ m)) limit)) [ inl p ↦ rw p c | inr p ↦ rw p c.1 ]

  cache_store-Coherent :
      (translate : Bytes → V) (c : Cache V) (key : Bytes)
      → InStep sql_translation_cache_limit c
      → Coherent translate c.items
      → Coherent translate (cache_store c key (translate key)).items
  unfolding cache_store
  cache_store-Coherent translate c key i h = elim (Option-cases (lookup key c.items)) [
    | inl absent ↦ rw (store_new sql_translation_cache_limit c key (translate key) i absent) (
        Coherent-insert translate key (room_for sql_translation_cache_limit c.items)
          (Coherent-room translate sql_translation_cache_limit c.items h))
    | inr (old, present) ↦
        let to : store_within sql_translation_cache_limit c key (translate key)
            ≡ record c { items = insert key (translate key) c.items } =
          unfold store_within in rw present refl in
        rw to (Coherent-insert translate key c.items h)
  ]

  -- The cached translation is the translation: if each entry of the cache in which a text is
  -- looked up, and of the cache into which its translation is stored, is what the translation
  -- gives, and the latter is in step with its queue, then the answer is what the translation gives
  -- for the text, and the cache that is left is again one with translations only, in step with
  -- its queue and of at most 4096 entries.
  pub translate_cached-translates :
      (translate : Bytes → V) (sql : Bytes) (before now : Cache V)
      → Coherent translate before.items
      → Coherent translate now.items
      → InStep sql_translation_cache_limit now
      → ((translate_cached translate sql before now).0 ≡ translate sql)
        × Coherent translate (translate_cached translate sql before now).1.items
        × InStep sql_translation_cache_limit (translate_cached translate sql before now).1
  unfolding translate_cached cached cache_store
  translate_cached-translates translate sql before now b h i =
      elim (Option-cases (lookup sql before.items)) [
        | inl absent ↦ rw absent (
          refl,
          (unfold cache_store in cache_store-Coherent translate now sql i h),
          store_within-InStep sql_translation_cache_limit now sql (translate sql) (omega arith) i,
        )
        | inr (v, present) ↦
            rw present (Coherent-lookup translate sql v before.items b present, h, i)
      ]

  Absent-lookup : (j : Bytes) (m : Assoc Bytes V) → Absent j (keys m) → lookup j m ≡ none
  unfolding lookup
  Absent-lookup j [] a = refl
  Absent-lookup j ((k, v) ∷ m) a = rw (a.0) (Absent-lookup j m a.1)

  lookup-without_oldest :
      (j : Bytes) (m : Assoc Bytes V)
      → Distinct (keys m)
      → lookup j (without_oldest m) ≡ (if is_oldest j (keys m) then none else lookup j m)
  unfolding lookup
  lookup-without_oldest j [] d = refl
  lookup-without_oldest j ((k, v) ∷ m) d = elim (Bool-cases (beq k j)) [
    | inl e ↦
        let here = (beq_iff k j).0 e in
        rw e (Absent-lookup j m (subst (λ x. Absent x (keys m)) here d.0))
    | inr e ↦ rw e refl
  ]

  lookup-room :
      (j : Bytes) (limit : ℕ) (m : Assoc Bytes V)
      → Distinct (keys m)
      → lookup j (room_for limit m)
        ≡ (if not (ltb (length m) limit) && is_oldest j (keys m) then none else lookup j m)
  lookup-room j limit m d = elim (Bool-cases (ltb (length m) limit)) [
    | inl p ↦ rw p refl
    | inr p ↦ rw p (lookup-without_oldest j m d)
  ]

  -- First in, first out: in a cache in step with its queue, storing under a key that it does not
  -- hold changes what a lookup answers for that key, which is now the value, and, when the cache
  -- was full, for the key at the head of the queue, which is now absent; for every other key the
  -- answer stays what it was.
  pub store_within-fifo :
      (limit : ℕ) (c : Cache V) (key : Bytes) (v : V) (j : Bytes)
      → InStep limit c
      → lookup key c.items ≡ none
      → lookup j (store_within limit c key v).items ≡ (
          if beq key j
          then some v
          else if not (ltb (length c.items) limit) && is_oldest j c.order
          then none
          else lookup j c.items)
  store_within-fifo limit c key v j i absent = rw (
    store_new limit c key v i absent,
    lookup-insert key j v (room_for limit c.items),
    lookup-room j limit c.items i.distinct,
    ← i.queued,
  )
