-- ===== src/Cache/Bounds.antt =====
-- About `cacheStore`: the map, its queue and its limit.
use mysqlmock.Base.{
  subst, ℕ, ◌≤◌, ◌<◌, ◌≡◌, refl, sym, ap, ◌∙◌, inl, inr, true, false, none, some, List, [], ◌∷◌,
  ◌++◌, arith, ltb, leb, if◌then◌else◌, ltb→lt, ltb→ge, Bool-cases, Option-cases, length,
  length-append, Bytes, beq, beq_iff,
}
use mysqlmock.Map.{nat_eq, bytes_eq, Assoc, lookup, insert, delete, keys, is_some}
use mysqlmock.Map.Laws.{same_refl}
use mysqlmock.Cache.{drop_some, evict, Cache, store_within}

-- No key stands twice.
abbrev pub Absent : Bytes → List Bytes → Type 0
Absent k [] = Unit
Absent k (j ∷ js) = (beq j k ≡ false) × Absent k js

abbrev pub Distinct : List Bytes → Type 0
Distinct [] = Unit
Distinct (k ∷ ks) = Absent k ks × Distinct ks

pub record InStep {ℓ} {V : Type ℓ} (limit : ℕ) (c : Cache V) : Type ℓ where
  pub queued : keys c.items ≡ c.order
  pub distinct : Distinct (keys c.items)
  pub bounded : length c.items ≤ limit

module _ {ℓ} {V : Type ℓ} where
  delete-Absent : (k : Bytes) (m : Assoc Bytes V) → Absent k (keys m) → delete k m ≡ m
  unfolding delete
  delete-Absent k [] h = refl
  delete-Absent k ((j, v) ∷ m) h = rw (h.0, delete-Absent k m h.1)

  lookup-Absent : (k : Bytes) (m : Assoc Bytes V) → lookup k m ≡ none → Absent k (keys m)
  unfolding lookup
  lookup-Absent k [] h = tt
  lookup-Absent k ((j, v) ∷ m) h = elim (Bool-cases (beq j k)) [
    | inl e ↦ absurd (hit (rw e at h))
    | inr e ↦ (e, lookup-Absent k m (rw e at h))
  ]
    where
      hit : some v ≡ none → ⊥
      hit p = cc

  keys-insert_new :
      (k : Bytes) (v : V) (m : Assoc Bytes V) → Absent k (keys m) → insert k v m ≡ m ++ (k, v) ∷ []
  unfolding insert
  keys-insert_new k v [] h = refl
  keys-insert_new k v ((j, w) ∷ m) h = rw (h.0, keys-insert_new k v m h.1)

  keys-insert_old :
      (k : Bytes) (v : V) (m : Assoc Bytes V)
      → is_some (lookup k m) ≡ true
      → (keys (insert k v m) ≡ keys m) × (length (insert k v m) ≡ length m)
  unfolding insert lookup
  keys-insert_old k v [] h = cc
  keys-insert_old k v ((j, w) ∷ m) h = ground (arith, keys-insert_old k v m)

  keys-append : (m n : Assoc Bytes V) → keys (m ++ n) ≡ keys m ++ keys n
  keys-append [] n = refl
  keys-append ((k, v) ∷ m) n = ap (◌∷◌ k) (keys-append m n)

Absent-append : (k : Bytes) (js ks : List Bytes) → Absent k js → Absent k ks → Absent k (js ++ ks)
Absent-append k [] ks h g = g
Absent-append k (j ∷ js) ks h g = (h.0, Absent-append k js ks h.1 g)

beq_sym : (a b : Bytes) → beq a b ≡ false → beq b a ≡ false
beq_sym a b h = ground (arith, beq_iff a b, beq_iff b a)

Distinct-append_one :
    (k : Bytes) (ks : List Bytes) → Distinct ks → Absent k ks → Distinct (ks ++ k ∷ [])
Distinct-append_one k [] d a = (tt, tt)
Distinct-append_one k (j ∷ js) d a =
    (Absent-append j js (k ∷ []) d.0 (beq_sym j k a.0, tt), Distinct-append_one k js d.1 a.1)

-- The oldest entry is gone if the cache is full.
abbrev pub without_oldest {ℓ} : {V : Type ℓ} → Assoc Bytes V → Assoc Bytes V
without_oldest [] = []
without_oldest (entry ∷ m) = m

abbrev pub room_for {ℓ} : {V : Type ℓ} → ℕ → Assoc Bytes V → Assoc Bytes V
room_for limit items = if ltb (length items) limit then items else without_oldest items

module _ {ℓ} {V : Type ℓ} (limit : ℕ) where
  evict_small :
      (items : Assoc Bytes V)
      → length items < limit
      → evict limit items (keys items) ≡ record { items = items; order = keys items }
  unfolding evict drop_some
  evict_small [] h = refl
  evict_small ((k, v) ∷ m) h =
      let small : leb limit (length ((k, v) ∷ m)) ≡ false = ground arith in rw small

  evict_full :
      (k : Bytes) (v : V) (m : Assoc Bytes V)
      → Absent k (keys m)
      → length ((k, v) ∷ m) ≡ limit
      → evict limit ((k, v) ∷ m) (k ∷ keys m) ≡ record { items = m; order = keys m }
  unfolding evict lookup delete
  evict_full k v m a h =
      let full : leb limit (length ((k, v) ∷ m)) ≡ true = ground arith in
      rw full (rw (same_refl k) (rw (delete-Absent k m a) (evict_small m (omega arith))))

  evict-room :
      (c : Cache V)
      → InStep limit c
      → evict limit c.items c.order
        ≡ record { items = room_for limit c.items; order = keys (room_for limit c.items) }
  evict-room c i = rw (← i.queued) (by_items c.items i.distinct i.bounded)
    where
      by_items :
          (m : Assoc Bytes V)
          → Distinct (keys m)
          → length m ≤ limit
          → evict limit m (keys m)
            ≡ record { items = room_for limit m; order = keys (room_for limit m) }
      by_items [] d b = elim (Bool-cases (ltb 0 limit)) [
        | inl p ↦ rw p (evict_small [] (ltb→lt 0 limit p))
        | inr p ↦ rw p (unfold evict drop_some in refl)
      ]
      by_items ((k, v) ∷ m) d b = elim (Bool-cases (ltb (length ((k, v) ∷ m)) limit)) [
        | inl p ↦ rw p (evict_small ((k, v) ∷ m) (ltb→lt (length ((k, v) ∷ m)) limit p))
        | inr p ↦ rw p (evict_full k v m d.0 (omega (arith, ltb→ge (length ((k, v) ∷ m)) limit p)))
      ]

  -- A key that is not in the map: the oldest entry makes room if the cache is full, and the new
  -- one goes to the end.
  pub store_new :
      (c : Cache V) (key : Bytes) (v : V)
      → InStep limit c
      → lookup key c.items ≡ none
      → store_within limit c key v ≡ record {
        items = insert key v (room_for limit c.items);
        order = keys (room_for limit c.items) ++ key ∷ [];
      }
  unfolding store_within
  store_new c key v i h = rw (evict-room c i, h)

  Distinct-room : (m : Assoc Bytes V) → Distinct (keys m) → Distinct (keys (room_for limit m))
  Distinct-room m d = elim (Bool-cases (ltb (length m) limit)) [
    | inl p ↦ rw p d
    | inr p ↦ rw p (tail_lem m d)
  ]
    where
      tail_lem : (n : Assoc Bytes V) → Distinct (keys n) → Distinct (keys (without_oldest n))
      tail_lem [] e = tt
      tail_lem (entry ∷ n) e = e.1

  Absent-room :
      (key : Bytes) (m : Assoc Bytes V) → Absent key (keys m) → Absent key (keys (room_for limit m))
  Absent-room key m a = elim (Bool-cases (ltb (length m) limit)) [
    | inl p ↦ rw p a
    | inr p ↦ rw p (tail_lem m a)
  ]
    where
      tail_lem : (n : Assoc Bytes V) → Absent key (keys n) → Absent key (keys (without_oldest n))
      tail_lem [] e = tt
      tail_lem (entry ∷ n) e = e.1

  length-room :
      (m : Assoc Bytes V) → 0 < limit → length m ≤ limit → length (room_for limit m) < limit
  length-room [] p b = ground arith
  length-room (entry ∷ m) p b = ground arith

  -- Storing keeps the queue in step with the map, and the map within a limit that is not zero.
  pub store_within-InStep :
      (c : Cache V) (key : Bytes) (v : V)
      → 0 < limit
      → InStep limit c
      → InStep limit (store_within limit c key v)
  store_within-InStep c key v p i = elim (Option-cases (lookup key c.items)) [
    | inl absent ↦
        let m = room_for limit c.items in
        let a : Absent key (keys m) = Absent-room key c.items (lookup-Absent key c.items absent) in
        let e : insert key v m ≡ m ++ (key, v) ∷ [] = keys-insert_new key v m a in
        let k : keys (insert key v m) ≡ keys m ++ key ∷ [] =
          ap keys e ∙ keys-append m ((key, v) ∷ []) in
        rw (store_new c key v i absent) (record {
          queued = k;
          distinct =
              subst Distinct (sym k)
                (Distinct-append_one key (keys m) (Distinct-room c.items i.distinct) a);
          bounded = omega (
            arith,
            ap length e,
            length-append m ((key, v) ∷ []),
            length-room c.items p i.bounded,
          );
        })
    | inr (old, present) ↦ kept present
  ]
    where
      kept : {old : V} → lookup key c.items ≡ some old → InStep limit (store_within limit c key v)
      kept e =
          let here : is_some (lookup key c.items) ≡ true = rw e in
          let same_keys = keys-insert_old key v c.items here in
          let to : store_within limit c key v ≡ record c { items = insert key v c.items } =
            unfold store_within in rw here in
          rw to (record {
            queued = same_keys.0 ∙ i.queued;
            distinct = subst Distinct (sym same_keys.0) i.distinct;
            bounded = omega (arith, same_keys.1, i.bounded);
          })
