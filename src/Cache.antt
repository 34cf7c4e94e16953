-- ===== src/Cache.antt =====
-- The bounded cache of translations (pkg/mysqlmock/sql_translation_cache.go).
pub mod Bounds
pub mod Coherence
use mysqlmock.Base.{
  ℕ, zero, suc, ◌+◌, ◌-◌, ◌*◌, ◌/◌, ◌%◌, ◌^◌, ◌≤◌, ◌<◌, ◌≡◌, refl, sym, ap, ◌∙◌, ◌≢◌, ◌↔◌, ◌⊎◌, inl,
  inr, Bool, true, false, not, ◌&&◌, ◌||◌, Option, none, some, List, [], ◌∷◌, ◌++◌, map, append-nil,
  append_assoc, arith, ltb, leb, ◌==◌, if◌then◌else◌, ltb→lt, ltb→ge, lt→ltb, ge→ltb, leb→le,
  le→leb, ==_iff, ==_refl, tests, Bool-cases, Option-cases, length, get_elem?, get_or, set, take,
  drop, replicate, slice, length-append, length-take, length-drop, length-replicate, length-set,
  take-length_append, drop-length_append, take-append-drop, take_all, drop_all, drop-drop, Bytes,
  codes, beq, beq_iff, beq_refl, lower_byte, upper_byte, to_lower, to_upper, equal_fold, has_prefix,
  trim_prefix, has_suffix, trim_suffix, contains, is_space, trim_space, fields, join, index_byte,
}
use mysqlmock.Map.{Eq, nat_eq, bytes_eq, Assoc, lookup, insert, delete, keys, is_some}

abbrev pub sql_translation_cache_limit : ℕ
sql_translation_cache_limit = 4096

-- One of the cache's maps with its queue of keys, oldest first.
pub record Cache {ℓ} (V : Type ℓ) : Type ℓ where
  pub items : Assoc Bytes V
  pub order : List Bytes

module _ {ℓ} {V : Type ℓ} where
  abbrev pub empty : Cache V
  empty = record { items = []; order = [] }

  -- With no key in the queue some key of the map goes; which one Go leaves open, and here it is
  -- the map's first.
  pub drop_some : ℕ → Assoc Bytes V → Assoc Bytes V
  drop_some limit [] = []
  drop_some limit (entry ∷ items) =
      let later = drop_some limit items in
      if leb limit (length (entry ∷ items)) then later else entry ∷ items

  -- `for len(*items) >= limit`
  pub evict : ℕ → Assoc Bytes V → List Bytes → Cache V
  unfolding drop_some
  evict limit items [] = record { items = drop_some limit items; order = [] }
  evict limit items (oldest ∷ order) =
      let later =
        evict limit (if not (is_some (lookup oldest items)) then items else delete oldest items)
          order in
      if leb limit (length items) then later else record { items = items; order = oldest ∷ order }

  -- `cacheStore` with its limit as an argument.
  unfoldable pub store_within : ℕ → Cache V → Bytes → V → Cache V
  unfolding evict
  store_within limit c key value =
      let room = evict limit c.items c.order in
      if is_some (lookup key c.items)
      then record c { items = insert key value c.items }
      else record { items = insert key value room.items; order = room.order ++ key ∷ [] }

  unfoldable pub cache_store : Cache V → Bytes → V → Cache V
  unfolding store_within
  cache_store = store_within sql_translation_cache_limit

  -- The critical section that `translateSQLCached` and its siblings end with, after the lookup.
  pub cached : Option V → (Bytes → V) → Bytes → Cache V → V × Cache V
  cached (some v) translate sql c = (v, c)
  cached none translate sql c =
      let translated = translate sql in (translated, cache_store c sql translated)

  -- `translateSQLCached` and `translateSQLStatementsCached`, over the translation that they cache:
  -- the lookup is in the cache `before`; the mutex is free while the translation runs, so that
  -- other calls may come in between, and the store is into the cache `now` that they leave.
  unfoldable pub translate_cached : (Bytes → V) → Bytes → Cache V → Cache V → V × Cache V
  unfolding cached
  translate_cached translate sql before now = cached (lookup sql before.items) translate sql now
