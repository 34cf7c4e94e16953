-- ===== src/Tests/Stores.antt =====
-- Locks, diagnostics and the cache of translations at concrete inputs.
use mysqlmock.Base.{
  ℕ, ◌≡◌, refl, ◌≢◌, ◌↔◌, ◌⊎◌, true, not, ◌&&◌, none, some, List, [], ◌∷◌, arith, ltb,
  if◌then◌else◌, length, Bytes, codes, beq, to_upper,
}
use mysqlmock.Map.{nat_eq, bytes_eq, Assoc, lookup}
use mysqlmock.Stores.Locks.{get, release}
use mysqlmock.Stores.Locks.Exclusion.{
  Call, get_call, release_call, release_all_call, all_keep, run_calls, held_until_released,
  lock_replies,
}
use mysqlmock.Cache.{sql_translation_cache_limit, Cache, store_within, translate_cached}
use mysqlmock.Cache.Bounds.{InStep, store_within-InStep}
use mysqlmock.Cache.Coherence.{is_oldest, Coherent, translate_cached-translates, store_within-fifo}

abbrev held : Assoc Bytes ℕ
held = (codes "job", 1) ∷ []

abbrev calls : List Call
calls = get_call (codes "job") 2 ∷ release_call (codes "job") 2 ∷ release_all_call 2 ∷ []

held_by_one : lookup (codes "job") held ≡ some 1
unfolding lookup beq
held_by_one = refl

calls_keep : all_keep (codes "job") 1 calls ≡ true
unfolding beq
calls_keep = refl

held_until_released_example :
    (lookup (codes "job") (run_calls calls held) ≡ some 1)
    × ((get (codes "job") 2 (run_calls calls held)).1 ≡ 0)
held_until_released_example =
    held_until_released calls (codes "job") 1 2 held held_by_one calls_keep (λ e. cc)

lock_replies_example :
    (((get (codes "job") 1 held).1 ≡ 1)
      ↔ (lookup (codes "job") (get (codes "job") 1 held).0 ≡ some 1))
    × (((release (codes "job") 1 held).1 ≡ some 1) ↔ (lookup (codes "job") held ≡ some 1))
    × (((release (codes "job") 1 held).1 ≡ none) ↔ (lookup (codes "job") held ≡ none))
    × (((release (codes "job") 1 held).1 ≢ some 1)
        ⊎ (lookup (codes "job") (release (codes "job") 1 held).0 ≡ none))
lock_replies_example = lock_replies (codes "job") 1 held

abbrev full : Cache Bytes
full = record {
  items = (codes "a", codes "A") ∷ (codes "b", codes "B") ∷ [];
  order = codes "a" ∷ codes "b" ∷ [];
}

full-InStep : InStep 2 full
unfolding beq
full-InStep = record { queued = refl; distinct = ((refl, tt), (tt, tt)); bounded = omega arith }

full-InStep_limit : InStep sql_translation_cache_limit full
unfolding beq
full-InStep_limit = record {
  queued = refl;
  distinct = ((refl, tt), (tt, tt));
  bounded = omega arith;
}

absent : lookup (codes "c") full.items ≡ none
unfolding lookup beq
absent = refl

translations : Coherent to_upper full.items
unfolding to_upper
translations = (refl, (refl, tt))

store_within-InStep_example : InStep 2 (store_within 2 full (codes "c") (codes "C"))
store_within-InStep_example =
    store_within-InStep 2 full (codes "c") (codes "C") (omega arith) full-InStep

store_within-fifo_example :
    lookup (codes "a") (store_within 2 full (codes "c") (codes "C")).items ≡ (
      if beq (codes "c") (codes "a")
      then some (codes "C")
      else if not (ltb (length full.items) 2) && is_oldest (codes "a") full.order
      then none
      else lookup (codes "a") full.items)
store_within-fifo_example =
    store_within-fifo 2 full (codes "c") (codes "C") (codes "a") full-InStep absent

translate_cached-translates_example :
    ((translate_cached to_upper (codes "c") full full).0 ≡ to_upper (codes "c"))
    × Coherent to_upper (translate_cached to_upper (codes "c") full full).1.items
    × InStep sql_translation_cache_limit (translate_cached to_upper (codes "c") full full).1
translate_cached-translates_example =
    translate_cached-translates to_upper (codes "c") full full translations translations
      full-InStep_limit
