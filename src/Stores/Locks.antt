-- ===== src/Stores/Locks.antt =====
-- Advisory locks: who holds which name (`advisoryLockStore`).
pub mod Exclusion
use mysqlmock.Base.{
  ℕ, zero, suc, ◌+◌, ◌-◌, ◌*◌, ◌/◌, ◌%◌, ◌^◌, ◌≤◌, ◌<◌, ◌≡◌, refl, sym, ap, ◌∙◌, ◌≢◌, ◌↔◌, ◌⊎◌, inl,
  inr, Bool, true, false, not, ◌&&◌, ◌||◌, Option, none, some, List, [], ◌∷◌, ◌++◌, map, append-nil,
  append_assoc, arith, ltb, leb, ◌==◌, if◌then◌else◌, ltb→lt, ltb→ge, lt→ltb, ge→ltb, leb→le,
  le→leb, ==_iff, ==_refl, tests, Bool-cases, Option-cases, length, get_elem?, get_or, set, take,
  drop, replicate, slice, length-append, length-take, length-drop, length-replicate, length-set,
  take-length_append, drop-length_append, take-append-drop, take_all, drop_all, drop-drop, Bytes,
  codes, beq, beq_iff, beq_refl, lower_byte, upper_byte, to_lower, to_upper, equal_fold, has_prefix,
  trim_prefix, has_suffix, trim_suffix, contains, is_space, trim_space, fields, join, index_byte,
}
use mysqlmock.Map.{Eq, nat_eq, bytes_eq, Assoc, lookup, insert, delete, keys, is_some}

abbrev pub Locks : Type 0
Locks = Assoc Bytes ℕ

take_lock : Option ℕ → Bytes → ℕ → Locks → Locks × ℕ
take_lock none name connection locks = (insert name connection locks, 1)
take_lock (some holder) name connection locks =
    if holder == connection then (insert name connection locks, 1) else (locks, 0)

-- `get`: 1 if the connection has the lock now, 0 if another has it.
unfoldable pub get : Bytes → ℕ → Locks → Locks × ℕ
unfolding take_lock
get name connection locks = take_lock (lookup name locks) name connection locks

give_back : Option ℕ → Bytes → ℕ → Locks → Locks × Option ℕ
give_back none name connection locks = (locks, none)
give_back (some holder) name connection locks =
    if not (holder == connection) then (locks, some 0) else (delete name locks, some 1)

-- `release`: NULL if nobody has the lock, 0 if another has it, 1 if it is given back.
unfoldable pub release : Bytes → ℕ → Locks → Locks × Option ℕ
unfolding give_back
release name connection locks = give_back (lookup name locks) name connection locks

-- `releaseAll`
unfoldable pub release_all : ℕ → Locks → Locks
release_all connection [] = []
release_all connection ((name, holder) ∷ locks) =
    let later = release_all connection locks in
    if holder == connection then later else (name, holder) ∷ later
