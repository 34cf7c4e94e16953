-- ===== src/Stores/Locks/Exclusion.antt =====
-- Mutual exclusion over sequences of calls.
use mysqlmock.Base.{
  ◌⊎◌, ℕ, ◌≡◌, ◌≢◌, ◌↔◌, Bool, true, false, not, ◌&&◌, none, some, List, [], ◌∷◌, arith, ◌==◌,
  Bytes, beq, beq_iff, beq_refl,
}
use mysqlmock.Map.{nat_eq, bytes_eq, lookup}
use mysqlmock.Map.Laws.{lookup-insert, lookup-delete}
use mysqlmock.Stores.Locks.{Locks, get, release, release_all}

-- The calls of the methods by connections.
pub data Call : Type 0 where
  get_call : Bytes → ℕ → Call
  release_call : Bytes → ℕ → Call
  release_all_call : ℕ → Call

unfoldable pub run_call : Call → Locks → Locks
run_call (get_call name c) locks = (get name c locks).0
run_call (release_call name c) locks = (release name c locks).0
run_call (release_all_call c) locks = release_all c locks

unfoldable pub run_calls : List Call → Locks → Locks
run_calls [] locks = locks
run_calls (x ∷ xs) locks = run_calls xs (run_call x locks)

-- The call does not give up the lock `name` for the connection `c`.
abbrev pub keeps : Bytes → ℕ → Call → Bool
keeps name c (get_call n d) = true
keeps name c (release_call n d) = not (beq n name && (d == c))
keeps name c (release_all_call d) = not (d == c)

abbrev pub all_keep : Bytes → ℕ → List Call → Bool
all_keep name c [] = true
all_keep name c (x ∷ xs) = keeps name c x && all_keep name c xs

lookup-release_all :
    (c h : ℕ) (name : Bytes) (locks : Locks)
    → (h == c) ≡ false
    → lookup name locks ≡ some h
    → lookup name (release_all c locks) ≡ some h
unfolding lookup release_all
lookup-release_all c h name [] ne held = cc
lookup-release_all c h name ((n, g) ∷ locks) ne held =
    ground (arith, lookup-release_all c h name locks ne)

run_call-held :
    (x : Call) (name : Bytes) (c : ℕ) (locks : Locks)
    → keeps name c x ≡ true
    → lookup name locks ≡ some c
    → lookup name (run_call x locks) ≡ some c
unfolding run_call get release
run_call-held (get_call n d) name c locks k held =
    ground (arith, lookup-insert n name d locks, beq_iff n name)
run_call-held (release_call n d) name c locks k held =
    ground (arith, lookup-delete n name locks, beq_iff n name)
run_call-held (release_all_call d) name c locks k held =
    lookup-release_all d c name locks (ground arith) held

still_held :
    (calls : List Call) (name : Bytes) (c : ℕ) (locks : Locks)
    → lookup name locks ≡ some c
    → all_keep name c calls ≡ true
    → lookup name (run_calls calls locks) ≡ some c
unfolding run_calls
still_held [] name c locks held k = held
still_held (x ∷ xs) name c locks held k =
    still_held xs name c (run_call x locks) (run_call-held x name c locks (ground arith) held)
      (ground arith)

-- A connection that has a lock keeps it through any calls of any connections, but its own that
-- give the lock back; after them any other connection that asks for the lock gets 0.
pub held_until_released :
    (calls : List Call) (name : Bytes) (c d : ℕ) (locks : Locks)
    → lookup name locks ≡ some c
    → all_keep name c calls ≡ true
    → c ≢ d
    → (lookup name (run_calls calls locks) ≡ some c) × ((get name d (run_calls calls locks)).1 ≡ 0)
unfolding get
held_until_released calls name c d locks held k ne =
    let h = still_held calls name c locks held k in (h, rw h (ground arith))

-- What the answers say: 1 from `get` exactly when the connection has the lock afterwards; 1 from
-- `release` exactly when it had the lock, and then the lock is free; NULL exactly when nobody had.
pub lock_replies :
    (name : Bytes) (c : ℕ) (locks : Locks)
    → (((get name c locks).1 ≡ 1) ↔ (lookup name (get name c locks).0 ≡ some c))
      × (((release name c locks).1 ≡ some 1) ↔ (lookup name locks ≡ some c))
      × (((release name c locks).1 ≡ none) ↔ (lookup name locks ≡ none))
      × (((release name c locks).1 ≢ some 1) ⊎ (lookup name (release name c locks).0 ≡ none))
unfolding get release
lock_replies name c locks =
    ground (arith, lookup-insert name name c locks, lookup-delete name name locks, beq_refl name)
