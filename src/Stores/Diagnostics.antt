-- ===== src/Stores/Diagnostics.antt =====
-- What the server records of its queries (`diagnosticsStore`). A snapshot is a copy, so later
-- calls do not change it.
use mysqlmock.Base.{
  ℕ, ◌≡◌, refl, sym, ap, ◌∙◌, Bool, true, false, List, [], ◌∷◌, ◌++◌, append-nil, append_assoc,
  Bytes,
}

pub record UnsupportedQuery : Type 0 where
  pub sql : Bytes
  pub normalized_sql : Bytes
  pub connection_id : ℕ
  pub command : Bytes
  pub current_db : Bytes
  pub route_stage : Bytes
  pub suggestion : Bytes

pub record QueryEvent : Type 0 where
  pub event : Bytes
  pub connection_id : ℕ
  pub command : Bytes
  pub route : Bytes
  pub database : Bytes
  pub sql : Bytes
  pub normalized_sql : Bytes
  pub suggestion : Bytes

pub record Diagnostics : Type 0 where
  pub unsupported : List UnsupportedQuery
  pub queries : List QueryEvent

pub data Call : Type 0 where
  record_unsupported : UnsupportedQuery → Call
  record_query : QueryEvent → Call
  reset : Call

-- The three methods that change the store.
unfoldable pub run_call : Call → Diagnostics → Diagnostics
run_call (record_unsupported q) s = record s { unsupported = s.unsupported ++ q ∷ [] }
run_call (record_query e) s = record s { queries = s.queries ++ e ∷ [] }
run_call reset s = record { unsupported = []; queries = [] }

unfoldable pub unsupported_snapshot : Diagnostics → List UnsupportedQuery
unsupported_snapshot s = s.unsupported

unfoldable pub queries_snapshot : Diagnostics → List QueryEvent
queries_snapshot s = s.queries

unfoldable pub run_calls : List Call → Diagnostics → Diagnostics
unfolding run_call
run_calls [] s = s
run_calls (x ∷ xs) s = run_calls xs (run_call x s)

-- The queries that calls record, in order, if none of the calls resets.
abbrev pub recorded : List Call → List QueryEvent
recorded [] = []
recorded (record_unsupported q ∷ xs) = recorded xs
recorded (record_query e ∷ xs) = e ∷ recorded xs
recorded (reset ∷ xs) = recorded xs

abbrev pub recorded_unsupported : List Call → List UnsupportedQuery
recorded_unsupported [] = []
recorded_unsupported (record_unsupported q ∷ xs) = q ∷ recorded_unsupported xs
recorded_unsupported (record_query e ∷ xs) = recorded_unsupported xs
recorded_unsupported (reset ∷ xs) = recorded_unsupported xs

abbrev pub no_reset : List Call → Bool
no_reset [] = true
no_reset (reset ∷ xs) = false
no_reset (x ∷ xs) = no_reset xs

run_calls-recorded :
    (xs : List Call) (s : Diagnostics)
    → no_reset xs ≡ true
    → (queries_snapshot (run_calls xs s) ≡ s.queries ++ recorded xs)
      × (unsupported_snapshot (run_calls xs s) ≡ s.unsupported ++ recorded_unsupported xs)
unfolding run_calls queries_snapshot unsupported_snapshot
run_calls-recorded [] s h = (sym (append-nil s.queries), sym (append-nil s.unsupported))
run_calls-recorded (record_unsupported q ∷ xs) s h =
    let (a, b) = run_calls-recorded xs (record s { unsupported = s.unsupported ++ q ∷ [] }) h in
    (a, b ∙ append_assoc s.unsupported (q ∷ []) (recorded_unsupported xs))
run_calls-recorded (record_query e ∷ xs) s h =
    let (a, b) = run_calls-recorded xs (record s { queries = s.queries ++ e ∷ [] }) h in
    (a ∙ append_assoc s.queries (e ∷ []) (recorded xs), b)
run_calls-recorded (reset ∷ xs) s h = cc

run_calls-append :
    (xs ys : List Call) (s : Diagnostics) → run_calls (xs ++ ys) s ≡ run_calls ys (run_calls xs s)
unfolding run_calls
run_calls-append [] ys s = refl
run_calls-append (x ∷ xs) ys s = run_calls-append xs ys (run_call x s)

-- The snapshots show what was recorded since the last reset, in order, and nothing before it.
pub snapshot_since_reset :
    (before after : List Call) (s : Diagnostics)
    → no_reset after ≡ true
    → (queries_snapshot (run_calls (before ++ reset ∷ after) s) ≡ recorded after)
      × (unsupported_snapshot (run_calls (before ++ reset ∷ after) s) ≡ recorded_unsupported after)
snapshot_since_reset before after s h =
    let cleared : Diagnostics = record { unsupported = []; queries = [] } in
    let (a, b) = run_calls-recorded after cleared h in
    let split : run_calls (before ++ reset ∷ after) s ≡ run_calls after cleared =
      run_calls-append before (reset ∷ after) s ∙ reset_step after (run_calls before s) in
    (ap queries_snapshot split ∙ a, ap unsupported_snapshot split ∙ b)
  where
    reset_step :
        (xs : List Call) (t : Diagnostics)
        → run_calls (reset ∷ xs) t ≡ run_calls xs (record { unsupported = []; queries = [] })
    reset_step xs t = unfold run_calls in refl
