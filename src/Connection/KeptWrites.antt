-- ===== src/Connection/KeptWrites.antt =====
-- About the records of the queries in transactions, writes and the other branches of
-- `executeQuery`, around which `logQuery` and `recordUnsupported` are called.

use mysqlmock.Base.{
  refl, Bool, true, false, ◌||◌, Option, none, some, List, [], ◌∷◌, if◌then◌else◌, Bytes, codes,
  beq, has_prefix, trim_space,
}
use mysqlmock.Value.{Value}
use mysqlmock.Response.{OkResult}
use mysqlmock.Connection.{no_effects}
use mysqlmock.Connection.Backend.{QueryFailure, ok_reply, Task, Attempt, Backend}
use mysqlmock.Connection.Logging.{◌>>=◌, Step, done}
use mysqlmock.Connection.Sqlite.{with_database, exec_each, exec_sqlite_statements}
use mysqlmock.Connection.Transactions.{
  leave_transaction, commit, restored, restore_after, rollback, rollback_and_chain,
  rollback_to_savepoint,
}
use mysqlmock.Connection.Writes.{
  unless_handled, Statement, perform_task, try, translated_statements, run_write, run_insert,
  run_upsert,
}
use mysqlmock.Connection.Routing.{
  tell, run_set_variables, run_set_names, run_advisory_lock, translated, run_read, replied,
}
use mysqlmock.Connection.Kept.{
  Keeps, Keeps-bind, Keeps-then, Keeps-refl, done-Keeps, fail-Keeps, diagnostics_of,
  with_conn-Keeps, with_context-Keeps, with_check-Keeps, exec_sqlite-Keeps,
}

module _ {D : Type 0} where
  with_database-Keeps : (f : D → D) → Keeps diagnostics_of (with_database f)
  with_database-Keeps f = with_context-Keeps _ (λ w. refl)

  exec_each-Keeps :
      (b : Backend D) (queries : List Bytes) (result : OkResult)
      → Keeps diagnostics_of (exec_each b queries result)
  unfolding exec_each
  exec_each-Keeps b [] result = done-Keeps result
  exec_each-Keeps b (query ∷ queries) result =
      either (beq (trim_space query) []) (exec_each-Keeps b queries result)
        (Keeps-bind (exec_sqlite-Keeps b query []) (λ next. exec_each-Keeps b queries next))
    where
      either :
          (p : Bool) {m n : Step D OkResult}
          → Keeps diagnostics_of m
          → Keeps diagnostics_of n
          → Keeps diagnostics_of (if p then m else n)
      either true km kn = km
      either false km kn = kn

  exec_sqlite_statements-Keeps :
      (b : Backend D) (queries : List Bytes) (args : List Value)
      → Keeps diagnostics_of (exec_sqlite_statements b queries args)
  unfolding exec_sqlite_statements
  exec_sqlite_statements-Keeps b [] args = done-Keeps _
  exec_sqlite_statements-Keeps b (query ∷ []) args = exec_sqlite-Keeps b query args
  exec_sqlite_statements-Keeps b (query ∷ (second ∷ rest)) [] =
      exec_each-Keeps b (query ∷ (second ∷ rest)) no_effects
  exec_sqlite_statements-Keeps b (query ∷ (second ∷ rest)) (a ∷ args) = fail-Keeps _

  pub commit-Keeps : (b : Backend D) → Keeps diagnostics_of (commit b)
  unfolding commit
  commit-Keeps b = Keeps-bind (exec_sqlite-Keeps b (codes "COMMIT") []) (λ result.
      Keeps-then (with_database-Keeps b.clear_restore_tables)
        (Keeps-then (with_conn-Keeps leave_transaction) (done-Keeps result)))

  restored-Keeps :
      (b : Backend D) (result : OkResult) (e : Option QueryFailure)
      → Keeps diagnostics_of (restored b result e)
  unfolding restored
  restored-Keeps b result none =
      Keeps-then (with_database-Keeps b.clear_restore_tables) (done-Keeps result)
  restored-Keeps b result (some e) = fail-Keeps e

  restore_after-Keeps :
      (b : Backend D) (result : OkResult) → Keeps diagnostics_of (restore_after b result)
  unfolding restore_after
  restore_after-Keeps b result =
      Keeps-refl (λ s. (restored-Keeps b result (b.restore_sequences s.context.database).0).same _)

  pub rollback-Keeps : (b : Backend D) → Keeps diagnostics_of (rollback b)
  unfolding rollback
  rollback-Keeps b = Keeps-bind (exec_sqlite-Keeps b (codes "ROLLBACK") []) (restore_after-Keeps b)

  pub rollback_and_chain-Keeps : (b : Backend D) → Keeps diagnostics_of (rollback_and_chain b)
  unfolding rollback_and_chain
  rollback_and_chain-Keeps b =
      Keeps-then (Keeps-bind (exec_sqlite-Keeps b (codes "ROLLBACK") []) (λ r. done-Keeps tt)) (
        Keeps-then (with_conn-Keeps leave_transaction) (
          Keeps-then (with_check-Keeps b.restore_sequences) (
            Keeps-then (with_database-Keeps b.clear_restore_tables)
              (exec_sqlite-Keeps b (codes "BEGIN") []))))

  pub rollback_to_savepoint-Keeps :
      (b : Backend D) (sql : Bytes) → Keeps diagnostics_of (rollback_to_savepoint b sql)
  unfolding rollback_to_savepoint
  rollback_to_savepoint-Keeps b sql =
      Keeps-bind (exec_sqlite-Keeps b sql [])
        (λ result. Keeps-then (with_check-Keeps b.restore_sequences) (done-Keeps result))

  pub perform_task-Keeps :
      (b : Backend D) (task : Task) → Keeps diagnostics_of (perform_task b task)
  perform_task-Keeps b task = Keeps-refl (λ s. refl)

  pub try-Keeps : (b : Backend D) (attempt : Attempt) → Keeps diagnostics_of (try b attempt)
  try-Keeps b attempt = Keeps-refl (λ s. refl)

  translated_statements-Keeps :
      (b : Backend D) (sql : Bytes) → Keeps diagnostics_of (translated_statements b sql)
  unfolding translated_statements
  translated_statements-Keeps b sql = Keeps-refl (λ s. refl)

  unless_handled-Keeps :
      {m : Step D OkResult} (o : Option OkResult)
      → Keeps diagnostics_of m
      → Keeps diagnostics_of (unless_handled m o)
  unless_handled-Keeps none km = km
  unless_handled-Keeps (some result) km = done-Keeps result

  run_write-Keeps : (b : Backend D) (q : Statement) → Keeps diagnostics_of (run_write b q)
  unfolding run_write
  run_write-Keeps b q = Keeps-bind (translated_statements-Keeps b q.trimmed) (λ statements.
      Keeps-bind (exec_sqlite_statements-Keeps b statements q.args) (λ result.
        Keeps-then (with_database-Keeps (λ d. b.record_metadata d q.trimmed)) (done-Keeps result)))

  -- Asking a component first, under a test.
  asked-Keeps :
      (b : Backend D) (p : Bool) (attempt : Attempt) {m : Step D OkResult}
      → Keeps diagnostics_of m
      → Keeps diagnostics_of (if p then (try b attempt >>= unless_handled m) else m)
  asked-Keeps b true attempt km = Keeps-bind (try-Keeps b attempt) (λ o. unless_handled-Keeps o km)
  asked-Keeps b false attempt km = km

  pub run_upsert-Keeps : (b : Backend D) (q : Statement) → Keeps diagnostics_of (run_upsert b q)
  unfolding run_upsert run_insert
  run_upsert-Keeps b q = asked-Keeps b (has_prefix q.upper (codes "INSERT ")) _ (
      asked-Keeps b (has_prefix q.upper (codes "INSERT ") || has_prefix q.upper (codes "REPLACE "))
        _ (run_write-Keeps b q))

  tell-Keeps : (b : Backend D) (queries : List Bytes) → Keeps diagnostics_of (tell b queries)
  unfolding tell done
  tell-Keeps b [] = Keeps-refl (λ s. refl)
  tell-Keeps b (query ∷ queries) = Keeps-refl (λ s. (tell-Keeps b queries).same _)

  pub run_set_variables-Keeps :
      (b : Backend D) (q : Statement) → Keeps diagnostics_of (run_set_variables b q)
  unfolding run_set_variables
  run_set_variables-Keeps b q =
      Keeps-refl (λ s. (Keeps-then (tell-Keeps b _) (done-Keeps (ok_reply no_effects))).same _)

  pub run_set_names-Keeps :
      (b : Backend D) (q : Statement) → Keeps diagnostics_of (run_set_names b q)
  unfolding run_set_names
  run_set_names-Keeps b q =
      Keeps-then (with_context-Keeps _ (λ w. refl)) (run_set_variables-Keeps b q)

  pub run_advisory_lock-Keeps : (q : Statement) → Keeps {D = D} diagnostics_of (run_advisory_lock q)
  unfolding run_advisory_lock
  run_advisory_lock-Keeps q = Keeps-refl (λ s. refl)

  translated-Keeps : (b : Backend D) (q : Statement) → Keeps diagnostics_of (translated b q)
  unfolding translated
  translated-Keeps b q = Keeps-refl (λ s. refl)

  pub run_read-Keeps : (b : Backend D) (q : Statement) → Keeps diagnostics_of (run_read b q)
  unfolding run_read
  run_read-Keeps b q = Keeps-bind (translated-Keeps b q) (λ sql. perform_task-Keeps b _)

  pub replied-Keeps :
      {m : Step D OkResult} → Keeps diagnostics_of m → Keeps diagnostics_of (replied m)
  replied-Keeps km = Keeps-bind km (λ result. done-Keeps (ok_reply result))
