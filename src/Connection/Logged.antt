-- ===== src/Connection/Logged.antt =====
-- About the records of the queries that `executeQuery` makes with `logQuery` and
-- `recordUnsupported`.
use mysqlmock.Connection.Classify.{
  is_runtime_schema_changing_query, is_runtime_schema_changing_statement,
}
use mysqlmock.Base.{
  ◌≡◌, refl, ap, ◌∙◌, Bool, true, false, Option, none, some, List, [], ◌∷◌, ◌++◌, if◌then◌else◌,
  Bytes, codes, beq, trim_space,
}
use mysqlmock.Errors.{Result, ok, err}
use mysqlmock.Value.{Value}
use mysqlmock.Rows.{ResultSet}
use mysqlmock.Response.{OkResult}
use mysqlmock.Stores.Diagnostics.{QueryEvent, Diagnostics, run_call}
use mysqlmock.Rules.Execution.{execute_rule}
use mysqlmock.Connection.{no_effects}
use mysqlmock.Connection.Backend.{
  QueryFailure, Reply, ok_reply, set_reply, ddl_compatibility, Backend,
}
use mysqlmock.Connection.Variables.{select_variable}
use mysqlmock.Connection.Logging.{
  ◌>>=◌, ◌>>◌, State, Step, done, fail, and_then, with_context, log_event, note_unsupported,
  log_query, record_unsupported_query,
}
use mysqlmock.Connection.Writes.{
  Statement, record_route, try, refuse, write_on, ddl_answer, write_query,
}
use mysqlmock.Connection.Routes.{
  Route, to_set_names, to_set_autocommit, to_set_transaction, to_set_variables, to_version,
  to_advisory_lock, to_database, to_user, to_connection_id, to_last_insert_id, to_row_count,
  to_version_variable, to_variable, to_show_variables, to_task, to_create_database, to_begin,
  to_commit, to_rollback, to_rollback_and_chain, to_rollback_to_savepoint, to_savepoint, to_read,
  to_write, to_unsupported, route_of,
}
use mysqlmock.Connection.Routing.{
  statement, compat, variable_answer, replied, run_route, rule_answer, give, after_rules, offer,
  execute_query,
}
use mysqlmock.Connection.Kept.{
  Keeps, Keeps-then, Keeps-refl, done-Keeps, fail-Keeps, diagnostics_of, with_conn-Keeps,
  exec_sqlite-Keeps,
}
use mysqlmock.Connection.KeptWrites.{
  commit-Keeps, rollback-Keeps, rollback_and_chain-Keeps, rollback_to_savepoint-Keeps,
  perform_task-Keeps, try-Keeps, run_upsert-Keeps, run_set_variables-Keeps, run_set_names-Keeps,
  run_advisory_lock-Keeps, run_read-Keeps, replied-Keeps,
}

module _ {D : Type 0} where
  -- The records of the queries have grown by one event, which is about the statement.
  pub record LoggedOnce (sql : Bytes) (s s' : State D) : Type 0 where
    pub event : QueryEvent
    pub same_text : event.sql ≡ sql
    pub grown : s'.context.diagnostics.queries ≡ s.context.diagnostics.queries ++ event ∷ []

  record Logs {A : Type 0} (sql : Bytes) (m : Step D A) : Type 0 where
    once : (s : State D) → LoggedOnce sql s (m s).1

  then_kept :
      {sql : Bytes} {s s1 s2 : State D}
      → LoggedOnce sql s s1
      → diagnostics_of s2 ≡ diagnostics_of s1
      → LoggedOnce sql s s2
  then_kept l k = record {
    event = l.event;
    same_text = l.same_text;
    grown = ap (λ (d : Diagnostics). d.queries) k ∙ l.grown;
  }

  log_query-LoggedOnce :
      (command route sql normalized : Bytes) (s : State D)
      → LoggedOnce sql s (log_query command route sql normalized s).1
  unfolding log_query log_event with_context run_call
  log_query-LoggedOnce command route sql normalized s = record {
    event = _;
    same_text = refl;
    grown = refl;
  }

  routed-Logs :
      {A : Type 0} (route : Bytes) (q : Statement) {k : Step D A}
      → Keeps diagnostics_of k
      → Logs q.sql (record_route route q >> k)
  unfolding ◌>>◌ ◌>>=◌ and_then log_query with_context
  routed-Logs route q kk = record {
    once = λ s. then_kept (log_query-LoggedOnce q.command route q.sql q.normalized s) (kk.same _);
  }

  refuse-Logs :
      (b : Backend D) (stage text : Bytes) (q : Statement) → Logs q.sql (refuse b stage text q)
  unfolding refuse ◌>>◌ ◌>>=◌ and_then fail record_unsupported_query with_context note_unsupported
      log_event run_call
  refuse-Logs b stage text q = record {
    once = λ s. record { event = _; same_text = refl; grown = refl };
  }

  variable_answer-Logs :
      (b : Backend D) (q : Statement) (o : Option ResultSet) → Logs q.sql (variable_answer b q o)
  unfolding variable_answer
  variable_answer-Logs b q none = refuse-Logs b (codes "compat") q.normalized q
  variable_answer-Logs b q (some rs) = routed-Logs (codes "compat") q (done-Keeps (set_reply rs))

  write_on-Logs : (b : Backend D) (q : Statement) → Logs q.sql (write_on b q)
  unfolding write_on
  write_on-Logs b q =
      either (is_runtime_schema_changing_statement q.trimmed)
        (routed-Logs (codes "compat") q (done-Keeps (ok_reply no_effects)))
        (either (is_runtime_schema_changing_query q.upper) (refuse-Logs b _ q.sql q)
          (routed-Logs (codes "sqlite") q (replied-Keeps (run_upsert-Keeps b q))))
    where
      either :
          (p : Bool) {m n : Step D Reply}
          → Logs q.sql m
          → Logs q.sql n
          → Logs q.sql (if p then m else n)
      either true lm ln = lm
      either false lm ln = ln

  ddl_answer-Logs :
      (b : Backend D) (q : Statement) (r : Result QueryFailure (Option OkResult))
      → Logs q.sql (ddl_answer b q r)
  unfolding ddl_answer
  ddl_answer-Logs b q (err e) = routed-Logs (codes "compat") q (fail-Keeps e)
  ddl_answer-Logs b q (ok (some r)) = routed-Logs (codes "compat") q (done-Keeps (ok_reply r))
  ddl_answer-Logs b q (ok none) = write_on-Logs b q

  before_kept :
      {sql : Bytes} {s s1 s2 : State D}
      → diagnostics_of s1 ≡ diagnostics_of s
      → LoggedOnce sql s1 s2
      → LoggedOnce sql s s2
  before_kept k l = record {
    event = l.event;
    same_text = l.same_text;
    grown = l.grown ∙ ap (λ (d : Diagnostics). d.queries ++ l.event ∷ []) k;
  }

  write_query-Logs : (b : Backend D) (q : Statement) → Logs q.sql (write_query b q)
  unfolding write_query
  write_query-Logs b q = record {
    once = λ s. before_kept ((try-Keeps b (ddl_compatibility q.trimmed)).same s) (
        (ddl_answer-Logs b q (try b (ddl_compatibility q.trimmed) s).0).once
          (try b (ddl_compatibility q.trimmed) s).1);
  }

  compat-Logs :
      {A : Type 0} (q : Statement) {k : Step D A}
      → Keeps diagnostics_of k
      → Logs q.sql (compat q >> k)
  compat-Logs q kk = routed-Logs (codes "compat") q kk

  sqlite-Logs :
      (q : Statement) {m : Step D OkResult}
      → Keeps diagnostics_of m
      → Logs q.sql (record_route (codes "sqlite") q >> replied m)
  sqlite-Logs q km = routed-Logs (codes "sqlite") q (replied-Keeps km)

  run_route-Logs : (b : Backend D) (q : Statement) (r : Route) → Logs q.sql (run_route b q r)
  unfolding run_route
  run_route-Logs b q to_set_names = compat-Logs q (run_set_names-Keeps b q)
  run_route-Logs b q to_set_autocommit =
      compat-Logs q (Keeps-then (with_conn-Keeps _) (done-Keeps _))
  run_route-Logs b q to_set_transaction = compat-Logs q (done-Keeps _)
  run_route-Logs b q to_set_variables = compat-Logs q (run_set_variables-Keeps b q)
  run_route-Logs b q (to_version column) = compat-Logs q (done-Keeps _)
  run_route-Logs b q to_advisory_lock = compat-Logs q (run_advisory_lock-Keeps q)
  run_route-Logs b q (to_database column) = compat-Logs q (Keeps-refl (λ s. unfold done in refl))
  run_route-Logs b q (to_user column) = compat-Logs q (Keeps-refl (λ s. unfold done in refl))
  run_route-Logs b q to_connection_id = compat-Logs q (Keeps-refl (λ s. unfold done in refl))
  run_route-Logs b q to_last_insert_id = compat-Logs q (Keeps-refl (λ s. unfold done in refl))
  run_route-Logs b q to_row_count = compat-Logs q (Keeps-refl (λ s. unfold done in refl))
  run_route-Logs b q to_version_variable = compat-Logs q (done-Keeps _)
  run_route-Logs b q to_variable = record {
    once = λ s.
        (variable_answer-Logs b q (
            select_variable b.settings s.conn.session.status_flags s.context.vars
              q.normalized)).once
          s;
  }
  run_route-Logs b q to_show_variables = compat-Logs q (Keeps-refl (λ s. unfold done in refl))
  run_route-Logs b q (to_task task) = compat-Logs q (perform_task-Keeps b task)
  run_route-Logs b q to_create_database = compat-Logs q (done-Keeps _)
  run_route-Logs b q to_begin = sqlite-Logs q (exec_sqlite-Keeps b (codes "BEGIN") [])
  run_route-Logs b q to_commit = sqlite-Logs q (commit-Keeps b)
  run_route-Logs b q to_rollback = sqlite-Logs q (rollback-Keeps b)
  run_route-Logs b q to_rollback_and_chain = sqlite-Logs q (rollback_and_chain-Keeps b)
  run_route-Logs b q to_rollback_to_savepoint =
      sqlite-Logs q (rollback_to_savepoint-Keeps b q.trimmed)
  run_route-Logs b q to_savepoint = sqlite-Logs q (exec_sqlite-Keeps b q.trimmed [])
  run_route-Logs b q to_read = routed-Logs (codes "sqlite") q (run_read-Keeps b q)
  run_route-Logs b q to_write = write_query-Logs b q
  run_route-Logs b q to_unsupported = refuse-Logs b (codes "unsupported") q.sql q

  give-Keeps : (r : Result QueryFailure Reply) → Keeps {D = D} diagnostics_of (give r)
  give-Keeps r = Keeps-refl (λ s. refl)

  after_rules-Logs :
      (b : Backend D) (q : Statement) (o : Option (Result QueryFailure Reply))
      → Logs q.sql (after_rules b q o)
  unfolding after_rules
  after_rules-Logs b q none = run_route-Logs b q (route_of q)
  after_rules-Logs b q (some r) = routed-Logs (codes "rules") q (give-Keeps r)

  -- In executeQuery, a statement that is not blank adds exactly one event to the records of the
  -- queries, with its text, whoever answers it and whatever fails.
  pub execute_query-LoggedOnce :
      (b : Backend D) (command sql : Bytes) (args : List Value) (s : State D)
      → beq (trim_space sql) [] ≡ false
      → LoggedOnce sql s (execute_query b command sql args s).1
  unfolding execute_query offer
  execute_query-LoggedOnce b command sql args s h =
      let (outcome, used) = execute_rule b.go b.wait_ends b.rules sql args s.context.once_used in
      let offered : State D = record s { context = record s.context { once_used = used } } in
      rw h (
        before_kept {s1 = offered} refl
          ((after_rules-Logs b (statement command sql args) (rule_answer b outcome)).once offered))
