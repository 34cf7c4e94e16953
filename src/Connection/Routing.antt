-- ===== src/Connection/Routing.antt =====
-- What is done with a statement (`executeQuery` of pkg/mysqlmock/protocol.go, but for its timings,
-- and `advisoryLockResult` of active_record_compat.go).

use mysqlmock.Base.{
  ℕ, Option, none, some, List, [], ◌∷◌, ◌++◌, if◌then◌else◌, Bytes, codes, beq, to_upper,
  has_prefix, trim_prefix, trim_suffix, trim_space,
}
use mysqlmock.Base.Int.{pos}
use mysqlmock.Errors.{Result, ok, err}
use mysqlmock.Value.{Value, text, null, signed_num, unsigned_num, int, int64, uint32, uint64}
use mysqlmock.Rows.{ResultSet}
use mysqlmock.Response.{OkResult}
use mysqlmock.Prepared.Statements.{unknown_error}
use mysqlmock.Scanner.{normalize_sql}
use mysqlmock.Rules.Execution.{
  RuleOutcome, unmatched, rule_failed, interrupted, rule_ok, rule_result_set, rule_mysql_error,
  disconnects, execute_rule,
}
use mysqlmock.Stores.Locks.{Locks, get, release}
use mysqlmock.Connection.{server_status_in_trans, has_flag, with_flags, no_effects}
use mysqlmock.Connection.Classify.{advisory_lock_name}
use mysqlmock.Connection.Backend.{
  QueryFailure, mysql_failure, rule_disconnected, other_failure, Reply, ok_reply, set_reply,
  query_sqlite_text, Backend,
}
use mysqlmock.Connection.Variables.{
  set_autocommit, set_names, set_variables, one_row, select_variable, show_variables,
}
use mysqlmock.Connection.Logging.{◌>>=◌, ◌>>◌, Step, done, fail, with_context, with_conn}
use mysqlmock.Connection.Sqlite.{exec_sqlite}
use mysqlmock.Connection.Transactions.{commit, rollback, rollback_and_chain, rollback_to_savepoint}
use mysqlmock.Connection.Writes.{Statement, record_route, perform_task, refuse, write_query}
use mysqlmock.Connection.Routes.{
  Route, to_set_names, to_set_autocommit, to_set_transaction, to_set_variables, to_version,
  to_advisory_lock, to_database, to_user, to_connection_id, to_last_insert_id, to_row_count,
  to_version_variable, to_variable, to_show_variables, to_task, to_create_database, to_begin,
  to_commit, to_rollback, to_rollback_and_chain, to_rollback_to_savepoint, to_savepoint, to_read,
  to_write, to_unsupported, route_of,
}

-- `currentUser`
unfoldable pub current_user : Bytes → Bytes
current_user user = (if beq user [] then codes "mysqlmock" else user) ++ codes "@%"

-- The expression of `advisoryLockResult`.
abbrev pub lock_expression : Bytes → Bytes
lock_expression trimmed =
    trim_suffix (trim_space (trim_prefix (trim_space trimmed) (codes "SELECT"))) (codes ";")

abbrev pub released_value : Option ℕ → Value
released_value none = null
released_value (some n) = signed_num int (pos n)

-- `advisoryLockResult`
unfoldable pub advisory_lock_result : ℕ → Bytes → Locks → ResultSet × Locks
unfolding one_row
advisory_lock_result connection trimmed locks =
    let expr = lock_expression trimmed in
    elim (advisory_lock_name expr) [
      | none ↦ (one_row expr null, locks)
      | some name ↦
          let (after_get, taken) = get name connection locks in
          let (after_release, given) = release name connection locks in
          if has_prefix (to_upper (trim_space expr)) (codes "RELEASE_LOCK")
          then (one_row expr (released_value given), after_release)
          else (one_row expr (signed_num int (pos taken)), after_get)
    ]

-- A statement with its texts.
abbrev pub statement : Bytes → Bytes → List Value → Statement
statement command sql args = record {
  command = command;
  sql = sql;
  trimmed = trim_space sql;
  normalized = normalize_sql (trim_space sql);
  upper = to_upper (normalize_sql (trim_space sql));
  args = args;
}

module _ {D : Type 0} where
  abbrev pub compat : Statement → Step D Unit
  compat q = record_route (codes "compat") q

  -- A row that the connection knows by itself.
  abbrev pub row : Bytes → Value → Step D Reply
  row name value = done (set_reply (one_row name value))

  -- Statements that SQLite is told with no look at what comes of them.
  unfoldable pub tell : Backend D → List Bytes → Step D Unit
  tell b [] s = done tt s
  tell b (query ∷ queries) s =
      let (result, d) = b.exec_context s.context.database query [] in
      tell b queries (record s { context = record s.context { database = d } })

  -- `setVariables` on the connection.
  unfoldable pub run_set_variables : Backend D → Statement → Step D Reply
  run_set_variables b q s =
      let (v, told) =
        set_variables b.settings (has_flag server_status_in_trans s.conn.session.status_flags)
          q.trimmed s.context.vars in
      (tell b told >> done (ok_reply no_effects))
        (record s { context = record s.context { vars = v } })

  unfoldable pub run_set_names : Backend D → Statement → Step D Reply
  run_set_names b q =
      with_context (λ w. record w { vars = set_names b.settings q.normalized w.vars })
      >> run_set_variables b q

  unfoldable pub run_advisory_lock : Statement → Step D Reply
  run_advisory_lock q s =
      let (rs, locks) = advisory_lock_result s.context.connection_id q.trimmed s.context.locks in
      (ok (set_reply rs), record s { context = record s.context { locks = locks } })

  -- The answer of `selectVariable`.
  unfoldable pub variable_answer : Backend D → Statement → Option ResultSet → Step D Reply
  variable_answer b q none = refuse b (codes "compat") q.normalized q
  variable_answer b q (some rs) = compat q >> done (set_reply rs)

  unfoldable pub translated : Backend D → Statement → Step D Bytes
  translated b q s =
      let (sql, d) = b.translate_sql q.trimmed s.context.database in
      (ok sql, record s { context = record s.context { database = d } })

  unfoldable pub run_read : Backend D → Statement → Step D Reply
  run_read b q = do
    sql ← translated b q
    perform_task b (query_sqlite_text sql (beq q.command (codes "COM_QUERY")) q.args)

  abbrev pub replied : Step D OkResult → Step D Reply
  replied m = m >>= λ result. done (ok_reply result)

  -- What a route does with the statement.
  unfoldable pub run_route : Backend D → Statement → Route → Step D Reply
  run_route b q to_set_names = compat q >> run_set_names b q
  run_route b q to_set_autocommit =
      compat q
      >> (with_conn (λ c. with_flags (set_autocommit q.upper c.session.status_flags) c)
          >> done (ok_reply no_effects))
  run_route b q to_set_transaction = compat q >> done (ok_reply no_effects)
  run_route b q to_set_variables = compat q >> run_set_variables b q
  run_route b q (to_version column) = compat q >> row column (text b.settings.mysql_version)
  run_route b q to_advisory_lock = compat q >> run_advisory_lock q
  run_route b q (to_database column) =
      compat q >> λ s. row column (text s.conn.session.current_db) s
  run_route b q (to_user column) =
      compat q >> λ s. row column (text (current_user s.context.user)) s
  run_route b q to_connection_id =
      compat q >> λ s. row (codes "CONNECTION_ID()") (unsigned_num uint32 s.context.connection_id) s
  run_route b q to_last_insert_id =
      compat q >> λ s. row (codes "LAST_INSERT_ID()") (unsigned_num uint64 s.conn.last_insert_id) s
  run_route b q to_row_count =
      compat q >> λ s. row (codes "ROW_COUNT()") (signed_num int64 s.conn.last_affected_rows) s
  run_route b q to_version_variable =
      compat q >> row (codes "@@version") (text b.settings.mysql_version)
  run_route b q to_variable = λ s.
      variable_answer b q
        (select_variable b.settings s.conn.session.status_flags s.context.vars q.normalized) s
  run_route b q to_show_variables = compat q >> λ s.
      done (set_reply (show_variables b.settings s.conn.session.status_flags s.context.vars)) s
  run_route b q (to_task task) = compat q >> perform_task b task
  run_route b q to_create_database = compat q >> done (ok_reply no_effects)
  run_route b q to_begin =
      record_route (codes "sqlite") q >> replied (exec_sqlite b (codes "BEGIN") [])
  run_route b q to_commit = record_route (codes "sqlite") q >> replied (commit b)
  run_route b q to_rollback = record_route (codes "sqlite") q >> replied (rollback b)
  run_route b q to_rollback_and_chain =
      record_route (codes "sqlite") q >> replied (rollback_and_chain b)
  run_route b q to_rollback_to_savepoint =
      record_route (codes "sqlite") q >> replied (rollback_to_savepoint b q.trimmed)
  run_route b q to_savepoint =
      record_route (codes "sqlite") q >> replied (exec_sqlite b q.trimmed [])
  run_route b q to_read = record_route (codes "sqlite") q >> run_read b q
  run_route b q to_write = write_query b q
  run_route b q to_unsupported = refuse b (codes "unsupported") q.sql q

  -- The answer of the rules, if one of them takes the statement.
  unfoldable pub rule_answer : Backend D → RuleOutcome → Option (Result QueryFailure Reply)
  rule_answer b unmatched = none
  rule_answer b (rule_failed e) = some (err (other_failure (b.rule_error_text e)))
  rule_answer b interrupted = some (err (other_failure b.interrupted_text))
  rule_answer b (rule_ok r) = some (ok (ok_reply r))
  rule_answer b (rule_result_set rs) = some (ok (set_reply rs))
  rule_answer b (rule_mysql_error e) = some (err (mysql_failure e))
  rule_answer b disconnects = some (err rule_disconnected)

  abbrev pub give : Result QueryFailure Reply → Step D Reply
  give result s = (result, s)

  unfoldable pub after_rules :
      Backend D → Statement → Option (Result QueryFailure Reply) → Step D Reply
  unfolding run_route
  after_rules b q (some result) = record_route (codes "rules") q >> give result
  after_rules b q none = run_route b q (route_of q)

  -- A statement that is not blank.
  unfoldable pub offer : Backend D → Statement → Step D Reply
  unfolding rule_answer after_rules
  offer b q s =
      let (outcome, used) =
        execute_rule b.go b.wait_ends b.rules q.sql q.args s.context.once_used in
      after_rules b q (rule_answer b outcome)
        (record s { context = record s.context { once_used = used } })

  -- `executeQuery`
  unfoldable pub execute_query : Backend D → Bytes → Bytes → List Value → Step D Reply
  unfolding offer
  execute_query b command sql args =
      if beq (trim_space sql) []
      then fail (mysql_failure (unknown_error (codes "Unsupported query: empty SQL")))
      else offer b (statement command sql args)
