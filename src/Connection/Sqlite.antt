-- ===== src/Connection/Sqlite.antt =====
-- Statements that SQLite runs (`execSQLite`, `execSQLiteStatements` of pkg/mysqlmock/protocol.go).
use mysqlmock.Base.{
  ℕ, Option, none, some, List, [], ◌∷◌, if◌then◌else◌, Bytes, codes, beq, equal_fold, trim_space,
}
use mysqlmock.Base.Int.{ℤ, pos, negsuc}
use mysqlmock.Errors.{Result, ok, err}
use mysqlmock.Value.{Value}
use mysqlmock.Response.{OkResult}
use mysqlmock.Prepared.Statements.{Conn, unknown_error}
use mysqlmock.Stats.{record_schema_change, run_recording}
use mysqlmock.Connection.{Context, server_status_in_trans, set_flag, with_flags, no_effects}
use mysqlmock.Connection.Classify.{is_schema_changing_query}
use mysqlmock.Connection.Backend.{QueryFailure, mysql_failure, other_failure, Backend}
use mysqlmock.Connection.Logging.{◌>>=◌, ◌>>◌, Step, done, fail, with_context, with_conn}

-- `uint64NonNegative`
abbrev pub uint64_non_negative : ℤ → ℕ
uint64_non_negative (pos n) = n
uint64_non_negative (negsuc n) = 0

-- The transaction is marked before SQLite has begun it.
unfoldable pub mark_transaction : Bytes → Conn → Conn
unfolding equal_fold set_flag
mark_transaction query c =
    if equal_fold (trim_space query) (codes "BEGIN")
    then with_flags (set_flag server_status_in_trans c.session.status_flags) c
    else c

module _ {D : Type 0} where
  abbrev pub with_database : (D → D) → Step D Unit
  with_database f = with_context (λ w. record w { database = f w.database })

  -- A check of the database that may refuse.
  abbrev pub refused : Option QueryFailure → Step D Unit
  refused none = done tt
  refused (some e) = fail e

  abbrev pub with_check : (D → Option QueryFailure × D) → Step D Unit
  with_check f s =
      let (e, d) = f s.context.database in
      refused e (record s { context = record s.context { database = d } })

  abbrev pub ran : Result Bytes (ℤ × ℤ) → Step D (ℤ × ℤ)
  ran (ok counts) = done counts
  ran (err message) = fail (other_failure message)

  -- sqliteConn.ExecContext
  unfoldable pub exec_context : Backend D → Bytes → List Value → Step D (ℤ × ℤ)
  exec_context b query args s =
      let (result, d) = b.exec_context s.context.database query args in
      ran result (record s { context = record s.context { database = d } })

  -- `bumpSchemaVersion`
  abbrev pub schema_changed : Backend D → Context D → Context D
  schema_changed b w = record w {
    stats = run_recording record_schema_change w.stats;
    database = b.bump_schema_version w.database;
  }

  -- `execSQLite`
  unfoldable pub exec_sqlite : Backend D → Bytes → List Value → Step D OkResult
  unfolding mark_transaction exec_context
  exec_sqlite b query args = do
    with_conn (mark_transaction query)
    with_check (λ d. b.validate_write_values d query args)
    counts ← exec_context b query args
    with_context (λ w. if is_schema_changing_query query then schema_changed b w else w)
    let result : OkResult = record {
      affected_rows = uint64_non_negative counts.0;
      last_insert_id = uint64_non_negative counts.1;
      warnings = 0;
    }
    with_database (λ d. b.record_allocation d query result)
    done result

  -- The loop over several statements, which gives the last result.
  unfoldable pub exec_each : Backend D → List Bytes → OkResult → Step D OkResult
  unfolding exec_sqlite
  exec_each b [] result = done result
  exec_each b (query ∷ queries) result =
      let skipped = exec_each b queries result in
      let run = (exec_sqlite b query [] >>= λ next. exec_each b queries next) in
      if beq (trim_space query) [] then skipped else run

  -- `execSQLiteStatements`
  unfoldable pub exec_sqlite_statements : Backend D → List Bytes → List Value → Step D OkResult
  unfolding exec_each
  exec_sqlite_statements b [] args = done no_effects
  exec_sqlite_statements b (query ∷ []) args = exec_sqlite b query args
  exec_sqlite_statements b (query ∷ (second ∷ rest)) [] =
      exec_each b (query ∷ (second ∷ rest)) no_effects
  exec_sqlite_statements b (query ∷ (second ∷ rest)) (a ∷ args) = fail (
      mysql_failure (unknown_error (codes "Unsupported parameterized multi-statement translation")))
