-- ===== src/Connection/Backend.antt =====
-- What the routing of statements (`executeQuery` of pkg/mysqlmock/protocol.go) uses of the rest of
-- the server: SQLite, the translation of SQL for it, the metadata, and the compatibility code.
use mysqlmock.Base.{Bool, Option, List, Bytes}
use mysqlmock.Base.Int.{ℤ}
use mysqlmock.Errors.{Result}
use mysqlmock.Value.{Value, Runtime}
use mysqlmock.Rows.{ResultSet}
use mysqlmock.Response.{OkResult, MysqlError}
use mysqlmock.Prepared.Statements.{Conn}
use mysqlmock.Rules.{PreparedRule, RuleError}
use mysqlmock.Stores.Diagnostics.{UnsupportedQuery}
use mysqlmock.Stats.{Recording}
use mysqlmock.Connection.{Settings, Context}

-- The errors that `executeQuery` gives back: `*mysqlError`, errRuleDisconnect, and any other error,
-- by its text.
pub data QueryFailure : Type 0 where
  mysql_failure : MysqlError → QueryFailure
  rule_disconnected : QueryFailure
  other_failure : Bytes → QueryFailure

-- The responses that `executeQuery` gives back: okResult, resultSet, and a `*sqliteResultSet`, by
-- the payloads of the packets that writing its rows as text sends, numbered from 1 on.
pub data Reply : Type 0 where
  ok_reply : OkResult → Reply
  set_reply : ResultSet → Reply
  sqlite_reply : List Bytes → Reply

-- Work on a statement that other components do.
pub data Task : Type 0 where
  list_tables : Task
  list_full_fields : Bytes → Task
  print_create_table : Bytes → Task
  list_keys : Bytes → Task
  -- whether the answer may be written as text while it is read
  query_information_schema : Bytes → Bool → List Value → Task
  query_sqlite_text : Bytes → Bool → List Value → Task

-- Work that may leave a statement to the next one that is asked (`handled` is false).
pub data Attempt : Type 0 where
  ddl_compatibility : Bytes → Attempt
  upsert : Bytes → List Value → Attempt
  insert_compatibility : Bytes → List Value → Attempt

pub record Backend (D : Type 0) : Type 0 where
  pub go : Runtime
  -- A rule's delay of so many milliseconds is cut short.
  pub wait_ends : ℤ → Bool
  pub rules : List PreparedRule
  pub settings : Settings
  pub suggested_rule : UnsupportedQuery → Bytes
  -- The text of the error for a rule that fails or is interrupted.
  pub rule_error_text : RuleError → Bytes
  pub interrupted_text : Bytes
  -- sqliteConn.ExecContext, with the numbers that RowsAffected and LastInsertId give
  pub exec_context : D → Bytes → List Value → Result Bytes (ℤ × ℤ) × D
  -- validateMySQLWriteValues, recordMySQLAutoIncrementAllocation, bumpSchemaVersion
  pub validate_write_values : D → Bytes → List Value → Option QueryFailure × D
  pub record_allocation : D → Bytes → OkResult → D
  pub bump_schema_version : D → D
  -- clearMySQLAutoIncrementRestoreTables, restoreMySQLAutoIncrementSequencesWithTiming
  pub clear_restore_tables : D → D
  pub restore_sequences : D → Option QueryFailure × D
  -- The tasks, with what they record in the statistics.
  pub perform : Task → Conn → Context D → Result QueryFailure Reply × List Recording × D
  pub attempt :
      Attempt → Conn → Context D → Result QueryFailure (Option OkResult) × List Recording × D
  -- translateSQLCached, translateSQLStatementsCached
  pub translate_sql : Bytes → D → Bytes × D
  pub translate_sql_statements : Bytes → D → List Bytes × D
  -- The four calls that keep metadata behind a write that SQLite has run.
  pub record_metadata : D → Bytes → D
  -- isSQLiteSyntaxError, mapSQLiteError
  pub is_syntax_error : Bytes → Bool
  pub map_sqlite_error : D → Bytes → Bytes → MysqlError
