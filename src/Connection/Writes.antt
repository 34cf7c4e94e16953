-- ===== src/Connection/Writes.antt =====
-- Statements that write (the last part of `executeQuery` of pkg/mysqlmock/protocol.go).

use mysqlmock.Base.{◌||◌, Option, none, some, List, if◌then◌else◌, Bytes, codes, has_prefix}
use mysqlmock.Errors.{Result, ok, err}
use mysqlmock.Value.{Value}
use mysqlmock.Response.{OkResult}
use mysqlmock.Connection.{no_effects}
use mysqlmock.Connection.Classify.{
  is_runtime_schema_changing_query, is_runtime_schema_changing_statement,
}
use mysqlmock.Connection.Backend.{
  QueryFailure, mysql_failure, Reply, ok_reply, Task, Attempt, ddl_compatibility, upsert,
  insert_compatibility, Backend,
}
use mysqlmock.Connection.Logging.{
  ◌>>=◌, ◌>>◌, Step, done, fail, unsupported_error, log_query, record_unsupported_query,
  record_stats,
}
use mysqlmock.Connection.Sqlite.{with_database, exec_sqlite_statements}

-- A statement on its way through the routes: the command that brought it, its text, the text
-- without blanks around it, the normalized text, and that in capitals.
pub record Statement : Type 0 where
  pub command : Bytes
  pub sql : Bytes
  pub trimmed : Bytes
  pub normalized : Bytes
  pub upper : Bytes
  pub args : List Value

module _ {D : Type 0} where
  abbrev pub record_route : Bytes → Statement → Step D Unit
  record_route route q = log_query q.command route q.sql q.normalized

  -- Work of another component.
  abbrev pub perform_task : Backend D → Task → Step D Reply
  perform_task b task s =
      let (result, noted, d) = b.perform task s.conn s.context in
      (result, record s { context = record_stats noted (record s.context { database = d }) })

  abbrev pub try : Backend D → Attempt → Step D (Option OkResult)
  try b attempt s =
      let (result, noted, d) = b.attempt attempt s.conn s.context in
      (result, record s { context = record_stats noted (record s.context { database = d }) })

  -- Go on only if nobody has handled the statement.
  abbrev pub unless_handled : Step D OkResult → Option OkResult → Step D OkResult
  unless_handled later none = later
  unless_handled later (some result) = done result

  unfoldable pub translated_statements : Backend D → Bytes → Step D (List Bytes)
  translated_statements b sql s =
      let (statements, d) = b.translate_sql_statements sql s.context.database in
      (ok statements, record s { context = record s.context { database = d } })

  unfoldable pub run_write : Backend D → Statement → Step D OkResult
  unfolding translated_statements exec_sqlite_statements
  run_write b q = do
    statements ← translated_statements b q.trimmed
    result ← exec_sqlite_statements b statements q.args
    with_database (λ d. b.record_metadata d q.trimmed)
    done result

  unfoldable pub run_insert : Backend D → Statement → Step D OkResult
  unfolding run_write
  run_insert b q =
      if has_prefix q.upper (codes "INSERT ") || has_prefix q.upper (codes "REPLACE ")
      then (try b (insert_compatibility q.trimmed q.args) >>= unless_handled (run_write b q))
      else run_write b q

  unfoldable pub run_upsert : Backend D → Statement → Step D OkResult
  unfolding run_insert
  run_upsert b q =
      if has_prefix q.upper (codes "INSERT ")
      then (try b (upsert q.trimmed q.args) >>= unless_handled (run_insert b q))
      else run_insert b q

  -- A statement that is not supported.
  unfoldable pub refuse : Backend D → Bytes → Bytes → Statement → Step D Reply
  refuse b stage text q = do
    record_unsupported_query b q.command q.sql q.normalized stage
    fail (mysql_failure (unsupported_error b.settings text))

  -- What is left to do if the code for DDL has not handled the statement.
  unfoldable pub write_on : Backend D → Statement → Step D Reply
  unfolding run_upsert refuse
  write_on b q =
      if is_runtime_schema_changing_statement q.trimmed
      then (record_route (codes "compat") q >> done (ok_reply no_effects))
      else if is_runtime_schema_changing_query q.upper
      then refuse b (codes "runtime_schema_change_multi_statement") q.sql q
      else do record_route (codes "sqlite") q; result ← run_upsert b q; done (ok_reply result)

  -- The answer of the code for DDL; an error counts as handled.
  unfoldable pub ddl_answer :
      Backend D → Statement → Result QueryFailure (Option OkResult) → Step D Reply
  unfolding write_on
  ddl_answer b q (err e) = record_route (codes "compat") q >> fail e
  ddl_answer b q (ok (some result)) = record_route (codes "compat") q >> done (ok_reply result)
  ddl_answer b q (ok none) = write_on b q

  unfoldable pub write_query : Backend D → Statement → Step D Reply
  unfolding ddl_answer
  write_query b q s =
      let (result, s') = try b (ddl_compatibility q.trimmed) s in ddl_answer b q result s'
