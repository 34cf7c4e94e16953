-- ===== src/Connection/Logging.antt =====
-- What the server notes of a statement (`logQuery`, `recordUnsupported`, `unsupportedError` of
-- pkg/mysqlmock/protocol.go, and the methods of those names of server.go, but for the writing of
-- the log), and the state that the routing works on.
use mysqlmock.Base.{List, [], ◌++◌, if◌then◌else◌, Bytes, codes, beq}
use mysqlmock.Errors.{Result, ok, err}
use mysqlmock.Response.{MysqlError, err_packet}
use mysqlmock.Scanner.{normalize_sql}
use mysqlmock.Prepared.Statements.{Conn}
use mysqlmock.Stats.{Recording, record_query, record_unsupported, run_recording, run_recordings}
use mysqlmock.Stores.Diagnostics.{UnsupportedQuery, QueryEvent, Diagnostics, run_call}
use mysqlmock.Stores.Diagnostics
use mysqlmock.Connection.{Settings, Context}
use mysqlmock.Connection.Backend.{QueryFailure, Backend}

-- The connection, and everything else that a statement can change.
pub record State (D : Type 0) : Type 0 where
  pub conn : Conn
  pub context : Context D

-- Work that may give an error back; what was changed stays changed.
abbrev pub Step : Type 0 → Type 0 → Type 0
Step D A = State D → Result QueryFailure A × State D

unfoldable pub done : {D A : Type 0} → A → Step D A
done a s = (ok a, s)

unfoldable pub fail : {D A : Type 0} → QueryFailure → Step D A
fail e s = (err e, s)

unfoldable pub and_then : {D A B : Type 0} → Result QueryFailure A → (A → Step D B) → Step D B
and_then (ok a) f s = f a s
and_then (err e) f s = (err e, s)

infixl 5 ◌>>=◌ ◌>>◌
unfoldable pub ◌>>=◌ : {D A B : Type 0} → Step D A → (A → Step D B) → Step D B
unfolding and_then
◌>>=◌ m f s = and_then (m s).0 f (m s).1

unfoldable pub ◌>>◌ : {D B : Type 0} → Step D (Unit {0}) → Step D B → Step D B
m >> k = m >>= λ _. k

-- `unsupportedError`
unfoldable pub unsupported_error : Settings → Bytes → MysqlError
unsupported_error cfg sql =
    err_packet cfg.unsupported_code cfg.unsupported_sql_state
      (cfg.unsupported_message ++ codes ": " ++ sql)

module _ {D : Type 0} where
  unfoldable pub with_context : (Context D → Context D) → Step D Unit
  with_context f s = (ok tt, record s { context = f s.context })

  unfoldable pub with_conn : (Conn → Conn) → Step D Unit
  with_conn f s = (ok tt, record s { conn = f s.conn })

  -- Server.logQuery
  unfoldable pub log_event : QueryEvent → Context D → Context D
  log_event e w =
      let event : QueryEvent = record e {
        event = if beq e.event [] then codes "query" else e.event;
      } in
      record w {
        stats = run_recording (record_query e.command e.route e.normalized_sql) w.stats;
        diagnostics = run_call (Diagnostics.record_query event) w.diagnostics;
      }

  -- Server.recordUnsupported
  unfoldable pub note_unsupported : Backend D → UnsupportedQuery → Context D → Context D
  unfolding log_event
  note_unsupported b u w =
      let full : UnsupportedQuery = record u {
        normalized_sql = if beq u.normalized_sql [] then normalize_sql u.sql else u.normalized_sql;
        route_stage = if beq u.route_stage [] then codes "unsupported" else u.route_stage;
        command = if beq u.command [] then codes "COM_QUERY" else u.command;
      } in
      let noted : UnsupportedQuery = record full { suggestion = b.suggested_rule full } in
      log_event
        (record {
          event = codes "query";
          connection_id = noted.connection_id;
          command = noted.command;
          route = noted.route_stage;
          database = noted.current_db;
          sql = noted.sql;
          normalized_sql = noted.normalized_sql;
          suggestion = noted.suggestion;
        })
        (record w {
          stats = run_recording record_unsupported w.stats;
          diagnostics = run_call (Diagnostics.record_unsupported noted) w.diagnostics;
        })

  -- `mysqlConn.logQuery`
  unfoldable pub log_query : (command route sql normalized : Bytes) → Step D Unit
  log_query command route sql normalized s =
      with_context
        (log_event (record {
          event = codes "query";
          connection_id = s.context.connection_id;
          command = command;
          route = route;
          database = s.conn.session.current_db;
          sql = sql;
          normalized_sql = normalized;
          suggestion = [];
        }))
        s

  -- `mysqlConn.recordUnsupported`
  unfoldable pub record_unsupported_query :
      Backend D → (command sql normalized route_stage : Bytes) → Step D Unit
  record_unsupported_query b command sql normalized route_stage s =
      with_context
        (note_unsupported b (record {
          sql = sql;
          normalized_sql = normalized;
          connection_id = s.context.connection_id;
          command = command;
          current_db = s.conn.session.current_db;
          route_stage = route_stage;
          suggestion = [];
        }))
        s

  -- What other components record in the statistics.
  abbrev pub record_stats : List Recording → Context D → Context D
  record_stats xs w = record w { stats = run_recordings xs w.stats }
