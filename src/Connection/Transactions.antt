-- ===== src/Connection/Transactions.antt =====
-- BEGIN, COMMIT, ROLLBACK and the savepoints (`executeQuery`, `execSQLiteTransactionPhase` of
-- pkg/mysqlmock/protocol.go, without the timings).

use mysqlmock.Base.{Option, none, some, [], Bytes, codes}
use mysqlmock.Response.{OkResult}
use mysqlmock.Prepared.Statements.{Conn}
use mysqlmock.Connection.{server_status_in_trans, clear_flag, with_flags}
use mysqlmock.Connection.Backend.{QueryFailure, Backend}
use mysqlmock.Connection.Logging.{◌>>=◌, ◌>>◌, Step, done, fail, with_conn}
use mysqlmock.Connection.Sqlite.{with_database, with_check, exec_sqlite}

unfoldable pub leave_transaction : Conn → Conn
unfolding clear_flag
leave_transaction c = with_flags (clear_flag server_status_in_trans c.session.status_flags) c

module _ {D : Type 0} where
  unfoldable pub commit : Backend D → Step D OkResult
  unfolding exec_sqlite leave_transaction
  commit b = do
    result ← exec_sqlite b (codes "COMMIT") []
    with_database b.clear_restore_tables
    with_conn leave_transaction
    done result

  unfoldable pub restored : Backend D → OkResult → Option QueryFailure → Step D OkResult
  restored b result none = with_database b.clear_restore_tables >> done result
  restored b result (some e) = fail e

  unfoldable pub restore_after : Backend D → OkResult → Step D OkResult
  unfolding restored leave_transaction
  restore_after b result s =
      let (e, d) = b.restore_sequences s.context.database in
      restored b result e
        (record { conn = leave_transaction s.conn; context = record s.context { database = d } })

  unfoldable pub rollback : Backend D → Step D OkResult
  unfolding exec_sqlite restore_after
  rollback b = exec_sqlite b (codes "ROLLBACK") [] >>= restore_after b

  unfoldable pub rollback_and_chain : Backend D → Step D OkResult
  unfolding exec_sqlite leave_transaction
  rollback_and_chain b = do
    exec_sqlite b (codes "ROLLBACK") [] >>= λ _. done tt
    with_conn leave_transaction
    with_check b.restore_sequences
    with_database b.clear_restore_tables
    exec_sqlite b (codes "BEGIN") []

  unfoldable pub rollback_to_savepoint : Backend D → Bytes → Step D OkResult
  unfolding exec_sqlite
  rollback_to_savepoint b sql = do
    result ← exec_sqlite b sql []
    with_check b.restore_sequences
    done result
