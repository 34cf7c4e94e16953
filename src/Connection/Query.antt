-- ===== src/Connection/Query.antt =====
-- COM_QUERY and the queries of prepared statements (`handleQuery` of pkg/mysqlmock/protocol.go, the
-- part of `handleStmtExecute` of prepared.go that looks at what `executeQuery` gives).
use mysqlmock.Base.{[], if◌then◌else◌, Bytes, codes}
use mysqlmock.Base.Int.{negsuc}
use mysqlmock.Errors.{Result, ok, err, DecodeError}
use mysqlmock.Packet.{
  Net, NetError, Exec, pure, read_packet, write_packet, rule_disconnect, empty_command_packet,
  handshake_refused, end_of_input,
}
use mysqlmock.Packet
use mysqlmock.Response.{MysqlError, write_ok, write_err, write_result_set, write_packets}
use mysqlmock.Scanner.{normalize_sql}
use mysqlmock.Prepared.Queries.{
  Outcome, ok_response, result_set, query_error, disconnect, unsupported, record_result, ReplyError,
  Server,
}
use mysqlmock.Connection.{Context}
use mysqlmock.Connection.Logging.{State, record_unsupported_query}
use mysqlmock.Connection.Backend.{
  QueryFailure, mysql_failure, rule_disconnected, other_failure, Reply, ok_reply, set_reply,
  sqlite_reply, Backend,
}
use mysqlmock.Connection.Routing.{execute_query}

module _ {D : Type 0} where
  -- What is sent for an error that no rule and no check has made.
  unfoldable pub sqlite_failure : Backend D → Bytes → Bytes → Bytes → State D → MysqlError × State D
  sqlite_failure b command sql message s =
      let noted =
        (if b.is_syntax_error message
          then (record_unsupported_query b command sql (normalize_sql sql) (codes "sqlite") s).1
          else s) in
      (b.map_sqlite_error noted.context.database sql message, noted)

  abbrev after_result : Outcome → State D → State D
  after_result o s = record s { conn = record_result o s.conn }

  -- The answer of `handleQuery` to what `executeQuery` gives.
  unfoldable pub query_answer :
      Backend D → Bytes → Result QueryFailure Reply → State D → Exec Unit × State D
  unfolding sqlite_failure
  query_answer b sql (err (mysql_failure e)) s = (write_err 1 e, s)
  query_answer b sql (err rule_disconnected) s = ((λ net. (err rule_disconnect, net)), s)
  query_answer b sql (err (other_failure message)) s =
      let (e, s') = sqlite_failure b (codes "COM_QUERY") sql message s in (write_err 1 e, s')
  query_answer b sql (ok (ok_reply r)) s =
      (write_ok s.conn.session 1 r, after_result (ok_response r) s)
  query_answer b sql (ok (set_reply rs)) s =
      (write_result_set b.go s.conn.session 1 rs, after_result (result_set rs) s)
  query_answer b sql (ok (sqlite_reply payloads)) s = (
    λ net.
        Packet.continue (write_packets 1 payloads net).0 (λ seq. pure tt)
          (write_packets 1 payloads net).1,
    record s { conn = record s.conn { last_affected_rows = negsuc 0 } },
  )

  -- `handleQuery`
  unfoldable pub handle_query : Backend D → Bytes → State D → Exec Unit × State D
  unfolding query_answer
  handle_query b sql s =
      let (result, s') = execute_query b (codes "COM_QUERY") sql [] s in
      query_answer b sql result s'

  -- The outcomes that `handleStmtExecute` tells apart.
  unfoldable pub statement_outcome :
      Backend D → Bytes → Result QueryFailure Reply → State D → Outcome × State D
  unfolding sqlite_failure
  statement_outcome b sql (err (mysql_failure e)) s = (query_error e, s)
  statement_outcome b sql (err rule_disconnected) s = (disconnect, s)
  statement_outcome b sql (err (other_failure message)) s =
      let (e, s') = sqlite_failure b (codes "COM_STMT_EXECUTE") sql message s in (query_error e, s')
  statement_outcome b sql (ok (ok_reply r)) s = (ok_response r, s)
  statement_outcome b sql (ok (set_reply rs)) s = (result_set rs, s)
  statement_outcome b sql (ok (sqlite_reply payloads)) s = (unsupported, s)

  -- The texts of errors, and how the prepared statements run their queries.
  unfoldable pub statement_server :
      Backend D → (DecodeError → Bytes) → (ReplyError → Bytes) → Server (Context D)
  unfolding statement_outcome
  statement_server b decode_error_text reply_error_text = record {
    go = b.go;
    decode_error_text = decode_error_text;
    reply_error_text = reply_error_text;
    execute_query = λ c w sql args.
        let (result, s) =
          execute_query b (codes "COM_STMT_EXECUTE") sql args (record { conn = c; context = w }) in
        let (outcome, s') = statement_outcome b sql result s in
        (outcome, s'.conn.session, s'.context);
  }
