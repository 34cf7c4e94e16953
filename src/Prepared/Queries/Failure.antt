-- ===== src/Prepared/Queries/Failure.antt =====
-- About `handleStmtExecute` when `writeBinaryResultSet` cannot encode a row.
use mysqlmock.Base.{[], ◌^◌, ◌≤◌, ◌<◌, ◌≡◌, refl, some, List, ◌∷◌, ge→ltb, length, Bytes}
use mysqlmock.Value.{Value, Runtime}
use mysqlmock.Rows.{ResultColumn, ResultSet}
use mysqlmock.Response.{Session, err_payload, write_err}
use mysqlmock.Prepared.Statements.{Conn, unknown_error, statement_id}
use mysqlmock.Prepared.Queries.{
  rows_or_error, reply_or_error, result_set, encode_failed, binary_rows, write_binary_result_set,
  Server, reply, run_decoded, execute_statement, handle_stmt_execute,
}
use mysqlmock.Prepared.Encode.{EncodeError, binary_row}
use mysqlmock.Prepared.Arguments.{PreparedStatement, decode_execute_args}
use mysqlmock.Map.{insert, lookup, nat_eq}
use mysqlmock.Packet.{Net}
use mysqlmock.Packet.Emits.{Emits}
use mysqlmock.Packet.Framing.{frame, write_packet-Emits}
use mysqlmock.Errors.{ok, err}

-- Of the rows, the first that cannot be encoded has the error `e`.
pub data FirstError (go : Runtime) (columns : List ResultColumn) (e : EncodeError)
    : List (List Value) → Type 0 where
  here :
      {row : List Value} {rows : List (List Value)}
      → binary_row go columns row ≡ err e
      → FirstError go columns e (row ∷ rows)
  later :
      {row : List Value} {rows : List (List Value)} (payload : Bytes)
      → binary_row go columns row ≡ ok payload
      → FirstError go columns e rows
      → FirstError go columns e (row ∷ rows)

binary_rows-FirstError :
    {go : Runtime} {columns : List ResultColumn} {e : EncodeError} {rows : List (List Value)}
    → FirstError go columns e rows
    → binary_rows go columns rows ≡ err e
unfolding binary_rows
binary_rows-FirstError (here p) = rw p refl
binary_rows-FirstError (later payload p f) = rw (p, binary_rows-FirstError f) refl

-- The connection on which the query of a statement runs.
abbrev pub executing : {W : Type 0} → Server W → Bytes → PreparedStatement → Conn → Conn
executing server payload stmt c = record c {
  statements =
      insert (statement_id payload)
        (record (decode_execute_args server.go stmt payload).1 { long_data = [] }) c.statements;
}

-- COM_STMT_EXECUTE of a statement that is there, with arguments that decode, whose query gives a
-- result set with a row that cannot be encoded: the client is sent one ERR packet with number 1,
-- with the error of the first such row, and nothing of the result set; all of it when the write
-- meets no fault, a beginning of it on a fault.
pub execute_encoding_failure :
    {W : Type 0} (server : Server W) (payload : Bytes) (c : Conn) (w w' : W)
    (stmt : PreparedStatement) (args : List Value) (rs : ResultSet) (session : Session)
    (e : EncodeError) (net : Net)
    → 9 ≤ length payload
    → lookup (statement_id payload) c.statements ≡ some stmt
    → (decode_execute_args server.go stmt payload).0 ≡ ok args
    → server.execute_query (executing server payload stmt c) w stmt.sql args
      ≡ (result_set rs, session, w')
    → FirstError server.go rs.columns e rs.rows
    → length (err_payload (unknown_error (server.reply_error_text (encode_failed e)))) < 2 ^ 24
    → Emits net
        ((handle_stmt_execute server payload c w).0 net)
        (frame 1 (err_payload (unknown_error (server.reply_error_text (encode_failed e)))))
unfolding handle_stmt_execute execute_statement run_decoded reply reply_or_error write_err
    write_binary_result_set rows_or_error
execute_encoding_failure server payload c w w' stmt args rs session e net long found decoded ran
      fails h =
    let m = err_payload (unknown_error (server.reply_error_text (encode_failed e))) in
    rw (ge→ltb (length payload) 9 long, found, decoded, ran, binary_rows-FirstError fails)
      (write_packet-Emits 1 m net h)
