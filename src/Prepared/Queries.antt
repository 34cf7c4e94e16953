-- ===== src/Prepared/Queries.antt =====
-- COM_STMT_EXECUTE (`handleStmtExecute`), over what runs the query, and the binary result set
-- that it answers with (`writeBinaryResultSet`).
pub mod Failure
use mysqlmock.Base.{
  ℕ, zero, suc, ◌+◌, ◌-◌, ◌*◌, ◌/◌, ◌%◌, ◌^◌, ◌≤◌, ◌<◌, ◌≡◌, refl, sym, ap, ◌∙◌, ◌≢◌, ◌↔◌, ◌⊎◌, inl,
  inr, Bool, true, false, not, ◌&&◌, ◌||◌, Option, none, some, List, [], ◌∷◌, ◌++◌, map, append-nil,
  append_assoc, arith, ltb, leb, ◌==◌, if◌then◌else◌, ltb→lt, ltb→ge, lt→ltb, ge→ltb, leb→le,
  le→leb, ==_iff, ==_refl, tests, Bool-cases, Option-cases, length, get_elem?, get_or, set, take,
  drop, replicate, slice, length-append, length-take, length-drop, length-replicate, length-set,
  take-length_append, drop-length_append, take-append-drop, take_all, drop_all, drop-drop, Bytes,
  codes, beq, beq_iff, beq_refl, lower_byte, upper_byte, to_lower, to_upper, equal_fold, has_prefix,
  trim_prefix, has_suffix, trim_suffix, contains, is_space, trim_space, fields, join, index_byte,
}
use mysqlmock.Value.{
  SignedKind, int, int8, int16, int32, int64, UnsignedKind, uint, uint8, uint16, uint32, uint64,
  FloatKind, float32, float64, Time, Value, null, bytes, text, time, bool, signed_num, unsigned_num,
  float_num, other, Runtime, pad, format_time, sprint, text_value,
}
use mysqlmock.Rows.{
  ResultColumn, no_column, ResultSet, column_definition, all_digits, text_value_for_column,
  append_plain_value, append_text_value_for_column, append_cell, text_row_from, text_row,
  field_type_from_value, mysql_field_type,
}
use mysqlmock.Map.{Eq, nat_eq, bytes_eq, Assoc, lookup, insert, delete, keys, is_some}
use mysqlmock.Prepared.Arguments.{
  PreparedStatement, bit_set, null_bit, in_param, decode_arg, decode_loop, param_type_at,
  param_types_at, decode_values, decode_execute_args,
}
use mysqlmock.Prepared.Encode.{
  EncodeError, count_mismatch, in_column, integer_overflow, cannot_convert, not_an_integer,
  not_a_float, not_a_datetime, parse_int, to_int64, to_float64, parse_date_time_string, as_time,
  is_zero_time, date_fields, append_time, append_binary_date_time, append_binary_value,
  in_column_error, set_null_bit, encode_cell, binary_row_from, binary_row,
}
use mysqlmock.Response.{
  Session, OkResult, MysqlError, fixed_sql_state, err_packet, client_deprecate_eof, ok_payload,
  eof_payload, eof_as_ok_payload, err_payload, write_ok, write_eof, write_eof_as_ok, write_err,
  deprecates_eof, next, write_column_definition_terminator, write_result_set_terminator,
  write_packets, write_rows, write_result_set,
}
use mysqlmock.Packet.{Net, NetError, rule_disconnect, Exec}
use mysqlmock.Errors.{DecodeError, Result, ok, err, ◌>>=◌}
use mysqlmock.Base.Int.{ℤ, pos, negsuc, signed}
use mysqlmock.Prepared.Statements.{
  Conn, mysql_err_unknown, unknown_error, param_column, param_columns, prepare_ok_payload,
  write_params, handle_stmt_prepare, statement_id, unknown_statement, add_long_data,
  handle_stmt_send_long_data, handle_stmt_close, handle_stmt_reset,
}

-- What a query comes to: `executeQuery`'s results, the errors already as the MySQL errors that
-- they are sent as.
pub data Outcome : Type 0 where
  ok_response : OkResult → Outcome
  result_set : ResultSet → Outcome
  query_error : MysqlError → Outcome
  disconnect : Outcome
  unsupported : Outcome

-- `recordResult`
unfoldable pub record_result : Outcome → Conn → Conn
record_result (ok_response r) c = record c {
  last_affected_rows = signed (2 ^ 64) r.affected_rows;
  last_insert_id = if r.last_insert_id == 0 then c.last_insert_id else r.last_insert_id;
}
record_result (result_set rs) c = record c { last_affected_rows = negsuc 0 }
record_result o c = c

pub data ReplyError : Type 0 where
  encode_failed : EncodeError → ReplyError
  network : NetError → ReplyError

unfoldable pub binary_rows :
    Runtime → List ResultColumn → List (List Value) → Result EncodeError (List Bytes)
binary_rows go columns [] = ok []
binary_rows go columns (row ∷ rows) = binary_row go columns row >>= λ payload.
    binary_rows go columns rows >>= λ payloads. ok (payload ∷ payloads)

unfoldable pub from_network : Result NetError Unit × Net → Result ReplyError Unit × Net
from_network (ok u, net) = (ok u, net)
from_network (err e, net) = (err (network e), net)

unfoldable pub rows_or_error :
    Session
    → ℕ
    → List ResultColumn
    → Result EncodeError (List Bytes)
    → Net
    → Result ReplyError Unit × Net
unfolding from_network
rows_or_error s seq columns (err e) net = (err (encode_failed e), net)
rows_or_error s seq columns (ok payloads) net = from_network (write_rows s seq columns payloads net)

-- `writeBinaryResultSet`: every row is encoded before the first packet goes out.
unfoldable pub write_binary_result_set :
    Runtime → Session → ℕ → ResultSet → Net → Result ReplyError Unit × Net
unfolding rows_or_error
write_binary_result_set go s seq rs net =
    rows_or_error s seq rs.columns (binary_rows go rs.columns rs.rows) net

-- What the handler uses of the rest of the server: Go's runtime, the texts of errors, which Go's
-- `fmt` and `strconv` write, and `executeQuery`, which reads the connection and may change the
-- session and `W`, the state of everything else.
pub record Server (W : Type 0) : Type 0 where
  pub go : Runtime
  pub decode_error_text : DecodeError → Bytes
  pub reply_error_text : ReplyError → Bytes
  pub execute_query : Conn → W → Bytes → List Value → Outcome × Session × W

unfoldable pub reply_or_error :
    {W : Type 0} → Server W → Result ReplyError Unit × Net → Result NetError Unit × Net
reply_or_error server (ok u, net) = (ok u, net)
reply_or_error server (err e, net) = write_err 1 (unknown_error (server.reply_error_text e)) net

-- The answer to a query's outcome.
unfoldable pub reply : {W : Type 0} → Server W → Session → Outcome → Exec Unit
unfolding reply_or_error
reply server s (ok_response r) = write_ok s 1 r
reply server s (result_set rs) =
    λ net. reply_or_error server (write_binary_result_set server.go s 1 rs net)
reply server s (query_error e) = write_err 1 e
reply server s disconnect = λ net. (err rule_disconnect, net)
reply server s unsupported = write_err 1 (unknown_error (codes "Unsupported query response"))

unfoldable pub run_decoded :
    {W : Type 0}
    → Server W
    → Bytes
    → Result DecodeError (List Value)
    → Conn
    → W
    → Exec Unit × Conn × W
run_decoded server sql (err e) c w =
    (write_err 1 (unknown_error (server.decode_error_text e)), c, w)
run_decoded server sql (ok args) c w =
    let (outcome, session, w') = server.execute_query c w sql args in
    (reply server session outcome, record_result outcome (record c { session = session }), w')

-- A statement's execution, once it is found: its arguments are read, the data sent ahead for it is
-- dropped, and the query runs.
unfoldable pub execute_statement :
    {W : Type 0} → Server W → Bytes → ℕ → PreparedStatement → Conn → W → Exec Unit × Conn × W
unfolding run_decoded
execute_statement server payload id stmt c w =
    let (decoded, stmt') = decode_execute_args server.go stmt payload in
    run_decoded server stmt.sql decoded
      (record c { statements = insert id (record stmt' { long_data = [] }) c.statements }) w

-- `handleStmtExecute`
unfoldable pub handle_stmt_execute :
    {W : Type 0} → Server W → Bytes → Conn → W → Exec Unit × Conn × W
handle_stmt_execute server payload c w =
    if ltb (length payload) 9
    then (write_err 1 (unknown_error (codes "Malformed COM_STMT_EXECUTE packet")), c, w)
    else elim (lookup (statement_id payload) c.statements) [
      | none ↦ (write_err 1 (unknown_statement (statement_id payload)), c, w)
      | some stmt ↦ execute_statement server payload (statement_id payload) stmt c w
    ]
