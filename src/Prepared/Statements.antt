-- ===== src/Prepared/Statements.antt =====
-- The handlers of the prepared-statement commands (`handleStmtPrepare`,
-- `handleStmtSendLongData`, `handleStmtClose`, `handleStmtReset`).
-- A handler gives what it writes and the connection that it leaves.
pub mod LongData
pub mod Kept
pub mod Fresh
pub mod Answer
use mysqlmock.Base.{
  ℕ, zero, suc, ◌+◌, ◌-◌, ◌*◌, ◌/◌, ◌%◌, ◌^◌, ◌≤◌, ◌<◌, ◌≡◌, refl, sym, ap, ◌∙◌, ◌≢◌, ◌↔◌, ◌⊎◌, inl,
  inr, Bool, true, false, not, ◌&&◌, ◌||◌, Option, none, some, List, [], ◌∷◌, ◌++◌, map, append-nil,
  append_assoc, arith, ltb, leb, ◌==◌, if◌then◌else◌, ltb→lt, ltb→ge, lt→ltb, ge→ltb, leb→le,
  le→leb, ==_iff, ==_refl, tests, Bool-cases, Option-cases, length, get_elem?, get_or, set, take,
  drop, replicate, slice, length-append, length-take, length-drop, length-replicate, length-set,
  take-length_append, drop-length_append, take-append-drop, take_all, drop_all, drop-drop, Bytes,
  codes, beq, beq_iff, beq_refl, lower_byte, upper_byte, to_lower, to_upper, equal_fold, has_prefix,
  trim_prefix, has_suffix, trim_suffix, contains, is_space, trim_space, fields, join, index_byte,
}
use mysqlmock.Value.{
  SignedKind, int, int8, int16, int32, int64, UnsignedKind, uint, uint8, uint16, uint32, uint64,
  FloatKind, float32, float64, Time, Value, null, bytes, text, time, bool, signed_num, unsigned_num,
  float_num, other, Runtime, pad, format_time, sprint, text_value,
}
use mysqlmock.Codec.{
  byte, append_uint16, append_uint32, append_uint64, append_len_enc_int, append_len_enc_bytes,
  append_len_enc_string, little_endian, read_len_enc_int, read_len_enc_bytes,
}
use mysqlmock.Rows.{
  ResultColumn, no_column, ResultSet, column_definition, all_digits, text_value_for_column,
  append_plain_value, append_text_value_for_column, append_cell, text_row_from, text_row,
  field_type_from_value, mysql_field_type,
}
use mysqlmock.Map.{Eq, nat_eq, bytes_eq, Assoc, lookup, insert, delete, keys, is_some}
use mysqlmock.Prepared.Placeholders.{
  Mode, code, line_comment, block_comment, in_single, in_double, in_backtick, Scan, step, scan_on,
  count_placeholders,
}
use mysqlmock.Prepared.Arguments.{
  PreparedStatement, bit_set, null_bit, in_param, decode_arg, decode_loop, param_type_at,
  param_types_at, decode_values, decode_execute_args,
}
use mysqlmock.Prepared.Encode.{
  EncodeError, count_mismatch, in_column, integer_overflow, cannot_convert, not_an_integer,
  not_a_float, not_a_datetime, parse_int, to_int64, to_float64, parse_date_time_string, as_time,
  is_zero_time, date_fields, append_time, append_binary_date_time, append_binary_value,
  in_column_error, set_null_bit, encode_cell, binary_row_from, binary_row,
}
use mysqlmock.Response.{
  Session, OkResult, MysqlError, fixed_sql_state, err_packet, client_deprecate_eof, ok_payload,
  eof_payload, eof_as_ok_payload, err_payload, write_ok, write_eof, write_eof_as_ok, write_err,
  deprecates_eof, next, write_column_definition_terminator, write_result_set_terminator,
  write_packets, write_rows, write_result_set,
}
use mysqlmock.Packet.{
  ◌>>=◌, ◌>>◌, Net, NetError, malformed_long_data, rule_disconnect, Exec, pure, write_packet,
}
use mysqlmock.Errors.{DecodeError, Result, ok, err}
use mysqlmock.Base.Int.{ℤ, pos, negsuc, signed}
use mysqlmock.Base.Decimal.{format_uint}
use mysqlmock.Rows.FieldType

-- What the handlers use of `mysqlConn`.
pub record Conn : Type 0 where
  pub session : Session
  pub last_insert_id : ℕ
  pub last_affected_rows : ℤ
  pub next_statement_id : ℕ
  pub statements : Assoc ℕ PreparedStatement

abbrev pub mysql_err_unknown : ℕ
mysql_err_unknown = 1105

abbrev pub unknown_error : Bytes → MysqlError
unknown_error message = err_packet mysql_err_unknown (codes "HY000") message

-- The definition of parameter number `i`, of which the client learns only the name.
unfoldable pub param_column : ℕ → ResultColumn
unfolding format_uint
param_column i = record {
  name = codes "param" ++ format_uint (i + 1);
  field_type = FieldType.var_string;
  zero_fill_width = 0;
}

abbrev pub param_columns : ℕ → ℕ → List ResultColumn
param_columns zero i = []
param_columns (suc count) i = param_column i ∷ param_columns count (i + 1)

-- The first packet of the answer to COM_STMT_PREPARE.
unfoldable pub prepare_ok_payload : ℕ → ℕ → Bytes
unfolding append_uint16 append_uint32
prepare_ok_payload stmt_id param_count =
    append_uint16
      (append_uint16 (append_uint16 (append_uint32 (0x00 ∷ []) stmt_id) 0) (param_count % 65536)
        ++ 0x00 ∷ [])
      0

abbrev pub end_params : Session → ℕ → ℕ → Exec Unit
end_params s param_count seq =
    if param_count == 0
    then pure tt
    else (write_column_definition_terminator s seq >>= λ _. pure tt)

unfoldable pub write_params : Session → ℕ → Exec Unit
write_params s param_count =
    write_packets 2 (map (column_definition s.current_db) (param_columns param_count 0))
    >>= end_params s param_count

abbrev pub new_statement : ℕ → Bytes → PreparedStatement
new_statement id sql = record {
  id = id;
  sql = sql;
  param_count = count_placeholders sql;
  param_types = [];
  long_data = [];
}

-- `handleStmtPrepare`
unfoldable pub handle_stmt_prepare : Bytes → Conn → Exec Unit × Conn
handle_stmt_prepare sql c =
    let param_count = count_placeholders sql in
    if ltb 65535 param_count
    then (write_err 1 (unknown_error (codes "Prepared statement has too many parameters")), c)
    else (
      write_packet 1 (prepare_ok_payload c.next_statement_id param_count)
          >> write_params c.session param_count,
      record c {
        next_statement_id = (c.next_statement_id + 1) % 2 ^ 32;
        statements =
            insert c.next_statement_id (new_statement c.next_statement_id sql) c.statements;
      },
    )

abbrev pub statement_id : Bytes → ℕ
statement_id payload = little_endian (take 4 payload)

unfoldable pub unknown_statement : ℕ → MysqlError
unfolding format_uint
unknown_statement id = unknown_error (codes "Unknown prepared statement id: " ++ format_uint id)

-- `stmt.LongData[paramID] = append(stmt.LongData[paramID], chunk...)`
unfoldable pub add_long_data : ℕ → Bytes → PreparedStatement → PreparedStatement
add_long_data param_id chunk stmt =
    let earlier : Bytes = elim (lookup param_id stmt.long_data) [ none ↦ [] | some sent ↦ sent ] in
    record stmt { long_data = insert param_id (earlier ++ chunk) stmt.long_data }

-- `handleStmtSendLongData`, which answers nothing; an unknown statement is no error.
unfoldable pub handle_stmt_send_long_data : Bytes → Conn → Exec Unit × Conn
unfolding add_long_data
handle_stmt_send_long_data payload c =
    if ltb (length payload) 6
    then ((λ net. (err malformed_long_data, net)), c)
    else elim (lookup (statement_id payload) c.statements) [
      | none ↦ (pure tt, c)
      | some stmt ↦
          let stmt' = add_long_data (little_endian (slice payload 4 6)) (drop 6 payload) stmt in
          (pure tt, record c { statements = insert (statement_id payload) stmt' c.statements })
    ]

-- `handleStmtClose`
unfoldable pub handle_stmt_close : Bytes → Conn → Conn
handle_stmt_close payload c =
    if ltb (length payload) 4
    then c
    else record c { statements = delete (statement_id payload) c.statements }

-- `handleStmtReset`
unfoldable pub handle_stmt_reset : Bytes → Conn → Exec Unit × Conn
handle_stmt_reset payload c =
    if ltb (length payload) 4
    then (write_err 1 (unknown_error (codes "Malformed COM_STMT_RESET packet")), c)
    else elim (lookup (statement_id payload) c.statements) [
      | none ↦ (write_err 1 (unknown_statement (statement_id payload)), c)
      | some stmt ↦ (
        write_ok c.session 1 (record { affected_rows = 0; last_insert_id = 0; warnings = 0 }),
        record c {
          statements = insert (statement_id payload) (record stmt { long_data = [] }) c.statements;
        },
      )
    ]
