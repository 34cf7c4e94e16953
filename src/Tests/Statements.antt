-- ===== src/Tests/Statements.antt =====
-- Prepared statements at concrete inputs.
use mysqlmock.Base.{
  ◌^◌, ◌<◌, ◌≡◌, refl, false, none, some, List, [], ◌∷◌, ◌++◌, arith, ◌==◌, if◌then◌else◌, length,
  replicate, Bytes, codes,
}
use mysqlmock.Value.{int64, Time, Value, null, bytes, text, signed_num, text_value}
use mysqlmock.Map.{nat_eq, bytes_eq, lookup, insert}
use mysqlmock.Prepared.Decode.{ParamType, decode_binary_date_time, decode_prepared_value}
use mysqlmock.Prepared.Arguments.{PreparedStatement, decode_arg, decode_execute_args}
use mysqlmock.Prepared.Encode.{count_mismatch, append_time, append_binary_value, binary_row}
use mysqlmock.Prepared.RoundTrip.{
  decode-append_text, int_width, encoding, decode-append_int, decode-append_text, Holds,
  decode-append_date_time,
}
use mysqlmock.Prepared.Execute.{
  Sends, none_left, value_param, execute_packet, decode_execute_args-packet,
}
use mysqlmock.Prepared.BinaryRow.{row_null_bit, null_at, binary_row_null_bits}
use mysqlmock.Prepared.Statements.{
  Conn, unknown_error, param_column, prepare_ok_payload, new_statement, handle_stmt_prepare,
  statement_id,
}
use mysqlmock.Prepared.Statements.LongData.{send_all, add_all, concat, param_of, send_all-arrives}
use mysqlmock.Prepared.Statements.Kept.{Kept}
use mysqlmock.Prepared.Statements.Fresh.{
  prepare-lookup, Run-Kept, connected, Run, start, prepared, Run-Kept, prepare-lookup,
}
use mysqlmock.Prepared.Statements.Answer.{prepare_response, handle_stmt_prepare-Emits}
use mysqlmock.Prepared.Queries.{result_set, encode_failed, Server, handle_stmt_execute}
use mysqlmock.Prepared.Queries.Failure.{here, execute_encoding_failure}
use mysqlmock.Tests.Fixtures.{plain_runtime, quiet_net, old_client, id_column, name_column}
use mysqlmock.Response.{err_packet, eof_payload, err_payload}
use mysqlmock.Response.ResultSets.{frames, AllShort}
use mysqlmock.Prepared.Placeholders.{scan_on, count_placeholders}
use mysqlmock.Rows.{column_definition, ResultColumn, ResultSet}
use mysqlmock.Rows.FieldType
use mysqlmock.Packet.Emits.{Emits}
use mysqlmock.Packet.Framing.{frame}
use mysqlmock.Base.Int.{pos, negsuc}
use mysqlmock.Errors.{ok, err}
use mysqlmock.Codec.{append_len_enc_string, append_len_enc_int, append_len_enc_bytes}

abbrev query : Bytes
query = codes "SELECT ?"

abbrev tiny_type : ParamType
tiny_type = record { field_type = FieldType.tiny; is_unsigned = false }

decode-append_int_example :
    decode_prepared_value plain_runtime
      (encoding (append_binary_value plain_runtime [] FieldType.tiny (signed_num int64 (negsuc 4)))
        ++ (9 ∷ []))
      tiny_type
    ≡ ok (signed_num int64 (negsuc 4), int_width FieldType.tiny)
decode-append_int_example =
    decode-append_int plain_runtime FieldType.tiny (negsuc 4) (9 ∷ []) refl (omega arith)

decode-append_text_example :
    decode_prepared_value plain_runtime
      (encoding (append_binary_value plain_runtime [] FieldType.var_string (text (codes "abc")))
        ++ (9 ∷ []))
      (record { field_type = FieldType.var_string; is_unsigned = false })
    ≡ ok (text (codes "abc"), length (append_len_enc_bytes [] (codes "abc")))
decode-append_text_example =
    decode-append_text plain_runtime FieldType.var_string (codes "abc") (9 ∷ []) refl (omega arith)

abbrev noon : Time
noon = record {
  year = 2024;
  month = 5;
  day = 17;
  hour = 12;
  minute = 0;
  second = 0;
  nanosecond = 250000;
}

noon-Holds : Holds noon
noon-Holds = record {
  year_fits = omega arith;
  month_fits = omega arith;
  day_fits = omega arith;
  hour_fits = omega arith;
  minute_fits = omega arith;
  second_fits = omega arith;
  micro_fits = omega arith;
  whole_micro = refl;
}

decode-append_date_time_example :
    decode_binary_date_time plain_runtime (append_time [] noon ++ (9 ∷ []))
    ≡ ok (noon, length (append_time [] noon))
decode-append_date_time_example =
    decode-append_date_time plain_runtime noon (9 ∷ []) noon-Holds refl

abbrev statement : PreparedStatement
statement = new_statement 1 query

abbrev nine : Bytes
nine = replicate 9 0

no_long_data : lookup 0 statement.long_data ≡ none
unfolding lookup
no_long_data = refl

-- A signed byte, 5, for the only parameter.
five_sent :
    Sends plain_runtime
      (record statement { param_types = tiny_type ∷ [] })
      (0 ∷ [])
      0
      (signed_num int64 (pos 5) ∷ [])
      ((5 ∷ []) ++ [])
unfolding decode_prepared_value
five_sent = value_param (5 ∷ []) refl no_long_data (λ rest. ground arith) none_left

one_parameter : statement.param_count ≡ 1
unfolding count_placeholders scan_on
one_parameter = refl

decode_execute_args-packet_example :
    decode_execute_args plain_runtime statement
      (execute_packet plain_runtime statement nine (0 ∷ []) (tiny_type ∷ []) ((5 ∷ []) ++ []))
    ≡ (ok (signed_num int64 (pos 5) ∷ []), record statement { param_types = tiny_type ∷ [] })
decode_execute_args-packet_example =
    decode_execute_args-packet plain_runtime statement nine (0 ∷ []) (tiny_type ∷ [])
      ((5 ∷ []) ++ []) refl (omega (arith, one_parameter)) one_parameter one_parameter
      (omega (arith, one_parameter)) five_sent

abbrev names : List ResultColumn
names = id_column ∷ name_column ∷ []

abbrev row : List Value
row = null ∷ text (codes "A") ∷ []

abbrev row_payload : Bytes
row_payload = 0 ∷ 4 ∷ 1 ∷ 65 ∷ []

row_encoded : binary_row plain_runtime names row ≡ ok row_payload
unfolding binary_row append_len_enc_bytes append_len_enc_int text_value
row_encoded = refl

binary_row_null_bits_example : row_null_bit row_payload 0 ≡ null_at row 0 0
binary_row_null_bits_example =
    binary_row_null_bits plain_runtime names row row_payload 0 row_encoded (omega arith)

-- A server that answers every query with one row, which has too few values for its columns.
abbrev short_set : ResultSet
short_set = record { columns = names; rows = (null ∷ []) ∷ [] }

abbrev server : Server Unit
server = record {
  go = plain_runtime;
  decode_error_text = λ e. codes "malformed";
  reply_error_text = λ e. codes "cannot encode";
  execute_query = λ c w sql args. (result_set short_set, c.session, w);
}

abbrev connection : Conn
connection = connected old_client

begun : Run server 0 connection
begun = start old_client

one_command : Run server 1 (handle_stmt_prepare query connection).1
one_command = prepared query begun

abbrev prepared_connection : Conn
prepared_connection = (handle_stmt_prepare query connection).1

run_found : lookup 1 prepared_connection.statements ≡ some statement
unfolding handle_stmt_prepare count_placeholders lookup insert
run_found = refl

Run-Kept_example : Kept prepared_connection.next_statement_id 1 statement
Run-Kept_example = Run-Kept 1 statement one_command (omega arith) run_found

prepare-lookup_example :
    (lookup connection.next_statement_id connection.statements ≡ none)
    × (lookup 1 (handle_stmt_prepare query connection).1.statements
        ≡ (if 1 == 1 then some (new_statement 1 query) else lookup 1 connection.statements))
prepare-lookup_example = prepare-lookup query 1 begun (omega arith) (omega (arith, one_parameter))

abbrev kept_connection : Conn
kept_connection = record connection { statements = (1, statement) ∷ [] }

abbrev header : Bytes
header = 1 ∷ 0 ∷ 0 ∷ 0 ∷ 0 ∷ 0 ∷ []

found : lookup (statement_id header) kept_connection.statements ≡ some statement
unfolding lookup
found = refl

send_all-arrives_example :
    (lookup
        (statement_id header)
        (send_all header (codes "ab" ∷ codes "c" ∷ []) kept_connection).statements
      ≡ some (add_all (param_of header) (codes "ab" ∷ codes "c" ∷ []) statement))
    × (decode_arg plain_runtime
          (add_all (param_of header) (codes "ab" ∷ codes "c" ∷ []) statement)
          (0 ∷ [])
          []
          (param_of header)
          0
        ≡ ok (bytes (codes "ab" ++ concat (codes "c" ∷ [])), 0))
send_all-arrives_example =
    send_all-arrives plain_runtime header (codes "ab") (codes "c" ∷ []) statement kept_connection
      (0 ∷ []) [] 0 refl found no_long_data refl

short_prepare : AllShort (prepare_response connection query)
unfolding param_column count_placeholders prepare_ok_payload column_definition eof_payload
    append_len_enc_string append_len_enc_int
short_prepare = (omega arith, (omega arith, (omega arith, tt)))

handle_stmt_prepare-Emits_example :
    Emits quiet_net
      ((handle_stmt_prepare query connection).0 quiet_net)
      (frames 1 (prepare_response connection query))
handle_stmt_prepare-Emits_example =
    handle_stmt_prepare-Emits query connection quiet_net (omega (arith, one_parameter))
      short_prepare

-- The statement with no parameters, so that no argument is read.
abbrev plain_statement : PreparedStatement
plain_statement = new_statement 1 (codes "SELECT 1")

abbrev plain_connection : Conn
plain_connection = record connection { statements = (1, plain_statement) ∷ [] }

abbrev execute_header : Bytes
execute_header = 1 ∷ 0 ∷ 0 ∷ 0 ∷ 0 ∷ 1 ∷ 0 ∷ 0 ∷ 0 ∷ []

plain_found :
    lookup (statement_id execute_header) plain_connection.statements ≡ some plain_statement
unfolding lookup
plain_found = refl

plain_decoded : (decode_execute_args server.go plain_statement execute_header).0 ≡ ok []
unfolding decode_execute_args count_placeholders
plain_decoded = refl

short_row : binary_row plain_runtime names (null ∷ []) ≡ err count_mismatch
unfolding binary_row
short_row = refl

short_error :
    length (err_payload (unknown_error (server.reply_error_text (encode_failed count_mismatch))))
    < 2 ^ 24
unfolding err_payload err_packet
short_error = omega arith

execute_encoding_failure_example :
    Emits quiet_net ((handle_stmt_execute server execute_header plain_connection tt).0 quiet_net) (
      frame 1
        (err_payload (unknown_error (server.reply_error_text (encode_failed count_mismatch)))))
execute_encoding_failure_example =
    execute_encoding_failure server execute_header plain_connection tt tt plain_statement []
      short_set old_client count_mismatch quiet_net (omega arith) plain_found plain_decoded refl
      (here short_row) short_error
