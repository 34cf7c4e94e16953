-- ===== src/Response.antt =====
-- The responses that the server writes: OK, EOF, ERR and result sets
-- (pkg/mysqlmock/protocol_codec.go).
pub mod ResultSets
pub mod States
use mysqlmock.Base.{
  ℕ, zero, suc, ◌+◌, ◌-◌, ◌*◌, ◌/◌, ◌%◌, ◌^◌, ◌≤◌, ◌<◌, ◌≡◌, refl, sym, ap, ◌∙◌, ◌≢◌, ◌↔◌, ◌⊎◌, inl,
  inr, Bool, true, false, not, ◌&&◌, ◌||◌, Option, none, some, List, [], ◌∷◌, ◌++◌, map, append-nil,
  append_assoc, arith, ltb, leb, ◌==◌, if◌then◌else◌, ltb→lt, ltb→ge, lt→ltb, ge→ltb, leb→le,
  le→leb, ==_iff, ==_refl, tests, Bool-cases, Option-cases, length, get_elem?, get_or, set, take,
  drop, replicate, slice, length-append, length-take, length-drop, length-replicate, length-set,
  take-length_append, drop-length_append, take-append-drop, take_all, drop_all, drop-drop, Bytes,
  codes, beq, beq_iff, beq_refl, lower_byte, upper_byte, to_lower, to_upper, equal_fold, has_prefix,
  trim_prefix, has_suffix, trim_suffix, contains, is_space, trim_space, fields, join, index_byte,
}
use mysqlmock.Value.{
  SignedKind, int, int8, int16, int32, int64, UnsignedKind, uint, uint8, uint16, uint32, uint64,
  FloatKind, float32, float64, Time, Value, null, bytes, text, time, bool, signed_num, unsigned_num,
  float_num, other, Runtime, pad, format_time, sprint, text_value,
}
use mysqlmock.Codec.{
  byte, append_uint16, append_uint32, append_uint64, append_len_enc_int, append_len_enc_bytes,
  append_len_enc_string, little_endian, read_len_enc_int, read_len_enc_bytes,
}
use mysqlmock.Rows.{
  ResultColumn, no_column, ResultSet, column_definition, all_digits, text_value_for_column,
  append_plain_value, append_text_value_for_column, append_cell, text_row_from, text_row,
  field_type_from_value, mysql_field_type,
}
use mysqlmock.Packet.{
  ◌>>=◌, ◌>>◌, Fault, success, failed, short, NetError, packet_too_large, write_failed, short_write,
  end_of_input, Net, Exec, pure, ◌>>◌, read_packet, write_packet,
}
use Prim.Native.Nat.{bit_and}

-- What the responses need of the connection's session.
pub record Session : Type 0 where
  pub client_caps : ℕ
  pub status_flags : ℕ
  pub current_db : Bytes

pub record OkResult : Type 0 where
  pub affected_rows : ℕ
  pub last_insert_id : ℕ
  pub warnings : ℕ

pub record MysqlError : Type 0 where
  pub code : ℕ
  pub sql_state : Bytes
  pub message : Bytes

-- `fixedSQLState`
unfoldable pub fixed_sql_state : Bytes → Bytes
unfolding beq
fixed_sql_state state =
    if length state == 5
    then state
    else if beq state []
    then codes "HY000"
    else if ltb 5 (length state)
    then take 5 state
    else state ++ replicate (5 - length state) b'0'

-- `errPacket`
unfoldable pub err_packet : ℕ → Bytes → Bytes → MysqlError
unfolding fixed_sql_state
err_packet code state message = record {
  code = code;
  sql_state = fixed_sql_state state;
  message = message;
}

abbrev pub client_deprecate_eof : ℕ
client_deprecate_eof = 0x0100_0000

-- The payloads of the OK, EOF, EOF-as-OK and ERR packets.
unfoldable pub ok_payload : Session → OkResult → Bytes
unfolding append_len_enc_int append_uint16
ok_payload s r =
    append_uint16
      (append_uint16
        (append_len_enc_int (append_len_enc_int (0x00 ∷ []) r.affected_rows) r.last_insert_id)
        s.status_flags)
      r.warnings

unfoldable pub eof_payload : Session → Bytes
unfolding append_uint16
eof_payload s = append_uint16 (append_uint16 (0xfe ∷ []) 0) s.status_flags

unfoldable pub eof_as_ok_payload : Session → Bytes
unfolding append_len_enc_int append_uint16
eof_as_ok_payload s =
    append_uint16
      (append_uint16 (append_len_enc_int (append_len_enc_int (0xfe ∷ []) 0) 0) s.status_flags) 0

unfoldable pub err_payload : MysqlError → Bytes
unfolding append_uint16 fixed_sql_state
err_payload e =
    append_uint16 (0xff ∷ []) e.code ++ (b'#' ∷ []) ++ fixed_sql_state e.sql_state ++ e.message

-- `writeOK`, `writeEOF`, `writeEOFAsOK`, `writeErr`
unfoldable pub write_ok : Session → ℕ → OkResult → Exec Unit
write_ok s seq r = write_packet seq (ok_payload s r)

unfoldable pub write_eof : Session → ℕ → Exec Unit
write_eof s seq = write_packet seq (eof_payload s)

unfoldable pub write_eof_as_ok : Session → ℕ → Exec Unit
write_eof_as_ok s seq = write_packet seq (eof_as_ok_payload s)

unfoldable pub write_err : ℕ → MysqlError → Exec Unit
write_err seq e = write_packet seq (err_payload e)

abbrev pub deprecates_eof : Session → Bool
deprecates_eof s = not (bit_and s.client_caps client_deprecate_eof == 0)

-- A sequence number is a byte.
abbrev pub next : ℕ → ℕ
next seq = (seq + 1) % 256

-- The sequence number behind the column definitions, after an EOF packet for an older client.
unfoldable pub write_column_definition_terminator : Session → ℕ → Exec ℕ
write_column_definition_terminator s seq =
    if deprecates_eof s then pure seq else (write_eof s seq >> pure (next seq))

unfoldable pub write_result_set_terminator : Session → ℕ → Exec Unit
write_result_set_terminator s seq =
    if deprecates_eof s then write_eof_as_ok s seq else write_eof s seq

-- A loop that writes one packet for each payload.
unfoldable pub write_packets : ℕ → List Bytes → Exec ℕ
write_packets seq [] = pure seq
write_packets seq (p ∷ ps) = write_packet seq p >> write_packets (next seq) ps

-- The body that the three writers of result sets share: the column count, the columns'
-- definitions, the rows' payloads and the packets between and behind them.
unfoldable pub write_rows : Session → ℕ → List ResultColumn → List Bytes → Exec Unit
write_rows s seq columns rows = do
  write_packet seq (append_len_enc_int [] (length columns))
  seq1 ← write_packets (next seq) (map (column_definition s.current_db) columns)
  seq2 ← write_column_definition_terminator s seq1
  seq3 ← write_packets seq2 rows
  write_result_set_terminator s seq3

-- `writeResultSet`
unfoldable pub write_result_set : Runtime → Session → ℕ → ResultSet → Exec Unit
write_result_set go s seq rs = write_rows s seq rs.columns (map (text_row go rs.columns) rs.rows)
