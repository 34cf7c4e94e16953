-- ===== src/Tests/Wire.antt =====
-- The wire encoding, packets and result sets at concrete inputs.
use mysqlmock.Base.{◌≡◌, refl, true, false, List, [], ◌∷◌, ◌++◌, arith, length, Bytes, codes}
use mysqlmock.Value.{int64, Value, null, signed_num, text_value}
use mysqlmock.Codec.{
  append_uint16, append_uint32, append_len_enc_int, append_len_enc_bytes, append_len_enc_string,
  read_len_enc_int, read_len_enc_bytes,
}
use mysqlmock.Codec.RoundTrip.{read-append_len_enc_int, read-append_len_enc_bytes}
use mysqlmock.Rows.{ResultColumn, column_definition, all_digits, text_value_for_column, text_row}
use mysqlmock.Rows.Reading.{cells, AllFit, read_cells, read_cells-text_row}
use mysqlmock.Packet.Framing.{frame, write_packet-Emits, read_packet-frame}
use mysqlmock.Response.{eof_payload, write_rows}
use mysqlmock.Response.ResultSets.{frames, AllShort, response, write_rows-Emits}
use mysqlmock.Tests.Fixtures.{plain_runtime, quiet_net, old_client, id_column, name_column}
use mysqlmock.Packet.{Net, read_packet, write_packet}
use mysqlmock.Packet.Emits.{Emits}
use mysqlmock.Base.Int.{pos}
use mysqlmock.Errors.{ok}

read-append_len_enc_int_example :
    read_len_enc_int (append_len_enc_int [] 300 ++ (7 ∷ []))
    ≡ ok (300, length (append_len_enc_int [] 300), false)
read-append_len_enc_int_example = read-append_len_enc_int 300 (7 ∷ []) (omega arith)

read-append_len_enc_bytes_example :
    read_len_enc_bytes (append_len_enc_bytes [] (codes "abc") ++ (7 ∷ []))
    ≡ ok (codes "abc", length (append_len_enc_bytes [] (codes "abc")))
read-append_len_enc_bytes_example = read-append_len_enc_bytes (codes "abc") (7 ∷ []) (omega arith)

abbrev input : Bytes
input = 2 ∷ 65 ∷ 66 ∷ 67 ∷ []

two_bytes : read_len_enc_bytes input ≡ ok (65 ∷ 66 ∷ [], 3)
unfolding read_len_enc_bytes read_len_enc_int
two_bytes = refl

abbrev row : List Value
row = signed_num int64 (pos 7) ∷ null ∷ []

abbrev columns : List ResultColumn
columns = id_column ∷ name_column ∷ []

row_fits : AllFit (cells plain_runtime columns row 0)
unfolding text_value_for_column
row_fits = (omega arith, (tt, tt))

read_cells-text_row_example :
    read_cells 2 (text_row plain_runtime columns row) ≡ ok (cells plain_runtime columns row 0, [])
read_cells-text_row_example = read_cells-text_row plain_runtime columns row row_fits

write_packet-Emits_example :
    Emits quiet_net (write_packet 3 (1 ∷ 2 ∷ []) quiet_net) (frame 3 (1 ∷ 2 ∷ []))
write_packet-Emits_example = write_packet-Emits 3 (1 ∷ 2 ∷ []) quiet_net (omega arith)

abbrev framed_net : Net
framed_net = record quiet_net { inbound = frame 3 (1 ∷ 2 ∷ []) ++ (9 ∷ []) }

read_packet-frame_example :
    read_packet framed_net ≡ (ok (1 ∷ 2 ∷ [], 3), record framed_net { inbound = 9 ∷ [] })
read_packet-frame_example = read_packet-frame 3 (1 ∷ 2 ∷ []) (9 ∷ []) framed_net (omega arith) refl

short_response : AllShort (response old_client columns ((0xfb ∷ 0xfb ∷ []) ∷ []))
unfolding column_definition eof_payload append_len_enc_int append_len_enc_string append_uint16
    append_uint32
short_response =
    (omega arith, (omega arith, (omega arith, (omega arith, (omega arith, (omega arith, tt))))))

write_rows-Emits_example :
    Emits quiet_net
      (write_rows old_client 1 columns ((0xfb ∷ 0xfb ∷ []) ∷ []) quiet_net)
      (frames 1 (response old_client columns ((0xfb ∷ 0xfb ∷ []) ∷ [])))
write_rows-Emits_example =
    write_rows-Emits old_client 1 columns ((0xfb ∷ 0xfb ∷ []) ∷ []) quiet_net short_response

seven_is_digits : all_digits (text_value plain_runtime (signed_num int64 (pos 7))) ≡ true
unfolding all_digits text_value
seven_is_digits = refl
