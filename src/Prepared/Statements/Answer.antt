-- ===== src/Prepared/Statements/Answer.antt =====
-- About what `handleStmtPrepare` sends.
use mysqlmock.Base.{
  ℕ, ◌≤◌, inl, inr, List, [], ◌∷◌, ◌++◌, map, append-nil, ◌==◌, if◌then◌else◌, ge→ltb, Bool-cases,
  Bytes,
}
use mysqlmock.Rows.{column_definition}
use mysqlmock.Response.{Session, write_column_definition_terminator, write_packets}
use mysqlmock.Response.ResultSets.{
  frames, advance, AllShort, frames-append, AllShort-append-left, AllShort-append-right,
  write_packets-advance, write_packets-Emits, eof_between, column_terminator-Emits,
}
use mysqlmock.Prepared.Statements.{
  Conn, param_columns, prepare_ok_payload, end_params, write_params, handle_stmt_prepare,
}
use mysqlmock.Packet.{◌>>=◌, Net, pure, write_packet}
use mysqlmock.Packet.Emits.{Emits, Emits-pure, Emits-bind}
use mysqlmock.Packet.Framing.{frame, write_packet-Emits}
use mysqlmock.Prepared.Placeholders.{count_placeholders}

-- The payloads behind the first packet: a definition for each parameter, and an EOF for a client
-- that has not deprecated it, if there are parameters.
abbrev pub param_payloads : Session → ℕ → List Bytes
param_payloads s count =
    map (column_definition s.current_db) (param_columns count 0)
    ++ (if count == 0 then [] else eof_between s)

abbrev pub prepare_response : Conn → Bytes → List Bytes
prepare_response c sql =
    prepare_ok_payload c.next_statement_id (count_placeholders sql)
    ∷ param_payloads c.session (count_placeholders sql)

end_params-Emits :
    (s : Session) (count seq : ℕ) (net : Net)
    → AllShort (if count == 0 then [] else eof_between s)
    → Emits net (end_params s count seq net) (frames seq (if count == 0 then [] else eof_between s))
end_params-Emits s count seq net h = elim (Bool-cases (count == 0)) [
  | inl p ↦ rw p (Emits-pure tt net)
  | inr p ↦ rw p (
      rw (← append-nil (frames seq (eof_between s))) (
        Emits-bind net (write_column_definition_terminator s seq) (λ _. pure tt)
          (frames seq (eof_between s)) [] (column_terminator-Emits s seq net (rw p at h))
          (λ a n e. Emits-pure tt n)))
]

-- COM_STMT_PREPARE of a text with at most 65535 placeholders is answered by its first packet, the
-- definitions of its parameters and their end, as frames numbered from 1 on: all of them when
-- every payload is short and the writes meet no fault, a beginning of that stream on a fault.
pub handle_stmt_prepare-Emits :
    (sql : Bytes) (c : Conn) (net : Net)
    → count_placeholders sql ≤ 65535
    → AllShort (prepare_response c sql)
    → Emits net ((handle_stmt_prepare sql c).0 net) (frames 1 (prepare_response c sql))
unfolding handle_stmt_prepare write_params
handle_stmt_prepare-Emits sql c net few h =
    let count = count_placeholders sql in
    let s = c.session in
    let defs = map (column_definition s.current_db) (param_columns count 0) in
    let end = if count == 0 then [] else eof_between s in
    rw (ge→ltb 65535 count few) (
      Emits-bind net (write_packet 1 (prepare_ok_payload c.next_statement_id count))
        (λ _. write_packets 2 defs >>= end_params s count)
        (frame 1 (prepare_ok_payload c.next_statement_id count)) (frames 2 (defs ++ end))
        (write_packet-Emits 1 (prepare_ok_payload c.next_statement_id count) net h.0)
        (λ u n e. rw (frames-append 2 defs end) (
          Emits-bind n (write_packets 2 defs) (end_params s count) (frames 2 defs)
            (frames (advance 2 defs) end)
            (write_packets-Emits 2 defs n (AllShort-append-left defs end h.1))
            (λ a n' e'. rw (write_packets-advance 2 defs n e') (
              end_params-Emits s count (advance 2 defs) n' (AllShort-append-right defs end h.1))))))
