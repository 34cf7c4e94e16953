-- ===== src/Connection/Serve/Inbound.antt =====
-- About the bytes that the client has still to send, in the commands of `serve`.
use mysqlmock.Value.{Value}
use mysqlmock.Connection.{Context}
use mysqlmock.Connection.Logging.{State}
use mysqlmock.Connection.Query.{handle_query, query_answer}
use mysqlmock.Base.{
  Option-cases, ℕ, ◌^◌, ◌≡◌, refl, ap, ◌∙◌, inl, inr, Bool, true, false, List, [], ◌∷◌, map, ltb,
  ◌==◌, if◌then◌else◌, ltb→lt, ltb→ge, Bool-cases, length, Bytes,
}
use mysqlmock.Errors.{DecodeError, Result, ok, err}
use mysqlmock.Rows.{ResultColumn, column_definition}
use mysqlmock.Packet.{Net, NetError, ◌>>=◌, Exec, pure, continue, write_packet}
use mysqlmock.Packet.Framing.{write_packet-Emits, write_packet_too_large}
use mysqlmock.Response.{
  write_result_set, Session, OkResult, MysqlError, write_ok, write_eof, write_eof_as_ok, write_err,
  deprecates_eof, next, write_column_definition_terminator, write_result_set_terminator,
  write_packets, write_rows,
}
use mysqlmock.Prepared.Statements.{
  statement_id, handle_stmt_reset, handle_stmt_send_long_data, Conn, param_columns,
  prepare_ok_payload, end_params, write_params, handle_stmt_prepare,
}
use mysqlmock.Map.{nat_eq, lookup}
use mysqlmock.Prepared.Queries.{
  disconnect, unsupported, query_error, result_set, ok_response, Outcome, execute_statement,
  write_binary_result_set, handle_stmt_execute, run_decoded, reply, reply_or_error, Server,
  rows_or_error, ReplyError, from_network,
}
use mysqlmock.Prepared.Encode.{EncodeError}
use mysqlmock.Connection.Backend.{
  Backend, mysql_failure, rule_disconnected, other_failure, ok_reply, set_reply, sqlite_reply,
  Reply, QueryFailure,
}
use mysqlmock.Connection.Serve.{
  command_of, serve_payload, run_command, Command, quit, ping_or_reset, init_db, query,
  stmt_prepare, stmt_execute, stmt_send_long_data, stmt_close, stmt_reset, unknown_command,
}
use mysqlmock.Codec.{append_len_enc_int}
use mysqlmock.Prepared.Placeholders.{count_placeholders}

-- What is still to be read is as it was.
abbrev pub InboundKept : {A : Type 0} → Exec A → Type 0
InboundKept m = (net : Net) → (m net).1.inbound ≡ net.inbound

kept-continue :
    {A B : Type 0} (r : Result NetError A) (f : A → Exec B) (net net1 : Net)
    → net1.inbound ≡ net.inbound
    → ((a : A) → InboundKept (f a))
    → (continue r f net1).1.inbound ≡ net.inbound
kept-continue (ok a) f net net1 e k = k a net1 ∙ e
kept-continue (err x) f net net1 e k = e

kept-bind :
    {A B : Type 0} (m : Exec A) (f : A → Exec B)
    → InboundKept m
    → ((a : A) → InboundKept (f a))
    → InboundKept (λ net. continue (m net).0 f (m net).1)
kept-bind m f km kf net = kept-continue (m net).0 f net (m net).1 (km net) kf

kept-if :
    {A : Type 0} (p : Bool) (m n : Exec A)
    → InboundKept m
    → InboundKept n
    → InboundKept (if p then m else n)
kept-if true m n km kn = km
kept-if false m n km kn = kn

pub write_packet-InboundKept : (seq : ℕ) (payload : Bytes) → InboundKept (write_packet seq payload)
write_packet-InboundKept seq payload net = elim (Bool-cases (ltb (length payload) (2 ^ 24))) [
  | inl h ↦ (write_packet-Emits seq payload net (ltb→lt (length payload) (2 ^ 24) h)).inbound_kept
  | inr h ↦
      ap (λ (r : Result NetError Unit × Net). r.1.inbound)
        (write_packet_too_large seq payload net (ltb→ge (length payload) (2 ^ 24) h))
]

pub write_packets-InboundKept : (seq : ℕ) (ps : List Bytes) → InboundKept (write_packets seq ps)
unfolding write_packets
write_packets-InboundKept seq [] = λ net. refl
write_packets-InboundKept seq (p ∷ ps) =
    kept-bind (write_packet seq p) (λ u. write_packets (next seq) ps)
      (write_packet-InboundKept seq p) (λ u. write_packets-InboundKept (next seq) ps)

pub write_ok-InboundKept : (s : Session) (seq : ℕ) (r : OkResult) → InboundKept (write_ok s seq r)
unfolding write_ok
write_ok-InboundKept s seq r = write_packet-InboundKept seq _

pub write_err-InboundKept : (seq : ℕ) (e : MysqlError) → InboundKept (write_err seq e)
unfolding write_err
write_err-InboundKept seq e = write_packet-InboundKept seq _

terminator-InboundKept :
    (s : Session) (seq : ℕ) → InboundKept (write_column_definition_terminator s seq)
unfolding write_column_definition_terminator write_eof
terminator-InboundKept s seq =
    kept-if (deprecates_eof s) (pure seq) _ (λ net. refl)
      (kept-bind (write_eof s seq) (λ u. pure (next seq)) (write_packet-InboundKept seq _)
        (λ u net. refl))

last-InboundKept : (s : Session) (seq : ℕ) → InboundKept (write_result_set_terminator s seq)
unfolding write_result_set_terminator write_eof write_eof_as_ok
last-InboundKept s seq =
    kept-if (deprecates_eof s) _ _ (write_packet-InboundKept seq _) (write_packet-InboundKept seq _)

write_rows-InboundKept :
    (s : Session) (seq : ℕ) (columns : List ResultColumn) (rows : List Bytes)
    → InboundKept (write_rows s seq columns rows)
unfolding write_rows
write_rows-InboundKept s seq columns rows =
    let step4 = λ (n : ℕ). write_result_set_terminator s n in
    let step3 : ℕ → Exec Unit = λ n. write_packets n rows >>= step4 in
    let step2 : ℕ → Exec Unit = λ n. write_column_definition_terminator s n >>= step3 in
    let definitions = write_packets (next seq) (map (column_definition s.current_db) columns) in
    kept-bind (write_packet seq (append_len_enc_int [] (length columns)))
      (λ u. definitions >>= step2) (write_packet-InboundKept seq _)
      (λ u. kept-bind definitions step2 (write_packets-InboundKept (next seq) _) (λ seq1.
        kept-bind (write_column_definition_terminator s seq1) step3 (terminator-InboundKept s seq1)
          (λ seq2.
            kept-bind (write_packets seq2 rows) step4 (write_packets-InboundKept seq2 rows)
              (λ seq3. last-InboundKept s seq3))))

write_params-InboundKept : (s : Session) (count : ℕ) → InboundKept (write_params s count)
unfolding write_params
write_params-InboundKept s count =
    kept-bind (write_packets 2 (map (column_definition s.current_db) (param_columns count 0)))
      (end_params s count) (write_packets-InboundKept 2 _)
      (λ seq.
        kept-if (count == 0) (pure tt) (write_column_definition_terminator s seq >>= λ n. pure tt)
          (λ net. refl)
          (kept-bind (write_column_definition_terminator s seq) (λ n. pure tt)
            (terminator-InboundKept s seq) (λ n net. refl)))

handle_stmt_prepare-InboundKept :
    (sql : Bytes) (c : Conn) → InboundKept (handle_stmt_prepare sql c).0
unfolding handle_stmt_prepare
handle_stmt_prepare-InboundKept sql c = elim (Bool-cases (ltb 65535 (count_placeholders sql))) [
  | inl e ↦ rw e (write_err-InboundKept 1 _)
  | inr e ↦ rw e (
      kept-bind (write_packet 1 (prepare_ok_payload c.next_statement_id (count_placeholders sql)))
        (λ u. write_params c.session (count_placeholders sql)) (write_packet-InboundKept 1 _)
        (λ u. write_params-InboundKept c.session (count_placeholders sql)))
]

send_long_data-InboundKept :
    (payload : Bytes) (c : Conn) → InboundKept (handle_stmt_send_long_data payload c).0
unfolding handle_stmt_send_long_data
send_long_data-InboundKept payload c net = elim (Bool-cases (ltb (length payload) 6)) [
  | inl e ↦ rw e refl
  | inr e ↦ rw e (elim (Option-cases (lookup (statement_id payload) c.statements)) [
    | inl f ↦ rw f refl
    | inr (stmt, f) ↦ rw f refl
  ])
]

reset-InboundKept : (payload : Bytes) (c : Conn) → InboundKept (handle_stmt_reset payload c).0
unfolding handle_stmt_reset
reset-InboundKept payload c = elim (Bool-cases (ltb (length payload) 4)) [
  | inl e ↦ rw e (write_err-InboundKept 1 _)
  | inr e ↦ rw e (elim (Option-cases (lookup (statement_id payload) c.statements)) [
    | inl f ↦ rw f (write_err-InboundKept 1 _)
    | inr (stmt, f) ↦ rw f (write_ok-InboundKept c.session 1 _)
  ])
]

from_network-kept :
    (r : Result NetError Unit × Net) (net : Net)
    → r.1.inbound ≡ net.inbound
    → (from_network r).1.inbound ≡ net.inbound
unfolding from_network
from_network-kept (ok u, net1) net e = e
from_network-kept (err x, net1) net e = e

rows_or_error-InboundKept :
    (s : Session) (columns : List ResultColumn) (r : Result EncodeError (List Bytes)) (net : Net)
    → (rows_or_error s 1 columns r net).1.inbound ≡ net.inbound
unfolding rows_or_error
rows_or_error-InboundKept s columns (err e) net = refl
rows_or_error-InboundKept s columns (ok payloads) net =
    from_network-kept (write_rows s 1 columns payloads net) net
      (write_rows-InboundKept s 1 columns payloads net)

module _ {W : Type 0} (server : Server W) where
  reply_or_error-InboundKept :
      (r : Result ReplyError Unit × Net) (net : Net)
      → r.1.inbound ≡ net.inbound
      → (reply_or_error server r).1.inbound ≡ net.inbound
  unfolding reply_or_error
  reply_or_error-InboundKept (ok u, net1) net e = e
  reply_or_error-InboundKept (err x, net1) net e = write_err-InboundKept 1 _ net1 ∙ e

  reply-InboundKept : (s : Session) (o : Outcome) → InboundKept (reply server s o)
  unfolding reply write_binary_result_set
  reply-InboundKept s (ok_response r) = write_ok-InboundKept s 1 r
  reply-InboundKept s (result_set rs) =
      λ net. reply_or_error-InboundKept _ net (rows_or_error-InboundKept s rs.columns _ net)
  reply-InboundKept s (query_error e) = write_err-InboundKept 1 e
  reply-InboundKept s disconnect = λ net. refl
  reply-InboundKept s unsupported = write_err-InboundKept 1 _

  run_decoded-InboundKept :
      (sql : Bytes) (r : Result DecodeError (List Value)) (c : Conn) (w : W)
      → InboundKept (run_decoded server sql r c w).0
  unfolding run_decoded
  run_decoded-InboundKept sql (err e) c w = write_err-InboundKept 1 _
  run_decoded-InboundKept sql (ok args) c w = reply-InboundKept _ _

  execute-InboundKept :
      (payload : Bytes) (c : Conn) (w : W) → InboundKept (handle_stmt_execute server payload c w).0
  unfolding handle_stmt_execute execute_statement
  execute-InboundKept payload c w = elim (Bool-cases (ltb (length payload) 9)) [
    | inl e ↦ rw e (write_err-InboundKept 1 _)
    | inr e ↦ rw e (elim (Option-cases (lookup (statement_id payload) c.statements)) [
      | inl f ↦ rw f (write_err-InboundKept 1 _)
      | inr (stmt, f) ↦ rw f (run_decoded-InboundKept stmt.sql _ _ w)
    ])
  ]

module _ {D : Type 0} where
  query_answer-InboundKept :
      (b : Backend D) (sql : Bytes) (r : Result QueryFailure Reply) (s : State D)
      → InboundKept (query_answer b sql r s).0
  unfolding query_answer write_result_set
  query_answer-InboundKept b sql (err (mysql_failure e)) s = write_err-InboundKept 1 e
  query_answer-InboundKept b sql (err rule_disconnected) s = λ net. refl
  query_answer-InboundKept b sql (err (other_failure m)) s = write_err-InboundKept 1 _
  query_answer-InboundKept b sql (ok (ok_reply r)) s = write_ok-InboundKept s.conn.session 1 r
  query_answer-InboundKept b sql (ok (set_reply rs)) s =
      write_rows-InboundKept s.conn.session 1 rs.columns _
  query_answer-InboundKept b sql (ok (sqlite_reply ps)) s =
      kept-bind (write_packets 1 ps) (λ seq. pure tt) (write_packets-InboundKept 1 ps)
        (λ seq net. refl)

  run_command-InboundKept :
      (b : Backend D) (server : Server (Context D)) (command : Command) (byte : ℕ) (body : Bytes)
      (s : State D)
      → InboundKept (run_command b server command byte body s).writes
  unfolding run_command handle_query
  run_command-InboundKept b server quit byte body s = λ net. refl
  run_command-InboundKept b server ping_or_reset byte body s = write_ok-InboundKept _ 1 _
  run_command-InboundKept b server init_db byte body s = write_ok-InboundKept _ 1 _
  run_command-InboundKept b server query byte body s = query_answer-InboundKept b body _ _
  run_command-InboundKept b server stmt_prepare byte body s =
      handle_stmt_prepare-InboundKept body s.conn
  run_command-InboundKept b server stmt_execute byte body s =
      execute-InboundKept server body s.conn s.context
  run_command-InboundKept b server stmt_send_long_data byte body s =
      send_long_data-InboundKept body s.conn
  run_command-InboundKept b server stmt_close byte body s = λ net. refl
  run_command-InboundKept b server stmt_reset byte body s = reset-InboundKept body s.conn
  run_command-InboundKept b server unknown_command byte body s = write_err-InboundKept 1 _

  pub serve_payload-InboundKept :
      (b : Backend D) (server : Server (Context D)) (payload : Bytes) (s : State D)
      → InboundKept (serve_payload b server payload s).writes
  unfolding serve_payload
  serve_payload-InboundKept b server [] s = λ net. refl
  serve_payload-InboundKept b server (c ∷ body) s =
      run_command-InboundKept b server (command_of c) c body s
