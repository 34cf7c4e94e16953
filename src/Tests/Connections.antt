-- ===== src/Tests/Connections.antt =====
-- Connections at concrete inputs.
use mysqlmock.Base.{
  ℕ, ◌≡◌, refl, true, false, not, ◌&&◌, none, some, List, [], ◌∷◌, arith, if◌then◌else◌, replicate,
  Bytes, codes, beq, trim_space,
}
use mysqlmock.Base.Int.{pos}
use mysqlmock.Errors.{ok, Result}
use mysqlmock.Map.{lookup, insert, bytes_eq}
use mysqlmock.Packet.{Net}
use mysqlmock.Rules.{RuleResponse, PreparedRule}
use mysqlmock.Rules.Matching.{match_rule, match_from, matches, select_rule, rule_params_match}
use mysqlmock.Rules.Execution.{execute_rule, respond}
use mysqlmock.Tests.Fixtures.{plain_runtime, quiet_net, old_client}
use mysqlmock.Prepared.Statements.Fresh.{connected}
use mysqlmock.Prepared.Queries.{Server, record_result, ok_response}
use mysqlmock.Stats.{no_stats}
use mysqlmock.Connection.{Context, has_flag, no_effects}
use mysqlmock.Connection.Backend.{QueryFailure, Reply, ok_reply, Backend}
use mysqlmock.Connection.Logging.{State}
use mysqlmock.Connection.Sqlite.{exec_sqlite}
use mysqlmock.Connection.Transactions.{commit, rollback, rollback_and_chain}
use mysqlmock.Connection.Routing.{rule_answer, execute_query}
use mysqlmock.Connection.Query.{handle_query, statement_server}
use mysqlmock.Connection.Handshake.{
  client_secure_connection, Login, read_handshake_response, client_protocol41,
  client_connect_with_db,
}
use mysqlmock.Connection.Login.{AuthFits, client_response, no_zero, read_handshake_response-client}
use mysqlmock.Connection.Recorded.{LoggedAs, is_refused, handle_query-LoggedAs}
use mysqlmock.Connection.Flags.{in_transaction, succeeded, transaction_marks}
use mysqlmock.Connection.Serve.Sequence.{command_frames}
use mysqlmock.Tests.Sessions.{plain_settings, plain_vars}

-- A rule that answers PING with an OK packet.
abbrev ping_response : RuleResponse
ping_response = record {
  profile = [];
  kind = codes "ok";
  columns = [];
  row_format = [];
  rows = [];
  affected_rows = 1;
  last_insert_id = 0;
  warnings = 0;
  code = 0;
  sql_state = [];
  message = [];
  delay_ms = pos 0;
  after_ms = pos 0;
  once = false;
}

abbrev ping_rule : PreparedRule
ping_rule = record {
  config = record {
    name = codes "ping";
    request = record { match_kind = []; sql = codes "PING"; params = none };
    response = ping_response;
  };
  match_kind = codes "exact";
  normalized_sql = [];
  regex = none;
}

-- A backend with no database, on which every statement changes one row.
abbrev plain_backend : Backend Unit
plain_backend = record {
  go = plain_runtime;
  wait_ends = λ ms. false;
  rules = ping_rule ∷ [];
  settings = plain_settings;
  suggested_rule = λ u. [];
  rule_error_text = λ e. [];
  interrupted_text = [];
  exec_context = λ d query args. (ok (pos 1, pos 7), d);
  validate_write_values = λ d query args. (none, d);
  record_allocation = λ d query result. d;
  bump_schema_version = λ d. d;
  clear_restore_tables = λ d. d;
  restore_sequences = λ d. (none, d);
  perform = λ task c w. (ok (ok_reply no_effects), [], w.database);
  attempt = λ attempt c w. (ok none, [], w.database);
  translate_sql = λ sql d. (sql, d);
  translate_sql_statements = λ sql d. (sql ∷ [], d);
  record_metadata = λ d sql. d;
  is_syntax_error = λ e. false;
  map_sqlite_error = λ d sql e. record { code = 1105; sql_state = codes "HY000"; message = e };
}

abbrev plain_state : State Unit
plain_state = record {
  conn = connected old_client;
  context = record {
    connection_id = 1;
    user = codes "root";
    vars = plain_vars;
    stats = no_stats;
    diagnostics = record { unsupported = []; queries = [] };
    locks = [];
    once_used = [];
    database = tt;
  };
}

not_blank : beq (trim_space (codes "SHOW GRANTS")) [] ≡ false
unfolding beq trim_space
not_blank = refl

handle_query-LoggedAs_example :
    LoggedAs
      (codes "SHOW GRANTS")
      (is_refused plain_backend
        (execute_query plain_backend (codes "COM_QUERY") (codes "SHOW GRANTS") [] plain_state).0)
      plain_state.context
      (handle_query plain_backend (codes "SHOW GRANTS") plain_state).1.context
    × LoggedAs
        (codes "SHOW GRANTS")
        (is_refused plain_backend
          (execute_query plain_backend
            (codes "COM_STMT_EXECUTE")
            (codes "SHOW GRANTS")
            []
            plain_state).0)
        plain_state.context
        ((statement_server plain_backend (λ e. []) (λ e. [])).execute_query plain_state.conn
          plain_state.context
          (codes "SHOW GRANTS")
          []).2
handle_query-LoggedAs_example =
    handle_query-LoggedAs plain_backend (codes "SHOW GRANTS") [] plain_state (λ e. []) (λ e. [])
      not_blank

ping_not_blank : beq (trim_space (codes "PING")) [] ≡ false
unfolding beq trim_space
ping_not_blank = refl

abbrev pinged : Result QueryFailure Reply
pinged = ok (ok_reply (record { affected_rows = 1; last_insert_id = 0; warnings = 0 }))

ping_answer :
    rule_answer plain_backend
      (execute_rule plain_runtime (λ ms. false) (ping_rule ∷ []) (codes "PING") [] []).0
    ≡ some pinged
unfolding rule_answer execute_rule respond match_rule match_from matches select_rule
    rule_params_match beq lookup insert
ping_answer = refl

transaction_marks_example :
    (in_transaction (exec_sqlite plain_backend (codes "BEGIN") [] plain_state).1.conn ≡ true)
    × (in_transaction (commit plain_backend plain_state).1.conn ≡ (
        if succeeded (commit plain_backend plain_state).0
        then false
        else in_transaction plain_state.conn))
    × ((succeeded (rollback plain_backend plain_state).0
          && in_transaction (rollback plain_backend plain_state).1.conn)
        ≡ false)
    × ((succeeded (rollback_and_chain plain_backend plain_state).0
          && not (in_transaction (rollback_and_chain plain_backend plain_state).1.conn))
        ≡ false)
transaction_marks_example = transaction_marks plain_backend plain_state

abbrev new_login : Login
new_login = record { client_caps = 0; user = []; current_db = codes "mysqlmock" }

-- Protocol 4.1, a database, and a proof of the password behind its length, here with a zero in it.
abbrev some_caps : ℕ
some_caps = 0x8208

abbrev scramble : Bytes
scramble = 7 ∷ (0 ∷ (9 ∷ []))

speaks_protocol41 : has_flag client_protocol41 some_caps ≡ true
unfolding has_flag
speaks_protocol41 = refl

plain_names : (no_zero (codes "root") ≡ true) × (no_zero (codes "shop") ≡ true)
unfolding no_zero
plain_names = (refl, refl)

scramble-AuthFits : AuthFits (has_flag client_secure_connection some_caps) scramble
unfolding AuthFits has_flag
scramble-AuthFits = omega arith

read_handshake_response-client_example :
    read_handshake_response
      (client_response some_caps (replicate 28 0) (codes "root") scramble (codes "shop") [])
      new_login
    ≡ (
      ok tt,
      record {
        client_caps = some_caps;
        user = codes "root";
        current_db =
            if has_flag client_connect_with_db some_caps then codes "shop" else codes "mysqlmock";
      },
    )
read_handshake_response-client_example =
    read_handshake_response-client some_caps (replicate 28 0) (codes "root") scramble (codes "shop")
      [] new_login (omega arith) speaks_protocol41 refl plain_names.0 scramble-AuthFits
      plain_names.1

abbrev plain_server : Server (Context Unit)
plain_server = statement_server plain_backend (λ e. []) (λ e. [])

-- A ping and the end of the connection.
abbrev two_commands : List Bytes
two_commands = (0x0e ∷ []) ∷ ((0x01 ∷ []) ∷ [])

abbrev client_net : Net
client_net = record quiet_net { inbound = command_frames two_commands }

-- The affected rows are kept as they are.
forty_rows :
    (record_result
      (ok_response (record { affected_rows = 40; last_insert_id = 0; warnings = 0 }))
      plain_state.conn).last_affected_rows
    ≡ pos 40
unfolding record_result
forty_rows = ground arith
