-- ===== src/Connection/Serve.antt =====
-- The life of a connection (`serve` of pkg/mysqlmock/protocol.go).
pub mod Inbound
pub mod Fuel
pub mod Sequence
use mysqlmock.Base.{
  none, some, Option, ℕ, zero, suc, ◌+◌, ◌-◌, ◌/◌, ◌%◌, Bool, true, false, ◌||◌, [], ◌∷◌, ◌++◌, ltb,
  ◌==◌, if◌then◌else◌, length, Bytes, codes,
}
use mysqlmock.Errors.{Result, ok, err}
use mysqlmock.Packet.{
  Net, NetError, Exec, pure, read_packet, empty_command_packet, handshake_refused, end_of_input,
}
use mysqlmock.Packet
use mysqlmock.Response.{Session, MysqlError, write_ok, write_err}
use mysqlmock.Prepared.Statements.{
  Conn, unknown_error, handle_stmt_prepare, handle_stmt_send_long_data, handle_stmt_close,
  handle_stmt_reset,
}
use mysqlmock.Prepared.Queries.{Server, handle_stmt_execute}
use mysqlmock.Connection.{Context, no_effects}
use mysqlmock.Connection.Handshake.{write_handshake, HandshakeError, Login, read_handshake_response}
use mysqlmock.Connection.Logging.{State}
use mysqlmock.Connection.Backend.{Backend}
use mysqlmock.Connection.Query.{handle_query}

-- A digit of `%02x`.
abbrev hex_digit : ℕ → ℕ
hex_digit n = if ltb n 10 then b'0' + n else b'a' + (n - 10)

unfoldable pub unsupported_command : ℕ → MysqlError
unsupported_command command = unknown_error (
    codes "Unsupported MySQL command: 0x"
    ++ hex_digit (command / 16) ∷ hex_digit (command % 16) ∷ [])

-- The commands, by their first byte.
pub data Command : Type 0 where
  quit : Command
  ping_or_reset : Command
  init_db : Command
  query : Command
  stmt_prepare : Command
  stmt_execute : Command
  stmt_send_long_data : Command
  stmt_close : Command
  stmt_reset : Command
  unknown_command : Command

unfoldable pub command_of : ℕ → Command
command_of c =
    if c == 0x01
    then quit
    else if (c == 0x0e) || (c == 0x1f)
    then ping_or_reset
    else if c == 0x02
    then init_db
    else if c == 0x03
    then query
    else if c == 0x16
    then stmt_prepare
    else if c == 0x17
    then stmt_execute
    else if c == 0x18
    then stmt_send_long_data
    else if c == 0x19
    then stmt_close
    else if c == 0x1a
    then stmt_reset
    else unknown_command

-- What a command writes, the state behind it, and whether it ends the connection.
pub record Turn (D : Type 0) : Type 0 where
  pub writes : Exec Unit
  pub state : State D
  pub quits : Bool

-- How the connection ends, and what is left then; nothing if the fuel runs out before.
abbrev pub Served : Type 0 → Type 0
Served D = Option (Result NetError Unit × State D × Net)

module _ {D : Type 0} where
  abbrev pub turn : Exec Unit × State D → Turn D
  turn (writes, s) = record { writes = writes; state = s; quits = false }

  -- A handler of the prepared statements, on the state.
  abbrev pub on_conn : Exec Unit × Conn → State D → Turn D
  on_conn (writes, c) s = record { writes = writes; state = record s { conn = c }; quits = false }

  -- One round of the loop of `serve`.
  unfoldable pub run_command :
      Backend D → Server (Context D) → Command → ℕ → Bytes → State D → Turn D
  unfolding handle_query
  run_command b server quit byte body s = record { writes = pure tt; state = s; quits = true }
  run_command b server ping_or_reset byte body s = turn (write_ok s.conn.session 1 no_effects, s)
  run_command b server init_db byte body s =
      let session : Session = record s.conn.session { current_db = body } in
      turn (write_ok session 1 no_effects, record s { conn = record s.conn { session = session } })
  run_command b server query byte body s = turn (handle_query b body s)
  run_command b server stmt_prepare byte body s = on_conn (handle_stmt_prepare body s.conn) s
  run_command b server stmt_execute byte body s =
      let (writes, c, w) = handle_stmt_execute server body s.conn s.context in
      turn (writes, record { conn = c; context = w })
  run_command b server stmt_send_long_data byte body s =
      on_conn (handle_stmt_send_long_data body s.conn) s
  run_command b server stmt_close byte body s = on_conn (pure tt, handle_stmt_close body s.conn) s
  run_command b server stmt_reset byte body s = on_conn (handle_stmt_reset body s.conn) s
  run_command b server unknown_command byte body s =
      turn (write_err 1 (unsupported_command byte), s)

  -- What is done with the payload of a packet.
  unfoldable pub serve_payload : Backend D → Server (Context D) → Bytes → State D → Turn D
  unfolding run_command
  serve_payload b server [] s = turn ((λ net. (err empty_command_packet, net)), s)
  serve_payload b server (command ∷ body) s =
      run_command b server (command_of command) command body s

  unfoldable pub after_write :
      Bool → (State D → Net → Served D) → State D → Result NetError Unit × Net → Served D
  after_write quits again s (err e, net) = some (err e, s, net)
  after_write true again s (ok u, net) = some (ok tt, s, net)
  after_write false again s (ok u, net) = again s net

  unfoldable pub after_read :
      Backend D
      → Server (Context D)
      → (State D → Net → Served D)
      → State D
      → Result NetError (Bytes × ℕ) × Net
      → Served D
  unfolding after_write
  after_read b server again s (err e, net) = some (err e, s, net)
  after_read b server again s (ok (payload, seq), net) =
      let t = serve_payload b server payload s in after_write t.quits again t.state (t.writes net)

  -- The loop of `serve`, on fuel.
  unfoldable pub serve_loop : ℕ → Backend D → Server (Context D) → State D → Net → Served D
  unfolding after_read
  serve_loop zero b server s net = none
  serve_loop (suc fuel) b server s net =
      after_read b server (λ s' net'. serve_loop fuel b server s' net') s (read_packet net)

  -- The user, the database and the capabilities that the handshake sets.
  abbrev pub login_of : State D → Login
  login_of s = record {
    client_caps = s.conn.session.client_caps;
    user = s.context.user;
    current_db = s.conn.session.current_db;
  }

  abbrev pub logged_in : Login → State D → State D
  logged_in l s = record {
    conn = record s.conn {
      session = record s.conn.session { client_caps = l.client_caps; current_db = l.current_db };
    };
    context = record s.context { user = l.user };
  }

  loop_after : Backend D → Server (Context D) → State D → Result NetError Unit × Net → Served D
  unfolding serve_loop
  loop_after b server s (err e, net) = some (err e, s, net)
  loop_after b server s (ok u, net) = serve_loop (length net.inbound + 1) b server s net

  greeted :
      Backend D
      → Server (Context D)
      → (HandshakeError → Bytes)
      → State D
      → Result HandshakeError Unit × Login
      → Net
      → Served D
  unfolding loop_after
  greeted b server error_text s (err e, login) net =
      some (
        err handshake_refused,
        logged_in login s,
        (write_err 2 (unknown_error (error_text e)) net).1,
      )
  greeted b server error_text s (ok u, login) net =
      let s' = logged_in login s in
      loop_after b server s' (write_ok s'.conn.session 2 no_effects net)

  answered :
      Backend D
      → Server (Context D)
      → (HandshakeError → Bytes)
      → State D
      → Result NetError (Bytes × ℕ) × Net
      → Served D
  unfolding greeted
  answered b server error_text s (err e, net) = some (err e, s, net)
  answered b server error_text s (ok (payload, seq), net) =
      greeted b server error_text s (read_handshake_response payload (login_of s)) net

  after_greeting :
      Backend D
      → Server (Context D)
      → (HandshakeError → Bytes)
      → State D
      → Result NetError Unit × Net
      → Served D
  unfolding answered
  after_greeting b server error_text s (err e, net) = some (err e, s, net)
  after_greeting b server error_text s (ok u, net) =
      answered b server error_text s (read_packet net)

  -- `serve`
  unfoldable pub serve :
      Backend D → Server (Context D) → (HandshakeError → Bytes) → State D → Net → Served D
  unfolding after_greeting
  serve b server error_text s net = after_greeting b server error_text s (
      write_handshake b.settings.mysql_version s.context.connection_id s.conn.session.status_flags
        net)
