-- ===== src/Connection/Serve/Sequence.antt =====
-- The loop of `serve`, beside a machine that takes the commands of the client one after another
-- from a list.
use mysqlmock.Base.{some, ◌^◌, ◌<◌, List, [], ◌∷◌, ◌++◌, length, Bytes}
use mysqlmock.Errors.{err}
use mysqlmock.Packet.{Net, end_of_input}
use mysqlmock.Packet.Framing.{frame}
use mysqlmock.Prepared.Queries.{Server}
use mysqlmock.Connection.{Context}
use mysqlmock.Connection.Logging.{State}
use mysqlmock.Connection.Backend.{Backend}
use mysqlmock.Connection.Serve.{Served, serve_payload, after_write}

-- The bytes of the commands that a client sends, each in a packet of its own with number 0.
abbrev pub command_frames : List Bytes → Bytes
command_frames [] = []
command_frames (p ∷ ps) = frame 0 p ++ command_frames ps

-- Every command is short enough for a packet.
unfoldable pub AllFit : List Bytes → Type 0
AllFit [] = Unit
AllFit (p ∷ ps) = (length p < 2 ^ 24) × AllFit ps

module _ {D : Type 0} (b : Backend D) (server : Server (Context D)) where
  -- The machine: it answers a command after the other until one ends the connection, a write
  -- fails, or no command is left.
  unfoldable pub run_commands : List Bytes → State D → Net → Served D
  unfolding after_write
  run_commands [] s net = some (err end_of_input, s, record net { inbound = [] })
  run_commands (p ∷ ps) s net =
      let t = serve_payload b server p s in
      after_write t.quits (λ s' net'. run_commands ps s' net') t.state
        (t.writes (record net { inbound = command_frames ps }))
