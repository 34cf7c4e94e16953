-- ===== src/Connection/Serve/Fuel.antt =====
-- About the fuel for the loop of `serve`.
use mysqlmock.Response.{write_ok}
use mysqlmock.Connection.Handshake.{read_handshake_response, Login, HandshakeError}
use mysqlmock.Map.{is_some}
use mysqlmock.Base.{ℕ, zero, suc, ◌+◌, ◌<◌, ◌≡◌, refl, Bool, true, false, arith, length, Bytes}
use mysqlmock.Errors.{Result, ok, err}
use mysqlmock.Packet.{Net, NetError, read_packet}
use mysqlmock.Prepared.Queries.{Server}
use mysqlmock.Connection.{no_effects, Context}
use mysqlmock.Connection.Logging.{State}
use mysqlmock.Connection.Backend.{Backend}
use mysqlmock.Connection.Serve.{
  login_of, logged_in, serve, after_greeting, answered, greeted, loop_after, Served, serve_payload,
  after_write, after_read, serve_loop,
}
use mysqlmock.Connection.Serve.Inbound.{serve_payload-InboundKept}
use mysqlmock.Packet.Reading.{read_packet-shorter}

module _ {D : Type 0} (b : Backend D) (server : Server (Context D)) where
  abbrev Loop : Type 0
  Loop = State D → Net → Served D

  -- Two ways to go on that agree wherever less is left to read than in `net`.
  abbrev AgreeBelow : Net → Loop → Loop → Type 0
  AgreeBelow net f g =
      (s : State D) (n : Net) → length n.inbound < length net.inbound → f s n ≡ g s n

  -- Whatever goes on wherever less is left to read than in `net` gives a result.
  abbrev EndsBelow : Net → Loop → Type 0
  EndsBelow net f =
      (s : State D) (n : Net) → length n.inbound < length net.inbound → is_some (f s n) ≡ true

  after_write-ends :
      (net : Net) (f : Loop) (quits : Bool) (s : State D) (r : Result NetError Unit × Net)
      → EndsBelow net f
      → length r.1.inbound < length net.inbound
      → is_some (after_write quits f s r) ≡ true
  unfolding after_write
  after_write-ends net f quits s (err e, n) ends h = refl
  after_write-ends net f true s (ok u, n) ends h = refl
  after_write-ends net f false s (ok u, n) ends h = ends s n h

  after_read-ends :
      (net : Net) (f : Loop) (s : State D) (r : Result NetError (Bytes × ℕ)) (n : Net)
      → EndsBelow net f
      → ((payload : Bytes × ℕ) → r ≡ ok payload → length n.inbound < length net.inbound)
      → is_some (after_read b server f s (r, n)) ≡ true
  unfolding after_read
  after_read-ends net f s (err e) n ends shorter = refl
  after_read-ends net f s (ok (payload, seq)) n ends shorter =
      let t = serve_payload b server payload s in
      let kept = serve_payload-InboundKept b server payload s n in
      after_write-ends net f t.quits t.state (t.writes n) ends
        (rw kept (shorter (payload, seq) refl))

  serve_loop-ends :
      (fuel : ℕ) (s : State D) (net : Net)
      → length net.inbound < fuel
      → is_some (serve_loop fuel b server s net) ≡ true
  unfolding serve_loop
  serve_loop-ends zero s net h = absurd (omega arith)
  serve_loop-ends (suc fuel) s net h =
      after_read-ends net _ s (read_packet net).0 (read_packet net).1
        (λ s' n' below. serve_loop-ends fuel s' n' (omega arith))
        (λ payload found. read_packet-shorter net payload found)

  loop_after-ends :
      (s : State D) (r : Result NetError Unit × Net) → is_some (loop_after b server s r) ≡ true
  unfolding loop_after
  loop_after-ends s (err e, net) = refl
  loop_after-ends s (ok u, net) = serve_loop-ends (length net.inbound + 1) s net (omega arith)

  greeted-ends :
      (error_text : HandshakeError → Bytes) (s : State D) (r : Result HandshakeError Unit × Login)
      (net : Net)
      → is_some (greeted b server error_text s r net) ≡ true
  unfolding greeted
  greeted-ends error_text s (err e, login) net = refl
  greeted-ends error_text s (ok u, login) net =
      loop_after-ends (logged_in login s)
        (write_ok (logged_in login s).conn.session 2 no_effects net)

  answered-ends :
      (error_text : HandshakeError → Bytes) (s : State D) (r : Result NetError (Bytes × ℕ) × Net)
      → is_some (answered b server error_text s r) ≡ true
  unfolding answered
  answered-ends error_text s (err e, net) = refl
  answered-ends error_text s (ok (payload, seq), net) =
      greeted-ends error_text s (read_handshake_response payload (login_of s)) net

  after_greeting-ends :
      (error_text : HandshakeError → Bytes) (s : State D) (r : Result NetError Unit × Net)
      → is_some (after_greeting b server error_text s r) ≡ true
  unfolding after_greeting
  after_greeting-ends error_text s (err e, net) = refl
  after_greeting-ends error_text s (ok u, net) = answered-ends error_text s (read_packet net)

  -- A connection that is served from its greeting on comes to an end: its fuel is enough.
  serve-ends :
      (error_text : HandshakeError → Bytes) (s : State D) (net : Net)
      → is_some (serve b server error_text s net) ≡ true
  unfolding serve
  serve-ends error_text s net = after_greeting-ends error_text s _
