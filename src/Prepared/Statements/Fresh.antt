-- ===== src/Prepared/Statements/Fresh.antt =====
-- About the identifiers of prepared statements along a run of a connection.
use mysqlmock.Map.Laws.{lookup-insert}
use mysqlmock.Base.{
  ge→ltb, ◌==◌, if◌then◌else◌, some, ℕ, suc, ◌+◌, ◌%◌, ◌^◌, ◌≤◌, ◌<◌, ◌≡◌, refl, inl, inr, none,
  List, [], arith, ltb, ltb→ge, Bool-cases, Option-cases, length, Bytes,
}
use mysqlmock.Value.{Value}
use mysqlmock.Map.{nat_eq, bytes_eq, lookup, insert}
use mysqlmock.Prepared.Arguments.{PreparedStatement, decode_execute_args}
use mysqlmock.Prepared.Statements.{
  new_statement, Conn, handle_stmt_prepare, statement_id, handle_stmt_send_long_data,
  handle_stmt_close, handle_stmt_reset,
}
use mysqlmock.Prepared.Statements.Kept.{
  Kept, AllKept, AllKept-insert, AllKept-later, Keeps, changed-Keeps, same-Keeps,
  send_long_data-Keeps, close-Keeps, reset-Keeps, decode_execute_args-same, record_result-Keeps,
}
use mysqlmock.Prepared.Queries.{Server, run_decoded, execute_statement, handle_stmt_execute}
use mysqlmock.Response.{Session}
use mysqlmock.Prepared.Placeholders.{count_placeholders}
use mysqlmock.Errors.{DecodeError, Result, ok, err}
use mysqlmock.Base.Int.{pos}

-- A connection as `handleNetConn` makes it.
abbrev pub connected : Session → Conn
connected s = record {
  session = s;
  last_insert_id = 0;
  last_affected_rows = pos 0;
  next_statement_id = 1;
  statements = [];
}

-- The connection after so many commands on prepared statements, in any order.
pub data Run {W : Type 0} (server : Server W) : ℕ → Conn → Type 0 where
  start : (s : Session) → Run server 0 (connected s)
  prepared :
      {n : ℕ} {c : Conn} (sql : Bytes)
      → Run server n c
      → Run server (suc n) (handle_stmt_prepare sql c).1
  executed :
      {n : ℕ} {c : Conn} (payload : Bytes) (w : W)
      → Run server n c
      → Run server (suc n) (handle_stmt_execute server payload c w).1
  sent_ahead :
      {n : ℕ} {c : Conn} (payload : Bytes)
      → Run server n c
      → Run server (suc n) (handle_stmt_send_long_data payload c).1
  closed :
      {n : ℕ} {c : Conn} (payload : Bytes)
      → Run server n c
      → Run server (suc n) (handle_stmt_close payload c)
  was_reset :
      {n : ℕ} {c : Conn} (payload : Bytes)
      → Run server n c
      → Run server (suc n) (handle_stmt_reset payload c).1

run_decoded-Keeps :
    {W : Type 0} (server : Server W) (sql : Bytes) (decoded : Result DecodeError (List Value))
    (c c' : Conn) (w : W)
    → Keeps c c'
    → Keeps c (run_decoded server sql decoded c' w).1
unfolding run_decoded
run_decoded-Keeps server sql (err e) c c' w k = k
run_decoded-Keeps server sql (ok args) c c' w k =
    let (outcome, session, w') = server.execute_query c' w sql args in
    record_result-Keeps outcome c (record c' { session = session })
      (record { same_next = k.same_next; kept = k.kept })

execute-Keeps :
    {W : Type 0} (server : Server W) (payload : Bytes) (c : Conn) (w : W)
    → Keeps c (handle_stmt_execute server payload c w).1
unfolding handle_stmt_execute execute_statement
execute-Keeps server payload c w = elim (Bool-cases (ltb (length payload) 9)) [
  | inl p ↦ rw p (same-Keeps c)
  | inr p ↦ rw p (elim (Option-cases (lookup (statement_id payload) c.statements)) [
    | inl e ↦ rw e (same-Keeps c)
    | inr (stmt, e) ↦
        let r = decode_execute_args server.go stmt payload in
        let same = decode_execute_args-same server stmt payload in
        let stmt' : PreparedStatement = record r.1 { long_data = [] } in
        rw e (
          run_decoded-Keeps server stmt.sql r.0 c
            (record c { statements = insert (statement_id payload) stmt' c.statements }) w
            (changed-Keeps c (statement_id payload) stmt stmt' e same.0 same.1 same.2))
  ])
]

-- What holds of a connection after so many commands.
pub record Sound (n : ℕ) (c : Conn) : Type 0 where
  pub all_kept : AllKept c.next_statement_id c.statements
  pub next_le : c.next_statement_id ≤ n + 1

Keeps-Sound : (n : ℕ) (c c' : Conn) → Sound n c → Keeps c c' → Sound (suc n) c'
Keeps-Sound n c c' s k = record {
  all_kept = rw k.same_next (k.kept c.next_statement_id s.all_kept);
  next_le = omega (arith, k.same_next, s.next_le);
}

prepare-Sound :
    (n : ℕ) (sql : Bytes) (c : Conn)
    → n + 2 < 2 ^ 32
    → Sound n c
    → Sound (suc n) (handle_stmt_prepare sql c).1
unfolding handle_stmt_prepare
prepare-Sound n sql c h s = elim (Bool-cases (ltb 65535 (count_placeholders sql))) [
  | inl p ↦ rw p (record { all_kept = s.all_kept; next_le = omega (arith, s.next_le) })
  | inr p ↦
      let no_wrap : (c.next_statement_id + 1) % 2 ^ 32 ≡ c.next_statement_id + 1 =
        omega (arith, s.next_le) in
      rw p (record {
        all_kept = rw no_wrap (
            AllKept-insert (c.next_statement_id + 1) c.next_statement_id
              (new_statement c.next_statement_id sql) c.statements
              (AllKept-later c.next_statement_id (c.next_statement_id + 1) c.statements
                (omega arith) s.all_kept)
              (record {
                below = omega arith;
                own_id = refl;
                counted = refl;
                few = omega (arith, ltb→ge 65535 (count_placeholders sql) p);
              }));
        next_le = omega (arith, no_wrap, s.next_le);
      })
]

Run-Sound :
    {W : Type 0} {server : Server W} {n : ℕ} {c : Conn}
    → Run server n c
    → n + 1 < 2 ^ 32
    → Sound n c
Run-Sound (start s) h = record {
  all_kept = λ j stmt e. (unfold lookup in cc);
  next_le = omega arith;
}
Run-Sound {n = suc n} (prepared sql r) h =
    prepare-Sound n sql _ (omega arith) (Run-Sound r (omega arith))
Run-Sound {n = suc n} (executed payload w r) h =
    Keeps-Sound n _ _ (Run-Sound r (omega arith)) (execute-Keeps _ payload _ w)
Run-Sound {n = suc n} (sent_ahead payload r) h =
    Keeps-Sound n _ _ (Run-Sound r (omega arith)) (send_long_data-Keeps payload _)
Run-Sound {n = suc n} (closed payload r) h =
    Keeps-Sound n _ _ (Run-Sound r (omega arith)) (close-Keeps payload _)
Run-Sound {n = suc n} (was_reset payload r) h =
    Keeps-Sound n _ _ (Run-Sound r (omega arith)) (reset-Keeps payload _)

-- Along any run of fewer than 2^32 - 1 commands on prepared statements, with whatever queries in
-- between, every statement that is found under a number has it as its identifier, the number is
-- below the next one that COM_STMT_PREPARE gives, and the statement's parameters are the
-- placeholders of its text, of which there are at most 65535.
pub Run-Kept :
    {W : Type 0} {server : Server W} {n : ℕ} {c : Conn} (j : ℕ) (stmt : PreparedStatement)
    → Run server n c
    → n + 1 < 2 ^ 32
    → lookup j c.statements ≡ some stmt
    → Kept c.next_statement_id j stmt
Run-Kept j stmt r h e = (Run-Sound r h).all_kept j stmt e

-- Along any run of fewer than 2^32 - 1 commands on prepared statements, COM_STMT_PREPARE of a text
-- with at most 65535 placeholders makes no statement inaccessible: its identifier is that of no
-- statement, a lookup under it finds the new one, and a lookup under any other number finds what
-- it found before.
pub prepare-lookup :
    {W : Type 0} {server : Server W} {n : ℕ} {c : Conn} (sql : Bytes) (j : ℕ)
    → Run server n c
    → n + 1 < 2 ^ 32
    → count_placeholders sql ≤ 65535
    → (lookup c.next_statement_id c.statements ≡ none)
      × (lookup j (handle_stmt_prepare sql c).1.statements ≡ (
          if c.next_statement_id == j
          then some (new_statement c.next_statement_id sql)
          else lookup j c.statements))
unfolding handle_stmt_prepare
prepare-lookup {c = c} sql j r h few =
    let s = Run-Sound r h in
    (
      (elim (Option-cases (lookup c.next_statement_id c.statements)) [
        | inl e ↦ e
        | inr (stmt, e) ↦ absurd (omega (arith, (s.all_kept c.next_statement_id stmt e).below))
      ]),
      rw (ge→ltb 65535 (count_placeholders sql) few) (
          lookup-insert c.next_statement_id j (new_statement c.next_statement_id sql) c.statements),
    )
