-- ===== src/Connection/Flags.antt =====
-- The mark of a transaction that clients see in the status flags (`execSQLite`, and the branches
-- for BEGIN, COMMIT and ROLLBACK of `executeQuery`).

use mysqlmock.Base.Int.{ℤ}
use mysqlmock.Base.{
  ℕ, ◌≡◌, refl, ap, ◌∙◌, Bool, true, false, not, ◌&&◌, Option, none, some, List, [], arith,
  if◌then◌else◌, Bytes, codes, trim_space,
}
use mysqlmock.Errors.{Result, ok, err}
use mysqlmock.Response.{OkResult}
use mysqlmock.Value.{Value}
use mysqlmock.Connection.{Context, server_status_in_trans, has_flag, set_flag, clear_flag}
use mysqlmock.Connection.Backend.{QueryFailure, Backend}
use mysqlmock.Connection.Logging.{
  ◌>>=◌, ◌>>◌, State, Step, done, fail, and_then, with_context, with_conn,
}
use mysqlmock.Connection.Sqlite.{
  mark_transaction, with_database, refused, with_check, ran, exec_context, exec_sqlite,
}
use mysqlmock.Connection.Transactions.{
  leave_transaction, commit, restored, restore_after, rollback, rollback_and_chain,
}
use mysqlmock.Connection.Kept.{Keeps, Keeps-bind, Keeps-then, Keeps-refl, done-Keeps}
use mysqlmock.Prepared.Statements.{Conn}

abbrev pub in_transaction : Conn → Bool
in_transaction c = has_flag server_status_in_trans c.session.status_flags

abbrev pub succeeded : {A : Type 0} → Result QueryFailure A → Bool
succeeded (ok a) = true
succeeded (err e) = false

has-clear_flag :
    (flags : ℕ) → has_flag server_status_in_trans (clear_flag server_status_in_trans flags) ≡ false
unfolding has_flag clear_flag
has-clear_flag flags = ground arith

has-set_flag :
    (flags : ℕ) → has_flag server_status_in_trans (set_flag server_status_in_trans flags) ≡ true
unfolding has_flag set_flag
has-set_flag flags = ground arith

leave_transaction-out : (c : Conn) → in_transaction (leave_transaction c) ≡ false
unfolding leave_transaction
leave_transaction-out c = has-clear_flag c.session.status_flags

module _ {D : Type 0} where
  abbrev conn_of : State D → Conn
  conn_of s = s.conn

  conn_with_context : (f : Context D → Context D) → Keeps conn_of (with_context f)
  unfolding with_context
  conn_with_context f = Keeps-refl (λ s. refl)

  conn_with_check : (f : D → Option QueryFailure × D) → Keeps conn_of (with_check f)
  unfolding done fail
  conn_with_check f =
      Keeps-refl (λ s. by_option s (f s.context.database).0 (f s.context.database).1)
    where
      by_option :
          (s : State D) (o : Option QueryFailure) (d : D)
          → (refused o (record s { context = record s.context { database = d } })).1.conn ≡ s.conn
      by_option s none d = refl
      by_option s (some e) d = refl

  conn_exec_context :
      (b : Backend D) (query : Bytes) (args : List Value)
      → Keeps conn_of (exec_context b query args)
  unfolding exec_context done fail
  conn_exec_context b query args = Keeps-refl (λ s.
      by_result s (b.exec_context s.context.database query args).0
        (b.exec_context s.context.database query args).1)
    where
      by_result :
          (s : State D) (r : Result Bytes (ℤ × ℤ)) (d : D)
          → (ran r (record s { context = record s.context { database = d } })).1.conn ≡ s.conn
      by_result s (ok c) d = refl
      by_result s (err e) d = refl

  -- All that running a statement does to the connection is to mark a transaction.
  pub exec_sqlite-conn :
      (b : Backend D) (query : Bytes) (args : List Value) (s : State D)
      → (exec_sqlite b query args s).1.conn ≡ mark_transaction query s.conn
  unfolding exec_sqlite ◌>>◌ ◌>>=◌ and_then with_conn
  exec_sqlite-conn b query args s =
      (Keeps-then (conn_with_check (λ d. b.validate_write_values d query args)) (
          Keeps-bind (conn_exec_context b query args) (λ counts.
            Keeps-then (conn_with_context _)
              (Keeps-then (conn_with_context _) (done-Keeps _))))).same
        (record s { conn = mark_transaction query s.conn })

  begin_marks :
      (b : Backend D) (s : State D)
      → in_transaction (exec_sqlite b (codes "BEGIN") [] s).1.conn ≡ true
  unfolding mark_transaction trim_space
  begin_marks b s =
      ap in_transaction (exec_sqlite-conn b (codes "BEGIN") [] s)
      ∙ has-set_flag s.conn.session.status_flags

  commit_marks :
      (b : Backend D) (s : State D)
      → in_transaction (commit b s).1.conn
        ≡ (if succeeded (commit b s).0 then false else in_transaction s.conn)
  unfolding commit ◌>>◌ ◌>>=◌ and_then with_conn with_context done mark_transaction trim_space
  commit_marks b s =
      by_result (exec_sqlite b (codes "COMMIT") [] s).0 (exec_sqlite b (codes "COMMIT") [] s).1
        (exec_sqlite-conn b (codes "COMMIT") [] s)
    where
      by_result :
          (r : Result QueryFailure OkResult) (s1 : State D)
          → s1.conn ≡ s.conn
          → in_transaction
              (and_then r
                (λ x.
                  with_database b.clear_restore_tables >> (with_conn leave_transaction >> done x))
                s1).1.conn
            ≡ (if succeeded
                  (and_then r
                    (λ x.
                      with_database b.clear_restore_tables
                      >> (with_conn leave_transaction >> done x))
                    s1).0
                then false
                else in_transaction s.conn)
      by_result (ok x) s1 e = leave_transaction-out s1.conn
      by_result (err x) s1 e = ap in_transaction e

  restored_marks :
      (b : Backend D) (x : OkResult) (e : Option QueryFailure) (s : State D)
      → in_transaction s.conn ≡ false
      → (succeeded (restored b x e s).0 && in_transaction (restored b x e s).1.conn) ≡ false
  unfolding restored ◌>>◌ ◌>>=◌ and_then with_context done fail
  restored_marks b x none s h = h
  restored_marks b x (some e) s h = refl

  rollback_marks :
      (b : Backend D) (s : State D)
      → (succeeded (rollback b s).0 && in_transaction (rollback b s).1.conn) ≡ false
  unfolding rollback restore_after ◌>>=◌ and_then
  rollback_marks b s =
      by_result (exec_sqlite b (codes "ROLLBACK") [] s).0 (exec_sqlite b (codes "ROLLBACK") [] s).1
    where
      by_result :
          (r : Result QueryFailure OkResult) (s1 : State D)
          → (succeeded (and_then r (restore_after b) s1).0
              && in_transaction (and_then r (restore_after b) s1).1.conn)
            ≡ false
      by_result (ok x) s1 =
          restored_marks b x (b.restore_sequences s1.context.database).0 _
            (leave_transaction-out s1.conn)
      by_result (err x) s1 = refl

  -- Where the step succeeds, the connection is marked.
  record EndsMarked {A : Type 0} (m : Step D A) : Type 0 where
    marked : (s : State D) → (succeeded (m s).0 && not (in_transaction (m s).1.conn)) ≡ false

  then_EndsMarked :
      {B : Type 0} (m : Step D Unit) {k : Step D B} → EndsMarked k → EndsMarked (m >> k)
  unfolding ◌>>◌ ◌>>=◌ and_then
  then_EndsMarked m {k = k} e = record { marked = λ s. by_result (m s).0 (m s).1 }
    where
      by_result :
          (r : Result QueryFailure Unit) (s1 : State D)
          → (succeeded (and_then r (λ u. k) s1).0
              && not (in_transaction (and_then r (λ u. k) s1).1.conn))
            ≡ false
      by_result (ok u) s1 = e.marked s1
      by_result (err x) s1 = refl

  begin-EndsMarked : (b : Backend D) → EndsMarked (exec_sqlite b (codes "BEGIN") [])
  begin-EndsMarked b = record { marked = λ s. ground (arith, begin_marks b s) }

  chain_marks : (b : Backend D) → EndsMarked (rollback_and_chain b)
  unfolding rollback_and_chain
  chain_marks b =
      then_EndsMarked _
        (then_EndsMarked _ (then_EndsMarked _ (then_EndsMarked _ (begin-EndsMarked b))))

  -- After BEGIN the connection is marked as in a transaction; after COMMIT or ROLLBACK that succeeds
  -- it is not, and a COMMIT that fails leaves the connection as it was; after ROLLBACK AND CHAIN
  -- that succeeds it is.
  pub transaction_marks :
      (b : Backend D) (s : State D)
      → (in_transaction (exec_sqlite b (codes "BEGIN") [] s).1.conn ≡ true)
        × (in_transaction (commit b s).1.conn
            ≡ (if succeeded (commit b s).0 then false else in_transaction s.conn))
        × ((succeeded (rollback b s).0 && in_transaction (rollback b s).1.conn) ≡ false)
        × ((succeeded (rollback_and_chain b s).0
              && not (in_transaction (rollback_and_chain b s).1.conn))
            ≡ false)
  transaction_marks b s =
      (begin_marks b s, commit_marks b s, rollback_marks b s, (chain_marks b).marked s)
