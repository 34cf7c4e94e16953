-- ===== src/Connection/Kept.antt =====
-- About what the steps of the routing (`execSQLite`, the branches of `executeQuery`) change.
use mysqlmock.Prepared.Statements.{Conn}
use mysqlmock.Connection.Classify.{is_schema_changing_query}
use mysqlmock.Base.Int.{ℤ}
use mysqlmock.Base.{
  ◌≡◌, refl, ◌∙◌, Bool, true, false, Option, none, some, List, if◌then◌else◌, Bytes,
}
use mysqlmock.Errors.{Result, ok, err}
use mysqlmock.Value.{Value}
use mysqlmock.Stores.Diagnostics.{Diagnostics}
use mysqlmock.Connection.{Context}
use mysqlmock.Connection.Backend.{QueryFailure, Backend}
use mysqlmock.Connection.Logging.{
  ◌>>=◌, ◌>>◌, State, Step, done, fail, and_then, with_context, with_conn,
}
use mysqlmock.Connection.Sqlite.{
  ran, mark_transaction, refused, with_check, exec_context, schema_changed, exec_sqlite,
}

module _ {D : Type 0} where
  -- The step leaves what `view` sees.
  pub record Keeps {V A : Type 0} (view : State D → V) (m : Step D A) : Type 0 where
    pub same : (s : State D) → view (m s).1 ≡ view s

  Keeps-and_then :
      {V A B : Type 0} (view : State D → V) (r : Result QueryFailure A) (f : A → Step D B)
      (s s1 : State D)
      → view s1 ≡ view s
      → ((a : A) → Keeps view (f a))
      → view (and_then r f s1).1 ≡ view s
  unfolding and_then
  Keeps-and_then view (ok a) f s s1 k kf = (kf a).same s1 ∙ k
  Keeps-and_then view (err e) f s s1 k kf = k

  pub Keeps-bind :
      {V A B : Type 0} {view : State D → V} {m : Step D A} {f : A → Step D B}
      → Keeps view m
      → ((a : A) → Keeps view (f a))
      → Keeps view (m >>= f)
  unfolding ◌>>=◌
  Keeps-bind {view = view} {m = m} {f = f} km kf = record {
    same = λ s. Keeps-and_then view (m s).0 f s (m s).1 (km.same s) kf;
  }

  pub Keeps-then :
      {V B : Type 0} {view : State D → V} {m : Step D Unit} {k : Step D B}
      → Keeps view m
      → Keeps view k
      → Keeps view (m >> k)
  unfolding ◌>>◌
  Keeps-then km kk = Keeps-bind km (λ u. kk)

  pub Keeps-refl :
      {V A : Type 0} {view : State D → V} {m : Step D A}
      → ((s : State D) → view (m s).1 ≡ view s)
      → Keeps view m
  Keeps-refl same = record { same = same }

  pub done-Keeps : {V A : Type 0} {view : State D → V} (a : A) → Keeps view (done a)
  unfolding done
  done-Keeps a = Keeps-refl (λ s. refl)

  pub fail-Keeps :
      {V A : Type 0} {view : State D → V} (e : QueryFailure) → Keeps view (fail {A = A} e)
  unfolding fail
  fail-Keeps e = Keeps-refl (λ s. refl)

  abbrev pub diagnostics_of : State D → Diagnostics
  diagnostics_of s = s.context.diagnostics

  pub with_conn-Keeps : (f : Conn → Conn) → Keeps diagnostics_of (with_conn f)
  unfolding with_conn
  with_conn-Keeps f = Keeps-refl (λ s. refl)

  pub with_context-Keeps :
      (f : Context D → Context D)
      → ((w : Context D) → (f w).diagnostics ≡ w.diagnostics)
      → Keeps diagnostics_of (with_context f)
  unfolding with_context
  with_context-Keeps f same = Keeps-refl (λ s. same s.context)

  pub with_check-Keeps : (f : D → Option QueryFailure × D) → Keeps diagnostics_of (with_check f)
  unfolding done fail
  with_check-Keeps f =
      Keeps-refl (λ s. by_option s (f s.context.database).0 (f s.context.database).1)
    where
      by_option :
          (s : State D) (o : Option QueryFailure) (d : D)
          → diagnostics_of (refused o (record s { context = record s.context { database = d } })).1
            ≡ s.context.diagnostics
      by_option s none d = refl
      by_option s (some e) d = refl

  pub exec_context-Keeps :
      (b : Backend D) (query : Bytes) (args : List Value)
      → Keeps diagnostics_of (exec_context b query args)
  unfolding exec_context done fail
  exec_context-Keeps b query args = Keeps-refl (λ s.
      by_result s (b.exec_context s.context.database query args).0
        (b.exec_context s.context.database query args).1)
    where
      by_result :
          (s : State D) (r : Result Bytes (ℤ × ℤ)) (d : D)
          → diagnostics_of (ran r (record s { context = record s.context { database = d } })).1
            ≡ s.context.diagnostics
      by_result s (ok c) d = refl
      by_result s (err e) d = refl

  changed-Keeps :
      (b : Backend D) (p : Bool) (w : Context D)
      → (if p then schema_changed b w else w).diagnostics ≡ w.diagnostics
  changed-Keeps b true w = refl
  changed-Keeps b false w = refl

  pub exec_sqlite-Keeps :
      (b : Backend D) (query : Bytes) (args : List Value)
      → Keeps diagnostics_of (exec_sqlite b query args)
  unfolding exec_sqlite
  exec_sqlite-Keeps b query args = Keeps-then (with_conn-Keeps (mark_transaction query)) (
      Keeps-then (with_check-Keeps (λ d. b.validate_write_values d query args)) (
        Keeps-bind (exec_context-Keeps b query args) (λ counts.
          Keeps-then (with_context-Keeps _ (changed-Keeps b (is_schema_changing_query query)))
            (Keeps-then (with_context-Keeps _ (λ w. refl)) (done-Keeps _)))))
