-- ===== src/Connection/Recorded.antt =====
-- About the records of the queries that a statement leaves, with those that `handleQuery` and
-- `handleStmtExecute` add to those of `executeQuery`.
use mysqlmock.Scanner.{normalize_sql}
use mysqlmock.Connection.Routing.{execute_query}
use mysqlmock.Value.{Value}
use mysqlmock.Stores.Diagnostics.{run_call, Diagnostics, QueryEvent}
use mysqlmock.Errors.{ok, DecodeError, err, Result}
use mysqlmock.Connection.Query.{
  statement_server, handle_query, statement_outcome, query_answer, sqlite_failure,
}
use mysqlmock.Connection.{Context}
use mysqlmock.Connection.Backend.{
  rule_disconnected, sqlite_reply, set_reply, ok_reply, mysql_failure, other_failure, Reply,
  QueryFailure, Backend,
}
use mysqlmock.Base.{
  ◌≡◌, refl, ap, ◌∙◌, inl, inr, Bool, true, false, List, [], ◌∷◌, ◌++◌, append_assoc, if◌then◌else◌,
  Bool-cases, Bytes, codes, beq, trim_space,
}
use mysqlmock.Prepared.Queries.{ReplyError}
use mysqlmock.Connection.Logging.{
  log_event, note_unsupported, with_context, record_unsupported_query, State,
}
use mysqlmock.Connection.Logged.{LoggedOnce, execute_query-LoggedOnce}

module _ {D : Type 0} where
  -- `isSQLiteSyntaxError` of an error that is no MySQL error.
  unfoldable pub is_refused : {A : Type 0} → Backend D → Result QueryFailure A → Bool
  is_refused b (err (other_failure message)) = b.is_syntax_error message
  is_refused b r = false

  -- The records of the queries have grown by an event about the statement and, if it was refused, by
  -- a second one, for the unsupported statement.
  pub record LoggedAs (sql : Bytes) (refused : Bool) (w w' : Context D) : Type 0 where
    pub event : QueryEvent
    pub same_text : event.sql ≡ sql
    pub refusal : QueryEvent
    pub refusal_text : refusal.sql ≡ sql
    pub refusal_route : refusal.route ≡ codes "sqlite"
    pub grown :
        w'.diagnostics.queries
        ≡ w.diagnostics.queries ++ event ∷ (if refused then refusal ∷ [] else [])

  only_once :
      {sql : Bytes} {s s1 : State D} (w : Context D)
      → LoggedOnce sql s s1
      → w.diagnostics ≡ s1.context.diagnostics
      → LoggedAs sql false s.context w
  only_once w l k = record {
    event = l.event;
    same_text = l.same_text;
    refusal = record l.event { route = codes "sqlite" };
    refusal_text = l.same_text;
    refusal_route = refl;
    grown = ap (λ (d : Diagnostics). d.queries) k ∙ l.grown;
  }

  -- One more event, for an unsupported statement.
  record Refused (sql : Bytes) (s s' : State D) : Type 0 where
    event : QueryEvent
    same_text : event.sql ≡ sql
    same_route : event.route ≡ codes "sqlite"
    grown : s'.context.diagnostics.queries ≡ s.context.diagnostics.queries ++ event ∷ []

  record_unsupported_query-Refused :
      (b : Backend D) (command sql normalized : Bytes) (s : State D)
      → Refused sql s (record_unsupported_query b command sql normalized (codes "sqlite") s).1
  unfolding record_unsupported_query with_context note_unsupported log_event run_call beq
  record_unsupported_query-Refused b command sql normalized s = record {
    event = _;
    same_text = refl;
    same_route = refl;
    grown = refl;
  }

  then_second :
      {sql : Bytes} {s s1 s2 : State D}
      → LoggedOnce sql s s1
      → Refused sql s1 s2
      → LoggedAs sql true s.context s2.context
  then_second {s = s} l r = record {
    event = l.event;
    same_text = l.same_text;
    refusal = r.event;
    refusal_text = r.same_text;
    refusal_route = r.same_route;
    grown =
        r.grown
        ∙ (ap (λ (qs : List QueryEvent). qs ++ r.event ∷ []) l.grown
            ∙ append_assoc s.context.diagnostics.queries (l.event ∷ []) (r.event ∷ []));
  }

  sqlite_failure-LoggedAs :
      (b : Backend D) (command sql message : Bytes) {s s1 : State D}
      → LoggedOnce sql s s1
      → LoggedAs sql
          (b.is_syntax_error message)
          s.context
          (sqlite_failure b command sql message s1).1.context
  unfolding sqlite_failure
  sqlite_failure-LoggedAs b command sql message {s1 = s1} l =
      elim (Bool-cases (b.is_syntax_error message)) [
        | inr plain ↦ rw plain (only_once s1.context l refl)
        | inl syntax ↦
            rw syntax (
              then_second l (record_unsupported_query-Refused b command sql (normalize_sql sql) s1))
      ]

  query_answer-LoggedAs :
      (b : Backend D) (sql : Bytes) (r : Result QueryFailure Reply) {s s1 : State D}
      → LoggedOnce sql s s1
      → LoggedAs sql (is_refused b r) s.context (query_answer b sql r s1).1.context
  unfolding query_answer is_refused
  query_answer-LoggedAs b sql (err (mysql_failure e)) l = only_once _ l refl
  query_answer-LoggedAs b sql (err rule_disconnected) l = only_once _ l refl
  query_answer-LoggedAs b sql (err (other_failure message)) l =
      sqlite_failure-LoggedAs b (codes "COM_QUERY") sql message l
  query_answer-LoggedAs b sql (ok (ok_reply r)) l = only_once _ l refl
  query_answer-LoggedAs b sql (ok (set_reply rs)) l = only_once _ l refl
  query_answer-LoggedAs b sql (ok (sqlite_reply payloads)) l = only_once _ l refl

  statement_outcome-LoggedAs :
      (b : Backend D) (sql : Bytes) (r : Result QueryFailure Reply) {s s1 : State D}
      → LoggedOnce sql s s1
      → LoggedAs sql (is_refused b r) s.context (statement_outcome b sql r s1).1.context
  unfolding statement_outcome is_refused
  statement_outcome-LoggedAs b sql (err (mysql_failure e)) l = only_once _ l refl
  statement_outcome-LoggedAs b sql (err rule_disconnected) l = only_once _ l refl
  statement_outcome-LoggedAs b sql (err (other_failure message)) l =
      sqlite_failure-LoggedAs b (codes "COM_STMT_EXECUTE") sql message l
  statement_outcome-LoggedAs b sql (ok (ok_reply r)) l = only_once _ l refl
  statement_outcome-LoggedAs b sql (ok (set_reply rs)) l = only_once _ l refl
  statement_outcome-LoggedAs b sql (ok (sqlite_reply payloads)) l = only_once _ l refl

  -- A statement that is not blank, sent by COM_QUERY or run as a prepared statement, adds to the
  -- records of the queries one event with its text, whoever answers it and whatever fails; and a
  -- second one, with its text and the route "sqlite", exactly if executeQuery gives back an error that
  -- is no MySQL error and that is a syntax error of SQLite.
  pub handle_query-LoggedAs :
      (b : Backend D) (sql : Bytes) (args : List Value) (s : State D)
      (decode_error_text : DecodeError → Bytes) (reply_error_text : ReplyError → Bytes)
      → beq (trim_space sql) [] ≡ false
      → LoggedAs sql
          (is_refused b (execute_query b (codes "COM_QUERY") sql [] s).0)
          s.context
          (handle_query b sql s).1.context
        × LoggedAs sql
            (is_refused b (execute_query b (codes "COM_STMT_EXECUTE") sql args s).0)
            s.context
            ((statement_server b decode_error_text reply_error_text).execute_query s.conn s.context
              sql args).2
  unfolding handle_query statement_server
  handle_query-LoggedAs b sql args s decode_error_text reply_error_text h = (
    query_answer-LoggedAs b sql (execute_query b (codes "COM_QUERY") sql [] s).0
        (execute_query-LoggedOnce b (codes "COM_QUERY") sql [] s h),
    statement_outcome-LoggedAs b sql (execute_query b (codes "COM_STMT_EXECUTE") sql args s).0
        (execute_query-LoggedOnce b (codes "COM_STMT_EXECUTE") sql args s h),
  )
