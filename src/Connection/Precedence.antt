-- ===== src/Connection/Precedence.antt =====
-- About the rules, which `executeQuery` asks first.

use mysqlmock.Base.{◌≡◌, refl, false, some, List, [], Bytes, beq, trim_space}
use mysqlmock.Errors.{Result}
use mysqlmock.Value.{Value}
use mysqlmock.Rules.Execution.{execute_rule}
use mysqlmock.Connection.Backend.{QueryFailure, Reply, Backend}
use mysqlmock.Connection.Logging.{◌>>=◌, ◌>>◌, State, and_then, with_context, log_event, log_query}
use mysqlmock.Connection.Routing.{rule_answer, after_rules, offer, execute_query}

module _ {D : Type 0} where
  -- A statement that is not blank and that a rule answers, with a result or an error, gets this
  -- answer; the connection, its variables, the locks and the database stay as they were.
  pub execute_query-rules :
      (b : Backend D) (command sql : Bytes) (args : List Value) (s : State D)
      (r : Result QueryFailure Reply)
      → beq (trim_space sql) [] ≡ false
      → rule_answer b (execute_rule b.go b.wait_ends b.rules sql args s.context.once_used).0
        ≡ some r
      → ((execute_query b command sql args s).0 ≡ r)
        × ((execute_query b command sql args s).1.conn ≡ s.conn)
        × ((execute_query b command sql args s).1.context.vars ≡ s.context.vars)
        × ((execute_query b command sql args s).1.context.locks ≡ s.context.locks)
        × ((execute_query b command sql args s).1.context.database ≡ s.context.database)
  unfolding execute_query offer after_rules ◌>>◌ ◌>>=◌ and_then log_query log_event with_context
  execute_query-rules b command sql args s r h found = rw (h, found) (refl, refl, refl, refl, refl)
