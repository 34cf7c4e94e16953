-- ===== src/Rules/Execution.antt =====
-- What a rule's answer comes to (`executeRule`, `waitRuleDelay`). Whether the context of the
-- connection ends while a timer of so many milliseconds runs is a parameter.
use mysqlmock.Base.{
  ℕ, Bool, false, Option, none, some, List, ◌++◌, ◌==◌, if◌then◌else◌, Bytes, codes, beq,
}
use mysqlmock.Value.{Value, Runtime}
use mysqlmock.Rules.{RuleResponse, RuleConfig, RuleError, PreparedRule}
use mysqlmock.Rules.Results.{build_rule_result_set}
use mysqlmock.Rows.{ResultSet}
use mysqlmock.Response.{OkResult, MysqlError, err_packet}
use mysqlmock.Rules.Matching.{OnceUsed, match_rule}
use mysqlmock.Base.Int.{ℤ, pos}
use mysqlmock.Errors.{Result, ok, err}

pub data RuleOutcome : Type 0 where
  unmatched : RuleOutcome
  rule_failed : RuleError → RuleOutcome
  interrupted : RuleOutcome
  rule_ok : OkResult → RuleOutcome
  rule_result_set : ResultSet → RuleOutcome
  rule_mysql_error : MysqlError → RuleOutcome
  disconnects : RuleOutcome

abbrev pub is_zero : ℤ → Bool
is_zero (pos n) = n == 0
is_zero n = false

-- `waitRuleDelay`: the wait is cut short.
abbrev pub wait_rule_delay : (ℤ → Bool) → ℤ → Bool
wait_rule_delay ends ms = if is_zero ms then false else ends ms

abbrev pub set_outcome : Result RuleError ResultSet → RuleOutcome
set_outcome (ok rs) = rule_result_set rs
set_outcome (err e) = rule_failed e

-- `executeRule`, for the rule that answers
unfoldable pub respond : (ℤ → Bool) → RuleResponse → RuleOutcome
respond ends resp =
    if wait_rule_delay ends resp.delay_ms
    then interrupted
    else if beq resp.kind (codes "ok")
    then rule_ok (record {
      affected_rows = resp.affected_rows;
      last_insert_id = resp.last_insert_id;
      warnings = resp.warnings;
    })
    else if beq resp.kind (codes "result_set")
    then set_outcome (build_rule_result_set resp)
    else if beq resp.kind (codes "error")
    then rule_mysql_error (err_packet resp.code resp.sql_state resp.message)
    else if beq resp.kind (codes "disconnect")
    then (if wait_rule_delay ends resp.after_ms then interrupted else disconnects)
    else rule_mysql_error
        (err_packet 1105 (codes "HY000") (codes "Unsupported rule response type: " ++ resp.kind))

abbrev pub outcome_of : (ℤ → Bool) → Result RuleError (Option (ℕ × RuleConfig)) → RuleOutcome
outcome_of ends (err e) = rule_failed e
outcome_of ends (ok none) = unmatched
outcome_of ends (ok (some (i, config))) = respond ends config.response

-- `executeRule`
unfoldable pub execute_rule :
    Runtime
    → (ℤ → Bool)
    → List PreparedRule
    → Bytes
    → List Value
    → OnceUsed
    → RuleOutcome × OnceUsed
execute_rule go ends rules sql args used =
    let selected = match_rule go rules sql args used in (outcome_of ends selected.0, selected.1)
