-- ===== src/Tests/Rules.antt =====
-- Rules at concrete inputs.
use mysqlmock.Map.{insert, lookup}
use mysqlmock.Base.{
  to_lower, ◌≤◌, ◌≡◌, refl, true, false, none, some, List, [], ◌∷◌, if◌then◌else◌, Bytes, codes,
  beq, to_upper, trim_space,
}
use mysqlmock.Value.{int64, Value, null, signed_num}
use mysqlmock.Rules.{
  array, scalar, RuleResponse, RuleConfig, PreparedRule, Regexp, prepare_rule, prepare_rules_from,
  prepare_rules,
}
use mysqlmock.Rules.Matching.{
  rule_params_match, matches, is_used, select_rule, match_from, match_rule,
}
use mysqlmock.Rules.Results.{
  with_profile, lookup_rule_response_profile, rule_column_field_type, rule_row_values, rule_columns,
  rule_rows_from, build_rule_result_set, apply_rule_response_profile,
}
use mysqlmock.Rules.Validation.{
  response_type, validate_request, validate_column_names, validate_response, validate_rule_config,
}
use mysqlmock.Rules.Selection.{may_answer, first_rule, selection, match_rule-first}
use mysqlmock.Rules.Once.{answers, count_once, answers-once}
use mysqlmock.Rules.Valid.{Proper, valid_rule_responds}
use mysqlmock.Tests.Fixtures.{plain_runtime}
use mysqlmock.Rules.Execution.{respond}
use mysqlmock.Base.Int.{pos}
use mysqlmock.Errors.{ok}

abbrev no_regex : Regexp
no_regex = λ s. none

abbrev one_column : RuleResponse
one_column = record {
  profile = [];
  kind = codes "result_set";
  columns = record { name = codes "n"; type_name = codes "int" } ∷ [];
  row_format = [];
  rows = array (signed_num int64 (pos 7) ∷ []) ∷ scalar null ∷ [];
  affected_rows = 0;
  last_insert_id = 0;
  warnings = 0;
  code = 0;
  sql_state = [];
  message = [];
  delay_ms = pos 0;
  after_ms = pos 0;
  once = true;
}

-- Answers "SELECT n" once with a result set.
abbrev once_rule : RuleConfig
once_rule = record {
  name = codes "once";
  request = record { match_kind = []; sql = codes "SELECT n"; params = none };
  response = one_column;
}

abbrev ready_rule : PreparedRule
ready_rule = record {
  config = once_rule;
  match_kind = codes "exact";
  normalized_sql = [];
  regex = none;
}

rules_ready : prepare_rules no_regex (once_rule ∷ []) ≡ ok (ready_rule ∷ [])
unfolding prepare_rules prepare_rules_from prepare_rule beq
rules_ready = refl

match_rule-first_example :
    match_rule plain_runtime (ready_rule ∷ []) (codes "SELECT n") [] []
    ≡ selection
        (first_rule (may_answer plain_runtime (codes "SELECT n") [] []) 0 (ready_rule ∷ []))
        []
match_rule-first_example =
    match_rule-first no_regex plain_runtime (once_rule ∷ []) (ready_rule ∷ []) (codes "SELECT n") []
      [] rules_ready

-- The rule answers the first time, and not the second.
first_answer :
    match_rule plain_runtime (ready_rule ∷ []) (codes "SELECT n") [] []
    ≡ (ok (some (0, once_rule)), (0, true) ∷ [])
unfolding match_rule match_from matches select_rule rule_params_match beq lookup insert
first_answer = refl

second_answer :
    match_rule plain_runtime (ready_rule ∷ []) (codes "SELECT n") [] ((0, true) ∷ [])
    ≡ (ok none, (0, true) ∷ [])
unfolding match_rule match_from matches select_rule rule_params_match beq lookup
second_answer = refl

abbrev queries : List (Bytes × List Value)
queries = (codes "SELECT n", []) ∷ (codes "SELECT n", []) ∷ []

answers-once_example :
    count_once 0 (answers plain_runtime (ready_rule ∷ []) queries [])
    ≤ (if is_used 0 [] then 0 else 1)
answers-once_example =
    answers-once no_regex plain_runtime (once_rule ∷ []) (ready_rule ∷ []) queries [] 0 rules_ready

rule_is_valid : validate_rule_config no_regex once_rule ≡ ok tt
unfolding validate_rule_config response_type validate_request validate_response
    validate_column_names build_rule_result_set rule_columns rule_column_field_type rule_rows_from
    rule_row_values beq lookup trim_space to_upper
rule_is_valid = refl

valid_rule_responds_example :
    Proper
      (λ ms. false)
      (apply_rule_response_profile one_column)
      (respond (λ ms. false) (apply_rule_response_profile one_column))
valid_rule_responds_example = valid_rule_responds no_regex once_rule (λ ms. false) rule_is_valid

abbrev deadlock : RuleResponse
deadlock = record one_column { profile = codes "Deadlock"; kind = [] }

deadlock_code : (apply_rule_response_profile deadlock).code ≡ 1213
unfolding apply_rule_response_profile lookup_rule_response_profile with_profile lookup trim_space
    to_lower beq
deadlock_code = refl
