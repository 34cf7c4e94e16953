-- ===== src/Rules/Validation.antt =====
-- The check of a rule when the configuration is read (`validateRuleConfig`).
use mysqlmock.Rows.{ResultSet}
use mysqlmock.Base.{
  Option, ℕ, ◌+◌, Bool, true, false, not, none, some, List, [], ◌∷◌, ◌==◌, if◌then◌else◌, length,
  Bytes, codes, beq,
}
use mysqlmock.Rules.{
  RuleRequest, RuleColumn, RuleResponse, RuleConfig, RuleError, invalid_regex, unsupported_match,
  unsupported_profile, profile_requires, sql_required, negative_delay, negative_after,
  columns_required, column_name_required, invalid_result_set, unsupported_response, Regexp,
  match_or_exact, is_word,
}
use mysqlmock.Rules.Results.{Profile, build_rule_result_set, lookup_rule_response_profile}
use mysqlmock.Base.Int.{ℤ, pos, negsuc}
use mysqlmock.Errors.{Result, ok, err, ◌>>=◌}

abbrev pub is_negative : ℤ → Bool
is_negative (pos n) = false
is_negative (negsuc n) = true

unfoldable pub profile_type : RuleResponse → Option Profile → Result RuleError Bytes
profile_type resp none = err (unsupported_profile resp.profile)
profile_type resp (some profile) =
    if beq resp.kind []
    then ok profile.kind
    else if not (beq resp.kind profile.kind)
    then err (profile_requires resp.profile profile.kind)
    else ok resp.kind

-- The type of the response, by itself or by its profile.
unfoldable pub response_type : RuleResponse → Result RuleError Bytes
unfolding profile_type
response_type resp =
    if beq resp.profile []
    then ok resp.kind
    else profile_type resp (lookup_rule_response_profile resp.profile)

unfoldable pub validate_request : Regexp → RuleRequest → Result RuleError Unit
validate_request compile request =
    let kind = match_or_exact request.match_kind in
    if is_word kind (codes "exact" ∷ codes "normalized" ∷ codes "regex" ∷ codes "contains" ∷ [])
    then (if beq request.sql []
        then err (sql_required kind)
        else if beq kind (codes "regex")
        then elim (compile request.sql) [ none ↦ err invalid_regex | some f ↦ ok tt ]
        else ok tt)
    else if beq kind (codes "any")
    then ok tt
    else err (unsupported_match kind)

unfoldable pub validate_column_names : ℕ → List RuleColumn → Result RuleError Unit
validate_column_names i [] = ok tt
validate_column_names i (col ∷ columns) =
    let later = validate_column_names (i + 1) columns in
    if beq col.name [] then err (column_name_required i) else later

abbrev pub in_result_set : Result RuleError ResultSet → Result RuleError Unit
in_result_set (ok rs) = ok tt
in_result_set (err e) = err (invalid_result_set e)

unfoldable pub validate_response : RuleResponse → Bytes → Result RuleError Unit
unfolding validate_column_names
validate_response resp kind =
    if is_negative resp.delay_ms
    then err negative_delay
    else if is_negative resp.after_ms
    then err negative_after
    else if beq kind (codes "result_set")
    then (if length resp.columns == 0
        then err columns_required
        else (validate_column_names 0 resp.columns >>= λ _.
            in_result_set (build_rule_result_set resp)))
    else if is_word kind (codes "ok" ∷ codes "error" ∷ codes "disconnect" ∷ [])
    then ok tt
    else err (unsupported_response kind)

-- `validateRuleConfig`
unfoldable pub validate_rule_config : Regexp → RuleConfig → Result RuleError Unit
unfolding response_type validate_request validate_response
validate_rule_config compile rule = response_type rule.response >>= λ kind.
    validate_request compile rule.request >>= λ _. validate_response rule.response kind
