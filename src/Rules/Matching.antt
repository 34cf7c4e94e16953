-- ===== src/Rules/Matching.antt =====
-- Which rule answers a statement (`matches`, `ruleParamsMatch`, `ruleValueEqual`, `normalized`,
-- `matchRule`).
use mysqlmock.Base.{
  ℕ, ◌+◌, Bool, true, false, not, Option, none, some, List, [], ◌∷◌, ◌==◌, if◌then◌else◌, length,
  Bytes, codes, beq, equal_fold, contains,
}
use mysqlmock.Value.{Value, null, bytes, text, Runtime, sprint}
use mysqlmock.Map.{nat_eq, bytes_eq, Assoc, lookup, insert}
use mysqlmock.Rules.{RuleConfig, RuleError, unsupported_match, nil_regex, PreparedRule}
use mysqlmock.Errors.{Result, ok, err}
use mysqlmock.Scanner.{normalize_sql}

-- A []byte as a string.
abbrev pub as_text : Value → Value
as_text (bytes b) = text b
as_text v = v

-- `ruleValueEqual`
unfoldable pub rule_value_equal : Runtime → Value → Value → Bool
unfolding sprint
rule_value_equal go null null = true
rule_value_equal go null got = false
rule_value_equal go want null = false
rule_value_equal go want got = beq (sprint go (as_text want)) (sprint go (as_text got))

unfoldable pub values_match : Runtime → List Value → List Value → Bool
unfolding rule_value_equal
values_match go [] got = true
values_match go (want ∷ wants) [] = false
values_match go (want ∷ wants) (got ∷ gots) =
    let later = values_match go wants gots in
    if not (rule_value_equal go want got) then false else later

-- `ruleParamsMatch`
unfoldable pub rule_params_match : Runtime → Option (List Value) → List Value → Bool
unfolding values_match
rule_params_match go none got = true
rule_params_match go (some want) got =
    if not (length want == length got) then false else values_match go want got

-- The normalized statement, once a rule has asked for it (`ruleMatchCache`).
abbrev pub MatchCache : Type 0
MatchCache = Option Bytes

-- `normalized`
unfoldable pub normalized : Bytes → MatchCache → Bytes × MatchCache
normalized sql none = (normalize_sql sql, some (normalize_sql sql))
normalized sql (some done) = (done, some done)

-- `matches`
unfoldable pub matches :
    Runtime → PreparedRule → Bytes → List Value → MatchCache → Result RuleError Bool × MatchCache
unfolding rule_params_match normalized
matches go r sql args cache =
    if not (rule_params_match go r.config.request.params args)
    then (ok false, cache)
    else if beq r.match_kind (codes "exact")
    then (ok (beq sql r.config.request.sql), cache)
    else if beq r.match_kind (codes "normalized")
    then (ok (equal_fold (normalized sql cache).0 r.normalized_sql), (normalized sql cache).1)
    else if beq r.match_kind (codes "regex")
    then (elim r.regex [ none ↦ err nil_regex | some matching ↦ ok (matching sql) ], cache)
    else if beq r.match_kind (codes "contains")
    then (ok (contains sql r.config.request.sql), cache)
    else if beq r.match_kind (codes "any")
    then (ok true, cache)
    else (err (unsupported_match r.config.request.match_kind), cache)

-- The rules that answer once and have answered (`ruleOnceUsed`).
abbrev pub OnceUsed : Type 0
OnceUsed = Assoc ℕ Bool

abbrev pub is_used : ℕ → OnceUsed → Bool
is_used i used = elim (lookup i used) [ none ↦ false | some b ↦ b ]

-- The result of the loop of `matchRule`: the number and the configuration of the rule that
-- answers, if one does, and the once-rules that are used up then.
abbrev pub Selected : Type 0
Selected = Result RuleError (Option (ℕ × RuleConfig)) × OnceUsed

-- The loop's body for rule number `i`, from the outcome of its match; `later` is the rest of the
-- loop.
unfoldable pub select_rule :
    ℕ → PreparedRule → Result RuleError Bool → OnceUsed → Selected → Selected
select_rule i r (err e) used later = (err e, used)
select_rule i r (ok false) used later = later
select_rule i r (ok true) used later =
    if r.config.response.once
    then (if is_used i used then later else (ok (some (i, r.config)), insert i true used))
    else (ok (some (i, r.config)), used)

unfoldable pub match_from :
    Runtime → ℕ → List PreparedRule → Bytes → List Value → MatchCache → OnceUsed → Selected
unfolding matches select_rule
match_from go i [] sql args cache used = (ok none, used)
match_from go i (r ∷ rules) sql args cache used =
    select_rule i r (matches go r sql args cache).0 used
      (match_from go (i + 1) rules sql args (matches go r sql args cache).1 used)

-- `matchRule`, with its rules prepared
unfoldable pub match_rule : Runtime → List PreparedRule → Bytes → List Value → OnceUsed → Selected
unfolding match_from
match_rule go rules sql args used = match_from go 0 rules sql args none used
