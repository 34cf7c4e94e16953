-- ===== src/Config/Accepted.antt =====
-- About the rules of a configuration that was completed and accepted (`applyDefaults`,
-- `Validate`).
use mysqlmock.Rules.Validation.{validate_rule_config}
use mysqlmock.Rules.Profiles.{with_profile-twice, with_profile-profile, or_else-twice}
use mysqlmock.Rules.Execution.{respond}
use mysqlmock.Rules.Valid.{valid_rule_responds, Proper}
use mysqlmock.Errors.{err, ok, ◌>>=◌, Result}
use mysqlmock.Prepared.Statements.{mysql_err_unknown}
use mysqlmock.Rules.Results.{
  lookup_rule_response_profile, Profile, apply_rule_response_profile, with_profile, or_else,
}
use mysqlmock.Rules.{RuleError, Regexp, RuleConfig, RuleResponse}
use mysqlmock.Base.{
  subst, ℕ, ◌+◌, ◌≡◌, refl, ap, ◌∙◌, ◌⊎◌, inl, inr, Bool, Option, none, some, List, [], ◌∷◌, arith,
  Bool-cases, Bytes, codes, beq,
}
use mysqlmock.Config.{ℤ, Config}
use mysqlmock.Config.Defaults.{
  number_or, complete_error, complete_rule, complete_rules, apply_defaults,
}
use mysqlmock.Config.Validate.{
  validate_settings, ConfigError, at_rule_index, validate_rules, validate,
}

complete_error-profile : (resp : RuleResponse) → (complete_error resp).profile ≡ resp.profile
unfolding complete_error
complete_error-profile resp = elim (Bool-cases (beq resp.kind (codes "error"))) [
  | inl e ↦ rw e refl
  | inr e ↦ rw e refl
]

or_else-completed :
    (s fallback default : Bytes) (c : ℕ)
    → or_else (or_else (or_else s fallback) (c ∷ default)) fallback
      ≡ or_else (or_else s fallback) (c ∷ default)
or_else-completed [] [] default c = refl
or_else-completed [] (x ∷ xs) default c = refl
or_else-completed (x ∷ xs) fallback default c = refl

number_or-completed :
    (n fallback : ℕ)
    → number_or (number_or (number_or n fallback) mysql_err_unknown) fallback
      ≡ number_or (number_or n fallback) mysql_err_unknown
number_or-completed n fallback = ground arith

-- What a profile gives is there once it was applied.
with_profile-again :
    (resp : RuleResponse) (profile : Profile)
    → with_profile (with_profile resp (some profile)) (some profile)
      ≡ with_profile resp (some profile)
with_profile-again resp profile = with_profile-twice resp (some profile)

with_profile-completed :
    (resp : RuleResponse) (profile : Option Profile)
    → with_profile (complete_error (with_profile resp profile)) profile
      ≡ complete_error (with_profile resp profile)
unfolding with_profile complete_error
with_profile-completed resp none = refl
with_profile-completed resp (some profile) =
    elim (Bool-cases (beq (or_else resp.kind profile.kind) (codes "error"))) [
      | inl e ↦ rw (
        e,
        or_else-twice resp.kind profile.kind,
        or_else-completed resp.sql_state profile.sql_state (codes "Y000") 72,
        or_else-completed resp.message profile.message (codes "nsupported query") 85,
        number_or-completed resp.code profile.code,
      )
      | inr e ↦ rw (e, with_profile-again resp profile)
    ]

-- A completed response has what its profile gives.
apply-completed :
    (resp : RuleResponse)
    → apply_rule_response_profile (complete_error (apply_rule_response_profile resp))
      ≡ complete_error (apply_rule_response_profile resp)
unfolding apply_rule_response_profile
apply-completed resp =
    let found = lookup_rule_response_profile resp.profile in
    let same = complete_error-profile (with_profile resp found) ∙ with_profile-profile resp found in
    ap
      (λ p.
        with_profile (complete_error (with_profile resp found)) (lookup_rule_response_profile p))
      same
    ∙ with_profile-completed resp found

-- The rule is in the list.
unfoldable pub Among : RuleConfig → List RuleConfig → Type 0
Among rule [] = ⊥
Among rule (r ∷ rules) = (rule ≡ r) ⊎ Among rule rules

then_ok : (m k : Result ConfigError Unit) → (m >>= λ _. k) ≡ ok tt → k ≡ ok tt
then_ok (ok u) k e = e
then_ok (err x) k e = cc

validate_rules-Among :
    (compile : Regexp) (i : ℕ) (rules : List RuleConfig) (rule : RuleConfig)
    → validate_rules compile i rules ≡ ok tt
    → Among rule rules
    → validate_rule_config compile rule ≡ ok tt
unfolding validate_rules Among
validate_rules-Among compile i [] rule e h = absurd h
validate_rules-Among compile i (r ∷ rules) rule e (inl p) =
    rw p (first (validate_rule_config compile r) (validate_rules compile (i + 1) rules) e)
  where
    first :
        (m : Result RuleError Unit) (k : Result ConfigError Unit)
        → (at_rule_index i m >>= λ _. k) ≡ ok tt
        → m ≡ ok tt
    first (ok u) k q = refl
    first (err x) k q = cc
validate_rules-Among compile i (r ∷ rules) rule e (inr later) =
    validate_rules-Among compile (i + 1) rules rule
      (then_ok (at_rule_index i (validate_rule_config compile r))
        (validate_rules compile (i + 1) rules) e)
      later

Among-complete_rules :
    (rules : List RuleConfig) (rule : RuleConfig)
    → Among rule (complete_rules rules)
    → apply_rule_response_profile rule.response ≡ rule.response
unfolding Among complete_rules complete_rule
Among-complete_rules [] rule h = absurd h
Among-complete_rules (r ∷ rules) rule (inl p) = rw p (apply-completed r.response)
Among-complete_rules (r ∷ rules) rule (inr later) = Among-complete_rules rules rule later

-- A configuration that is accepted has rules that are.
validate-rules :
    (ext : Bytes → Bytes) (compile : Regexp) (c : Config)
    → validate ext compile c ≡ ok tt
    → validate_rules compile 0 c.rules ≡ ok tt
unfolding validate
validate-rules ext compile c e =
    then_ok (validate_settings ext c) (validate_rules compile 0 c.rules) e

-- If the completed configuration is accepted, each of its rules answers as its type says, once
-- its waits are over. It comes to the context's error only if the context ends during a wait that is
-- not zero; it comes to no other failure, and never to the error for an unsupported type.
pub accepted_rule_responds :
    (ext : Bytes → Bytes) (compile : Regexp) (c : Config) (rule : RuleConfig) (ends : ℤ → Bool)
    → validate ext compile (apply_defaults c) ≡ ok tt
    → Among rule (apply_defaults c).rules
    → Proper ends rule.response (respond ends rule.response)
accepted_rule_responds ext compile c rule ends e among =
    let accepted =
      validate_rules-Among compile 0 (apply_defaults c).rules rule
        (validate-rules ext compile (apply_defaults c) e) among in
    let same : apply_rule_response_profile rule.response ≡ rule.response =
      (unfold apply_defaults in Among-complete_rules c.rules rule among) in
    subst (λ r. Proper ends r (respond ends r)) same
      (valid_rule_responds compile rule ends accepted)
