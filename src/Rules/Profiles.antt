-- ===== src/Rules/Profiles.antt =====
-- About `applyRuleResponseProfile`.
use mysqlmock.Base.{
  ℕ, ◌≡◌, refl, ap, ◌∙◌, Option, none, some, [], ◌∷◌, arith, ◌==◌, if◌then◌else◌, Bytes,
}
use mysqlmock.Rules.{RuleResponse}
use mysqlmock.Rules.Results.{
  Profile, lookup_rule_response_profile, or_else, with_profile, apply_rule_response_profile,
}

pub or_else-twice :
    (s fallback : Bytes) → or_else (or_else s fallback) fallback ≡ or_else s fallback
or_else-twice [] [] = refl
or_else-twice [] (c ∷ cs) = refl
or_else-twice (c ∷ cs) fallback = refl

code_twice :
    (n fallback : ℕ)
    → (if (if n == 0 then fallback else n) == 0 then fallback else (if n == 0 then fallback else n))
      ≡ (if n == 0 then fallback else n)
code_twice n fallback = ground arith

pub with_profile-twice :
    (resp : RuleResponse) (profile : Option Profile)
    → with_profile (with_profile resp profile) profile ≡ with_profile resp profile
unfolding with_profile
with_profile-twice resp none = refl
with_profile-twice resp (some profile) = rw (
  or_else-twice resp.kind profile.kind,
  or_else-twice resp.sql_state profile.sql_state,
  or_else-twice resp.message profile.message,
  code_twice resp.code profile.code,
)

pub with_profile-profile :
    (resp : RuleResponse) (profile : Option Profile)
    → (with_profile resp profile).profile ≡ resp.profile
unfolding with_profile
with_profile-profile resp none = refl
with_profile-profile resp (some profile) = refl

-- Applying the profile of a response a second time changes nothing.
pub apply_rule_response_profile-twice :
    (resp : RuleResponse)
    → apply_rule_response_profile (apply_rule_response_profile resp)
      ≡ apply_rule_response_profile resp
unfolding apply_rule_response_profile
apply_rule_response_profile-twice resp =
    let found = lookup_rule_response_profile resp.profile in
    ap (λ p. with_profile (with_profile resp found) (lookup_rule_response_profile p))
      (with_profile-profile resp found)
    ∙ with_profile-twice resp found
