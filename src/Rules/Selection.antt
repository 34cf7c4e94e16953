-- ===== src/Rules/Selection.antt =====
-- About the loop of `matchRule` and its cache of the normalized statement.
use mysqlmock.Base.{
  subst, ℕ, ◌+◌, ◌≡◌, refl, Bool, true, false, not, ◌&&◌, Option, none, some, List, [], ◌∷◌, arith,
  if◌then◌else◌, Bytes, codes, beq, beq_iff,
}
use mysqlmock.Value.{Value, Runtime}
use mysqlmock.Map.{nat_eq, bytes_eq, insert, is_some}
use mysqlmock.Rules.{
  RuleConfig, RuleError, at_rule, PreparedRule, Regexp, match_or_exact, is_word, prepare_rule,
  prepare_rules_from, prepare_rules,
}
use mysqlmock.Rules.Matching.{
  MatchCache, normalized, matches, OnceUsed, is_used, Selected, select_rule, match_from, match_rule,
}
use mysqlmock.Scanner.{normalize_sql}
use mysqlmock.Errors.{Result, ok, err, ◌>>=◌}

abbrev pub is_ok_true : Result RuleError Bool → Bool
is_ok_true (ok b) = b
is_ok_true (err e) = false

-- The rule number `i` matches, by itself, and is no once-rule that has answered.
abbrev pub may_answer : Runtime → Bytes → List Value → OnceUsed → ℕ → PreparedRule → Bool
may_answer go sql args used i r =
    is_ok_true (matches go r sql args none).0 && not (r.config.response.once && is_used i used)

-- The first rule with the property.
abbrev pub first_rule :
    (ℕ → PreparedRule → Bool) → ℕ → List PreparedRule → Option (ℕ × PreparedRule)
first_rule answers i [] = none
first_rule answers i (r ∷ rules) =
    if answers i r then some (i, r) else first_rule answers (i + 1) rules

-- What it means for the statement and for the once-rules that this rule answers.
abbrev pub selection : Option (ℕ × PreparedRule) → OnceUsed → Selected
selection none used = (ok none, used)
selection (some (i, r)) used =
    (ok (some (i, r.config)), if r.config.response.once then insert i true used else used)

-- A rule as `prepareRule` leaves it.
abbrev is_ready : PreparedRule → Bool
is_ready r =
    if beq r.match_kind (codes "exact")
    then true
    else if beq r.match_kind (codes "normalized")
    then true
    else if beq r.match_kind (codes "regex")
    then is_some r.regex
    else is_word r.match_kind (codes "contains" ∷ codes "any" ∷ [])

abbrev all_ready : List PreparedRule → Bool
all_ready [] = true
all_ready (r ∷ rules) = is_ready r && all_ready rules

abbrev all_ready_of : Result RuleError (List PreparedRule) → Bool
all_ready_of (ok rules) = all_ready rules
all_ready_of (err e) = true

contains_not_regex : (k : Bytes) → beq k (codes "contains") ≡ true → beq k (codes "regex") ≡ false
unfolding beq
contains_not_regex k h = rw ((beq_iff k (codes "contains")).0 h) refl

any_not_regex : (k : Bytes) → beq k (codes "any") ≡ true → beq k (codes "regex") ≡ false
unfolding beq
any_not_regex k h = rw ((beq_iff k (codes "any")).0 h) refl

prepare_rule-ready :
    (compile : Regexp) (rule : RuleConfig) (r : PreparedRule)
    → prepare_rule compile rule ≡ ok r
    → is_ready r ≡ true
unfolding prepare_rule
prepare_rule-ready compile rule r e =
    let kind = match_or_exact rule.request.match_kind in
    ground (arith, contains_not_regex kind, any_not_regex kind)

prepare_rules_from-ready :
    (compile : Regexp) (i : ℕ) (configs : List RuleConfig) (rules : List PreparedRule)
    → prepare_rules_from compile i configs ≡ ok rules
    → all_ready rules ≡ true
unfolding prepare_rules_from
prepare_rules_from-ready compile i [] rules e = ground arith
prepare_rules_from-ready compile i (c ∷ configs) rules e =
    by_parts (prepare_rule compile c) refl (prepare_rules_from compile (i + 1) configs)
      (prepare_rules_from-ready compile (i + 1) configs) e
  where
    by_parts :
        (a : Result RuleError PreparedRule)
        → prepare_rule compile c ≡ a
        → (b : Result RuleError (List PreparedRule))
        → ((rules' : List PreparedRule) → b ≡ ok rules' → all_ready rules' ≡ true)
        → (elim a [ err x ↦ err (at_rule i x) | ok p ↦ b >>= λ later. ok (p ∷ later) ]) ≡ ok rules
        → all_ready rules ≡ true
    by_parts (err x) pa b pb q = cc
    by_parts (ok p) pa (err x) pb q = cc
    by_parts (ok p) pa (ok later) pb q =
        let first = prepare_rule-ready compile c p pa in
        let rest = pb later refl in subst (λ o. all_ready_of o ≡ true) q (rw (first, rest) refl)

-- A ready rule's match gives an answer.
matches-ready :
    (go : Runtime) (r : PreparedRule) (sql : Bytes) (args : List Value) (cache : MatchCache)
    → is_ready r ≡ true
    → (matches go r sql args cache).0 ≡ ok (is_ok_true (matches go r sql args cache).0)
unfolding matches
matches-ready go r sql args cache h = ground arith

-- The cache holds nothing, or the normalized statement.
abbrev Cached : Bytes → MatchCache → Type 0
Cached sql none = Unit
Cached sql (some done) = done ≡ normalize_sql sql

matches-cache :
    (go : Runtime) (r : PreparedRule) (sql : Bytes) (args : List Value) (cache : MatchCache)
    → Cached sql cache
    → ((matches go r sql args cache).0 ≡ (matches go r sql args none).0)
      × Cached sql (matches go r sql args cache).1
unfolding matches normalized
matches-cache go r sql args none c = (refl, ground arith)
matches-cache go r sql args (some done) c = ground arith

select_rule-selection :
    (i : ℕ) (r : PreparedRule) (b : Bool) (later : Option (ℕ × PreparedRule)) (used : OnceUsed)
    → select_rule i r (ok b) used (selection later used)
      ≡ selection
          (if b && not (r.config.response.once && is_used i used) then some (i, r) else later)
          used
unfolding select_rule
select_rule-selection i r false later used = refl
select_rule-selection i r true later used = ground arith

match_from-first :
    (go : Runtime) (i : ℕ) (rules : List PreparedRule) (sql : Bytes) (args : List Value)
    (cache : MatchCache) (used : OnceUsed)
    → all_ready rules ≡ true
    → Cached sql cache
    → match_from go i rules sql args cache used
      ≡ selection (first_rule (may_answer go sql args used) i rules) used
unfolding match_from select_rule
match_from-first go i [] sql args cache used h c = refl
match_from-first go i (r ∷ rules) sql args cache used h c =
    let same = matches-cache go r sql args cache c in
    let ready : is_ready r ≡ true = ground arith in
    let all : all_ready rules ≡ true = ground arith in
    let later =
      match_from-first go (i + 1) rules sql args (matches go r sql args cache).1 used all same.1 in
    rw (later, same.0, matches-ready go r sql args none ready)
      (select_rule-selection i r (is_ok_true (matches go r sql args none).0)
        (first_rule (may_answer go sql args used) (i + 1) rules) used)

-- `matchRule` is a search: for rules that `prepareRules` has made ready, it gives the first rule,
-- by number, that matches the statement when it is asked by itself and that is not a once-rule
-- which has answered, and it marks this rule as used if it is a once-rule and changes no other
-- mark; it gives no rule if there is none. It never fails, and that rules share the normalized
-- statement makes no difference.
pub match_rule-first :
    (compile : Regexp) (go : Runtime) (configs : List RuleConfig) (rules : List PreparedRule)
    (sql : Bytes) (args : List Value) (used : OnceUsed)
    → prepare_rules compile configs ≡ ok rules
    → match_rule go rules sql args used
      ≡ selection (first_rule (may_answer go sql args used) 0 rules) used
unfolding match_rule prepare_rules
match_rule-first compile go configs rules sql args used e =
    match_from-first go 0 rules sql args none used
      (prepare_rules_from-ready compile 0 configs rules e) tt
