-- ===== src/Rules/Once.antt =====
-- About the once-rules of `matchRule` over sequences of statements.
use mysqlmock.Base.{
  ℕ, ◌+◌, ◌≤◌, ◌≡◌, refl, inl, inr, Bool, true, false, ◌&&◌, Option, none, some, List, [], ◌∷◌,
  arith, ◌==◌, if◌then◌else◌, Bool-cases, Bytes,
}
use mysqlmock.Value.{Value, Runtime}
use mysqlmock.Map.{nat_eq, bytes_eq, insert}
use mysqlmock.Map.Laws.{lookup-insert}
use mysqlmock.Rules.{RuleConfig, RuleError, PreparedRule, Regexp, prepare_rules}
use mysqlmock.Rules.Matching.{OnceUsed, is_used, match_rule}
use mysqlmock.Rules.Selection.{may_answer, first_rule, selection, match_rule-first}
use mysqlmock.Errors.{Result, ok, err}

-- One statement with its parameters after the other, from the once-rules that are used up: what
-- `matchRule` gives for each.
abbrev pub answers :
    Runtime
    → List PreparedRule
    → List (Bytes × List Value)
    → OnceUsed
    → List (Result RuleError (Option (ℕ × RuleConfig)))
answers go rules [] used = []
answers go rules ((sql, args) ∷ queries) used =
    (match_rule go rules sql args used).0
    ∷ answers go rules queries (match_rule go rules sql args used).1

-- Rule number `i` answers, and is a once-rule.
abbrev pub is_once_answer : ℕ → Result RuleError (Option (ℕ × RuleConfig)) → Bool
is_once_answer i (ok (some (j, config))) = config.response.once && (j == i)
is_once_answer i (ok none) = false
is_once_answer i (err e) = false

abbrev pub count_once : ℕ → List (Result RuleError (Option (ℕ × RuleConfig))) → ℕ
count_once i [] = 0
count_once i (a ∷ later) = (if is_once_answer i a then 1 else 0) + count_once i later

-- How often rule number `i` may still answer as a once-rule.
abbrev left : ℕ → OnceUsed → ℕ
left i used = if is_used i used then 0 else 1

first_rule-answers :
    (answers : ℕ → PreparedRule → Bool) (start : ℕ) (rules : List PreparedRule) (i : ℕ)
    (r : PreparedRule)
    → first_rule answers start rules ≡ some (i, r)
    → answers i r ≡ true
first_rule-answers p start [] i r e = cc
first_rule-answers p start (s ∷ rules) i r e = elim (Bool-cases (p start s)) [
  | inl h ↦ here h (rw h at e)
  | inr h ↦ first_rule-answers p (start + 1) rules i r (rw h at e)
]
  where
    here :
        p start s ≡ true
        → ◌≡◌ {A = Option (ℕ × PreparedRule)} (some (start, s)) (some (i, r))
        → p i r ≡ true
    here h q = cc

is_used-insert :
    (i j : ℕ) (used : OnceUsed)
    → is_used i (insert j true used) ≡ (if j == i then true else is_used i used)
is_used-insert i j used = ground (arith, lookup-insert j i true used)

-- One selection uses up what it counts.
selection-left :
    (go : Runtime) (sql : Bytes) (args : List Value) (used : OnceUsed) (i : ℕ)
    (found : Option (ℕ × PreparedRule))
    → ((j : ℕ) (r : PreparedRule) → found ≡ some (j, r) → may_answer go sql args used j r ≡ true)
    → (if is_once_answer i (selection found used).0 then 1 else 0) + left i (selection found used).1
      ≤ left i used
selection-left go sql args used i none h = omega arith
selection-left go sql args used i (some (j, r)) h =
    let may = h j r refl in ground (arith, is_used-insert i j used)

-- Over any sequence of statements, from any marks, a rule that is configured to answer once
-- answers at most once, the rules being as `prepareRules` makes them.
pub answers-once :
    (compile : Regexp) (go : Runtime) (configs : List RuleConfig) (rules : List PreparedRule)
    (queries : List (Bytes × List Value)) (used : OnceUsed) (i : ℕ)
    → prepare_rules compile configs ≡ ok rules
    → count_once i (answers go rules queries used) ≤ (if is_used i used then 0 else 1)
answers-once compile go configs rules [] used i e = omega arith
answers-once compile go configs rules ((sql, args) ∷ queries) used i e =
    let found = first_rule (may_answer go sql args used) 0 rules in
    let step =
      selection-left go sql args used i found
        (λ j r q. first_rule-answers (may_answer go sql args used) 0 rules j r q) in
    let later = answers-once compile go configs rules queries (selection found used).1 i e in
    rw (match_rule-first compile go configs rules sql args used e) (omega (arith, step, later))
