-- ===== src/Rules.antt =====
-- The rules that answer matching statements (pkg/mysqlmock/rules.go, with the rule types of
-- pkg/mysqlmock/config.go): a rule's parts, its preparation and its match.
pub mod Matching
pub mod Results
pub mod Execution
pub mod Validation
pub mod Selection
pub mod Once
pub mod Width
pub mod Valid
pub mod Profiles
use mysqlmock.Base.{
  ℕ, zero, suc, ◌+◌, ◌-◌, ◌*◌, ◌/◌, ◌%◌, ◌^◌, ◌≤◌, ◌<◌, ◌≡◌, refl, sym, ap, ◌∙◌, ◌≢◌, ◌↔◌, ◌⊎◌, inl,
  inr, Bool, true, false, not, ◌&&◌, ◌||◌, Option, none, some, List, [], ◌∷◌, ◌++◌, map, append-nil,
  append_assoc, arith, ltb, leb, ◌==◌, if◌then◌else◌, ltb→lt, ltb→ge, lt→ltb, ge→ltb, leb→le,
  le→leb, ==_iff, ==_refl, tests, Bool-cases, Option-cases, length, get_elem?, get_or, set, take,
  drop, replicate, slice, length-append, length-take, length-drop, length-replicate, length-set,
  take-length_append, drop-length_append, take-append-drop, take_all, drop_all, drop-drop, Bytes,
  codes, beq, beq_iff, beq_refl, lower_byte, upper_byte, to_lower, to_upper, equal_fold, has_prefix,
  trim_prefix, has_suffix, trim_suffix, contains, is_space, trim_space, fields, join, index_byte,
}
use mysqlmock.Value.{
  SignedKind, int, int8, int16, int32, int64, UnsignedKind, uint, uint8, uint16, uint32, uint64,
  FloatKind, float32, float64, Time, Value, null, bytes, text, time, bool, signed_num, unsigned_num,
  float_num, other, Runtime, pad, format_time, sprint, text_value,
}
use mysqlmock.Map.{Eq, nat_eq, bytes_eq, Assoc, lookup, insert, delete, keys, is_some}
use mysqlmock.Errors.{Result, ok, err, ◌>>=◌}
use mysqlmock.Base.Int.{ℤ}
use mysqlmock.Scanner.{normalize_sql}

pub record RuleRequest : Type 0 where
  pub match_kind : Bytes
  pub sql : Bytes
  -- absent, or the parameters that the statement has to have
  pub params : Option (List Value)

pub record RuleColumn : Type 0 where
  pub name : Bytes
  pub type_name : Bytes

-- A row of a rule as the configuration's file gives it: a list, a mapping or one value.
pub data Row : Type 0 where
  array : List Value → Row
  object : Assoc Bytes Value → Row
  scalar : Value → Row

pub record RuleResponse : Type 0 where
  pub profile : Bytes
  pub kind : Bytes
  pub columns : List RuleColumn
  pub row_format : Bytes
  pub rows : List Row
  pub affected_rows : ℕ
  pub last_insert_id : ℕ
  pub warnings : ℕ
  pub code : ℕ
  pub sql_state : Bytes
  pub message : Bytes
  pub delay_ms : ℤ
  pub after_ms : ℤ
  pub once : Bool

pub record RuleConfig : Type 0 where
  pub name : Bytes
  pub request : RuleRequest
  pub response : RuleResponse

pub data RuleError : Type 0 where
  invalid_regex : RuleError
  unsupported_match : Bytes → RuleError
  at_rule : ℕ → RuleError → RuleError
  nil_regex : RuleError
  unsupported_column_type : Bytes → RuleError
  at_row : ℕ → RuleError → RuleError
  unsupported_row_format : Bytes → RuleError
  row_count_mismatch : RuleError
  unsupported_row : RuleError
  missing_column : Bytes → RuleError
  unsupported_profile : Bytes → RuleError
  profile_requires : Bytes → Bytes → RuleError
  sql_required : Bytes → RuleError
  negative_delay : RuleError
  negative_after : RuleError
  columns_required : RuleError
  column_name_required : ℕ → RuleError
  invalid_result_set : RuleError → RuleError
  unsupported_response : Bytes → RuleError

-- A rule made ready; what a regular expression matches is Go's package regexp's.
pub record PreparedRule : Type 0 where
  pub config : RuleConfig
  pub match_kind : Bytes
  pub normalized_sql : Bytes
  pub regex : Option (Bytes → Bool)

-- regexp.Compile
abbrev pub Regexp : Type 0
Regexp = Bytes → Option (Bytes → Bool)

-- The match of a request, "exact" unless it names another.
abbrev pub match_or_exact : Bytes → Bytes
match_or_exact [] = codes "exact"
match_or_exact (c ∷ cs) = c ∷ cs

abbrev pub is_word : Bytes → List Bytes → Bool
is_word s [] = false
is_word s (w ∷ ws) = beq s w || is_word s ws

-- `prepareRule`
unfoldable pub prepare_rule : Regexp → RuleConfig → Result RuleError PreparedRule
prepare_rule compile rule =
    let kind = match_or_exact rule.request.match_kind in
    let plain : PreparedRule = record {
      config = rule;
      match_kind = kind;
      normalized_sql = [];
      regex = none;
    } in
    if is_word kind (codes "exact" ∷ codes "contains" ∷ codes "any" ∷ [])
    then ok plain
    else if beq kind (codes "normalized")
    then ok (record plain { normalized_sql = normalize_sql rule.request.sql })
    else if beq kind (codes "regex")
    then elim (compile rule.request.sql) [
      | none ↦ err invalid_regex
      | some matching ↦ ok (record plain { regex = some matching })
    ]
    else err (unsupported_match rule.request.match_kind)

-- `prepareRules`, for the rules from number `i` on
unfoldable pub prepare_rules_from :
    Regexp → ℕ → List RuleConfig → Result RuleError (List PreparedRule)
prepare_rules_from compile i [] = ok []
prepare_rules_from compile i (rule ∷ rules) = elim (prepare_rule compile rule) [
  | err e ↦ err (at_rule i e)
  | ok prepared ↦ prepare_rules_from compile (i + 1) rules >>= λ later. ok (prepared ∷ later)
]

unfoldable pub prepare_rules : Regexp → List RuleConfig → Result RuleError (List PreparedRule)
unfolding prepare_rules_from
prepare_rules compile rules = prepare_rules_from compile 0 rules
