-- ===== src/Tests/Configurations.antt =====
-- The configuration at concrete inputs.
use mysqlmock.Rules.Results.{lookup_rule_response_profile, apply_rule_response_profile}
use mysqlmock.Rules.Validation.{validate_rule_config}
use mysqlmock.Response.{fixed_sql_state}
use mysqlmock.Config.Accepted.{Among, accepted_rule_responds}
use mysqlmock.Errors.{ok}
use mysqlmock.Rules.Execution.{respond}
use mysqlmock.Config.Variables.{lookup-variables}
use mysqlmock.Rules.Valid.{Proper}
use mysqlmock.Rules.{Regexp, RuleConfig}
use mysqlmock.Map.{bytes_eq, lookup, insert}
use mysqlmock.Config.Variables.{first_of}
use mysqlmock.Base.Int.{pos}
use mysqlmock.Base.{
  ◌≡◌, refl, inl, true, false, none, some, [], ◌∷◌, if◌then◌else◌, Bytes, codes, beq, to_lower,
  trim_space,
}
use mysqlmock.Config.{Config, default_variables, default_config}
use mysqlmock.Config.Defaults.{
  normalize_write_validation_mode, lookup_compat_profile, variables_of, complete_rule,
  complete_rules, apply_defaults,
}
use mysqlmock.Config.Validate.{validate}

abbrev broken_rule : RuleConfig
broken_rule = record {
  name = codes "broken";
  request = record { match_kind = []; sql = codes "SELECT 1"; params = none };
  response = record {
    profile = [];
    kind = codes "error";
    columns = [];
    row_format = [];
    rows = [];
    affected_rows = 0;
    last_insert_id = 0;
    warnings = 0;
    code = 0;
    sql_state = [];
    message = [];
    delay_ms = pos 0;
    after_ms = pos 0;
    once = false;
  };
}

-- A configuration with one rule and a profile, and nothing else.
abbrev sparse : Config
sparse = record default_config {
  version = pos 0;
  backend = record { engine = []; mode = []; shared = true; path = [] };
  compat = record default_config.compat {
    profile = codes " GORM ";
    variables = (codes "sql_mode", codes "ANSI") ∷ [];
  };
  rules = broken_rule ∷ [];
}

abbrev no_expressions : Regexp
no_expressions source = none

abbrev no_extension : Bytes → Bytes
no_extension path = []

sparse_is_valid : validate no_extension no_expressions (apply_defaults sparse) ≡ ok tt
unfolding validate apply_defaults beq lookup to_lower trim_space normalize_write_validation_mode
    fixed_sql_state validate_rule_config apply_rule_response_profile lookup_rule_response_profile
sparse_is_valid = refl

default_is_valid : validate no_extension no_expressions default_config ≡ ok tt
unfolding validate beq lookup_compat_profile lookup to_lower trim_space
    normalize_write_validation_mode fixed_sql_state
default_is_valid = refl

lookup-variables_example : lookup (codes "time_zone") (apply_defaults sparse).compat.variables ≡ (
    if beq (codes "version") (codes "time_zone")
    then some (apply_defaults sparse).server.mysql_version
    else first_of (lookup (codes "time_zone") sparse.compat.variables) (
        first_of (lookup (codes "time_zone") default_variables) (
          lookup
            (codes "time_zone")
            (variables_of (lookup_compat_profile (apply_defaults sparse).compat.profile)))))
lookup-variables_example = lookup-variables sparse (codes "time_zone")

time_zone_of_profile :
    lookup (codes "time_zone") (apply_defaults sparse).compat.variables ≡ some (codes "SYSTEM")
unfolding apply_defaults lookup insert beq to_lower trim_space
time_zone_of_profile = refl

abbrev completed : RuleConfig
completed = complete_rule broken_rule

completed-Among : Among completed (apply_defaults sparse).rules
unfolding Among apply_defaults complete_rules
completed-Among = inl refl

accepted_rule_responds_example :
    Proper (λ ms. false) completed.response (respond (λ ms. false) completed.response)
accepted_rule_responds_example =
    accepted_rule_responds no_extension no_expressions sparse completed (λ ms. false)
      sparse_is_valid completed-Among
