-- ===== src/Config/Defaults.antt =====
-- What is put in place of absent settings (`applyDefaults`, the profiles of compatibility and the
-- modes of write validation of pkg/mysqlmock/config.go).
use mysqlmock.Base.Int.{negsuc}
use mysqlmock.Prepared.Statements.{mysql_err_unknown}
use mysqlmock.Rules.{match_or_exact, RuleConfig, RuleResponse}
use mysqlmock.Map.{bytes_eq, is_some, lookup, insert, Assoc}
use mysqlmock.Rules.Results.{apply_rule_response_profile, or_else}
use mysqlmock.Base.{
  ℕ, Option, none, some, List, [], ◌∷◌, ◌==◌, if◌then◌else◌, Bytes, codes, beq, to_lower,
  trim_space,
}
use mysqlmock.Config.{
  pos, ℤ, ServerConfig, CompatConfig, FallbackConfig, Config, default_variables, default_config,
}

-- `normalizeCompatProfile`
unfoldable pub normalize_compat_profile : Bytes → Bytes
normalize_compat_profile name = or_else (to_lower (trim_space name)) (codes "default")

-- `normalizeWriteValidationMode`
unfoldable pub normalize_write_validation_mode : Bytes → Bytes
normalize_write_validation_mode name = or_else (to_lower (trim_space name)) (codes "strict")

-- `compatProfiles`
abbrev pub compat_profiles : Assoc Bytes (Assoc Bytes Bytes)
compat_profiles =
    (codes "default", [])
    ∷ (
      codes "gorm",
      (codes "character_set_server", codes "utf8mb4")
          ∷ (codes "collation_server", codes "utf8mb4_0900_ai_ci")
          ∷ (codes "foreign_key_checks", codes "1")
          ∷ (codes "lower_case_table_names", codes "0")
          ∷ (codes "sql_auto_is_null", codes "0")
          ∷ (codes "system_time_zone", codes "UTC")
          ∷ (codes "time_zone", codes "SYSTEM")
          ∷ (codes "transaction_read_only", codes "0")
          ∷ (codes "tx_isolation", codes "READ-COMMITTED")
          ∷ (codes "tx_read_only", codes "0")
          ∷ (codes "unique_checks", codes "1")
          ∷ [],
    )
    ∷ []

-- `lookupCompatProfile`
unfoldable pub lookup_compat_profile : Bytes → Option (Assoc Bytes Bytes)
unfolding normalize_compat_profile
lookup_compat_profile name = lookup (normalize_compat_profile name) compat_profiles

-- The loops over the default variables and over those of a profile: only a variable that is
-- absent is taken.
unfoldable pub add_missing : Assoc Bytes Bytes → Assoc Bytes Bytes → Assoc Bytes Bytes
add_missing [] variables = variables
add_missing ((k, v) ∷ defaults) variables =
    add_missing defaults (if is_some (lookup k variables) then variables else insert k v variables)

-- The variables of a profile, of which there are none if it is not known.
abbrev pub variables_of : Option (Assoc Bytes Bytes) → Assoc Bytes Bytes
variables_of none = []
variables_of (some profile) = profile

-- `applyCompatProfile`
unfoldable pub apply_compat_profile : Bytes → Assoc Bytes Bytes → Assoc Bytes Bytes
unfolding add_missing lookup_compat_profile
apply_compat_profile name variables =
    add_missing (variables_of (lookup_compat_profile name)) variables

abbrev pub number_or : ℕ → ℕ → ℕ
number_or n fallback = if n == 0 then fallback else n

abbrev pub version_or : ℤ → ℤ → ℤ
version_or (pos n) fallback = if n == 0 then fallback else pos n
version_or (negsuc n) fallback = negsuc n

-- What an error that a rule answers with lacks.
unfoldable pub complete_error : RuleResponse → RuleResponse
complete_error resp =
    if beq resp.kind (codes "error")
    then record resp {
      code = number_or resp.code mysql_err_unknown;
      sql_state = or_else resp.sql_state (codes "HY000");
      message = or_else resp.message (codes "Unsupported query");
    }
    else resp

-- One round of the loop over the rules.
unfoldable pub complete_rule : RuleConfig → RuleConfig
unfolding complete_error
complete_rule rule = record rule {
  request = record rule.request { match_kind = match_or_exact rule.request.match_kind };
  response = complete_error (apply_rule_response_profile rule.response);
}

unfoldable pub complete_rules : List RuleConfig → List RuleConfig
unfolding complete_rule
complete_rules [] = []
complete_rules (rule ∷ rules) = complete_rule rule ∷ complete_rules rules

abbrev pub complete_server : ServerConfig → ServerConfig
complete_server s = record s {
  listen = or_else s.listen default_config.server.listen;
  mysql_version = or_else s.mysql_version default_config.server.mysql_version;
  connection_id_start = number_or s.connection_id_start default_config.server.connection_id_start;
  auth = record { mode = or_else s.auth.mode default_config.server.auth.mode };
}

abbrev pub complete_fallback : FallbackConfig → FallbackConfig
complete_fallback f = record {
  kind = or_else f.kind default_config.fallback.kind;
  unsupported = record {
    kind = or_else f.unsupported.kind default_config.fallback.unsupported.kind;
    code = number_or f.unsupported.code default_config.fallback.unsupported.code;
    sql_state = or_else f.unsupported.sql_state default_config.fallback.unsupported.sql_state;
    message = or_else f.unsupported.message default_config.fallback.unsupported.message;
  };
}

-- The compatibility settings, with the version of MySQL that the server names.
unfoldable pub complete_compat : Bytes → CompatConfig → CompatConfig
unfolding add_missing apply_compat_profile
complete_compat mysql_version c =
    let profile =
      if beq c.profile []
      then default_config.compat.profile
      else normalize_compat_profile c.profile in
    record c {
      profile = profile;
      write_validation =
          if beq c.write_validation []
          then default_config.compat.write_validation
          else normalize_write_validation_mode c.write_validation;
      variables =
          insert (codes "version") mysql_version
            (apply_compat_profile profile (add_missing default_variables c.variables));
    }

-- `applyDefaults`
unfoldable pub apply_defaults : Config → Config
unfolding complete_compat complete_rules
apply_defaults c =
    let server = complete_server c.server in
    record c {
      version = version_or c.version default_config.version;
      server = server;
      backend = record c.backend {
        engine = or_else c.backend.engine default_config.backend.engine;
        mode = or_else c.backend.mode default_config.backend.mode;
      };
      fallback = complete_fallback c.fallback;
      compat = complete_compat server.mysql_version c.compat;
      rules = complete_rules c.rules;
    }
