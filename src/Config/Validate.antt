-- ===== src/Config/Validate.antt =====
-- The check of a configuration (`Validate`, `seedFileFormat`, `lookupWriteValidationMode` of
-- pkg/mysqlmock/config.go). filepath.Ext is the parameter `ext`.
use mysqlmock.Map.{is_some}
use mysqlmock.Response.{fixed_sql_state}
use mysqlmock.Rules.Validation.{validate_rule_config}
use mysqlmock.Base.Int.{negsuc}
use mysqlmock.Rules.Results.{or_else}
use mysqlmock.Rules.{RuleConfig, RuleError, Regexp, is_word}
use mysqlmock.Errors.{◌>>=◌, err, ok, Result}
use mysqlmock.Base.{
  ℕ, ◌+◌, Bool, false, not, Option, none, some, List, [], ◌∷◌, ◌++◌, ◌==◌, if◌then◌else◌, Bytes,
  codes, beq, to_lower, trim_prefix, trim_space,
}
use mysqlmock.Config.{pos, ℤ, SeedFileConfig, DatabaseConfig, FallbackConfig, Config}
use mysqlmock.Config.Defaults.{normalize_write_validation_mode, lookup_compat_profile}

pub data ConfigError : Type 0 where
  unsupported_version : ℤ → ConfigError
  unsupported_auth_mode : Bytes → ConfigError
  unsupported_engine : Bytes → ConfigError
  unsupported_compat_profile : Bytes → ConfigError
  unsupported_write_validation : Bytes → ConfigError
  path_required : ConfigError
  unsupported_database_mode : Bytes → ConfigError
  unsupported_fallback : Bytes → ConfigError
  unsupported_unsupported : Bytes → ConfigError
  sql_state_length : Bytes → ConfigError
  seed_path_required : ℕ → ConfigError
  unsupported_seed_format : ℕ → Bytes → ConfigError
  invalid_rule : ℕ → RuleError → ConfigError

-- An early return unless the test holds.
abbrev pub require : Bool → ConfigError → Result ConfigError Unit
require test e = if test then ok tt else err e

abbrev pub is_one : ℤ → Bool
is_one (pos n) = n == 1
is_one (negsuc n) = false

-- `lookupWriteValidationMode`
unfoldable pub lookup_write_validation_mode : Bytes → Option Bytes
lookup_write_validation_mode name =
    let mode = normalize_write_validation_mode name in
    if is_word mode (codes "strict" ∷ codes "basic" ∷ codes "off" ∷ []) then some mode else none

-- `seedFileFormat`
unfoldable pub seed_file_format : (Bytes → Bytes) → Bytes → Bytes → Bytes
seed_file_format ext path format =
    let name = to_lower (trim_space format) in
    if beq name [] then to_lower (ext path) else codes "." ++ trim_prefix name (codes ".")

unfoldable pub validate_mode : DatabaseConfig → Result ConfigError Unit
validate_mode d =
    if beq d.mode (codes "memory")
    then ok tt
    else if beq d.mode (codes "file")
    then require (not (beq d.path [])) path_required
    else err (unsupported_database_mode d.mode)

unfoldable pub validate_seed_file : (Bytes → Bytes) → ℕ → SeedFileConfig → Result ConfigError Unit
unfolding seed_file_format
validate_seed_file ext i file =
    if beq (trim_space file.path) []
    then err (seed_path_required i)
    else require
        (is_word (seed_file_format ext file.path file.format)
          (codes ".yaml" ∷ codes ".yml" ∷ codes ".json" ∷ codes ".csv" ∷ [] ∷ []))
        (unsupported_seed_format i file.format)

unfoldable pub validate_seed_files :
    (Bytes → Bytes) → ℕ → List SeedFileConfig → Result ConfigError Unit
unfolding validate_seed_file
validate_seed_files ext i [] = ok tt
validate_seed_files ext i (file ∷ files) =
    validate_seed_file ext i file >>= λ _. validate_seed_files ext (i + 1) files

abbrev pub at_rule_index : ℕ → Result RuleError Unit → Result ConfigError Unit
at_rule_index i (ok u) = ok u
at_rule_index i (err e) = err (invalid_rule i e)

unfoldable pub validate_rules : Regexp → ℕ → List RuleConfig → Result ConfigError Unit
validate_rules compile i [] = ok tt
validate_rules compile i (rule ∷ rules) =
    at_rule_index i (validate_rule_config compile rule) >>= λ _.
    validate_rules compile (i + 1) rules

unfoldable pub validate_fallback : FallbackConfig → Result ConfigError Unit
validate_fallback f = do
  _ ← require (beq (or_else f.kind (codes "sqlite")) (codes "sqlite")) (unsupported_fallback f.kind)
  _ ←
      require (beq (or_else f.unsupported.kind (codes "error")) (codes "error"))
        (unsupported_unsupported f.unsupported.kind)
  let state = or_else f.unsupported.sql_state (codes "HY000")
  require (beq state (fixed_sql_state state)) (sql_state_length f.unsupported.sql_state)

-- The checks that come before the rules.
unfoldable pub validate_settings : (Bytes → Bytes) → Config → Result ConfigError Unit
unfolding lookup_write_validation_mode validate_mode validate_seed_files validate_fallback
validate_settings ext c = do
  _ ← require (is_one c.version) (unsupported_version c.version)
  _ ←
      require (beq c.server.auth.mode (codes "allow_any"))
        (unsupported_auth_mode c.server.auth.mode)
  _ ← require (beq c.backend.engine (codes "sqlite")) (unsupported_engine c.backend.engine)
  _ ←
      require (is_some (lookup_compat_profile c.compat.profile))
        (unsupported_compat_profile c.compat.profile)
  _ ←
      require (is_some (lookup_write_validation_mode c.compat.write_validation))
        (unsupported_write_validation c.compat.write_validation)
  _ ← validate_mode c.backend
  _ ← validate_fallback c.fallback
  validate_seed_files ext 0 c.seed_configs

-- `Validate`
unfoldable pub validate : (Bytes → Bytes) → Regexp → Config → Result ConfigError Unit
unfolding validate_settings validate_rules
validate ext compile c = validate_settings ext c >>= λ _. validate_rules compile 0 c.rules
