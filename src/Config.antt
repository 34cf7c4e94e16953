-- ===== src/Config.antt =====
-- The configuration of a server (pkg/mysqlmock/config.go): its types and the default one. A map
-- that is nil is the empty one.
use mysqlmock.Rules.{RuleConfig}
use mysqlmock.Value.{Value}
use mysqlmock.Base.Int.{pos, ℤ}
use mysqlmock.Map.{Assoc}
pub mod Defaults
pub mod Validate
pub mod Variables
pub mod Accepted
use mysqlmock.Base.{
  ℕ, zero, suc, ◌+◌, ◌-◌, ◌*◌, ◌/◌, ◌%◌, ◌^◌, ◌≤◌, ◌<◌, ◌≡◌, refl, sym, ap, ◌∙◌, ◌≢◌, ◌↔◌, ◌⊎◌, inl,
  inr, Bool, true, false, not, ◌&&◌, ◌||◌, Option, none, some, List, [], ◌∷◌, ◌++◌, map, append-nil,
  append_assoc, arith, ltb, leb, ◌==◌, if◌then◌else◌, ltb→lt, ltb→ge, lt→ltb, ge→ltb, leb→le,
  le→leb, ==_iff, ==_refl, tests, Bool-cases, Option-cases, length, get_elem?, get_or, set, take,
  drop, replicate, slice, length-append, length-take, length-drop, length-replicate, length-set,
  take-length_append, drop-length_append, take-append-drop, take_all, drop_all, drop-drop, Bytes,
  codes, beq, beq_iff, beq_refl, lower_byte, upper_byte, to_lower, to_upper, equal_fold, has_prefix,
  trim_prefix, has_suffix, trim_suffix, contains, is_space, trim_space, fields, join, index_byte,
}

-- One external file of rows with its settings.
pub record SeedFileConfig : Type 0 where
  pub path : Bytes
  pub format : Bytes
  pub table : Bytes
  pub null_values : List Bytes
  pub infer_types : Bool

pub record AuthConfig : Type 0 where
  pub mode : Bytes

pub record ServerConfig : Type 0 where
  pub listen : Bytes
  pub mysql_version : Bytes
  pub connection_id_start : ℕ
  pub auth : AuthConfig

pub record DatabaseConfig : Type 0 where
  pub engine : Bytes
  pub mode : Bytes
  pub shared : Bool
  pub path : Bytes

pub record CompatConfig : Type 0 where
  pub profile : Bytes
  pub allow_zero_dates : Bool
  pub implicit_defaults : Bool
  pub write_validation : Bytes
  pub variables : Assoc Bytes Bytes

pub record UnsupportedConfig : Type 0 where
  pub kind : Bytes
  pub code : ℕ
  pub sql_state : Bytes
  pub message : Bytes

pub record FallbackConfig : Type 0 where
  pub kind : Bytes
  pub unsupported : UnsupportedConfig

pub record Config : Type 0 where
  pub version : ℤ
  pub server : ServerConfig
  pub backend : DatabaseConfig
  pub schema_files : List Bytes
  pub schema : List Bytes
  pub seed_files : List Bytes
  pub seed_configs : List SeedFileConfig
  pub seed : Assoc Bytes (List (Assoc Bytes Value))
  pub compat : CompatConfig
  pub rules : List RuleConfig
  pub fallback : FallbackConfig
  pub schema_base_dir : Bytes

-- The variables of `DefaultConfig`.
abbrev pub default_variables : Assoc Bytes Bytes
default_variables =
    (codes "autocommit", codes "1")
    ∷ (codes "character_set_client", codes "utf8mb4")
    ∷ (codes "character_set_connection", codes "utf8mb4")
    ∷ (codes "character_set_database", codes "utf8mb4")
    ∷ (codes "character_set_results", codes "utf8mb4")
    ∷ (codes "collation_connection", codes "utf8mb4_general_ci")
    ∷ (codes "collation_database", codes "utf8mb4_general_ci")
    ∷ (codes "foreign_key_checks", codes "1")
    ∷ (codes "max_allowed_packet", codes "67108864")
    ∷ (codes "sql_mode", [])
    ∷ (codes "transaction_isolation", codes "READ-COMMITTED")
    ∷ (codes "version", codes "8.0.36-mock")
    ∷ (codes "version_comment", codes "mysqlmock")
    ∷ []

-- `DefaultConfig`
abbrev pub default_config : Config
default_config = record {
  version = pos 1;
  server = record {
    listen = codes "127.0.0.1:0";
    mysql_version = codes "8.0.36-mock";
    connection_id_start = 1;
    auth = record { mode = codes "allow_any" };
  };
  backend = record { engine = codes "sqlite"; mode = codes "memory"; shared = true; path = [] };
  schema_files = [];
  schema = [];
  seed_files = [];
  seed_configs = [];
  seed = [];
  compat = record {
    profile = codes "default";
    allow_zero_dates = false;
    implicit_defaults = false;
    write_validation = codes "strict";
    variables = default_variables;
  };
  rules = [];
  fallback = record {
    kind = codes "sqlite";
    unsupported = record {
      kind = codes "error";
      code = 1105;
      sql_state = codes "HY000";
      message = codes "Unsupported query";
    };
  };
  schema_base_dir = [];
}
