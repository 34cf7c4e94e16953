-- ===== src/Rules/Results.antt =====
-- The response of a rule (`buildRuleResultSet`, `ruleRowValues`, `ruleObjectRowValues`,
-- `ruleObjectRowLookup`, `ruleColumnFieldType`, the response profiles).
use mysqlmock.Base.{
  ℕ, ◌+◌, not, Option, none, some, List, [], ◌∷◌, ◌==◌, if◌then◌else◌, length, Bytes, codes, beq,
  to_lower, to_upper, trim_space,
}
use mysqlmock.Value.{Value}
use mysqlmock.Map.{nat_eq, bytes_eq, Assoc, lookup}
use mysqlmock.Rules.{
  RuleColumn, Row, array, object, scalar, RuleResponse, RuleError, unsupported_column_type, at_row,
  unsupported_row_format, row_count_mismatch, unsupported_row, missing_column, is_word,
}
use mysqlmock.Rows.{ResultColumn, ResultSet}
use mysqlmock.Rows.FieldType
use mysqlmock.Errors.{Result, ok, err, ◌>>=◌}

-- The column types that a rule may name.
abbrev pub column_types : Assoc Bytes ℕ
column_types =
    ([], FieldType.var_string)
    ∷ (codes "CHAR", FieldType.var_string)
    ∷ (codes "VARCHAR", FieldType.var_string)
    ∷ (codes "TEXT", FieldType.var_string)
    ∷ (codes "STRING", FieldType.var_string)
    ∷ (codes "TINYINT", FieldType.tiny)
    ∷ (codes "BOOL", FieldType.tiny)
    ∷ (codes "BOOLEAN", FieldType.tiny)
    ∷ (codes "SMALLINT", FieldType.short)
    ∷ (codes "INT", FieldType.long)
    ∷ (codes "INTEGER", FieldType.long)
    ∷ (codes "MEDIUMINT", FieldType.long)
    ∷ (codes "BIGINT", FieldType.long_long)
    ∷ (codes "FLOAT", FieldType.float)
    ∷ (codes "DOUBLE", FieldType.double)
    ∷ (codes "REAL", FieldType.double)
    ∷ (codes "DECIMAL", FieldType.decimal)
    ∷ (codes "NUMERIC", FieldType.decimal)
    ∷ (codes "DATE", FieldType.date)
    ∷ (codes "NEWDATE", FieldType.new_date)
    ∷ (codes "TIME", FieldType.time_type)
    ∷ (codes "DATETIME", FieldType.date_time)
    ∷ (codes "TIMESTAMP", FieldType.timestamp)
    ∷ (codes "TINYBLOB", FieldType.tiny_blob)
    ∷ (codes "MEDIUMBLOB", FieldType.med_blob)
    ∷ (codes "LONGBLOB", FieldType.long_blob)
    ∷ (codes "BLOB", FieldType.blob)
    ∷ (codes "BINARY", FieldType.blob)
    ∷ (codes "VARBINARY", FieldType.blob)
    ∷ (codes "JSON", FieldType.json)
    ∷ (codes "ENUM", FieldType.enum)
    ∷ (codes "SET", FieldType.set_type)
    ∷ (codes "GEOMETRY", FieldType.geometry)
    ∷ []

-- `ruleColumnFieldType`
unfoldable pub rule_column_field_type : Bytes → Option ℕ
rule_column_field_type type_name = lookup (to_upper (trim_space type_name)) column_types

-- `ruleObjectRowLookup`
unfoldable pub rule_object_row_lookup : Row → Bytes → Option Value
rule_object_row_lookup (object m) key = lookup key m
rule_object_row_lookup row key = none

-- `ruleObjectRowValues`
unfoldable pub rule_object_row_values : List RuleColumn → Row → Result RuleError (List Value)
unfolding rule_object_row_lookup
rule_object_row_values [] row = ok []
rule_object_row_values (col ∷ columns) row = elim (rule_object_row_lookup row col.name) [
  | none ↦ err (missing_column col.name)
  | some value ↦ rule_object_row_values columns row >>= λ values. ok (value ∷ values)
]

-- `ruleRowValues`
unfoldable pub rule_row_values : Bytes → List RuleColumn → Row → Result RuleError (List Value)
unfolding rule_object_row_values
rule_row_values row_format columns row =
    if not (is_word row_format ([] ∷ codes "array" ∷ codes "object" ∷ []))
    then err (unsupported_row_format row_format)
    else if beq row_format (codes "object")
    then rule_object_row_values columns row
    else elim row [
      | array values ↦
          if not (length values == length columns) then err row_count_mismatch else ok values
      | object m ↦ rule_object_row_values columns (object m)
      | scalar v ↦ if length columns == 1 then ok (v ∷ []) else err unsupported_row
    ]

unfoldable pub rule_columns : List RuleColumn → Result RuleError (List ResultColumn)
unfolding rule_column_field_type
rule_columns [] = ok []
rule_columns (col ∷ columns) = elim (rule_column_field_type col.type_name) [
  | none ↦ err (unsupported_column_type col.type_name)
  | some t ↦ rule_columns columns >>= λ later.
      ok (record { name = col.name; field_type = t; zero_fill_width = 0 } ∷ later)
]

unfoldable pub rule_rows_from :
    Bytes → List RuleColumn → ℕ → List Row → Result RuleError (List (List Value))
unfolding rule_row_values
rule_rows_from row_format columns i [] = ok []
rule_rows_from row_format columns i (row ∷ rows) = elim (rule_row_values row_format columns row) [
  | err e ↦ err (at_row i e)
  | ok values ↦ rule_rows_from row_format columns (i + 1) rows >>= λ later. ok (values ∷ later)
]

-- `buildRuleResultSet`
unfoldable pub build_rule_result_set : RuleResponse → Result RuleError ResultSet
unfolding rule_columns rule_rows_from
build_rule_result_set resp = rule_columns resp.columns >>= λ columns.
    rule_rows_from resp.row_format resp.columns 0 resp.rows >>= λ rows.
    ok (record { columns = columns; rows = rows })

pub record Profile : Type 0 where
  pub kind : Bytes
  pub code : ℕ
  pub sql_state : Bytes
  pub message : Bytes

-- `ruleResponseProfiles`
abbrev pub rule_response_profiles : Assoc Bytes Profile
rule_response_profiles =
    (
      codes "deadlock",
      record {
        kind = codes "error";
        code = 1213;
        sql_state = codes "40001";
        message = codes "Deadlock found when trying to get lock; try restarting transaction";
      },
    )
    ∷ (
      codes "lock_wait_timeout",
      record {
        kind = codes "error";
        code = 1205;
        sql_state = codes "HY000";
        message = codes "Lock wait timeout exceeded; try restarting transaction";
      },
    )
    ∷ (
      codes "duplicate_key",
      record {
        kind = codes "error";
        code = 1062;
        sql_state = codes "23000";
        message = codes "Duplicate entry for key 'mysqlmock'";
      },
    )
    ∷ (
      codes "foreign_key_violation",
      record {
        kind = codes "error";
        code = 1452;
        sql_state = codes "23000";
        message = codes "Cannot add or update a child row: a foreign key constraint fails";
      },
    )
    ∷ (
      codes "disconnect",
      record { kind = codes "disconnect"; code = 0; sql_state = []; message = [] },
    )
    ∷ []

-- `lookupRuleResponseProfile`
unfoldable pub lookup_rule_response_profile : Bytes → Option Profile
lookup_rule_response_profile name =
    let key = to_lower (trim_space name) in
    if beq key [] then none else lookup key rule_response_profiles

abbrev pub or_else : Bytes → Bytes → Bytes
or_else [] fallback = fallback
or_else (c ∷ cs) fallback = c ∷ cs

-- The response's own fields win over the profile's.
unfoldable pub with_profile : RuleResponse → Option Profile → RuleResponse
with_profile resp none = resp
with_profile resp (some profile) = record resp {
  kind = or_else resp.kind profile.kind;
  code = if resp.code == 0 then profile.code else resp.code;
  sql_state = or_else resp.sql_state profile.sql_state;
  message = or_else resp.message profile.message;
}

-- `applyRuleResponseProfile`
unfoldable pub apply_rule_response_profile : RuleResponse → RuleResponse
unfolding with_profile
apply_rule_response_profile resp = with_profile resp (lookup_rule_response_profile resp.profile)
