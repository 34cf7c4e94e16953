-- ===== src/Tests/Sessions.antt =====
-- Variables of a session at concrete inputs.
use mysqlmock.Scanner.TopLevel.{top_level_equal_index, split_sql_top_level_list}
use mysqlmock.Base.{
  drop, Bytes, ◌≡◌, refl, false, none, some, [], ◌∷◌, codes, beq, to_lower, equal_fold, trim_prefix,
  trim_suffix, trim_space, fields,
}
use mysqlmock.Map.{lookup, bytes_eq}
use mysqlmock.Map.Distinct.{OneEach}
use mysqlmock.Connection.{SessionVariables, Settings, has_flag}
use mysqlmock.Connection.Variables.{
  parse_set_variable_assignment, select_name, select_expression, set_names,
  normalize_system_variable_name, normalize_system_variable_value, set_variables, own_variable,
  compat_variable, select_variable, show_variables,
}
use mysqlmock.Connection.Assigning.{last_assigned, set_or, set_variables-compat_variable}
use mysqlmock.Connection.Showing.{answer_of, row_value, select_variable-show_variables}
use mysqlmock.Scanner.{sql_comment_span, quoted_sql_span, skipped_span, unquote_sql_word}

abbrev pub plain_settings : Settings
plain_settings = record {
  variables =
      (codes "character_set_client", codes "utf8mb4") ∷ ((codes "sql_mode", codes "ANSI") ∷ []);
  mysql_version = codes "8.0.36";
  unsupported_code = 1105;
  unsupported_sql_state = codes "HY000";
  unsupported_message = codes "Unsupported query";
}

abbrev pub plain_vars : SessionVariables
plain_vars = record {
  character_set_client = codes "utf8mb4";
  character_set_connection = codes "utf8mb4";
  character_set_results = codes "utf8mb4";
  collation_connection = codes "utf8mb4_bin";
  session_variables = [];
}

-- Two assignments, with a text as their list.
abbrev assignments : Bytes
assignments = codes "SET @@SESSION.sql_mode = '', wait_timeout = 5"

set_variables-compat_variable_example :
    compat_variable plain_settings 2
      (set_variables plain_settings false assignments plain_vars).0
      (codes "wait_timeout")
    ≡ set_or
        (codes "wait_timeout")
        (last_assigned plain_settings
          (codes "wait_timeout")
          (split_sql_top_level_list (trim_space (drop 3 assignments))))
        (compat_variable plain_settings 2 plain_vars (codes "wait_timeout"))
set_variables-compat_variable_example =
    set_variables-compat_variable plain_settings false assignments plain_vars 2
      (codes "wait_timeout")

last_timeout :
    last_assigned plain_settings
      (codes "wait_timeout")
      (split_sql_top_level_list (trim_space (drop 3 assignments)))
    ≡ some (codes "5")
unfolding last_assigned split_sql_top_level_list trim_space skipped_span quoted_sql_span
    sql_comment_span parse_set_variable_assignment top_level_equal_index beq trim_suffix
    normalize_system_variable_name trim_prefix to_lower normalize_system_variable_value
    unquote_sql_word
last_timeout = refl

configured_once : OneEach plain_settings.variables
unfolding OneEach lookup beq
configured_once = (refl, (refl, tt))

abbrev select_mode : Bytes
select_mode = codes "SELECT @@SESSION.SQL_MODE"

select_variable-show_variables_example :
    select_variable plain_settings 2 plain_vars select_mode
    ≡ answer_of
        (select_expression select_mode)
        (row_value (select_name select_mode) (show_variables plain_settings 2 plain_vars).rows)
unfolding OneEach
select_variable-show_variables_example =
    select_variable-show_variables plain_settings 2 plain_vars select_mode configured_once tt

-- The comma behind the character set becomes a part of its name.
names_with_comma :
    (set_names plain_settings
      (codes "SET NAMES latin1, @@wait_timeout = 1")
      plain_vars).character_set_client
    ≡ codes "latin1,"
unfolding set_names fields equal_fold unquote_sql_word
names_with_comma = refl

-- SET of a variable that the connection keeps itself is not seen.
own_not_set :
    compat_variable plain_settings 2
      (set_variables plain_settings false (codes "SET @@autocommit = 0") plain_vars).0
      (codes "autocommit")
    ≡ some (codes "1")
unfolding compat_variable own_variable has_flag beq
own_not_set = refl

-- A variable that is selected in small letters is not found.
small_select : select_variable plain_settings 2 plain_vars (codes "select @@sql_mode") ≡ none
unfolding select_variable compat_variable own_variable beq lookup trim_space trim_suffix trim_prefix
    to_lower
small_select = refl
