-- ===== src/Connection/Variables.antt =====
-- SET, SELECT @@name and SHOW VARIABLES (`setAutocommit`, `setNames`, `setVariables`,
-- `selectVariable`, `showVariables`, `compatVariable` of pkg/mysqlmock/protocol.go).
use mysqlmock.Base.{
  ℕ, ◌+◌, Bool, true, false, ◌||◌, Option, none, some, List, [], ◌∷◌, ◌++◌, map, ltb, ◌==◌,
  if◌then◌else◌, get_elem?, take, drop, Bytes, codes, beq, to_lower, equal_fold, trim_prefix,
  has_suffix, trim_suffix, contains, trim_space, fields,
}
use mysqlmock.Map.{bytes_eq, Assoc, lookup, insert, keys}
use mysqlmock.Value.{Value, text}
use mysqlmock.Rows.{ResultSet}
use mysqlmock.Rows.FieldType
use mysqlmock.Scanner.{unquote_sql_word}
use mysqlmock.Scanner.TopLevel.{split_sql_top_level_list, top_level_equal_index}
use mysqlmock.Connection.{
  SessionVariables, Settings, server_status_autocommit, has_flag, set_flag, clear_flag,
}

-- `setAutocommit`, on the status flags; the answer is an OK packet with no effects, here and for
-- the SETs below.
unfoldable pub set_autocommit : Bytes → ℕ → ℕ
unfolding set_flag clear_flag contains has_suffix
set_autocommit upper flags =
    if contains upper (codes "= 0")
      || (has_suffix upper (codes "=0") || has_suffix upper (codes " OFF"))
    then clear_flag server_status_autocommit flags
    else set_flag server_status_autocommit flags

-- `m[key]` of a map of strings: the empty string for a missing key.
abbrev pub text_at : Bytes → Assoc Bytes Bytes → Bytes
text_at key m = elim (lookup key m) [ none ↦ [] | some v ↦ v ]

-- `resetCharacterSetState`
unfoldable pub reset_character_set_state : Settings → SessionVariables → SessionVariables
reset_character_set_state cfg v = record v {
  character_set_client = text_at (codes "character_set_client") cfg.variables;
  character_set_connection = text_at (codes "character_set_connection") cfg.variables;
  character_set_results = text_at (codes "character_set_results") cfg.variables;
  collation_connection = text_at (codes "collation_connection") cfg.variables;
}

-- The word behind the first COLLATE that has one.
unfoldable pub collate_word : List Bytes → Option Bytes
unfolding equal_fold
collate_word [] = none
collate_word (w ∷ []) = none
collate_word (w ∷ (v ∷ ws)) =
    let later = collate_word (v ∷ ws) in
    if equal_fold w (codes "COLLATE") then some (unquote_sql_word v) else later

names_set : Settings → Bytes → List Bytes → SessionVariables → SessionVariables
unfolding equal_fold
names_set cfg charset later v =
    if equal_fold charset (codes "DEFAULT") then reset_character_set_state cfg v else record v {
      character_set_client = charset;
      character_set_connection = charset;
      character_set_results = charset;
      collation_connection = elim (collate_word later) [
        | none ↦ v.collation_connection
        | some collation ↦ collation
      ];
    }

-- `setNames`
unfoldable pub set_names : Settings → Bytes → SessionVariables → SessionVariables
unfolding names_set
set_names cfg normalized v = elim (get_elem? (fields normalized) 2) [
  | none ↦ v
  | some word ↦ names_set cfg (unquote_sql_word word) (drop 3 (fields normalized)) v
]

-- `parseSetVariableAssignment`
unfoldable pub parse_set_variable_assignment : Bytes → Option (Bytes × Bytes)
parse_set_variable_assignment assignment =
    let s = trim_space assignment in
    elim (top_level_equal_index s) [
      | none ↦ none
      | some eq ↦
          let name = trim_space (take eq s) in
          let value = trim_space (trim_suffix (drop (eq + 1) s) (codes ";")) in
          if beq name [] || beq value [] then none else some (name, value)
    ]

-- `normalizeSystemVariableName`
unfoldable pub normalize_system_variable_name : Bytes → Bytes
normalize_system_variable_name name =
    trim_prefix
      (trim_prefix (to_lower (trim_prefix (trim_space name) (codes "@@"))) (codes "session."))
      (codes "global.")

-- `normalizeSystemVariableValue`
unfoldable pub normalize_system_variable_value : Settings → Bytes → Bytes → Bytes
unfolding equal_fold
normalize_system_variable_value cfg name value =
    let v = trim_space (trim_suffix value (codes ";")) in
    if equal_fold v (codes "DEFAULT") then text_at name cfg.variables else unquote_sql_word v

-- What SQLite is told when a variable is set, its errors ignored.
unfoldable pub pragmas_of : Bool → Bytes → Bytes → List Bytes
unfolding equal_fold
pragmas_of in_transaction name value =
    if equal_fold name (codes "foreign_key_checks")
    then (if beq value (codes "0") || equal_fold value (codes "OFF")
        then (if in_transaction then codes "PRAGMA defer_foreign_keys = ON" ∷ [] else [])
          ++ codes "PRAGMA foreign_keys = OFF" ∷ []
        else codes "PRAGMA foreign_keys = ON" ∷ [])
    else []

-- One pass of the loop of `setVariables`: the variables, and what SQLite is told.
unfoldable pub set_variable :
    Settings → Bool → Bytes → Bytes → SessionVariables → SessionVariables × List Bytes
unfolding pragmas_of
set_variable cfg in_transaction raw_name raw_value v =
    let name = normalize_system_variable_name raw_name in
    let value = normalize_system_variable_value cfg name raw_value in
    if beq name [] then (v, []) else (
      record v { session_variables = insert name value v.session_variables },
      pragmas_of in_transaction name value,
    )

-- One item of the list, which is left out if it is no assignment.
abbrev pub assign :
    Settings → Bool → Option (Bytes × Bytes) → SessionVariables → SessionVariables × List Bytes
assign cfg in_transaction none v = (v, [])
assign cfg in_transaction (some (name, value)) v = set_variable cfg in_transaction name value v

unfoldable pub assign_all :
    Settings → Bool → List Bytes → SessionVariables → SessionVariables × List Bytes
assign_all cfg in_transaction [] v = (v, [])
assign_all cfg in_transaction (item ∷ items) v =
    let (v1, told) = assign cfg in_transaction (parse_set_variable_assignment item) v in
    let (v2, later) = assign_all cfg in_transaction items v1 in (v2, told ++ later)

-- `setVariables`, for a text that begins with SET.
unfoldable pub set_variables :
    Settings → Bool → Bytes → SessionVariables → SessionVariables × List Bytes
unfolding assign_all
set_variables cfg in_transaction sql v =
    assign_all cfg in_transaction (split_sql_top_level_list (trim_space (drop 3 sql))) v

abbrev autocommit_text : ℕ → Bytes
autocommit_text flags = if has_flag server_status_autocommit flags then codes "1" else codes "0"

-- The five variables that the connection itself keeps.
unfoldable pub own_variable : ℕ → SessionVariables → Bytes → Option Bytes
own_variable flags v name =
    if beq name (codes "autocommit")
    then some (autocommit_text flags)
    else if beq name (codes "character_set_client")
    then some v.character_set_client
    else if beq name (codes "character_set_connection")
    then some v.character_set_connection
    else if beq name (codes "character_set_results")
    then some v.character_set_results
    else if beq name (codes "collation_connection")
    then some v.collation_connection
    else none

-- An own variable, or else one that was set, or else one that is configured.
abbrev pub choose : Option Bytes → Option Bytes → Option Bytes → Option Bytes
choose (some value) session configured = some value
choose none (some value) configured = some value
choose none none configured = configured

-- `compatVariable`
unfoldable pub compat_variable : Settings → ℕ → SessionVariables → Bytes → Option Bytes
compat_variable cfg flags v name =
    choose (own_variable flags v name) (lookup name v.session_variables) (lookup name cfg.variables)

-- The expression and the name that `selectVariable` reads.
abbrev pub select_expression : Bytes → Bytes
select_expression normalized =
    trim_suffix (trim_space (trim_prefix (trim_space normalized) (codes "SELECT"))) (codes ";")

abbrev pub select_name : Bytes → Bytes
select_name normalized =
    let name = trim_prefix (trim_space (select_expression normalized)) (codes "@@") in
    trim_prefix (trim_prefix (to_lower name) (codes "session.")) (codes "global.")

-- `oneRow`
unfoldable pub one_row : Bytes → Value → ResultSet
one_row name value = record {
  columns = record { name = name; field_type = FieldType.var_string; zero_fill_width = 0 } ∷ [];
  rows = (value ∷ []) ∷ [];
}

-- `selectVariable`; no result set stands for the error for an unsupported statement.
unfoldable pub select_variable : Settings → ℕ → SessionVariables → Bytes → Option ResultSet
unfolding compat_variable one_row
select_variable cfg flags v normalized =
    elim (compat_variable cfg flags v (select_name normalized)) [
      | none ↦ none
      | some value ↦ some (one_row (select_expression normalized) (text value))
    ]

-- `for k, v := range from { to[k] = v }`
unfoldable pub copy_into : Assoc Bytes Bytes → Assoc Bytes Bytes → Assoc Bytes Bytes
copy_into [] to = to
copy_into ((k, v) ∷ from) to = copy_into from (insert k v to)

abbrev pub own_names : List Bytes
own_names =
    codes "autocommit"
    ∷ (codes "character_set_client"
        ∷ (codes "character_set_connection"
            ∷ (codes "character_set_results" ∷ (codes "collation_connection" ∷ []))))

unfoldable pub copy_own :
    Settings → ℕ → SessionVariables → List Bytes → Assoc Bytes Bytes → Assoc Bytes Bytes
copy_own cfg flags v [] to = to
copy_own cfg flags v (name ∷ names) to =
    let value : Bytes = elim (compat_variable cfg flags v name) [ none ↦ [] | some x ↦ x ] in
    copy_own cfg flags v names (insert name value to)

-- `compatVariables`
unfoldable pub compat_variables : Settings → ℕ → SessionVariables → Assoc Bytes Bytes
unfolding copy_into copy_own
compat_variables cfg flags v =
    copy_own cfg flags v own_names (copy_into v.session_variables (copy_into cfg.variables []))

-- `a < b` on strings.
unfoldable pub text_less : Bytes → Bytes → Bool
text_less a [] = false
text_less [] (y ∷ b) = true
text_less (x ∷ a) (y ∷ b) = let later = text_less a b in if x == y then later else ltb x y

unfoldable pub insert_sorted : Bytes → List Bytes → List Bytes
unfolding text_less
insert_sorted k [] = k ∷ []
insert_sorted k (j ∷ js) =
    let later = insert_sorted k js in if text_less k j then k ∷ (j ∷ js) else j ∷ later

-- sort.Strings, as far as its result goes.
unfoldable pub sort_strings : List Bytes → List Bytes
unfolding insert_sorted
sort_strings [] = []
sort_strings (k ∷ ks) = insert_sorted k (sort_strings ks)

-- `showVariables`
unfoldable pub show_variables : Settings → ℕ → SessionVariables → ResultSet
unfolding compat_variables sort_strings
show_variables cfg flags v =
    let variables = compat_variables cfg flags v in
    record {
      columns =
          record {
            name = codes "Variable_name";
            field_type = FieldType.var_string;
            zero_fill_width = 0;
          }
          ∷ (record { name = codes "Value"; field_type = FieldType.var_string; zero_fill_width = 0 }
              ∷ []);
      rows = map (λ k. text k ∷ (text (text_at k variables) ∷ [])) (sort_strings (keys variables));
    }
