-- ===== src/Connection/Classify.antt =====
-- Which statement a text is (`isReadQuery`, `isWriteQuery`, `isRuntimeSchemaChangingStatement`,
-- `isSchemaChangingQuery`, `selectVersionColumnName` of pkg/mysqlmock/protocol.go; the tests of
-- active_record_compat.go and information_schema.go; `splitSQLStatements` of sql_compat.go;
-- `isCreateDatabaseStatement` of ddl_compat.go).
use mysqlmock.Base.{
  ℕ, zero, suc, ◌+◌, ◌-◌, Bool, false, not, ◌&&◌, ◌||◌, Option, none, some, List, [], ◌∷◌, ◌==◌,
  if◌then◌else◌, length, get_or, drop, slice, Bytes, codes, beq, to_upper, equal_fold, has_prefix,
  trim_suffix, contains, trim_space,
}
use mysqlmock.Scanner.{
  at, within, skip_sql_spaces, skipped_span, read_sql_identifier, consume_keyword,
  read_sql_name_token, normalize_sql, unquote_sql_word,
}
use mysqlmock.Scanner.TopLevel.{depth_after, split_sql_top_level_list, parenthesized_sql_span}

-- strings.HasPrefix for one of several texts.
abbrev pub any_prefix : Bytes → List Bytes → Bool
any_prefix s [] = false
any_prefix s (p ∷ ps) = has_prefix s p || any_prefix s ps

-- `isReadQuery`
unfoldable pub is_read_query : Bytes → Bool
is_read_query upper =
    has_prefix upper (codes "SELECT ")
    || (beq upper (codes "SELECT")
        || (has_prefix upper (codes "WITH ") || has_prefix upper (codes "PRAGMA ")))

abbrev create_prefixes : List Bytes
create_prefixes =
    codes "CREATE TABLE "
    ∷ (codes "CREATE TEMPORARY TABLE "
        ∷ (codes "CREATE TEMP TABLE "
            ∷ (codes "CREATE INDEX " ∷ (codes "CREATE UNIQUE INDEX " ∷ []))))

-- `isWriteQuery`
unfoldable pub is_write_query : Bytes → Bool
is_write_query upper =
    any_prefix upper
      (codes "INSERT " ∷ (codes "UPDATE " ∷ (codes "DELETE " ∷ (codes "REPLACE " ∷ []))))
    || (any_prefix upper create_prefixes
        || any_prefix upper (
            codes "ALTER TABLE "
            ∷ (codes "RENAME TABLE "
                ∷ (codes "DROP TABLE "
                    ∷ (codes "DROP DATABASE "
                        ∷ (codes "DROP SCHEMA " ∷ (codes "DROP INDEX " ∷ [])))))))

-- `isRuntimeSchemaChangingQuery`
unfoldable pub is_runtime_schema_changing_query : Bytes → Bool
is_runtime_schema_changing_query upper =
    any_prefix upper create_prefixes
    || any_prefix upper (
        codes "ALTER TABLE "
        ∷ (codes "RENAME TABLE "
            ∷ (codes "DROP DATABASE "
                ∷ (codes "DROP SCHEMA " ∷ (codes "DROP TABLE " ∷ (codes "DROP INDEX " ∷ []))))))

-- `isSchemaChangingQuery`
unfoldable pub is_schema_changing_query : Bytes → Bool
is_schema_changing_query sql =
    let upper = to_upper (normalize_sql sql) in
    any_prefix upper create_prefixes
    || any_prefix upper (
        codes "CREATE VIEW "
        ∷ (codes "ALTER TABLE "
            ∷ (codes "RENAME TABLE "
                ∷ (codes "DROP TABLE " ∷ (codes "DROP VIEW " ∷ (codes "DROP INDEX " ∷ []))))))

-- A statement in front of the later ones, unless it is blank.
abbrev add_statement : Bytes → List Bytes → List Bytes
add_statement piece later =
    let statement = trim_space piece in if beq statement [] then later else statement ∷ later

unfoldable pub statements_loop : ℕ → Bytes → ℕ → ℕ → ℕ → List Bytes
statements_loop zero s i start depth = add_statement (drop start s) []
statements_loop (suc fuel) s i start depth =
    let skip_to = λ (end : ℕ). statements_loop fuel s end start depth in
    let cut = (at s i == b';') && (depth == 0) in
    let later =
      statements_loop fuel s (i + 1) (if cut then i + 1 else start) (depth_after (at s i) depth) in
    if not (within s i) then add_statement (drop start s) [] else elim (skipped_span s i) [
      | some end ↦ skip_to end
      | none ↦ if cut then add_statement (slice s start i) later else later
    ]

-- `splitSQLStatements`
unfoldable pub split_sql_statements : Bytes → List Bytes
unfolding statements_loop
split_sql_statements s = statements_loop (length s) s 0 0 0

-- `isRuntimeSchemaChangingStatement`
unfoldable pub is_runtime_schema_changing_statement : Bytes → Bool
unfolding is_runtime_schema_changing_query
is_runtime_schema_changing_statement sql = one_statement (split_sql_statements sql)
  where
    one_statement : List Bytes → Bool
    one_statement [] = false
    one_statement (s ∷ []) = is_runtime_schema_changing_query (to_upper (normalize_sql s))
    one_statement (s ∷ (t ∷ rest)) = false

-- `isAdvisoryLockQuery`
unfoldable pub is_advisory_lock_query : Bytes → Bool
is_advisory_lock_query upper =
    has_prefix upper (codes "SELECT GET_LOCK(") || has_prefix upper (codes "SELECT RELEASE_LOCK(")

-- `isShowFullFieldsQuery`
unfoldable pub is_show_full_fields_query : Bytes → Bool
is_show_full_fields_query upper = any_prefix upper (
    codes "SHOW FULL FIELDS FROM "
    ∷ (codes "SHOW FULL COLUMNS FROM "
        ∷ (codes "SHOW FIELDS FROM " ∷ (codes "SHOW COLUMNS FROM " ∷ []))))

-- `isShowCreateTableQuery`
unfoldable pub is_show_create_table_query : Bytes → Bool
is_show_create_table_query upper = has_prefix upper (codes "SHOW CREATE TABLE ")

-- `isShowKeysQuery`
unfoldable pub is_show_keys_query : Bytes → Bool
is_show_keys_query upper =
    any_prefix upper
      (codes "SHOW KEYS FROM " ∷ (codes "SHOW INDEX FROM " ∷ (codes "SHOW INDEXES FROM " ∷ [])))

without_quotes : Bytes → Bytes
without_quotes [] = []
without_quotes (c ∷ cs) =
    let rest = without_quotes cs in if (c == b'`') || (c == b'"') then rest else c ∷ rest

-- `isInformationSchemaQuery`
unfoldable pub is_information_schema_query : Bytes → Bool
unfolding without_quotes
is_information_schema_query upper = contains (without_quotes upper) (codes "INFORMATION_SCHEMA.")

-- The alias at `pos`, if nothing but blanks follows it.
version_alias : Bytes → Option (Bytes × ℕ) → Option Bytes
version_alias s none = none
version_alias s (some (alias, next)) =
    if skip_sql_spaces s next == length s then some (unquote_sql_word alias) else none

version_column : Bytes → ℕ → Option Bytes
unfolding version_alias
version_column s before =
    let pos = skip_sql_spaces s before in
    if not (within s pos)
    then some (codes "VERSION()")
    else elim (consume_keyword s pos (codes "AS")) [
      | some after ↦ version_alias s (read_sql_name_token s after)
      | none ↦ version_alias s (read_sql_name_token s pos)
    ]

-- The position behind `()`, or where it is if no parenthesis is there.
version_call : Bytes → ℕ → Option ℕ
version_call s before =
    let pos = skip_sql_spaces s before in
    if within s pos && (at s pos == b'(')
    then elim (parenthesized_sql_span s pos) [
      | none ↦ none
      | some end ↦ if beq (trim_space (slice s (pos + 1) (end - 1))) [] then some end else none
    ]
    else some pos

-- `selectVersionColumnName`
unfoldable pub select_version_column_name : Bytes → Option Bytes
unfolding version_column version_call
select_version_column_name sql =
    let s = trim_space (trim_suffix (trim_space sql) (codes ";")) in
    elim (consume_keyword s 0 (codes "SELECT")) [
      | none ↦ none
      | some after_select ↦ elim (consume_keyword s after_select (codes "VERSION")) [
        | none ↦ none
        | some after_version ↦ elim (version_call s after_version) [
          | none ↦ none
          | some end ↦ version_column s end
        ]
      ]
    ]

-- `advisoryLockName`
unfoldable pub advisory_lock_name : Bytes → Option Bytes
unfolding equal_fold
advisory_lock_name expr = elim (read_sql_identifier expr 0) [
  | none ↦ none
  | some (name, end) ↦
      if not (equal_fold name (codes "GET_LOCK") || equal_fold name (codes "RELEASE_LOCK"))
      then none
      else (let call_start = skip_sql_spaces expr end in
          elim (parenthesized_sql_span expr call_start) [
            | none ↦ none
            | some call_end ↦ some (
                unquote_sql_word (
                  trim_space (
                    get_or (split_sql_top_level_list (slice expr (call_start + 1) (call_end - 1))) 0
                      [])))
          ])
]
