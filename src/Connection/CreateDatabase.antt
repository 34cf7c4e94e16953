-- ===== src/Connection/CreateDatabase.antt =====
-- CREATE DATABASE, which the server takes note of and does not run (`isCreateDatabaseStatement` of
-- pkg/mysqlmock/ddl_compat.go). The loops take the length of the text as fuel: each round moves
-- the position forward.
use mysqlmock.Base.{
  ℕ, zero, suc, ◌+◌, Bool, true, false, not, ◌&&◌, Option, none, some, List, [], ◌∷◌, ◌==◌,
  if◌then◌else◌, length, Bytes, codes, equal_fold,
}
use mysqlmock.Scanner.{
  at, within, skip_sql_spaces, quoted_sql_span, sql_comment_span, read_sql_identifier,
  read_sql_name_token,
}
use mysqlmock.Connection.Classify.{split_sql_statements}

spaces_and_comments_loop : ℕ → Bytes → ℕ → ℕ
spaces_and_comments_loop zero s pos = pos
spaces_and_comments_loop (suc fuel) s pos =
    let start = skip_sql_spaces s pos in
    let again = λ (end : ℕ). spaces_and_comments_loop fuel s end in
    if not (within s start)
    then start
    else elim (sql_comment_span s start) [ none ↦ start | some end ↦ again end ]

-- `skipSQLSpacesAndComments`
unfoldable pub skip_sql_spaces_and_comments : Bytes → ℕ → ℕ
unfolding spaces_and_comments_loop
skip_sql_spaces_and_comments s pos = spaces_and_comments_loop (length s + 1) s pos

-- `consumeCreateDatabaseKeyword`
unfoldable pub consume_create_database_keyword : Bytes → ℕ → Bytes → Option ℕ
unfolding equal_fold skip_sql_spaces_and_comments
consume_create_database_keyword s pos keyword =
    elim (read_sql_identifier s (skip_sql_spaces_and_comments s pos)) [
      | none ↦ none
      | some (word, next) ↦ if equal_fold word keyword then some next else none
    ]

-- `consumeCreateDatabaseOptionValue`
unfoldable pub consume_create_database_option_value : Bytes → ℕ → Option ℕ
consume_create_database_option_value s before =
    let pos = skip_sql_spaces_and_comments s before in
    if not (within s pos) then none else elim (quoted_sql_span s pos) [
      | some end ↦ some end
      | none ↦ elim (read_sql_identifier s pos) [ none ↦ none | some (word, end) ↦ some end ]
    ]

-- The position where the keyword was or is not.
abbrev past_keyword : Bytes → ℕ → Bytes → ℕ
past_keyword s pos keyword = elim (consume_create_database_keyword s pos keyword) [
  | none ↦ pos
  | some next ↦ next
]

abbrev first_of : Option ℕ → Option ℕ → Option ℕ
first_of (some n) later = some n
first_of none later = later

-- The name of an option.
option_name : Bytes → ℕ → Option ℕ
option_name s pos = elim (consume_create_database_keyword s pos (codes "CHARACTER")) [
  | some next ↦ consume_create_database_keyword s next (codes "SET")
  | none ↦ first_of (consume_create_database_keyword s pos (codes "CHARSET")) (
      first_of (consume_create_database_keyword s pos (codes "COLLATE"))
        (consume_create_database_keyword s pos (codes "ENCRYPTION")))
]

past_equal : Bytes → ℕ → ℕ
past_equal s before =
    let pos = skip_sql_spaces_and_comments s before in
    if within s pos && (at s pos == b'=') then pos + 1 else pos

options_loop : ℕ → Bytes → ℕ → Bool
unfolding option_name past_equal
options_loop zero s before = false
options_loop (suc fuel) s before =
    let pos = skip_sql_spaces_and_comments s before in
    let again = λ (next : ℕ). options_loop fuel s next in
    if not (within s pos)
    then true
    else elim (option_name s (past_keyword s pos (codes "DEFAULT"))) [
      | none ↦ false
      | some named ↦ elim (consume_create_database_option_value s (past_equal s named)) [
        | none ↦ false
        | some next ↦ again next
      ]
    ]

-- `consumeCreateDatabaseOptions`
unfoldable pub consume_create_database_options : Bytes → ℕ → Bool
unfolding options_loop
consume_create_database_options s pos = options_loop (length s + 1) s pos

-- IF NOT EXISTS, which need not be there; nothing if only a part of it is.
if_not_exists : Bytes → ℕ → Option ℕ
if_not_exists s pos = elim (consume_create_database_keyword s pos (codes "IF")) [
  | none ↦ some pos
  | some past_if ↦ elim (consume_create_database_keyword s past_if (codes "NOT")) [
    | none ↦ none
    | some past_not ↦ consume_create_database_keyword s past_not (codes "EXISTS")
  ]
]

named_database : Bytes → ℕ → Bool
unfolding if_not_exists
named_database s pos = elim (if_not_exists s pos) [
  | none ↦ false
  | some before ↦ elim (read_sql_name_token s (skip_sql_spaces_and_comments s before)) [
    | none ↦ false
    | some (name, next) ↦ consume_create_database_options s next
  ]
]

create_database : Bytes → Bool
unfolding named_database
create_database s = elim (consume_create_database_keyword s 0 (codes "CREATE")) [
  | none ↦ false
  | some pos ↦
      elim (first_of (consume_create_database_keyword s pos (codes "DATABASE"))
        (consume_create_database_keyword s pos (codes "SCHEMA"))) [
          | none ↦ false
          | some next ↦ named_database s next
        ]
]

-- `isCreateDatabaseStatement`
unfoldable pub is_create_database_statement : Bytes → Bool
unfolding create_database
is_create_database_statement sql = only (split_sql_statements sql)
  where
    only : List Bytes → Bool
    only [] = false
    only (s ∷ []) = create_database s
    only (s ∷ (t ∷ rest)) = false
