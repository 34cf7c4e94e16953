-- ===== src/Stats/Kinds.antt =====
-- The kind of a statement that the statistics count it under (`queryKindFromNormalizedSQL`,
-- `isTransactionKind`, `hasPrefixFold`, `containsFold` of pkg/mysqlmock/stats.go).
use mysqlmock.Base.{
  ◌≡◌, refl, ◌≡◌, Bool, true, false, ◌&&◌, ◌||◌, none, some, List, [], ◌∷◌, ltb, leb, if◌then◌else◌,
  length, take, Bytes, codes, beq, to_upper, equal_fold, trim_space,
}
use mysqlmock.Scanner.{read_sql_identifier}

-- The texts that `queryKindFromNormalizedSQL` returns.
pub data QueryKind : Type 0 where
  empty : QueryKind
  show_full_fields : QueryKind
  show_create_table : QueryKind
  show_keys : QueryKind
  show : QueryKind
  set_statement : QueryKind
  transaction : QueryKind
  information_schema : QueryKind
  select : QueryKind
  with_statement : QueryKind
  insert_statement : QueryKind
  update : QueryKind
  delete_statement : QueryKind
  replace : QueryKind
  create_table : QueryKind
  create_index : QueryKind
  alter_table : QueryKind
  drop_table : QueryKind
  drop_index : QueryKind
  pragma : QueryKind
  other_kind : QueryKind

unfoldable pub kind_text : QueryKind → Bytes
kind_text empty = codes "empty"
kind_text show_full_fields = codes "show_full_fields"
kind_text show_create_table = codes "show_create_table"
kind_text show_keys = codes "show_keys"
kind_text show = codes "show"
kind_text set_statement = codes "set"
kind_text transaction = codes "transaction"
kind_text information_schema = codes "information_schema"
kind_text select = codes "select"
kind_text with_statement = codes "with"
kind_text insert_statement = codes "insert"
kind_text update = codes "update"
kind_text delete_statement = codes "delete"
kind_text replace = codes "replace"
kind_text create_table = codes "create_table"
kind_text create_index = codes "create_index"
kind_text alter_table = codes "alter_table"
kind_text drop_table = codes "drop_table"
kind_text drop_index = codes "drop_index"
kind_text pragma = codes "pragma"
kind_text other_kind = codes "other"

-- `hasPrefixFold`
unfoldable pub has_prefix_fold : Bytes → Bytes → Bool
unfolding equal_fold
has_prefix_fold s prefix =
    leb (length prefix) (length s) && equal_fold (take (length prefix) s) prefix

-- The loop of `containsFold`, which ends where fewer bytes are left than `substr` has.
contains_fold_loop : Bytes → Bytes → Bool
unfolding equal_fold
contains_fold_loop [] substr = equal_fold [] substr
contains_fold_loop (c ∷ cs) substr =
    let later = contains_fold_loop cs substr in
    if ltb (length (c ∷ cs)) (length substr)
    then false
    else equal_fold (take (length substr) (c ∷ cs)) substr || later

-- `containsFold`
unfoldable pub contains_fold : Bytes → Bytes → Bool
unfolding contains_fold_loop
contains_fold s substr =
    if beq substr []
    then true
    else if ltb (length s) (length substr)
    then false
    else contains_fold_loop s substr

-- `hasPrefixFold` for one of several texts.
abbrev pub any_prefix_fold : Bytes → List Bytes → Bool
any_prefix_fold s [] = false
any_prefix_fold s (p ∷ ps) = has_prefix_fold s p || any_prefix_fold s ps

-- `isTransactionKind`
unfoldable pub is_transaction_kind : Bytes → Bool
unfolding equal_fold has_prefix_fold
is_transaction_kind s =
    equal_fold s (codes "BEGIN")
    || (equal_fold s (codes "START TRANSACTION")
        || (equal_fold s (codes "COMMIT")
            || (equal_fold s (codes "ROLLBACK")
                || (equal_fold s (codes "ROLLBACK AND CHAIN")
                    || (has_prefix_fold s (codes "ROLLBACK TO SAVEPOINT ")
                        || (has_prefix_fold s (codes "SAVEPOINT ")
                            || has_prefix_fold s (codes "RELEASE SAVEPOINT ")))))))

show_kind : Bytes → QueryKind
unfolding has_prefix_fold
show_kind s =
    if any_prefix_fold s (
      codes "SHOW FULL FIELDS "
      ∷ (codes "SHOW FULL COLUMNS " ∷ (codes "SHOW FIELDS " ∷ (codes "SHOW COLUMNS " ∷ []))))
    then show_full_fields
    else if has_prefix_fold s (codes "SHOW CREATE TABLE ")
    then show_create_table
    else if any_prefix_fold s
        (codes "SHOW KEYS " ∷ (codes "SHOW INDEX " ∷ (codes "SHOW INDEXES " ∷ [])))
    then show_keys
    else show

create_kind : Bytes → QueryKind
unfolding has_prefix_fold
create_kind s =
    if any_prefix_fold s (
      codes "CREATE TABLE " ∷ (codes "CREATE TEMPORARY TABLE " ∷ (codes "CREATE TEMP TABLE " ∷ [])))
    then create_table
    else if any_prefix_fold s (codes "CREATE INDEX " ∷ (codes "CREATE UNIQUE INDEX " ∷ []))
    then create_index
    else other_kind

drop_kind : Bytes → QueryKind
unfolding has_prefix_fold
drop_kind s =
    if has_prefix_fold s (codes "DROP TABLE ")
    then drop_table
    else if has_prefix_fold s (codes "DROP INDEX ")
    then drop_index
    else other_kind

-- The switch behind the one on the first word.
last_kind : Bytes → QueryKind
unfolding has_prefix_fold
last_kind s = if has_prefix_fold s (codes "ALTER TABLE ") then alter_table else other_kind

schema_or : QueryKind → Bytes → QueryKind
unfolding contains_fold
schema_or kind s = if contains_fold s (codes "information_schema") then information_schema else kind

abbrev is_one_of : Bytes → List Bytes → Bool
is_one_of word [] = false
is_one_of word (w ∷ ws) = beq word w || is_one_of word ws

-- The switch on the first word in capitals.
word_kind : Bytes → Bytes → QueryKind
unfolding show_kind create_kind drop_kind last_kind schema_or is_transaction_kind
word_kind s word =
    if beq word (codes "SHOW")
    then show_kind s
    else if beq word (codes "SET")
    then set_statement
    else if is_one_of word
        (codes "BEGIN" ∷ (codes "COMMIT" ∷ (codes "ROLLBACK" ∷ (codes "SAVEPOINT" ∷ []))))
    then transaction
    else if is_one_of word (codes "START" ∷ (codes "RELEASE" ∷ []))
    then (if is_transaction_kind s then transaction else last_kind s)
    else if beq word (codes "SELECT")
    then schema_or select s
    else if beq word (codes "WITH")
    then schema_or with_statement s
    else if beq word (codes "INSERT")
    then insert_statement
    else if beq word (codes "UPDATE")
    then update
    else if beq word (codes "DELETE")
    then delete_statement
    else if beq word (codes "REPLACE")
    then replace
    else if beq word (codes "CREATE")
    then create_kind s
    else if beq word (codes "ALTER")
    then last_kind s
    else if beq word (codes "DROP")
    then drop_kind s
    else if beq word (codes "PRAGMA")
    then pragma
    else last_kind s

-- `queryKindFromNormalizedSQL`
unfoldable pub query_kind_from_normalized_sql : Bytes → QueryKind
unfolding word_kind
query_kind_from_normalized_sql sql =
    let s = trim_space sql in
    if beq s [] then empty else elim (read_sql_identifier s 0) [
      | none ↦ other_kind
      | some (word, end) ↦ word_kind s (to_upper word)
    ]

pub kind_text-named : (k : QueryKind) → beq (kind_text k) [] ≡ false
unfolding kind_text beq
kind_text-named empty = refl
kind_text-named show_full_fields = refl
kind_text-named show_create_table = refl
kind_text-named show_keys = refl
kind_text-named show = refl
kind_text-named set_statement = refl
kind_text-named transaction = refl
kind_text-named information_schema = refl
kind_text-named select = refl
kind_text-named with_statement = refl
kind_text-named insert_statement = refl
kind_text-named update = refl
kind_text-named delete_statement = refl
kind_text-named replace = refl
kind_text-named create_table = refl
kind_text-named create_index = refl
kind_text-named alter_table = refl
kind_text-named drop_table = refl
kind_text-named drop_index = refl
kind_text-named pragma = refl
kind_text-named other_kind = refl
