-- ===== src/Connection/Routes.antt =====
-- Where a statement goes: the tests of `executeQuery` of pkg/mysqlmock/protocol.go, in their order.
use mysqlmock.Base.{◌||◌, none, some, if◌then◌else◌, Bytes, codes, beq, has_prefix}
use mysqlmock.Connection.Classify.{
  is_read_query, is_write_query, is_advisory_lock_query, is_show_full_fields_query,
  is_show_create_table_query, is_show_keys_query, is_information_schema_query,
  select_version_column_name,
}
use mysqlmock.Connection.CreateDatabase.{is_create_database_statement}
use mysqlmock.Connection.Backend.{
  Task, list_tables, list_full_fields, print_create_table, list_keys, query_information_schema,
}
use mysqlmock.Connection.Writes.{Statement}

-- The cases of the switch of `executeQuery`, and what comes behind it.
pub data Route : Type 0 where
  to_set_names : Route
  to_set_autocommit : Route
  to_set_transaction : Route
  to_set_variables : Route
  to_version : (column : Bytes) → Route
  to_advisory_lock : Route
  to_database : (column : Bytes) → Route
  to_user : (column : Bytes) → Route
  to_connection_id : Route
  to_last_insert_id : Route
  to_row_count : Route
  to_version_variable : Route
  to_variable : Route
  to_show_variables : Route
  -- Work of another component, for the compatibility with MySQL.
  to_task : Task → Route
  to_create_database : Route
  to_begin : Route
  to_commit : Route
  to_rollback : Route
  to_rollback_and_chain : Route
  to_rollback_to_savepoint : Route
  to_savepoint : Route
  to_read : Route
  to_write : Route
  to_unsupported : Route

-- The routes behind the switch.
last_route : Statement → Route
last_route q =
    if is_read_query q.upper
    then to_read
    else if is_write_query q.upper
    then to_write
    else to_unsupported

transaction_route : Statement → Route
unfolding last_route
transaction_route q =
    if beq q.upper (codes "BEGIN") || beq q.upper (codes "START TRANSACTION")
    then to_begin
    else if beq q.upper (codes "COMMIT")
    then to_commit
    else if beq q.upper (codes "ROLLBACK")
    then to_rollback
    else if beq q.upper (codes "ROLLBACK AND CHAIN")
    then to_rollback_and_chain
    else if has_prefix q.upper (codes "ROLLBACK TO SAVEPOINT ")
    then to_rollback_to_savepoint
    else if has_prefix q.upper (codes "SAVEPOINT ")
        || has_prefix q.upper (codes "RELEASE SAVEPOINT ")
    then to_savepoint
    else last_route q

show_route : Statement → Route
unfolding transaction_route
show_route q =
    if beq q.upper (codes "SHOW VARIABLES")
    then to_show_variables
    else if beq q.upper (codes "SHOW TABLES")
    then to_task list_tables
    else if is_show_full_fields_query q.upper
    then to_task (list_full_fields q.trimmed)
    else if is_show_create_table_query q.upper
    then to_task (print_create_table q.trimmed)
    else if is_show_keys_query q.upper
    then to_task (list_keys q.trimmed)
    else if is_information_schema_query q.upper
    then to_task (query_information_schema q.trimmed (beq q.command (codes "COM_QUERY")) q.args)
    else if is_create_database_statement q.trimmed
    then to_create_database
    else transaction_route q

select_route : Statement → Route
unfolding show_route
select_route q =
    if is_advisory_lock_query q.upper
    then to_advisory_lock
    else if beq q.upper (codes "SELECT DATABASE()")
    then to_database (codes "DATABASE()")
    else if beq q.upper (codes "SELECT SCHEMA()")
    then to_database (codes "SCHEMA()")
    else if beq q.upper (codes "SELECT USER()")
    then to_user (codes "USER()")
    else if beq q.upper (codes "SELECT CURRENT_USER()") || beq q.upper (codes "SELECT CURRENT_USER")
    then to_user (codes "CURRENT_USER()")
    else if beq q.upper (codes "SELECT CONNECTION_ID()")
    then to_connection_id
    else if beq q.upper (codes "SELECT LAST_INSERT_ID()")
    then to_last_insert_id
    else if beq q.upper (codes "SELECT ROW_COUNT()")
    then to_row_count
    else if beq q.upper (codes "SELECT @@VERSION")
        || (beq q.upper (codes "SELECT @@SESSION.VERSION")
            || beq q.upper (codes "SELECT @@GLOBAL.VERSION"))
    then to_version_variable
    else if has_prefix q.upper (codes "SELECT @@")
    then to_variable
    else show_route q

-- The switch.
unfoldable pub route_of : Statement → Route
unfolding select_route
route_of q =
    if has_prefix q.upper (codes "SET NAMES ")
    then to_set_names
    else if has_prefix q.upper (codes "SET AUTOCOMMIT")
    then to_set_autocommit
    else if has_prefix q.upper (codes "SET TRANSACTION ")
    then to_set_transaction
    else if has_prefix q.upper (codes "SET ")
    then to_set_variables
    else elim (select_version_column_name q.trimmed) [
      | some column ↦ to_version column
      | none ↦ select_route q
    ]
