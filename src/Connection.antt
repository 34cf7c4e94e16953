-- ===== src/Connection.antt =====
-- The connection of one client (`mysqlConn` of pkg/mysqlmock/protocol.go): its session, variables
-- and prepared statements.
pub mod Variables
pub mod Assigning
pub mod Showing
pub mod Sorting
pub mod Classify
pub mod CreateDatabase
pub mod Backend
pub mod Logging
pub mod Sqlite
pub mod Transactions
pub mod Writes
pub mod Routes
pub mod Routing
pub mod Handshake
pub mod Query
pub mod Serve
pub mod Kept
pub mod KeptWrites
pub mod Logged
pub mod Recorded
pub mod Precedence
pub mod Flags
pub mod Login
use mysqlmock.Base.{
  ℕ, zero, suc, ◌+◌, ◌-◌, ◌*◌, ◌/◌, ◌%◌, ◌^◌, ◌≤◌, ◌<◌, ◌≡◌, refl, sym, ap, ◌∙◌, ◌≢◌, ◌↔◌, ◌⊎◌, inl,
  inr, Bool, true, false, not, ◌&&◌, ◌||◌, Option, none, some, List, [], ◌∷◌, ◌++◌, map, append-nil,
  append_assoc, arith, ltb, leb, ◌==◌, if◌then◌else◌, ltb→lt, ltb→ge, lt→ltb, ge→ltb, leb→le,
  le→leb, ==_iff, ==_refl, tests, Bool-cases, Option-cases, length, get_elem?, get_or, set, take,
  drop, replicate, slice, length-append, length-take, length-drop, length-replicate, length-set,
  take-length_append, drop-length_append, take-append-drop, take_all, drop_all, drop-drop, Bytes,
  codes, beq, beq_iff, beq_refl, lower_byte, upper_byte, to_lower, to_upper, equal_fold, has_prefix,
  trim_prefix, has_suffix, trim_suffix, contains, is_space, trim_space, fields, join, index_byte,
}
use mysqlmock.Map.{Eq, bytes_eq, Assoc, lookup, insert}
use mysqlmock.Stats.{Stats}
use mysqlmock.Stores.Diagnostics.{Diagnostics}
use mysqlmock.Stores.Locks.{Locks}
use mysqlmock.Rules.Matching.{OnceUsed}
use mysqlmock.Response.{Session, OkResult}
use mysqlmock.Prepared.Statements.{Conn}

-- The character sets and variables of the session.
pub record SessionVariables : Type 0 where
  pub character_set_client : Bytes
  pub character_set_connection : Bytes
  pub character_set_results : Bytes
  pub collation_connection : Bytes
  pub session_variables : Assoc Bytes Bytes

-- What the connection reads of the server's configuration: `cfg.Compat.Variables`,
-- `cfg.Server.MySQLVersion` and the response to unsupported statements.
pub record Settings : Type 0 where
  pub variables : Assoc Bytes Bytes
  pub mysql_version : Bytes
  pub unsupported_code : ℕ
  pub unsupported_sql_state : Bytes
  pub unsupported_message : Bytes

-- The fields of `mysqlConn` that the commands on prepared statements do not use, the server's
-- shared stores, and `D`, the state of SQLite and of what is kept beside it.
pub record Context (D : Type 0) : Type 0 where
  pub connection_id : ℕ
  pub user : Bytes
  pub vars : SessionVariables
  pub stats : Stats
  pub diagnostics : Diagnostics
  pub locks : Locks
  pub once_used : OnceUsed
  pub database : D

abbrev pub server_status_in_trans : ℕ
server_status_in_trans = 0x0001

abbrev pub server_status_autocommit : ℕ
server_status_autocommit = 0x0002

-- `flags&mask != 0`, `flags | mask` and `flags &^ mask` for a mask of one bit.
unfoldable pub has_flag : ℕ → ℕ → Bool
has_flag mask flags = (flags / mask) % 2 == 1

unfoldable pub set_flag : ℕ → ℕ → ℕ
unfolding has_flag
set_flag mask flags = if has_flag mask flags then flags else flags + mask

unfoldable pub clear_flag : ℕ → ℕ → ℕ
unfolding has_flag
clear_flag mask flags = if has_flag mask flags then flags - mask else flags

abbrev pub with_flags : ℕ → Conn → Conn
with_flags flags c = record c { session = record c.session { status_flags = flags } }

abbrev pub no_effects : OkResult
no_effects = record { affected_rows = 0; last_insert_id = 0; warnings = 0 }
