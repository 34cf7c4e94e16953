-- ===== src/Lib.antt =====
-- Verification of mysqlmock: a server that speaks the MySQL protocol, answers statements by
-- configured rules or from an SQLite database, and is used in tests.
--
-- A client's packets are read and answered by a connection (pkg/mysqlmock/protocol.go). A
-- statement is first offered to the rules; what no rule answers is translated and run by SQLite.
-- Rows go out as text or, for prepared statements, in the binary encoding.
--
-- The files, and the code that each models:
--
--   Base, Map          shared: numbers, lists, byte strings, integers, numerals; Go's maps as
--                      association lists, with their laws
--   Errors, Value      errors as values; the dynamic values (`any`) of rows and parameters
--   Codec              pkg/mysqlmock/protocol_codec.go and prepared.go: appendUint16,
--                      appendLenEncInt, readLenEncInt, readLenEncBytes
--   Rows               protocol_codec.go: columnDefinition, textRow, appendTextValueForColumn,
--                      textValueForColumn, mysqlFieldType; the field types of protocol.go
--   Packet             protocol_codec.go: readPacket, writePacket, packetBuffer. The connection is
--                      a record of bytes to come, bytes sent and the faults of the coming writes;
--                      a method is a function from it to a result and the connection that is left
--   Response           protocol_codec.go: writeOK, writeEOF, writeErr, writeResultSet
--   Scanner            pkg/mysqlmock/sqlscanner.go; topLevelEqualIndex of protocol.go
--   Prepared           pkg/mysqlmock/prepared.go: Placeholders (countPlaceholders), Decode and
--                      Arguments (decodeExecuteArgs), Encode (binaryRow), Statements (the handlers
--                      of the commands), Queries (handleStmtExecute, writeBinaryResultSet)
--   Stores             pkg/mysqlmock/server_state.go: the advisory locks and the diagnostics. Each
--                      method holds the store's mutex throughout, so that calls are one sequence
--   Cache              pkg/mysqlmock/sql_translation_cache.go: cacheStore, translateSQLCached
--   Rules              pkg/mysqlmock/rules.go: prepareRule, matchRule, executeRule,
--                      buildRuleResultSet, the response profiles, validateRuleConfig
--   Stats              pkg/mysqlmock/stats.go: the counters and the timing buckets, one step for
--                      each recording method, and the snapshot; Kinds (queryKindFromNormalizedSQL)
--   Config             pkg/mysqlmock/config.go: the types and DefaultConfig, Defaults (applyDefaults),
--                      Validate
--   Connection         pkg/mysqlmock/protocol.go: Handshake (writeHandshake,
--                      readHandshakeResponse), Variables (SET, SELECT @@, SHOW VARIABLES), Routes and
--                      Routing (executeQuery), Transactions and Writes (its branches that change the
--                      database), Sqlite (execSQLite), Logging (logQuery, recordUnsupported, also of
--                      server.go), Query (handleQuery), Serve (serve); Classify and CreateDatabase
--                      for the tests of statements in active_record_compat.go,
--                      information_schema.go and ddl_compat.go
--   Tests              concrete runs
--
-- The connection and the server's stores (statistics, diagnostics, locks, once-rules, the database)
-- are one state, which a statement takes and gives back; an error is a value beside the state, so
-- that what was changed before it stays changed. Each connection is modelled by itself: what other
-- connections do between two statements is not.
--
-- The modules below a component hold the theorems about it. Records and clauses follow the
-- structs and the branches of the source; fields and functions keep their names in lower case.
-- Byte strings are lists of numbers below 256 as the source's texts are; functions that look at
-- runes (strings.ToLower, unicode.IsSpace, strings.EqualFold) are modelled on ASCII.
--
-- Numbers of w bits are natural numbers with the wrap-around written out where the source's
-- arithmetic can wrap: sequence numbers of packets modulo 256, statement identifiers modulo 2^32,
-- counters modulo 2^64.
--
-- Fuel: the loops that scan a text and jump over quotes, comments and statements take the length of
-- the text as fuel, since every step moves forward. The loop of a connection takes one more than the
-- number of bytes that are to come, since every command takes a packet; a loop that ran out of it would come to nothing. All other
-- loops are structural.
--
-- Parameters: what Go's runtime does with floats, times and regular expressions, the texts of
-- Go's errors, when a context ends, filepath.Ext, and, as the record Connection.Backend, what
-- SQLite answers, the translation of SQL for it, and the tasks that ask SQLite for its tables
-- (SHOW TABLES, the information schema, upserts and the compatibility of DDL).
--
-- Not modelled: reading the files of the configuration and of seeds, the information schema,
-- SQLite and the translation of SQL for it, the command line, the timing of statements and of
-- their phases (how a timing is counted is modelled), and the text of the log. The order in
-- which Go walks a map is that of the association list.
pub mod Base
pub mod Connection
pub mod Config
pub mod Errors
pub mod Codec
pub mod Value
pub mod Rows
pub mod Packet
pub mod Response
pub mod Scanner
pub mod Prepared
pub mod Map
pub mod Stats
pub mod Stores
pub mod Cache
pub mod Rules
pub mod Tests
