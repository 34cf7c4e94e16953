-- ===== src/Prepared.antt =====
-- Prepared statements (pkg/mysqlmock/prepared.go).
pub mod Placeholders
pub mod Decode
pub mod Arguments
pub mod Encode
pub mod RoundTrip
pub mod Execute
pub mod NullBits
pub mod BinaryRow
pub mod Statements
pub mod Queries
