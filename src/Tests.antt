-- ===== src/Tests.antt =====
-- Concrete runs: each theorem of the development at an input of its own.
pub mod Fixtures
pub mod Wire
pub mod Statements
pub mod Rules
pub mod Stores
pub mod Texts
pub mod Connections
pub mod Sessions
pub mod Counters
pub mod Configurations
