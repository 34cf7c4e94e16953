-- ===== src/Stores.antt =====
-- The server's stores behind a mutex (pkg/mysqlmock/server_state.go): each method is one critical
-- section, so calls of several connections are one sequence of these steps.
pub mod Locks
pub mod Diagnostics
