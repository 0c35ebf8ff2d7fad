-- ===== src/Database.antt =====
-- internal/database: transactions that begin with the first statement, and the interceptor that
-- ends them after each call.
pub mod Tx
pub mod View
pub mod Triple
pub mod Interceptor
pub mod Atomic
