-- ===== src/Outbox.antt =====
-- The recoverable delivery: the outbox and dead-letter tables, the retry delays, the worker that
-- empties the outbox, and the recovery after a crash.
pub mod Entry
pub mod Backoff
pub mod Table
pub mod Worker
