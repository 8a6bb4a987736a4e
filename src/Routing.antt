-- ===== src/Routing.antt =====
-- How an inbound message reaches the worker of its conversation: the deduplication, the table of
-- routes with a bounded queue for each, and the collection of idle routes.
pub mod Channel
pub mod Routes
pub mod Dispatch
pub mod Inbound
