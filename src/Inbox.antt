-- ===== src/Inbox.antt =====
-- How an inbound message is taken in once.
pub mod Processor
