-- ===== src/Pipeline.antt =====
-- src/core/pipeline: the chain of middleware that a message goes through.
pub mod Chain
pub mod RateLimit
pub mod Reply
pub mod Limited
