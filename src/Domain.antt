-- ===== src/Domain.antt =====
-- src/domain: messages and the keys that route them, the reorder window and the conversation.
pub mod Message
pub mod Btree
pub mod Reorder
pub mod Conversation
