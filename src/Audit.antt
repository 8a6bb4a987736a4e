-- ===== src/Audit.antt =====
-- src/domain/services/audit_chain.rs and src/adapters/sqlite_audit.rs: the hash chain of the audit
-- log. SHA-256 is the `sha2` crate's, a parameter: a function on byte strings.
pub mod Chain
pub mod Sink
