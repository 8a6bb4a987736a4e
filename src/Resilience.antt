-- ===== src/Resilience.antt =====
-- src/core/resilience: the circuit breaker, the bulkhead and the gate that joins them.
pub mod Breaker
pub mod Bulkhead
pub mod Gate
