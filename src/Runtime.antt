-- ===== src/Runtime.antt =====
-- packages/observe-core/src/observe_core: the emission runtime's components.
pub mod Canonical
pub mod Tail
pub mod Worker
pub mod Sampling
pub mod Capture
pub mod Deliver
pub mod Spool
pub mod Redaction
pub mod Identifiers
pub mod Aggregate
pub mod Contracts
mod Tests
