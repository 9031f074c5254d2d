-- ===== src/Delegation.antt =====
-- internal/delegation: the evaluator of delegated access, the extraction of capabilities that it
-- reads, and the builder of the credentials that carry them.
pub mod Json
pub mod Temporal
pub mod Subject
pub mod Extract
pub mod Evaluate
pub mod Build
