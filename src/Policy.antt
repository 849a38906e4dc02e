-- ===== src/Policy.antt =====
-- Package internal/policy: fingerprints of scan results, and the decision to publish.
pub mod Evaluator
pub mod Stability
mod Tests
