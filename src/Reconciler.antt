-- ===== src/Reconciler.antt =====
-- Package internal/reconciler: the circuit breaker, retries, and the handling of scan results.
pub mod Circuit
pub mod Errors
pub mod Backoff
pub mod Resilience
pub mod Handle
pub mod Images
pub mod Workload
pub mod Pool
pub mod Namespaces
mod Tests
