-- ===== src/Reconciler/Circuit/Invariant.antt =====
-- What holds of a circuit of scanner_runtime.go between two calls.
use komodor_security_reporte.Reconciler.Circuit.{
  RuntimePolicy, Circuit, closed, new_circuit, allow_circuit, succeed_circuit, fail_circuit, pos, ℕ,
}
use komodor_security_reporte.Prelude.{arith, ◌≡◌, ◌≢◌}
use komodor_security_reporte.Prelude.Int.{◌<ℤ◌, ◌≤ℤ◌}

-- config.Validate rejects the other policies.
pub record IsPositive {F : Type 0} (policy : RuntimePolicy F) : Type 0 where
  pub threshold : pos 0 <ℤ policy.failure_threshold
  pub probes : pos 0 <ℤ policy.half_open_max_requests
  pub opens_for : pos 0 <ℤ policy.open_duration

pub record IsConsistent {F : Type 0} (policy : RuntimePolicy F) (c : Circuit) : Type 0 where
  pub counted : pos 0 ≤ℤ c.consecutive_failures
  pub below : c.state ≡ closed → c.consecutive_failures <ℤ policy.failure_threshold
  pub tripped : c.state ≢ closed → c.consecutive_failures ≡ policy.failure_threshold
  pub slots : pos c.half_open_in_flight ≤ℤ policy.half_open_max_requests

module _ {F : Type 0} (policy : RuntimePolicy F) (positive : IsPositive policy) where
  pub new_circuit-IsConsistent : IsConsistent policy new_circuit
  new_circuit-IsConsistent = ground arith

  pub allow-IsConsistent :
      (now : ℕ) (c : Circuit)
      → IsConsistent policy c
      → IsConsistent policy (allow_circuit policy now c).0
  unfolding allow_circuit
  allow-IsConsistent now c h = ground arith

  pub succeed-IsConsistent :
      (c : Circuit) → IsConsistent policy c → IsConsistent policy (succeed_circuit policy c)
  unfolding succeed_circuit
  succeed-IsConsistent c h = ground arith

  pub fail-IsConsistent :
      (now : ℕ) (c : Circuit)
      → IsConsistent policy c
      → IsConsistent policy (fail_circuit policy now c)
  unfolding fail_circuit
  fail-IsConsistent now c h = ground arith
