-- ===== src/Reconciler/Backoff.antt =====
-- retryBackoff of internal/reconciler/scanner_runtime.go. Floating-point arithmetic is a parameter:
-- nothing is assumed of it.
use komodor_security_reporte.Prelude.{◌-◌, Bool, if◌then◌else◌, arith}
use komodor_security_reporte.Prelude.Int.{ℤ, pos, pos_part, leb_ℤ, ltb_ℤ, ◌≤ℤ◌}
use komodor_security_reporte.Reconciler.Circuit.{RuntimePolicy}

pub record FloatOps (F : Type 0) : Type 0 where
  pub of_int : ℤ → F
  pub to_int : F → ℤ
  pub times : F → F → F
  pub pow : F → F → F
  pub is_below : F → F → Bool
  pub one : F

module _ {F : Type 0} (ops : FloatOps F) (policy : RuntimePolicy F) where
  abbrev multiplier : F
  multiplier =
      if ops.is_below policy.retry_multiplier ops.one then ops.one else policy.retry_multiplier

  unfoldable pub retry_backoff : ℤ → ℤ
  retry_backoff n =
      let attempt = if leb_ℤ n (pos 0) then pos 1 else n in
      let exponent = ops.of_int (pos (pos_part attempt - 1)) in
      let backoff =
        ops.to_int
          (ops.times (ops.of_int policy.retry_initial_backoff) (ops.pow multiplier exponent)) in
      if ltb_ℤ policy.retry_max_backoff backoff then policy.retry_max_backoff else backoff

  pub retry_backoff-le_max : (n : ℤ) → retry_backoff n ≤ℤ policy.retry_max_backoff
  unfolding retry_backoff
  retry_backoff-le_max n = let attempt = if leb_ℤ n (pos 0) then pos 1 else n in ground arith
