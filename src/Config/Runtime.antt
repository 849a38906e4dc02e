-- ===== src/Config/Runtime.antt =====
-- The runtime settings of the scanners of internal/config/config.go, with their defaults, and
-- newScannerRuntimePolicy of internal/reconciler/scanner_runtime.go. A duration is in nanoseconds.
use komodor_security_reporte.Prelude.{Bool, if◌then◌else◌, ◌*◌, ℕ}
use komodor_security_reporte.Prelude.Int.{ℤ, pos, eqb_ℤ, leb_ℤ}
use komodor_security_reporte.Reconciler.Circuit.{RuntimePolicy}

-- The floating-point constants and tests of the code: `less` is `<`, `equals` is `==`.
pub record Floats (F : Type 0) : Type 0 where
  pub zero : F
  pub half : F
  pub one : F
  pub two : F
  pub hundred : F
  pub equals : F → F → Bool
  pub less : F → F → Bool

pub record ScannerRetryConfig (F : Type 0) : Type 0 where
  pub max_attempts : ℤ
  pub initial_backoff : ℤ
  pub max_backoff : ℤ
  pub backoff_multiplier : F

pub record ScannerCircuitConfig : Type 0 where
  pub failure_threshold : ℤ
  pub open_duration : ℤ
  pub half_open_max_requests : ℤ

pub record ScannerRuntimeConfig (F : Type 0) : Type 0 where
  pub timeout : ℤ
  pub retry : ScannerRetryConfig F
  pub circuit_breaker : ScannerCircuitConfig

pub record BackpressureConfig (F : Type 0) : Type 0 where
  pub error_rate_threshold : F
  pub min_rps : F
  pub max_rps : F

abbrev second : ℕ
second = 1000000000

abbrev pub default_scanner_runtime_timeout : ℤ
default_scanner_runtime_timeout = pos (300 * second)

abbrev pub default_scanner_retry_max_attempts : ℕ
default_scanner_retry_max_attempts = 3

abbrev pub default_scanner_retry_initial_backoff : ℤ
default_scanner_retry_initial_backoff = pos second

abbrev pub default_scanner_retry_max_backoff : ℤ
default_scanner_retry_max_backoff = pos (10 * second)

abbrev pub default_scanner_circuit_failure_threshold : ℕ
default_scanner_circuit_failure_threshold = 3

abbrev pub default_scanner_circuit_open_duration : ℤ
default_scanner_circuit_open_duration = pos (120 * second)

abbrev pub default_scanner_circuit_half_open_max_requests : ℕ
default_scanner_circuit_half_open_max_requests = 1

abbrev pub default_namespace_concurrency : ℕ
default_namespace_concurrency = 4

-- A setting that is zero takes its default.
abbrev pub or_default : ℤ → ℤ → ℤ
or_default default n = if eqb_ℤ n (pos 0) then default else n

module _ {F : Type 0} (floats : Floats F) where
  abbrev pub float_or_default : F → F → F
  float_or_default default x = if floats.equals x floats.zero then default else x

  unfoldable pub effective_scanner_runtime_config : ScannerRuntimeConfig F → ScannerRuntimeConfig F
  effective_scanner_runtime_config runtime = record {
    timeout = or_default default_scanner_runtime_timeout runtime.timeout;
    retry = record {
      max_attempts = or_default (pos default_scanner_retry_max_attempts) runtime.retry.max_attempts;
      initial_backoff =
          or_default default_scanner_retry_initial_backoff runtime.retry.initial_backoff;
      max_backoff = or_default default_scanner_retry_max_backoff runtime.retry.max_backoff;
      backoff_multiplier = float_or_default floats.two runtime.retry.backoff_multiplier;
    };
    circuit_breaker = record {
      failure_threshold =
          or_default (pos default_scanner_circuit_failure_threshold)
            runtime.circuit_breaker.failure_threshold;
      open_duration =
          or_default default_scanner_circuit_open_duration runtime.circuit_breaker.open_duration;
      half_open_max_requests =
          or_default (pos default_scanner_circuit_half_open_max_requests)
            runtime.circuit_breaker.half_open_max_requests;
    };
  }

  unfoldable pub effective_backpressure : BackpressureConfig F → BackpressureConfig F
  effective_backpressure bp = record {
    error_rate_threshold = float_or_default floats.half bp.error_rate_threshold;
    min_rps = float_or_default floats.one bp.min_rps;
    max_rps = float_or_default floats.hundred bp.max_rps;
  }

  unfoldable pub new_scanner_runtime_policy : ScannerRuntimeConfig F → RuntimePolicy F
  unfolding effective_scanner_runtime_config
  new_scanner_runtime_policy runtime =
      let effective = effective_scanner_runtime_config runtime in
      record {
        timeout = effective.timeout;
        retry_max_attempts = effective.retry.max_attempts;
        retry_initial_backoff = effective.retry.initial_backoff;
        retry_max_backoff = effective.retry.max_backoff;
        retry_multiplier = effective.retry.backoff_multiplier;
        failure_threshold = effective.circuit_breaker.failure_threshold;
        open_duration = effective.circuit_breaker.open_duration;
        half_open_max_requests = effective.circuit_breaker.half_open_max_requests;
      }

-- EffectiveScannersConfig, for the number of namespaces that are processed at a time.
unfoldable pub effective_namespace_concurrency : ℤ → ℤ
effective_namespace_concurrency n = if leb_ℤ n (pos 0) then pos default_namespace_concurrency else n
