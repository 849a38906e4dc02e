-- ===== src/Config/Validate/Policy.antt =====
-- What a valid configuration gives the circuit breaker and the retries of
-- internal/reconciler/scanner_runtime.go.
use komodor_security_reporte.Prelude.{◌≡◌, refl, Option, none, some, arith, ◌<◌, true}
use komodor_security_reporte.Prelude.Int.{pos, leb_ℤ, ◌<ℤ◌, pos_part}
use komodor_security_reporte.Config.Runtime.{
  Floats, ScannerRuntimeConfig, effective_scanner_runtime_config, new_scanner_runtime_policy,
}
use komodor_security_reporte.Config.Validate.{
  Config, ConfigError, validate, validate_scanners, validate_runtime, and_then, reject_if, is_empty,
  no_cluster_name, validate_workload_kinds, validate_outputs, ltb_ℤ, bad_namespace_concurrency,
  validate_backpressure, check_scanners, has_no_scanners, no_scanners, bad_concurrency, Bool, false,
}
use komodor_security_reporte.Reconciler.Circuit.Invariant.{IsPositive}
use komodor_security_reporte.Reconciler.Circuit.{RuntimePolicy}

second_none : (a b : Option ConfigError) → and_then a b ≡ none → b ≡ none
unfolding and_then
second_none none b h = h
second_none (some e) b h = ground arith

third_none :
    (a b c d : Option ConfigError) → and_then a (and_then b (and_then c d)) ≡ none → c ≡ none
unfolding and_then
third_none none none none d h = refl
third_none none none (some e) d h = h
third_none none (some e) c d h = ground arith
third_none (some e) b c d h = ground arith

-- The timeout, the attempts and the backoffs are positive.
pub record HasPositiveDelays {F : Type 0} (policy : RuntimePolicy F) : Type 0 where
  pub timeout : pos 0 <ℤ policy.timeout
  pub attempts : pos 0 <ℤ policy.retry_max_attempts
  pub initial_backoff : pos 0 <ℤ policy.retry_initial_backoff
  pub max_backoff : pos 0 <ℤ policy.retry_max_backoff

not_rejected :
    (b : Bool) (e : ConfigError) (rest : Option ConfigError)
    → and_then (reject_if b e) rest ≡ none
    → b ≡ false
unfolding and_then
not_rejected true e rest h = cc
not_rejected false e rest h = refl

module _ {F : Type 0} (floats : Floats F) where
  -- A valid configuration has room for a scan.
  pub valid_room : (c : Config F) → validate floats c ≡ none → 0 < pos_part c.scanners.concurrency
  unfolding validate validate_scanners
  valid_room c h =
      let s = c.scanners in
      let scanners : validate_scanners floats s ≡ none =
        third_none (reject_if (is_empty c.cluster_name) no_cluster_name)
          (validate_workload_kinds c.kinds) (validate_scanners floats s) (validate_outputs floats c)
          h in
      let positive =
        not_rejected (leb_ℤ s.concurrency (pos 0)) bad_concurrency _
          (second_none (reject_if (has_no_scanners s.scanners) no_scanners) _ scanners) in
      ground arith

  runtime_of_valid :
      (c : Config F)
      → validate floats c ≡ none
      → validate_runtime floats (effective_scanner_runtime_config floats c.scanners.runtime) ≡ none
  unfolding validate validate_scanners
  runtime_of_valid c h =
      let s = c.scanners in
      let scanners : validate_scanners floats s ≡ none =
        third_none (reject_if (is_empty c.cluster_name) no_cluster_name)
          (validate_workload_kinds c.kinds) (validate_scanners floats s) (validate_outputs floats c)
          h in
      let concurrency = reject_if (leb_ℤ s.concurrency (pos 0)) bad_concurrency in
      let runtime = validate_runtime floats (effective_scanner_runtime_config floats s.runtime) in
      let bounds =
        and_then (reject_if (ltb_ℤ s.namespace_concurrency (pos 0)) bad_namespace_concurrency) (
          and_then (validate_backpressure floats s.backpressure)
            (and_then runtime (check_scanners s.scanners))) in
      third_none (reject_if (ltb_ℤ s.namespace_concurrency (pos 0)) bad_namespace_concurrency)
        (validate_backpressure floats s.backpressure) runtime (check_scanners s.scanners)
        (second_none concurrency bounds (
          second_none (reject_if (has_no_scanners s.scanners) no_scanners)
            (and_then concurrency bounds) scanners))

  module _ (runtime : ScannerRuntimeConfig F) (h : validate_runtime floats runtime ≡ none) where
    timeout-positive : pos 0 <ℤ runtime.timeout
    unfolding validate_runtime
    timeout-positive = ground arith

    attempts-positive : pos 0 <ℤ runtime.retry.max_attempts
    unfolding validate_runtime
    attempts-positive = ground arith

    initial_backoff-positive : pos 0 <ℤ runtime.retry.initial_backoff
    unfolding validate_runtime
    initial_backoff-positive = ground arith

    max_backoff-positive : pos 0 <ℤ runtime.retry.max_backoff
    unfolding validate_runtime
    max_backoff-positive = ground arith

    failure_threshold-positive : pos 0 <ℤ runtime.circuit_breaker.failure_threshold
    unfolding validate_runtime
    failure_threshold-positive = ground arith

    open_duration-positive : pos 0 <ℤ runtime.circuit_breaker.open_duration
    unfolding validate_runtime
    open_duration-positive = ground arith

    probes-positive : pos 0 <ℤ runtime.circuit_breaker.half_open_max_requests
    unfolding validate_runtime
    probes-positive = ground arith

  -- A configuration that Validate accepts gives the runtime a policy whose failure threshold,
  -- number of probes and open duration are positive, and its timeout, attempts and backoffs too.
  pub valid-IsPositive :
      (c : Config F)
      → validate floats c ≡ none
      → IsPositive (new_scanner_runtime_policy floats c.scanners.runtime)
        × HasPositiveDelays (new_scanner_runtime_policy floats c.scanners.runtime)
  unfolding new_scanner_runtime_policy
  valid-IsPositive c h =
      let runtime = effective_scanner_runtime_config floats c.scanners.runtime in
      let valid = runtime_of_valid c h in
      (
        record {
          threshold = failure_threshold-positive runtime valid;
          probes = probes-positive runtime valid;
          opens_for = open_duration-positive runtime valid;
        },
        record {
          timeout = timeout-positive runtime valid;
          attempts = attempts-positive runtime valid;
          initial_backoff = initial_backoff-positive runtime valid;
          max_backoff = max_backoff-positive runtime valid;
        },
      )
