-- ===== src/Config/Validate.antt =====
-- Config.Validate of internal/config/config.go, with what it calls.
pub mod Policy
use komodor_security_reporte.Prelude.{
  Option, none, some, Bool, true, false, List, [], ◌∷◌, if◌then◌else◌, ◌||◌, ◌&&◌, not,
}
use komodor_security_reporte.Prelude.Text.{Text, codes, text_eq, is_empty}
use komodor_security_reporte.Prelude.Int.{ℤ, pos, leb_ℤ, ltb_ℤ}
use komodor_security_reporte.Config.Mode.{
  is_valid_publishing_mode, publish_to_komodor, publish_to_events, normalize_state_backend,
}
use komodor_security_reporte.Config.Runtime.{
  Floats, BackpressureConfig, ScannerRuntimeConfig, effective_scanner_runtime_config,
}

pub record NamedScanner : Type 0 where
  pub name : Text
  pub type : Text

pub record ScannersConfig (F : Type 0) : Type 0 where
  pub concurrency : ℤ
  pub namespace_concurrency : ℤ
  pub runtime : ScannerRuntimeConfig F
  pub backpressure : BackpressureConfig F
  pub scanners : List NamedScanner

-- The settings that are validated.
pub record Config (F : Type 0) : Type 0 where
  pub cluster_name : Text
  pub kinds : List Text
  pub scanners : ScannersConfig F
  pub state_backend : Text
  pub state_ttl : ℤ
  pub publishing_mode : Text
  pub komodor_base_url : Text

-- The errors, by the setting that is wrong.
pub data ConfigError : Type 0 where
  no_cluster_name no_kinds no_scanners bad_concurrency bad_namespace_concurrency : ConfigError
  bad_error_rate bad_min_rps bad_max_rps bad_rps_order : ConfigError
  bad_timeout bad_max_attempts bad_initial_backoff bad_max_backoff bad_multiplier : ConfigError
  bad_failure_threshold bad_open_duration bad_half_open_max_requests : ConfigError
  no_scanner_name no_scanner_type : ConfigError
  bad_ttl bad_state_backend bad_mode no_publisher no_base_url : ConfigError
  unsupported_kind : Text → ConfigError

-- The first error of two steps, one after the other.
unfoldable pub and_then : Option ConfigError → Option ConfigError → Option ConfigError
and_then none next = next
and_then (some e) next = some e

-- A step `if c { return error }`.
abbrev pub reject_if : Bool → ConfigError → Option ConfigError
reject_if true e = some e
reject_if false e = none

unfoldable pub is_supported_kind : Text → Bool
is_supported_kind kind =
    text_eq kind (codes "Deployment")
    || text_eq kind (codes "StatefulSet")
    || text_eq kind (codes "DaemonSet")
    || text_eq kind (codes "Job")
    || text_eq kind (codes "CronJob")

unfoldable pub check_kinds : List Text → Option ConfigError
unfolding is_supported_kind and_then
check_kinds [] = none
check_kinds (kind ∷ kinds) =
    and_then (reject_if (not (is_supported_kind kind)) (unsupported_kind kind)) (check_kinds kinds)

unfoldable pub validate_workload_kinds : List Text → Option ConfigError
unfolding check_kinds
validate_workload_kinds [] = some no_kinds
validate_workload_kinds (kind ∷ kinds) = check_kinds (kind ∷ kinds)

unfoldable pub check_scanners : List NamedScanner → Option ConfigError
unfolding and_then
check_scanners [] = none
check_scanners (s ∷ ss) =
    and_then (reject_if (is_empty s.name) no_scanner_name)
      (and_then (reject_if (is_empty s.type) no_scanner_type) (check_scanners ss))

abbrev has_no_scanners : List NamedScanner → Bool
has_no_scanners [] = true
has_no_scanners (s ∷ ss) = false

unfoldable pub validate_state_backend : Text → Option ConfigError
unfolding normalize_state_backend
validate_state_backend backend =
    let b = normalize_state_backend backend in
    if text_eq b (codes "configmap")
    then none
    else if text_eq b (codes "memory")
    then none
    else if text_eq b (codes "redis")
    then none
    else reject_if (not (text_eq b (codes "memcache"))) bad_state_backend

module _ {F : Type 0} (floats : Floats F) where
  abbrev is_negative : F → Bool
  is_negative x = floats.less x floats.zero

  abbrev is_positive : F → Bool
  is_positive x = floats.less floats.zero x

  abbrev not_positive : ℤ → Bool
  not_positive n = leb_ℤ n (pos 0)

  unfoldable pub validate_backpressure : BackpressureConfig F → Option ConfigError
  unfolding and_then
  validate_backpressure bp =
      and_then
        (reject_if
          (is_negative bp.error_rate_threshold || floats.less floats.one bp.error_rate_threshold)
          bad_error_rate)
        (and_then (reject_if (is_negative bp.min_rps) bad_min_rps) (
          and_then (reject_if (is_negative bp.max_rps) bad_max_rps) (
            reject_if
              (is_positive bp.min_rps
                && (is_positive bp.max_rps && floats.less bp.max_rps bp.min_rps))
              bad_rps_order)))

  -- The tests of the effective runtime settings.
  unfoldable pub validate_runtime : ScannerRuntimeConfig F → Option ConfigError
  unfolding and_then
  validate_runtime runtime = and_then (reject_if (not_positive runtime.timeout) bad_timeout) (
      and_then (reject_if (not_positive runtime.retry.max_attempts) bad_max_attempts) (
        and_then (reject_if (not_positive runtime.retry.initial_backoff) bad_initial_backoff) (
          and_then (reject_if (not_positive runtime.retry.max_backoff) bad_max_backoff) (
            and_then
              (reject_if (floats.less runtime.retry.backoff_multiplier floats.one) bad_multiplier)
              (and_then
                (reject_if (not_positive runtime.circuit_breaker.failure_threshold)
                  bad_failure_threshold)
                (and_then
                  (reject_if (not_positive runtime.circuit_breaker.open_duration) bad_open_duration)
                  (reject_if (not_positive runtime.circuit_breaker.half_open_max_requests)
                    bad_half_open_max_requests)))))))

  unfoldable pub validate_scanners : ScannersConfig F → Option ConfigError
  unfolding and_then validate_backpressure validate_runtime effective_scanner_runtime_config
      check_scanners
  validate_scanners s = and_then (reject_if (has_no_scanners s.scanners) no_scanners) (
      and_then (reject_if (not_positive s.concurrency) bad_concurrency) (
        and_then (reject_if (ltb_ℤ s.namespace_concurrency (pos 0)) bad_namespace_concurrency) (
          and_then (validate_backpressure s.backpressure) (
            and_then (validate_runtime (effective_scanner_runtime_config floats s.runtime))
              (check_scanners s.scanners)))))

  -- The checks that follow those of the scanners.
  unfoldable pub validate_outputs : Config F → Option ConfigError
  unfolding and_then validate_state_backend is_valid_publishing_mode publish_to_komodor
      publish_to_events
  validate_outputs c = and_then (reject_if (not_positive c.state_ttl) bad_ttl) (
      and_then (validate_state_backend c.state_backend) (
        and_then (reject_if (not (is_valid_publishing_mode c.publishing_mode)) bad_mode) (
          and_then
            (reject_if (publish_to_komodor c.publishing_mode && is_empty c.komodor_base_url)
              no_base_url)
            (reject_if
              (not (publish_to_komodor c.publishing_mode)
                && not (publish_to_events c.publishing_mode))
              no_publisher))))

  unfoldable pub validate : Config F → Option ConfigError
  unfolding and_then validate_workload_kinds validate_scanners validate_outputs
  validate c = and_then (reject_if (is_empty c.cluster_name) no_cluster_name) (
      and_then (validate_workload_kinds c.kinds)
        (and_then (validate_scanners c.scanners) (validate_outputs c)))
