-- ===== src/Reconciler/Resilience.antt =====
-- executeScannerWithResilience of internal/reconciler/scanner_runtime.go.
pub mod Attempts
pub mod Success
pub mod Slots
use komodor_security_reporte.Reconciler.Circuit.{
  RuntimePolicy, Breaker, CircuitState, allow, on_success, on_failure, circuit_state,
}
use komodor_security_reporte.Reconciler.Errors.{
  GoError, ErrorClass, classify_scanner_error, is_retryable_scanner_error, transient, permanent,
  circuit_open,
}
use komodor_security_reporte.Reconciler.Backoff.{FloatOps, retry_backoff}
use komodor_security_reporte.Scanners.Result.{ScanResult}
use Prim.Native.Nat.{ℕ, suc}
use komodor_security_reporte.Prelude.{
  Option, List, [], if◌then◌else◌, ◌+◌, ◌∷◌, not, some, none, ◌||◌, ◌==◌, zero,
}
use komodor_security_reporte.Prelude.Dict.{Dict, lookup, put}
use komodor_security_reporte.Prelude.Int.{ℤ, leb_ℤ, ltb_ℤ, pos, pos_part}
use komodor_security_reporte.Prelude.Text.{Text}

-- One call of `Scan`, with the nanoseconds that it took.
pub data ScanOutcome : Type 0 where
  scan_ok : ScanResult → ℕ → ScanOutcome
  scan_failed : GoError → ℕ → ScanOutcome

-- What the rest of the world does in one execution: the scanner at each attempt under a timeout,
-- the interruptible sleep after each attempt, the clock, and what the goroutines of other scans do
-- to the breaker and its metric meanwhile.
pub record RuntimeState : Type 0 where
  pub breaker : Breaker
  pub circuit_metric : Dict CircuitState

pub record Environment : Type 0 where
  pub scan : Option ℤ → ℕ → ScanOutcome
  pub sleep : ℕ → ℤ → Option GoError
  pub now_allow : ℕ
  pub now_failure : ℕ
  pub others : RuntimeState → RuntimeState

-- The error, with its class.
pub data ExecError : Type 0 where
  circuit_is_open : ExecError
  failed_after : ℕ → GoError → ExecError
  backoff_interrupted : GoError → ExecError
  failed_unexpectedly : ExecError

pub data ExecOutcome : Type 0 where
  scanned : ScanResult → ExecOutcome
  failed : ErrorClass → ExecError → ExecOutcome

-- What the attempts report to the breaker.
pub data Report : Type 0 where
  report_success report_failure no_report : Report

pub record Run : Type 0 where
  pub outcome : ExecOutcome
  pub report : Report
  pub duration : ℕ
  pub sleeps : List ℤ
  pub scans : ℕ

abbrev pub stop : ExecOutcome → Report → ℕ → Run
stop outcome report duration = record {
  outcome = outcome;
  report = report;
  duration = duration;
  sleeps = [];
  scans = 1;
}

-- A retry: one scan and one sleep before the run that follows.
abbrev pub after_retry : ℕ → ℤ → Run → Run
after_retry duration slept run = record run {
  duration = duration + run.duration;
  sleeps = slept ∷ run.sleeps;
  scans = suc run.scans;
}

module _ {F : Type 0} (policy : RuntimePolicy F) (timeouts : Dict ℤ) where
  unfoldable pub timeout_for_scanner : Text → ℤ
  timeout_for_scanner name = elim (lookup name timeouts) [ none ↦ policy.timeout | some d ↦ d ]

  -- `context.WithTimeout` is used for a positive timeout only.
  unfoldable pub scan_timeout : Text → Option ℤ
  unfolding timeout_for_scanner
  scan_timeout name =
      if ltb_ℤ (pos 0) (timeout_for_scanner name) then some (timeout_for_scanner name) else none

-- The number of attempts.
unfoldable pub max_attempts : {F : Type 0} → RuntimePolicy F → ℕ
max_attempts policy =
    if leb_ℤ policy.retry_max_attempts (pos 0) then 1 else pos_part policy.retry_max_attempts

module _ {F : Type 0} (ops : FloatOps F) (policy : RuntimePolicy F) (timeouts : Dict ℤ) where
  module _ (env : Environment) (name : Text) where
    -- The loop, with the attempts that are left and the number of the next one.
    unfoldable pub run_attempts : ℕ → ℕ → Run
    run_attempts zero attempt = record {
      outcome = failed permanent failed_unexpectedly;
      report = no_report;
      duration = 0;
      sleeps = [];
      scans = 0;
    }
    run_attempts (suc left) attempt =
        let rest = run_attempts left (suc attempt) in
        elim (env.scan (scan_timeout policy timeouts name) attempt) [
          | scan_ok result d ↦ stop (scanned result) report_success d
          | scan_failed e d ↦
              let class = classify_scanner_error e in
              let backoff = retry_backoff ops policy (pos attempt) in
              if not (is_retryable_scanner_error class) || left == 0
              then stop (failed class (failed_after attempt e)) report_failure d
              else elim (env.sleep attempt backoff) [
                | none ↦ after_retry d backoff rest
                | some e' ↦ record (stop (failed transient (backoff_interrupted e')) no_report d) {
                  sleeps = backoff ∷ [];
                }
              ]
        ]

    unfoldable pub update_circuit_state_metric : RuntimeState → RuntimeState
    update_circuit_state_metric s =
        let (b, state) = circuit_state name s.breaker in
        record { breaker = b; circuit_metric = put name state s.circuit_metric }

    unfoldable pub settle : Report → RuntimeState → RuntimeState
    unfolding update_circuit_state_metric
    settle report_success s =
        update_circuit_state_metric (record s { breaker = on_success policy name s.breaker })
    settle report_failure s =
        update_circuit_state_metric
          (record s { breaker = on_failure policy env.now_failure name s.breaker })
    settle no_report s = s

    abbrev refused : Run
    refused = record {
      outcome = failed circuit_open circuit_is_open;
      report = no_report;
      duration = 0;
      sleeps = [];
      scans = 0;
    }

    unfoldable pub execute_scanner_with_resilience : RuntimeState → RuntimeState × Run
    unfolding run_attempts settle max_attempts
    execute_scanner_with_resilience s =
        let (b, allowed) = allow policy env.now_allow name s.breaker in
        let admitted = update_circuit_state_metric (record s { breaker = b }) in
        let run = run_attempts (max_attempts policy) 1 in
        if allowed then (settle run.report (env.others admitted), run) else (admitted, refused)
