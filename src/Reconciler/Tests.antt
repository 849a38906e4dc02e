-- ===== src/Reconciler/Tests.antt =====
-- Runs of the breaker and of executions, with a threshold of two failures and one slot.
mod Handling
mod Pooled
mod Namespaced
mod Persisted
use komodor_security_reporte.Prelude.{
  ℕ, ◌≡◌, ◌≢◌, ◌↔◌, ◌⊎◌, ◌<◌, ◌≤◌, ◌+◌, ◌-◌, refl, arith, Bool, true, false, some, none, Option,
  List, [], ◌∷◌, All, leb, if◌then◌else◌,
}
use komodor_security_reporte.Prelude.Int.{ℤ, pos, ◌≤ℤ◌}
use komodor_security_reporte.Prelude.Text.{Text, codes, text_eq}
use komodor_security_reporte.Prelude.Dict.{Dict, lookup, put}
use komodor_security_reporte.Scanners.Result.{ScanResult}
use komodor_security_reporte.Reconciler.Circuit.{
  RuntimePolicy, Circuit, Breaker, closed, open_circuit, half_open, new_circuit, get_or_create,
  allow_circuit, succeed_circuit, fail_circuit,
}
use komodor_security_reporte.Reconciler.Circuit.Invariant.{IsPositive}
use komodor_security_reporte.Reconciler.Circuit.Trip.{
  Outcome, succeeded, failed_at, report_all, HasStreak, trips_exactly,
}
use komodor_security_reporte.Reconciler.Circuit.Keyed.{
  Call, allow_call, failure_call, success_call, call_all, AllConsistent, call_all-AllConsistent,
  run_circuit, call_all-run_circuit,
}
use komodor_security_reporte.Reconciler.Circuit.Probes.{allow_all}
use komodor_security_reporte.Reconciler.Errors.{
  GoError, canceled, deadline_exceeded, permanent, circuit_open, is_retryable_scanner_error,
  classify_scanner_error,
}
use komodor_security_reporte.Reconciler.Backoff.{FloatOps}
use komodor_security_reporte.Reconciler.Resilience.{
  RuntimeState, Environment, scan_ok, scan_failed, scanned, failed, failed_unexpectedly,
  circuit_is_open, no_report, run_attempts, max_attempts, execute_scanner_with_resilience,
}
use komodor_security_reporte.Reconciler.Resilience.Attempts.{attempts_bounded}
use komodor_security_reporte.Reconciler.Resilience.Success.{SucceedsAt, scanned_exactly}
use komodor_security_reporte.Reconciler.Resilience.Slots.{
  ProbeEnd, execute_outcome, execute_probe, execute_loses_slot,
}

-- The floating-point numbers of the examples are integers.
abbrev pub integer_ops : FloatOps ℤ
integer_ops = record {
  of_int = λ n. n;
  to_int = λ n. n;
  times = λ a b. a;
  pow = λ a b. a;
  is_below = λ a b. false;
  one = pos 1;
}

abbrev pub policy : RuntimePolicy ℤ
policy = record {
  timeout = pos 100;
  retry_max_attempts = pos 2;
  retry_initial_backoff = pos 3;
  retry_max_backoff = pos 5;
  retry_multiplier = pos 2;
  failure_threshold = pos 2;
  open_duration = pos 10;
  half_open_max_requests = pos 1;
}

policy-IsPositive : IsPositive policy
policy-IsPositive = record {
  threshold = omega arith;
  probes = omega arith;
  opens_for = omega arith;
}

abbrev outcomes : List Outcome
outcomes = failed_at 1 ∷ succeeded ∷ failed_at 2 ∷ failed_at 3 ∷ []

trips_exactly_example :
    ((report_all policy outcomes new_circuit).state ≡ open_circuit) ↔ HasStreak 2 outcomes
trips_exactly_example = trips_exactly policy 2 refl outcomes (omega arith)

abbrev calls : List Call
calls =
    allow_call 1 (codes "trivy")
    ∷ failure_call 2 (codes "trivy")
    ∷ allow_call 3 (codes "snyk")
    ∷ failure_call 4 (codes "trivy")
    ∷ success_call (codes "snyk")
    ∷ []

call_all-AllConsistent_example : AllConsistent policy (call_all policy calls [])
call_all-AllConsistent_example = call_all-AllConsistent policy calls policy-IsPositive

call_all-run_circuit_example :
    get_or_create (codes "snyk") (call_all policy calls [])
    ≡ run_circuit policy (codes "snyk") calls (get_or_create (codes "snyk") [])
call_all-run_circuit_example = call_all-run_circuit policy calls [] (codes "snyk")

abbrev probing : Circuit
probing = record {
  state = half_open;
  consecutive_failures = pos 2;
  opened_at = 4;
  half_open_in_flight = 0;
}

abbrev pub empty_result : ScanResult
empty_result = record {
  scanner = codes "trivy";
  image = record {
    original = codes "app";
    registry = codes "docker.io";
    repository = codes "library/app";
    tag = codes "latest";
    digest = codes "sha256:ab";
    resolved = codes "docker.io/library/app:latest";
  };
  scanned_at = 1000;
  summary = record { critical = 1; high = 0; medium = 0; low = 0; unknown = 0 };
  findings = [];
  report_url = [];
  sbom_url = [];
}

-- The first scan is cancelled, the second succeeds.
abbrev pub recovering : Environment
recovering = record {
  scan =
      λ timeout attempt. if leb attempt 1 then scan_failed canceled 7 else scan_ok empty_result 9;
  sleep = λ attempt d. none;
  now_allow = 20;
  now_failure = 30;
  others = λ s. s;
}

-- The sleep is interrupted.
abbrev interrupted : Environment
interrupted = record recovering { sleep = λ attempt d. some canceled }

scanned_exactly_example :
    ((run_attempts integer_ops policy [] recovering (codes "trivy") (max_attempts policy) 1).outcome
      ≡ scanned empty_result)
    ↔ ((k : ℕ) × SucceedsAt integer_ops policy [] recovering
          (codes "trivy")
          (max_attempts policy)
          1
          k
          empty_result)
scanned_exactly_example =
    scanned_exactly integer_ops policy [] recovering (codes "trivy") empty_result

attempts_bounded_example :
    (0
      < (run_attempts integer_ops policy [] recovering
          (codes "trivy")
          (max_attempts policy)
          1).scans)
    × ((run_attempts integer_ops policy [] recovering (codes "trivy") (max_attempts policy) 1).scans
        ≤ max_attempts policy)
    × ((run_attempts integer_ops policy [] recovering
          (codes "trivy")
          (max_attempts policy)
          1).outcome
        ≢ failed permanent failed_unexpectedly)
    × All
        (λ d. d ≤ℤ pos 5)
        (run_attempts integer_ops policy [] recovering
          (codes "trivy")
          (max_attempts policy)
          1).sleeps
attempts_bounded_example = attempts_bounded integer_ops policy [] recovering (codes "trivy")

abbrev with_circuit : Circuit → RuntimeState
with_circuit c = record { breaker = (codes "trivy", c) ∷ []; circuit_metric = [] }

abbrev opened : Circuit
opened = record probing { state = open_circuit }

execute_probe_example :
    ProbeEnd integer_ops policy [] recovering
      (codes "trivy")
      (execute_scanner_with_resilience integer_ops policy [] recovering
        (codes "trivy")
        (with_circuit probing)).1.outcome
      (get_or_create (codes "trivy") (with_circuit probing).breaker)
      (get_or_create
        (codes "trivy")
        (execute_scanner_with_resilience integer_ops policy [] recovering
          (codes "trivy")
          (with_circuit probing)).0.breaker)
unfolding get_or_create lookup text_eq allow_circuit
execute_probe_example =
    execute_probe integer_ops policy [] recovering (codes "trivy") (with_circuit probing)
      (λ s. refl) refl refl

execute_loses_slot_example :
    allow_all policy (100 ∷ 200 ∷ []) (
      get_or_create
        (codes "trivy")
        (execute_scanner_with_resilience integer_ops policy [] interrupted
          (codes "trivy")
          (with_circuit opened)).0.breaker)
    ≡ (
      get_or_create
          (codes "trivy")
          (execute_scanner_with_resilience integer_ops policy [] interrupted
            (codes "trivy")
            (with_circuit opened)).0.breaker,
      0,
    )
unfolding get_or_create lookup text_eq run_attempts max_attempts is_retryable_scanner_error
    classify_scanner_error
execute_loses_slot_example =
    execute_loses_slot integer_ops policy [] interrupted (codes "trivy") (with_circuit opened)
      (100 ∷ 200 ∷ []) (λ s. refl) refl refl refl refl
