-- ===== src/Reconciler/Resilience/Attempts.antt =====
-- The retry loop of executeScannerWithResilience.
use komodor_security_reporte.Reconciler.Circuit.{RuntimePolicy}
use komodor_security_reporte.Reconciler.Errors.{
  GoError, classify_scanner_error, is_retryable_scanner_error, permanent, transient,
}
use komodor_security_reporte.Reconciler.Backoff.{FloatOps, retry_backoff, retry_backoff-le_max}
use komodor_security_reporte.Reconciler.Resilience.{
  Environment, scan_ok, scan_failed, Run, scanned, failed, failed_unexpectedly, run_attempts,
  scan_timeout, max_attempts, report_success, report_failure, no_report, backoff_interrupted, Dict,
  ℤ, Text, ScanOutcome, ℕ, ScanResult, suc, stop, failed_after, pos, after_retry,
}
use komodor_security_reporte.Prelude.{
  inl, ◌<◌, ◌≡◌, arith, inr, true, ◌≤◌, ◌⊎◌, Bool-cases, refl, ◌≢◌, false, none, ◌==◌, ==_iff, All,
  Option-cases, ◌∷◌, [], some, zero, ◌-◌,
}
use komodor_security_reporte.Prelude.Int.{◌≤ℤ◌}

module _ {F : Type 0} (ops : FloatOps F) (policy : RuntimePolicy F) (timeouts : Dict ℤ)
    (env : Environment) (name : Text) where
  -- The attempt failed with an error that is worth a retry, and the sleep after it was not
  -- interrupted.
  pub record Retried (attempt : ℕ) : Type 0 where
    pub error : GoError
    pub took : ℕ
    pub failure : env.scan (scan_timeout policy timeouts name) attempt ≡ scan_failed error took
    pub retryable : is_retryable_scanner_error (classify_scanner_error error) ≡ true
    pub slept : env.sleep attempt (retry_backoff ops policy (pos attempt)) ≡ none

  abbrev run_from : ℕ → ℕ → Run
  run_from = run_attempts ops policy timeouts env name

  pub scan-cases :
      (o : ScanOutcome)
      → ((result : ScanResult) × (d : ℕ) × (o ≡ scan_ok result d))
        ⊎ ((e : GoError) × (d : ℕ) × (o ≡ scan_failed e d))
  scan-cases (scan_ok result d) = inl (result, d, refl)
  scan-cases (scan_failed e d) = inr (e, d, refl)

  -- What a round of the loop does.
  pub data Round (left attempt : ℕ) : Type 0 where
    succeeds :
        (result : ScanResult) (d : ℕ)
        → env.scan (scan_timeout policy timeouts name) attempt ≡ scan_ok result d
        → run_from (suc left) attempt ≡ stop (scanned result) report_success d
        → Round left attempt
    gives_up :
        (e : GoError) (d : ℕ)
        → run_from (suc left) attempt
          ≡ stop (failed (classify_scanner_error e) (failed_after attempt e)) report_failure d
        → env.scan (scan_timeout policy timeouts name) attempt ≡ scan_failed e d
        → (is_retryable_scanner_error (classify_scanner_error e) ≡ false) ⊎ (left ≡ 0)
        → Round left attempt
    interrupted :
        (e e' : GoError) (d : ℕ)
        → run_from (suc left) attempt
          ≡ record (stop (failed transient (backoff_interrupted e')) no_report d) {
            sleeps = retry_backoff ops policy (pos attempt) ∷ [];
          }
        → env.scan (scan_timeout policy timeouts name) attempt ≡ scan_failed e d
        → env.sleep attempt (retry_backoff ops policy (pos attempt)) ≡ some e'
        → 0 < left
        → Round left attempt
    retries :
        (retried : Retried attempt)
        → 0 < left
        → run_from (suc left) attempt
          ≡ after_retry retried.took
              (retry_backoff ops policy (pos attempt))
              (run_from left (suc attempt))
        → Round left attempt

  pub round : (left attempt : ℕ) → Round left attempt
  unfolding run_attempts
  round left attempt = elim (scan-cases (env.scan (scan_timeout policy timeouts name) attempt)) [
    | inl (result, d, e) ↦ succeeds result d e (rw (e, run_attempts))
    | inr (err, d, e) ↦
        elim (Bool-cases (is_retryable_scanner_error (classify_scanner_error err))) [
          | inr no_retry ↦ gives_up err d (rw (e, run_attempts) (rw no_retry)) e (inl no_retry)
          | inl retry ↦ elim (Bool-cases (left == 0)) [
            | inl last ↦
                gives_up err d (rw (e, run_attempts) (rw (retry, last))) e
                  (inr ((==_iff left 0).0 last))
            | inr more ↦
                elim (Option-cases (env.sleep attempt (retry_backoff ops policy (pos attempt)))) [
                  | inl slept ↦
                      retries
                        (record {
                          error = err;
                          took = d;
                          failure = e;
                          retryable = retry;
                          slept = slept;
                        })
                        (ground arith) (rw (e, run_attempts) (rw (retry, more) (rw slept)))
                  | inr (e', woken) ↦
                      interrupted err e' d (rw (e, run_attempts) (rw (retry, more) (rw woken))) e
                        woken (ground arith)
                ]
          ]
        ]
  ]

  -- What holds of the run of a loop with attempts left.
  record IsBounded (left : ℕ) (run : Run) : Type 0 where
    some_scan : 0 < run.scans
    few_scans : run.scans ≤ left
    expected : run.outcome ≢ failed permanent failed_unexpectedly
    capped : All (λ d. d ≤ℤ policy.retry_max_backoff) run.sleeps

  -- The rounds that end the loop.
  last_round :
      (left attempt : ℕ)
      → IsBounded (suc left) (run_from (suc left) attempt)
        ⊎ ((retried : Retried attempt) × (0 < left)
            × (run_from (suc left) attempt
                ≡ after_retry retried.took
                    (retry_backoff ops policy (pos attempt))
                    (run_from left (suc attempt))))
  last_round left attempt = elim (round left attempt) [
    | succeeds result d e r ↦ inl (
        rw r (record {
          some_scan = omega arith;
          few_scans = omega arith;
          expected = λ x. cc;
          capped = tt;
        }))
    | gives_up e d r f why ↦ inl (
        rw r (record {
          some_scan = omega arith;
          few_scans = omega arith;
          expected = λ x. cc;
          capped = tt;
        }))
    | interrupted e e' d r f woken more ↦ inl (
        rw r (record {
          some_scan = omega arith;
          few_scans = omega arith;
          expected = λ x. cc;
          capped = (retry_backoff-le_max ops policy (pos attempt), tt);
        }))
    | retries retried more r ↦ inr (retried, more, r)
  ]

  run_from-IsBounded : (left attempt : ℕ) → IsBounded (suc left) (run_from (suc left) attempt)
  run_from-IsBounded zero attempt = elim (last_round zero attempt) [
    | inl done ↦ done
    | inr (retried, more, r) ↦ absurd (omega arith)
  ]
  run_from-IsBounded (suc left) attempt = elim (last_round (suc left) attempt) [
    | inl done ↦ done
    | inr (retried, more, r) ↦
        let rest = run_from-IsBounded left (suc attempt) in
        rw r (record {
          some_scan = omega arith;
          few_scans = omega (arith, rest.few_scans);
          expected = rest.expected;
          capped = (retry_backoff-le_max ops policy (pos attempt), rest.capped);
        })
  ]

  max_attempts_pos : 0 < max_attempts policy
  unfolding max_attempts
  max_attempts_pos = ground arith

  -- The loop makes at least one scan and at most the configured attempts, sleeps at most the
  -- maximal backoff each time, and never falls out of its end.
  pub attempts_bounded :
      let run = run_from (max_attempts policy) 1 in
      (0 < run.scans)
      × (run.scans ≤ max_attempts policy)
      × (run.outcome ≢ failed permanent failed_unexpectedly)
      × All (λ d. d ≤ℤ policy.retry_max_backoff) run.sleeps
  attempts_bounded =
      let m = max_attempts policy in
      let e : m ≡ suc (m - 1) = omega (arith, max_attempts_pos) in
      let b : IsBounded m (run_from m 1) = rw e (run_from-IsBounded (m - 1) 1) in
      (b.some_scan, b.few_scans, b.expected, b.capped)
