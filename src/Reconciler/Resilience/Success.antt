-- ===== src/Reconciler/Resilience/Success.antt =====
-- When the retry loop of executeScannerWithResilience returns a result.
use komodor_security_reporte.Reconciler.Circuit.{RuntimePolicy}
use komodor_security_reporte.Reconciler.Backoff.{FloatOps}
use komodor_security_reporte.Reconciler.Resilience.{
  Environment, scan_ok, Run, scanned, run_attempts, scan_timeout, max_attempts, Dict, ℤ, Text, ℕ,
  ScanResult, suc,
}
use komodor_security_reporte.Prelude.{◌<◌, ◌≡◌, arith, zero, ◌+◌, ap, subst, ◌↔◌, sym, ◌∙◌}
use komodor_security_reporte.Reconciler.Resilience.Attempts.{
  Retried, round, succeeds, gives_up, interrupted, retries,
}

module _ {F : Type 0} (ops : FloatOps F) (policy : RuntimePolicy F) (timeouts : Dict ℤ)
    (env : Environment) (name : Text) where
  abbrev run_from : ℕ → ℕ → Run
  run_from = run_attempts ops policy timeouts env name

  -- The scan succeeds at this attempt, and every earlier one is retried.
  abbrev pub SucceedsAt : ℕ → ℕ → ℕ → ScanResult → Type 0
  SucceedsAt left first k result =
      (k < left)
      × ((j : ℕ) → j < k → (Retried ops policy timeouts env name) (first + j))
      × ((d : ℕ) × (env.scan (scan_timeout policy timeouts name) (first + k) ≡ scan_ok result d))

  shift : (first j : ℕ) → suc first + j ≡ first + suc j
  shift first j = omega arith

  Retried-later :
      (first k : ℕ)
      → (Retried ops policy timeouts env name) first
      → ((j : ℕ) → j < k → (Retried ops policy timeouts env name) (suc first + j))
      → (j : ℕ) → j < suc k
      → (Retried ops policy timeouts env name) (first + j)
  Retried-later first k now later zero lt =
      subst (Retried ops policy timeouts env name) (omega arith) now
  Retried-later first k now later (suc j) lt =
      subst (Retried ops policy timeouts env name) (shift first j) (later j (omega arith))

  abbrev ScansAt : ℕ → ScanResult → ℕ → Type 0
  ScansAt n result d = env.scan (scan_timeout policy timeouts name) n ≡ scan_ok result d

  outcome_of : {r r' : Run} → r ≡ r' → r.outcome ≡ r'.outcome
  outcome_of e = ap (λ (r : Run). r.outcome) e

  run_from_scanned :
      (left first : ℕ) (result : ScanResult)
      → (run_from left first).outcome ≡ scanned result
      → (k : ℕ) × SucceedsAt left first k result
  unfolding run_attempts
  run_from_scanned zero first result h = cc
  run_from_scanned (suc left) first result h =
      elim (round ops policy timeouts env name left first) [
        | succeeds found d e r ↦
            let now : ScansAt first result d = cc (e, h) in
            (
              0,
              (
                omega arith,
                (λ j lt. absurd (omega arith)),
                (d, subst (λ n. ScansAt n result d) (omega arith) now),
              ),
            )
        | gives_up e d r f why ↦ cc (r, h)
        | interrupted e e' d r f woken more ↦ cc (r, h)
        | retries retried more r ↦
            let (k, s) = run_from_scanned left (suc first) result (sym (outcome_of r) ∙ h) in
            (
              suc k,
              (
                omega arith,
                Retried-later first k retried s.1,
                (s.2.0, subst (λ n. ScansAt n result s.2.0) (shift first k) s.2.1),
              ),
            )
      ]

  -- An attempt that is retried leads into the rest of the loop.
  Retried-round :
      (left first : ℕ)
      → (Retried ops policy timeouts env name) first
      → 0 < left
      → (run_from (suc left) first).outcome ≡ (run_from left (suc first)).outcome
  unfolding run_attempts
  Retried-round left first t more =
      rw (t.failure, run_attempts) (rw (t.retryable, t.slept) (ground arith))

  scanned_run_from :
      (left first k : ℕ) (result : ScanResult)
      → SucceedsAt left first k result
      → (run_from left first).outcome ≡ scanned result
  scanned_run_from zero first k result s = absurd (omega (arith, s.0))
  scanned_run_from (suc left) first zero result s =
      let now : ScansAt first result s.2.0 =
        subst (λ n. ScansAt n result s.2.0) (omega arith) s.2.1 in
      unfold run_attempts in rw (now, run_attempts)
  scanned_run_from (suc left) first (suc k) result s =
      let zeroth : first + 0 ≡ first = omega arith in
      let now : (Retried ops policy timeouts env name) first =
        subst (Retried ops policy timeouts env name) zeroth (s.1 0 (omega (arith, s.0))) in
      Retried-round left first now (omega (arith, s.0))
      ∙ scanned_run_from left (suc first) k result (
        omega (arith, s.0),
        (λ j lt.
            subst (Retried ops policy timeouts env name) (sym (shift first j))
              (s.1 (suc j) (omega arith))),
        (s.2.0, subst (λ n. ScansAt n result s.2.0) (sym (shift first k)) s.2.1),
      )

  -- The loop returns a scan result exactly when some attempt within the configured number gives it,
  -- after earlier attempts that all failed retryably with undisturbed sleeps.
  pub scanned_exactly :
      (result : ScanResult)
      → ((run_from (max_attempts policy) 1).outcome ≡ scanned result)
        ↔ ((k : ℕ) × SucceedsAt (max_attempts policy) 1 k result)
  scanned_exactly result = (
    run_from_scanned (max_attempts policy) 1 result,
    λ (k, s). scanned_run_from (max_attempts policy) 1 k result s,
  )
