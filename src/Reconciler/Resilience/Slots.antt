-- ===== src/Reconciler/Resilience/Slots.antt =====
-- What an execution leaves in the circuit of its scanner: which of them give a probe's slot back.
use komodor_security_reporte.Reconciler.Circuit.{
  RuntimePolicy, Circuit, closed, open_circuit, half_open, get_or_create, allow_circuit, allow,
  circuit_state, Breaker, on_success, succeed_circuit, fail_circuit, on_failure,
}
use komodor_security_reporte.Reconciler.Circuit.Keyed.{get_or_create-put}
use komodor_security_reporte.Reconciler.Circuit.Probes.{allow_all, allow_all_full}
use komodor_security_reporte.Reconciler.Resilience.Attempts.{
  round, succeeds, gives_up, interrupted, retries,
}
use komodor_security_reporte.Reconciler.Backoff.{FloatOps}
use komodor_security_reporte.Reconciler.Resilience.{
  Environment, RuntimeState, Run, run_attempts, max_attempts, execute_scanner_with_resilience,
  report_success, report_failure, no_report, circuit_is_open, Dict, ℤ, Text, failed, circuit_open,
  Report, ExecOutcome, scanned, failed_after, backoff_interrupted, failed_unexpectedly, refused,
  settle, update_circuit_state_metric, put, pos, ltb_ℤ,
}
use komodor_security_reporte.Prelude.{
  ◌≡◌, false, true, Bool, List, ◌∙◌, ◌⊎◌, Bool-cases, ap, sym, subst, zero, suc, ℕ, ◌+◌, ◌-◌, inl,
  inr, refl, arith,
}
use komodor_security_reporte.Prelude.Text.{text_eq_refl}
use komodor_security_reporte.Prelude.Int.{sub_ℕ}

module _ {F : Type 0} (ops : FloatOps F) (policy : RuntimePolicy F) (timeouts : Dict ℤ)
    (env : Environment) (name : Text) where
  abbrev execute : RuntimeState → RuntimeState × Run
  execute = execute_scanner_with_resilience ops policy timeouts env name

  abbrev circuit_of : RuntimeState → Circuit
  circuit_of s = get_or_create name s.breaker

  abbrev attempts : Run
  attempts = run_attempts ops policy timeouts env name (max_attempts policy) 1

  abbrev run_from : ℕ → ℕ → Run
  run_from = run_attempts ops policy timeouts env name

  -- What a report does to the circuit.
  unfoldable pub settle_circuit : Report → Circuit → Circuit
  settle_circuit report_success c = succeed_circuit policy c
  settle_circuit report_failure c = fail_circuit policy env.now_failure c
  settle_circuit no_report c = c

  get_or_create-put_self : (c : Circuit) (b : Breaker) → get_or_create name (put name c b) ≡ c
  get_or_create-put_self c b = rw get_or_create-put (rw (text_eq_refl name))

  circuit_of-update :
      (s : RuntimeState)
      → circuit_of (update_circuit_state_metric ops policy timeouts env name s) ≡ circuit_of s
  unfolding update_circuit_state_metric circuit_state
  circuit_of-update s = get_or_create-put_self (circuit_of s) s.breaker

  circuit_of-settle :
      (report : Report) (s : RuntimeState)
      → circuit_of (settle ops policy timeouts env name report s)
        ≡ settle_circuit report (circuit_of s)
  unfolding settle settle_circuit on_success on_failure update_circuit_state_metric
  circuit_of-settle report_success s =
      circuit_of-update (record s { breaker = on_success policy name s.breaker })
      ∙ get_or_create-put_self (succeed_circuit policy (circuit_of s)) s.breaker
  circuit_of-settle report_failure s =
      circuit_of-update (record s { breaker = on_failure policy env.now_failure name s.breaker })
      ∙ get_or_create-put_self (fail_circuit policy env.now_failure (circuit_of s)) s.breaker
  circuit_of-settle no_report s = refl

  abbrev allowed_circuit : RuntimeState → Circuit × Bool
  allowed_circuit s = allow_circuit policy env.now_allow (circuit_of s)

  -- The state in which the scan starts, or in which it is refused.
  abbrev admitted : RuntimeState → RuntimeState
  admitted s =
      update_circuit_state_metric ops policy timeouts env name
        (record s { breaker = (allow policy env.now_allow name s.breaker).0 })

  circuit_of-admitted : (s : RuntimeState) → circuit_of (admitted s) ≡ (allowed_circuit s).0
  circuit_of-admitted s =
      circuit_of-update _ ∙ unfold allow in get_or_create-put_self (allowed_circuit s).0 s.breaker

  execute_allowed :
      (s : RuntimeState)
      → (allowed_circuit s).1 ≡ true
      → execute s
        ≡ (settle ops policy timeouts env name attempts.report (env.others (admitted s)), attempts)
  unfolding execute_scanner_with_resilience allow
  execute_allowed s h = rw h

  execute_not_allowed :
      (s : RuntimeState)
      → (allowed_circuit s).1 ≡ false
      → execute s ≡ (admitted s, refused ops policy timeouts env name)
  unfolding execute_scanner_with_resilience allow
  execute_not_allowed s h = rw h

  -- An execution that the breaker refuses calls no scanner and fails with the class of an open
  -- circuit, and the circuit is left as `allow` left it; any other returns what its attempts give.
  pub execute_outcome :
      (s : RuntimeState)
      → (((allowed_circuit s).1 ≡ true) × ((execute s).1 ≡ attempts))
        ⊎ (((allowed_circuit s).1 ≡ false)
            × ((execute s).1.outcome ≡ failed circuit_open circuit_is_open)
            × ((execute s).1.scans ≡ 0)
            × (circuit_of (execute s).0 ≡ (allowed_circuit s).0))
  execute_outcome s = elim (Bool-cases (allowed_circuit s).1) [
    | inl admits ↦ inl (admits, rw (execute_allowed s admits))
    | inr refusal ↦ inr (
      refusal,
      rw (execute_not_allowed s refusal),
      rw (execute_not_allowed s refusal),
      rw (execute_not_allowed s refusal) (circuit_of-admitted s),
    )
  ]

  -- The other goroutines leave the circuit of this scanner alone meanwhile.
  abbrev pub IsQuiet : Type 0
  IsQuiet = (s : RuntimeState) → circuit_of (env.others s) ≡ circuit_of s

  circuit_of-execute :
      (s : RuntimeState)
      → IsQuiet
      → (allowed_circuit s).1 ≡ true
      → circuit_of (execute s).0 ≡ settle_circuit attempts.report (allowed_circuit s).0
  circuit_of-execute s quiet h = rw (execute_allowed s h) (
      circuit_of-settle attempts.report (env.others (admitted s))
      ∙ ap (settle_circuit attempts.report) (quiet (admitted s) ∙ circuit_of-admitted s))

  -- What the breaker is to hear of an execution: of a result, of an error that stands, and nothing
  -- of a backoff that was interrupted.
  abbrev due : ExecOutcome → Report
  due (scanned result) = report_success
  due (failed class (failed_after attempt e)) = report_failure
  due (failed class _) = no_report

  -- The attempts report what is due.
  reported :
      (left attempt : ℕ) → (run_from left attempt).report ≡ due (run_from left attempt).outcome
  unfolding run_attempts
  reported zero attempt = refl
  reported (suc left) attempt = elim (round ops policy timeouts env name left attempt) [
    | succeeds result d called e ↦ rw e refl
    | gives_up err d e called because ↦ rw e refl
    | interrupted err err' d e called woken more ↦ rw e refl
    | retries retried more e ↦ rw e (reported left (suc attempt))
  ]

  -- What the outcome of an execution that took a slot makes of a half-open circuit.
  abbrev pub ProbeEnd : ExecOutcome → Circuit → Circuit → Type 0
  ProbeEnd (scanned result) before c =
      (c.state ≡ closed)
      × (c.half_open_in_flight ≡ before.half_open_in_flight)
      × (c.consecutive_failures ≡ pos 0)
  ProbeEnd (failed class (failed_after attempt e)) before c =
      (c.state ≡ open_circuit)
      × (c.half_open_in_flight ≡ before.half_open_in_flight)
      × (c.opened_at ≡ env.now_failure)
  ProbeEnd (failed class (backoff_interrupted e)) before c =
      (c.state ≡ half_open) × (c.half_open_in_flight ≡ before.half_open_in_flight + 1)
  ProbeEnd (failed class _) before c = ⊥

  -- No other error is that of an attempt.
  abbrev IsOfAttempt : ExecOutcome → Type 0
  IsOfAttempt (scanned result) = Unit
  IsOfAttempt (failed class (failed_after attempt e)) = Unit
  IsOfAttempt (failed class (backoff_interrupted e)) = Unit
  IsOfAttempt (failed class _) = ⊥

  ends_by_attempt : (left attempt : ℕ) → IsOfAttempt (run_from (suc left) attempt).outcome
  ends_by_attempt zero attempt = elim (round ops policy timeouts env name zero attempt) [
    | succeeds result d called e ↦ rw e tt
    | gives_up err d e called because ↦ rw e tt
    | interrupted err err' d e called woken more ↦ rw e tt
    | retries retried more e ↦ absurd (omega arith)
  ]
  ends_by_attempt (suc left) attempt =
      elim (round ops policy timeouts env name (suc left) attempt) [
        | succeeds result d called e ↦ rw e tt
        | gives_up err d e called because ↦ rw e tt
        | interrupted err err' d e called woken more ↦ rw e tt
        | retries retried more e ↦ rw e (ends_by_attempt left (suc attempt))
      ]

  one_attempt : (n : ℕ) × (max_attempts policy ≡ suc n)
  unfolding max_attempts
  one_attempt = (max_attempts policy - 1, ground arith)

  attempts_end : IsOfAttempt attempts.outcome
  attempts_end =
      subst (λ m. IsOfAttempt (run_from m 1).outcome) (sym one_attempt.1)
        (ends_by_attempt one_attempt.0 1)

  probe_end :
      (outcome : ExecOutcome) (c : Circuit)
      → IsOfAttempt outcome
      → c.state ≡ half_open
      → (allow_circuit policy env.now_allow c).1 ≡ true
      → ProbeEnd outcome c (settle_circuit (due outcome) (allow_circuit policy env.now_allow c).0)
  unfolding settle_circuit allow_circuit succeed_circuit fail_circuit
  probe_end (scanned result) c o h allowed = (ground arith, ground arith, ground arith)
  probe_end (failed class (failed_after attempt e)) c o h allowed =
      (ground arith, ground arith, ground arith)
  probe_end (failed class (backoff_interrupted e)) c o h allowed = (ground arith, ground arith)
  probe_end (failed class circuit_is_open) c o h allowed = o
  probe_end (failed class failed_unexpectedly) c o h allowed = o

  -- An execution in a half-open circuit that gets a slot, undisturbed by other goroutines: if it
  -- returns a result, the circuit is closed without failures; if it returns the error of its last
  -- attempt, the circuit is open since then; both give the slot back. The only other end is a backoff
  -- that was interrupted: then the circuit stays half open, and the slot stays taken.
  pub execute_probe :
      (s : RuntimeState)
      → IsQuiet
      → (circuit_of s).state ≡ half_open
      → (allowed_circuit s).1 ≡ true
      → ProbeEnd (execute s).1.outcome (circuit_of s) (circuit_of (execute s).0)
  execute_probe s quiet h allowed =
      let ended = reported (max_attempts policy) 1 in
      subst (λ run. ProbeEnd run.outcome (circuit_of s) (circuit_of (execute s).0))
        (sym (ap (λ r. r.1) (execute_allowed s allowed)))
        (rw (circuit_of-execute s quiet allowed)
          (rw ended (probe_end attempts.outcome (circuit_of s) attempts_end h allowed)))

  lost_slot :
      (c : Circuit)
      → policy.half_open_max_requests ≡ pos 1
      → c.state ≡ open_circuit
      → ltb_ℤ (sub_ℕ env.now_allow c.opened_at) policy.open_duration ≡ false
      → allow_circuit policy env.now_allow c
        ≡ (record c { state = half_open; half_open_in_flight = 1 }, true)
  unfolding allow_circuit
  lost_slot c one h passed = ground arith

  -- With one slot, an execution that starts in an open circuit whose duration has passed, and that
  -- reports nothing, leaves a circuit which refuses every later call, whenever it comes.
  pub execute_loses_slot :
      (s : RuntimeState) (times : List ℕ)
      → IsQuiet
      → policy.half_open_max_requests ≡ pos 1
      → (circuit_of s).state ≡ open_circuit
      → ltb_ℤ (sub_ℕ env.now_allow (circuit_of s).opened_at) policy.open_duration ≡ false
      → attempts.report ≡ no_report
      → allow_all policy times (circuit_of (execute s).0) ≡ (circuit_of (execute s).0, 0)
  unfolding settle_circuit
  execute_loses_slot s times quiet one h passed lost =
      let step = lost_slot (circuit_of s) one h passed in
      let left = record (circuit_of s) { state = half_open; half_open_in_flight = 1 } in
      let end : circuit_of (execute s).0 ≡ left =
        circuit_of-execute s quiet (rw step) ∙ (rw lost (rw step)) in
      rw end (allow_all_full policy 1 times left one refl (omega arith))
