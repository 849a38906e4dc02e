-- ===== src/Reconciler/Namespaces/Returned.antt =====
-- What has been reconciled when ReconcileAll of internal/reconciler/reconcile.go returns.
use komodor_security_reporte.Reconciler.Namespaces.Items.{SameItems, one, tally-one}
use komodor_security_reporte.Reconciler.Namespaces.Tallied.{
  all_workloads, left_of, pending_of, at_stand, Reach-IsTallied,
}
use komodor_security_reporte.Reconciler.Namespaces.{
  over, Worker, Workers, begin_namespaces, Reach, Cluster, Text, WorkloadInfo,
}
use komodor_security_reporte.Prelude.{
  ℕ, ◌+◌, ◌≡◌, true, List, [], ◌∷◌, tally, length, arith, refl, ap, ◌≤◌, Bool, subst,
}
use komodor_security_reporte.Reconciler.Namespaces.Awaited.{
  each, slot_of, Reach-IsCounted, Idle, asking,
}

no_workers : (ws : List Worker) → tally each ws ≡ 0 → ws ≡ []
no_workers [] e = refl
no_workers (w ∷ ws) e = absurd (omega (arith, e))

module _ (cluster : Cluster) (kinds exclude : List Text) (concurrency : ℕ) where
  -- All workloads of the namespaces that are not excluded.
  abbrev all : List Text → List (Text × WorkloadInfo)
  all = all_workloads cluster kinds exclude concurrency

  -- When ReconcileAll succeeds, the weight of what was reconciled is that of all workloads.
  weight_at_end :
      (w : Text × WorkloadInfo → ℕ) (namespaces : List Text) {s : Workers}
      → Reach cluster kinds exclude concurrency (begin_namespaces namespaces) s
      → s.place ≡ over true
      → s.workers ≡ []
      → (tally w s.reconciled ≡ tally w (all namespaces))
        × (s.total_workloads ≡ tally one (all namespaces))
        × (s.successes + s.errors ≡ length s.reconciled)
  weight_at_end w namespaces {s = s} run e idle =
      let tallied = Reach-IsTallied cluster kinds exclude concurrency w namespaces run in
      let (a, b) = at_stand cluster kinds exclude concurrency w _ _ s _ e tallied in
      (
        omega (arith, a, ap (tally (left_of cluster kinds exclude concurrency w)) idle),
        omega (arith, b, ap (tally (pending_of cluster kinds exclude concurrency)) idle),
        tallied.ended,
      )

  -- However the goroutines of the namespaces interleave: at most as many run at once as the
  -- semaphore has slots, and when ReconcileAll returns, also since the context is cancelled, no
  -- goroutine of a namespace is left, the semaphore and the wait group are empty and the gauge is at
  -- 0; and when it succeeds, reconcileWorkload has returned once for each workload of a namespace
  -- that is not excluded, of a kind that can be listed, and for no other, and the counters of
  -- successes and errors together and totalWorkloads have the number of these workloads. The scans
  -- that a cancelled workload leaves running are not among these goroutines.
  pub reconcile_all-awaits :
      (namespaces : List Text) {s : Workers}
      → Reach cluster kinds exclude concurrency (begin_namespaces namespaces) s
      → (tally slot_of s.workers ≤ concurrency)
        × ((ok : Bool)
            → s.place ≡ over ok
            → (s.workers ≡ []) × (s.slots ≡ 0) × (s.group ≡ 0) × (s.queue_depth ≡ 0))
        × (s.place ≡ over true
            → SameItems s.reconciled (all_workloads cluster kinds exclude concurrency namespaces)
              × (s.successes + s.errors ≡ length s.reconciled)
              × (s.total_workloads ≡ length s.reconciled))
  reconcile_all-awaits namespaces {s = s} run =
      let c = Reach-IsCounted cluster kinds exclude concurrency namespaces run in
      let idle = λ (ok : Bool) (e : s.place ≡ over ok).
        no_workers s.workers (omega (arith, c.members, subst (λ p. Idle p s.group) e c.idle)) in
      (
        omega (arith, c.slots, c.bounded),
        λ ok e. (
          idle ok e,
          omega (arith, c.slots, ap (tally slot_of) (idle ok e)),
          subst (λ p. Idle p s.group) e c.idle,
          omega (arith, c.queue, ap asking e),
        ),
        λ e.
            let (same, number, ended) = weight_at_end one namespaces run e (idle true e) in
            (
              λ w. (weight_at_end w namespaces run e (idle true e)).0,
              ended,
              omega (arith, same, number, tally-one s.reconciled),
            ),
      )
