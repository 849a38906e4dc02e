-- ===== src/Reconciler/Pool/Abandoned.antt =====
-- The scans that are running when reconcileWorkload of internal/reconciler/reconcile.go returns
-- since the context is cancelled.
use komodor_security_reporte.Reconciler.Pool.{
  here, Pool, admitted, returned, give_up, return_cancelled, cancel, return_early, Reach, next,
  begin_workload, Setup, Text, WorkloadInfo, Progress, Job, ExtractedImage, backpressure_wait,
}
use komodor_security_reporte.Prelude.{ℕ, ◌≡◌, some, arith, refl, ap, List}
use komodor_security_reporte.Reconciler.Pool.Counted.{
  weigh, slot, any_stage, Reach-IsCounted, held, joined,
}

module _ {F S : Type 0} (r : Setup F S) (ns : Text) (wl : WorkloadInfo) (concurrency : ℕ) where
  -- Wherever the backpressure can fail, it makes reconcileWorkload return with every scan that it
  -- has started as it is, whether it has ended or not, and with the error of the backpressure, also
  -- when a scan has failed before.
  pub reconcile_workload-abandons :
      (origin : Progress S) {p : Pool S} (job : Job) (imgs : List ExtractedImage) (jobs : List Job)
      → Reach r ns wl concurrency (begin_workload r ns wl origin) p
      → p.phase ≡ admitted job imgs jobs
      → (q : Pool S) × Reach r ns wl concurrency p q
        × (q.phase ≡ returned (some backpressure_wait))
        × (q.flights ≡ p.flights)
        × (q.progress ≡ p.progress)
        × (q.tokens ≡ weigh slot q.flights)
        × (q.group ≡ weigh any_stage q.flights)
  unfolding give_up return_cancelled
  reconcile_workload-abandons origin {p = p} job imgs jobs run at_head =
      let c = Reach-IsCounted r ns wl concurrency origin run in
      (
        return_cancelled (give_up p),
        next (next here (cancel job imgs jobs at_head refl))
            (return_early refl (omega (arith, c.slots, ap held at_head)) refl),
        refl,
        refl,
        refl,
        omega (arith, c.slots, ap held at_head),
        omega (arith, c.members, ap joined at_head),
      )
