-- ===== src/Reconciler/Pool/Ends.antt =====
-- That reconcileWorkload of internal/reconciler/reconcile.go ends, however the scans interleave.
use komodor_security_reporte.Reconciler.Pool.{
  Pool, Stage, Phase, looping, queued, admitted, giving_up, waiting, returned, scanning, closing,
  releasing, leaving, Flight, prepare_image, enqueue_scan, acquire_token, start_scan, give_up,
  return_cancelled, complete_scan, lower_gauge, release_token, leave_group, Step, prepare, enqueue,
  acquire, start, cancel, return_early, drain, return_late, scan, lower, release, leave, Reach,
  here, next, begin_workload, Setup, Text, WorkloadInfo, ExtractedImage, Job, Progress, Run,
  WorkloadError, from_pod_spec,
}
use komodor_security_reporte.Prelude.{
  ℕ, ◌+◌, ◌<◌, ◌≤◌, ◌≡◌, ◌⊎◌, inl, inr, Option, List, [], ◌∷◌, length, arith, refl, ap, ◌*◌,
}
use komodor_security_reporte.Reconciler.Pool.Counted.{
  IsCounted, weigh, slot, weigh-start, held, weigh-move, any_stage, weigh_left, joined,
  Reach-IsCounted,
}
use komodor_security_reporte.Reconciler.Pool.Finished.{todo-prepare, todo}
use komodor_security_reporte.Reconciler.Workload.Dispatched.{wanted_jobs}
use komodor_security_reporte.Reconciler.Resilience.{stop, failed, circuit_is_open, no_report}
use komodor_security_reporte.Reconciler.Errors.{permanent}

-- The steps that a goroutine has still to make.
abbrev pub stage_cost : Stage → ℕ
stage_cost scanning = 4
stage_cost closing = 3
stage_cost releasing = 2
stage_cost leaving = 1

-- Something that an execution can give.
abbrev any_run : Run
any_run = stop (failed permanent circuit_is_open) no_report 0

module _ {F S : Type 0} (r : Setup F S) (ns : Text) (wl : WorkloadInfo) (concurrency : ℕ) where
  -- The steps that the loop has still to make at most, with those of the goroutines it starts.
  abbrev pub load : List ExtractedImage → List Job → ℕ
  load imgs jobs = length imgs + 7 * length (todo r ns wl concurrency imgs jobs)

  abbrev pub phase_cost : Phase → ℕ
  phase_cost (looping imgs jobs) = 2 + load imgs jobs
  phase_cost (queued job imgs jobs) = 8 + load imgs jobs
  phase_cost (admitted job imgs jobs) = 7 + load imgs jobs
  phase_cost giving_up = 1
  phase_cost waiting = 1
  phase_cost (returned result) = 0

  abbrev pub cost : Pool S → ℕ
  cost p = phase_cost p.phase + weigh stage_cost p.flights

  Step-cost : {p q : Pool S} → Step r ns wl concurrency p q → cost q < cost p
  unfolding prepare_image enqueue_scan acquire_token start_scan give_up return_cancelled lower_gauge
      release_token leave_group complete_scan
  Step-cost {p = p} (prepare img imgs at_head e) =
      rw (e, at_head) (omega (arith, ap length (todo-prepare r ns wl concurrency img imgs)))
  Step-cost {p = p} (enqueue job imgs jobs at_head e) = rw (e, at_head) (omega arith)
  Step-cost {p = p} (acquire job imgs jobs at_head room e) = rw (e, at_head) (omega arith)
  Step-cost {p = p} (start job imgs jobs at_head e) =
      rw (e, at_head) (omega (arith, weigh-start stage_cost job p))
  Step-cost (cancel job imgs jobs at_head e) = rw (e, at_head) (omega arith)
  Step-cost (return_early at_head room e) = rw (e, at_head) (omega arith)
  Step-cost (drain at_head e) = rw (e, at_head) (omega arith)
  Step-cost (return_late at_head zero e) = rw (e, at_head) (omega arith)
  Step-cost {p = p} (scan before after job run runtime stands e) =
      rw e (omega (arith, weigh-move stage_cost before after job scanning closing p stands))
  Step-cost {p = p} (lower before after job stands e) =
      rw e (omega (arith, weigh-move stage_cost before after job closing releasing p stands))
  Step-cost {p = p} (release before after job stands room e) =
      rw e (omega (arith, weigh-move stage_cost before after job releasing leaving p stands))
  Step-cost {p = p} (leave before after job stands e) =
      rw e (omega (arith, weigh_left stage_cost before after job leaving p stands))

  abbrev pub steps : {p q : Pool S} → Reach r ns wl concurrency p q → ℕ
  steps here = 0
  steps (next run step) = 1 + steps run

  steps-cost : {p q : Pool S} (run : Reach r ns wl concurrency p q) → steps run + cost q ≤ cost p
  steps-cost here = omega arith
  steps-cost (next run step) = omega (arith, steps-cost run, Step-cost step)

  abbrev pub CanStep : Pool S → Type 0
  CanStep p = (q : Pool S) × Step r ns wl concurrency p q

  abbrev pub IsDone : Pool S → Type 0
  IsDone p = (result : Option WorkloadError) × (p.phase ≡ returned result) × (p.flights ≡ [])

  -- The first goroutine can always go on.
  flight-step :
      (p : Pool S) (job : Job) (stage : Stage) (fs : List Flight)
      → IsCounted concurrency p
      → p.flights ≡ record { job = job; stage = stage } ∷ fs
      → CanStep p
  flight-step p job scanning fs c e = (_, scan [] fs job any_run p.progress.runtime e refl)
  flight-step p job closing fs c e = (_, lower [] fs job e refl)
  flight-step p job releasing fs c e =
      (_, release [] fs job e (omega (arith, c.slots, ap (weigh slot) e)) refl)
  flight-step p job leaving fs c e = (_, leave [] fs job e refl)

  -- With no goroutine left, the loop can.
  phase-step :
      (p : Pool S) (ph : Phase)
      → 0 < concurrency
      → IsCounted concurrency p
      → p.flights ≡ []
      → p.phase ≡ ph
      → CanStep p ⊎ IsDone p
  phase-step p (looping [] []) room c idle e = inl (_, drain e refl)
  phase-step p (looping (img ∷ imgs) []) room c idle e = inl (_, prepare img imgs e refl)
  phase-step p (looping imgs (job ∷ jobs)) room c idle e = inl (_, enqueue job imgs jobs e refl)
  phase-step p (queued job imgs jobs) room c idle e = inl (
    _,
    acquire job imgs jobs e (omega (arith, room, c.slots, ap (weigh slot) idle, ap held e)) refl,
  )
  phase-step p (admitted job imgs jobs) room c idle e = inl (_, start job imgs jobs e refl)
  phase-step p giving_up room c idle e =
      inl (_, return_early e (omega (arith, c.slots, ap held e)) refl)
  phase-step p waiting room c idle e =
      inl (_, return_late e (omega (arith, c.members, ap (weigh any_stage) idle, ap joined e)) refl)
  phase-step p (returned result) room c idle e = inr (result, e, idle)

  can_step :
      (p : Pool S) (fs : List Flight)
      → 0 < concurrency
      → IsCounted concurrency p
      → p.flights ≡ fs
      → CanStep p ⊎ IsDone p
  can_step p [] room c idle = phase-step p p.phase room c idle refl
  can_step p (f ∷ fs) room c busy = inl (flight-step p f.job f.stage fs c busy)

  -- With room for a scan, and as each execution gives something: however the scans interleave, a step can be made until reconcileWorkload has returned and each goroutine has
  -- ended, and that is after at most two steps, one for each image and seven for each wanted scan.
  pub reconcile_workload-ends :
      (origin : Progress S) {q : Pool S}
      → 0 < concurrency
      → (run : Reach r ns wl concurrency (begin_workload r ns wl origin) q)
      → (CanStep q ⊎ IsDone q)
        × (steps run
            ≤ 2
              + length (from_pod_spec wl.pod_spec)
              + 7 * length (wanted_jobs r ns wl (from_pod_spec wl.pod_spec)))
  unfolding begin_workload
  reconcile_workload-ends origin {q = q} room run = (
    can_step q q.flights room (Reach-IsCounted r ns wl concurrency origin run) refl,
    omega (arith, steps-cost run),
  )
