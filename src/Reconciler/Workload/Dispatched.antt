-- ===== src/Reconciler/Workload/Dispatched.antt =====
-- The scans that a reconciliation of internal/reconciler/reconcile.go starts.
use komodor_security_reporte.Prelude.{
  ◌≡◌, refl, ap, sym, ◌∙◌, none, some, true, false, List, [], ◌∷◌, ◌++◌, append_assoc, append-nil,
  arith, Option-cases, inl, inr, ◌⊎◌,
}
use komodor_security_reporte.Prelude.Text.{Text}
use komodor_security_reporte.Registry.ImageRef.{parse}
use komodor_security_reporte.Registry.Resolver.{DigestLookup}
use komodor_security_reporte.Reconciler.Resilience.{
  ExecOutcome, scanned, failed, Run, execute_scanner_with_resilience, ExecError,
}
use komodor_security_reporte.Reconciler.Handle.{Effect, handle_scan_result_state_and_publish}
use komodor_security_reporte.Reconciler.Images.{ExtractedImage, WorkloadInfo, from_pod_spec}
use komodor_security_reporte.Reconciler.Workload.{
  Setup, Job, WorkEffect, images_observed, image_resolved, resolution_error, dispatched, scan_error,
  scan_completed, recorded, handled, workload_reconciled, run_completed, Progress, Dispatch, note,
  handled_all, prepare_scan_image, finish_scan, run_scanner_for_image, run_job, dispatch_jobs,
  jobs_of, dispatch_images, reconcile_workload, ErrorClass, workload_context,
}
use komodor_security_reporte.Scanners.Result.{ScanResult}

-- The scans that a log starts, in order.
unfoldable pub dispatched_of : List WorkEffect → List Job
dispatched_of [] = []
dispatched_of (dispatched job ∷ log) = job ∷ dispatched_of log
dispatched_of (_ ∷ log) = dispatched_of log

pub dispatched_of-append :
    (xs ys : List WorkEffect) → dispatched_of (xs ++ ys) ≡ dispatched_of xs ++ dispatched_of ys
unfolding dispatched_of
dispatched_of-append [] ys = refl
dispatched_of-append (dispatched job ∷ xs) ys = ap (λ l. job ∷ l) (dispatched_of-append xs ys)
dispatched_of-append (images_observed n ∷ xs) ys = dispatched_of-append xs ys
dispatched_of-append (image_resolved ∷ xs) ys = dispatched_of-append xs ys
dispatched_of-append (resolution_error ∷ xs) ys = dispatched_of-append xs ys
dispatched_of-append (scan_error t c ∷ xs) ys = dispatched_of-append xs ys
dispatched_of-append (scan_completed n ∷ xs) ys = dispatched_of-append xs ys
dispatched_of-append (recorded b ∷ xs) ys = dispatched_of-append xs ys
dispatched_of-append (handled e ∷ xs) ys = dispatched_of-append xs ys
dispatched_of-append (workload_reconciled b ∷ xs) ys = dispatched_of-append xs ys
dispatched_of-append (run_completed b ∷ xs) ys = dispatched_of-append xs ys

pub dispatched_of-quiet :
    (xs ys : List WorkEffect) → dispatched_of ys ≡ [] → dispatched_of (xs ++ ys) ≡ dispatched_of xs
dispatched_of-quiet xs ys quiet =
    dispatched_of-append xs ys
    ∙ ap (λ l. dispatched_of xs ++ l) quiet
    ∙ append-nil (dispatched_of xs)

dispatched_of-handled : (effects : List Effect) → dispatched_of (handled_all effects) ≡ []
unfolding dispatched_of
dispatched_of-handled [] = refl
dispatched_of-handled (e ∷ es) = dispatched_of-handled es

pub dispatched_of-prepare :
    (digests : DigestLookup) (img : ExtractedImage)
    → dispatched_of (prepare_scan_image digests img).1 ≡ []
unfolding prepare_scan_image dispatched_of
dispatched_of-prepare digests img = ground (arith, Option-cases (parse img.image))

pub ExecOutcome-cases :
    (o : ExecOutcome)
    → ((r : ScanResult) × (o ≡ scanned r))
      ⊎ ((c : ErrorClass) × ((e : ExecError) × (o ≡ failed c e)))
ExecOutcome-cases (scanned r) = inl (r, refl)
ExecOutcome-cases (failed c e) = inr (c, (e, refl))

abbrev pub started : {S : Type 0} → Progress S → List Job
started p = dispatched_of p.log

module _ {F S : Type 0} (r : Setup F S) where
  pub finish_scan-quiet :
      (job : Job) (run : Run) (p : Progress S) → started (finish_scan r job run p).1 ≡ started p
  unfolding finish_scan dispatched_of
  finish_scan-quiet job run p = elim (ExecOutcome-cases run.outcome) [
    | inl (result, e) ↦ rw e (
        dispatched_of-quiet p.log _ (
          dispatched_of-handled
            (handle_scan_result_state_and_publish r.backend r.hash r.outlets (r.world job).now
              job.scanner job.image result (workload_context r job) r.settings.options p.store).1))
    | inr (class, (error, e)) ↦ rw e (dispatched_of-quiet p.log _ refl)
  ]

  pub run_job-starts :
      (job : Job) (d : Dispatch S)
      → started (run_job r job d).progress ≡ started d.progress ++ (job ∷ [])
  unfolding run_job run_scanner_for_image dispatched_of
  run_job-starts job d =
      let executed =
        execute_scanner_with_resilience r.ops r.policy r.timeouts (r.world job).environment
          job.scanner d.progress.runtime in
      finish_scan-quiet job executed.1
        (note (dispatched job ∷ []) (record d.progress { runtime = executed.0 }))
      ∙ dispatched_of-append d.progress.log (dispatched job ∷ [])

  -- Nothing is cancelled.
  abbrev pub AllReady : Type 0
  AllReady = (job : Job) → (r.world job).ready ≡ true

  dispatch_jobs-starts :
      (jobs : List Job) (d : Dispatch S)
      → AllReady
      → (started (dispatch_jobs r jobs d).progress ≡ started d.progress ++ jobs)
        × ((dispatch_jobs r jobs d).cancelled ≡ d.cancelled)
  unfolding dispatch_jobs run_job
  dispatch_jobs-starts [] d ready = (sym (append-nil (started d.progress)), refl)
  dispatch_jobs-starts (job ∷ jobs) d ready =
      let (starts, goes) = dispatch_jobs-starts jobs (run_job r job d) ready in
      rw (ready job) (
        starts
            ∙ ap (λ l. l ++ jobs) (run_job-starts job d)
            ∙ append_assoc (started d.progress) (job ∷ []) jobs,
        goes,
      )

  -- The scans that a workload wants: each scanner, for each image that can be parsed and resolved.
  unfoldable pub wanted_jobs : Text → WorkloadInfo → List ExtractedImage → List Job
  wanted_jobs ns wl [] = []
  wanted_jobs ns wl (img ∷ imgs) = elim (prepare_scan_image r.digests img).0 [
    | none ↦ wanted_jobs ns wl imgs
    | some image ↦
        jobs_of r ns wl img.container_name image (r.scanners ns wl img) ++ wanted_jobs ns wl imgs
  ]

  dispatch_images-starts :
      (ns : Text) (wl : WorkloadInfo) (imgs : List ExtractedImage) (d : Dispatch S)
      → AllReady
      → d.cancelled ≡ false
      → (started (dispatch_images r ns wl imgs d).progress
          ≡ started d.progress ++ wanted_jobs ns wl imgs)
        × ((dispatch_images r ns wl imgs d).cancelled ≡ false)
  unfolding dispatch_images wanted_jobs
  dispatch_images-starts ns wl [] d ready goes = (sym (append-nil (started d.progress)), goes)
  dispatch_images-starts ns wl (img ∷ imgs) d ready goes =
      let noted : Dispatch S = record d {
        progress = note (prepare_scan_image r.digests img).1 d.progress;
      } in
      let same : started noted.progress ≡ started d.progress =
        dispatched_of-quiet d.progress.log _ (dispatched_of-prepare r.digests img) in
      elim (Option-cases (prepare_scan_image r.digests img).0) [
        | inl e ↦
            let (starts, goes') = dispatch_images-starts ns wl imgs noted ready goes in
            rw (dispatch_images, wanted_jobs, e)
              (starts ∙ ap (λ l. l ++ wanted_jobs ns wl imgs) same, goes')
        | inr (image, e) ↦
            let jobs = jobs_of r ns wl img.container_name image (r.scanners ns wl img) in
            let (started_jobs, going) = dispatch_jobs-starts jobs noted ready in
            let after = dispatch_jobs r jobs noted in
            let (starts, goes') = dispatch_images-starts ns wl imgs after ready (going ∙ goes) in
            rw (dispatch_images, wanted_jobs, e, going ∙ goes)
              (
                starts
                    ∙ ap (λ l. l ++ wanted_jobs ns wl imgs)
                        (started_jobs ∙ ap (λ l. l ++ jobs) same)
                    ∙ append_assoc (started d.progress) jobs (wanted_jobs ns wl imgs),
                goes',
              )
      ]

  -- When the context is not cancelled, the reconciliation of a workload starts exactly the wanted
  -- scans, in order, each once, whatever fails: every scanner for every image of its pod template
  -- whose reference parses and resolves.
  pub reconcile_workload-starts :
      (ns : Text) (wl : WorkloadInfo) (p : Progress S)
      → AllReady
      → started (reconcile_workload r ns wl p).1
        ≡ started p ++ wanted_jobs ns wl (from_pod_spec wl.pod_spec)
  unfolding reconcile_workload dispatched_of
  reconcile_workload-starts ns wl p ready =
      let (starts, _) = dispatch_images-starts ns wl (from_pod_spec wl.pod_spec) _ ready refl in
      starts
      ∙ ap (λ l. l ++ wanted_jobs ns wl (from_pod_spec wl.pod_spec))
          (dispatched_of-quiet p.log _ refl)
