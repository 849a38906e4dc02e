-- ===== src/Reconciler/Pool/InOrder.antt =====
-- The run of reconcileWorkload in internal/reconciler/reconcile.go in which each scan ends before
-- the next one starts.
use komodor_security_reporte.Reconciler.Pool.{
  Pool, looping, returned, prepare_image, enqueue_scan, acquire_token, start_scan, give_up,
  return_cancelled, complete_scan, lower_gauge, release_token, leave_group, prepare, enqueue,
  acquire, start, cancel, return_early, drain, return_late, scan, lower, release, leave, Reach,
  here, next, begin_workload, prepared_jobs, Setup, Text, WorkloadInfo, ExtractedImage, Job,
  Progress, backpressure_wait, note, images_observed, prepare_scan_image, from_pod_spec, jobs_of,
}
use komodor_security_reporte.Prelude.{
  ℕ, ◌<◌, ◌≡◌, ◌⊎◌, inl, inr, some, List, [], ◌∷◌, arith, refl, true, false, Bool-cases,
  Option-cases, length, subst, none,
}
use komodor_security_reporte.Reconciler.Workload.{
  dispatch_jobs, run_job, Dispatch, run_scanner_for_image, dispatch_images, reconcile_workload,
}
use komodor_security_reporte.Reconciler.Resilience.{execute_scanner_with_resilience}

module _ {F S : Type 0} (r : Setup F S) (ns : Text) (wl : WorkloadInfo) (concurrency : ℕ) where
  Reach-trans :
      {p q s : Pool S}
      → Reach r ns wl concurrency p q
      → Reach r ns wl concurrency q s
      → Reach r ns wl concurrency p s
  Reach-trans run here = run
  Reach-trans run (next rest step) = next (Reach-trans run rest) step

  -- The head of the loop, with no scan running.
  abbrev idle : List ExtractedImage → List Job → Dispatch S → Pool S
  idle imgs jobs d = record {
    phase = looping imgs jobs;
    flights = [];
    tokens = 0;
    group = 0;
    queue_depth = 0;
    in_flight = 0;
    progress = d.progress;
    error = d.error;
  }

  module _ (room : 0 < concurrency) where
    admission :
        (job : Job) (imgs : List ExtractedImage) (jobs : List Job) (d : Dispatch S)
        → Reach r ns wl concurrency
            (idle imgs (job ∷ jobs) d)
            (acquire_token job imgs jobs (enqueue_scan job imgs jobs (idle imgs (job ∷ jobs) d)))
    unfolding enqueue_scan acquire_token
    admission job imgs jobs d =
        next (next here (enqueue job imgs jobs refl refl)) (acquire job imgs jobs refl room refl)

    run_job-reached :
        (job : Job) (imgs : List ExtractedImage) (jobs : List Job) (d : Dispatch S)
        → Reach r ns wl concurrency (idle imgs (job ∷ jobs) d) (idle imgs jobs (run_job r job d))
    unfolding enqueue_scan acquire_token start_scan complete_scan lower_gauge release_token
        leave_group run_job run_scanner_for_image
    run_job-reached job imgs jobs d =
        let (runtime, run) =
          execute_scanner_with_resilience r.ops r.policy r.timeouts (r.world job).environment
            job.scanner d.progress.runtime in
        next
          (next
            (next
              (next (next (admission job imgs jobs d) (start job imgs jobs refl refl))
                (scan [] [] job run runtime refl refl))
              (lower [] [] job refl refl))
            (release [] [] job refl (omega arith) refl))
          (leave [] [] job refl refl)

    -- The loop goes on with the images, or it returns since the backpressure has failed.
    abbrev Follows : Pool S → List ExtractedImage → Dispatch S → Type 0
    Follows p imgs d =
        ((d.cancelled ≡ false) × Reach r ns wl concurrency p (idle imgs [] d))
        ⊎ ((d.cancelled ≡ true)
            × ((q : Pool S) × Reach r ns wl concurrency p q
                × (q.phase ≡ returned (some backpressure_wait))
                × (q.progress ≡ d.progress)))

    after_run :
        {p q : Pool S} (imgs : List ExtractedImage) (d : Dispatch S)
        → Reach r ns wl concurrency p q
        → Follows q imgs d
        → Follows p imgs d
    after_run imgs d run (inl (goes, rest)) = inl (goes, Reach-trans run rest)
    after_run imgs d run (inr (stops, (q, rest, out, same))) =
        inr (stops, (q, Reach-trans run rest, out, same))

    dispatch_jobs-reached :
        (imgs : List ExtractedImage) (jobs : List Job) (d : Dispatch S)
        → d.cancelled ≡ false
        → Follows (idle imgs jobs d) imgs (dispatch_jobs r jobs d)
    unfolding dispatch_jobs run_job enqueue_scan acquire_token give_up return_cancelled
    dispatch_jobs-reached imgs [] d goes = inl (goes, here)
    dispatch_jobs-reached imgs (job ∷ jobs) d goes = elim (Bool-cases (r.world job).ready) [
      | inl ready ↦ rw ready (
          after_run imgs _ (run_job-reached job imgs jobs d)
            (dispatch_jobs-reached imgs jobs (run_job r job d) goes))
      | inr cancelled ↦ rw cancelled (
          inr (
            refl,
            (
              _,
              next (next (admission job imgs jobs d) (cancel job imgs jobs refl refl))
                  (return_early refl (omega arith) refl),
              refl,
              refl,
            ),
          ))
    ]

    prepare_image-reached :
        (img : ExtractedImage) (imgs : List ExtractedImage) (jobs : List Job) (d : Dispatch S)
        → prepared_jobs r ns wl img ≡ jobs
        → Reach r ns wl concurrency (idle (img ∷ imgs) [] d) (
            idle imgs jobs
              (record d { progress = note (prepare_scan_image r.digests img).1 d.progress }))
    unfolding prepare_image
    prepare_image-reached img imgs jobs d e =
        subst
          (λ l. Reach r ns wl concurrency (idle (img ∷ imgs) [] d) (
            idle imgs l
              (record d { progress = note (prepare_scan_image r.digests img).1 d.progress })))
          e (next here (prepare img imgs refl refl))

    dispatch_images-reached :
        (imgs : List ExtractedImage) (d : Dispatch S)
        → d.cancelled ≡ false
        → Follows (idle imgs [] d) [] (dispatch_images r ns wl imgs d)
    unfolding dispatch_images prepared_jobs
    dispatch_images-reached [] d goes = inl (goes, here)
    dispatch_images-reached (img ∷ imgs) d goes =
        let noted : Dispatch S = record d {
          progress = note (prepare_scan_image r.digests img).1 d.progress;
        } in
        elim (Option-cases (prepare_scan_image r.digests img).0) [
          | inl e ↦
              rw (dispatch_images, e)
                (after_run [] _ (prepare_image-reached img imgs [] d (rw (prepared_jobs, e) refl))
                  (dispatch_images-reached imgs noted goes))
          | inr (image, e) ↦
              let jobs = jobs_of r ns wl img.container_name image (r.scanners ns wl img) in
              let start_of = prepare_image-reached img imgs jobs d (rw (prepared_jobs, e) refl) in
              let after : Dispatch S = dispatch_jobs r jobs noted in
              elim (dispatch_jobs-reached imgs jobs noted goes) [
                | inl (on, run) ↦
                    rw (dispatch_images, e, on)
                      (after_run [] _ (Reach-trans start_of run)
                        (dispatch_images-reached imgs after on))
                | inr (stops, reached) ↦
                    rw (dispatch_images, e, stops) (after_run [] _ start_of (inr (stops, reached)))
              ]
        ]

    -- With room for a scan, the reconciliation of a workload in which each scan ends before the
    -- next one starts is one of the ways in which the scans interleave: its error is returned, and
    -- its effects on the store, the breakers and the log are those of the goroutines.
    pub reconcile_workload-reached :
        (p : Progress S)
        → (q : Pool S) × Reach r ns wl concurrency (begin_workload r ns wl p) q
          × (q.phase ≡ returned (reconcile_workload r ns wl p).0)
          × (q.progress ≡ (reconcile_workload r ns wl p).1)
    unfolding begin_workload reconcile_workload
    reconcile_workload-reached p =
        let noted : Dispatch S = record {
          progress = note (images_observed (length (from_pod_spec wl.pod_spec)) ∷ []) p;
          error = none;
          cancelled = false;
        } in
        elim (dispatch_images-reached (from_pod_spec wl.pod_spec) noted refl) [
          | inl (on, run) ↦
              rw on (_, next (next run (drain refl refl)) (return_late refl refl refl), refl, refl)
          | inr (stops, (q, run, out, same)) ↦ rw stops (q, run, out, same)
        ]
