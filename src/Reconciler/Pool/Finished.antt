-- ===== src/Reconciler/Pool/Finished.antt =====
-- What a return of reconcileWorkload in internal/reconciler/reconcile.go leaves, however the scans
-- interleave.
use komodor_security_reporte.Reconciler.Pool.{
  Pool, Phase, looping, queued, admitted, giving_up, waiting, returned, Flight, prepare_image,
  enqueue_scan, acquire_token, start_scan, give_up, return_cancelled, complete_scan, lower_gauge,
  release_token, leave_group, Step, prepare, enqueue, acquire, start, cancel, return_early, drain,
  return_late, scan, lower, release, leave, Reach, here, next, begin_workload, prepared_jobs, Setup,
  Text, WorkloadInfo, ExtractedImage, Progress, Job, WorkloadError, from_pod_spec, note,
  prepare_scan_image, backpressure_wait, dispatched,
}
use komodor_security_reporte.Prelude.{
  ℕ, ◌+◌, ◌≡◌, ◌⊎◌, inl, inr, Option, some, List, [], ◌∷◌, ◌++◌, length, arith, refl, sym, ◌∙◌, ap,
  append_assoc, append-nil, Option-cases, subst, tally,
}
use komodor_security_reporte.Reconciler.Pool.Counted.{
  weigh, any_stage, IsCounted, Reach-IsCounted, slot, held, joined, queueing, gauged,
}
use komodor_security_reporte.Reconciler.Workload.Dispatched.{
  wanted_jobs, dispatched_of, started, dispatched_of-append, finish_scan-quiet, dispatched_of-quiet,
}
use komodor_security_reporte.Reconciler.Pool.Logged.{
  prepare-logged, ended, Blames, failure, Reach-IsLogged, unfinished,
}

pub no_flights : (fs : List Flight) → weigh any_stage fs ≡ 0 → fs ≡ []
no_flights [] e = refl
no_flights (f ∷ fs) e = absurd (omega (arith, e))

is_busy :
    (before after : List Flight) (f : Flight) (fs : List Flight)
    → fs ≡ before ++ (f ∷ after)
    → ¬ (fs ≡ [])
is_busy [] after f fs stands idle = cc
is_busy (x ∷ before) after f fs stands idle = cc

module _ {F S : Type 0} (r : Setup F S) (ns : Text) (wl : WorkloadInfo) (concurrency : ℕ) where
  -- The scans that the loop has still to start.
  abbrev pub todo : List ExtractedImage → List Job → List Job
  todo imgs jobs = jobs ++ wanted_jobs r ns wl imgs

  pub todo-prepare :
      (img : ExtractedImage) (imgs : List ExtractedImage)
      → todo imgs (prepared_jobs r ns wl img) ≡ todo (img ∷ imgs) []
  unfolding prepared_jobs wanted_jobs
  todo-prepare img imgs = elim (Option-cases (prepare_scan_image r.digests img).0) [
    | inl e ↦ rw (prepared_jobs, wanted_jobs, e) refl
    | inr (image, e) ↦ rw (prepared_jobs, wanted_jobs, e) refl
  ]

  module _ (origin : Progress S) where
    abbrev pub all_jobs : List Job
    all_jobs = started origin ++ wanted_jobs r ns wl (from_pod_spec wl.pod_spec)

    -- What holds at each place of the loop, given the scans started so far.
    abbrev pub Accounts : Phase → List Job → List Flight → Option WorkloadError → Type 0
    Accounts (looping imgs jobs) begun fs e = begun ++ todo imgs jobs ≡ all_jobs
    Accounts (queued job imgs jobs) begun fs e = begun ++ (job ∷ todo imgs jobs) ≡ all_jobs
    Accounts (admitted job imgs jobs) begun fs e = begun ++ (job ∷ todo imgs jobs) ≡ all_jobs
    Accounts giving_up begun fs e = Unit
    Accounts waiting begun fs e = begun ≡ all_jobs
    Accounts (returned result) begun fs e =
        (result ≡ some backpressure_wait) ⊎ ((begun ≡ all_jobs) × (fs ≡ []) × (result ≡ e))

    abbrev pub IsAccounted : Pool S → Type 0
    IsAccounted p = Accounts p.phase (started p.progress) p.flights p.error

    -- A goroutine that is not the last keeps them.
    Accounts-flight :
        (ph : Phase) {begun begun' : List Job} {fs : List Flight} (fs' : List Flight)
        (e e' : Option WorkloadError)
        → ¬ (fs ≡ [])
        → begun' ≡ begun
        → Accounts ph begun fs e
        → Accounts ph begun' fs' e'
    Accounts-flight (looping imgs jobs) fs' e e' busy same a = rw same a
    Accounts-flight (queued job imgs jobs) fs' e e' busy same a = rw same a
    Accounts-flight (admitted job imgs jobs) fs' e e' busy same a = rw same a
    Accounts-flight giving_up fs' e e' busy same a = tt
    Accounts-flight waiting fs' e e' busy same a = same ∙ a
    Accounts-flight (returned result) fs' e e' busy same (inl cancelled) = inl cancelled
    Accounts-flight (returned result) fs' e e' busy same (inr finished) = absurd (busy finished.1)

    at_phase :
        (p : Pool S) (ph : Phase)
        → p.phase ≡ ph
        → IsAccounted p
        → Accounts ph (started p.progress) p.flights p.error
    at_phase p ph e a = subst (λ x. Accounts x (started p.progress) p.flights p.error) e a

    Step-IsAccounted :
        {p q : Pool S}
        → Step r ns wl concurrency p q
        → IsCounted concurrency p
        → IsAccounted p
        → IsAccounted q
    unfolding prepare_image enqueue_scan acquire_token start_scan give_up return_cancelled
        lower_gauge release_token leave_group complete_scan dispatched_of wanted_jobs
    Step-IsAccounted {p = p} (prepare img imgs at_head e) c a = rw e (
        ap (λ l. started (note (prepare_scan_image r.digests img).1 p.progress) ++ l)
          (todo-prepare img imgs)
        ∙ ap (λ l. l ++ todo (img ∷ imgs) []) (prepare-logged r img p.progress).2
        ∙ at_phase p _ at_head a)
    Step-IsAccounted {p = p} (enqueue job imgs jobs at_head e) c a = rw e (at_phase p _ at_head a)
    Step-IsAccounted {p = p} (acquire job imgs jobs at_head room e) c a =
        rw e (at_phase p _ at_head a)
    Step-IsAccounted {p = p} (start job imgs jobs at_head e) c a = rw e (
        ap (λ l. l ++ todo imgs jobs) (dispatched_of-append p.progress.log (dispatched job ∷ []))
        ∙ append_assoc (started p.progress) (job ∷ []) (todo imgs jobs)
        ∙ at_phase p _ at_head a)
    Step-IsAccounted (cancel job imgs jobs at_head e) c a = rw e tt
    Step-IsAccounted (return_early at_head room e) c a = rw e (inl refl)
    Step-IsAccounted {p = p} (drain at_head e) c a =
        rw e (sym (append-nil (started p.progress)) ∙ at_phase p _ at_head a)
    Step-IsAccounted {p = p} (return_late at_head zero e) c a =
        rw e (
          inr (at_phase p _ at_head a, no_flights p.flights (omega (arith, c.members, zero)), refl))
    Step-IsAccounted {p = p} (scan before after job run runtime stands e) c a = rw e (
        Accounts-flight p.phase _ _ _ (is_busy before after _ p.flights stands)
          (finish_scan-quiet r job run (record p.progress { runtime = runtime })) a)
    Step-IsAccounted {p = p} (lower before after job stands e) c a =
        rw e (Accounts-flight p.phase _ _ _ (is_busy before after _ p.flights stands) refl a)
    Step-IsAccounted {p = p} (release before after job stands room e) c a =
        rw e (Accounts-flight p.phase _ _ _ (is_busy before after _ p.flights stands) refl a)
    Step-IsAccounted {p = p} (leave before after job stands e) c a =
        rw e (Accounts-flight p.phase _ _ _ (is_busy before after _ p.flights stands) refl a)

    Reach-IsAccounted :
        {q : Pool S} → Reach r ns wl concurrency (begin_workload r ns wl origin) q → IsAccounted q
    unfolding begin_workload dispatched_of
    Reach-IsAccounted here =
        ap (λ l. l ++ wanted_jobs r ns wl (from_pod_spec wl.pod_spec))
          (dispatched_of-quiet origin.log _ refl)
    Reach-IsAccounted (next run step) =
        Step-IsAccounted step (Reach-IsCounted r ns wl concurrency origin run)
          (Reach-IsAccounted run)

    -- Every wanted scan has been started once, in order, and has ended; no goroutine is left, the
    -- semaphore and the wait group are empty, the gauges are at 0, and the result is an error
    -- exactly when a scan has failed.
    abbrev pub IsComplete : Pool S → Option WorkloadError → Type 0
    IsComplete q result =
        (q.flights ≡ [])
        × (q.tokens ≡ 0)
        × (q.group ≡ 0)
        × (q.queue_depth ≡ 0)
        × (q.in_flight ≡ 0)
        × (started q.progress ≡ all_jobs)
        × (tally ended q.progress.log + length (started origin)
            ≡ tally ended origin.log + length all_jobs)
        × Blames (tally failure origin.log) result (tally failure q.progress.log)

    -- However the scans interleave, and however many may run at once: when reconcileWorkload
    -- returns, either the backpressure has failed, or every wanted scan has been started once, in
    -- order, and has ended, no goroutine is left, the semaphore and the wait group are empty, the
    -- gauges are at 0, and there is an error exactly when a scan has failed.
    pub reconcile_workload-returns :
        {q : Pool S} (result : Option WorkloadError)
        → Reach r ns wl concurrency (begin_workload r ns wl origin) q
        → q.phase ≡ returned result
        → (result ≡ some backpressure_wait) ⊎ IsComplete q result
    reconcile_workload-returns {q = q} result run done =
        let c = Reach-IsCounted r ns wl concurrency origin run in
        let l = Reach-IsLogged r ns wl concurrency origin run in
        elim (at_phase q _ done (Reach-IsAccounted run)) [
          | inl cancelled ↦ inl cancelled
          | inr (begun, idle, same) ↦ inr (
            idle,
            omega (arith, c.slots, ap (weigh slot) idle, ap held done),
            omega (arith, c.members, ap (weigh any_stage) idle, ap joined done),
            omega (arith, c.queue, ap queueing done),
            omega (arith, c.gauge, ap (weigh gauged) idle),
            begun,
            omega (arith, l.all_ended, ap (weigh unfinished) idle, ap length begun),
            rw same l.blamed,
          )
        ]
