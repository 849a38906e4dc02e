-- ===== src/Reconciler/Pool/Logged.antt =====
-- What the log and the error of reconcileWorkload in internal/reconciler/reconcile.go tell of the
-- scans, however they interleave.
use komodor_security_reporte.Reconciler.Pool.{
  Pool, Stage, scanning, closing, releasing, leaving, prepare_image, enqueue_scan, acquire_token,
  start_scan, give_up, return_cancelled, complete_scan, lower_gauge, release_token, leave_group,
  Step, prepare, enqueue, acquire, start, cancel, return_early, drain, return_late, scan, lower,
  release, leave, Reach, here, next, begin_workload, ExtractedImage, Job, Text, Run, WorkloadInfo,
  note, images_observed, from_pod_spec,
}
use komodor_security_reporte.Prelude.{
  ℕ, ◌+◌, ◌<◌, ◌≡◌, inl, inr, Option, true, false, none, some, List, [], ◌∷◌, length, arith, refl,
  Option-cases, length-append, ap, tally, tally-append,
}
use komodor_security_reporte.Reconciler.Workload.{
  finish_scan, set_error, Progress, Setup, WorkEffect, WorkloadError,
}
use komodor_security_reporte.Reconciler.Handle.{handle_scan_result_state_and_publish, Effect}
use komodor_security_reporte.Reconciler.Pool.Counted.{weigh-start, weigh-move, weigh_left, weigh}
use komodor_security_reporte.Reconciler.Workload.Dispatched.{
  dispatched_of-quiet, dispatched_of-prepare, finish_scan-quiet, dispatched_of-append,
  dispatched_of, ExecOutcome-cases,
}
use komodor_security_reporte.Reconciler.Workload.{
  prepare_scan_image, image_resolved, resolution_error, dispatched, recorded, scan_completed,
  workload_context, scan_error, handled, handled_all,
}
use komodor_security_reporte.Reconciler.Workload.Dispatched.{started}
use komodor_security_reporte.Registry.ImageRef.{parse}

-- The scans that have ended, and those that have failed: what the backpressure is told.
abbrev pub ended : WorkEffect → ℕ
ended (recorded failure) = 1
ended _ = 0

abbrev pub failure : WorkEffect → ℕ
failure (recorded true) = 1
failure _ = 0

tally-handled :
    (w : WorkEffect → ℕ) (effects : List Effect)
    → ((e : Effect) → w (handled e) ≡ 0)
    → tally w (handled_all effects) ≡ 0
tally-handled w [] quiet = refl
tally-handled w (e ∷ es) quiet = omega (arith, quiet e, tally-handled w es quiet)

-- Whether the first error is recorded, given the failures before and now.
abbrev pub Blames : ℕ → Option WorkloadError → ℕ → Type 0
Blames before none now = now ≡ before
Blames before (some e) now = before < now

-- The goroutines that have still to scan.
abbrev pub unfinished : Stage → ℕ
unfinished scanning = 1
unfinished _ = 0

-- What the log and the error tell of the scans, from the log at the start.
pub record IsLogged {S : Type 0} (origin : Progress S) (q : Pool S) : Type 0 where
  pub all_ended :
      tally ended q.progress.log + weigh unfinished q.flights + length (started origin)
      ≡ tally ended origin.log + length (started q.progress)
  pub blamed : Blames (tally failure origin.log) q.error (tally failure q.progress.log)

abbrev pub blame : Option WorkloadError → ℕ
blame none = 0
blame (some e) = 1

Blames-set_error :
    (before n : ℕ) (new old : Option WorkloadError)
    → Blames before old n
    → Blames before (set_error new old) (n + blame new)
unfolding set_error
Blames-set_error before n none none b = omega arith
Blames-set_error before n none (some e) b = omega arith
Blames-set_error before n (some e) none b = omega arith
Blames-set_error before n (some e) (some first) b = omega arith

module _ {F S : Type 0} (r : Setup F S) where
  -- What a scan tells the backpressure, whether it succeeds or fails.
  finish_scan-tally :
      (job : Job) (run : Run) (p : Progress S)
      → let (error, q) = finish_scan r job run p in
        (tally ended q.log ≡ tally ended p.log + 1)
        × (tally failure q.log ≡ tally failure p.log + blame error)
  unfolding finish_scan
  finish_scan-tally job run p = elim (ExecOutcome-cases run.outcome) [
    | inl (result, e) ↦
        let effects =
          (handle_scan_result_state_and_publish r.backend r.hash r.outlets (r.world job).now
            job.scanner job.image result (workload_context r job) r.settings.options p.store).1 in
        rw e (
          omega (
            arith,
            tally-append ended p.log
                (scan_completed run.duration ∷ recorded false ∷ handled_all effects),
            tally-append failure p.log
                (scan_completed run.duration ∷ recorded false ∷ handled_all effects),
            tally-handled ended effects (λ _. refl),
            tally-handled failure effects (λ _. refl),
          ))
    | inr (class, (error, e)) ↦ rw e (
        omega (
          arith,
          tally-append ended p.log (recorded true ∷ scan_error job.scanner class ∷ []),
          tally-append failure p.log (recorded true ∷ scan_error job.scanner class ∷ []),
        ))
  ]

  prepare-tally :
      (w : WorkEffect → ℕ) (img : ExtractedImage)
      → w image_resolved ≡ 0
      → w resolution_error ≡ 0
      → tally w (prepare_scan_image r.digests img).1 ≡ 0
  unfolding prepare_scan_image
  prepare-tally w img quiet_ok quiet_error = ground (arith, Option-cases (parse img.image))

  -- The preparation of an image starts and ends no scan.
  pub prepare-logged :
      (img : ExtractedImage) (p : Progress S)
      → let q = note (prepare_scan_image r.digests img).1 p in
        (tally ended q.log ≡ tally ended p.log)
        × (tally failure q.log ≡ tally failure p.log)
        × (started q ≡ started p)
  prepare-logged img p =
      let effects = (prepare_scan_image r.digests img).1 in
      (
        omega (arith, tally-append ended p.log effects, prepare-tally ended img refl refl),
        omega (arith, tally-append failure p.log effects, prepare-tally failure img refl refl),
        dispatched_of-quiet p.log effects (dispatched_of-prepare r.digests img),
      )

  module _ (ns : Text) (wl : WorkloadInfo) (concurrency : ℕ) (origin : Progress S) where
    Step-IsLogged :
        {p q : Pool S} → Step r ns wl concurrency p q → IsLogged origin p → IsLogged origin q
    unfolding prepare_image enqueue_scan acquire_token start_scan give_up return_cancelled
        lower_gauge release_token leave_group complete_scan dispatched_of
    Step-IsLogged {p = p} (prepare img imgs at_head e) l =
        let (ends, fails, starts) = prepare-logged img p.progress in
        rw e (record {
          all_ended = omega (arith, l.all_ended, ends, ap length starts);
          blamed = rw fails l.blamed;
        })
    Step-IsLogged (enqueue job imgs jobs at_head e) l =
        rw e (record { all_ended = l.all_ended; blamed = l.blamed })
    Step-IsLogged (acquire job imgs jobs at_head room e) l =
        rw e (record { all_ended = l.all_ended; blamed = l.blamed })
    Step-IsLogged {p = p} (start job imgs jobs at_head e) l = rw e (
        ground (
          arith,
          weigh-start unfinished job p,
          length-append (started p.progress) (job ∷ []),
          ap length (dispatched_of-append p.progress.log (dispatched job ∷ [])),
          tally-append ended p.progress.log (dispatched job ∷ []),
          tally-append failure p.progress.log (dispatched job ∷ []),
        ))
    Step-IsLogged (cancel job imgs jobs at_head e) l =
        rw e (record { all_ended = l.all_ended; blamed = l.blamed })
    Step-IsLogged (return_early at_head room e) l =
        rw e (record { all_ended = l.all_ended; blamed = l.blamed })
    Step-IsLogged (drain at_head e) l = rw e (record { all_ended = l.all_ended; blamed = l.blamed })
    Step-IsLogged (return_late at_head zero e) l =
        rw e (record { all_ended = l.all_ended; blamed = l.blamed })
    Step-IsLogged {p = p} (scan before after job run runtime stands e) l =
        let noted : Progress S = record p.progress { runtime = runtime } in
        let (ends, fails) = finish_scan-tally job run noted in
        rw e (record {
          all_ended = omega (
            arith,
            l.all_ended,
            ends,
            ap length (finish_scan-quiet r job run noted),
            weigh-move unfinished before after job scanning closing p stands,
          );
          blamed = rw fails (
              Blames-set_error (tally failure origin.log) (tally failure p.progress.log)
                (finish_scan r job run noted).0 p.error l.blamed);
        })
    Step-IsLogged {p = p} (lower before after job stands e) l =
        rw e (ground (arith, weigh-move unfinished before after job closing releasing p stands))
    Step-IsLogged {p = p} (release before after job stands room e) l =
        rw e (ground (arith, weigh-move unfinished before after job releasing leaving p stands))
    Step-IsLogged {p = p} (leave before after job stands e) l =
        rw e (ground (arith, weigh_left unfinished before after job leaving p stands))

    pub begin_workload-IsLogged : IsLogged origin (begin_workload r ns wl origin)
    unfolding begin_workload dispatched_of
    begin_workload-IsLogged =
        let effects = images_observed (length (from_pod_spec wl.pod_spec)) ∷ [] in
        record {
          all_ended = omega (
            arith,
            tally-append ended origin.log effects,
            ap length (dispatched_of-append origin.log effects),
            length-append (dispatched_of origin.log) [],
          );
          blamed = omega (arith, tally-append failure origin.log effects);
        }

    pub Reach-IsLogged :
        {q : Pool S}
        → Reach r ns wl concurrency (begin_workload r ns wl origin) q
        → IsLogged origin q
    Reach-IsLogged here = begin_workload-IsLogged
    Reach-IsLogged (next run step) = Step-IsLogged step (Reach-IsLogged run)
