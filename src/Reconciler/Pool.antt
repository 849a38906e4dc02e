-- ===== src/Reconciler/Pool.antt =====
-- The goroutines of reconcileWorkload in internal/reconciler/reconcile.go: the loop that starts the
-- scans, and the scans that run meanwhile, one step of one of them at a time. A scan's execution and
-- what its handler does under stateMu are one step; what the execution gives, and what it leaves of
-- the breakers, can be anything. The steps of the deferred calls are apart.
pub mod Counted
pub mod Logged
pub mod Finished
pub mod Ends
pub mod Configured
pub mod InOrder
pub mod Abandoned
use komodor_security_reporte.Prelude.{
  ℕ, ◌+◌, ◌-◌, ◌<◌, ◌≡◌, Option, none, some, List, [], ◌∷◌, ◌++◌, length,
}
use komodor_security_reporte.Prelude.Text.{Text}
use komodor_security_reporte.Reconciler.Resilience.{RuntimeState, Run}
use komodor_security_reporte.Reconciler.Images.{ExtractedImage, WorkloadInfo, from_pod_spec}
use komodor_security_reporte.Reconciler.Workload.{
  Setup, Job, WorkEffect, images_observed, dispatched, WorkloadError, backpressure_wait, Progress,
  note, set_error, prepare_scan_image, finish_scan, jobs_of,
}

-- Where the loop stands, with the images and the scans of the current image that are left: at its
-- head, before the semaphore, before the backpressure, or on its way out.
pub data Phase : Type 0 where
  looping : List ExtractedImage → List Job → Phase
  queued admitted : Job → List ExtractedImage → List Job → Phase
  giving_up waiting : Phase
  returned : Option WorkloadError → Phase

-- What a goroutine has still to do: to scan, to lower the gauge, to give its slot back, to call
-- Done.
pub data Stage : Type 0 where
  scanning closing releasing leaving : Stage

pub record Flight : Type 0 where
  pub job : Job
  pub stage : Stage

-- `tokens` are in the semaphore, `group` is the counter of scanWaitGroup, `queue_depth` and
-- `in_flight` are the gauges, and `error` is that of execState.
pub record Pool (S : Type 0) : Type 0 where
  pub phase : Phase
  pub flights : List Flight
  pub tokens : ℕ
  pub group : ℕ
  pub queue_depth : ℕ
  pub in_flight : ℕ
  pub progress : Progress S
  pub error : Option WorkloadError

-- The pool with the goroutine between `before` and `after` at a stage.
abbrev pub move : {S : Type 0} → List Flight → Job → Stage → List Flight → Pool S → Pool S
move before job stage after p = record p {
  flights = before ++ (record { job = job; stage = stage } ∷ after);
}

module _ {F S : Type 0} (r : Setup F S) (ns : Text) (wl : WorkloadInfo) where
  unfoldable pub begin_workload : Progress S → Pool S
  unfolding from_pod_spec
  begin_workload p = record {
    phase = looping (from_pod_spec wl.pod_spec) [];
    flights = [];
    tokens = 0;
    group = 0;
    queue_depth = 0;
    in_flight = 0;
    progress = note (images_observed (length (from_pod_spec wl.pod_spec)) ∷ []) p;
    error = none;
  }

  -- The scans of an image: none when it does not parse or resolve.
  unfoldable pub prepared_jobs : ExtractedImage → List Job
  unfolding prepare_scan_image jobs_of
  prepared_jobs img = elim (prepare_scan_image r.digests img).0 [
    | none ↦ []
    | some image ↦ jobs_of r ns wl img.container_name image (r.scanners ns wl img)
  ]

  unfoldable pub prepare_image : ExtractedImage → List ExtractedImage → Pool S → Pool S
  unfolding prepare_scan_image prepared_jobs
  prepare_image img imgs p = record p {
    phase = looping imgs (prepared_jobs img);
    progress = note (prepare_scan_image r.digests img).1 p.progress;
  }

-- From the head of the inner loop to the send on the semaphore.
unfoldable pub enqueue_scan : {S : Type 0} → Job → List ExtractedImage → List Job → Pool S → Pool S
enqueue_scan job imgs jobs p = record p {
  phase = queued job imgs jobs;
  group = p.group + 1;
  queue_depth = p.queue_depth + 1;
}

-- The send on the semaphore, up to the backpressure.
unfoldable pub acquire_token : {S : Type 0} → Job → List ExtractedImage → List Job → Pool S → Pool S
acquire_token job imgs jobs p = record p {
  phase = admitted job imgs jobs;
  tokens = p.tokens + 1;
  queue_depth = p.queue_depth - 1;
}

-- The backpressure lets the scan start.
unfoldable pub start_scan : {S : Type 0} → Job → List ExtractedImage → List Job → Pool S → Pool S
start_scan job imgs jobs p = record p {
  phase = looping imgs jobs;
  flights = p.flights ++ (record { job = job; stage = scanning } ∷ []);
  in_flight = p.in_flight + 1;
  progress = note (dispatched job ∷ []) p.progress;
}

-- The backpressure fails: Done, then the slot is given back, and reconcileWorkload returns.
unfoldable pub give_up : {S : Type 0} → Pool S → Pool S
give_up p = record p { phase = giving_up; group = p.group - 1 }

unfoldable pub return_cancelled : {S : Type 0} → Pool S → Pool S
return_cancelled p = record p { phase = returned (some backpressure_wait); tokens = p.tokens - 1 }

-- The execution of a scan with what follows it, up to the deferred calls.
unfoldable pub complete_scan :
    {F S : Type 0} → Setup F S → Job → Run → RuntimeState → Pool S → Pool S
unfolding finish_scan set_error
complete_scan r job run runtime p =
    let (error, progress) = finish_scan r job run (record p.progress { runtime = runtime }) in
    record p { progress = progress; error = set_error error p.error }

unfoldable pub lower_gauge : {S : Type 0} → Pool S → Pool S
lower_gauge p = record p { in_flight = p.in_flight - 1 }

unfoldable pub release_token : {S : Type 0} → Pool S → Pool S
release_token p = record p { tokens = p.tokens - 1 }

unfoldable pub leave_group : {S : Type 0} → Pool S → Pool S
leave_group p = record p { group = p.group - 1 }

abbrev pub At : {S : Type 0} → List Flight → Job → Stage → List Flight → Pool S → Type 0
At before job stage after p = p.flights ≡ before ++ (record { job = job; stage = stage } ∷ after)

-- A step of the loop or of a goroutine. A send on the semaphore needs room in it, a receive needs
-- a token, and Wait needs the counter to be 0.
module _ {F S : Type 0} (r : Setup F S) (ns : Text) (wl : WorkloadInfo) (concurrency : ℕ) where
  pub data Step (p q : Pool S) : Type 0 where
    prepare :
        (img : ExtractedImage) (imgs : List ExtractedImage)
        → p.phase ≡ looping (img ∷ imgs) []
        → q ≡ prepare_image r ns wl img imgs p
        → Step p q
    enqueue :
        (job : Job) (imgs : List ExtractedImage) (jobs : List Job)
        → p.phase ≡ looping imgs (job ∷ jobs)
        → q ≡ enqueue_scan job imgs jobs p
        → Step p q
    acquire :
        (job : Job) (imgs : List ExtractedImage) (jobs : List Job)
        → p.phase ≡ queued job imgs jobs
        → p.tokens < concurrency
        → q ≡ acquire_token job imgs jobs p
        → Step p q
    start :
        (job : Job) (imgs : List ExtractedImage) (jobs : List Job)
        → p.phase ≡ admitted job imgs jobs
        → q ≡ start_scan job imgs jobs p
        → Step p q
    cancel :
        (job : Job) (imgs : List ExtractedImage) (jobs : List Job)
        → p.phase ≡ admitted job imgs jobs
        → q ≡ give_up p
        → Step p q
    return_early : p.phase ≡ giving_up → 0 < p.tokens → q ≡ return_cancelled p → Step p q
    drain : p.phase ≡ looping [] [] → q ≡ record p { phase = waiting } → Step p q
    return_late :
        p.phase ≡ waiting → p.group ≡ 0 → q ≡ record p { phase = returned p.error } → Step p q
    scan :
        (before after : List Flight) (job : Job) (run : Run) (runtime : RuntimeState)
        → At before job scanning after p
        → q ≡ move before job closing after (complete_scan r job run runtime p)
        → Step p q
    lower :
        (before after : List Flight) (job : Job)
        → At before job closing after p
        → q ≡ move before job releasing after (lower_gauge p)
        → Step p q
    release :
        (before after : List Flight) (job : Job)
        → At before job releasing after p
        → 0 < p.tokens
        → q ≡ move before job leaving after (release_token p)
        → Step p q
    leave :
        (before after : List Flight) (job : Job)
        → At before job leaving after p
        → q ≡ record (leave_group p) { flights = before ++ after }
        → Step p q

  pub data Reach (p : Pool S) : Pool S → Type 0 where
    here : Reach p p
    next : {q s : Pool S} → Reach p q → Step q s → Reach p s
