-- ===== src/Reconciler/Pool/Counted.antt =====
-- The slots and the gauges of the scans that reconcileWorkload of internal/reconciler/reconcile.go
-- runs at once.
use komodor_security_reporte.Prelude.{
  ℕ, ◌+◌, ◌≤◌, ◌≡◌, List, [], ◌∷◌, ◌++◌, arith, tally, tally-append,
}
use komodor_security_reporte.Prelude.Text.{Text}
use komodor_security_reporte.Reconciler.Workload.{Setup}
use komodor_security_reporte.Reconciler.Pool.{
  Phase, queued, admitted, giving_up, Stage, scanning, closing, releasing, leaving, Flight, Pool,
  prepare_image, enqueue_scan, acquire_token, start_scan, give_up, return_cancelled, complete_scan,
  lower_gauge, release_token, leave_group, At, Step, prepare, enqueue, acquire, start, cancel,
  return_early, drain, return_late, scan, lower, release, leave, WorkloadInfo, Job, Progress,
  begin_workload, Reach, next, here,
}

abbrev pub weigh : (Stage → ℕ) → List Flight → ℕ
weigh w = tally (λ f. w f.stage)

pub weigh-append :
    (w : Stage → ℕ) (xs ys : List Flight) → weigh w (xs ++ ys) ≡ weigh w xs + weigh w ys
weigh-append w = tally-append (λ f. w f.stage)

-- A goroutine that moves from one stage to the next, and one that leaves.
pub weigh-move :
    {S : Type 0} (w : Stage → ℕ) (before after : List Flight) (job : Job) (s t : Stage) (p : Pool S)
    → At before job s after p
    → weigh w (before ++ (record { job = job; stage = t } ∷ after)) + w s ≡ weigh w p.flights + w t
weigh-move w before after job s t p stands = rw stands (
    omega (
      arith,
      weigh-append w before (record { job = job; stage = s } ∷ after),
      weigh-append w before (record { job = job; stage = t } ∷ after),
    ))

pub weigh_left :
    {S : Type 0} (w : Stage → ℕ) (before after : List Flight) (job : Job) (s : Stage) (p : Pool S)
    → At before job s after p
    → weigh w (before ++ after) + w s ≡ weigh w p.flights
weigh_left w before after job s p stands = rw stands (
    omega (
      arith,
      weigh-append w before (record { job = job; stage = s } ∷ after),
      weigh-append w before after,
    ))

-- The goroutines that hold a slot, and those that the gauge counts.
abbrev pub slot : Stage → ℕ
slot leaving = 0
slot _ = 1

abbrev pub gauged : Stage → ℕ
gauged scanning = 1
gauged closing = 1
gauged _ = 0

abbrev pub any_stage : Stage → ℕ
any_stage _ = 1

-- What the loop itself adds to the semaphore, to the wait group and to the queue.
abbrev pub held : Phase → ℕ
held (admitted _ _ _) = 1
held giving_up = 1
held _ = 0

abbrev pub joined : Phase → ℕ
joined (queued _ _ _) = 1
joined (admitted _ _ _) = 1
joined _ = 0

abbrev pub queueing : Phase → ℕ
queueing (queued _ _ _) = 1
queueing _ = 0

-- The counts over the goroutines, after one of them has moved.
weigh_all-move :
    {S : Type 0} (before after : List Flight) (job : Job) (s t : Stage) (p : Pool S)
    → At before job s after p
    → let moved = before ++ (record { job = job; stage = t } ∷ after) in
      (weigh slot moved + slot s ≡ weigh slot p.flights + slot t)
      × (weigh any_stage moved + 1 ≡ weigh any_stage p.flights + 1)
      × (weigh gauged moved + gauged s ≡ weigh gauged p.flights + gauged t)
weigh_all-move before after job s t p stands = (
  weigh-move slot before after job s t p stands,
  weigh-move any_stage before after job s t p stands,
  weigh-move gauged before after job s t p stands,
)

-- The counts, after a goroutine is added.
pub weigh-start :
    {S : Type 0} (w : Stage → ℕ) (job : Job) (p : Pool S)
    → weigh w (p.flights ++ (record { job = job; stage = scanning } ∷ []))
      ≡ weigh w p.flights + w scanning
weigh-start w job p =
    omega (arith, weigh-append w p.flights (record { job = job; stage = scanning } ∷ []))

pub record IsCounted {S : Type 0} (concurrency : ℕ) (p : Pool S) : Type 0 where
  pub slots : p.tokens ≡ weigh slot p.flights + held p.phase
  pub members : p.group ≡ weigh any_stage p.flights + joined p.phase
  pub queue : p.queue_depth ≡ queueing p.phase
  pub gauge : p.in_flight ≡ weigh gauged p.flights
  pub bounded : p.tokens ≤ concurrency

module _ {F S : Type 0} (r : Setup F S) (ns : Text) (wl : WorkloadInfo) (concurrency : ℕ) where
  Step-IsCounted :
      {p q : Pool S}
      → Step r ns wl concurrency p q
      → IsCounted concurrency p
      → IsCounted concurrency q
  unfolding prepare_image enqueue_scan acquire_token start_scan give_up return_cancelled
      complete_scan lower_gauge release_token leave_group
  Step-IsCounted {p = p} (prepare img imgs at_head e) c = rw e (ground arith)
  Step-IsCounted {p = p} (enqueue job imgs jobs at_head e) c = rw e (ground arith)
  Step-IsCounted {p = p} (acquire job imgs jobs at_head room e) c = rw e (ground arith)
  Step-IsCounted {p = p} (start job imgs jobs at_head e) c = rw e (
      ground (arith, weigh-start slot job p, weigh-start any_stage job p, weigh-start gauged job p))
  Step-IsCounted (cancel job imgs jobs at_head e) c = rw e (ground arith)
  Step-IsCounted (return_early at_head room e) c = rw e (ground arith)
  Step-IsCounted (drain at_head e) c = rw e (ground arith)
  Step-IsCounted (return_late at_head zero e) c = rw e (ground arith)
  Step-IsCounted {p = p} (scan before after job run runtime stands e) c =
      rw e (ground (arith, weigh_all-move before after job scanning closing p stands))
  Step-IsCounted {p = p} (lower before after job stands e) c =
      rw e (ground (arith, weigh_all-move before after job closing releasing p stands))
  Step-IsCounted {p = p} (release before after job stands room e) c =
      rw e (ground (arith, weigh_all-move before after job releasing leaving p stands))
  Step-IsCounted {p = p} (leave before after job stands e) c = rw e (
      ground (
        arith,
        weigh_left slot before after job leaving p stands,
        weigh_left any_stage before after job leaving p stands,
        weigh_left gauged before after job leaving p stands,
      ))

  begin_workload-IsCounted : (p : Progress S) → IsCounted concurrency (begin_workload r ns wl p)
  unfolding begin_workload
  begin_workload-IsCounted p = ground arith

  -- However the scans interleave, the semaphore, the wait group and the gauges of reconcileWorkload
  -- hold as many as its loop and its goroutines stand for, and no more slots are taken than there
  -- are.
  pub Reach-IsCounted :
      (p : Progress S) {q : Pool S}
      → Reach r ns wl concurrency (begin_workload r ns wl p) q
      → IsCounted concurrency q
  Reach-IsCounted p here = begin_workload-IsCounted p
  Reach-IsCounted p (next run step) = Step-IsCounted step (Reach-IsCounted p run)
