-- ===== src/Reconciler/Namespaces/Awaited.antt =====
-- What ReconcileAll of internal/reconciler/reconcile.go waits for before it returns.
use komodor_security_reporte.Reconciler.Namespaces.{
  Place, choosing, requesting, stopping, awaiting, over, Work, listing, working, totalling, freeing,
  exiting, Worker, Workers, worker, turn, Has, begin_namespaces, request_slot, start_namespace,
  stop_waiting, next_kind, count_workload, add_total, free_slot, exit_group, Step, skip, request,
  take_slot, cancelled, return_error, last, return_success, list, reconcile, kind_done, add, free,
  exit, Reach, here, next, Cluster, Text, list_workloads,
}
use komodor_security_reporte.Prelude.{
  ℕ, ◌+◌, ◌-◌, ◌≤◌, ◌≡◌, List, [], ◌∷◌, ◌++◌, tally, tally-append, arith, refl, Option-cases, sym,
  inl, inr,
}

abbrev pub slot_of : Worker → ℕ
slot_of w = elim w.work [ exiting ↦ 0 | _ ↦ 1 ]

abbrev pub each : Worker → ℕ
each w = 1

abbrev pub asking : Place → ℕ
asking (requesting _ _) = 1
asking _ = 0

-- After ReconcileAll has returned, no goroutine is left.
abbrev pub Idle : Place → ℕ → Type 0
Idle (over _) group = group ≡ 0
Idle _ group = Unit

pub record IsCounted (concurrency : ℕ) (s : Workers) : Type 0 where
  pub slots : s.slots ≡ tally slot_of s.workers
  pub members : s.group ≡ tally each s.workers + asking s.place
  pub queue : s.queue_depth ≡ asking s.place
  pub bounded : s.slots ≤ concurrency
  pub idle : Idle s.place s.group

pub tally-turn :
    (w : Worker → ℕ) (before after : List Worker) (x y : Worker) (workers : List Worker)
    → workers ≡ before ++ (x ∷ after)
    → tally w (before ++ (y ∷ after)) + w x ≡ tally w workers + w y
tally-turn w before after x y workers e =
    rw e (omega (arith, tally-append w before (x ∷ after), tally-append w before (y ∷ after)))

pub tally_without :
    (w : Worker → ℕ) (before after : List Worker) (x : Worker) (workers : List Worker)
    → workers ≡ before ++ (x ∷ after)
    → tally w (before ++ after) + w x ≡ tally w workers
tally_without w before after x workers e =
    rw e (omega (arith, tally-append w before (x ∷ after), tally-append w before after))

module _ (cluster : Cluster) (kinds exclude : List Text) (concurrency : ℕ) where
  slot_of-next_kind :
      (ns : Text) (left : List Text) (n : ℕ) → slot_of (worker ns (next_kind cluster ns left n)) ≡ 1
  unfolding next_kind
  slot_of-next_kind ns [] n = refl
  slot_of-next_kind ns (kind ∷ left) n = elim (Option-cases (list_workloads cluster ns kind)) [
    | inl e ↦ rw (next_kind, e) refl
    | inr (wls, e) ↦ rw (next_kind, e) refl
  ]

  -- A goroutine that goes on and keeps its slot.
  turn-IsCounted :
      (before after : List Worker) (ns : Text) (a b : Work) (s : Workers)
      → Has before ns a after s
      → slot_of (worker ns a) ≡ slot_of (worker ns b)
      → IsCounted concurrency s
      → IsCounted concurrency (turn before ns b after s)
  turn-IsCounted before after ns a b s stands keeps c = record {
    slots = omega (
      arith,
      c.slots,
      keeps,
      tally-turn slot_of before after (worker ns a) (worker ns b) s.workers stands,
    );
    members = omega (
      arith,
      c.members,
      tally-turn each before after (worker ns a) (worker ns b) s.workers stands,
    );
    queue = c.queue;
    bounded = c.bounded;
    idle = c.idle;
  }

  -- The counts do not depend on what was reconciled and counted.
  recounted :
      (s t : Workers)
      → (t.place ≡ s.place)
        × (t.workers ≡ s.workers)
        × (t.slots ≡ s.slots)
        × (t.group ≡ s.group)
        × (t.queue_depth ≡ s.queue_depth)
      → IsCounted concurrency s
      → IsCounted concurrency t
  recounted s t (p, w, sl, g, d) c = record {
    slots = rw (sl, w) c.slots;
    members = rw (g, w, p) c.members;
    queue = rw (d, p) c.queue;
    bounded = rw sl c.bounded;
    idle = rw (p, g) c.idle;
  }

  idle_later : (place : Place) (n : ℕ) → Idle place n → Idle place (n - 1)
  idle_later (over _) n h = omega (arith, h)
  idle_later (choosing _) n h = tt
  idle_later (requesting _ _) n h = tt
  idle_later stopping n h = tt
  idle_later awaiting n h = tt

  Step-IsCounted :
      {s t : Workers}
      → Step cluster kinds exclude concurrency s t
      → IsCounted concurrency s
      → IsCounted concurrency t
  unfolding request_slot start_namespace stop_waiting count_workload add_total free_slot exit_group
  Step-IsCounted (skip ns nss stands out e) c = rw e (ground arith)
  Step-IsCounted (request ns nss stands out e) c = rw e (ground arith)
  Step-IsCounted {s = s} (take_slot ns nss stands room e) c = rw e (
      ground (
        arith,
        tally-append slot_of s.workers (worker ns (listing kinds 0) ∷ []),
        tally-append each s.workers (worker ns (listing kinds 0) ∷ []),
      ))
  Step-IsCounted (cancelled ns nss stands e) c = rw e (ground arith)
  Step-IsCounted (return_error stands none_left e) c = rw e (ground arith)
  Step-IsCounted (last stands e) c = rw e (ground arith)
  Step-IsCounted (return_success stands none_left e) c = rw e (ground arith)
  Step-IsCounted {s = s} (list before after ns left n stands e) c = rw e (
      turn-IsCounted before after ns (listing left n) (next_kind cluster ns left n) s stands
        (sym (slot_of-next_kind ns left n)) c)
  Step-IsCounted {s = s} (reconcile before after ns wl wls left n ok running stands e) c = rw e (
      recounted (turn before ns (working wls left n) after s) _ (refl, refl, refl, refl, refl)
        (turn-IsCounted before after ns (working (wl ∷ wls) left n) (working wls left n) s stands
          refl c))
  Step-IsCounted {s = s} (kind_done before after ns left n stands e) c =
      rw e (turn-IsCounted before after ns (working [] left n) (listing left n) s stands refl c)
  Step-IsCounted {s = s} (add before after ns n stands e) c = rw e (
      recounted (turn before ns freeing after s) _ (refl, refl, refl, refl, refl)
        (turn-IsCounted before after ns (totalling n) freeing s stands refl c))
  Step-IsCounted {s = s} (free before after ns stands room e) c = rw e (record {
    slots = omega (
      arith,
      c.slots,
      tally-turn slot_of before after (worker ns freeing) (worker ns exiting) s.workers stands,
    );
    members = omega (
      arith,
      c.members,
      tally-turn each before after (worker ns freeing) (worker ns exiting) s.workers stands,
    );
    queue = c.queue;
    bounded = omega (arith, c.bounded);
    idle = c.idle;
  })
  Step-IsCounted {s = s} (exit before after ns stands e) c = rw e (record {
    slots =
        omega
          (arith, c.slots, tally_without slot_of before after (worker ns exiting) s.workers stands);
    members =
        omega
          (arith, c.members, tally_without each before after (worker ns exiting) s.workers stands);
    queue = c.queue;
    bounded = c.bounded;
    idle = idle_later s.place s.group c.idle;
  })

  pub Reach-IsCounted :
      (namespaces : List Text) {s : Workers}
      → Reach cluster kinds exclude concurrency (begin_namespaces namespaces) s
      → IsCounted concurrency s
  unfolding begin_namespaces
  Reach-IsCounted namespaces here = record {
    slots = refl;
    members = refl;
    queue = refl;
    bounded = omega arith;
    idle = tt;
  }
  Reach-IsCounted namespaces (next run step) = Step-IsCounted step (Reach-IsCounted namespaces run)
