-- ===== src/Reconciler/Namespaces/Ends.antt =====
-- That ReconcileAll of internal/reconciler/reconcile.go ends, however the namespaces interleave.
use komodor_security_reporte.Reconciler.Namespaces.{
  Place, choosing, requesting, stopping, awaiting, over, Work, listing, working, totalling, freeing,
  exiting, Worker, Workers, worker, begin_namespaces, request_slot, start_namespace, stop_waiting,
  next_kind, count_workload, add_total, free_slot, exit_group, Step, skip, request, take_slot,
  cancelled, return_error, last, return_success, list, reconcile, kind_done, add, free, exit, Reach,
  here, next, Cluster, Text, is_excluded, list_workloads,
}
use komodor_security_reporte.Config.Runtime.{effective_namespace_concurrency}
use komodor_security_reporte.Prelude.{
  ℕ, none, some, ◌+◌, ◌*◌, ◌<◌, ◌≤◌, ◌≡◌, ◌⊎◌, Bool, true, List, [], ◌∷◌, length, tally,
  tally-append, arith, refl, ap, Option-cases, inl, inr, Bool-cases,
}
use komodor_security_reporte.Prelude.Int.{ℤ, pos_part}
use komodor_security_reporte.Reconciler.Namespaces.Awaited.{
  tally-turn, IsCounted, tally_without, slot_of, Reach-IsCounted, each, asking,
}
use komodor_security_reporte.Config.Runtime.{effective_namespace_concurrency}

module _ (cluster : Cluster) (kinds exclude : List Text) (concurrency : ℕ) where
  -- The number of workloads of a namespace, of the kinds that can be listed.
  unfoldable pub workloads_of : Text → List Text → ℕ
  workloads_of ns [] = 0
  workloads_of ns (kind ∷ left) =
      let rest = workloads_of ns left in
      elim (list_workloads cluster ns kind) [ none ↦ rest | some wls ↦ length wls + rest ]

  -- The steps that a goroutine has still to make at most: two for each kind and one for each
  -- workload, and those at its end.
  abbrev pub worker_cost : Worker → ℕ
  worker_cost w = elim w.work [
    | listing left n ↦ 4 + 2 * length left + workloads_of w.namespace left
    | working wls left n ↦ length wls + 5 + 2 * length left + workloads_of w.namespace left
    | totalling n ↦ 3
    | freeing ↦ 2
    | exiting ↦ 1
  ]

  abbrev pub namespace_cost : Text → ℕ
  namespace_cost ns = 6 + 2 * length kinds + workloads_of ns kinds

  abbrev pub place_cost : Place → ℕ
  place_cost (choosing nss) = 2 + tally namespace_cost nss
  place_cost (requesting ns nss) = 1 + namespace_cost ns + tally namespace_cost nss
  place_cost stopping = 1
  place_cost awaiting = 1
  place_cost (over _) = 0

  abbrev pub cost : Workers → ℕ
  cost s = place_cost s.place + tally worker_cost s.workers

  next_kind-cost :
      (ns : Text) (left : List Text) (n : ℕ)
      → worker_cost (worker ns (next_kind cluster ns left n))
        < worker_cost (worker ns (listing left n))
  unfolding next_kind workloads_of
  next_kind-cost ns [] n = omega arith
  next_kind-cost ns (kind ∷ left) n = elim (Option-cases (list_workloads cluster ns kind)) [
    | inl e ↦ rw (next_kind, workloads_of, e) (omega arith)
    | inr (wls, e) ↦ rw (next_kind, workloads_of, e) (omega arith)
  ]

  Step-cost : {s t : Workers} → Step cluster kinds exclude concurrency s t → cost t < cost s
  unfolding request_slot start_namespace stop_waiting count_workload add_total free_slot exit_group
  Step-cost (skip ns nss stands out e) = rw (e, stands) (omega arith)
  Step-cost (request ns nss stands stays e) = rw (e, stands) (omega arith)
  Step-cost {s = s} (take_slot ns nss stands room e) =
      rw (e, stands)
        (omega (arith, tally-append worker_cost s.workers (worker ns (listing kinds 0) ∷ [])))
  Step-cost (cancelled ns nss stands e) = rw (e, stands) (omega arith)
  Step-cost (return_error stands none_left e) = rw (e, stands) (omega arith)
  Step-cost (last stands e) = rw (e, stands) (omega arith)
  Step-cost (return_success stands none_left e) = rw (e, stands) (omega arith)
  Step-cost {s = s} (list before after ns left n stands e) = rw e (
      omega (
        arith,
        next_kind-cost ns left n,
        tally-turn worker_cost before after (worker ns (listing left n))
            (worker ns (next_kind cluster ns left n)) s.workers stands,
      ))
  Step-cost {s = s} (reconcile before after ns wl wls left n ok running stands e) = rw e (
      omega (
        arith,
        tally-turn worker_cost before after (worker ns (working (wl ∷ wls) left n))
            (worker ns (working wls left n)) s.workers stands,
      ))
  Step-cost {s = s} (kind_done before after ns left n stands e) = rw e (
      omega (
        arith,
        tally-turn worker_cost before after (worker ns (working [] left n))
            (worker ns (listing left n)) s.workers stands,
      ))
  Step-cost {s = s} (add before after ns n stands e) = rw e (
      omega (
        arith,
        tally-turn worker_cost before after (worker ns (totalling n)) (worker ns freeing) s.workers
            stands,
      ))
  Step-cost {s = s} (free before after ns stands room e) = rw e (
      omega (
        arith,
        tally-turn worker_cost before after (worker ns freeing) (worker ns exiting) s.workers
            stands,
      ))
  Step-cost {s = s} (exit before after ns stands e) =
      rw e
        (omega (arith, tally_without worker_cost before after (worker ns exiting) s.workers stands))

  abbrev pub steps : {s t : Workers} → Reach cluster kinds exclude concurrency s t → ℕ
  steps here = 0
  steps (next run step) = 1 + steps run

  steps-cost :
      {s t : Workers} (run : Reach cluster kinds exclude concurrency s t)
      → steps run + cost t ≤ cost s
  steps-cost here = omega arith
  steps-cost (next run step) = omega (arith, steps-cost run, Step-cost step)

  abbrev pub CanStep : Workers → Type 0
  CanStep s = (t : Workers) × Step cluster kinds exclude concurrency s t

  abbrev pub IsDone : Workers → Type 0
  IsDone s = (ok : Bool) × (s.place ≡ over ok) × (s.workers ≡ [])

  worker-step :
      (s : Workers) (ns : Text) (work : Work) (rest : List Worker)
      → IsCounted concurrency s
      → s.workers ≡ worker ns work ∷ rest
      → CanStep s
  worker-step s ns (listing left n) rest c e = (_, list [] rest ns left n e refl)
  worker-step s ns (working [] left n) rest c e = (_, kind_done [] rest ns left n e refl)
  worker-step s ns (working (wl ∷ wls) left n) rest c e =
      (_, reconcile [] rest ns wl wls left n true 0 e refl)
  worker-step s ns (totalling n) rest c e = (_, add [] rest ns n e refl)
  worker-step s ns freeing rest c e =
      (_, free [] rest ns e (omega (arith, c.slots, ap (tally slot_of) e)) refl)
  worker-step s ns exiting rest c e = (_, exit [] rest ns e refl)

  module _ (room : 0 < concurrency) where
    choose : (s : Workers) (ns : Text) (nss : List Text) → s.place ≡ choosing (ns ∷ nss) → CanStep s
    choose s ns nss e = elim (Bool-cases (is_excluded ns exclude)) [
      | inl out ↦ (_, skip ns nss e out refl)
      | inr stays ↦ (_, request ns nss e stays refl)
    ]

    place-step :
        (s : Workers) (place : Place)
        → IsCounted concurrency s
        → s.workers ≡ []
        → s.place ≡ place
        → CanStep s ⊎ IsDone s
    place-step s (choosing []) c idle e = inl (_, last e refl)
    place-step s (choosing (ns ∷ nss)) c idle e = inl (choose s ns nss e)
    place-step s (requesting ns nss) c idle e =
        inl (_, take_slot ns nss e (omega (arith, room, c.slots, ap (tally slot_of) idle)) refl)
    place-step s stopping c idle e =
        inl (_, return_error e (omega (arith, c.members, ap (tally each) idle, ap asking e)) refl)
    place-step s awaiting c idle e =
        inl (_, return_success e (omega (arith, c.members, ap (tally each) idle, ap asking e)) refl)
    place-step s (over ok) c idle e = inr (ok, e, idle)

    can_step :
        (s : Workers) (workers : List Worker)
        → IsCounted concurrency s
        → s.workers ≡ workers
        → CanStep s ⊎ IsDone s
    can_step s [] c idle = place-step s s.place c idle refl
    can_step s (w ∷ rest) c busy = inl (worker-step s w.namespace w.work rest c busy)

-- The slots of nsSemaphore.
abbrev pub slots_of : ℤ → ℕ
slots_of namespace_concurrency = pos_part (effective_namespace_concurrency namespace_concurrency)

slots_of_pos : (n : ℤ) → 0 < slots_of n
unfolding effective_namespace_concurrency
slots_of_pos n = ground arith

-- However the goroutines of the namespaces interleave, as the reconciliation of each workload ends:
-- with the effective concurrency of any configuration, a step can be made until ReconcileAll has
-- returned and each goroutine has ended, and that is after at most two steps, and for each namespace
-- six, two for each kind and one for each workload.
pub reconcile_all-ends :
    (cluster : Cluster) (kinds exclude namespaces : List Text) (n : ℤ) {s : Workers}
    (run : Reach cluster kinds exclude (slots_of n) (begin_namespaces namespaces) s)
    → (CanStep cluster kinds exclude (slots_of n) s ⊎ IsDone cluster kinds exclude (slots_of n) s)
      × (steps cluster kinds exclude (slots_of n) run
          ≤ 2 + tally (namespace_cost cluster kinds exclude (slots_of n)) namespaces)
unfolding begin_namespaces
reconcile_all-ends cluster kinds exclude namespaces n {s = s} run = (
  can_step cluster kinds exclude (slots_of n) (slots_of_pos n) s s.workers
      (Reach-IsCounted cluster kinds exclude (slots_of n) namespaces run) refl,
  omega (arith, steps-cost cluster kinds exclude (slots_of n) run),
)
