-- ===== src/Reconciler/Namespaces/Tallied.antt =====
-- The workloads that ReconcileAll of internal/reconciler/reconcile.go has reconciled, counted and
-- left, at each step.
use komodor_security_reporte.Reconciler.Namespaces.{
  Place, choosing, requesting, stopping, awaiting, over, Work, listing, working, totalling, freeing,
  exiting, Worker, Workers, worker, Has, begin_namespaces, request_slot, start_namespace,
  stop_waiting, next_kind, count_workload, add_total, free_slot, exit_group, Step, skip, request,
  take_slot, cancelled, return_error, last, return_success, list, reconcile, kind_done, add, free,
  exit, Reach, here, next, Cluster, Text, is_excluded, list_workloads, WorkloadInfo,
}
use komodor_security_reporte.Reconciler.Namespaces.Items.{one, in_namespace, tally-in_namespace}
use komodor_security_reporte.Prelude.{
  ℕ, ◌+◌, ◌≡◌, none, some, true, false, List, [], ◌∷◌, ◌++◌, length, if◌then◌else◌, tally, arith,
  refl, ap, Option-cases, inl, inr, sym, tally-append, length-append,
}
use komodor_security_reporte.Reconciler.Namespaces.Awaited.{tally-turn, tally_without}

module _ (cluster : Cluster) (kinds exclude : List Text) (concurrency : ℕ) where
  -- The workloads of a namespace, of the kinds that can be listed.
  unfoldable pub workloads_in : Text → List Text → List (Text × WorkloadInfo)
  workloads_in ns [] = []
  workloads_in ns (kind ∷ left) =
      let rest = workloads_in ns left in
      elim (list_workloads cluster ns kind) [ none ↦ rest | some wls ↦ in_namespace ns wls ++ rest ]

  -- Those of the namespaces that are not excluded.
  unfoldable pub all_workloads : List Text → List (Text × WorkloadInfo)
  unfolding workloads_in
  all_workloads [] = []
  all_workloads (ns ∷ nss) =
      let rest = all_workloads nss in
      if is_excluded ns exclude then rest else workloads_in ns kinds ++ rest

  -- The number of workloads that a goroutine has still to add to totalWorkloads.
  abbrev pub pending_of : Worker → ℕ
  pending_of w = elim w.work [
    | listing left n ↦ n + tally one (workloads_in w.namespace left)
    | working wls left n ↦ n + tally one (workloads_in w.namespace left)
    | totalling n ↦ n
    | _ ↦ 0
  ]

  -- The namespaces that the loop has still to start, unless the context is cancelled.
  abbrev pub Remains : (Text × WorkloadInfo → ℕ) → ℕ → Place → ℕ → Type 0
  Remains w all (choosing nss) n = n + tally w (all_workloads nss) ≡ all
  Remains w all (requesting ns nss) n =
      n + (tally w (workloads_in ns kinds) + tally w (all_workloads nss)) ≡ all
  Remains w all awaiting n = n ≡ all
  Remains w all (over true) n = n ≡ all
  Remains w all (over false) n = Unit
  Remains w all stopping n = Unit

  module _ (w : Text × WorkloadInfo → ℕ) where
    -- The weight of the workloads that a goroutine has still to reconcile.
    abbrev pub left_of : Worker → ℕ
    left_of x = elim x.work [
      | listing left n ↦ tally w (workloads_in x.namespace left)
      | working wls left n ↦
          tally w (in_namespace x.namespace wls) + tally w (workloads_in x.namespace left)
      | _ ↦ 0
    ]

    next_kind-left :
        (ns : Text) (left : List Text) (n : ℕ)
        → (left_of (worker ns (next_kind cluster ns left n)) ≡ tally w (workloads_in ns left))
          × (pending_of (worker ns (next_kind cluster ns left n))
              ≡ n + tally one (workloads_in ns left))
    unfolding next_kind workloads_in
    next_kind-left ns [] n = (refl, omega arith)
    next_kind-left ns (kind ∷ left) n = elim (Option-cases (list_workloads cluster ns kind)) [
      | inl e ↦ rw (next_kind, workloads_in, e) (refl, refl)
      | inr (wls, e) ↦
          rw (next_kind, workloads_in, e)
            (
              omega (arith, tally-append w (in_namespace ns wls) (workloads_in ns left)),
              omega (
                arith,
                tally-append one (in_namespace ns wls) (workloads_in ns left),
                tally-in_namespace ns wls,
              ),
            )
    ]

    -- The workloads reconciled, with those that are left, and those counted, with those that are
    -- left, are all the workloads; and a call of reconcileWorkload is a success or an error.
    pub record IsTallied (all number : ℕ) (s : Workers) : Type 0 where
      pub weighed : Remains w all s.place (tally w s.reconciled + tally left_of s.workers)
      pub counted : Remains one number s.place (s.total_workloads + tally pending_of s.workers)
      pub ended : s.successes + s.errors ≡ length s.reconciled

    at_place :
        (v : Text × WorkloadInfo → ℕ) (all : ℕ) (p q : Place) (m n : ℕ)
        → p ≡ q
        → m ≡ n
        → Remains v all p m
        → Remains v all q n
    at_place v all p q m n e f h = rw (sym e, sym f) h

    -- A goroutine that goes on, with the counters of `t`.
    turn-IsTallied :
        (all number : ℕ) (before after : List Worker) (ns : Text) (a b : Work) (s t : Workers)
        → Has before ns a after s
        → t.place ≡ s.place
        → t.workers ≡ before ++ (worker ns b ∷ after)
        → tally w t.reconciled + left_of (worker ns b)
          ≡ tally w s.reconciled + left_of (worker ns a)
        → t.total_workloads + pending_of (worker ns b)
          ≡ s.total_workloads + pending_of (worker ns a)
        → t.successes + t.errors ≡ length t.reconciled
        → IsTallied all number s
        → IsTallied all number t
    turn-IsTallied all number before after ns a b s t stands place workers weighed counted ended l =
        record {
          weighed =
              at_place w all s.place t.place _ _ (sym place)
                (omega (
                  arith,
                  weighed,
                  ap (tally left_of) workers,
                  tally-turn left_of before after (worker ns a) (worker ns b) s.workers stands,
                ))
                l.weighed;
          counted =
              at_place one number s.place t.place _ _ (sym place)
                (omega (
                  arith,
                  counted,
                  ap (tally pending_of) workers,
                  tally-turn pending_of before after (worker ns a) (worker ns b) s.workers stands,
                ))
                l.counted;
          ended = ended;
        }

    all_skipped :
        (ns : Text) (nss : List Text)
        → is_excluded ns exclude ≡ true
        → all_workloads (ns ∷ nss) ≡ all_workloads nss
    unfolding all_workloads
    all_skipped ns nss out = rw (all_workloads, out) refl

    all_taken :
        (v : Text × WorkloadInfo → ℕ) (ns : Text) (nss : List Text)
        → is_excluded ns exclude ≡ false
        → tally v (all_workloads (ns ∷ nss))
          ≡ tally v (workloads_in ns kinds) + tally v (all_workloads nss)
    unfolding all_workloads
    all_taken v ns nss stays =
        rw (all_workloads, stays) (tally-append v (workloads_in ns kinds) (all_workloads nss))

    pub at_stand :
        (all number : ℕ) (s : Workers) (p : Place)
        → s.place ≡ p
        → IsTallied all number s
        → Remains w all p (tally w s.reconciled + tally left_of s.workers)
          × Remains one number p (s.total_workloads + tally pending_of s.workers)
    at_stand all number s p stands l = (
      at_place w all s.place p _ _ stands refl l.weighed,
      at_place one number s.place p _ _ stands refl l.counted,
    )

    one_more :
        (w : Worker → ℕ) (s : Workers) (x : Worker)
        → tally w (s.workers ++ (x ∷ [])) ≡ tally w s.workers + w x
    one_more w s x = omega (arith, tally-append w s.workers (x ∷ []))

    Step-IsTallied :
        (all number : ℕ) {s t : Workers}
        → Step cluster kinds exclude concurrency s t
        → IsTallied all number s
        → IsTallied all number t
    unfolding request_slot start_namespace stop_waiting count_workload add_total free_slot
        exit_group workloads_in all_workloads
    Step-IsTallied all number {s = s} (skip ns nss stands out e) l =
        let (a, b) = at_stand all number s _ stands l in
        rw e (record {
          weighed = omega (arith, a, ap (tally w) (all_skipped ns nss out));
          counted = omega (arith, b, ap (tally one) (all_skipped ns nss out));
          ended = l.ended;
        })
    Step-IsTallied all number {s = s} (request ns nss stands stays e) l =
        let (a, b) = at_stand all number s _ stands l in
        rw e (record {
          weighed = omega (arith, a, all_taken w ns nss stays);
          counted = omega (arith, b, all_taken one ns nss stays);
          ended = l.ended;
        })
    Step-IsTallied all number {s = s} (take_slot ns nss stands room e) l =
        let (a, b) = at_stand all number s _ stands l in
        rw e (record {
          weighed = omega (arith, a, one_more left_of s (worker ns (listing kinds 0)));
          counted = omega (arith, b, one_more pending_of s (worker ns (listing kinds 0)));
          ended = l.ended;
        })
    Step-IsTallied all number (cancelled ns nss stands e) l =
        rw e (record { weighed = tt; counted = tt; ended = l.ended })
    Step-IsTallied all number (return_error stands none_left e) l =
        rw e (record { weighed = tt; counted = tt; ended = l.ended })
    Step-IsTallied all number {s = s} (last stands e) l =
        let (a, b) = at_stand all number s _ stands l in
        rw e (record { weighed = omega (arith, a); counted = omega (arith, b); ended = l.ended })
    Step-IsTallied all number {s = s} (return_success stands none_left e) l =
        let (a, b) = at_stand all number s _ stands l in
        rw e (record { weighed = a; counted = b; ended = l.ended })
    Step-IsTallied all number {s = s} (list before after ns left n stands e) l =
        let (a, b) = next_kind-left ns left n in
        rw e (
          turn-IsTallied all number before after ns (listing left n) (next_kind cluster ns left n) s
            _ stands refl refl (omega (arith, a)) (omega (arith, b)) l.ended l)
    Step-IsTallied all number {s = s} (reconcile before after ns wl wls left n ok running stands e)
          l =
        rw e (
          turn-IsTallied all number before after ns (working (wl ∷ wls) left n) (working wls left n)
            s _ stands refl refl (omega (arith, tally-append w s.reconciled ((ns, wl) ∷ []))) refl
            (ground (arith, l.ended, length-append s.reconciled ((ns, wl) ∷ []))) l)
    Step-IsTallied all number {s = s} (kind_done before after ns left n stands e) l = rw e (
        turn-IsTallied all number before after ns (working [] left n) (listing left n) s _ stands
          refl refl (omega arith) refl l.ended l)
    Step-IsTallied all number {s = s} (add before after ns n stands e) l = rw e (
        turn-IsTallied all number before after ns (totalling n) freeing s _ stands refl refl refl
          (omega arith) l.ended l)
    Step-IsTallied all number {s = s} (free before after ns stands room e) l = rw e (
        turn-IsTallied all number before after ns freeing exiting s _ stands refl refl refl refl
          l.ended l)
    Step-IsTallied all number {s = s} (exit before after ns stands e) l = rw e (record {
      weighed =
          at_place w all s.place s.place _ _ refl
            (omega (arith, tally_without left_of before after (worker ns exiting) s.workers stands))
            l.weighed;
      counted =
          at_place one number s.place s.place _ _ refl
            (omega
              (arith, tally_without pending_of before after (worker ns exiting) s.workers stands))
            l.counted;
      ended = l.ended;
    })

    pub Reach-IsTallied :
        (namespaces : List Text) {s : Workers}
        → Reach cluster kinds exclude concurrency (begin_namespaces namespaces) s
        → IsTallied (tally w (all_workloads namespaces)) (tally one (all_workloads namespaces)) s
    unfolding begin_namespaces
    Reach-IsTallied namespaces here = record {
      weighed = omega arith;
      counted = omega arith;
      ended = refl;
    }
    Reach-IsTallied namespaces (next run step) =
        Step-IsTallied (tally w (all_workloads namespaces)) (tally one (all_workloads namespaces))
          step (Reach-IsTallied namespaces run)
