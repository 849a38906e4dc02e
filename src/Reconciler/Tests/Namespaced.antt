-- ===== src/Reconciler/Tests/Namespaced.antt =====
-- A run of ReconcileAll of internal/reconciler/reconcile.go with a namespace that is excluded, and
-- one with a workload.
use komodor_security_reporte.Reconciler.Namespaces.Ends.{
  CanStep, IsDone, steps, namespace_cost, reconcile_all-ends,
}
use komodor_security_reporte.Config.Runtime.{effective_namespace_concurrency}
use komodor_security_reporte.Prelude.Int.{pos}
use komodor_security_reporte.Prelude.{◌⊎◌}
use komodor_security_reporte.Reconciler.Namespaces.{
  over, Workers, begin_namespaces, request_slot, start_namespace, next_kind, count_workload,
  add_total, free_slot, exit_group, skip, request, take_slot, last, return_success, list, reconcile,
  kind_done, add, free, exit, Reach, here, next,
}
use komodor_security_reporte.Prelude.{
  ◌+◌, ◌≤◌, ◌≡◌, Bool, true, List, [], ◌∷◌, tally, length, arith, refl,
}
use komodor_security_reporte.Prelude.Text.{Text, codes, text_eq}
use komodor_security_reporte.Reconciler.Images.{is_excluded, list_workloads}
use komodor_security_reporte.Reconciler.Namespaces.Awaited.{slot_of}
use komodor_security_reporte.Reconciler.Namespaces.Tallied.{all_workloads}
use komodor_security_reporte.Reconciler.Namespaces.Items.{SameItems}
use komodor_security_reporte.Reconciler.Namespaces.Returned.{reconcile_all-awaits}
use komodor_security_reporte.Reconciler.Tests.Handling.{app, cluster}

abbrev shop : Text
shop = codes "shop"

abbrev system : Text
system = codes "kube-system"

abbrev deployment : List Text
deployment = codes "Deployment" ∷ []

abbrev Run : Workers → Workers → Type 0
Run = Reach cluster deployment (system ∷ []) 1

abbrev ended : Workers
ended = record {
  place = over true;
  workers = [];
  slots = 0;
  group = 0;
  queue_depth = 0;
  total_workloads = 1;
  successes = 1;
  errors = 0;
  reconciled = (shop, app) ∷ [];
  left_running = 0;
}

run_to_end : Run (begin_namespaces (system ∷ shop ∷ [])) ended
unfolding begin_namespaces request_slot start_namespace next_kind count_workload add_total free_slot
    exit_group is_excluded list_workloads text_eq
run_to_end =
    next
      (next
        (next
          (next
            (next
              (next
                (next
                  (next
                    (next
                      (next
                        (next (next here (skip system (shop ∷ []) refl refl refl))
                          (request shop [] refl refl refl))
                        (take_slot shop [] refl (omega arith) refl))
                      (list [] [] shop deployment 0 refl refl))
                    (reconcile [] [] shop app [] [] 1 true 0 refl refl))
                  (kind_done [] [] shop [] 1 refl refl))
                (list [] [] shop [] 1 refl refl))
              (add [] [] shop 1 refl refl))
            (free [] [] shop refl (omega arith) refl))
          (exit [] [] shop refl refl))
        (last refl refl))
      (return_success refl refl refl)

reconcile_all-awaits_example :
    (tally slot_of ended.workers ≤ 1)
    × ((ok : Bool)
        → ended.place ≡ over ok
        → (ended.workers ≡ []) × (ended.slots ≡ 0) × (ended.group ≡ 0) × (ended.queue_depth ≡ 0))
    × (ended.place ≡ over true
        → SameItems ended.reconciled
            (all_workloads cluster deployment (system ∷ []) 1 (system ∷ shop ∷ []))
          × (ended.successes + ended.errors ≡ length ended.reconciled)
          × (ended.total_workloads ≡ length ended.reconciled))
reconcile_all-awaits_example =
    reconcile_all-awaits cluster deployment (system ∷ []) 1 (system ∷ shop ∷ []) run_to_end

reconcile_all-ends_example :
    (CanStep cluster deployment (system ∷ []) 1 ended
      ⊎ IsDone cluster deployment (system ∷ []) 1 ended)
    × (steps cluster deployment (system ∷ []) 1 run_to_end
        ≤ 2 + tally (namespace_cost cluster deployment (system ∷ []) 1) (system ∷ shop ∷ []))
unfolding effective_namespace_concurrency
reconcile_all-ends_example =
    reconcile_all-ends cluster deployment (system ∷ []) (system ∷ shop ∷ []) (pos 1) run_to_end
