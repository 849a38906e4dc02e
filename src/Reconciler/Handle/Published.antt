-- ===== src/Reconciler/Handle/Published.antt =====
-- The events that handleScanResultStateAndPublish of internal/reconciler/reconcile.go sends.
use komodor_security_reporte.Prelude.{
  ◌+◌, ◌==◌, ℕ, ◌≡◌, refl, ap, Option, none, some, true, false, List, [], ◌∷◌, ◌++◌, if◌then◌else◌,
  Bool-cases, Option-cases, inl, inr, arith, ◌∙◌, sym, append-nil,
}
use mathlib.Core.Path.{ap₂}
use komodor_security_reporte.Prelude.Text.{Text}
use komodor_security_reporte.Registry.ImageRef.{ImageRef}
use komodor_security_reporte.Scanners.Result.{ScanResult}
use komodor_security_reporte.Policy.Evaluator.{evaluate_publish}
use komodor_security_reporte.Komodor.Publisher.{
  WorkloadContext, EventOptions, should_publish, event_from_scan_result,
}
use komodor_security_reporte.State.Backend.{Backend, Loaded-cases, load}
use komodor_security_reporte.Config.Mode.{publish_to_komodor, publish_to_events}
use komodor_security_reporte.Reconciler.Handle.{
  Effect, Outlets, komodor_event, kubernetes_event, event_skip, dedupe_hit, event_publish_error,
  state_lookup, make_kubernetes_event, publish_komodor_part, publish_events_part,
  publish_kubernetes_event, publish_and_update, handle_scan_result_state_and_publish, state_update,
  events_published, load_last_fingerprint,
}

-- The events among the effects, in order.
abbrev pub deliveries : List Effect → List Effect
deliveries [] = []
deliveries (komodor_event e ∷ effects) = komodor_event e ∷ deliveries effects
deliveries (kubernetes_event e ∷ effects) = kubernetes_event e ∷ deliveries effects
deliveries (_ ∷ effects) = deliveries effects

abbrev if_some : {A : Type 0} → Option A → List Effect → List Effect
if_some none effects = []
if_some (some a) effects = effects

-- The events of a result that is to be published: to Komodor when the mode says so and there is a
-- publisher, then to Kubernetes when the mode says so and there is a clientset.
unfoldable pub wanted_events :
    Outlets → Text → ScanResult → WorkloadContext → EventOptions → List Effect
wanted_events outlets scanner result workload opts =
    (if publish_to_komodor outlets.mode
      then if_some outlets.publisher
          (komodor_event (event_from_scan_result result workload opts) ∷ [])
      else [])
    ++ (if publish_to_events outlets.mode
        then if_some outlets.create_event
            (kubernetes_event (make_kubernetes_event outlets.quote scanner result workload) ∷ [])
        else [])

pub evaluate_publish-always :
    (hash : Text → Text) (result : ScanResult) (last : Text)
    → evaluate_publish hash result last false ≡ true
unfolding evaluate_publish
evaluate_publish-always hash result last = ground arith

deliveries-append : (xs ys : List Effect) → deliveries (xs ++ ys) ≡ deliveries xs ++ deliveries ys
deliveries-append [] ys = refl
deliveries-append (komodor_event e ∷ xs) ys =
    ap (λ l. komodor_event e ∷ l) (deliveries-append xs ys)
deliveries-append (kubernetes_event e ∷ xs) ys =
    ap (λ l. kubernetes_event e ∷ l) (deliveries-append xs ys)
deliveries-append (state_lookup t ∷ xs) ys = deliveries-append xs ys
deliveries-append (dedupe_hit ∷ xs) ys = deliveries-append xs ys
deliveries-append (events_published ∷ xs) ys = deliveries-append xs ys
deliveries-append (event_publish_error ∷ xs) ys = deliveries-append xs ys
deliveries-append (event_skip t ∷ xs) ys = deliveries-append xs ys
deliveries-append (state_update t ∷ xs) ys = deliveries-append xs ys

-- The effects of a publication, with or without the update of the state.
deliveries-publication :
    (xs ys : List Effect) (t : Text)
    → deliveries (xs ++ (ys ++ (events_published ∷ state_update t ∷ []))) ≡ deliveries (xs ++ ys)
deliveries-publication xs ys t =
    deliveries-append xs (ys ++ (events_published ∷ state_update t ∷ []))
    ∙ ap (λ l. deliveries xs ++ l) (deliveries-append ys _ ∙ append-nil (deliveries ys))
    ∙ sym (deliveries-append xs ys)

deliveries-load :
    {S : Type 0} (backend : Backend S) (key : Text) (s : S) (l : List Effect)
    → deliveries ((load_last_fingerprint backend key s).1 ∷ l) ≡ deliveries l
unfolding load_last_fingerprint
deliveries-load backend key s l = elim (Loaded-cases (load backend s key)) [
  | inl e ↦ rw (deliveries, e)
  | inr (inl e) ↦ rw (deliveries, e)
  | inr (inr (entry, e)) ↦ rw (deliveries, e)
]

-- How many outlets take the result.
unfoldable pub publish_count : Outlets → Text → ScanResult → WorkloadContext → EventOptions → ℕ
publish_count outlets scanner result workload opts =
    (publish_komodor_part outlets result workload opts).0
    + (publish_events_part outlets scanner result workload).0

module _ (outlets : Outlets) (scanner : Text) (result : ScanResult) where
  module _ (workload : WorkloadContext) (opts : EventOptions) where
    komodor_deliveries : deliveries (publish_komodor_part outlets result workload opts).1 ≡ (
        if publish_to_komodor outlets.mode
        then if_some outlets.publisher
            (komodor_event (event_from_scan_result result workload opts) ∷ [])
        else [])
    unfolding publish_komodor_part
    komodor_deliveries =
        ground (arith, Option-cases outlets.publisher, Bool-cases (publish_to_komodor outlets.mode))

    kubernetes_deliveries : deliveries (publish_events_part outlets scanner result workload).1 ≡ (
        if publish_to_events outlets.mode
        then if_some outlets.create_event
            (kubernetes_event (make_kubernetes_event outlets.quote scanner result workload) ∷ [])
        else [])
    unfolding publish_events_part publish_kubernetes_event
    kubernetes_deliveries =
        ground
          (arith, Option-cases outlets.create_event, Bool-cases (publish_to_events outlets.mode))

    update_deliveries :
        {S : Type 0} (backend : Backend S) (hash : Text → Text) (now : ℕ) (resolved : ImageRef)
        (s : S)
        → deliveries
            (publish_and_update backend hash outlets now scanner resolved result workload opts s).1
          ≡ wanted_events outlets scanner result workload opts
    unfolding publish_and_update wanted_events publish_count
    update_deliveries backend hash now resolved s =
        let sent = (publish_komodor_part outlets result workload opts).1 in
        let created = (publish_events_part outlets scanner result workload).1 in
        let all =
          deliveries-append sent created
          ∙ ap₂ (λ xs ys. xs ++ ys) komodor_deliveries kubernetes_deliveries in
        elim (Bool-cases (publish_count outlets scanner result workload opts == 0)) [
          | inl none_sent ↦ rw none_sent all
          | inr some_sent ↦ rw some_sent (deliveries-publication sent created _ ∙ all)
        ]

    -- The events that are sent for a result depend on the result, the workload and the
    -- configuration alone, for every backend and all that it stores: none for a result that
    -- ShouldPublish refuses, else the wanted ones. No result is held back as a duplicate.
    pub handle_deliveries :
        {S : Type 0} (backend : Backend S) (hash : Text → Text) (now : ℕ) (resolved : ImageRef)
        (s : S)
        → deliveries
            (handle_scan_result_state_and_publish backend hash outlets now scanner resolved result
              workload opts s).1
          ≡ (if should_publish result opts
              then wanted_events outlets scanner result workload opts
              else [])
    unfolding handle_scan_result_state_and_publish
    handle_deliveries backend hash now resolved s = elim (Bool-cases (should_publish result opts)) [
      | inl wanted ↦
          rw (evaluate_publish-always, wanted, deliveries-load)
            (update_deliveries backend hash now resolved _)
      | inr refused ↦ rw (evaluate_publish-always, refused, deliveries-load)
    ]
