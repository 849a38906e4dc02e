-- ===== src/Reconciler/Tests/Pooled.antt =====
-- Examples of the interleavings of internal/reconciler/reconcile.go.
use komodor_security_reporte.Reconciler.Pool.Configured.{reconcile_workload-ends_configured}
use komodor_security_reporte.Config.Tests.{config, tenths, config_valid}
use komodor_security_reporte.Prelude.Text.{index_byte}
use komodor_security_reporte.Reconciler.Pool.{
  Pool, looping, returned, prepare_image, enqueue_scan, acquire_token, start_scan, prepare, enqueue,
  acquire, start, Reach, here, next, begin_workload, prepared_jobs,
}
use komodor_security_reporte.Prelude.{
  ◌+◌, ◌≤◌, ◌≡◌, ◌⊎◌, some, arith, length, ◌*◌, List, ◌∷◌, [], refl, ap,
}
use komodor_security_reporte.Prelude.Dict.{Dict}
use komodor_security_reporte.Prelude.Text.{Text, codes}
use komodor_security_reporte.Reconciler.Pool.Counted.{
  IsCounted, Reach-IsCounted, weigh, slot, any_stage,
}
use komodor_security_reporte.Reconciler.Pool.Ends.{CanStep, IsDone, steps}
use komodor_security_reporte.Reconciler.Workload.{
  reconcile_workload, backpressure_wait, Job, prepare_scan_image, jobs_of,
}
use komodor_security_reporte.Reconciler.Tests.Handling.{setup, app, fresh, pod}
use komodor_security_reporte.Reconciler.Pool.InOrder.{reconcile_workload-reached}
use komodor_security_reporte.Reconciler.Pool.Finished.{IsComplete, reconcile_workload-returns}
use komodor_security_reporte.Reconciler.Images.{from_pod_spec, ExtractedImage}
use komodor_security_reporte.Reconciler.Workload.Dispatched.{wanted_jobs}
use komodor_security_reporte.Registry.ImageRef.{ImageRef, parse}
use komodor_security_reporte.State.Entry.{Entry}
use komodor_security_reporte.Registry.Resolver.{resolve}
use komodor_security_reporte.Reconciler.Pool.Abandoned.{reconcile_workload-abandons}

abbrev shop : Text
shop = codes "shop"

abbrev in_order :
    (q : Pool (Dict Entry)) × Reach setup shop app 1 (begin_workload setup shop app fresh) q
    × (q.phase ≡ returned (reconcile_workload setup shop app fresh).0)
    × (q.progress ≡ (reconcile_workload setup shop app fresh).1)
in_order = reconcile_workload-reached setup shop app 1 (omega arith) fresh

reconcile_workload-reached_example :
    (q : Pool (Dict Entry)) × Reach setup shop app 1 (begin_workload setup shop app fresh) q
    × (q.phase ≡ returned (reconcile_workload setup shop app fresh).0)
    × (q.progress ≡ (reconcile_workload setup shop app fresh).1)
reconcile_workload-reached_example = reconcile_workload-reached setup shop app 1 (omega arith) fresh

reconcile_workload-returns_example :
    ((reconcile_workload setup shop app fresh).0 ≡ some backpressure_wait)
    ⊎ IsComplete setup shop app 1 fresh in_order.0 (reconcile_workload setup shop app fresh).0
reconcile_workload-returns_example =
    reconcile_workload-returns setup shop app 1 fresh (reconcile_workload setup shop app fresh).0
      in_order.1 in_order.2

Reach-IsCounted_example : IsCounted 1 in_order.0
Reach-IsCounted_example = Reach-IsCounted setup shop app 1 fresh in_order.1

abbrev main_image : ExtractedImage
main_image = record { image = codes "app"; container_name = codes "main" }

abbrev init_image : ExtractedImage
init_image = record { image = codes "busybox:1"; container_name = codes "init" }

-- The image that main_image resolves to.
abbrev resolved_main : ImageRef
resolved_main = record {
  original = codes "app";
  registry = codes "docker.io";
  repository = codes "library/app";
  tag = codes "latest";
  digest = codes "sha256:ab";
  resolved = codes "docker.io/library/app@sha256:ab";
}

abbrev main_scan : Text → Job
main_scan scanner = record {
  namespace = shop;
  workload = app;
  container = codes "main";
  image = resolved_main;
  scanner = scanner;
}

main_jobs :
    prepared_jobs setup shop app main_image
    ≡ main_scan (codes "trivy") ∷ main_scan (codes "snyk") ∷ []
unfolding prepared_jobs prepare_scan_image parse resolve jobs_of index_byte
main_jobs = refl

abbrev one_running :
    Job → Job → List ExtractedImage → List Job → Pool (Dict Entry) → Pool (Dict Entry)
one_running first second imgs jobs p = acquire_token second imgs jobs (
    enqueue_scan second imgs jobs (
      start_scan first imgs (second ∷ jobs)
        (acquire_token first imgs (second ∷ jobs) (enqueue_scan first imgs (second ∷ jobs) p))))

one_running-reached :
    (img : ExtractedImage) (imgs : List ExtractedImage) (first second : Job)
    → from_pod_spec pod ≡ img ∷ imgs
    → prepared_jobs setup shop app img ≡ first ∷ second ∷ []
    → Reach setup shop app 2 (begin_workload setup shop app fresh) (
        one_running first second imgs []
          (prepare_image setup shop app img imgs (begin_workload setup shop app fresh)))
unfolding acquire_token enqueue_scan start_scan prepare_image begin_workload
one_running-reached img imgs first second images jobs =
    next
      (next
        (next
          (next
            (next (next here (prepare img imgs (ap (λ l. looping l []) images) refl))
              (enqueue first imgs (second ∷ []) (ap (λ l. looping imgs l) jobs) refl))
            (acquire first imgs (second ∷ []) refl (omega arith) refl))
          (start first imgs (second ∷ []) refl refl))
        (enqueue second imgs [] refl refl))
      (acquire second imgs [] refl (omega arith) refl)

abbrev two_started : Pool (Dict Entry)
two_started =
    one_running (main_scan (codes "trivy")) (main_scan (codes "snyk")) (init_image ∷ []) [] (
      prepare_image setup shop app main_image (init_image ∷ [])
        (begin_workload setup shop app fresh))

two_started-reached : Reach setup shop app 2 (begin_workload setup shop app fresh) two_started
unfolding from_pod_spec
two_started-reached =
    one_running-reached main_image (init_image ∷ []) (main_scan (codes "trivy"))
      (main_scan (codes "snyk")) refl main_jobs

reconcile_workload-abandons_example :
    (q : Pool (Dict Entry)) × Reach setup shop app 2 two_started q
    × (q.phase ≡ returned (some backpressure_wait))
    × (q.flights ≡ two_started.flights)
    × (q.progress ≡ two_started.progress)
    × (q.tokens ≡ weigh slot q.flights)
    × (q.group ≡ weigh any_stage q.flights)
unfolding acquire_token from_pod_spec
reconcile_workload-abandons_example =
    reconcile_workload-abandons setup shop app 2 fresh (main_scan (codes "snyk")) (init_image ∷ [])
      [] two_started-reached refl

-- The configuration of Config/Tests has room for two scans.
reconcile_workload-ends_configured_example :
    (CanStep setup shop app 2 two_started ⊎ IsDone setup shop app 2 two_started)
    × (steps setup shop app 2 two_started-reached
        ≤ 2
          + length (from_pod_spec pod)
          + 7 * length (wanted_jobs setup shop app (from_pod_spec pod)))
reconcile_workload-ends_configured_example =
    reconcile_workload-ends_configured tenths config setup shop app fresh config_valid
      two_started-reached
