-- ===== src/Reconciler/Workload.antt =====
-- ReconcileAll, reconcileWorkload, prepareScanImage and runScannerForImage of
-- internal/reconciler/reconcile.go. The goroutines of the scans run one after the other, in the
-- order in which they are started; what the others do to a scan's breaker meanwhile is part of the
-- scan's environment. Log lines, gauges and the time metrics are left out.
pub mod Dispatched
pub mod Excluded
use komodor_security_reporte.Prelude.{
  ℕ, Option, none, some, Bool, true, false, List, [], ◌∷◌, ◌++◌, if◌then◌else◌, not, length,
}
use komodor_security_reporte.Prelude.Text.{Text, codes}
use komodor_security_reporte.Prelude.Dict.{Dict}
use komodor_security_reporte.Prelude.Int.{ℤ}
use komodor_security_reporte.Registry.ImageRef.{ImageRef, parse}
use komodor_security_reporte.Registry.Resolver.{
  DigestLookup, Resolution, resolved_ok, resolve_failed, resolve,
}
use komodor_security_reporte.Komodor.Publisher.{WorkloadContext, EventOptions}
use komodor_security_reporte.State.Backend.{Backend}
use komodor_security_reporte.Reconciler.Circuit.{RuntimePolicy}
use komodor_security_reporte.Reconciler.Backoff.{FloatOps}
use komodor_security_reporte.Reconciler.Errors.{ErrorClass}
use komodor_security_reporte.Reconciler.Resilience.{
  RuntimeState, Environment, ExecError, ExecOutcome, scanned, failed, Run,
  execute_scanner_with_resilience,
}
use komodor_security_reporte.Reconciler.Handle.{
  Effect, is_none, Outlets, handle_scan_result_state_and_publish,
}
use komodor_security_reporte.Reconciler.Images.{
  ExtractedImage, WorkloadInfo, Cluster, from_pod_spec, list_workloads, resolve_namespaces,
  is_excluded,
}

pub record Settings : Type 0 where
  pub cluster_name : Text
  pub options : EventOptions
  pub include : List Text
  pub exclude : List Text
  pub kinds : List Text

-- One scan: what runScannerForImage is called with.
pub record Job : Type 0 where
  pub namespace : Text
  pub workload : WorkloadInfo
  pub container : Text
  pub image : ImageRef
  pub scanner : Text

-- What the rest of the world does in a scan: whether the backpressure lets it start, or the context
-- is cancelled, what the scanner does, and the time at which the result is handled.
pub record ScanWorld : Type 0 where
  pub ready : Bool
  pub environment : Environment
  pub now : ℕ

-- The calls and metrics of a reconciliation; `recorded` is RecordResult of the backpressure.
pub data WorkEffect : Type 0 where
  images_observed : ℕ → WorkEffect
  image_resolved resolution_error : WorkEffect
  dispatched : Job → WorkEffect
  scan_error : Text → ErrorClass → WorkEffect
  scan_completed : ℕ → WorkEffect
  recorded : Bool → WorkEffect
  handled : Effect → WorkEffect
  workload_reconciled : Bool → WorkEffect
  run_completed : Bool → WorkEffect

pub data WorkloadError : Type 0 where
  backpressure_wait : WorkloadError
  scan_failure : ExecError → WorkloadError

pub record Progress (S : Type 0) : Type 0 where
  pub runtime : RuntimeState
  pub store : S
  pub log : List WorkEffect

-- The loops of reconcileWorkload: the error of `workloadExecutionState`, and whether the context
-- was cancelled.
pub record Dispatch (S : Type 0) : Type 0 where
  pub progress : Progress S
  pub error : Option WorkloadError
  pub cancelled : Bool

abbrev pub note : {S : Type 0} → List WorkEffect → Progress S → Progress S
note effects p = record p { log = p.log ++ effects }

abbrev pub handled_all : List Effect → List WorkEffect
handled_all [] = []
handled_all (e ∷ es) = handled e ∷ handled_all es

-- setError: the first error stays.
unfoldable pub set_error : Option WorkloadError → Option WorkloadError → Option WorkloadError
set_error none old = old
set_error (some e) none = some e
set_error (some e) (some first) = some first

-- The image to scan, with the metric of the resolution.
unfoldable pub prepare_scan_image :
    DigestLookup → ExtractedImage → Option ImageRef × List WorkEffect
unfolding parse resolve
prepare_scan_image digests img = elim (parse img.image) [
  | none ↦ (none, [])
  | some ref ↦ elim (resolve digests ref) [
    | resolved_ok r ↦ (some r, image_resolved ∷ [])
    | resolve_failed r ↦ (none, resolution_error ∷ [])
  ]
]

-- The reconciler with its configuration and clients, and the world. `scanners` are the names of the
-- scanners in the order in which the loop over their map finds them, which can be another one for
-- each image.
pub record Setup (F S : Type 0) : Type 0 where
  pub ops : FloatOps F
  pub policy : RuntimePolicy F
  pub timeouts : Dict ℤ
  pub backend : Backend S
  pub hash : Text → Text
  pub outlets : Outlets
  pub settings : Settings
  pub digests : DigestLookup
  pub scanners : Text → WorkloadInfo → ExtractedImage → List Text
  pub world : Job → ScanWorld

module _ {F S : Type 0} (r : Setup F S) where
  unfoldable pub workload_context : Job → WorkloadContext
  workload_context job = record {
    cluster_name = r.settings.cluster_name;
    namespace = job.namespace;
    kind = job.workload.kind;
    name = job.workload.name;
    uid = job.workload.uid;
    api_version = job.workload.api_version;
    container = job.container;
  }

  -- What follows the execution of the scan.
  unfoldable pub finish_scan : Job → Run → Progress S → Option WorkloadError × Progress S
  unfolding workload_context handle_scan_result_state_and_publish
  finish_scan job run p = elim run.outcome [
    | failed class e ↦
        (some (scan_failure e), note (recorded true ∷ scan_error job.scanner class ∷ []) p)
    | scanned result ↦
        let (stored, effects) =
          handle_scan_result_state_and_publish r.backend r.hash r.outlets (r.world job).now
            job.scanner job.image result (workload_context job) r.settings.options p.store in
        (
          none,
          note (scan_completed run.duration ∷ recorded false ∷ handled_all effects)
              (record p { store = stored }),
        )
  ]

  unfoldable pub run_scanner_for_image : Job → Progress S → Option WorkloadError × Progress S
  unfolding finish_scan execute_scanner_with_resilience
  run_scanner_for_image job p =
      let (runtime, run) =
        execute_scanner_with_resilience r.ops r.policy r.timeouts (r.world job).environment
          job.scanner p.runtime in
      finish_scan job run (note (dispatched job ∷ []) (record p { runtime = runtime }))

  unfoldable pub run_job : Job → Dispatch S → Dispatch S
  unfolding run_scanner_for_image set_error
  run_job job d =
      let (error, progress) = run_scanner_for_image job d.progress in
      record d { progress = progress; error = set_error error d.error }

  -- The loop over the scanners.
  unfoldable pub dispatch_jobs : List Job → Dispatch S → Dispatch S
  unfolding run_job
  dispatch_jobs [] d = d
  dispatch_jobs (job ∷ jobs) d =
      let rest = dispatch_jobs jobs (run_job job d) in
      if (r.world job).ready then rest else record d { cancelled = true }

  -- The jobs of a resolved image, one for each scanner.
  unfoldable pub jobs_of : Text → WorkloadInfo → Text → ImageRef → List Text → List Job
  jobs_of ns wl container image [] = []
  jobs_of ns wl container image (scanner ∷ names) =
      record {
        namespace = ns;
        workload = wl;
        container = container;
        image = image;
        scanner = scanner;
      }
      ∷ jobs_of ns wl container image names

  -- The loop over the images.
  unfoldable pub dispatch_images :
      Text → WorkloadInfo → List ExtractedImage → Dispatch S → Dispatch S
  unfolding prepare_scan_image dispatch_jobs jobs_of
  dispatch_images ns wl [] d = d
  dispatch_images ns wl (img ∷ imgs) d =
      let (prepared, effects) = prepare_scan_image r.digests img in
      let noted = record d { progress = note effects d.progress } in
      elim prepared [
        | none ↦ dispatch_images ns wl imgs noted
        | some image ↦
            let after =
              dispatch_jobs (jobs_of ns wl img.container_name image (r.scanners ns wl img)) noted in
            let rest = dispatch_images ns wl imgs after in if after.cancelled then after else rest
      ]

  unfoldable pub reconcile_workload :
      Text → WorkloadInfo → Progress S → Option WorkloadError × Progress S
  unfolding from_pod_spec dispatch_images
  reconcile_workload ns wl p =
      let images = from_pod_spec wl.pod_spec in
      let done = dispatch_images ns wl images (record {
        progress = note (images_observed (length images) ∷ []) p;
        error = none;
        cancelled = false;
      }) in
      (if done.cancelled then some backpressure_wait else done.error, done.progress)

  -- The body of the goroutine of a namespace: its workloads, kind after kind.
  unfoldable pub reconcile_workloads : Text → List WorkloadInfo → Progress S → Progress S
  unfolding reconcile_workload
  reconcile_workloads ns [] p = p
  reconcile_workloads ns (wl ∷ wls) p =
      let (error, q) = reconcile_workload ns wl p in
      reconcile_workloads ns wls (note (workload_reconciled (is_none error) ∷ []) q)

  module _ (cluster : Cluster) (queue : Text → Bool) where
    unfoldable pub reconcile_kinds : Text → List Text → Progress S → Progress S
    unfolding list_workloads reconcile_workloads
    reconcile_kinds ns [] p = p
    reconcile_kinds ns (kind ∷ kinds) p = elim (list_workloads cluster ns kind) [
      | none ↦ reconcile_kinds ns kinds p
      | some wls ↦ reconcile_kinds ns kinds (reconcile_workloads ns wls p)
    ]

    -- The loop over the namespaces; `queue` is whether a namespace gets its slot, or the context is
    -- cancelled first.
    unfoldable pub reconcile_namespaces : List Text → Progress S → Bool × Progress S
    unfolding is_excluded reconcile_kinds
    reconcile_namespaces [] p = (true, p)
    reconcile_namespaces (ns ∷ nss) p =
        let skipped = reconcile_namespaces nss p in
        let rest = reconcile_namespaces nss (reconcile_kinds ns r.settings.kinds p) in
        if is_excluded ns r.settings.exclude then skipped else if queue ns then rest else (false, p)

    -- Whether ReconcileAll succeeds.
    unfoldable pub reconcile_all : Progress S → Bool × Progress S
    unfolding resolve_namespaces reconcile_namespaces
    reconcile_all p = elim (resolve_namespaces cluster r.settings.include) [
      | none ↦ (false, note (run_completed false ∷ []) p)
      | some namespaces ↦
          let (ok, q) = reconcile_namespaces namespaces p in (ok, note (run_completed ok ∷ []) q)
    ]
