-- ===== src/Metrics.antt =====
-- internal/metrics/metrics.go: the metrics that NewMetrics registers, with the names and labels of
-- the source; their help texts are left out. The registry is a parameter: `register` fails where the
-- library panics.
pub mod Registered
mod Tests
use komodor_security_reporte.Prelude.{Option, none, some, Bool, List, [], ◌∷◌, String}
use komodor_security_reporte.Prelude.Text.{Text, codes}

pub data MetricKind : Type 0 where
  counter gauge histogram : MetricKind

-- A metric with its labels, none for a single one.
pub record Metric : Type 0 where
  pub kind : MetricKind
  pub name : Text
  pub labels : List Text

abbrev metric : MetricKind → String → List Text → Metric
metric kind name labels = record { kind = kind; name = codes name; labels = labels }

pub record MetricRegistry (R : Type 0) : Type 0 where
  pub register : R → Metric → Option R
  pub has_name : R → Text → Bool

-- The metrics in the order of NewMetrics.
abbrev pub all_metrics : List Metric
all_metrics =
    metric counter "image_vuln_watcher_images_observed_total" []
    ∷ metric counter "image_vuln_watcher_images_resolved_total" []
    ∷ metric counter "image_vuln_watcher_image_resolution_errors_total" []
    ∷ metric counter "image_vuln_watcher_scans_total" []
    ∷ metric counter "image_vuln_watcher_scan_errors_total" []
    ∷ metric histogram "image_vuln_watcher_scan_duration_seconds" []
    ∷ metric gauge "image_vuln_watcher_scans_in_flight" []
    ∷ metric gauge "image_vuln_watcher_scan_queue_depth" []
    ∷ metric histogram "image_vuln_watcher_scan_queue_wait_seconds" []
    ∷ metric gauge "image_vuln_watcher_namespace_scan_queue_depth" []
    ∷ metric counter "image_vuln_watcher_scanner_error_class_total"
        (codes "scanner" ∷ codes "class" ∷ [])
    ∷ metric gauge "image_vuln_watcher_scanner_circuit_state" (codes "scanner" ∷ [])
    ∷ metric counter "image_vuln_watcher_scanner_skipped_total"
        (codes "scanner" ∷ codes "reason" ∷ [])
    ∷ metric counter "image_vuln_watcher_events_published_total" []
    ∷ metric counter "image_vuln_watcher_event_publish_errors_total" []
    ∷ metric counter "image_vuln_watcher_dedupe_hits_total" []
    ∷ metric counter "image_vuln_watcher_reconcile_runs_total" (codes "result" ∷ [])
    ∷ metric counter "image_vuln_watcher_workloads_reconciled_total" (codes "result" ∷ [])
    ∷ metric counter "image_vuln_watcher_state_lookups_total" (codes "result" ∷ [])
    ∷ metric counter "image_vuln_watcher_state_updates_total" (codes "result" ∷ [])
    ∷ metric counter "image_vuln_watcher_event_skips_total" (codes "reason" ∷ [])
    ∷ metric counter "image_vuln_watcher_cache_hits_total" (codes "backend" ∷ [])
    ∷ metric counter "image_vuln_watcher_cache_misses_total" (codes "backend" ∷ [])
    ∷ metric counter "image_vuln_watcher_cache_evictions_total" (codes "backend" ∷ [])
    ∷ []

unfoldable pub register_all : {R : Type 0} → MetricRegistry R → List Metric → R → Option R
register_all registry [] r = some r
register_all registry (m ∷ ms) r = elim (registry.register r m) [
  | none ↦ none
  | some next ↦ register_all registry ms next
]

unfoldable pub new_metrics : {R : Type 0} → MetricRegistry R → R → Option R
unfolding register_all
new_metrics registry r = register_all registry all_metrics r
