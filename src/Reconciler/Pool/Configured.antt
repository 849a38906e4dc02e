-- ===== src/Reconciler/Pool/Configured.antt =====
-- reconcileWorkload of internal/reconciler/reconcile.go with a configuration that Validate of
-- internal/config/config.go accepts.
use komodor_security_reporte.Reconciler.Pool.Ends.{CanStep, IsDone, steps, reconcile_workload-ends}
use komodor_security_reporte.Reconciler.Pool.{
  Pool, Reach, begin_workload, Setup, Text, WorkloadInfo, Progress, from_pod_spec,
}
use komodor_security_reporte.Prelude.{◌+◌, ◌*◌, ◌≤◌, ◌≡◌, ◌⊎◌, none, length}
use komodor_security_reporte.Config.Runtime.{Floats}
use komodor_security_reporte.Config.Validate.{Config, validate}
use komodor_security_reporte.Prelude.Int.{pos_part}
use komodor_security_reporte.Reconciler.Workload.Dispatched.{wanted_jobs}
use komodor_security_reporte.Config.Validate.Policy.{valid_room}

-- With a valid configuration, and as each execution gives something: however the scans interleave, a
-- step can be made until reconcileWorkload has returned and each goroutine has ended, and that is
-- after at most two steps, one for each image and seven for each wanted scan.
pub reconcile_workload-ends_configured :
    {F S : Type 0} (floats : Floats F) (c : Config F) (r : Setup F S) (ns : Text)
    (wl : WorkloadInfo) (origin : Progress S) {q : Pool S}
    → validate floats c ≡ none
    → (run : Reach r ns wl (pos_part c.scanners.concurrency) (begin_workload r ns wl origin) q)
    → (CanStep r ns wl (pos_part c.scanners.concurrency) q
        ⊎ IsDone r ns wl (pos_part c.scanners.concurrency) q)
      × (steps r ns wl (pos_part c.scanners.concurrency) run
          ≤ 2
            + length (from_pod_spec wl.pod_spec)
            + 7 * length (wanted_jobs r ns wl (from_pod_spec wl.pod_spec)))
reconcile_workload-ends_configured floats c r ns wl origin valid run =
    reconcile_workload-ends r ns wl (pos_part c.scanners.concurrency) origin
      (valid_room floats c valid) run
