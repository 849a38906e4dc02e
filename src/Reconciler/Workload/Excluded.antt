-- ===== src/Reconciler/Workload/Excluded.antt =====
-- The excluded namespaces of ReconcileAll of internal/reconciler/reconcile.go.
use komodor_security_reporte.Prelude.{
  ◌≡◌, refl, sym, subst, Bool, false, List, [], ◌∷◌, Bool-cases, Option-cases, inl, inr, All,
  All-append,
}
use komodor_security_reporte.Prelude.Text.{Text}
use komodor_security_reporte.Registry.ImageRef.{ImageRef}
use komodor_security_reporte.Reconciler.Images.{
  ExtractedImage, WorkloadInfo, Cluster, from_pod_spec, is_excluded, list_workloads,
  resolve_namespaces,
}
use komodor_security_reporte.Reconciler.Workload.{
  Setup, Job, WorkEffect, Progress, Dispatch, note, prepare_scan_image, run_job, dispatch_jobs,
  jobs_of, dispatch_images, reconcile_workload, reconcile_workloads, reconcile_kinds,
  reconcile_namespaces, reconcile_all, run_completed,
}
use komodor_security_reporte.Reconciler.Workload.Dispatched.{
  started, dispatched_of, dispatched_of-quiet, dispatched_of-prepare, run_job-starts,
}

module _ {F S : Type 0} (r : Setup F S) where
  -- The namespace of a scan is not one of the excluded ones.
  abbrev pub IsIncluded : Job → Type 0
  IsIncluded job = is_excluded job.namespace r.settings.exclude ≡ false

  abbrev pub AllIncluded : Progress S → Type 0
  AllIncluded p = All IsIncluded (started p)

  note-included :
      (p : Progress S) (effects : List WorkEffect)
      → dispatched_of effects ≡ []
      → AllIncluded p
      → AllIncluded (note effects p)
  note-included p effects quiet h =
      subst (All IsIncluded) (sym (dispatched_of-quiet p.log effects quiet)) h

  jobs_of-IsIncluded :
      (ns : Text) (wl : WorkloadInfo) (container : Text) (image : ImageRef) (names : List Text)
      → is_excluded ns r.settings.exclude ≡ false
      → All IsIncluded (jobs_of r ns wl container image names)
  unfolding jobs_of
  jobs_of-IsIncluded ns wl container image [] h = tt
  jobs_of-IsIncluded ns wl container image (name ∷ names) h =
      (h, jobs_of-IsIncluded ns wl container image names h)

  dispatch_jobs-included :
      (jobs : List Job) (d : Dispatch S)
      → All IsIncluded jobs
      → AllIncluded d.progress
      → AllIncluded (dispatch_jobs r jobs d).progress
  unfolding dispatch_jobs
  dispatch_jobs-included [] d hs h = h
  dispatch_jobs-included (job ∷ jobs) d (hj, hs) h = elim (Bool-cases (r.world job).ready) [
    | inl goes ↦ rw goes (
        dispatch_jobs-included jobs (run_job r job d) hs (
          subst (All IsIncluded) (sym (run_job-starts r job d))
            (All-append IsIncluded (started d.progress) (job ∷ []) h (hj, tt))))
    | inr stops ↦ rw stops h
  ]

  module _ (ns : Text) (included : is_excluded ns r.settings.exclude ≡ false) where
    dispatch_images-included :
        (wl : WorkloadInfo) (imgs : List ExtractedImage) (d : Dispatch S)
        → AllIncluded d.progress
        → AllIncluded (dispatch_images r ns wl imgs d).progress
    unfolding dispatch_images
    dispatch_images-included wl [] d h = h
    dispatch_images-included wl (img ∷ imgs) d h =
        let noted : Dispatch S = record d {
          progress = note (prepare_scan_image r.digests img).1 d.progress;
        } in
        let h' : AllIncluded noted.progress =
          note-included d.progress _ (dispatched_of-prepare r.digests img) h in
        elim (Option-cases (prepare_scan_image r.digests img).0) [
          | inl e ↦ rw (dispatch_images, e) (dispatch_images-included wl imgs noted h')
          | inr (image, e) ↦
              let jobs = jobs_of r ns wl img.container_name image (r.scanners ns wl img) in
              let after : Dispatch S = dispatch_jobs r jobs noted in
              let ha : AllIncluded after.progress =
                dispatch_jobs-included jobs noted
                  (jobs_of-IsIncluded ns wl img.container_name image (r.scanners ns wl img)
                    included)
                  h' in
              elim (Bool-cases after.cancelled) [
                | inl stops ↦ rw (dispatch_images, e, stops) ha
                | inr goes ↦
                    rw (dispatch_images, e, goes) (dispatch_images-included wl imgs after ha)
              ]
        ]

    reconcile_workload-included :
        (wl : WorkloadInfo) (p : Progress S)
        → AllIncluded p
        → AllIncluded (reconcile_workload r ns wl p).1
    unfolding reconcile_workload dispatched_of
    reconcile_workload-included wl p h =
        dispatch_images-included wl (from_pod_spec wl.pod_spec) _ (note-included p _ refl h)

    reconcile_workloads-included :
        (wls : List WorkloadInfo) (p : Progress S)
        → AllIncluded p
        → AllIncluded (reconcile_workloads r ns wls p)
    unfolding reconcile_workloads dispatched_of
    reconcile_workloads-included [] p h = h
    reconcile_workloads-included (wl ∷ wls) p h =
        reconcile_workloads-included wls _ (
          note-included (reconcile_workload r ns wl p).1 _ refl
            (reconcile_workload-included wl p h))

  module _ (cluster : Cluster) (queue : Text → Bool) where
    reconcile_kinds-included :
        (ns : Text) (kinds : List Text) (p : Progress S)
        → is_excluded ns r.settings.exclude ≡ false
        → AllIncluded p
        → AllIncluded (reconcile_kinds r cluster queue ns kinds p)
    unfolding reconcile_kinds
    reconcile_kinds-included ns [] p included h = h
    reconcile_kinds-included ns (kind ∷ kinds) p included h =
        elim (Option-cases (list_workloads cluster ns kind)) [
          | inl e ↦ rw (reconcile_kinds, e) (reconcile_kinds-included ns kinds p included h)
          | inr (wls, e) ↦
              rw (reconcile_kinds, e)
                (reconcile_kinds-included ns kinds _ included
                  (reconcile_workloads-included ns included wls p h))
        ]

    reconcile_namespaces-included :
        (nss : List Text) (p : Progress S)
        → AllIncluded p
        → AllIncluded (reconcile_namespaces r cluster queue nss p).1
    unfolding reconcile_namespaces
    reconcile_namespaces-included [] p h = h
    reconcile_namespaces-included (ns ∷ nss) p h =
        elim (Bool-cases (is_excluded ns r.settings.exclude)) [
          | inl skip ↦ rw skip (reconcile_namespaces-included nss p h)
          | inr keep ↦ elim (Bool-cases (queue ns)) [
            | inl goes ↦
                rw (keep, goes)
                  (reconcile_namespaces-included nss _
                    (reconcile_kinds-included ns r.settings.kinds p keep h))
            | inr stops ↦ rw (keep, stops) h
          ]
        ]

    -- A full reconciliation starts no scan in an excluded namespace, whatever the cluster lists and
    -- whatever fails or is cancelled.
    pub reconcile_all-included :
        (p : Progress S) → AllIncluded p → AllIncluded (reconcile_all r cluster queue p).1
    unfolding reconcile_all dispatched_of
    reconcile_all-included p h =
        elim (Option-cases (resolve_namespaces cluster r.settings.include)) [
          | inl e ↦ rw (reconcile_all, e) (note-included p _ refl h)
          | inr (names, e) ↦
              let done = reconcile_namespaces r cluster queue names p in
              rw (reconcile_all, e)
                (note-included done.1 (run_completed done.0 ∷ []) refl
                  (reconcile_namespaces-included names p h))
        ]
