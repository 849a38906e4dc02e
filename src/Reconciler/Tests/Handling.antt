-- ===== src/Reconciler/Tests/Handling.antt =====
-- The handling of scan results and the reconciliation of a workload, with a backend that keeps its
-- entries in a Dict.
use komodor_security_reporte.Prelude.{
  ◌≡◌, ◌≢◌, refl, Bool, true, false, some, none, Option, [], ◌∷◌, ◌++◌, if◌then◌else◌, ◌&&◌, ap,
  arith,
}
use komodor_security_reporte.Prelude.Int.{ℤ, pos}
use komodor_security_reporte.Prelude.Text.{Text, codes, text_eq}
use komodor_security_reporte.Prelude.Dict.{Dict, lookup, put, remove, lookup-put, lookup-remove}
use komodor_security_reporte.Registry.ImageRef.{ImageRef}
use komodor_security_reporte.State.Entry.{Entry}
use komodor_security_reporte.State.Backend.{Backend, IsReliable, Loaded, load, absent, found}
use komodor_security_reporte.Komodor.Publisher.{
  WorkloadContext, EventOptions, Event, should_publish,
}
use komodor_security_reporte.Komodor.Client.{Transport}
use komodor_security_reporte.Reconciler.Images.{WorkloadInfo, PodSpec, Cluster}
use komodor_security_reporte.Reconciler.Handle.{
  Outlets, handle_scan_result_state_and_publish, state_key, latest_digest_key,
}
use komodor_security_reporte.Reconciler.Handle.Published.{
  deliveries, wanted_events, handle_deliveries,
}
use komodor_security_reporte.Reconciler.Handle.Stored.{
  is_delivered, published_entry, latest_entry, is_superseded, handle_stores, digest_replaced,
}
use komodor_security_reporte.Reconciler.Workload.{Setup, Progress, reconcile_all}
use komodor_security_reporte.Reconciler.Workload.Dispatched.{dispatched_of}
use komodor_security_reporte.Reconciler.Workload.Excluded.{AllIncluded, reconcile_all-included}
use komodor_security_reporte.Reconciler.Tests.{integer_ops, policy, empty_result, recovering}

abbrev loaded : Option Entry → Loaded
loaded none = absent
loaded (some e) = found e

abbrev dict_backend : Backend (Dict Entry)
dict_backend = record {
  get_entry = λ m k. (loaded (lookup k m), m);
  set_entry = λ m k e. (true, put k e m);
  delete_entry = λ m k. (true, remove k m);
}

loaded-if :
    (b : Bool) (x y : Option Entry)
    → loaded (if b then x else y) ≡ (if b then loaded x else loaded y)
loaded-if true x y = refl
loaded-if false x y = refl

dict_backend-IsReliable : IsReliable dict_backend found
dict_backend-IsReliable = record {
  get_set = λ m k j e. rw lookup-put (loaded-if (text_eq k j) (some e) (lookup j m));
  get_delete = λ m k j. rw lookup-remove (loaded-if (text_eq k j) none (lookup j m));
  get_get = λ m k j. refl;
}

abbrev transport : Transport Event
transport = record {
  marshal = λ e. some (codes "{}");
  join_path = λ base path. some (base ++ path);
  can_request = λ url. true;
  send = λ request. none;
}

abbrev pub outlets : Outlets
outlets = record {
  mode = codes "both";
  publisher = some (record { base_url = codes "https://api"; api_key = codes "key" });
  transport = transport;
  create_event = some (λ e. true);
  quote = λ t. t;
}

abbrev pub workload : WorkloadContext
workload = record {
  cluster_name = codes "prod";
  namespace = codes "shop";
  kind = codes "Deployment";
  name = codes "app";
  uid = codes "u1";
  api_version = codes "apps/v1";
  container = codes "main";
}

abbrev pub options : EventOptions
options = record {
  minimum_severity = codes "high";
  include_top_findings = pos 3;
  publish_clean_scans = false;
}

abbrev moved : ImageRef
moved = record empty_result.image { digest = codes "sha256:cd" }

abbrev identity : Text → Text
identity t = t

handle_deliveries_example :
    deliveries
      (handle_scan_result_state_and_publish dict_backend identity outlets 5
        (codes "trivy")
        moved
        empty_result
        workload
        options
        []).1
    ≡ (if should_publish empty_result options
        then wanted_events outlets (codes "trivy") empty_result workload options
        else [])
handle_deliveries_example =
    handle_deliveries outlets (codes "trivy") empty_result workload options dict_backend identity 5
      moved []

handle_stores_example :
    load dict_backend
      (handle_scan_result_state_and_publish dict_backend identity outlets 5
        (codes "trivy")
        moved
        empty_result
        workload
        options
        []).0
      (codes "sha256:cd/trivy")
    ≡ (if is_delivered outlets (codes "trivy") empty_result workload options
          && text_eq (state_key moved (codes "trivy")) (codes "sha256:cd/trivy")
        then found (published_entry identity 5 empty_result)
        else if text_eq (latest_digest_key moved (codes "trivy")) (codes "sha256:cd/trivy")
        then found (latest_entry 5 moved (codes "trivy"))
        else if is_superseded
            (load dict_backend [] (latest_digest_key moved (codes "trivy")))
            (state_key moved (codes "trivy"))
            (codes "sha256:cd/trivy")
        then absent
        else load dict_backend [] (codes "sha256:cd/trivy"))
handle_stores_example =
    handle_stores dict_backend dict_backend-IsReliable identity outlets 5 (codes "trivy") moved
      empty_result workload options [] (codes "sha256:cd/trivy")

keys_differ : state_key empty_result.image (codes "trivy") ≢ state_key moved (codes "trivy")
unfolding state_key text_eq
keys_differ e = let apart : true ≡ false = ap (text_eq (codes "sha256:ab/trivy")) e in ground arith

key_is_no_latest :
    state_key empty_result.image (codes "trivy")
    ≢ latest_digest_key empty_result.image (codes "trivy")
unfolding state_key latest_digest_key
key_is_no_latest e = cc e

digest_replaced_example :
    load dict_backend
      (handle_scan_result_state_and_publish dict_backend identity outlets 9
        (codes "trivy")
        moved
        empty_result
        workload
        options
        (handle_scan_result_state_and_publish dict_backend identity outlets 5
          (codes "trivy")
          empty_result.image
          empty_result
          workload
          options
          []).0).0
      (state_key empty_result.image (codes "trivy"))
    ≡ absent
unfolding latest_digest_key
digest_replaced_example =
    digest_replaced dict_backend dict_backend-IsReliable identity outlets 5 9 (codes "trivy")
      empty_result.image moved empty_result empty_result workload options [] refl keys_differ
      key_is_no_latest (latest_entry 5 empty_result.image (codes "trivy"), refl, refl)

abbrev pub setup : Setup ℤ (Dict Entry)
setup = record {
  ops = integer_ops;
  policy = policy;
  timeouts = [];
  backend = dict_backend;
  hash = identity;
  outlets = outlets;
  settings = record {
    cluster_name = codes "prod";
    options = options;
    include = codes "shop" ∷ codes "kube-system" ∷ [];
    exclude = codes "kube-system" ∷ [];
    kinds = codes "Deployment" ∷ [];
  };
  digests = λ ref. some (codes "sha256:ab");
  scanners = λ ns wl img. codes "trivy" ∷ codes "snyk" ∷ [];
  world = λ job. record { ready = true; environment = recovering; now = 5 };
}

abbrev pub pod : PodSpec
pod = record {
  containers = record { name = codes "main"; image = codes "app" } ∷ [];
  init_containers = record { name = codes "init"; image = codes "busybox:1" } ∷ [];
  ephemeral_containers = [];
}

abbrev pub app : WorkloadInfo
app = record {
  kind = codes "Deployment";
  name = codes "app";
  uid = codes "u1";
  api_version = codes "apps/v1";
  pod_spec = pod;
}

abbrev pub fresh : Progress (Dict Entry)
fresh = record { runtime = record { breaker = []; circuit_metric = [] }; store = []; log = [] }

abbrev pub cluster : Cluster
cluster = record {
  namespaces = none;
  deployments = λ ns. some (record { name = codes "app"; uid = codes "u1"; template = pod } ∷ []);
  statefulsets = λ ns. some [];
  daemonsets = λ ns. none;
}

fresh-AllIncluded : AllIncluded setup fresh
unfolding dispatched_of
fresh-AllIncluded = tt

reconcile_all-included_example :
    AllIncluded setup (reconcile_all setup cluster (λ ns. true) fresh).1
reconcile_all-included_example =
    reconcile_all-included setup cluster (λ ns. true) fresh fresh-AllIncluded
