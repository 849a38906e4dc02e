-- ===== src/Reconciler/Handle.antt =====
-- handleScanResultStateAndPublish of internal/reconciler/reconcile.go, with what it calls, over a
-- backend with stored states in `S`. The log lines are left out.
pub mod Published
pub mod Stored
pub mod Persisted
use komodor_security_reporte.Prelude.{
  ℕ, Option, none, some, Bool, true, false, List, [], ◌∷◌, ◌++◌, if◌then◌else◌, ◌||◌, ◌+◌, ◌==◌,
  not, ltb, String,
}
use komodor_security_reporte.Prelude.Text.{Text, codes, text_eq, is_empty}
use komodor_security_reporte.Prelude.Decimal.{decimal}
use komodor_security_reporte.Registry.ImageRef.{ImageRef}
use komodor_security_reporte.Scanners.Result.{ScanResult, total}
use komodor_security_reporte.Policy.Evaluator.{fingerprint, evaluate_publish}
use komodor_security_reporte.Komodor.Publisher.{
  WorkloadContext, EventOptions, Event, should_publish, event_from_scan_result,
}
use komodor_security_reporte.Komodor.Client.{Client, Transport, publish_event}
use komodor_security_reporte.Config.Mode.{publish_to_komodor, publish_to_events}
use komodor_security_reporte.State.Backend.{Backend, load_failed, absent, found}

-- The fields of the Kubernetes event that depend on the scan and its workload.
pub record KubernetesEvent : Type 0 where
  pub namespace : Text
  pub kind : Text
  pub name : Text
  pub uid : Text
  pub api_version : Text
  pub message : Text
  pub event_type : Text
  pub timestamp : ℕ

-- What the handler does besides writing to the store: metrics and events.
pub data Effect : Type 0 where
  state_lookup : Text → Effect
  dedupe_hit events_published event_publish_error : Effect
  event_skip : Text → Effect
  state_update : Text → Effect
  komodor_event : Event → Effect
  kubernetes_event : KubernetesEvent → Effect

-- The configuration and the clients of the reconciler. `create_event` is whether the Kubernetes
-- API accepts an event, with no clientset if it is nil, and `quote` is the verb `%q` of `fmt`.
pub record Outlets : Type 0 where
  pub mode : Text
  pub publisher : Option Client
  pub transport : Transport Event
  pub create_event : Option (KubernetesEvent → Bool)
  pub quote : Text → Text

abbrev counted : String → ℕ → Text
counted label n = codes label ++ decimal n

unfoldable pub counts_message : ScanResult → Text
unfolding decimal
counts_message result =
    let vs = result.summary in
    counted "critical=" vs.critical
    ++ (counted " high=" vs.high ++ (counted " medium=" vs.medium ++ counted " low=" vs.low))

unfoldable pub kubernetes_message : (Text → Text) → Text → ScanResult → Text
unfolding counts_message total
kubernetes_message quote scanner result =
    codes "summary="
    ++ (quote (counts_message result ++ counted " total=" (total result.summary))
        ++ (codes " scanner="
            ++ (scanner
                ++ (codes " image="
                    ++ (result.image.resolved
                        ++ (counted " findings=" (total result.summary)
                            ++ (codes " (" ++ (counts_message result ++ codes ")"))))))))

unfoldable pub make_kubernetes_event :
    (Text → Text) → Text → ScanResult → WorkloadContext → KubernetesEvent
unfolding kubernetes_message total
make_kubernetes_event quote scanner result workload = record {
  namespace = workload.namespace;
  kind = workload.kind;
  name = workload.name;
  uid = workload.uid;
  api_version = workload.api_version;
  message = kubernetes_message quote scanner result;
  event_type = if ltb 0 (total result.summary) then codes "Warning" else codes "Normal";
  timestamp = result.scanned_at;
}

unfoldable pub publish_kubernetes_event :
    Outlets → Text → ScanResult → WorkloadContext → Bool × List Effect
unfolding make_kubernetes_event
publish_kubernetes_event outlets scanner result workload = elim outlets.create_event [
  | none ↦ (false, [])
  | some create ↦
      let event = make_kubernetes_event outlets.quote scanner result workload in
      (create event, kubernetes_event event ∷ [])
]

abbrev succeeded : Bool → ℕ × List Effect
succeeded true = (1, [])
succeeded false = (0, event_publish_error ∷ [])

abbrev pub is_none : {A : Type 0} → Option A → Bool
is_none none = true
is_none (some a) = false

-- The two publications: how many succeed, and what they do.
unfoldable pub publish_komodor_part :
    Outlets → ScanResult → WorkloadContext → EventOptions → ℕ × List Effect
unfolding publish_to_komodor event_from_scan_result publish_event
publish_komodor_part outlets result workload opts =
    if publish_to_komodor outlets.mode
    then elim outlets.publisher [
      | none ↦ (0, event_publish_error ∷ [])
      | some client ↦
          let event = event_from_scan_result result workload opts in
          let (n, effects) =
            succeeded (is_none (publish_event outlets.transport client (some event))) in
          (n, komodor_event event ∷ effects)
    ]
    else (0, [])

unfoldable pub publish_events_part : Outlets → Text → ScanResult → WorkloadContext → ℕ × List Effect
unfolding publish_to_events publish_kubernetes_event
publish_events_part outlets scanner result workload =
    if publish_to_events outlets.mode
    then (let (ok, sent) = publish_kubernetes_event outlets scanner result workload in
        let (n, effects) = succeeded ok in (n, sent ++ effects))
    else (0, [])

unfoldable pub state_key : ImageRef → Text → Text
state_key resolved scanner = resolved.digest ++ (codes "/" ++ scanner)

unfoldable pub latest_digest_key : ImageRef → Text → Text
latest_digest_key resolved scanner =
    codes "latest/"
    ++ (resolved.registry
        ++ (codes "/"
            ++ (resolved.repository ++ (codes ":" ++ (resolved.tag ++ (codes "/" ++ scanner))))))

module _ {S : Type 0} (backend : Backend S) where
  unfoldable pub cleanup_previous_digest_state : Text → Text → S → S
  cleanup_previous_digest_state latest_key key s =
      let (loaded, read) = backend.get_entry s latest_key in
      elim loaded [
        | load_failed ↦ read
        | absent ↦ read
        | found e ↦
            if is_empty e.fingerprint || text_eq e.fingerprint key
            then read
            else (backend.delete_entry read e.fingerprint).1
      ]

  -- The fingerprint, the metric of the lookup, and the state that the lookup leaves.
  unfoldable pub load_last_fingerprint : Text → S → Text × Effect × S
  load_last_fingerprint key s =
      let (loaded, read) = backend.get_entry s key in
      elim loaded [
        | load_failed ↦ (codes "", state_lookup (codes "error"), read)
        | absent ↦ (codes "", state_lookup (codes "miss"), read)
        | found e ↦ (e.fingerprint, state_lookup (codes "hit"), read)
      ]

  module _ (hash : Text → Text) (outlets : Outlets) (now : ℕ) where
    -- What follows the two tests.
    unfoldable pub publish_and_update :
        Text → ImageRef → ScanResult → WorkloadContext → EventOptions → S → S × List Effect
    unfolding publish_komodor_part publish_events_part state_key fingerprint total decimal
    publish_and_update scanner resolved result workload opts s =
        let (m, sent) = publish_komodor_part outlets result workload opts in
        let (n, created) = publish_events_part outlets scanner result workload in
        let (ok, stored) = backend.set_entry s (state_key resolved scanner) (record {
          fingerprint = fingerprint hash result;
          last_scanned_time = now;
          last_published_time = now;
          summary = decimal (total result.summary) ++ codes " findings";
        }) in
        let updated = state_update (if ok then codes "success" else codes "error") in
        if m + n == 0
        then (s, sent ++ created)
        else (stored, sent ++ (created ++ (events_published ∷ updated ∷ [])))

    unfoldable pub handle_scan_result_state_and_publish :
        Text → ImageRef → ScanResult → WorkloadContext → EventOptions → S → S × List Effect
    unfolding state_key latest_digest_key cleanup_previous_digest_state load_last_fingerprint
        evaluate_publish should_publish publish_and_update
    handle_scan_result_state_and_publish scanner resolved result workload opts s =
        let key = state_key resolved scanner in
        let latest_key = latest_digest_key resolved scanner in
        let cleaned = cleanup_previous_digest_state latest_key key s in
        let (_, noted) = backend.set_entry cleaned latest_key (record {
          fingerprint = key;
          last_scanned_time = now;
          last_published_time = now;
          summary = resolved.digest;
        }) in
        let (last_fingerprint, looked_up, read) = load_last_fingerprint key noted in
        let (stored, effects) = publish_and_update scanner resolved result workload opts read in
        if not (evaluate_publish hash result last_fingerprint false)
        then (read, looked_up ∷ dedupe_hit ∷ event_skip (codes "deduplicated") ∷ [])
        else if not (should_publish result opts)
        then (read, looked_up ∷ event_skip (codes "severity_threshold") ∷ [])
        else (stored, looked_up ∷ effects)
