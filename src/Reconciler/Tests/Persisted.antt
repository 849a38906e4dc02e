-- ===== src/Reconciler/Tests/Persisted.antt =====
-- A clean scan that is published, with the cluster of State/ConfigMap/Tests.
use komodor_security_reporte.Prelude.{◌≡◌, refl, ℕ, Option, some, none, true, arith}
use komodor_security_reporte.Prelude.Text.{Text, codes, text_eq, to_lower, trim_space}
use komodor_security_reporte.Prelude.Int.{pos}
use komodor_security_reporte.Prelude.Json.{Json}
use komodor_security_reporte.Komodor.Publisher.{EventOptions, should_publish}
use komodor_security_reporte.State.Entry.Codec.{encode_entry}
use komodor_security_reporte.State.Entry.Formats.{rounded}
use komodor_security_reporte.State.Backend.{load, found}
use komodor_security_reporte.State.ConfigMap.Tests.{
  cluster, cluster-IsQuiet, retry_once, retry_once-IsDoneAtOnce, same_store, same_store-PassesOn,
}
use komodor_security_reporte.Reconciler.Handle.{
  handle_scan_result_state_and_publish, state_key, publish_komodor_part, publish_events_part,
}
use komodor_security_reporte.Reconciler.Handle.Published.{publish_count}
use komodor_security_reporte.Reconciler.Handle.Stored.{is_delivered, published_entry}
use komodor_security_reporte.Reconciler.Handle.Persisted.{
  config_map_backend, published_in_config_map,
}
use komodor_security_reporte.Reconciler.Tests.{empty_result}
use komodor_security_reporte.Reconciler.Tests.Handling.{outlets, workload, options}
use komodor_security_reporte.State.ConfigMap.{backend_ttl}

abbrev clean_options : EventOptions
clean_options = record options { publish_clean_scans = true }

abbrev identity : Text → Text
identity text = text

abbrev now : ℕ
now = 5_500_000_000

abbrev print_text : Json → Text
print_text v = codes "{}"

abbrev parse_text : Text → Option Json
parse_text text = some (encode_entry (published_entry identity now empty_result))

abbrev no_time : Text → Option ℕ
no_time text = none

clean_is_delivered : is_delivered outlets (codes "trivy") empty_result workload clean_options ≡ true
unfolding is_delivered should_publish text_eq to_lower publish_count publish_komodor_part trim_space
    publish_events_part
clean_is_delivered = refl

published_in_config_map_example :
    load
      (config_map_backend cluster retry_once identity same_store parse_text no_time print_text
        (pos 0)
        now)
      (handle_scan_result_state_and_publish
        (config_map_backend cluster retry_once identity same_store parse_text no_time print_text
          (pos 0)
          now)
        identity
        outlets
        now
        (codes "trivy")
        empty_result.image
        empty_result
        workload
        clean_options
        none).0
      (state_key empty_result.image (codes "trivy"))
    ≡ found (rounded (published_entry identity now empty_result))
published_in_config_map_example =
    published_in_config_map cluster (λ s. s) retry_once identity same_store parse_text no_time
      print_text (pos 0) identity outlets now (codes "trivy") empty_result.image empty_result
      workload clean_options none cluster-IsQuiet retry_once-IsDoneAtOnce (λ k j e. e)
      same_store-PassesOn clean_is_delivered refl (omega arith) (omega arith)
      (unfold backend_ttl in omega arith)
