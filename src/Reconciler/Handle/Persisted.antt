-- ===== src/Reconciler/Handle/Persisted.antt =====
-- handleScanResultStateAndPublish of internal/reconciler/reconcile.go with the backend of
-- internal/state/backends/configmap/store.go.
use komodor_security_reporte.Prelude.{
  ℕ, ◌≡◌, ◌≤◌, ◌∙◌, ◌+◌, arith, Option, some, true, if◌then◌else◌, ltb,
}
use komodor_security_reporte.Prelude.Text.{Text, text_eq_refl}
use komodor_security_reporte.Prelude.Int.{ℤ, pos, pos_part, ◌≤ℤ◌}
use komodor_security_reporte.Prelude.Json.{Json}
use komodor_security_reporte.Registry.ImageRef.{ImageRef}
use komodor_security_reporte.Scanners.Result.{ScanResult}
use komodor_security_reporte.Komodor.Publisher.{WorkloadContext, EventOptions}
use komodor_security_reporte.State.Entry.{Entry}
use komodor_security_reporte.State.Entry.Codec.{
  encode_entry, second, unmarshal, marshal, zero_entry,
}
use komodor_security_reporte.State.Entry.Formats.{rounded, FitsUnix}
use komodor_security_reporte.State.Backend.{Backend, load, found, absent}
use komodor_security_reporte.State.Store.{Store, PassesOn, new_backend}
use komodor_security_reporte.State.ConfigMap.{ConfigMap, Api, Retry, new_store, backend_ttl}
use komodor_security_reporte.State.ConfigMap.Kept.{IsQuiet, IsDoneAtOnce, IsInjective}
use komodor_security_reporte.State.ConfigMap.Reliable.{config_map-IsReliable, answer_of-marshal}
use komodor_security_reporte.Reconciler.Handle.{
  Outlets, handle_scan_result_state_and_publish, state_key,
}
use komodor_security_reporte.Reconciler.Handle.Stored.{is_delivered, published_entry, handle_stores}

-- The state backend of the program over a ConfigMap, at the time `now`.
abbrev pub config_map_backend :
    {S : Type 0}
    → Api S
    → Retry S
    → (Text → Text)
    → (Store S → Store S)
    → (Text → Option Json)
    → (Text → Option ℕ)
    → (Json → Text)
    → ℤ
    → ℕ
    → Backend S
config_map_backend api retry encode new_cache parse parse_time print ttl now =
    new_backend new_cache
      (new_store api retry encode (λ text. unmarshal parse parse_time text zero_entry)
        (marshal print) (backend_ttl ttl) now)
      (backend_ttl ttl)

-- An entry of this moment is found, if the time to live is at least a second.
found_now :
    (e : Entry) (ttl : ℤ)
    → pos second ≤ℤ backend_ttl ttl
    → (if ltb ((rounded e).last_scanned_time + pos_part (backend_ttl ttl)) e.last_scanned_time
        then absent
        else found (rounded e))
      ≡ found (rounded e)
unfolding rounded
found_now e ttl h = ground arith

-- When the result of a scan has been published, the ConfigMap holds it: GetEntry finds, under the
-- key of the image's digest and the scanner, the result's fingerprint with the time of the
-- handling, cut to seconds. The backend is the ConfigMap's only client, its calls succeed, the
-- JSON library reads the entry's text back, and the time to live is at least a second.
pub published_in_config_map :
    {S : Type 0} (api : Api S) (held : S → Option ConfigMap) (retry : Retry S)
    (encode : Text → Text) (new_cache : Store S → Store S) (parse : Text → Option Json)
    (parse_time : Text → Option ℕ) (print : Json → Text) (ttl : ℤ) (hash : Text → Text)
    (outlets : Outlets) (now : ℕ) (scanner : Text) (resolved : ImageRef) (result : ScanResult)
    (workload : WorkloadContext) (opts : EventOptions) (s : S)
    → IsQuiet api held
    → IsDoneAtOnce retry
    → IsInjective encode
    → PassesOn new_cache
    → is_delivered outlets scanner result workload opts ≡ true
    → parse (print (encode_entry (published_entry hash now result)))
      ≡ some (encode_entry (published_entry hash now result))
    → FitsUnix now
    → second ≤ now
    → pos second ≤ℤ backend_ttl ttl
    → let backend = config_map_backend api retry encode new_cache parse parse_time print ttl now in
      load backend
        (handle_scan_result_state_and_publish backend hash outlets now scanner resolved result
          workload opts s).0
        (state_key resolved scanner)
      ≡ found (rounded (published_entry hash now result))
unfolding published_entry
published_in_config_map api held retry encode new_cache parse parse_time print ttl hash outlets now
      scanner resolved result workload opts s quiet at_once injective passes delivered reads fits
      late lasting =
    let read = λ (text : Text). unmarshal parse parse_time text zero_entry in
    let entry = published_entry hash now result in
    let reliable =
      config_map-IsReliable api held quiet retry at_once encode injective new_cache passes read
        (marshal print) ttl now in
    handle_stores (config_map_backend api retry encode new_cache parse parse_time print ttl now)
      reliable hash outlets now scanner resolved result workload opts s (state_key resolved scanner)
    ∙ rw (delivered, text_eq_refl (state_key resolved scanner))
        (answer_of-marshal parse parse_time print entry ttl now reads fits fits late
          ∙ found_now entry ttl lasting)
