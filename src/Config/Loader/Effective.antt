-- ===== src/Config/Loader/Effective.antt =====
-- The configuration that main.go runs with, from its file by internal/config/loader.go.
use komodor_security_reporte.Prelude.{
  Option, none, some, true, ◌⊎◌, inl, inr, ◌≡◌, refl, ap, Option-cases, Sum-cases, subst,
}
use komodor_security_reporte.Config.Loader.{
  LoadedConfig, load_from_bytes, Floats, finish_loading, Viper, unmarshal_config,
  validate_loaded_config, Text, validate, Setting, new_loader, codes, Config,
}
use komodor_security_reporte.Config.Loader.Layers.{Decoder, IsViper, IsDecoder, IsDecoded}
use komodor_security_reporte.Config.Loader.Defaults.{runtime_default}
use komodor_security_reporte.Config.Runtime.{
  ScannerRuntimeConfig, new_scanner_runtime_policy, effective_scanner_runtime_config,
}
use komodor_security_reporte.Reconciler.Circuit.{RuntimePolicy}

-- What a successful load has done.
pub finish_loading_exact :
    {F V : Type 0} (floats : Floats F) (viper : Viper F V) (w : V) (c : LoadedConfig F V)
    → finish_loading floats viper w ≡ inr c
    → (viper.unmarshal w ≡ inr c.config) × (c.source ≡ some w) × (validate floats c.config ≡ none)
unfolding finish_loading unmarshal_config validate_loaded_config
finish_loading_exact {F = F} floats viper w c = elim (Sum-cases (viper.unmarshal w)) [
  | inl (message, e) ↦ rw (finish_loading, unmarshal_config, e) (λ h. cc h)
  | inr (config, e) ↦ elim (Option-cases (validate floats config)) [
    | inl v ↦
        rw (finish_loading, unmarshal_config, e, validate_loaded_config, v)
          (λ h.
            let same : record { config = config; source = some w } ≡ c = cc h in
            subst
              (λ d.
                (◌≡◌ {A = Text ⊎ Config F} (inr config) (inr d.config))
                × (d.source ≡ some w)
                × (validate floats d.config ≡ none))
              same (refl, refl, v))
    | inr (x, v) ↦ rw (finish_loading, unmarshal_config, e, validate_loaded_config, v) (λ h. cc h)
  ]
]

abbrev of_effective : {F : Type 0} → ScannerRuntimeConfig F → RuntimePolicy F
of_effective effective = record {
  timeout = effective.timeout;
  retry_max_attempts = effective.retry.max_attempts;
  retry_initial_backoff = effective.retry.initial_backoff;
  retry_max_backoff = effective.retry.max_backoff;
  retry_multiplier = effective.retry.backoff_multiplier;
  failure_threshold = effective.circuit_breaker.failure_threshold;
  open_duration = effective.circuit_breaker.open_duration;
  half_open_max_requests = effective.circuit_breaker.half_open_max_requests;
}

-- The policy depends on the effective settings alone.
policy_of_effective :
    {F : Type 0} (floats : Floats F) (a b : ScannerRuntimeConfig F)
    → effective_scanner_runtime_config floats a ≡ effective_scanner_runtime_config floats b
    → new_scanner_runtime_policy floats a ≡ new_scanner_runtime_policy floats b
unfolding new_scanner_runtime_policy
policy_of_effective floats a b same = ap of_effective same

module _ {F X V : Type 0} (floats : Floats F) (viper : Viper F V) (decoder : Decoder F X)
    (given : Text → Text → Option X) (get : V → Text → Option X)
    (default_of : V → Text → Option (Setting F))
    (laws : IsViper floats viper decoder given get default_of) (decodes : IsDecoder decoder) where
  -- A configuration that LoadFromBytes returns is valid, is the source of its own scopes, and the
  -- retries and the breaker work as with the runtime settings of the bytes alone: the defaults that
  -- newLoader sets for them change nothing beside the effective ones. Viper keeps its defaults apart
  -- from the settings of the bytes, and decodes a duration, a number and a float as what they are,
  -- and the floating-point zero equals itself.
  pub load_from_bytes-runtime :
      (bytes : Text) (c : LoadedConfig F V)
      → floats.equals floats.zero floats.zero ≡ true
      → load_from_bytes floats viper bytes ≡ inr c
      → (validate floats c.config ≡ none)
        × ((w : V) × (c.source ≡ some w) × (viper.unmarshal w ≡ inr c.config))
        × ((own : ScannerRuntimeConfig F) × IsDecoded floats decoder (given bytes) own
            × (new_scanner_runtime_policy floats c.config.scanners.runtime
                ≡ new_scanner_runtime_policy floats own))
  unfolding load_from_bytes
  load_from_bytes-runtime bytes c zero =
      elim (Sum-cases (
        viper.read_config (viper.set_config_type (new_loader floats viper) (codes "yaml")) bytes)) [
          | inl (message, e) ↦ rw (load_from_bytes, e) (λ h. cc h)
          | inr (w, e) ↦
              rw (load_from_bytes, e)
                (λ h.
                  let (decoded, source, valid) = finish_loading_exact floats viper w c h in
                  let (own, reads, same) =
                    runtime_default floats viper decoder given get default_of laws decodes bytes w e
                      c.config.scanners.runtime zero (laws.of_decoding w c.config decoded) in
                  (
                    valid,
                    (w, source, decoded),
                    (own, reads, policy_of_effective floats c.config.scanners.runtime own same),
                  ))
        ]
