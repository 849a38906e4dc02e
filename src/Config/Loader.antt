-- ===== src/Config/Loader.antt =====
-- internal/config/loader.go, and SubConfig and ScannerSubConfig of internal/config/config.go. The
-- loader of settings that they use, with its files, its YAML and its decoding into the fields of a
-- configuration, is a parameter.
pub mod Layers
pub mod Defaults
pub mod Effective
pub mod Tests
use komodor_security_reporte.Prelude.{
  ℕ, Option, none, some, Bool, true, false, List, [], ◌∷◌, if◌then◌else◌, ◌⊎◌, inl, inr, ◌++◌,
}
use komodor_security_reporte.Prelude.Text.{Text, codes, index_of}
use komodor_security_reporte.Prelude.Int.{ℤ, pos, ltb_ℤ, pos_part}
use komodor_security_reporte.Config.Runtime.{
  Floats, default_scanner_runtime_timeout, default_scanner_retry_max_attempts,
  default_scanner_retry_initial_backoff, default_scanner_retry_max_backoff,
  default_scanner_circuit_failure_threshold, default_scanner_circuit_open_duration,
  default_scanner_circuit_half_open_max_requests,
}
use komodor_security_reporte.Config.Validate.{Config, ConfigError, validate}
use komodor_security_reporte.Prelude.Decimal.{decimal}

-- A default: a text, the text that Duration.String gives for a duration, a number, or an empty list.
pub data Setting (F : Type 0) : Type 0 where
  text : Text → Setting F
  duration : ℤ → Setting F
  number : ℕ → Setting F
  float : F → Setting F
  empty_list : Setting F

-- The loader: a new one, SetDefault, SetConfigFile, SetConfigType, ReadInConfig, ReadConfig,
-- Unmarshal with the hook for durations, and Sub. A failure gives the text of its error.
pub record Viper (F V : Type 0) : Type 0 where
  pub new : V
  pub set_default : V → Text → Setting F → V
  pub set_config_file : V → Text → V
  pub set_config_type : V → Text → V
  pub read_in_config : V → Text ⊎ V
  pub read_config : V → Text → Text ⊎ V
  pub unmarshal : V → Text ⊎ Config F
  pub sub : V → Text → Option V

pub data LoadError : Type 0 where
  file_not_read yaml_not_read : Text → LoadError
  state_ttl_not_parsed scanner_timeout_not_parsed : Text → LoadError
  scanner_runtime_not_parsed not_decoded : Text → LoadError
  not_valid : ConfigError → LoadError

-- A configuration with its source.
pub record LoadedConfig (F V : Type 0) : Type 0 where
  pub config : Config F
  pub source : Option V

unfoldable pub contains : Text → Text → Bool
contains part s = elim (index_of part s) [ none ↦ false | some i ↦ true ]

-- The error of unmarshalConfig for the text of the decoder's error.
unfoldable pub decode_error : Text → LoadError
unfolding contains
decode_error message =
    if contains (codes "state.ttl") message
    then state_ttl_not_parsed message
    else if contains (codes ".command.timeout") message
    then scanner_timeout_not_parsed message
    else if contains (codes "scanners.runtime") message
    then scanner_runtime_not_parsed message
    else not_decoded message

module _ {F V : Type 0} (floats : Floats F) (viper : Viper F V) where
  unfoldable pub set_defaults : List (Text × Setting F) → V → V
  set_defaults [] v = v
  set_defaults ((key, x) ∷ rest) v = set_defaults rest (viper.set_default v key x)

  -- The defaults, in the order in which newLoader sets them.
  abbrev pub loader_defaults : List (Text × Setting F)
  loader_defaults =
      (codes "state.backend", text (codes "configmap"))
      ∷ (codes "state.ttl", text (codes "72h"))
      ∷ (codes "state.namespace", text (codes "default"))
      ∷ (codes "state.memory.maxEntries", number 1000)
      ∷ (codes "state.redis.keyPrefix", text (codes "komodor-security-reporter"))
      ∷ (codes "state.redis.dialTimeout", text (codes "5s"))
      ∷ (codes "state.redis.readTimeout", text (codes "3s"))
      ∷ (codes "state.redis.writeTimeout", text (codes "3s"))
      ∷ (codes "state.memcache.keyPrefix", text (codes "komodor-security-reporter"))
      ∷ (codes "state.memcache.timeout", text (codes "500ms"))
      ∷ (codes "state.memcache.maxIdleConns", number 2)
      ∷ (codes "scanners.concurrency", number 4)
      ∷ (codes "scanners.runtime.timeout", duration default_scanner_runtime_timeout)
      ∷ (codes "scanners.runtime.retry.maxAttempts", number default_scanner_retry_max_attempts)
      ∷ (
        codes "scanners.runtime.retry.initialBackoff",
        duration default_scanner_retry_initial_backoff,
      )
      ∷ (codes "scanners.runtime.retry.maxBackoff", duration default_scanner_retry_max_backoff)
      ∷ (codes "scanners.runtime.retry.backoffMultiplier", float floats.two)
      ∷ (
        codes "scanners.runtime.circuitBreaker.failureThreshold",
        number default_scanner_circuit_failure_threshold,
      )
      ∷ (
        codes "scanners.runtime.circuitBreaker.openDuration",
        duration default_scanner_circuit_open_duration,
      )
      ∷ (
        codes "scanners.runtime.circuitBreaker.halfOpenMaxRequests",
        number default_scanner_circuit_half_open_max_requests,
      )
      ∷ (codes "publishing.mode", text (codes "komodor"))
      ∷ (codes "publishing.dedupeTTL", text (codes "24h"))
      ∷ (codes "scanners.scanners", empty_list)
      ∷ []

  unfoldable pub new_loader : V
  unfolding set_defaults
  new_loader = set_defaults loader_defaults viper.new

  unfoldable pub unmarshal_config : V → LoadError ⊎ LoadedConfig F V
  unfolding decode_error
  unmarshal_config v = elim (viper.unmarshal v) [
    | inl message ↦ inl (decode_error message)
    | inr config ↦ inr (record { config = config; source = some v })
  ]

  unfoldable pub validate_loaded_config : LoadedConfig F V → LoadError ⊎ LoadedConfig F V
  unfolding validate
  validate_loaded_config c = elim (validate floats c.config) [
    | some e ↦ inl (not_valid e)
    | none ↦ inr c
  ]

  -- What follows the reading in both functions.
  unfoldable pub finish_loading : V → LoadError ⊎ LoadedConfig F V
  unfolding unmarshal_config validate_loaded_config
  finish_loading v = elim (unmarshal_config v) [ inl e ↦ inl e | inr c ↦ validate_loaded_config c ]

  unfoldable pub load_from_file : Text → LoadError ⊎ LoadedConfig F V
  unfolding new_loader finish_loading
  load_from_file path = elim (viper.read_in_config (viper.set_config_file new_loader path)) [
    | inl message ↦ inl (file_not_read message)
    | inr v ↦ finish_loading v
  ]

  unfoldable pub load_from_bytes : Text → LoadError ⊎ LoadedConfig F V
  unfolding new_loader finish_loading
  load_from_bytes bytes =
      elim (viper.read_config (viper.set_config_type new_loader (codes "yaml")) bytes) [
        | inl message ↦ inl (yaml_not_read message)
        | inr v ↦ finish_loading v
      ]

  -- A nil configuration has no scopes.
  unfoldable pub sub_config : Option (LoadedConfig F V) → Text → Option V
  sub_config none path = none
  sub_config (some c) path = elim c.source [ none ↦ none | some v ↦ viper.sub v path ]

  unfoldable pub scanner_sub_config : Option (LoadedConfig F V) → ℤ → Option V
  unfolding sub_config
  scanner_sub_config c index =
      if ltb_ℤ index (pos 0)
      then none
      else sub_config c (codes "scanners.scanners." ++ decimal (pos_part index))
