-- ===== src/Startup.antt =====
-- The start of the program in cmd/komodor-security-reporter/main.go: the configuration, the
-- publisher and the state backend. The reading of files, flags and the environment and the clients
-- of the cluster are parameters.
pub mod Supported
pub mod Checked
pub mod FromFile
mod Tests
use komodor_security_reporte.Prelude.{
  Option, none, some, Bool, true, false, if◌then◌else◌, not, ◌⊎◌, inl, inr,
}
use komodor_security_reporte.Prelude.Text.{Text, codes, text_eq, is_empty, trim_space}
use komodor_security_reporte.Config.Mode.{publish_to_komodor}
use komodor_security_reporte.Config.Runtime.{Floats}
use komodor_security_reporte.Config.Validate.{Config, ConfigError, validate}
use komodor_security_reporte.Komodor.Client.{Client, ClientError}
use komodor_security_reporte.State.Factory.{Settings, BackendError, Chosen, new}

pub data StartError : Type 0 where
  config_not_loaded no_scanner_registry no_api_key no_clientset : StartError
  invalid invalid_with_override : ConfigError → StartError
  key_not_validated : ClientError → StartError
  no_state_store : BackendError → StartError

-- The formats of log lines.
pub data LogFormat : Type 0 where
  json_format text_format : LogFormat

-- setupLogging: `parse_level` is the logging library's, and a bad level is `info`.
unfoldable pub setup_logging :
    {L : Type 0} → (Text → Option L) → L → Text → Text → Option (L × LogFormat)
setup_logging {L} parse_level info level format =
    let l : L = elim (parse_level level) [ none ↦ info | some parsed ↦ parsed ] in
    if is_empty format
    then some (l, json_format)
    else if text_eq format (codes "json")
    then some (l, json_format)
    else if text_eq format (codes "text")
    then some (l, text_format)
    else none

-- stateStoreNamespace, with the variable POD_NAMESPACE
unfoldable pub state_store_namespace : Text → Text → Text
state_store_namespace pod_namespace config_namespace =
    if not (is_empty (trim_space pod_namespace))
    then trim_space pod_namespace
    else if not (is_empty (trim_space config_namespace))
    then trim_space config_namespace
    else codes "default"

-- loadKomodorAPIKey, with the variable KOMODOR_API_KEY
unfoldable pub load_komodor_api_key : Text → StartError ⊎ Text
load_komodor_api_key variable = if is_empty variable then inl no_api_key else inr variable

-- Start of the initial reconciliation returns no error, whether or not the reconciliation fails.
unfoldable pub start_initial_reconcile : {S : Type 0} → (S → Bool × S) → S → Bool × S
start_initial_reconcile reconcile_all s =
    let out = reconcile_all s in if out.0 then (true, out.1) else (true, out.1)

-- What the program is started with: the variables, the settings of the backends, whether the
-- scanners and the clientset can be created, and how the API answers to a client's key.
pub record Host : Type 0 where
  pub pod_namespace : Text
  pub api_key : Text
  pub settings : Settings
  pub state_namespace : Text
  pub scanners_created : Bool
  pub clientset_created : Bool
  pub validate_key : Client → Option ClientError

-- The components of which modelled code depends.
pub record Components (F : Type 0) : Type 0 where
  pub config : Config F
  pub publisher : Option Client
  pub state_store : Chosen

module _ {F : Type 0} (floats : Floats F) where
  -- loadAndValidateConfig: the configuration of the file, and the mode of the flag if it was set.
  unfoldable pub load_and_validate_config : Option (Config F) → Option Text → StartError ⊎ Config F
  unfolding validate
  load_and_validate_config loaded flag = elim loaded [
    | none ↦ inl config_not_loaded
    | some c ↦ elim (validate floats c) [
      | some e ↦ inl (invalid e)
      | none ↦ elim flag [
        | none ↦ inr c
        | some mode ↦
            let overridden = record c { publishing_mode = mode } in
            elim (validate floats overridden) [
              | some e ↦ inl (invalid_with_override e)
              | none ↦ inr overridden
            ]
      ]
    ]
  ]

-- The publisher of setupRuntimeComponents, if the mode publishes to Komodor.
unfoldable pub setup_publisher : {F : Type 0} → Host → Config F → StartError ⊎ Option Client
unfolding publish_to_komodor load_komodor_api_key
setup_publisher host c =
    if not (publish_to_komodor c.publishing_mode)
    then inr none
    else elim (load_komodor_api_key host.api_key) [
      | inl e ↦ inl e
      | inr key ↦
          let client : Client = record { base_url = c.komodor_base_url; api_key = key } in
          elim (host.validate_key client) [
            | some e ↦ inl (key_not_validated e)
            | none ↦ inr (some client)
          ]
    ]

-- setupRuntimeComponents
unfoldable pub setup_runtime_components : {F : Type 0} → Host → Config F → StartError ⊎ Components F
unfolding setup_publisher state_store_namespace new
setup_runtime_components host c =
    let namespace = state_store_namespace host.pod_namespace host.state_namespace in
    if not host.scanners_created then inl no_scanner_registry else elim (setup_publisher host c) [
      | inl e ↦ inl e
      | inr publisher ↦
          if not host.clientset_created
          then inl no_clientset
          else elim (new c.state_backend host.settings namespace) [
            | inl e ↦ inl (no_state_store e)
            | inr store ↦ inr (record { config = c; publisher = publisher; state_store = store })
          ]
    ]

module _ {F : Type 0} (floats : Floats F) where
  -- run, up to the components.
  unfoldable pub start : Host → Option (Config F) → Option Text → StartError ⊎ Components F
  unfolding load_and_validate_config setup_runtime_components
  start host loaded flag = elim (load_and_validate_config floats loaded flag) [
    | inl e ↦ inl e
    | inr c ↦ setup_runtime_components host c
  ]
