-- ===== src/Config/Loader/Layers.antt =====
-- What viper documents of the layers of its settings, of which internal/config/loader.go sets the
-- defaults, and of their decoding by the tags of internal/config/config.go.
use komodor_security_reporte.Prelude.{ℕ, Option, none, some, if◌then◌else◌, inr, ◌≡◌}
use komodor_security_reporte.Config.Loader.{duration, number, float, Viper, Config}
use mathlib.Core.Option
use komodor_security_reporte.Prelude.Text.{Text, codes, text_eq, to_lower}
use komodor_security_reporte.Prelude.Int.{ℤ, pos}
use komodor_security_reporte.Config.Runtime.{Floats, ScannerRuntimeConfig}
use komodor_security_reporte.Config.Loader.{Setting, duration, number, float}

-- What the decoder makes of the values `X` of a file, among them the defaults.
pub record Decoder (F X : Type 0) : Type 0 where
  pub of_default : Setting F → X
  pub duration_of : X → Option ℤ
  pub int_of : X → Option ℤ
  pub float_of : X → Option F

pub record IsDecoder {F X : Type 0} (decoder : Decoder F X) : Type 0 where
  pub durations : (d : ℤ) → decoder.duration_of (decoder.of_default (duration d)) ≡ some d
  pub numbers : (n : ℕ) → decoder.int_of (decoder.of_default (number n)) ≡ some (pos n)
  pub floats : (x : F) → decoder.float_of (decoder.of_default (float x)) ≡ some x

-- A field is decoded from its setting, and is zero without one.
abbrev pub field_of {ℓ κ} : {X : Type ℓ} {A : Type κ} → (X → Option A) → A → Option X → Option A
field_of of zero none = some zero
field_of of zero (some x) = of x

abbrev pub or_else {ℓ} : {X : Type ℓ} → Option X → Option X → Option X
or_else none d = d
or_else (some x) d = some x

-- The runtime settings that the mapstructure tags of ScannerRuntimeConfig read.
pub record IsDecoded {F X : Type 0} (floats : Floats F) (decoder : Decoder F X)
    (get : Text → Option X) (r : ScannerRuntimeConfig F) : Type 0 where
  pub timeout :
      field_of decoder.duration_of (pos 0) (get (codes "scanners.runtime.timeout")) ≡ some r.timeout
  pub max_attempts :
      field_of decoder.int_of (pos 0) (get (codes "scanners.runtime.retry.maxAttempts"))
      ≡ some r.retry.max_attempts
  pub initial_backoff :
      field_of decoder.duration_of (pos 0) (get (codes "scanners.runtime.retry.initialBackoff"))
      ≡ some r.retry.initial_backoff
  pub max_backoff :
      field_of decoder.duration_of (pos 0) (get (codes "scanners.runtime.retry.maxBackoff"))
      ≡ some r.retry.max_backoff
  pub multiplier :
      field_of decoder.float_of floats.zero (get (codes "scanners.runtime.retry.backoffMultiplier"))
      ≡ some r.retry.backoff_multiplier
  pub failure_threshold :
      field_of decoder.int_of
        (pos 0)
        (get (codes "scanners.runtime.circuitBreaker.failureThreshold"))
      ≡ some r.circuit_breaker.failure_threshold
  pub open_duration :
      field_of decoder.duration_of
        (pos 0)
        (get (codes "scanners.runtime.circuitBreaker.openDuration"))
      ≡ some r.circuit_breaker.open_duration
  pub half_open_max_requests :
      field_of decoder.int_of
        (pos 0)
        (get (codes "scanners.runtime.circuitBreaker.halfOpenMaxRequests"))
      ≡ some r.circuit_breaker.half_open_max_requests

-- What viper documents of its layers: `given` are the settings of the bytes of a file, which come
-- before the defaults, `default_of` is the layer of the defaults, and `get` is what is decoded.
pub record IsViper {F X V : Type 0} (floats : Floats F) (viper : Viper F V) (decoder : Decoder F X)
    (given : Text → Text → Option X) (get : V → Text → Option X)
    (default_of : V → Text → Option (Setting F)) : Type 0 where
  pub of_new : (key : Text) → default_of viper.new key ≡ none
  pub of_default :
      (v : V) (j key : Text) (x : Setting F)
      → default_of (viper.set_default v j x) key
        ≡ (if text_eq (to_lower j) (to_lower key) then some x else default_of v key)
  pub of_type :
      (v : V) (t key : Text) → default_of (viper.set_config_type v t) key ≡ default_of v key
  pub of_reading :
      (v w : V) (bytes key : Text)
      → viper.read_config v bytes ≡ inr w
      → get w key ≡ or_else (given bytes key) (Option.map decoder.of_default (default_of v key))
  pub of_decoding :
      (v : V) (c : Config F)
      → viper.unmarshal v ≡ inr c
      → IsDecoded floats decoder (get v) c.scanners.runtime
