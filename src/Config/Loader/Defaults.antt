-- ===== src/Config/Loader/Defaults.antt =====
-- The defaults that internal/config/loader.go sets, beside those of internal/config/config.go.
use komodor_security_reporte.Config.Loader.Layers.{
  Decoder, IsDecoder, field_of, or_else, IsDecoded, IsViper,
}
use komodor_security_reporte.Prelude.{
  ℕ, Option, none, some, List, [], ◌∷◌, if◌then◌else◌, inr, ◌≡◌, refl, ◌∙◌, ap, sym,
}
use komodor_security_reporte.Config.Loader.{
  duration, number, float, Viper, new_loader, set_defaults, loader_defaults, Bool, true,
  default_scanner_runtime_timeout, default_scanner_retry_max_attempts,
  default_scanner_retry_initial_backoff, default_scanner_retry_max_backoff,
  default_scanner_circuit_failure_threshold, default_scanner_circuit_open_duration,
  default_scanner_circuit_half_open_max_requests,
}
use mathlib.Core.Option
use komodor_security_reporte.Prelude.{false}
use komodor_security_reporte.Config.Runtime.{or_default, float_or_default}
use komodor_security_reporte.Prelude.Text.{Text, codes, text_eq, to_lower}
use komodor_security_reporte.Prelude.Int.{ℤ, pos, eqb_ℤ}
use komodor_security_reporte.Config.Runtime.{
  Floats, ScannerRuntimeConfig, effective_scanner_runtime_config,
}
use komodor_security_reporte.Config.Loader.{Setting, duration, number, float}

-- A field with its default in force, and the same field without it, agree once the effective
-- settings have filled in that default.
field_default {ℓ κ} :
    {X : Type ℓ} {A : Type κ} (of : X → Option A) (effective : A → A) (zero default : A) (d : X)
    (given : Option X) (a : A)
    → of d ≡ some default
    → effective default ≡ effective zero
    → field_of of zero (or_else given (some d)) ≡ some a
    → (b : A) × (field_of of zero given ≡ some b) × (effective a ≡ effective b)
field_default of effective zero default d none a ok same h = (zero, refl, cc)
field_default of effective zero default d (some x) a ok same h = (a, h, refl)

-- The default in force for a key: viper reads its keys in lower case.
unfoldable pub chosen :
    {F : Type 0} → List (Text × Setting F) → Text → Option (Setting F) → Option (Setting F)
chosen [] key old = old
chosen ((j, x) ∷ rest) key old =
    chosen rest key (if text_eq (to_lower j) (to_lower key) then some x else old)

if_same {ℓ} : {A : Type ℓ} (b : Bool) (a : A) → (if b then a else a) ≡ a
if_same true a = refl
if_same false a = refl

module _ {F X V : Type 0} (floats : Floats F) (viper : Viper F V) (decoder : Decoder F X)
    (given : Text → Text → Option X) (get : V → Text → Option X)
    (default_of : V → Text → Option (Setting F))
    (laws : IsViper floats viper decoder given get default_of) where
  set_defaults-chosen :
      (ds : List (Text × Setting F)) (v : V) (key : Text)
      → default_of (set_defaults floats viper ds v) key ≡ chosen ds key (default_of v key)
  unfolding set_defaults chosen
  set_defaults-chosen [] v key = refl
  set_defaults-chosen ((j, x) ∷ rest) v key =
      set_defaults-chosen rest (viper.set_default v j x) key
      ∙ ap (chosen rest key) (laws.of_default v j key x)

  read_with_default :
      (bytes key : Text) (w : V) (x : Setting F)
      → viper.read_config (viper.set_config_type (new_loader floats viper) (codes "yaml")) bytes
        ≡ inr w
      → chosen (loader_defaults floats viper) key none ≡ some x
      → get w key ≡ or_else (given bytes key) (some (decoder.of_default x))
  unfolding new_loader
  read_with_default bytes key w x read found =
      laws.of_reading _ w bytes key read
      ∙ ap (λ d. or_else (given bytes key) (Option.map decoder.of_default d))
          (laws.of_type (new_loader floats viper) (codes "yaml") key
            ∙ set_defaults-chosen (loader_defaults floats viper) viper.new key
            ∙ ap (chosen (loader_defaults floats viper) key) (laws.of_new key)
            ∙ found)

  module _ (decodes : IsDecoder decoder) (bytes : Text) (w : V)
      (read : viper.read_config
          (viper.set_config_type (new_loader floats viper) (codes "yaml"))
          bytes
        ≡ inr w) where
    -- A field whose default is the effective one.
    duration_default :
        (key : Text) (d : ℤ) {a : ℤ}
        → chosen (loader_defaults floats viper) key none ≡ some (duration d)
        → field_of decoder.duration_of (pos 0) (get w key) ≡ some a
        → (b : ℤ) × (field_of decoder.duration_of (pos 0) (given bytes key) ≡ some b)
          × (or_default d a ≡ or_default d b)
    duration_default key d {a} found h =
        field_default decoder.duration_of (or_default d) (pos 0) d (decoder.of_default (duration d))
          (given bytes key) a (decodes.durations d) (if_same (eqb_ℤ d (pos 0)) d)
          (rw (sym (read_with_default bytes key w (duration d) read found)) h)

    number_default :
        (key : Text) (n : ℕ) {a : ℤ}
        → chosen (loader_defaults floats viper) key none ≡ some (number n)
        → field_of decoder.int_of (pos 0) (get w key) ≡ some a
        → (b : ℤ) × (field_of decoder.int_of (pos 0) (given bytes key) ≡ some b)
          × (or_default (pos n) a ≡ or_default (pos n) b)
    number_default key n {a} found h =
        field_default decoder.int_of (or_default (pos n)) (pos 0) (pos n)
          (decoder.of_default (number n)) (given bytes key) a (decodes.numbers n)
          (if_same (eqb_ℤ (pos n) (pos 0)) (pos n))
          (rw (sym (read_with_default bytes key w (number n) read found)) h)

    float_default :
        (key : Text) (x : F) {a : F}
        → floats.equals floats.zero floats.zero ≡ true
        → chosen (loader_defaults floats viper) key none ≡ some (float x)
        → field_of decoder.float_of floats.zero (get w key) ≡ some a
        → (b : F) × (field_of decoder.float_of floats.zero (given bytes key) ≡ some b)
          × (float_or_default floats x a ≡ float_or_default floats x b)
    float_default key x {a} zero found h =
        field_default decoder.float_of (float_or_default floats x) floats.zero x
          (decoder.of_default (float x)) (given bytes key) a (decodes.floats x)
          (rw zero (if_same (floats.equals x floats.zero) x))
          (rw (sym (read_with_default bytes key w (float x) read found)) h)

    pub runtime_default :
        (r : ScannerRuntimeConfig F)
        → floats.equals floats.zero floats.zero ≡ true
        → IsDecoded floats decoder (get w) r
        → (own : ScannerRuntimeConfig F) × IsDecoded floats decoder (given bytes) own
          × (effective_scanner_runtime_config floats r
              ≡ effective_scanner_runtime_config floats own)
    unfolding chosen text_eq to_lower effective_scanner_runtime_config
    runtime_default r zero d =
        let (timeout, timeout_ok, e0) =
          duration_default (codes "scanners.runtime.timeout") default_scanner_runtime_timeout refl
            d.timeout in
        let (attempts, attempts_ok, e1) =
          number_default (codes "scanners.runtime.retry.maxAttempts")
            default_scanner_retry_max_attempts refl d.max_attempts in
        let (initial, initial_ok, e2) =
          duration_default (codes "scanners.runtime.retry.initialBackoff")
            default_scanner_retry_initial_backoff refl d.initial_backoff in
        let (longest, longest_ok, e3) =
          duration_default (codes "scanners.runtime.retry.maxBackoff")
            default_scanner_retry_max_backoff refl d.max_backoff in
        let (multiplier, multiplier_ok, e4) =
          float_default (codes "scanners.runtime.retry.backoffMultiplier") floats.two zero refl
            d.multiplier in
        let (threshold, threshold_ok, e5) =
          number_default (codes "scanners.runtime.circuitBreaker.failureThreshold")
            default_scanner_circuit_failure_threshold refl d.failure_threshold in
        let (stays, open_ok, e6) =
          duration_default (codes "scanners.runtime.circuitBreaker.openDuration")
            default_scanner_circuit_open_duration refl d.open_duration in
        let (slots, slots_ok, e7) =
          number_default (codes "scanners.runtime.circuitBreaker.halfOpenMaxRequests")
            default_scanner_circuit_half_open_max_requests refl d.half_open_max_requests in
        (
          record {
            timeout = timeout;
            retry = record {
              max_attempts = attempts;
              initial_backoff = initial;
              max_backoff = longest;
              backoff_multiplier = multiplier;
            };
            circuit_breaker = record {
              failure_threshold = threshold;
              open_duration = stays;
              half_open_max_requests = slots;
            };
          },
          record {
            timeout = timeout_ok;
            max_attempts = attempts_ok;
            initial_backoff = initial_ok;
            max_backoff = longest_ok;
            multiplier = multiplier_ok;
            failure_threshold = threshold_ok;
            open_duration = open_ok;
            half_open_max_requests = slots_ok;
          },
          λ i. record {
            timeout = e0 i;
            retry = record {
              max_attempts = e1 i;
              initial_backoff = e2 i;
              max_backoff = e3 i;
              backoff_multiplier = e4 i;
            };
            circuit_breaker = record {
              failure_threshold = e5 i;
              open_duration = e6 i;
              half_open_max_requests = e7 i;
            };
          },
        )
