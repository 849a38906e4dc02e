-- ===== src/Config/Loader/Tests.antt =====
-- A loader of settings that keeps them as a function, and a file that sets the attempts alone.
use mathlib.Core.Option
use komodor_security_reporte.Config.Tests.{config, tenths}
use komodor_security_reporte.Config.Validate.{validate}
use komodor_security_reporte.Prelude.Text.{text_eq, to_lower, trim_space}
use komodor_security_reporte.Config.Loader.{
  new_loader, set_defaults, finish_loading, unmarshal_config, validate_loaded_config,
}
use komodor_security_reporte.Prelude.{
  subst, Option, none, some, [], if◌then◌else◌, ◌⊎◌, inr, ◌≡◌, refl,
}
use komodor_security_reporte.Config.Runtime.{ScannerRuntimeConfig, new_scanner_runtime_policy}
use komodor_security_reporte.Config.Loader.{
  LoadedConfig, load_from_bytes, Setting, duration, number, float, Viper, Config, Text, ℤ, pos,
  codes,
}
use komodor_security_reporte.Config.Loader.Layers.{
  Decoder, IsDecoder, IsViper, field_of, or_else, IsDecoded,
}
use komodor_security_reporte.Config.Tests.{tenths, config}
use komodor_security_reporte.Prelude.Text.{text_eq, to_lower}
use komodor_security_reporte.Config.Loader.Effective.{load_from_bytes-runtime}

abbrev Layers : Type 0
Layers = (Text → Option (Setting ℤ)) × (Text → Option (Setting ℤ))

abbrev number_of : Setting ℤ → ℤ
number_of (duration d) = d
number_of (number n) = pos n
number_of (float x) = x
number_of _ = pos 0

abbrev decoder : Decoder ℤ (Setting ℤ)
decoder = record {
  of_default = λ x. x;
  duration_of = λ x. some (number_of x);
  int_of = λ x. some (number_of x);
  float_of = λ x. some (number_of x);
}

decoder-IsDecoder : IsDecoder decoder
decoder-IsDecoder = record { durations = λ d. refl; numbers = λ n. refl; floats = λ x. refl }

-- The settings of each file: 5 attempts.
abbrev given : Text → Text → Option (Setting ℤ)
given bytes key =
    if text_eq key (codes "scanners.runtime.retry.maxAttempts") then some (number 5) else none

abbrev get : Layers → Text → Option (Setting ℤ)
get v key = or_else (v.0 key) (Option.map decoder.of_default (v.1 key))

abbrev field : Layers → Text → ℤ
field v key = elim (get v key) [ none ↦ pos 0 | some x ↦ number_of x ]

abbrev decoded : Layers → Config ℤ
decoded v = record config {
  scanners = record config.scanners {
    runtime = record {
      timeout = field v (codes "scanners.runtime.timeout");
      retry = record {
        max_attempts = field v (codes "scanners.runtime.retry.maxAttempts");
        initial_backoff = field v (codes "scanners.runtime.retry.initialBackoff");
        max_backoff = field v (codes "scanners.runtime.retry.maxBackoff");
        backoff_multiplier = field v (codes "scanners.runtime.retry.backoffMultiplier");
      };
      circuit_breaker = record {
        failure_threshold = field v (codes "scanners.runtime.circuitBreaker.failureThreshold");
        open_duration = field v (codes "scanners.runtime.circuitBreaker.openDuration");
        half_open_max_requests =
            field v (codes "scanners.runtime.circuitBreaker.halfOpenMaxRequests");
      };
    };
  };
}

abbrev pub viper : Viper ℤ Layers
viper = record {
  new = (λ key. none, λ key. none);
  set_default =
      λ v j x. (v.0, λ key. if text_eq (to_lower j) (to_lower key) then some x else v.1 key);
  set_config_file = λ v path. v;
  set_config_type = λ v t. v;
  read_in_config = λ v. inr (given [], v.1);
  read_config = λ v bytes. inr (given bytes, v.1);
  unmarshal = λ v. inr (decoded v);
  sub = λ v path. some v;
}

field_decoded :
    (o : Option (Setting ℤ))
    → field_of (λ x. some (number_of x)) (pos 0) o
      ≡ some (elim o [ none ↦ pos 0 | some x ↦ number_of x ])
field_decoded none = refl
field_decoded (some x) = refl

inr_injective : {A B : Type 0} {x y : B} → ◌≡◌ {A = A ⊎ B} (inr x) (inr y) → x ≡ y
inr_injective h = cc

decoded-IsDecoded : (v : Layers) → IsDecoded tenths decoder (get v) (decoded v).scanners.runtime
decoded-IsDecoded v = record {
  timeout = field_decoded (get v (codes "scanners.runtime.timeout"));
  max_attempts = field_decoded (get v (codes "scanners.runtime.retry.maxAttempts"));
  initial_backoff = field_decoded (get v (codes "scanners.runtime.retry.initialBackoff"));
  max_backoff = field_decoded (get v (codes "scanners.runtime.retry.maxBackoff"));
  multiplier = field_decoded (get v (codes "scanners.runtime.retry.backoffMultiplier"));
  failure_threshold =
      field_decoded (get v (codes "scanners.runtime.circuitBreaker.failureThreshold"));
  open_duration = field_decoded (get v (codes "scanners.runtime.circuitBreaker.openDuration"));
  half_open_max_requests =
      field_decoded (get v (codes "scanners.runtime.circuitBreaker.halfOpenMaxRequests"));
}

viper-IsViper : IsViper tenths viper decoder given get (λ v. v.1)
viper-IsViper = record {
  of_new = λ key. refl;
  of_default = λ v j key x. refl;
  of_type = λ v t key. refl;
  of_reading = λ v w bytes key h.
      subst (λ u. get u key ≡ or_else (given bytes key) (Option.map decoder.of_default (v.1 key)))
        (inr_injective {A = Text} h) refl;
  of_decoding = λ v c h.
      subst (λ d. IsDecoded tenths decoder (get v) d.scanners.runtime) (inr_injective {A = Text} h)
        (decoded-IsDecoded v);
}

abbrev read : Layers
read = (given [], (new_loader tenths viper).1)

abbrev loaded_example : LoadedConfig ℤ Layers
loaded_example = record { config = decoded read; source = some read }

loaded_from_bytes : load_from_bytes tenths viper [] ≡ inr loaded_example
unfolding load_from_bytes new_loader set_defaults finish_loading unmarshal_config
    validate_loaded_config validate text_eq to_lower trim_space
loaded_from_bytes = refl

load_from_bytes-runtime_example :
    (validate tenths loaded_example.config ≡ none)
    × ((w : Layers) × (loaded_example.source ≡ some w)
        × (viper.unmarshal w ≡ inr loaded_example.config))
    × ((own : ScannerRuntimeConfig ℤ) × IsDecoded tenths decoder (given []) own
        × (new_scanner_runtime_policy tenths loaded_example.config.scanners.runtime
            ≡ new_scanner_runtime_policy tenths own))
load_from_bytes-runtime_example =
    load_from_bytes-runtime tenths viper decoder given get (λ v. v.1) viper-IsViper
      decoder-IsDecoder [] loaded_example refl loaded_from_bytes
