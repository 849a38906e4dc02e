-- ===== src/Config/Tests.antt =====
-- A valid configuration that leaves the runtime settings to their defaults.
use komodor_security_reporte.Prelude.{◌≡◌, refl, none, [], ◌∷◌}
use komodor_security_reporte.Prelude.Int.{ℤ, pos, ltb_ℤ, eqb_ℤ}
use komodor_security_reporte.Prelude.Text.{codes, text_eq, trim_space, to_lower}
use komodor_security_reporte.Reconciler.Circuit.Invariant.{IsPositive}
use komodor_security_reporte.Config.Runtime.{
  Floats, ScannerRuntimeConfig, new_scanner_runtime_policy,
}
use komodor_security_reporte.Config.Validate.{Config, validate}
use komodor_security_reporte.Config.Validate.Policy.{HasPositiveDelays, valid-IsPositive}

-- Numbers in steps of a tenth.
abbrev pub tenths : Floats ℤ
tenths = record {
  zero = pos 0;
  half = pos 5;
  one = pos 10;
  two = pos 20;
  hundred = pos 1000;
  equals = eqb_ℤ;
  less = ltb_ℤ;
}

abbrev runtime : ScannerRuntimeConfig ℤ
runtime = record {
  timeout = pos 0;
  retry = record {
    max_attempts = pos 5;
    initial_backoff = pos 0;
    max_backoff = pos 0;
    backoff_multiplier = pos 0;
  };
  circuit_breaker = record {
    failure_threshold = pos 0;
    open_duration = pos 0;
    half_open_max_requests = pos 0;
  };
}

abbrev pub config : Config ℤ
config = record {
  cluster_name = codes "prod";
  kinds = codes "Deployment" ∷ [];
  scanners = record {
    concurrency = pos 2;
    namespace_concurrency = pos 0;
    runtime = runtime;
    backpressure = record { error_rate_threshold = pos 0; min_rps = pos 0; max_rps = pos 0 };
    scanners = record { name = codes "trivy"; type = codes "trivy" } ∷ [];
  };
  state_backend = codes "memory";
  state_ttl = pos 60;
  publishing_mode = codes "events";
  komodor_base_url = [];
}

pub config_valid : validate tenths config ≡ none
unfolding validate text_eq trim_space to_lower
config_valid = refl

valid-IsPositive_example :
    IsPositive (new_scanner_runtime_policy tenths runtime)
    × HasPositiveDelays (new_scanner_runtime_policy tenths runtime)
valid-IsPositive_example = valid-IsPositive tenths config config_valid
