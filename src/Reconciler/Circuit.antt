-- ===== src/Reconciler/Circuit.antt =====
-- The circuit breaker of internal/reconciler/scanner_runtime.go. Its mutex makes each method one
-- step. Instants are nanoseconds, and the zero time is 0; durations and counts are integers.
pub mod Invariant
pub mod Trip
pub mod Probes
pub mod Keyed
use komodor_security_reporte.Prelude.{
  ℕ, suc, ◌+◌, ◌-◌, Bool, true, false, Option, none, some, if◌then◌else◌, ltb,
}
use komodor_security_reporte.Prelude.Int.{ℤ, pos, sub_ℕ, suc_ℤ, leb_ℤ, ltb_ℤ}
use komodor_security_reporte.Prelude.Text.{Text}
use komodor_security_reporte.Prelude.Dict.{Dict, lookup, put}

pub data CircuitState : Type 0 where
  closed open_circuit half_open : CircuitState

-- `F` is the type of floating-point numbers.
pub record RuntimePolicy (F : Type 0) : Type 0 where
  pub timeout : ℤ
  pub retry_max_attempts : ℤ
  pub retry_initial_backoff : ℤ
  pub retry_max_backoff : ℤ
  pub retry_multiplier : F
  pub failure_threshold : ℤ
  pub open_duration : ℤ
  pub half_open_max_requests : ℤ

-- `half_open_in_flight` goes up from 0 and down only when it is above 0.
pub record Circuit : Type 0 where
  pub state : CircuitState
  pub consecutive_failures : ℤ
  pub opened_at : ℕ
  pub half_open_in_flight : ℕ

abbrev pub new_circuit : Circuit
new_circuit = record {
  state = closed;
  consecutive_failures = pos 0;
  opened_at = 0;
  half_open_in_flight = 0;
}

abbrev pub Breaker : Type 0
Breaker = Dict Circuit

-- What getOrCreate returns for a name; the caller writes the circuit back.
unfoldable pub get_or_create : Text → Breaker → Circuit
get_or_create name breaker = elim (lookup name breaker) [ none ↦ new_circuit | some c ↦ c ]

module _ {F : Type 0} (policy : RuntimePolicy F) where
  -- The second half of `allow`: a half-open circuit has a bounded number of slots.
  unfoldable pub admit : Circuit → Circuit × Bool
  admit c =
      if leb_ℤ policy.half_open_max_requests (pos c.half_open_in_flight)
      then (c, false)
      else (record c { half_open_in_flight = suc c.half_open_in_flight }, true)

  -- `allow` on one circuit; `false` is errScannerCircuitOpen.
  unfoldable pub allow_circuit : ℕ → Circuit → Circuit × Bool
  unfolding admit
  allow_circuit now c = elim c.state [
    | closed ↦ (c, true)
    | open_circuit ↦
        if ltb_ℤ (sub_ℕ now c.opened_at) policy.open_duration
        then (c, false)
        else admit (record c { state = half_open; half_open_in_flight = 0 })
    | half_open ↦ admit c
  ]

  abbrev released : ℕ → ℕ
  released n = if ltb 0 n then n - 1 else n

  unfoldable pub succeed_circuit : Circuit → Circuit
  succeed_circuit c = elim c.state [
    | closed ↦ record c { consecutive_failures = pos 0 }
    | open_circuit ↦ c
    | half_open ↦ record {
      state = closed;
      consecutive_failures = pos 0;
      opened_at = 0;
      half_open_in_flight = released c.half_open_in_flight;
    }
  ]

  unfoldable pub fail_circuit : ℕ → Circuit → Circuit
  fail_circuit now c = elim c.state [
    | closed ↦
        if leb_ℤ policy.failure_threshold (suc_ℤ c.consecutive_failures)
        then record c {
          state = open_circuit;
          consecutive_failures = suc_ℤ c.consecutive_failures;
          opened_at = now;
        }
        else record c { consecutive_failures = suc_ℤ c.consecutive_failures }
    | open_circuit ↦ c
    | half_open ↦ record {
      state = open_circuit;
      consecutive_failures = policy.failure_threshold;
      opened_at = now;
      half_open_in_flight = released c.half_open_in_flight;
    }
  ]

  -- The methods of the breaker, at a scanner's name.
  unfoldable pub allow : ℕ → Text → Breaker → Breaker × Bool
  allow now name breaker =
      let (c, allowed) = allow_circuit now (get_or_create name breaker) in
      (put name c breaker, allowed)

  unfoldable pub on_success : Text → Breaker → Breaker
  on_success name breaker = put name (succeed_circuit (get_or_create name breaker)) breaker

  unfoldable pub on_failure : ℕ → Text → Breaker → Breaker
  on_failure now name breaker = put name (fail_circuit now (get_or_create name breaker)) breaker

unfoldable pub circuit_state : Text → Breaker → Breaker × CircuitState
circuit_state name breaker = let c = get_or_create name breaker in (put name c breaker, c.state)
