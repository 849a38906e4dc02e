-- ===== src/Reconciler/Errors.antt =====
-- Errors of a scan and their classes, in internal/reconciler/scanner_runtime.go. An error is a chain
-- of wrappers, as `errors.Is` and `errors.As` walk it; joined errors do not occur in the program.
use komodor_security_reporte.Prelude.{
  Bool, true, false, Option, none, some, if◌then◌else◌, ◌≡◌, refl,
}
use komodor_security_reporte.Prelude.Text.{Text}

-- `temporary_error b` has a method `Temporary` that returns `b` and is no `net.Error`.
pub data GoError : Type 0 where
  circuit_open_error deadline_exceeded canceled net_error : GoError
  temporary_error : Bool → GoError
  plain : Text → GoError
  wrapped : Text → GoError → GoError

pub data ErrorClass : Type 0 where
  timeout transient permanent circuit_open : ErrorClass

-- `errors.Is` at the three sentinel errors
is_circuit_open : GoError → Bool
is_circuit_open circuit_open_error = true
is_circuit_open (wrapped _ e) = is_circuit_open e
is_circuit_open _ = false

is_deadline_exceeded : GoError → Bool
is_deadline_exceeded deadline_exceeded = true
is_deadline_exceeded (wrapped _ e) = is_deadline_exceeded e
is_deadline_exceeded _ = false

is_canceled : GoError → Bool
is_canceled canceled = true
is_canceled (wrapped _ e) = is_canceled e
is_canceled _ = false

-- `errors.As` a `net.Error`; context.DeadlineExceeded is one.
as_net_error : GoError → Bool
as_net_error net_error = true
as_net_error deadline_exceeded = true
as_net_error (wrapped _ e) = as_net_error e
as_net_error _ = false

-- `errors.As` an error with `Temporary`, and what that returns
as_temporary : GoError → Option Bool
as_temporary (temporary_error b) = some b
as_temporary net_error = some true
as_temporary deadline_exceeded = some true
as_temporary (wrapped _ e) = as_temporary e
as_temporary _ = none

unfoldable pub is_temporary_error : GoError → Bool
unfolding as_net_error as_temporary
is_temporary_error e =
    if as_net_error e then true else elim (as_temporary e) [ none ↦ false | some b ↦ b ]

unfoldable pub classify_scanner_error : GoError → ErrorClass
unfolding is_circuit_open is_deadline_exceeded is_canceled is_temporary_error
classify_scanner_error e =
    if is_circuit_open e
    then circuit_open
    else if is_deadline_exceeded e
    then timeout
    else if is_canceled e
    then transient
    else if is_temporary_error e
    then transient
    else permanent

unfoldable pub is_retryable_scanner_error : ErrorClass → Bool
is_retryable_scanner_error transient = true
is_retryable_scanner_error timeout = true
is_retryable_scanner_error permanent = false
is_retryable_scanner_error circuit_open = false

-- Wrapping an error with more text does not change how it is classified.
pub classify_wrapped :
    (text : Text) (e : GoError) → classify_scanner_error (wrapped text e) ≡ classify_scanner_error e
unfolding classify_scanner_error
classify_wrapped text e = refl
