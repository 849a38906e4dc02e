-- ===== src/State/Entry.antt =====
-- The stored entry of internal/state/entry.go. A time is in nanoseconds since 1970, zero for the
-- zero time.
pub mod Codec
pub mod Formats
use komodor_security_reporte.Prelude.Text.{Text}
use Prim.Native.Nat.{ℕ}

pub record Entry : Type 0 where
  pub fingerprint : Text
  pub last_scanned_time : ℕ
  pub last_published_time : ℕ
  pub summary : Text
