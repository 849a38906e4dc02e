-- ===== src/Scanners/Result.antt =====
-- internal/scanners/scanner.go. The counts only grow from 0, one finding at a time, so they are
-- natural numbers. `RiskHints` is left out: no scanner of the program fills it in or reads it.
use komodor_security_reporte.Prelude.{ℕ, ◌+◌, Bool, List}
use komodor_security_reporte.Prelude.Text.{Text}
use komodor_security_reporte.Registry.ImageRef.{ImageRef}
use komodor_security_reporte.Scanners.Severity.{Severity}

pub record VulnerabilitySummary : Type 0 where
  pub critical : ℕ
  pub high : ℕ
  pub medium : ℕ
  pub low : ℕ
  pub unknown : ℕ

unfoldable pub total : VulnerabilitySummary → ℕ
total vs = vs.critical + vs.high + vs.medium + vs.low + vs.unknown

pub record Finding : Type 0 where
  pub id : Text
  pub cve : Text
  pub package_name : Text
  pub installed : Text
  pub fixed : Text
  pub severity : Severity
  pub title : Text
  pub url : Text
  pub exploitable : Bool
  pub fix_available : Bool
  pub scanner_attribution : Text

-- `scanned_at` is in nanoseconds.
pub record ScanResult : Type 0 where
  pub scanner : Text
  pub image : ImageRef
  pub scanned_at : ℕ
  pub summary : VulnerabilitySummary
  pub findings : List Finding
  pub report_url : Text
  pub sbom_url : Text
