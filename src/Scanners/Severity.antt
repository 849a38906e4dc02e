-- ===== src/Scanners/Severity.antt =====
-- internal/scanners/severity.go. Every value of `Severity` in the program is one of its constants.
use komodor_security_reporte.Prelude.{ℕ, Bool, true, false, ◌||◌, if◌then◌else◌}
use komodor_security_reporte.Prelude.Text.{Text, codes, text_eq}

pub data Severity : Type 0 where
  critical high medium low unknown : Severity

abbrev is_one_of : Text → Text → Text → Bool
is_one_of s a b = text_eq s a || text_eq s b

-- The severity, and whether the text was accepted (`err == nil`).
unfoldable pub parse_severity : Text → Severity × Bool
parse_severity s =
    if is_one_of s (codes "critical") (codes "CRITICAL")
    then (critical, true)
    else if is_one_of s (codes "high") (codes "HIGH")
    then (high, true)
    else if is_one_of s (codes "medium") (codes "MEDIUM")
    then (medium, true)
    else if is_one_of s (codes "low") (codes "LOW")
    then (low, true)
    else if is_one_of s (codes "unknown") (codes "UNKNOWN")
    then (unknown, true)
    else (unknown, false)

unfoldable pub rank : Severity → ℕ
rank critical = 4
rank high = 3
rank medium = 2
rank low = 1
rank unknown = 0
