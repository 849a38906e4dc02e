-- ===== src/Scanners/Tests.antt =====
-- A registry of two configured scanners, and the counts of some findings.
use komodor_security_reporte.Prelude.{◌≡◌, refl, true, false, some, none, List, [], ◌∷◌, String}
use komodor_security_reporte.Prelude.Int.{pos}
use komodor_security_reporte.Prelude.Text.{codes, text_eq}
use komodor_security_reporte.Prelude.Dict.{Dict, lookup, put}
use komodor_security_reporte.Scanners.Severity.{Severity, high, unknown}
use komodor_security_reporte.Scanners.Result.{Finding}
use komodor_security_reporte.Scanners.Factory.{ScannerConfig, Scopes, create_scanner_registry}
use komodor_security_reporte.Scanners.Factory.Laws.{Makes, Wants, create_scanner_registry_exact}
use komodor_security_reporte.Scanners.Settings.{
  Scanner, ScannerScope, built_in, default_command_timeout, trivy, clair,
}

abbrev configs : List ScannerConfig
configs =
    record { name = codes "a"; kind = codes "trivy"; enabled = true }
    ∷ record { name = codes "b"; kind = codes "trivy"; enabled = false }
    ∷ record { name = codes "c"; kind = codes "clair"; enabled = true }
    ∷ []

-- The first scanner has a timeout but no binary, and the last has no settings.
abbrev scopes : Scopes ScannerScope
scopes =
    some (record {
      command = some (record { binary = []; timeout = pos 5 });
      has_timeout = true;
      resources = some [];
    })
    ∷ none
    ∷ []

abbrev created_scanners : Dict Scanner
created_scanners = (codes "a", trivy (codes "trivy")) ∷ (codes "c", clair (codes "clairctl")) ∷ []

created :
    create_scanner_registry built_in configs scopes
    ≡ some (created_scanners, (codes "a", pos 5) ∷ (codes "c", default_command_timeout) ∷ [])
unfolding create_scanner_registry lookup put text_eq built_in
created = refl

create_scanner_registry_exact_example :
    ((scanner : Scanner)
      → lookup (codes "a") created_scanners ≡ some scanner
      → Makes built_in (codes "a") scanner configs scopes)
    × (Wants built_in (codes "a") configs
        → (scanner : Scanner) × (lookup (codes "a") created_scanners ≡ some scanner))
create_scanner_registry_exact_example =
    create_scanner_registry_exact built_in configs scopes (codes "a") created

abbrev pub finding : String → Severity → Finding
finding cve severity = record {
  id = codes cve;
  cve = codes cve;
  package_name = codes "openssl";
  installed = codes "3.0";
  fixed = [];
  severity = severity;
  title = [];
  url = [];
  exploitable = false;
  fix_available = false;
  scanner_attribution = codes "trivy";
}

abbrev pub two_findings : List Finding
two_findings = finding "CVE-1" high ∷ finding "CVE-2" unknown ∷ []
