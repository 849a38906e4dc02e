-- ===== src/Scanners/Trivy.antt =====
-- internal/scanners/trivy/scanner.go. `parse` is the JSON library's decoding into a report, `run`
-- the run of a program of internal/scanners/command, and `none` an error.
use komodor_security_reporte.Prelude.{
  ℕ, ◌>>=◌, Option, none, some, false, not, if◌then◌else◌, List, [], ◌∷◌, ◌++◌, map, take, length,
  ltb,
}
use komodor_security_reporte.Prelude.Text.{Text, codes, is_empty, text_eq}
use komodor_security_reporte.Registry.ImageRef.{ImageRef}
use komodor_security_reporte.Scanners.Result.{Finding, ScanResult}
use komodor_security_reporte.Scanners.Collected.{
  empty_result, parse_severity_or_unknown, add_findings, finish,
}

-- The fields of a vulnerability that are read
pub record TrivyVulnerability : Type 0 where
  pub vulnerability_id : Text
  pub pkg_name : Text
  pub installed_version : Text
  pub fixed_version : Text
  pub severity : Text
  pub title : Text
  pub primary_url : Text

-- A report: for each result, its vulnerabilities.
abbrev pub TrivyReport : Type 0
TrivyReport = List (List TrivyVulnerability)

-- The vulnerabilities in the order of the nested loops
abbrev pub all_vulnerabilities : TrivyReport → List TrivyVulnerability
all_vulnerabilities [] = []
all_vulnerabilities (vulns ∷ results) = vulns ++ all_vulnerabilities results

unfoldable pub normalize_cve : Text → Text
normalize_cve vulnerability_id =
    if ltb (length vulnerability_id) 4
    then []
    else if not (text_eq (take 4 vulnerability_id) (codes "CVE-"))
    then []
    else vulnerability_id

-- The finding that parseResult makes of a vulnerability.
unfoldable pub finding_of : TrivyVulnerability → Finding
unfolding normalize_cve parse_severity_or_unknown
finding_of vuln = record {
  id = vuln.vulnerability_id;
  cve = normalize_cve vuln.vulnerability_id;
  package_name = vuln.pkg_name;
  installed = vuln.installed_version;
  fixed = vuln.fixed_version;
  severity = parse_severity_or_unknown vuln.severity;
  title = vuln.title;
  url = vuln.primary_url;
  exploitable = false;
  fix_available = not (is_empty vuln.fixed_version);
  scanner_attribution = codes "trivy";
}

module _ (parse : Text → Option TrivyReport) where
  unfoldable pub parse_result : Text → ImageRef → Option ScanResult
  unfolding finding_of add_findings
  parse_result text image = elim (parse text) [
    | none ↦ none
    | some report ↦
        some (add_findings (empty_result image) (map finding_of (all_vulnerabilities report)))
  ]

  -- Scan, which ends at the time `now`.
  unfoldable pub scan : (Text → List Text → Option Text) → Text → ℕ → ImageRef → Option ScanResult
  unfolding parse_result finish
  scan run binary now image = do
    stdout ← run binary (codes "image" ∷ codes "--format" ∷ codes "json" ∷ image.resolved ∷ [])
    result ← parse_result stdout image
    some (finish (codes "trivy") now result)
