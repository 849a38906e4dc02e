-- ===== src/Scanners/Snyk.antt =====
-- internal/scanners/snyk/scanner.go. `parse_one` and `parse_many` are the JSON library's decoding
-- into a report and into a list of reports, `run` is the run of a program of
-- internal/scanners/command with the exit code 1 allowed, and `none` is an error.
use komodor_security_reporte.Prelude.{
  ℕ, ◌>>=◌, Option, none, some, false, not, if◌then◌else◌, List, [], ◌∷◌, ◌++◌, map,
}
use komodor_security_reporte.Prelude.Text.{Text, codes, is_empty, join}
use komodor_security_reporte.Prelude.Dict.{Dict, lookup}
use komodor_security_reporte.Registry.ImageRef.{ImageRef}
use komodor_security_reporte.Scanners.Result.{Finding, ScanResult}
use komodor_security_reporte.Scanners.Collected.{
  empty_result, parse_severity_or_unknown, add_findings, finish,
}
use komodor_security_reporte.Scanners.Dedupe.{dedupe}
use komodor_security_reporte.Scanners.Payload.{first_non_empty}

pub record Vulnerability : Type 0 where
  pub id : Text
  pub package_name : Text
  pub name : Text
  pub version : Text
  pub severity : Text
  pub title : Text
  pub fixed_in : List Text
  pub identifiers : Dict (List Text)
  pub references : List Text
  pub url : Text

-- A report; its applications are the lists of their vulnerabilities.
pub record Report : Type 0 where
  pub vulnerabilities : List Vulnerability
  pub applications : List (List Vulnerability)

unfoldable pub first_string : List Text → Text
first_string [] = []
first_string (value ∷ values) = value

-- A missing key has no values, like a nil map.
unfoldable pub first_identifier : Dict (List Text) → Text → Text
unfolding first_string lookup
first_identifier identifiers key = elim (lookup key identifiers) [
  | none ↦ []
  | some values ↦ first_string values
]

abbrev concat : List (List Vulnerability) → List Vulnerability
concat [] = []
concat (vs ∷ vss) = vs ++ concat vss

abbrev pub all_vulnerabilities : List Report → List Vulnerability
all_vulnerabilities [] = []
all_vulnerabilities (rep ∷ reports) =
    rep.vulnerabilities ++ (concat rep.applications ++ all_vulnerabilities reports)

-- The key of dedupeVulnerabilities
unfoldable pub fingerprint : Vulnerability → Text
unfolding join
fingerprint vuln = join (codes "|") (vuln.id ∷ vuln.package_name ∷ vuln.name ∷ vuln.version ∷ [])

unfoldable pub dedupe_vulnerabilities : List Vulnerability → List Vulnerability
unfolding fingerprint dedupe
dedupe_vulnerabilities vulns = dedupe fingerprint vulns

unfoldable pub collect_vulnerabilities : List Report → List Vulnerability
unfolding dedupe_vulnerabilities
collect_vulnerabilities reports = dedupe_vulnerabilities (all_vulnerabilities reports)

-- The finding that parseResult makes of a vulnerability.
unfoldable pub finding_of : Vulnerability → Finding
unfolding first_identifier first_string first_non_empty parse_severity_or_unknown
finding_of vuln =
    let fixed_version = first_string vuln.fixed_in in
    record {
      id = vuln.id;
      cve = first_identifier vuln.identifiers (codes "CVE");
      package_name = if is_empty vuln.package_name then vuln.name else vuln.package_name;
      installed = vuln.version;
      fixed = fixed_version;
      severity = parse_severity_or_unknown vuln.severity;
      title = vuln.title;
      url = first_non_empty (vuln.url ∷ first_string vuln.references ∷ []);
      exploitable = false;
      fix_available = not (is_empty fixed_version);
      scanner_attribution = codes "snyk";
    }

module _ (parse_one : Text → Option Report) (parse_many : Text → Option (List Report)) where
  unfoldable pub parse_reports : Text → Option (List Vulnerability)
  unfolding collect_vulnerabilities
  parse_reports text = elim (parse_one text) [
    | some single ↦ some (collect_vulnerabilities (single ∷ []))
    | none ↦ elim (parse_many text) [
      | some multiple ↦ some (collect_vulnerabilities multiple)
      | none ↦ none
    ]
  ]

  unfoldable pub parse_result : Text → ImageRef → Option ScanResult
  unfolding parse_reports finding_of add_findings
  parse_result text image = elim (parse_reports text) [
    | none ↦ none
    | some vulns ↦ some (add_findings (empty_result image) (map finding_of vulns))
  ]

  -- Scan, which ends at the time `now`.
  unfoldable pub scan : (Text → List Text → Option Text) → Text → ℕ → ImageRef → Option ScanResult
  unfolding parse_result finish
  scan run binary now image = do
    stdout ← run binary (codes "container" ∷ codes "test" ∷ codes "--json" ∷ image.resolved ∷ [])
    result ← parse_result stdout image
    some (finish (codes "snyk") now result)
