-- ===== src/Scanners/Clair.antt =====
-- internal/scanners/clair/scanner.go. `parse` is the JSON library, `run` the run of a program of
-- internal/scanners/command with the exit code 1 allowed, and `none` an error or a panic.
-- cveFromLinks looks for a CVE in the upper case of a link and cuts the link itself there, so the
-- whole strings.ToUpper counts in it, with the letters that are not ASCII: it is a parameter.
pub mod Links
use komodor_security_reporte.Prelude.{
  ℕ, ◌>>=◌, Option, none, some, Bool, false, not, ◌&&◌, if◌then◌else◌, List, [], ◌∷◌, map, drop,
  leb, length,
}
use komodor_security_reporte.Prelude.Text.{
  Text, codes, is_empty, has_prefix, to_lower, to_upper, join, index_of,
}
use komodor_security_reporte.Prelude.Json.{Json, bool, array, Items, nil, cons, Fields, get_field}
use komodor_security_reporte.Registry.ImageRef.{ImageRef}
use komodor_security_reporte.Scanners.Result.{Finding, ScanResult}
use komodor_security_reporte.Scanners.Collected.{
  empty_result, parse_severity_or_unknown, add_findings, finish,
}
use komodor_security_reporte.Scanners.Severity.{Severity}
use komodor_security_reporte.Scanners.Dedupe.{dedupe}
use komodor_security_reporte.Scanners.Payload.{to_string, text_of, first_non_empty, walk}

abbrev pub is_cve : Text → Bool
is_cve value = has_prefix (codes "CVE-") (to_upper value)

-- The severity of an object, as it is written
abbrev pub severity_text : Fields → Text
severity_text v =
    first_non_empty (text_of v (codes "severity") ∷ text_of v (codes "normalizedSeverity") ∷ [])

abbrev pub package_name : Fields → Text
package_name vuln = first_non_empty (
    text_of vuln (codes "package")
    ∷ text_of vuln (codes "packageName")
    ∷ text_of vuln (codes "featureName")
    ∷ text_of vuln (codes "artifact")
    ∷ [])

abbrev pub installed_version : Fields → Text
installed_version vuln = first_non_empty (
    text_of vuln (codes "installedVersion")
    ∷ text_of vuln (codes "version")
    ∷ text_of vuln (codes "featureVersion")
    ∷ [])

unfoldable pub severity_of : Fields → Severity
unfolding first_non_empty to_string parse_severity_or_unknown
severity_of v = parse_severity_or_unknown (to_lower (severity_text v))

unfoldable pub vuln_identity : Fields → Text
unfolding first_non_empty to_string
vuln_identity v = first_non_empty (
    text_of v (codes "id")
    ∷ text_of v (codes "vulnerability")
    ∷ text_of v (codes "vulnerabilityId")
    ∷ text_of v (codes "name")
    ∷ text_of v (codes "title")
    ∷ [])

unfoldable pub looks_like_vulnerability : Fields → Bool
unfolding vuln_identity
looks_like_vulnerability v =
    if is_empty (severity_text v) then false else not (is_empty (vuln_identity v))

-- The key of dedupeByFingerprint
unfoldable pub fingerprint : Fields → Text
unfolding vuln_identity first_non_empty to_string
fingerprint vuln = join (codes "|") (
    vuln_identity vuln
    ∷ package_name vuln
    ∷ installed_version vuln
    ∷ to_lower (severity_text vuln)
    ∷ [])

unfoldable pub collect_vulnerability_objects : Json → List Fields
unfolding walk looks_like_vulnerability fingerprint dedupe
collect_vulnerability_objects payload = dedupe fingerprint (walk looks_like_vulnerability payload)

-- `value[i:]`, which panics beyond the end.
unfoldable pub slice_from : ℕ → Text → Option Text
slice_from i value = if leb i (length value) then some (drop i value) else none

module _ (upper_case : Text → Text) where
  -- The loop of cveFromLinks.
  unfoldable pub cve_from_items : Items → Option Text
  unfolding to_string slice_from
  cve_from_items nil = some []
  cve_from_items (cons item items) =
      let rest = cve_from_items items in
      let value = to_string (some item) in
      elim (index_of (codes "CVE-") (upper_case value)) [
        | none ↦ rest
        | some i ↦ slice_from i value
      ]

  unfoldable pub cve_from_links : Option Json → Option Text
  unfolding cve_from_items
  cve_from_links (some (array items)) = cve_from_items items
  cve_from_links _ = some []

  unfoldable pub first_cve : Fields → Option Text
  unfolding cve_from_links to_string
  first_cve v =
      let lower = text_of v (codes "cve") in
      let upper = text_of v (codes "CVE") in
      if is_cve lower
      then some lower
      else if is_cve upper
      then some upper
      else cve_from_links (get_field (codes "links") v)

unfoldable pub to_bool : Option Json → Bool
to_bool (some (bool b)) = b
to_bool _ = false

-- The finding that parseResult makes of an object whose first CVE this is.
unfoldable pub finding_with : Text → Fields → Finding
unfolding vuln_identity severity_of to_bool
finding_with cve vuln =
    let id = vuln_identity vuln in
    let fixed_version = first_non_empty (
      text_of vuln (codes "fixedVersion")
      ∷ text_of vuln (codes "fixedby")
      ∷ text_of vuln (codes "fixedBy")
      ∷ []) in
    record {
      id = id;
      cve = if is_empty cve && is_cve id then id else cve;
      package_name = package_name vuln;
      installed = installed_version vuln;
      fixed = fixed_version;
      severity = severity_of vuln;
      title =
          first_non_empty (text_of vuln (codes "title") ∷ text_of vuln (codes "name") ∷ id ∷ []);
      url = first_non_empty (text_of vuln (codes "url") ∷ text_of vuln (codes "link") ∷ []);
      exploitable = to_bool (get_field (codes "exploitable") vuln);
      fix_available = not (is_empty fixed_version);
      scanner_attribution = codes "clair";
    }

module _ (upper_case : Text → Text) where
  unfoldable pub finding_of : Fields → Option Finding
  unfolding first_cve finding_with
  finding_of vuln = elim (first_cve upper_case vuln) [
    | none ↦ none
    | some cve ↦ some (finding_with cve vuln)
  ]

  -- The loop of parseResult.
  unfoldable pub findings_of : List Fields → Option (List Finding)
  unfolding finding_of
  findings_of [] = some []
  findings_of (vuln ∷ vulns) =
      let rest = findings_of vulns in
      elim (finding_of vuln) [
        | none ↦ none
        | some finding ↦ elim rest [ none ↦ none | some findings ↦ some (finding ∷ findings) ]
      ]

module _ (upper_case : Text → Text) (parse : Text → Option Json) where
  unfoldable pub parse_result : Text → ImageRef → Option ScanResult
  unfolding collect_vulnerability_objects findings_of add_findings
  parse_result text image = elim (parse text) [
    | none ↦ none
    | some payload ↦ elim (findings_of upper_case (collect_vulnerability_objects payload)) [
      | none ↦ none
      | some findings ↦ some (add_findings (empty_result image) findings)
    ]
  ]

  -- Scan, which ends at the time `now`.
  unfoldable pub scan : (Text → List Text → Option Text) → Text → ℕ → ImageRef → Option ScanResult
  unfolding parse_result finish
  scan run binary now image = do
    stdout ← run binary (codes "report" ∷ image.resolved ∷ codes "-o" ∷ codes "json" ∷ [])
    result ← parse_result stdout image
    some (finish (codes "clair") now result)
