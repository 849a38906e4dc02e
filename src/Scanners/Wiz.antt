-- ===== src/Scanners/Wiz.antt =====
-- internal/scanners/wiz/scanner.go. `parse` is the JSON library, `run` the run of a program of
-- internal/scanners/command with the exit code 1 allowed, and `none` an error.
use komodor_security_reporte.Prelude.{
  ℕ, ◌>>=◌, Option, none, some, Bool, false, not, ◌&&◌, if◌then◌else◌, List, [], ◌∷◌, map,
}
use komodor_security_reporte.Prelude.Text.{
  Text, codes, text_eq, is_empty, has_prefix, to_lower, to_upper, join,
}
use komodor_security_reporte.Prelude.Json.{Json, array, object, cons, Fields, end, field, get_field}
use komodor_security_reporte.Registry.ImageRef.{ImageRef}
use komodor_security_reporte.Scanners.Result.{Finding, ScanResult}
use komodor_security_reporte.Scanners.Collected.{
  empty_result, parse_severity_or_unknown, add_findings, finish,
}
use komodor_security_reporte.Scanners.Dedupe.{dedupe}
use komodor_security_reporte.Scanners.Payload.{to_string, text_of, first_non_empty, walk}

abbrev pub is_cve : Text → Bool
is_cve value = has_prefix (codes "CVE-") (to_upper value)

abbrev pub vulnerability_id : Fields → Text
vulnerability_id vuln = first_non_empty (
    text_of vuln (codes "id")
    ∷ text_of vuln (codes "vulnerabilityId")
    ∷ text_of vuln (codes "issueId")
    ∷ [])

abbrev pub package_name : Fields → Text
package_name vuln = first_non_empty (
    text_of vuln (codes "packageName")
    ∷ text_of vuln (codes "package")
    ∷ text_of vuln (codes "name")
    ∷ [])

abbrev pub installed_version : Fields → Text
installed_version vuln =
    first_non_empty (text_of vuln (codes "installedVersion") ∷ text_of vuln (codes "version") ∷ [])

unfoldable pub looks_like_vulnerability : Fields → Bool
unfolding first_non_empty to_string
looks_like_vulnerability v =
    let severity = to_lower (text_of v (codes "severity")) in
    let identity = first_non_empty (
      text_of v (codes "id")
      ∷ text_of v (codes "vulnerabilityId")
      ∷ text_of v (codes "issueId")
      ∷ text_of v (codes "title")
      ∷ text_of v (codes "name")
      ∷ []) in
    if is_empty severity then false else not (is_empty identity)

-- The key of dedupeByFingerprint
unfoldable pub fingerprint : Fields → Text
unfolding first_non_empty to_string
fingerprint vuln = join (codes "|") (
    vulnerability_id vuln
    ∷ package_name vuln
    ∷ installed_version vuln
    ∷ to_lower (text_of vuln (codes "severity"))
    ∷ [])

unfoldable pub collect_vulnerability_objects : Json → List Fields
unfolding walk looks_like_vulnerability fingerprint dedupe
collect_vulnerability_objects payload = dedupe fingerprint (walk looks_like_vulnerability payload)

-- The first item of a list, if it is a list with an item that is a CVE's name.
abbrev first_item_cve : Option Json → Option Text
first_item_cve (some (array (cons item items))) =
    let value = to_string (some item) in if is_cve value then some value else none
first_item_cve _ = none

unfoldable pub cve_from_identifier_value : Json → Text
unfolding to_string
cve_from_identifier_value raw = elim (first_item_cve (some raw)) [
  | some value ↦ value
  | none ↦ let value = to_string (some raw) in if is_cve value then value else []
]

-- The loop of cveFromIdentifiers
unfoldable pub cve_from_fields : Fields → Text
unfolding cve_from_identifier_value
cve_from_fields end = []
cve_from_fields (field key raw fs) =
    let rest = cve_from_fields fs in
    let value = cve_from_identifier_value raw in
    if not (text_eq (to_lower key) (codes "cve"))
    then rest
    else if is_empty value
    then rest
    else value

unfoldable pub cve_from_identifiers : Option Json → Text
unfolding cve_from_fields
cve_from_identifiers (some (object m)) = cve_from_fields m
cve_from_identifiers _ = []

unfoldable pub first_cve : Fields → Text
unfolding cve_from_identifiers to_string
first_cve v =
    let cve = text_of v (codes "cve") in
    let cve_id = text_of v (codes "cveId") in
    if is_cve cve
    then cve
    else if is_cve cve_id
    then cve_id
    else cve_from_identifiers (get_field (codes "identifiers") v)

-- The finding that parseResult makes of an object.
unfoldable pub finding_of : Fields → Finding
unfolding first_cve first_non_empty parse_severity_or_unknown to_string
finding_of vuln =
    let id = vulnerability_id vuln in
    let cve = first_cve vuln in
    let fixed_version =
      first_non_empty
        (text_of vuln (codes "fixedVersion") ∷ text_of vuln (codes "fixVersion") ∷ []) in
    record {
      id = id;
      cve = if is_empty cve && is_cve id then id else cve;
      package_name = package_name vuln;
      installed = installed_version vuln;
      fixed = fixed_version;
      severity = parse_severity_or_unknown (text_of vuln (codes "severity"));
      title =
          first_non_empty (text_of vuln (codes "title") ∷ text_of vuln (codes "name") ∷ id ∷ []);
      url = first_non_empty (text_of vuln (codes "url") ∷ text_of vuln (codes "link") ∷ []);
      exploitable = false;
      fix_available = not (is_empty fixed_version);
      scanner_attribution = codes "wiz";
    }

module _ (parse : Text → Option Json) where
  unfoldable pub parse_result : Text → ImageRef → Option ScanResult
  unfolding collect_vulnerability_objects finding_of add_findings
  parse_result text image = elim (parse text) [
    | none ↦ none
    | some payload ↦
        some (
          add_findings (empty_result image)
            (map finding_of (collect_vulnerability_objects payload)))
  ]

  -- Scan, which ends at the time `now`.
  unfoldable pub scan : (Text → List Text → Option Text) → Text → ℕ → ImageRef → Option ScanResult
  unfolding parse_result finish
  scan run binary now image = do
    stdout ← run binary (
        codes "scan"
        ∷ codes "container-image"
        ∷ image.resolved
        ∷ codes "--stdout"
        ∷ codes "json"
        ∷ codes "--no-style"
        ∷ codes "--no-color"
        ∷ [])
    result ← parse_result stdout image
    some (finish (codes "wiz") now result)
