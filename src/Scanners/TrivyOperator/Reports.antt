-- ===== src/Scanners/TrivyOperator/Reports.antt =====
-- internal/scanners/trivyoperator/vulnerabilityreport.go. The accessors of Kubernetes' package
-- `unstructured` are parameters.
use komodor_security_reporte.Prelude.{
  Option, none, some, Bool, true, false, not, ◌&&◌, ◌||◌, if◌then◌else◌, List, [], ◌∷◌,
}
use komodor_security_reporte.Prelude.Text.{
  Text, codes, text_eq, is_empty, has_prefix, to_lower, to_upper, trim_space, is_among,
}
use komodor_security_reporte.Prelude.Json.{object, Items, nil, cons, Fields}
use komodor_security_reporte.Registry.ImageRef.{ImageRef}
use komodor_security_reporte.Scanners.Result.{Finding}
use komodor_security_reporte.Scanners.Collected.{parse_severity_or_unknown}
use komodor_security_reporte.Scanners.Payload.{to_string, text_of}

-- NestedString, empty where the text is not there, and NestedSlice, `none` where the slice is not.
pub record Accessors : Type 0 where
  pub nested_string : Fields → List Text → Text
  pub nested_slice : Fields → List Text → Option Items

abbrev normalise_digest : Text → Text
normalise_digest value = to_lower (trim_space value)

unfoldable pub same_digest : Text → Text → Bool
same_digest a b = if is_empty b then true else text_eq (normalise_digest a) (normalise_digest b)

abbrev normalise_registry : Text → Text
normalise_registry text =
    let value = to_lower (trim_space text) in
    if is_among value
      (codes "docker.io" ∷ codes "index.docker.io" ∷ codes "registry-1.docker.io" ∷ [])
    then codes "docker.io"
    else value

unfoldable pub same_registry : Text → Text → Bool
same_registry a b =
    if is_empty b then true else text_eq (normalise_registry a) (normalise_registry b)

unfoldable pub normalise_cve : Text → Text
normalise_cve id = if has_prefix (codes "CVE-") (to_upper id) then to_upper (trim_space id) else []

unfoldable pub finding_from_vulnerability : Fields → Finding
unfolding normalise_cve parse_severity_or_unknown to_string
finding_from_vulnerability vuln =
    let id = text_of vuln (codes "vulnerabilityID") in
    let fixed_version = text_of vuln (codes "fixedVersion") in
    record {
      id = id;
      cve = normalise_cve id;
      package_name = text_of vuln (codes "resource");
      installed = text_of vuln (codes "installedVersion");
      fixed = fixed_version;
      severity = parse_severity_or_unknown (text_of vuln (codes "severity"));
      title = text_of vuln (codes "title");
      url = text_of vuln (codes "primaryLink");
      exploitable = false;
      fix_available = not (is_empty fixed_version);
      scanner_attribution = codes "trivy-operator";
    }

-- The items that are objects
unfoldable pub findings_of_items : Items → List Finding
unfolding finding_from_vulnerability
findings_of_items nil = []
findings_of_items (cons (object vuln) items) =
    finding_from_vulnerability vuln ∷ findings_of_items items
findings_of_items (cons _ items) = findings_of_items items

module _ (accessors : Accessors) where
  abbrev artifact : Fields → Text → Text
  artifact report key =
      accessors.nested_string report (codes "report" ∷ codes "artifact" ∷ key ∷ [])

  unfoldable pub report_matches_image : Fields → ImageRef → Bool
  unfolding same_digest same_registry
  report_matches_image report image =
      let repository = artifact report (codes "repository") in
      let tag = artifact report (codes "tag") in
      let report_digest = artifact report (codes "digest") in
      let registry =
        accessors.nested_string report (codes "report" ∷ codes "registry" ∷ codes "server" ∷ []) in
      if is_empty repository || not (text_eq repository image.repository)
      then false
      else if not (is_empty registry) && not (same_registry registry image.registry)
      then false
      else if not (is_empty image.digest)
      then (if is_empty report_digest then false else same_digest report_digest image.digest)
      else if is_empty image.tag
      then is_empty tag
      else if not (is_empty tag) && not (text_eq tag image.tag)
      then false
      else true

  -- `none` where the report is not the image's.
  unfoldable pub extract_vulnerability_findings : Fields → ImageRef → Option (List Finding)
  unfolding report_matches_image findings_of_items
  extract_vulnerability_findings report image =
      let vulns = accessors.nested_slice report (codes "report" ∷ codes "vulnerabilities" ∷ []) in
      if not (report_matches_image report image)
      then none
      else elim vulns [ none ↦ some [] | some items ↦ some (findings_of_items items) ]
