-- ===== src/Scanners/Collected.antt =====
-- How the parsers of internal/scanners/{trivy,snyk,wiz,clair} fill a result: one finding and one
-- count for each vulnerability.
use komodor_security_reporte.Prelude.{
  ◌≡◌, refl, sym, ◌∙◌, if◌then◌else◌, List, [], ◌∷◌, ◌++◌, append_assoc, append-nil, ℕ,
}
use komodor_security_reporte.Prelude.Text.{Text}
use komodor_security_reporte.Registry.ImageRef.{ImageRef}
use komodor_security_reporte.Scanners.Severity.{Severity, parse_severity, unknown}
use komodor_security_reporte.Scanners.Result.{Finding, ScanResult}
use komodor_security_reporte.Scanners.Summary.{
  empty_summary, increment_summary, count_from, summary_from_findings, Counts, summary-Counts,
}

-- The result that a parser starts with
abbrev pub empty_result : ImageRef → ScanResult
empty_result image = record {
  scanner = [];
  image = image;
  scanned_at = 0;
  summary = empty_summary;
  findings = [];
  report_url = [];
  sbom_url = [];
}

-- parseSeverityOrUnknown
unfoldable pub parse_severity_or_unknown : Text → Severity
parse_severity_or_unknown value =
    let parsed = parse_severity value in if parsed.1 then parsed.0 else unknown

-- A pass of a parser's loop.
unfoldable pub add_finding : ScanResult → Finding → ScanResult
unfolding increment_summary
add_finding result finding = record result {
  summary = increment_summary result.summary finding.severity;
  findings = result.findings ++ finding ∷ [];
}

unfoldable pub add_findings : ScanResult → List Finding → ScanResult
unfolding add_finding
add_findings result [] = result
add_findings result (f ∷ fs) = add_findings (add_finding result f) fs

-- Scan adds the scanner's name and the time.
unfoldable pub finish : Text → ℕ → ScanResult → ScanResult
finish name now result = record result { scanner = name; scanned_at = now }

add_findings-findings :
    (result : ScanResult) (fs : List Finding)
    → (add_findings result fs).findings ≡ result.findings ++ fs
unfolding add_findings add_finding
add_findings-findings result [] = sym (append-nil result.findings)
add_findings-findings result (f ∷ fs) =
    add_findings-findings (add_finding result f) fs ∙ append_assoc result.findings (f ∷ []) fs

add_findings-summary :
    (result : ScanResult) (fs : List Finding)
    → (add_findings result fs).summary ≡ count_from result.summary fs
unfolding add_findings add_finding count_from
add_findings-summary result [] = refl
add_findings-summary result (f ∷ fs) = add_findings-summary (add_finding result f) fs

-- A result whose findings are these, for this image, with the number of those of each severity.
abbrev pub Reports : ImageRef → List Finding → ScanResult → Type 0
Reports image findings result =
    (result.image ≡ image) × (result.findings ≡ findings) × Counts result.summary findings

add_findings-image :
    (result : ScanResult) (fs : List Finding) → (add_findings result fs).image ≡ result.image
unfolding add_findings add_finding
add_findings-image result [] = refl
add_findings-image result (f ∷ fs) = add_findings-image (add_finding result f) fs

pub add_findings-Reports :
    (image : ImageRef) (fs : List Finding) → Reports image fs (add_findings (empty_result image) fs)
unfolding summary_from_findings
add_findings-Reports image fs = (
  add_findings-image (empty_result image) fs,
  add_findings-findings (empty_result image) fs,
  λ s. rw (add_findings-summary (empty_result image) fs) (summary-Counts fs s),
)
