-- ===== src/Policy/Tests.antt =====
-- Fingerprints of a result with two findings; the hash of the examples is the identity.
use komodor_security_reporte.Prelude.{◌≡◌, ◌↔◌, refl, true, false, List, [], ◌∷◌}
use komodor_security_reporte.Prelude.Text.{Text, codes}
use komodor_security_reporte.Registry.ImageRef.{ImageRef}
use komodor_security_reporte.Scanners.Severity.{high}
use komodor_security_reporte.Scanners.Result.{ScanResult, Finding}
use komodor_security_reporte.Scanners.Summary.{summary_from_findings}
use komodor_security_reporte.Policy.Evaluator.{fingerprint, extract_cves, write_cves}
use komodor_security_reporte.Policy.Stability.{fingerprint_exact}

abbrev image : ImageRef
image = record {
  original = codes "nginx";
  registry = codes "docker.io";
  repository = codes "library/nginx";
  tag = codes "latest";
  digest = codes "sha256:ab";
  resolved = codes "docker.io/library/nginx:latest";
}

abbrev finding_of : Text → Finding
finding_of cve = record {
  id = cve;
  cve = cve;
  package_name = codes "openssl";
  installed = codes "3.0";
  fixed = [];
  severity = high;
  title = [];
  url = [];
  exploitable = true;
  fix_available = false;
  scanner_attribution = codes "trivy";
}

abbrev result_of : List Finding → ScanResult
result_of findings = record {
  scanner = codes "trivy";
  image = image;
  scanned_at = 1000;
  summary = summary_from_findings findings;
  findings = findings;
  report_url = [];
  sbom_url = [];
}

abbrev one_two : List Finding
one_two = finding_of (codes "CVE-1") ∷ finding_of (codes "CVE-2") ∷ []

abbrev two_one : List Finding
two_one = finding_of (codes "CVE-2") ∷ finding_of (codes "CVE-1") ∷ []

abbrev identity : Text → Text
identity t = t

fingerprint_exact_example :
    (fingerprint identity (result_of one_two) ≡ fingerprint identity (result_of two_one)) ↔ (
      ((result_of one_two).summary ≡ (result_of two_one).summary)
      × (write_cves (extract_cves one_two) ≡ write_cves (extract_cves two_one)))
fingerprint_exact_example =
    fingerprint_exact identity (result_of one_two) (result_of two_one) (λ e. e) refl refl
