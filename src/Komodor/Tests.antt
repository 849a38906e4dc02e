-- ===== src/Komodor/Tests.antt =====
-- The threshold and the top findings of a result with two findings.
use mathlib.Core.List.Perm
use komodor_security_reporte.Prelude.{◌≡◌, ◌≢◌, ◌↔◌, ◌⊎◌, refl, true, false, [], ◌∷◌, some, none}
use komodor_security_reporte.Prelude.Int.{pos}
use komodor_security_reporte.Prelude.Text.{codes, Text}
use komodor_security_reporte.Scanners.Severity.{high, low}
use komodor_security_reporte.Scanners.Result.{Finding, ScanResult}
use komodor_security_reporte.Scanners.Summary.{summary_from_findings}
use komodor_security_reporte.Komodor.Publisher.{
  EventOptions, should_publish, severity_rank, top_findings_list,
}
use komodor_security_reporte.Komodor.Client.{Client, Transport}
use komodor_security_reporte.Komodor.Publisher.Threshold.{HasRisk, should_publish_exact}
use komodor_security_reporte.Komodor.Publisher.Ranking.{top_findings_order}

abbrev exploited : Finding
exploited = record {
  id = codes "1";
  cve = codes "CVE-1";
  package_name = codes "openssl";
  installed = codes "3.0";
  fixed = codes "3.1";
  severity = low;
  title = [];
  url = [];
  exploitable = true;
  fix_available = true;
  scanner_attribution = codes "trivy";
}

abbrev severe : Finding
severe = record exploited {
  id = codes "2";
  cve = codes "CVE-2";
  severity = high;
  exploitable = false;
}

abbrev scan : ScanResult
scan = record {
  scanner = codes "trivy";
  image = record {
    original = codes "app";
    registry = codes "docker.io";
    repository = codes "library/app";
    tag = codes "latest";
    digest = codes "sha256:ab";
    resolved = codes "docker.io/library/app:latest";
  };
  scanned_at = 1000;
  summary = summary_from_findings (exploited ∷ severe ∷ []);
  findings = exploited ∷ severe ∷ [];
  report_url = [];
  sbom_url = [];
}

abbrev options : EventOptions
options = record {
  minimum_severity = codes "HIGH";
  include_top_findings = pos 5;
  publish_clean_scans = false;
}

should_publish_exact_example : (should_publish scan options ≡ true) ↔ (
    ((scan.findings ≡ []) × (false ≡ true))
    ⊎ ((scan.findings ≢ []) × HasRisk (severity_rank (codes "HIGH")) scan.findings))
should_publish_exact_example = should_publish_exact scan options refl

top_findings_order_example :
    top_findings_list (exploited ∷ severe ∷ []) (pos 5)
    ≡ top_findings_list (severe ∷ exploited ∷ []) (pos 5)
top_findings_order_example =
    top_findings_order (exploited ∷ severe ∷ []) (severe ∷ exploited ∷ []) (pos 5)
      (Perm.swap severe exploited [])

-- A service that answers every request with 202.
abbrev accepting : Transport Text
accepting = record {
  marshal = λ e. some e;
  join_path = λ base path. some base;
  can_request = λ url. true;
  send = λ request. some (record { status_code = 202; body = none });
}

abbrev client : Client
client = record { base_url = codes "https://api"; api_key = codes "key" }
