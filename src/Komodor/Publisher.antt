-- ===== src/Komodor/Publisher.antt =====
-- internal/komodor/publisher.go.
pub mod Ranking
pub mod Threshold
use komodor_security_reporte.Prelude.Text.{Text, codes, text_eq, text_ltb, is_empty, to_lower}
use komodor_security_reporte.Prelude.Int.{ℤ, pos, pos_part, leb_ℤ}
use komodor_security_reporte.Prelude.Decimal.{decimal}
use komodor_security_reporte.Prelude.Sort.{sort_by}
use komodor_security_reporte.Scanners.Severity.{Severity, rank}
use komodor_security_reporte.Scanners.Result.{ScanResult, Finding, VulnerabilitySummary, total}
use Prim.Native.Nat.{ℕ, suc}
use komodor_security_reporte.Prelude.{
  Bool, List, if◌then◌else◌, ◌++◌, [], ltb, not, ◌==◌, ◌∷◌, same_bool, ◌&&◌, leb, zero, true, false,
}

pub record WorkloadContext : Type 0 where
  pub cluster_name : Text
  pub namespace : Text
  pub kind : Text
  pub name : Text
  pub uid : Text
  pub api_version : Text
  pub container : Text

pub record EventOptions : Type 0 where
  pub minimum_severity : Text
  pub include_top_findings : ℤ
  pub publish_clean_scans : Bool

unfoldable pub severity_rank : Text → ℕ
severity_rank s =
    let t = to_lower s in
    if text_eq t (codes "critical")
    then 4
    else if text_eq t (codes "high")
    then 3
    else if text_eq t (codes "medium")
    then 2
    else if text_eq t (codes "low")
    then 1
    else 0

unfoldable pub has_risk_at_level : ScanResult → ℕ → Bool
has_risk_at_level result min_rank =
    let vs = result.summary in
    if ltb 0 vs.critical && leb min_rank 4
    then true
    else if ltb 0 vs.high && leb min_rank 3
    then true
    else if ltb 0 vs.medium && leb min_rank 2
    then true
    else if ltb 0 vs.low && leb min_rank 1
    then true
    else false

unfoldable pub should_publish : ScanResult → EventOptions → Bool
unfolding severity_rank has_risk_at_level total
should_publish result opts =
    if total result.summary == 0
    then opts.publish_clean_scans
    else has_risk_at_level result (severity_rank opts.minimum_severity)

-- The test that `sort.Slice` is given.
unfoldable pub is_more_actionable : Finding → Finding → Bool
unfolding rank
is_more_actionable f g =
    if not (same_bool f.exploitable g.exploitable)
    then f.exploitable
    else if not (rank f.severity == rank g.severity)
    then ltb (rank g.severity) (rank f.severity)
    else if not (same_bool f.fix_available g.fix_available)
    then f.fix_available
    else text_ltb f.cve g.cve

-- The loop over the sorted findings: the CVEs of the first `limit`, without the empty ones.
unfoldable pub take_cves : ℕ → List Finding → List Text
take_cves zero fs = []
take_cves (suc limit) [] = []
take_cves (suc limit) (f ∷ fs) =
    let rest = take_cves limit fs in if not (is_empty f.cve) then f.cve ∷ rest else rest

unfoldable pub top_findings_list : List Finding → ℤ → List Text
unfolding is_more_actionable take_cves sort_by
top_findings_list findings limit =
    if leb_ℤ limit (pos 0)
    then []
    else take_cves (pos_part limit) (sort_by is_more_actionable findings)

-- The numbers of fixable and of exploitable findings.
unfoldable pub count_risk_context : List Finding → ℕ × ℕ
count_risk_context [] = (0, 0)
count_risk_context (f ∷ fs) =
    let (fixable, exploitable) = count_risk_context fs in
    (
      if f.fix_available then suc fixable else fixable,
      if f.exploitable then suc exploitable else exploitable,
    )

unfoldable pub map_severity_to_event : VulnerabilitySummary → Text
map_severity_to_event vs =
    if ltb 0 vs.critical
    then codes "error"
    else if ltb 0 vs.high
    then codes "error"
    else if ltb 0 vs.medium
    then codes "warning"
    else codes "information"

pub record Scope : Type 0 where
  pub clusters : List Text
  pub namespaces : List Text
  pub services_names : List Text

-- The map `Details`, key by key.
pub record Details : Type 0 where
  pub cluster : Text
  pub namespace : Text
  pub kind : Text
  pub service_name : Text
  pub container : Text
  pub scanner : Text
  pub image : Text
  pub digest : Text
  pub summary : Text
  pub critical : ℕ
  pub high : ℕ
  pub medium : ℕ
  pub low : ℕ
  pub top_findings : List Text
  pub report_url : Text
  pub scanned_at : ℕ
  pub total_findings : ℕ
  pub minimum_severity : Text
  pub fixable_findings : ℕ
  pub exploitable_findings : ℕ

pub record Event : Type 0 where
  pub event_type : Text
  pub summary : Text
  pub severity : Text
  pub scope : Scope
  pub details : Details

abbrev count_of : ℕ → Text → Text
count_of n label = decimal n ++ codes " " ++ label

unfoldable pub details_summary : VulnerabilitySummary → Text
unfolding decimal
details_summary vs =
    let low_part = count_of vs.medium (codes "MEDIUM, ") ++ count_of vs.low (codes "LOW") in
    if ltb 0 vs.critical
    then count_of vs.critical (codes "CRITICAL, ")
      ++ (count_of vs.high (codes "HIGH, ") ++ low_part)
    else if ltb 0 vs.high
    then count_of vs.high (codes "HIGH, ") ++ low_part
    else low_part

unfoldable pub event_from_scan_result : ScanResult → WorkloadContext → EventOptions → Event
unfolding details_summary top_findings_list count_risk_context map_severity_to_event total decimal
event_from_scan_result result workload opts =
    let (fixable, exploitable) = count_risk_context result.findings in
    record {
      event_type = codes "vulnerability-scan";
      summary =
          decimal (total result.summary)
          ++ (codes " vulnerability findings in "
              ++ (workload.namespace ++ (codes "/" ++ workload.name)));
      severity = map_severity_to_event result.summary;
      scope = record {
        clusters = workload.cluster_name ∷ [];
        namespaces = workload.namespace ∷ [];
        services_names = workload.name ∷ [];
      };
      details = record {
        cluster = workload.cluster_name;
        namespace = workload.namespace;
        kind = workload.kind;
        service_name = workload.name;
        container = workload.container;
        scanner = result.scanner;
        image = result.image.resolved;
        digest = result.image.digest;
        summary = details_summary result.summary;
        critical = result.summary.critical;
        high = result.summary.high;
        medium = result.summary.medium;
        low = result.summary.low;
        top_findings = top_findings_list result.findings opts.include_top_findings;
        report_url = result.report_url;
        scanned_at = result.scanned_at;
        total_findings = total result.summary;
        minimum_severity = opts.minimum_severity;
        fixable_findings = fixable;
        exploitable_findings = exploitable;
      };
    }
