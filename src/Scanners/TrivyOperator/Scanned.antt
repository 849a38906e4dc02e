-- ===== src/Scanners/TrivyOperator/Scanned.antt =====
-- What Scan of internal/scanners/trivyoperator/scanner.go reports.
use mathlib.Core.List.{Perm}
use komodor_security_reporte.Prelude.{
  ◌≡◌, ◌≤◌, ◌-◌, inl, inr, arith, ℕ, none, some, List, ◌∷◌, ◌⊎◌, ◌↔◌, Memᴰ,
}
use komodor_security_reporte.Prelude.Text.{Text, text_ltb}
use komodor_security_reporte.Prelude.Sort.{
  sort_by, sort_by-perm, IsSortedBy, IsStrictOrder, by_text-IsStrictOrder, sort_by-IsSortedBy,
}
use komodor_security_reporte.Prelude.Json.{Fields}
use komodor_security_reporte.Registry.ImageRef.{ImageRef}
use komodor_security_reporte.Scanners.Severity.{Severity, critical, rank}
use komodor_security_reporte.Scanners.Result.{Finding, ScanResult}
use komodor_security_reporte.Scanners.Summary.{Counts, summary-Counts}
use komodor_security_reporte.Scanners.Dedupe.{
  dedupe, find_key, find_key-dedupe, HasDistinctKeys, dedupe-HasDistinctKeys,
}
use komodor_security_reporte.Scanners.TrivyOperator.Reports.{Accessors}
use komodor_security_reporte.Scanners.TrivyOperator.{
  ReportResource, State, World, gather, scan, report_of, findings_of_reports, is_before,
  finding_fingerprint,
}
use komodor_security_reporte.Scanners.TrivyOperator.Sourced.{
  gather-all_listed, IsSourced, all_listed, findings_of_reports-IsSourced,
}

-- What the order looks at, as one text.
abbrev order_key : Finding → Text
order_key f = (4 - rank f.severity) ∷ f.id

rank-le : (s : Severity) → rank s ≤ 4
unfolding rank
rank-le critical = omega arith
rank-le _ = omega arith

is_before_lem : (f g : Finding) → is_before f g ≡ text_ltb (order_key f) (order_key g)
unfolding is_before text_ltb
is_before_lem f g = ground (arith, rank-le f.severity, rank-le g.severity)

is_before-IsStrictOrder : IsStrictOrder is_before
is_before-IsStrictOrder = by_text-IsStrictOrder is_before order_key is_before_lem

-- The result reports, of the vulnerabilities in those reports that are the image's, the first
-- finding of each fingerprint in some list of all their findings.
pub record IsReportOf (accessors : Accessors) (image : ImageRef) (reports : List Fields)
    (result : ScanResult) : Type 0 where
  pub all : List Finding
  pub sourced : (f : Finding) → Memᴰ f all ↔ IsSourced accessors image reports f
  pub kept : List Finding
  pub same_items : Perm result.findings kept
  pub distinct : HasDistinctKeys finding_fingerprint kept
  pub first_of_each :
      (k : Text) → find_key finding_fingerprint k kept ≡ find_key finding_fingerprint k all
  pub sorted : IsSortedBy is_before result.findings
  pub counted : Counts result.summary result.findings

module _ (accessors : Accessors) (image : ImageRef) {W : Type 0} (world : World W) where
  report_of-IsReportOf :
      (now : ℕ) (reports : List Fields)
      → IsReportOf accessors image reports
          (report_of accessors image world now (findings_of_reports accessors image reports))
  unfolding report_of
  report_of-IsReportOf now reports =
      let all = findings_of_reports accessors image reports in
      let kept = dedupe finding_fingerprint all in
      record {
        all = all;
        sourced = λ f. findings_of_reports-IsSourced accessors image f reports;
        kept = kept;
        same_items = sort_by-perm is_before kept;
        distinct = dedupe-HasDistinctKeys finding_fingerprint all;
        first_of_each = λ k. find_key-dedupe finding_fingerprint k all;
        sorted = sort_by-IsSortedBy is_before is_before-IsStrictOrder kept;
        counted = summary-Counts (sort_by is_before kept);
      }

  -- A scan fails just if the listing of a resource does. Else it reports one finding of each
  -- fingerprint among the vulnerabilities in all listed reports that match the image, and no other,
  -- by falling severity and then by rising id, and its summary has the number of those of each
  -- severity.
  pub scan-IsReportOf :
      (resources : List ReportResource) (s : State W)
      → let outcome = (scan accessors image world resources s).0 in
        let listed = all_listed world s resources in
        ((listed ≡ none) × (outcome ≡ none))
        ⊎ ((reports : List Fields) × (result : ScanResult) × (listed ≡ some reports)
            × (outcome ≡ some result)
            × IsReportOf accessors image reports result)
  unfolding scan
  scan-IsReportOf resources s = elim (gather-all_listed accessors image world resources s) [
    | inl (listed, e) ↦ inl (listed, rw (e, scan))
    | inr (reports, listed, e) ↦ inr (
      reports,
      report_of accessors image world (world.now (gather accessors image world s resources).1.world)
          (findings_of_reports accessors image reports),
      listed,
      rw (e, scan),
      report_of-IsReportOf _ reports,
    )
  ]
