-- ===== src/Scanners/TrivyOperator.antt =====
-- internal/scanners/trivyoperator/scanner.go, without the loading of the Kubernetes configuration.
-- The lister of reports and the clock are parameters, over a type `W` of worlds.
pub mod Reports
pub mod Sourced
pub mod Scanned
mod Tests
use komodor_security_reporte.Prelude.{
  ℕ, ◌+◌, ◌++◌, Option, none, some, Bool, true, false, not, ◌==◌, ltb, if◌then◌else◌, List, [], ◌∷◌,
}
use komodor_security_reporte.Prelude.Text.{
  Text, codes, join, text_ltb, to_lower, trim_space, text_eq,
}
use komodor_security_reporte.Prelude.Json.{Fields}
use komodor_security_reporte.Prelude.Dict.{Dict, lookup, put}
use komodor_security_reporte.Prelude.Sort.{sort_by}
use komodor_security_reporte.Registry.ImageRef.{ImageRef}
use komodor_security_reporte.Scanners.Severity.{
  Severity, critical, high, medium, low, unknown, rank,
}
use komodor_security_reporte.Scanners.Result.{Finding, ScanResult}
use komodor_security_reporte.Scanners.Summary.{summary_from_findings}
use komodor_security_reporte.Scanners.Dedupe.{dedupe}
use komodor_security_reporte.Scanners.TrivyOperator.Reports.{
  Accessors, extract_vulnerability_findings,
}

-- A resource of the group aquasecurity.github.io in version v1alpha1. Both supported resources have
-- the same extractor.
pub record ReportResource : Type 0 where
  pub name : Text
  pub namespaced : Bool

abbrev pub vulnerability_reports : ReportResource
vulnerability_reports = record { name = codes "vulnerabilityreports"; namespaced = true }

abbrev pub cluster_vulnerability_reports : ReportResource
cluster_vulnerability_reports = record {
  name = codes "clustervulnerabilityreports";
  namespaced = false;
}

-- supportedResources[key]
unfoldable pub supported_resource : Text → Option ReportResource
supported_resource key =
    if text_eq key (codes "vulnerabilityreports")
    then some vulnerability_reports
    else if text_eq key (codes "clustervulnerabilityreports")
    then some cluster_vulnerability_reports
    else none

-- The loop of resolveResources
unfoldable pub resolve_each : List Text → Option (List ReportResource)
unfolding supported_resource
resolve_each [] = some []
resolve_each (configured ∷ names) =
    let rest = resolve_each names in
    elim (supported_resource (to_lower (trim_space configured))) [
      | none ↦ none
      | some resource ↦ elim rest [ none ↦ none | some resources ↦ some (resource ∷ resources) ]
    ]

unfoldable pub resolve_resources : List Text → Option (List ReportResource)
unfolding resolve_each
resolve_resources [] = resolve_each (codes "vulnerabilityreports" ∷ [])
resolve_resources (name ∷ names) = resolve_each (name ∷ names)

abbrev severity_word : Severity → Text
severity_word critical = codes "critical"
severity_word high = codes "high"
severity_word medium = codes "medium"
severity_word low = codes "low"
severity_word unknown = codes "unknown"

unfoldable pub finding_fingerprint : Finding → Text
unfolding join
finding_fingerprint f =
    join (codes "|") (f.id ∷ f.package_name ∷ f.installed ∷ f.fixed ∷ severity_word f.severity ∷ [])

-- The test of sort.Slice
unfoldable pub is_before : Finding → Finding → Bool
unfolding rank text_ltb
is_before f g =
    if not (rank f.severity == rank g.severity)
    then ltb (rank g.severity) (rank f.severity)
    else text_ltb f.id g.id

pub record CachedReports : Type 0 where
  pub reports : List Fields
  pub loaded_at : ℕ

-- The API server's answers and the clock, in nanoseconds.
pub record World (W : Type 0) : Type 0 where
  pub list : W → ReportResource → Option (List Fields) × W
  pub now : W → ℕ

pub record State (W : Type 0) : Type 0 where
  pub cache : Dict CachedReports
  pub world : W

abbrev pub cache_ttl : ℕ
cache_ttl = 30_000_000_000

module _ {W : Type 0} (world : World W) where
  unfoldable pub cached_reports : State W → Text → Option (List Fields)
  cached_reports s name = elim (lookup name s.cache) [
    | none ↦ none
    | some cached ↦
        if ltb (cached.loaded_at + cache_ttl) (world.now s.world) then none else some cached.reports
  ]

  unfoldable pub list_reports : State W → ReportResource → Option (List Fields) × State W
  unfolding cached_reports
  list_reports s resource = elim (cached_reports s resource.name) [
    | some reports ↦ (some reports, s)
    | none ↦
        let listed = world.list s.world resource in
        elim listed.0 [
          | none ↦ (none, record s { world = listed.1 })
          | some reports ↦ (
            some reports,
            record {
              cache =
                  put resource.name (record { reports = reports; loaded_at = world.now listed.1 })
                    s.cache;
              world = listed.1;
            },
          )
        ]
  ]

module _ (accessors : Accessors) (image : ImageRef) where
  -- The findings of the reports that are the image's.
  unfoldable pub findings_of_reports : List Fields → List Finding
  unfolding extract_vulnerability_findings
  findings_of_reports [] = []
  findings_of_reports (report ∷ reports) =
      let rest = findings_of_reports reports in
      elim (extract_vulnerability_findings accessors report image) [
        | none ↦ rest
        | some findings ↦ findings ++ rest
      ]

  module _ {W : Type 0} (world : World W) where
    -- The loop of Scan over the resources: all findings in order, which lose their duplicates
    -- afterwards, since the set of those seen lasts over the whole loop.
    unfoldable pub gather : State W → List ReportResource → Option (List Finding) × State W
    unfolding list_reports findings_of_reports
    gather s [] = (some [], s)
    gather s (resource ∷ resources) =
        let listed = list_reports world s resource in
        let rest = gather listed.1 resources in
        elim listed.0 [
          | none ↦ (none, listed.1)
          | some reports ↦ elim rest.0 [
            | none ↦ (none, rest.1)
            | some findings ↦ (some (findings_of_reports reports ++ findings), rest.1)
          ]
        ]

    -- What Scan makes of the findings.
    unfoldable pub report_of : ℕ → List Finding → ScanResult
    unfolding finding_fingerprint is_before sort_by dedupe summary_from_findings
    report_of now all =
        let findings = sort_by is_before (dedupe finding_fingerprint all) in
        record {
          scanner = codes "trivy-operator";
          image = image;
          scanned_at = now;
          summary = summary_from_findings findings;
          findings = findings;
          report_url = [];
          sbom_url = [];
        }

    unfoldable pub scan : List ReportResource → State W → Option ScanResult × State W
    unfolding gather report_of
    scan resources s =
        let gathered = gather s resources in
        elim gathered.0 [
          | none ↦ (none, gathered.1)
          | some all ↦ (some (report_of (world.now gathered.1.world) all), gathered.1)
        ]
