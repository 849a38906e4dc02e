-- ===== src/Scanners/TrivyOperator/Tests.antt =====
-- A cluster with one report, whose image is the repository library/app.
use komodor_security_reporte.Prelude.{◌≡◌, ℕ, some, none, List, [], ◌∷◌, ◌⊎◌, if◌then◌else◌, ◌+◌}
use komodor_security_reporte.Prelude.Text.{Text, codes, text_eq}
use komodor_security_reporte.Prelude.Json.{string, object, nil, cons, end, field, Fields, get_field}
use komodor_security_reporte.Registry.ImageRef.{ImageRef}
use komodor_security_reporte.Scanners.Result.{ScanResult}
use komodor_security_reporte.Scanners.TrivyOperator.Reports.{Accessors}
use komodor_security_reporte.Scanners.TrivyOperator.{State, World, scan, vulnerability_reports}
use komodor_security_reporte.Scanners.TrivyOperator.Sourced.{all_listed}
use komodor_security_reporte.Scanners.TrivyOperator.Scanned.{IsReportOf, scan-IsReportOf}

-- What a path of names leads to in each report.
abbrev artifact_at : List Text → Text
artifact_at (a ∷ b ∷ key ∷ []) =
    if text_eq key (codes "repository")
    then codes "library/app"
    else if text_eq key (codes "tag")
    then codes "1"
    else []
artifact_at _ = []

abbrev accessors : Accessors
accessors = record {
  nested_string = λ report path. artifact_at path;
  nested_slice = λ report path. some (cons (object report) (cons (object report) nil));
}

abbrev image : ImageRef
image = record {
  original = codes "app:1";
  registry = codes "docker.io";
  repository = codes "library/app";
  tag = codes "1";
  digest = [];
  resolved = codes "docker.io/library/app:1";
}

abbrev report : Fields
report =
    field (codes "vulnerabilityID") (string (codes "CVE-2024-1"))
      (field (codes "severity") (string (codes "HIGH")) end)

-- The world counts its listings, which take no time.
abbrev world : World ℕ
world = record { list = λ n resource. (some (report ∷ []), n + 1); now = λ n. 5 }

abbrev fresh : State ℕ
fresh = record { cache = []; world = 0 }

-- A report of another image, without a repository, before the one of this image.
abbrev other_report : Fields
other_report = field (codes "kind") (string (codes "other")) end

-- The repository of a report that has a vulnerability; every report has the tag 1.
abbrev artifact_of : Fields → List Text → Text
artifact_of fields (a ∷ b ∷ key ∷ []) =
    if text_eq key (codes "repository")
    then (elim (get_field (codes "vulnerabilityID") fields) [
      | none ↦ []
      | some v ↦ codes "library/app"
    ])
    else if text_eq key (codes "tag")
    then codes "1"
    else []
artifact_of fields _ = []

abbrev some_accessors : Accessors
some_accessors = record accessors { nested_string = artifact_of }

abbrev two_reports : World ℕ
two_reports = record world { list = λ n resource. (some (other_report ∷ report ∷ []), n + 1) }

scan-IsReportOf_example :
    let resources = vulnerability_reports ∷ [] in
    let outcome = (scan some_accessors image two_reports resources fresh).0 in
    let listed = all_listed two_reports fresh resources in
    ((listed ≡ none) × (outcome ≡ none))
    ⊎ ((reports : List Fields) × (result : ScanResult) × (listed ≡ some reports)
        × (outcome ≡ some result)
        × IsReportOf some_accessors image reports result)
scan-IsReportOf_example =
    scan-IsReportOf some_accessors image two_reports (vulnerability_reports ∷ []) fresh
