-- ===== src/Scanners/Reported/Tests.antt =====
-- A payload with a vulnerability below other objects, and runs of commands that print a text.
use mathlib.Core.List.Memᴰ
use komodor_security_reporte.Prelude.{◌≡◌, refl, Memᴰ, Option, some, List, [], ◌∷◌}
use komodor_security_reporte.Prelude.Text.{Text, codes, to_lower, to_upper, index_of, text_eq, join}
use komodor_security_reporte.Prelude.Json.{
  Json, string, number, array, object, nil, cons, end, field, Fields, get_field,
}
use komodor_security_reporte.Registry.ImageRef.{ImageRef}
use komodor_security_reporte.Scanners.Payload.Parts.{IsCollected}
use komodor_security_reporte.Scanners.Reported.{collect_vulnerability_objects-IsCollected}
use komodor_security_reporte.Scanners.Snyk.{Report}
use komodor_security_reporte.Scanners.Trivy.{TrivyReport}
use komodor_security_reporte.Scanners.Wiz
use komodor_security_reporte.Scanners.Clair
use komodor_security_reporte.Scanners.Snyk
use komodor_security_reporte.Scanners.Trivy

abbrev vulnerability : Fields
vulnerability = field (codes "id") (string (codes "CVE-2024-1")) (
    field (codes "severity") (string (codes "HIGH"))
      (field (codes "package") (string (codes "openssl")) end))

-- The same vulnerability twice in a list, beside a number.
abbrev payload : Json
payload = object (
    field (codes "result")
      (array
        (cons (object vulnerability) (cons (number (codes "1")) (cons (object vulnerability) nil))))
      end)

-- The walk finds both, and one stays.
wiz_collects : Wiz.collect_vulnerability_objects payload ≡ vulnerability ∷ []
unfolding Wiz.collect_vulnerability_objects to_lower get_field text_eq join
wiz_collects = refl

collect_vulnerability_objects-IsCollected_example :
    IsCollected Wiz.looks_like_vulnerability Wiz.fingerprint payload
      (Wiz.collect_vulnerability_objects payload)
    × IsCollected Clair.looks_like_vulnerability Clair.fingerprint payload
        (Clair.collect_vulnerability_objects payload)
collect_vulnerability_objects-IsCollected_example =
    collect_vulnerability_objects-IsCollected payload

abbrev image : ImageRef
image = record {
  original = codes "app:1";
  registry = codes "docker.io";
  repository = codes "library/app";
  tag = codes "1";
  digest = [];
  resolved = codes "docker.io/library/app:1";
}

abbrev snyk_report : Report
snyk_report = record {
  vulnerabilities =
      record {
        id = codes "SNYK-1";
        package_name = codes "openssl";
        name = codes "openssl";
        version = codes "3";
        severity = codes "high";
        title = codes "t";
        fixed_in = codes "3.1" ∷ [];
        identifiers = (codes "CVE", codes "CVE-2024-1" ∷ []) ∷ [];
        references = [];
        url = [];
      }
      ∷ [];
  applications = [];
}

abbrev trivy_report : TrivyReport
trivy_report =
    (record {
      vulnerability_id = codes "CVE-2024-1";
      pkg_name = codes "openssl";
      installed_version = codes "3";
      fixed_version = [];
      severity = codes "HIGH";
      title = codes "t";
      primary_url = [];
    }
      ∷ [])
    ∷ []

abbrev run_text : Text → List Text → Option Text
run_text binary arguments = some (codes "out")

-- A vulnerability that has its CVE in a link.
abbrev linked : Fields
linked = field (codes "id") (string (codes "GHSA-1")) (
    field (codes "severity") (string (codes "HIGH"))
      (field (codes "links") (array (cons (string (codes "see cve-2024-1")) nil)) end))

abbrev linked_payload : Json
linked_payload = array (cons (object linked) nil)

-- The CVE is cut out of the link as it stands there.
linked_cve : Clair.first_cve to_upper linked ≡ some (codes "cve-2024-1")
unfolding Clair.first_cve to_upper get_field text_eq index_of
linked_cve = refl
