-- ===== src/Scanners/Reported.antt =====
-- What the parsers of internal/scanners/{trivy,snyk,wiz,clair} make of the output of their
-- commands.
mod Tests
use komodor_security_reporte.Prelude.{◌≡◌, Option, some, List}
use komodor_security_reporte.Prelude.Text.{Text}
use komodor_security_reporte.Prelude.Json.{Json}
use komodor_security_reporte.Registry.ImageRef.{ImageRef}
use komodor_security_reporte.Scanners.Result.{Finding, ScanResult}
use komodor_security_reporte.Scanners.Collected.{Reports}
use komodor_security_reporte.Scanners.Payload.Parts.{IsCollected, dedupe-walk-IsCollected}
use komodor_security_reporte.Scanners.Wiz
use komodor_security_reporte.Scanners.Clair
use komodor_security_reporte.Scanners.Snyk
use komodor_security_reporte.Scanners.Trivy

-- The parsers of Wiz and of Clair collect, from a payload of any shape, objects that look like a
-- vulnerability, wherever they are in it: only such parts of it, for each of them one with its
-- fingerprint, and no fingerprint twice.
pub collect_vulnerability_objects-IsCollected :
    (payload : Json)
    → IsCollected Wiz.looks_like_vulnerability Wiz.fingerprint payload
        (Wiz.collect_vulnerability_objects payload)
      × IsCollected Clair.looks_like_vulnerability Clair.fingerprint payload
          (Clair.collect_vulnerability_objects payload)
unfolding Wiz.collect_vulnerability_objects Clair.collect_vulnerability_objects
collect_vulnerability_objects-IsCollected payload = (
  dedupe-walk-IsCollected Wiz.looks_like_vulnerability Wiz.fingerprint payload,
  dedupe-walk-IsCollected Clair.looks_like_vulnerability Clair.fingerprint payload,
)

-- A result for the image, named after its scanner, with a finding for each of these, all of them
-- counted.
abbrev pub IsScanOf : Text → ImageRef → List Finding → Option ScanResult → Type 0
IsScanOf scanner image findings outcome =
    (result : ScanResult) × (outcome ≡ some result)
    × (result.scanner ≡ scanner)
    × Reports image findings result
