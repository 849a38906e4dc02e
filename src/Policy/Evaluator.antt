-- ===== src/Policy/Evaluator.antt =====
-- internal/policy/evaluator.go. SHA-256, written in hexadecimal, is the parameter `hash`.
use komodor_security_reporte.Prelude.Sort.{sort_texts}
use komodor_security_reporte.Prelude.Decimal.{decimal}
use komodor_security_reporte.Scanners.Result.{ScanResult, Finding, VulnerabilitySummary}
use Prim.Native.Nat.{ℕ}
use komodor_security_reporte.Prelude.{List, Bool, ◌++◌, ◌∷◌, [], if◌then◌else◌, not, true, false}
use komodor_security_reporte.Prelude.Text.{Text, codes, is_empty, text_eq}

abbrev pub bar : ℕ
bar = b'|'

abbrev pub comma : ℕ
comma = b','

-- The CVEs of the findings that have one, in the order of the findings.
unfoldable pub collect_cves : List Finding → List Text
collect_cves [] = []
collect_cves (f ∷ fs) =
    let rest = collect_cves fs in if not (is_empty f.cve) then f.cve ∷ rest else rest

unfoldable pub extract_cves : List Finding → List Text
unfolding collect_cves sort_texts
extract_cves findings = sort_texts (collect_cves findings)

-- The counts as "%d,%d,%d,%d,%d|".
unfoldable pub write_counts : VulnerabilitySummary → Text
unfolding decimal
write_counts vs =
    decimal vs.critical
    ++ (comma
        ∷ (decimal vs.high
            ++ (comma
                ∷ (decimal vs.medium
                    ++ (comma
                        ∷ (decimal vs.low ++ (comma ∷ (decimal vs.unknown ++ (bar ∷ [])))))))))

unfoldable pub write_cves : List Text → Text
write_cves [] = []
write_cves (cve ∷ cves) = cve ++ (comma ∷ write_cves cves)

-- All that is written to the hash.
unfoldable pub fingerprint_input : ScanResult → Text
unfolding write_counts write_cves extract_cves
fingerprint_input result =
    result.scanner
    ++ (bar
        ∷ (result.image.digest
            ++ (bar ∷ (write_counts result.summary ++ write_cves (extract_cves result.findings)))))

module _ (hash : Text → Text) where
  unfoldable pub fingerprint : ScanResult → Text
  unfolding fingerprint_input
  fingerprint result = codes "sha256:" ++ hash (fingerprint_input result)

  unfoldable pub evaluate_publish : ScanResult → Text → Bool → Bool
  evaluate_publish result last_fingerprint only_on_change =
      if is_empty last_fingerprint
      then true
      else if not (text_eq (fingerprint result) last_fingerprint)
      then true
      else if only_on_change
      then false
      else true
