-- ===== src/Scanners/Summary.antt =====
-- The counting of findings by severity: incrementSummary of internal/scanners/trivy/scanner.go, and
-- summaryFromFindings of internal/scanners/trivyoperator/scanner.go.
use komodor_security_reporte.Scanners.Severity.{Severity, critical, high, medium, low, unknown}
use komodor_security_reporte.Scanners.Result.{VulnerabilitySummary, Finding, total}
use Prim.Native.Nat.{suc, ℕ}
use komodor_security_reporte.Prelude.{
  List, ◌<◌, ◌≡◌, arith, length, ◌+◌, ◌↔◌, ◌∷◌, ◌⊎◌, [], inl, ◌≢◌, inr, refl, sym, Bool,
  if◌then◌else◌, true, false,
}

abbrev pub empty_summary : VulnerabilitySummary
empty_summary = record { critical = 0; high = 0; medium = 0; low = 0; unknown = 0 }

unfoldable pub increment_summary : VulnerabilitySummary → Severity → VulnerabilitySummary
increment_summary vs critical = record vs { critical = suc vs.critical }
increment_summary vs high = record vs { high = suc vs.high }
increment_summary vs medium = record vs { medium = suc vs.medium }
increment_summary vs low = record vs { low = suc vs.low }
increment_summary vs unknown = record vs { unknown = suc vs.unknown }

unfoldable pub count_from : VulnerabilitySummary → List Finding → VulnerabilitySummary
unfolding increment_summary
count_from vs [] = vs
count_from vs (f ∷ fs) = count_from (increment_summary vs f.severity) fs

unfoldable pub summary_from_findings : List Finding → VulnerabilitySummary
unfolding count_from
summary_from_findings findings = count_from empty_summary findings

total-increment :
    (vs : VulnerabilitySummary) (s : Severity) → total (increment_summary vs s) ≡ suc (total vs)
unfolding total increment_summary
total-increment vs critical = omega arith
total-increment vs _ = omega arith

total-count_from :
    (vs : VulnerabilitySummary) (fs : List Finding)
    → total (count_from vs fs) ≡ total vs + length fs
unfolding count_from
total-count_from vs [] = omega arith
total-count_from vs (f ∷ fs) =
    omega
      (arith, total-count_from (increment_summary vs f.severity) fs, total-increment vs f.severity)

-- A list of findings and its summary agree on their number.
pub total-summary : (fs : List Finding) → total (summary_from_findings fs) ≡ length fs
unfolding summary_from_findings total
total-summary fs = omega (arith, total-count_from empty_summary fs)

-- Some finding has the severity.
abbrev pub HasSeverity : Severity → List Finding → Type 0
HasSeverity s [] = ⊥
HasSeverity s (f ∷ fs) = (f.severity ≡ s) ⊎ HasSeverity s fs

-- The count that a summary keeps of a severity.
unfoldable pub count_of_severity : VulnerabilitySummary → Severity → ℕ
count_of_severity vs critical = vs.critical
count_of_severity vs high = vs.high
count_of_severity vs medium = vs.medium
count_of_severity vs low = vs.low
count_of_severity vs unknown = vs.unknown

-- Whether two severities are the same.
unfoldable pub is_severity : Severity → Severity → Bool
is_severity critical critical = true
is_severity high high = true
is_severity medium medium = true
is_severity low low = true
is_severity unknown unknown = true
is_severity _ _ = false

-- How many of the findings have the severity.
unfoldable pub number_of : Severity → List Finding → ℕ
unfolding is_severity
number_of s [] = 0
number_of s (f ∷ fs) = (if is_severity s f.severity then 1 else 0) + number_of s fs

-- Of each severity, the summary has the number of the findings with it.
abbrev pub Counts : VulnerabilitySummary → List Finding → Type 0
Counts vs fs = (s : Severity) → count_of_severity vs s ≡ number_of s fs

count_of_severity-increment :
    (vs : VulnerabilitySummary) (s t : Severity)
    → count_of_severity (increment_summary vs t) s
      ≡ count_of_severity vs s + (if is_severity s t then 1 else 0)
unfolding count_of_severity increment_summary is_severity
count_of_severity-increment vs critical critical = omega arith
count_of_severity-increment vs high high = omega arith
count_of_severity-increment vs medium medium = omega arith
count_of_severity-increment vs low low = omega arith
count_of_severity-increment vs unknown unknown = omega arith
count_of_severity-increment vs s t = omega arith

pub count_from-number :
    (fs : List Finding) (vs : VulnerabilitySummary) (s : Severity)
    → count_of_severity (count_from vs fs) s ≡ count_of_severity vs s + number_of s fs
unfolding count_from number_of
count_from-number [] vs s = omega arith
count_from-number (f ∷ fs) vs s = omega (
  arith,
  count_from-number fs (increment_summary vs f.severity) s,
  count_of_severity-increment vs s f.severity,
)

none_of_any : (s : Severity) → count_of_severity empty_summary s ≡ 0
unfolding count_of_severity
none_of_any critical = refl
none_of_any _ = refl

-- A summary made of findings counts them.
pub summary-Counts : (fs : List Finding) → Counts (summary_from_findings fs) fs
unfolding summary_from_findings
summary-Counts fs s = omega (arith, count_from-number fs empty_summary s, none_of_any s)

increment_cases :
    (vs : VulnerabilitySummary) (s t : Severity)
    → ((s ≡ t) × (count_of_severity (increment_summary vs t) s ≡ suc (count_of_severity vs s)))
      ⊎ ((s ≢ t) × (count_of_severity (increment_summary vs t) s ≡ count_of_severity vs s))
unfolding count_of_severity increment_summary
increment_cases vs critical critical = inl (refl, refl)
increment_cases vs high high = inl (refl, refl)
increment_cases vs medium medium = inl (refl, refl)
increment_cases vs low low = inl (refl, refl)
increment_cases vs unknown unknown = inl (refl, refl)
increment_cases vs s t = inr ((λ e. cc), refl)

count_from_pos :
    (fs : List Finding) (vs : VulnerabilitySummary) (s : Severity)
    → (0 < count_of_severity (count_from vs fs) s)
      ↔ ((0 < count_of_severity vs s) ⊎ HasSeverity s fs)
unfolding count_from
count_from_pos [] vs s = (λ h. inl h, λ h. elim h [ inl p ↦ p | inr n ↦ absurd n ])
count_from_pos (f ∷ fs) vs s =
    let ih = count_from_pos fs (increment_summary vs f.severity) s in
    elim (increment_cases vs s f.severity) [
      | inl (same, c) ↦ (λ h. inr (inl (sym same)), λ h. ih.1 (inl (omega arith)))
      | inr (other, c) ↦ (
        λ h. elim (ih.0 h) [ inl p ↦ inl (omega arith) | inr q ↦ inr (inr q) ],
        λ h. elim h [
          | inl p ↦ ih.1 (inl (omega arith))
          | inr q ↦ elim q [ inl e ↦ absurd (other (sym e)) | inr r ↦ ih.1 (inr r) ]
        ],
      )
    ]

none_counted : (s : Severity) → ¬ (0 < count_of_severity empty_summary s)
unfolding count_of_severity
none_counted critical h = omega arith
none_counted _ h = omega arith

-- A severity is counted exactly when some finding has it.
pub summary_counts :
    (fs : List Finding) (s : Severity)
    → (0 < count_of_severity (summary_from_findings fs) s) ↔ HasSeverity s fs
unfolding summary_from_findings
summary_counts fs s =
    let c = count_from_pos fs empty_summary s in
    (λ h. elim (c.0 h) [ inl p ↦ absurd (none_counted s p) | inr q ↦ q ], λ h. c.1 (inr h))
