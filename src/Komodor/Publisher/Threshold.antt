-- ===== src/Komodor/Publisher/Threshold.antt =====
-- When ShouldPublish of internal/komodor/publisher.go lets a result through, said of its findings.
use komodor_security_reporte.Scanners.Severity.{
  Severity, critical, high, medium, low, unknown, rank,
}
use komodor_security_reporte.Scanners.Result.{ScanResult, Finding, total}
use komodor_security_reporte.Scanners.Summary.{
  summary_from_findings, summary_counts, HasSeverity, count_of_severity, total-summary,
}
use komodor_security_reporte.Komodor.Publisher.{
  EventOptions, severity_rank, has_risk_at_level, should_publish, ℕ, List, true, [], ltb, ◌∷◌, leb,
  false,
}
use komodor_security_reporte.Prelude.{
  ◌≡◌, ◌≢◌, ◌≤◌, ◌<◌, arith, refl, Bool-cases, length, ◌↔◌, ◌⊎◌, ap, ◌&&◌, ◌∙◌, inl, ◌==◌, inr,
  subst, sym,
}

-- Some finding of a known severity ranks at least `n`.
abbrev pub HasRisk : ℕ → List Finding → Type 0
HasRisk n fs = (s : Severity) × (s ≢ unknown) × (n ≤ rank s) × HasSeverity s fs

risk_of_counts :
    (r : ScanResult) (n : ℕ)
    → has_risk_at_level r n ≡ true
    → (s : Severity) × (s ≢ unknown) × (n ≤ rank s) × (0 < count_of_severity r.summary s)
unfolding has_risk_at_level rank count_of_severity
risk_of_counts r n h = elim (Bool-cases (ltb 0 r.summary.critical && leb n 4)) [
  | inl c ↦ (critical, (λ e. cc), ground arith, ground arith)
  | inr c ↦ elim (Bool-cases (ltb 0 r.summary.high && leb n 3)) [
    | inl g ↦ (high, (λ e. cc), ground arith, ground arith)
    | inr g ↦ elim (Bool-cases (ltb 0 r.summary.medium && leb n 2)) [
      | inl m ↦ (medium, (λ e. cc), ground arith, ground arith)
      | inr m ↦ (low, (λ e. cc), ground arith, ground arith)
    ]
  ]
]

counts_of_risk :
    (r : ScanResult) (n : ℕ) (s : Severity)
    → s ≢ unknown
    → n ≤ rank s
    → 0 < count_of_severity r.summary s
    → has_risk_at_level r n ≡ true
unfolding has_risk_at_level rank count_of_severity
counts_of_risk r n critical k le c = ground arith
counts_of_risk r n high k le c = ground arith
counts_of_risk r n medium k le c = ground arith
counts_of_risk r n low k le c = ground arith
counts_of_risk r n unknown k le c = absurd (k refl)

IsEmpty-length {ℓ} : {A : Type ℓ} (l : List A) → (length l ≡ 0) → l ≡ []
IsEmpty-length [] h = refl
IsEmpty-length (x ∷ l) h = absurd (omega arith)

length-pos {ℓ} : {A : Type ℓ} (l : List A) → l ≢ [] → 0 < length l
length-pos [] h = absurd (h refl)
length-pos (x ∷ l) h = omega arith

not_zero : (n : ℕ) → 0 < n → (n == 0) ≡ false
not_zero n h = ground arith

risk_exact :
    (r : ScanResult) (n : ℕ)
    → r.summary ≡ summary_from_findings r.findings
    → (has_risk_at_level r n ≡ true) ↔ HasRisk n r.findings
risk_exact r n e = (
  λ h.
      let (s, known, le, counted) = risk_of_counts r n h in
      (
        s,
        known,
        le,
        (summary_counts r.findings s).0 (subst (λ vs. 0 < count_of_severity vs s) e counted),
      ),
  λ (s, known, le, found).
      counts_of_risk r n s known le
        (subst (λ vs. 0 < count_of_severity vs s) (sym e) ((summary_counts r.findings s).1 found)),
)

publish_clean :
    (r : ScanResult) (opts : EventOptions)
    → total r.summary ≡ 0
    → should_publish r opts ≡ opts.publish_clean_scans
unfolding should_publish
publish_clean r opts h = rw h

publish_dirty :
    (r : ScanResult) (opts : EventOptions)
    → 0 < total r.summary
    → should_publish r opts ≡ has_risk_at_level r (severity_rank opts.minimum_severity)
unfolding should_publish
publish_dirty r opts h = rw (not_zero (total r.summary) h)

-- For a result whose summary counts its findings: without findings it is published exactly when
-- clean scans are to be; with findings exactly when one of a known severity ranks at least the
-- minimum. (A result with findings of unknown severity alone is published at no minimum.)
pub should_publish_exact :
    (r : ScanResult) (opts : EventOptions)
    → r.summary ≡ summary_from_findings r.findings
    → (should_publish r opts ≡ true) ↔ (
        ((r.findings ≡ []) × (opts.publish_clean_scans ≡ true))
        ⊎ ((r.findings ≢ []) × HasRisk (severity_rank opts.minimum_severity) r.findings))
should_publish_exact r opts e =
    let risk = risk_exact r (severity_rank opts.minimum_severity) e in
    let size : total r.summary ≡ length r.findings = ap total e ∙ total-summary r.findings in
    (
      λ h. elim (Bool-cases (total r.summary == 0)) [
        | inl clean ↦
            let zero_total : total r.summary ≡ 0 = ground arith in
            inl (IsEmpty-length r.findings (omega arith), sym (publish_clean r opts zero_total) ∙ h)
        | inr dirty ↦
            let some_total : 0 < total r.summary = ground arith in
            inr (
              (λ none_found. let l : length r.findings ≡ 0 = ap length none_found in omega arith),
              risk.0 (sym (publish_dirty r opts some_total) ∙ h),
            )
      ],
      λ h. elim h [
        | inl (empty, wanted) ↦
            let l : length r.findings ≡ 0 = ap length empty in
            publish_clean r opts (omega arith) ∙ wanted
        | inr (found, risky) ↦
            let l = length-pos r.findings found in publish_dirty r opts (omega arith) ∙ risk.1 risky
      ],
    )
