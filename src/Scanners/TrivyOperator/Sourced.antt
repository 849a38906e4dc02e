-- ===== src/Scanners/TrivyOperator/Sourced.antt =====
-- Which findings Scan of internal/scanners/trivyoperator/scanner.go gathers.
use komodor_security_reporte.Prelude.{
  ◌≡◌, ◌⊎◌, ◌↔◌, ap, sym, ◌∙◌, inl, inr, true, Bool-cases, none, some, Option, Option-cases, List,
  [], ◌∷◌, ◌++◌, append_assoc, Memᴰ, subst, refl,
}
use komodor_security_reporte.Prelude.Text.{codes}
use komodor_security_reporte.Prelude.Json.{object, nil, cons, Fields, Items}
use komodor_security_reporte.Registry.ImageRef.{ImageRef}
use komodor_security_reporte.Scanners.Result.{Finding}
use komodor_security_reporte.Scanners.TrivyOperator.Reports.{
  Accessors, report_matches_image, extract_vulnerability_findings, findings_of_items,
  finding_from_vulnerability,
}
use komodor_security_reporte.Scanners.TrivyOperator.{
  ReportResource, State, World, gather, findings_of_reports, list_reports,
}
use mathlib.Core.List.Memᴰ

-- The object is one of the items.
abbrev pub IsAmong : Fields → Items → Type 0
IsAmong vuln nil = ⊥
IsAmong vuln (cons item items) = (item ≡ object vuln) ⊎ IsAmong vuln items

-- The finding is made of a vulnerability in one of the reports, which is the image's.
abbrev pub IsSourced : Accessors → ImageRef → List Fields → Finding → Type 0
IsSourced accessors image reports f =
    (report : Fields) × Memᴰ report reports
    × (report_matches_image accessors report image ≡ true)
    × ((items : Items) × (accessors.nested_slice report
            (codes "report" ∷ codes "vulnerabilities" ∷ [])
          ≡ some items)
        × ((vuln : Fields) × IsAmong vuln items × (f ≡ finding_from_vulnerability vuln)))

-- All reports that the resources list, one resource after the other, unless a listing fails.
unfoldable pub all_listed :
    {W : Type 0} → World W → State W → List ReportResource → Option (List Fields)
all_listed world s [] = some []
all_listed world s (resource ∷ resources) =
    let listed = list_reports world s resource in
    let rest = all_listed world listed.1 resources in
    elim listed.0 [
      | none ↦ none
      | some reports ↦ elim rest [ none ↦ none | some others ↦ some (reports ++ others) ]
    ]

same_object : {v w : Fields} → object v ≡ object w → v ≡ w
same_object e = cc e

module _ (f : Finding) where
  items_object :
      (items : Items)
      → Memᴰ f (findings_of_items items)
        ↔ ((vuln : Fields) × IsAmong vuln items × (f ≡ finding_from_vulnerability vuln))
  unfolding findings_of_items
  items_object nil = (λ m. absurd (Memᴰ.not-nil m), λ h. absurd h.1)
  items_object (cons (object v) items) =
      let ih = items_object items in
      (
        λ m. elim (Memᴰ.cases_cons m) [
          | inl e ↦ (v, inl refl, e)
          | inr later ↦ let (w, a, e) = ih.0 later in (w, inr a, e)
        ],
        λ h. elim h.1 [
          | inl e ↦ Memᴰ.head (h.2 ∙ ap finding_from_vulnerability (sym (same_object e)))
          | inr a ↦ Memᴰ.tail (ih.1 (h.0, a, h.2))
        ],
      )
  items_object (cons x items) =
      let ih = items_object items in
      (
        λ m. let (w, a, e) = ih.0 m in (w, inr a, e),
        λ h. elim h.1 [ inl e ↦ absurd (cc e) | inr a ↦ ih.1 (h.0, a, h.2) ],
      )

module _ (accessors : Accessors) (image : ImageRef) (f : Finding) where
  same_value : {A : Type 0} {x y : A} → some x ≡ some y → x ≡ y
  same_value h = cc h

  -- The finding is made of a vulnerability of this report.
  abbrev Within : Fields → Type 0
  Within report =
      (report_matches_image accessors report image ≡ true)
      × ((items : Items) × (accessors.nested_slice report
              (codes "report" ∷ codes "vulnerabilities" ∷ [])
            ≡ some items)
          × ((vuln : Fields) × IsAmong vuln items × (f ≡ finding_from_vulnerability vuln)))

  in_report :
      (report : Fields) (reports : List Fields)
      → Memᴰ f (findings_of_reports accessors image (report ∷ reports))
        ↔ (Within report ⊎ Memᴰ f (findings_of_reports accessors image reports))
  unfolding findings_of_reports extract_vulnerability_findings
  in_report report reports = elim (Bool-cases (report_matches_image accessors report image)) [
    | inr other ↦
        rw (other, findings_of_reports, extract_vulnerability_findings)
          (λ m. inr m, λ h. elim h [ inl w ↦ absurd (cc w.0) | inr m ↦ m ])
    | inl same ↦
        elim (Option-cases
          (accessors.nested_slice report (codes "report" ∷ codes "vulnerabilities" ∷ []))) [
            | inl e ↦
                rw (same, findings_of_reports, extract_vulnerability_findings)
                  (rw e (λ m. inr m, λ h. elim h [ inl w ↦ absurd (cc w.1.1) | inr m ↦ m ]))
            | inr (items, e) ↦
                let here = items_object f items in
                rw (same, findings_of_reports, extract_vulnerability_findings)
                  (rw e (
                    λ m. elim (Memᴰ.append_cases (findings_of_items items) m) [
                      | inl a ↦ inl (refl, (items, refl, here.0 a))
                      | inr b ↦ inr b
                    ],
                    λ h. elim h [
                      | inl w ↦ Memᴰ.append_left _ (
                          here.1 (
                            w.1.2.0,
                            subst (IsAmong w.1.2.0) (sym (same_value w.1.1)) w.1.2.1,
                            w.1.2.2,
                          ))
                      | inr m ↦ Memᴰ.append_right (findings_of_items items) m
                    ],
                  ))
          ]
  ]

  -- The findings of the reports are those that are made of a vulnerability in one that is the
  -- image's.
  pub findings_of_reports-IsSourced :
      (reports : List Fields)
      → Memᴰ f (findings_of_reports accessors image reports) ↔ IsSourced accessors image reports f
  unfolding findings_of_reports
  findings_of_reports-IsSourced [] = (λ m. absurd (Memᴰ.not-nil m), λ h. absurd (Memᴰ.not-nil h.1))
  findings_of_reports-IsSourced (report ∷ reports) =
      let ih = findings_of_reports-IsSourced reports in
      let c = in_report report reports in
      (
        λ m. elim (c.0 m) [
          | inl w ↦ (report, Memᴰ.head refl, w.0, w.1)
          | inr later ↦ let (r, at, same, rest) = ih.0 later in (r, Memᴰ.tail at, same, rest)
        ],
        λ h. elim (Memᴰ.cases_cons h.1) [
          | inl e ↦ c.1 (inl (subst Within e (h.2, h.3)))
          | inr later ↦ c.1 (inr (ih.1 (h.0, later, h.2, h.3)))
        ],
      )

module _ (accessors : Accessors) (image : ImageRef) where
  findings_of_reports-append :
      (xs ys : List Fields)
      → findings_of_reports accessors image (xs ++ ys)
        ≡ findings_of_reports accessors image xs ++ findings_of_reports accessors image ys
  unfolding findings_of_reports
  findings_of_reports-append [] ys = refl
  findings_of_reports-append (x ∷ xs) ys =
      elim (Option-cases (extract_vulnerability_findings accessors x image)) [
        | inl e ↦ rw (e, findings_of_reports) (findings_of_reports-append xs ys)
        | inr (fs, e) ↦
            rw (e, findings_of_reports)
              (ap (λ l. fs ++ l) (findings_of_reports-append xs ys) ∙ sym (append_assoc fs _ _))
      ]

  -- What is gathered are the findings of all reports that are listed.
  pub gather-all_listed :
      {W : Type 0} (world : World W) (resources : List ReportResource) (s : State W)
      → ((all_listed world s resources ≡ none)
          × ((gather accessors image world s resources).0 ≡ none))
        ⊎ ((reports : List Fields) × (all_listed world s resources ≡ some reports)
            × ((gather accessors image world s resources).0
                ≡ some (findings_of_reports accessors image reports)))
  unfolding gather all_listed findings_of_reports
  gather-all_listed world [] s = inr ([], refl, refl)
  gather-all_listed world (resource ∷ resources) s =
      elim (Option-cases (list_reports world s resource).0) [
        | inl e ↦ rw (e, gather, all_listed) (inl (refl, refl))
        | inr (reports, e) ↦
            elim (gather-all_listed world resources (list_reports world s resource).1) [
              | inl (a, b) ↦ rw (e, gather, all_listed) (rw (a, b) (inl (refl, refl)))
              | inr (others, a, b) ↦
                  rw (e, gather, all_listed)
                    (rw (a, b)
                      (inr (
                        reports ++ others,
                        refl,
                        ap some (sym (findings_of_reports-append reports others)),
                      )))
            ]
      ]
