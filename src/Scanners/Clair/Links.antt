-- ===== src/Scanners/Clair/Links.antt =====
-- When cveFromLinks of internal/scanners/clair/scanner.go cuts within a link.
use komodor_security_reporte.Prelude.{
  ℕ, ◌≡◌, ◌≤◌, refl, arith, inl, inr, Option, some, Option-cases, Bool-cases, List, [], ◌∷◌, length,
  map, drop, ap, sym, ◌∙◌, Memᴰ,
}
use komodor_security_reporte.Prelude.Text.{Text, codes, index_of}
use komodor_security_reporte.Prelude.Json.{Json, array, Items, nil, cons, Fields, get_field}
use komodor_security_reporte.Scanners.Result.{Finding}
use komodor_security_reporte.Scanners.Payload.{to_string, text_of}
use komodor_security_reporte.Scanners.Clair.{
  slice_from, cve_from_items, cve_from_links, first_cve, finding_of, findings_of, finding_with,
  is_cve,
}

-- A text is found within a text.
index_of-le : (sub s : Text) (i : ℕ) → index_of sub s ≡ some i → i ≤ length s
unfolding index_of
index_of-le sub [] i = λ h. ground arith
index_of-le sub (c ∷ s) i = elim (Option-cases (index_of sub s)) [
  | inl e ↦ rw (e, index_of) (λ h. ground arith)
  | inr (j, e) ↦ let ih = index_of-le sub s j e in rw (e, index_of) (λ h. ground (arith, ih))
]

module _ (upper_case : Text → Text) where
  -- The upper case of each link is as long as the link, as it is for ASCII.
  abbrev pub KeepLengths : Items → Type 0
  KeepLengths nil = Unit
  KeepLengths (cons item items) =
      (length (upper_case (to_string (some item))) ≡ length (to_string (some item)))
      × KeepLengths items

  abbrev pub KeepLinks : Option Json → Type 0
  KeepLinks (some (array items)) = KeepLengths items
  KeepLinks _ = Unit

  slice_from-some :
      (i : ℕ) (value : Text) → i ≤ length value → (out : Text) × (slice_from i value ≡ some out)
  unfolding slice_from
  slice_from-some i value h = (drop i value, ground arith)

  cve_from_items-some :
      (items : Items)
      → KeepLengths items
      → (cve : Text) × (cve_from_items upper_case items ≡ some cve)
  unfolding cve_from_items
  cve_from_items-some nil h = (_, refl)
  cve_from_items-some (cons item items) h =
      let value = to_string (some item) in
      elim (Option-cases (index_of (codes "CVE-") (upper_case value))) [
        | inl e ↦ rw (e, cve_from_items) (cve_from_items-some items h.1)
        | inr (i, e) ↦
            rw (e, cve_from_items)
              (slice_from-some i value
                (omega (arith, h.0, index_of-le (codes "CVE-") (upper_case value) i e)))
      ]

  cve_from_links-some :
      (links : Option Json)
      → KeepLinks links
      → (cve : Text) × (cve_from_links upper_case links ≡ some cve)
  unfolding cve_from_links
  cve_from_links-some (some (array items)) h = cve_from_items-some items h
  cve_from_links-some _ h = (_, refl)

  pub finding_of-some :
      (v : Fields)
      → KeepLinks (get_field (codes "links") v)
      → (cve : Text) × (finding_of upper_case v ≡ some (finding_with cve v))
  unfolding finding_of first_cve
  finding_of-some v h = elim (Bool-cases (is_cve (text_of v (codes "cve")))) [
    | inl e ↦ (text_of v (codes "cve"), rw (finding_of, first_cve, e) refl)
    | inr e ↦ elim (Bool-cases (is_cve (text_of v (codes "CVE")))) [
      | inl f ↦ (text_of v (codes "CVE"), rw (finding_of, first_cve, e, f) refl)
      | inr f ↦
          let (cve, g) = cve_from_links-some (get_field (codes "links") v) h in
          (cve, rw (finding_of, first_cve, e, f, g) refl)
    ]
  ]

  -- Where no link changes its length, there is a finding for each object.
  pub findings_of_all :
      (vs : List Fields)
      → ((v : Fields) → Memᴰ v vs → KeepLinks (get_field (codes "links") v))
      → (findings : List Finding) × (findings_of upper_case vs ≡ some findings)
        × (map some findings ≡ map (finding_of upper_case) vs)
  unfolding findings_of
  findings_of_all [] h = ([], refl, refl)
  findings_of_all (v ∷ vs) h =
      let (cve, e) = finding_of-some v (h v (Memᴰ.head refl)) in
      let (rest, f, g) = findings_of_all vs (λ w m. h w (Memᴰ.tail m)) in
      (
        finding_with cve v ∷ rest,
        rw (findings_of, e, f) refl,
        ap (λ l. some (finding_with cve v) ∷ l) g
            ∙ ap (λ x. x ∷ map (finding_of upper_case) vs) (sym e),
      )
