-- ===== src/Policy/Stability.antt =====
-- What fingerprints tell apart, and what the decision of EvaluatePublish depends on.
use mathlib.Core.List.{Perm, Permᴰ, List, []}
use mathlib.Core.List.Perm
use mathlib.Core.Path.{ap₂}
use mathlib.Core.Logic.{∥∥₁_elim}
use komodor_security_reporte.Prelude.Sort.{sort_texts-perm, Texts-set}
use komodor_security_reporte.Policy.Evaluator.{
  collect_cves, extract_cves, fingerprint_input, fingerprint, evaluate_publish, write_cves,
  write_counts, bar, comma,
}
use komodor_security_reporte.Scanners.Result.{ScanResult, Finding, VulnerabilitySummary}
use komodor_security_reporte.Prelude.Text.{
  Text, is_empty, append_cancel, codes, split_unique, text_eq_iff,
}
use komodor_security_reporte.Prelude.{
  Bool-cases, if◌then◌else◌, not, subst, inl, ◌∷◌, inr, ◌≡◌, ◌++◌, sym, ℕ, ◌↔◌, ◌<◌, ◌∙◌,
  append_assoc, ◌⊎◌, arith, refl, Bool, ap, false, true,
}
use komodor_security_reporte.Prelude.Decimal.{decimal, contains_byte-decimal, decimal_injective}

cves_of : Finding → List Text → List Text
cves_of f rest = if not (is_empty f.cve) then f.cve ∷ rest else rest

cves_of_comm :
    (f g : Finding) (l : List Text) → Perm (cves_of f (cves_of g l)) (cves_of g (cves_of f l))
unfolding cves_of
cves_of_comm f g l = elim (Bool-cases (is_empty f.cve)) [
  | inl e ↦ rw e (Perm.refl _)
  | inr e ↦ elim (Bool-cases (is_empty g.cve)) [
    | inl e' ↦ rw (e, e') (Perm.refl _)
    | inr e' ↦ rw (e, e') (Perm.swap g.cve f.cve l)
  ]
]

cves_of-perm : (f : Finding) {k l : List Text} → Perm k l → Perm (cves_of f k) (cves_of f l)
unfolding cves_of
cves_of-perm f p = elim (Bool-cases (is_empty f.cve)) [
  | inl e ↦ rw e p
  | inr e ↦ rw e (Perm.cons f.cve p)
]

collect_cves-permᴰ : {fs gs : List Finding} → Permᴰ fs gs → Perm (collect_cves fs) (collect_cves gs)
unfolding collect_cves cves_of
collect_cves-permᴰ Permᴰ.nil = Perm.refl []
collect_cves-permᴰ (Permᴰ.cons {a = a} {l₁ = l₁} {l₂ = l₂} e p) =
    subst (λ f. Perm (cves_of a (collect_cves l₁)) (cves_of f (collect_cves l₂))) e
      (cves_of-perm a (collect_cves-permᴰ p))
collect_cves-permᴰ (Permᴰ.swap {a = a} {b = b} {l = l} e f) =
    subst (λ l'. Perm (cves_of a (cves_of b (collect_cves l))) l')
      (ap₂ (λ x y. cves_of x (cves_of y (collect_cves l))) f e) (cves_of_comm a b (collect_cves l))
collect_cves-permᴰ (Permᴰ.trans p q) = Perm.trans (collect_cves-permᴰ p) (collect_cves-permᴰ q)

extract_cves-perm : {fs gs : List Finding} → Perm fs gs → extract_cves fs ≡ extract_cves gs
unfolding extract_cves
extract_cves-perm p = ∥∥₁_elim p (Texts-set _ _) (λ d. sort_texts-perm (collect_cves-permᴰ d))

-- The order in which a scanner lists its findings does not show in the fingerprint.
fingerprint_order :
    (hash : Text → Text) (r : ScanResult) (findings : List Finding)
    → Perm r.findings findings
    → fingerprint hash (record r { findings = findings }) ≡ fingerprint hash r
unfolding fingerprint fingerprint_input
fingerprint_order hash r findings p = rw (extract_cves-perm p)

-- A printed count and its separator can be read back from a text.
count_step :
    (c m n : ℕ) (x y : Text)
    → (c < b'0') ⊎ (b'9' < c)
    → decimal m ++ c ∷ x ≡ decimal n ++ c ∷ y
    → (m ≡ n) × (x ≡ y)
count_step c m n x y h e =
    let (front, back) =
      split_unique c (decimal m) (decimal n) x y (contains_byte-decimal c m h)
        (contains_byte-decimal c n h) e in
    (decimal_injective m n front, back)

-- The counts of a result, as they are written, before the text `x`.
abbrev counts_then : VulnerabilitySummary → (ℕ → Text) → Text
counts_then vs last =
    decimal vs.critical
    ++ comma
      ∷ (decimal vs.high
          ++ comma ∷ (decimal vs.medium ++ comma ∷ (decimal vs.low ++ comma ∷ last vs.unknown)))

write_counts_then :
    (vs : VulnerabilitySummary) (c : ℕ) (x : Text)
    → c ≡ bar
    → write_counts vs ++ x ≡ counts_then vs (λ n. decimal n ++ c ∷ x)
unfolding write_counts
write_counts_then vs c x e = rw e (simp append_assoc)

-- Equal counts can be read back from what is hashed, whatever follows them.
write_counts_injective :
    (a b : VulnerabilitySummary) (x y : Text)
    → write_counts a ++ x ≡ write_counts b ++ y
    → (a ≡ b) × (x ≡ y)
write_counts_injective a b x y e =
    let w = sym (write_counts_then a bar x refl) ∙ (e ∙ write_counts_then b bar y refl) in
    let (c, e₁) = count_step comma a.critical b.critical _ _ (inl (omega arith)) w in
    let (h, e₂) = count_step comma a.high b.high _ _ (omega arith) e₁ in
    let (m, e₃) = count_step comma a.medium b.medium _ _ (omega arith) e₂ in
    let (l, e₄) = count_step comma a.low b.low _ _ (omega arith) e₃ in
    let (u, rest) = count_step bar a.unknown b.unknown x y (inr (omega arith)) e₄ in
    (ground arith, rest)

-- Where the hash does not collide on the two inputs, results of one scanner for one digest have
-- equal fingerprints exactly when their counts agree and so do the sorted CVEs, as written.
pub fingerprint_exact :
    (hash : Text → Text) (r q : ScanResult)
    → (hash (fingerprint_input r) ≡ hash (fingerprint_input q)
        → fingerprint_input r ≡ fingerprint_input q)
    → r.scanner ≡ q.scanner
    → r.image.digest ≡ q.image.digest
    → (fingerprint hash r ≡ fingerprint hash q) ↔ (
        (r.summary ≡ q.summary)
        × (write_cves (extract_cves r.findings) ≡ write_cves (extract_cves q.findings)))
unfolding fingerprint fingerprint_input
fingerprint_exact hash r q separates s d =
    let tail = λ (x : ScanResult). write_counts x.summary ++ write_cves (extract_cves x.findings) in
    let after = λ (x : ScanResult). bar ∷ (x.image.digest ++ (bar ∷ tail x)) in
    (
      λ e.
          let inputs : r.scanner ++ after r ≡ q.scanner ++ after q =
            separates (append_cancel (codes "sha256:") _ _ e) in
          let e₁ =
            append_cancel r.scanner (after r) (after q) (inputs ∙ ap (λ t. t ++ after q) (sym s)) in
          let e₂ =
            append_cancel (bar ∷ r.image.digest) (bar ∷ tail r) (bar ∷ tail q)
              (e₁ ∙ ap (λ t. bar ∷ (t ++ (bar ∷ tail q))) (sym d)) in
          write_counts_injective r.summary q.summary _ _ (append_cancel (bar ∷ []) _ _ e₂),
      λ (counts, cves). cc,
    )

-- The decision to publish: it is withheld exactly when only changes are to be published, and the
-- fingerprint of the last publication is known and the same.
evaluate_publish_exact :
    (hash : Text → Text) (r : ScanResult) (last : Text) (only_on_change : Bool)
    → (evaluate_publish hash r last only_on_change ≡ false)
      ↔ ((only_on_change ≡ true) × (is_empty last ≡ false) × (fingerprint hash r ≡ last))
unfolding evaluate_publish
evaluate_publish_exact hash r last only = (
  λ h. (ground arith, ground arith, ground (arith, text_eq_iff (fingerprint hash r) last)),
  λ h. ground (arith, text_eq_iff (fingerprint hash r) last),
)
