-- ===== src/Metrics/Registered.antt =====
-- The registration of the metrics of internal/metrics/metrics.go.
use komodor_security_reporte.Prelude.{
  none, some, Bool, true, false, List, [], ◌∷◌, ◌≡◌, refl, ◌||◌, ◌&&◌, not, leb, ◌==◌, ℕ, ◌∙◌, ap,
  sym, if◌then◌else◌, Bool-cases, inl, inr,
}
use komodor_security_reporte.Prelude.Text.{
  Text, codes, text_eq, text_eq_sound, text_eq_refl, has_prefix, is_among,
}
use komodor_security_reporte.Metrics.{
  Metric, MetricRegistry, all_metrics, register_all, new_metrics,
}

abbrev is_letter : ℕ → Bool
is_letter c = (leb b'a' c && leb c b'z') || ((leb b'A' c && leb c b'Z') || c == b'_')

abbrev is_digit : ℕ → Bool
is_digit c = leb b'0' c && leb c b'9'

-- [a-zA-Z0-9_:]*
unfoldable pub is_name_rest : Text → Bool
is_name_rest [] = true
is_name_rest (c ∷ s) = (is_letter c || (is_digit c || c == b':')) && is_name_rest s

-- [a-zA-Z_:][a-zA-Z0-9_:]*
unfoldable pub is_metric_name : Text → Bool
unfolding is_name_rest
is_metric_name [] = false
is_metric_name (c ∷ s) = (is_letter c || c == b':') && is_name_rest s

-- [a-zA-Z0-9_]*
unfoldable pub is_label_rest : Text → Bool
is_label_rest [] = true
is_label_rest (c ∷ s) = (is_letter c || is_digit c) && is_label_rest s

-- [a-zA-Z_][a-zA-Z0-9_]*, without two underscores at the start and without the reserved `le` and
-- `quantile`.
unfoldable pub is_label_name : Text → Bool
unfolding is_label_rest text_eq has_prefix
is_label_name [] = false
is_label_name (c ∷ s) =
    is_letter c
    && (is_label_rest s
        && not (
            has_prefix (codes "__") (c ∷ s)
            || is_among (c ∷ s) (codes "le" ∷ codes "quantile" ∷ [])))

-- Each label is valid and stands once.
unfoldable pub are_labels : List Text → Bool
unfolding is_label_name text_eq
are_labels [] = true
are_labels (l ∷ ls) = is_label_name l && (not (is_among l ls) && are_labels ls)

-- What Prometheus requires of a metric.
unfoldable pub is_valid : Metric → Bool
unfolding is_metric_name are_labels
is_valid m = is_metric_name m.name && are_labels m.labels

-- What Prometheus documents of a registry: it refuses a metric whose name is taken, and it takes a
-- valid one whose name is free.
pub record IsRegistry {R : Type 0} (registry : MetricRegistry R) : Type 0 where
  pub refuses :
      (r : R) (m : Metric) → registry.has_name r m.name ≡ true → registry.register r m ≡ none
  pub takes :
      (r : R) (m : Metric)
      → is_valid m ≡ true
      → registry.has_name r m.name ≡ false
      → (next : R) × (registry.register r m ≡ some next)
        × ((name : Text)
            → registry.has_name next name ≡ (text_eq m.name name || registry.has_name r name))

-- Whether a metric of the list has the name.
unfoldable pub is_named : Text → List Metric → Bool
is_named name [] = false
is_named name (m ∷ ms) = text_eq m.name name || is_named name ms

-- No two metrics of the list share a name.
unfoldable pub are_distinct : List Metric → Bool
unfolding is_named
are_distinct [] = true
are_distinct (m ∷ ms) = if is_named m.name ms then false else are_distinct ms

unfoldable pub are_valid : List Metric → Bool
unfolding is_valid
are_valid [] = true
are_valid (m ∷ ms) = if is_valid m then are_valid ms else false

all_metrics_valid : are_valid all_metrics ≡ true
unfolding are_valid is_valid
all_metrics_valid = refl

first_valid :
    (m : Metric) (ms : List Metric)
    → are_valid (m ∷ ms) ≡ true
    → (is_valid m ≡ true) × (are_valid ms ≡ true)
unfolding are_valid
first_valid m ms = elim (Bool-cases (is_valid m)) [
  | inl e ↦ rw (are_valid, e) (λ h. (refl, h))
  | inr e ↦ rw (are_valid, e) (λ h. absurd (cc h))
]

all_metrics_distinct : are_distinct all_metrics ≡ true
unfolding are_distinct is_named text_eq
all_metrics_distinct = refl

first_named : is_named (codes "image_vuln_watcher_scans_total") all_metrics ≡ true
unfolding is_named text_eq
first_named = refl

or_second : (a b : Bool) → (a || b) ≡ true → a ≡ false → b ≡ true
or_second true b h e = cc
or_second false b h e = h

or_true : (a : Bool) → (a || true) ≡ true
or_true true = refl
or_true false = refl

or_shuffle : (a b c : Bool) → (b || (a || c)) ≡ ((a || b) || c)
or_shuffle true true c = refl
or_shuffle true false c = refl
or_shuffle false b c = refl

-- A name that is in a list without that of the metric is another one.
other_name :
    (m : Metric) (name : Text) (p : Text → Bool)
    → p m.name ≡ false
    → p name ≡ true
    → text_eq m.name name ≡ false
other_name m name p out within = elim (Bool-cases (text_eq m.name name)) [
  | inl same ↦ absurd (cc (sym out ∙ ap p (text_eq_sound m.name name same) ∙ within))
  | inr e ↦ e
]

module _ {R : Type 0} (registry : MetricRegistry R) (laws : IsRegistry registry) where
  -- Names that are free are all taken.
  register_all_takes :
      (ms : List Metric) (r : R)
      → are_valid ms ≡ true
      → are_distinct ms ≡ true
      → ((name : Text) → is_named name ms ≡ true → registry.has_name r name ≡ false)
      → (next : R) × (register_all registry ms r ≡ some next)
        × ((name : Text)
            → registry.has_name next name ≡ (is_named name ms || registry.has_name r name))
  unfolding register_all are_distinct is_named
  register_all_takes [] r = λ valid distinct is_free. (r, refl, λ name. refl)
  register_all_takes (m ∷ ms) r = elim (Bool-cases (is_named m.name ms)) [
    | inl e ↦ rw (are_distinct, e) (λ valid distinct is_free. absurd (cc distinct))
    | inr e ↦
        rw (are_distinct, e)
          (λ valid distinct is_free.
            let (here, later) = first_valid m ms valid in
            let (next, ok, names) =
              laws.takes r m here (is_free m.name (rw (text_eq_refl m.name) refl)) in
            let (last, done, last_names) = register_all_takes ms next later distinct (λ name h.
              names name
              ∙ rw (other_name m name (λ n. is_named n ms) e h)
                  (is_free name (rw h (or_true _)))) in
            (
              last,
              rw (register_all, ok) done,
              λ name.
                  last_names name
                  ∙ rw (names name) (
                      or_shuffle (text_eq m.name name) (is_named name ms)
                        (registry.has_name r name)),
            ))
  ]

  register_all_refuses :
      (ms : List Metric) (r : R) (name : Text)
      → are_valid ms ≡ true
      → is_named name ms ≡ true
      → registry.has_name r name ≡ true
      → register_all registry ms r ≡ none
  unfolding register_all is_named
  register_all_refuses [] r name valid named taken = absurd (cc named)
  register_all_refuses (m ∷ ms) r name valid named taken =
      elim (Bool-cases (registry.has_name r m.name)) [
        | inl e ↦ rw (register_all, laws.refuses r m e) refl
        | inr e ↦
            let (here, later) = first_valid m ms valid in
            let (next, ok, names) = laws.takes r m here e in
            rw (register_all, ok)
              (register_all_refuses ms next name later
                (or_second (text_eq m.name name) (is_named name ms) named
                  (other_name m name (registry.has_name r) e taken))
                (names name ∙ rw taken (or_true _)))
      ]

  -- Given a registry that refuses a metric whose name it has, and takes a valid one whose name it
  -- has not: NewMetrics registers its metrics, and no other name, where none of their names is there;
  -- in any other registry it panics, and so it does in one where it has been before.
  pub new_metrics-registers :
      (r : R)
      → (((name : Text) → is_named name all_metrics ≡ true → registry.has_name r name ≡ false)
          → (next : R) × (new_metrics registry r ≡ some next)
            × ((name : Text)
                → registry.has_name next name
                  ≡ (is_named name all_metrics || registry.has_name r name))
            × (new_metrics registry next ≡ none))
        × ((name : Text)
            → is_named name all_metrics ≡ true
            → registry.has_name r name ≡ true
            → new_metrics registry r ≡ none)
  unfolding new_metrics
  new_metrics-registers r = (
    λ is_free.
        let (next, ok, names) =
          register_all_takes all_metrics r all_metrics_valid all_metrics_distinct is_free in
        let first = codes "image_vuln_watcher_scans_total" in
        (
          next,
          ok,
          names,
          register_all_refuses all_metrics next first all_metrics_valid first_named
              (names first ∙ rw first_named refl),
        ),
    λ name named taken. register_all_refuses all_metrics r name all_metrics_valid named taken,
  )
