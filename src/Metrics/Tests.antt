-- ===== src/Metrics/Tests.antt =====
-- The metrics in an empty registry that keeps the names.
use komodor_security_reporte.Prelude.{
  none, some, Bool, true, false, List, [], ◌∷◌, ◌≡◌, refl, ◌||◌, if◌then◌else◌,
}
use komodor_security_reporte.Prelude.Text.{Text, text_eq}
use komodor_security_reporte.Metrics.{MetricRegistry, all_metrics, new_metrics}
use komodor_security_reporte.Metrics.Registered.{IsRegistry, is_named, new_metrics-registers}

abbrev has : List Text → Text → Bool
has [] name = false
has (taken ∷ r) name = text_eq taken name || has r name

abbrev names : MetricRegistry (List Text)
names = record {
  register = λ r m. if has r m.name then none else some (m.name ∷ r);
  has_name = has;
}

names-IsRegistry : IsRegistry names
names-IsRegistry = record {
  refuses = λ r m h. rw h refl;
  takes = λ r m valid h. (m.name ∷ r, rw h refl, λ name. refl);
}

new_metrics-registers_example :
    (((name : Text) → is_named name all_metrics ≡ true → has [] name ≡ false)
      → (next : List Text) × (new_metrics names [] ≡ some next)
        × ((name : Text) → has next name ≡ (is_named name all_metrics || has [] name))
        × (new_metrics names next ≡ none))
    × ((name : Text)
        → is_named name all_metrics ≡ true
        → has [] name ≡ true
        → new_metrics names [] ≡ none)
new_metrics-registers_example = new_metrics-registers names names-IsRegistry []
