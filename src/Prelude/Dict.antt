-- ===== src/Prelude/Dict.antt =====
-- Go maps with string keys, as association lists. The order of the bindings is not that of Go's
-- iteration, which is unspecified.
use mathlib.Core.Path.{◌≡◌, refl}
use mathlib.Core.Option.{Option, none, some}
use mathlib.Core.List.{List, [], ◌∷◌}
use native.Mathlib.Omega.{arith}
use komodor_security_reporte.Prelude.Tests.{if◌then◌else◌, Bool-cases}
use komodor_security_reporte.Prelude.Text.{Text, text_eq, text_eq_iff, text_eq_refl, text_eq_sound}
use mathlib.Core.Logic.{inl, ◌⊎◌, inr}

abbrev pub Dict {ℓ} : Type ℓ → Type ℓ
Dict V = List (Text × V)

module _ {ℓ} {V : Type ℓ} where
  -- m[k]
  unfoldable pub lookup : Text → Dict V → Option V
  lookup k [] = none
  lookup k ((j, v) ∷ m) = if text_eq j k then some v else lookup k m

  -- m[k] = v
  unfoldable pub put : Text → V → Dict V → Dict V
  put k v [] = (k, v) ∷ []
  put k v ((j, w) ∷ m) = let rest = put k v m in if text_eq j k then (k, v) ∷ m else (j, w) ∷ rest

  -- delete(m, k)
  unfoldable pub remove : Text → Dict V → Dict V
  remove k [] = []
  remove k ((j, w) ∷ m) = let rest = remove k m in if text_eq j k then rest else (j, w) ∷ rest

  pub lookup-put :
      (k j : Text) (v : V) (m : Dict V)
      → lookup j (put k v m) ≡ (if text_eq k j then some v else lookup j m)
  unfolding lookup put
  lookup-put k j v [] = refl
  lookup-put k j v ((i, w) ∷ m) =
      ground (arith, text_eq_iff k j, text_eq_iff i k, text_eq_iff i j, lookup-put k j v m)

  pub lookup-remove :
      (k j : Text) (m : Dict V) → lookup j (remove k m) ≡ (if text_eq k j then none else lookup j m)
  unfolding lookup remove
  lookup-remove k j [] = ground arith
  lookup-remove k j ((i, w) ∷ m) =
      ground (arith, text_eq_iff k j, text_eq_iff i k, text_eq_iff i j, lookup-remove k j m)

  -- Where a binding of the updated map comes from.
  pub lookup-put_cases :
      (k j : Text) (v : V) (m : Dict V) {x : V}
      → lookup j (put k v m) ≡ some x
      → ((k ≡ j) × (v ≡ x)) ⊎ (lookup j m ≡ some x)
  lookup-put_cases k j v m h = elim (Bool-cases (text_eq k j)) [
    | inl same ↦ inl (text_eq_sound k j same, ground (arith, lookup-put k j v m))
    | inr other ↦ inr (ground (arith, lookup-put k j v m))
  ]

  -- A bound name stays bound.
  pub lookup-put_bound :
      (k j : Text) (v : V) (m : Dict V) {x : V}
      → lookup j m ≡ some x
      → (y : V) × (lookup j (put k v m) ≡ some y)
  lookup-put_bound k j v m {x} h = elim (Bool-cases (text_eq k j)) [
    | inl same ↦ (v, ground (arith, lookup-put k j v m))
    | inr other ↦ (x, ground (arith, lookup-put k j v m))
  ]

  pub lookup-put_self : (k : Text) (v : V) (m : Dict V) → lookup k (put k v m) ≡ some v
  lookup-put_self k v m = rw lookup-put (rw (text_eq_refl k))
