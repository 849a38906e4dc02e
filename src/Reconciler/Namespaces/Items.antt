-- ===== src/Reconciler/Namespaces/Items.antt =====
-- The workloads of namespaces as items of a list, for ReconcileAll of
-- internal/reconciler/reconcile.go.
use komodor_security_reporte.Reconciler.Images.{WorkloadInfo}
use komodor_security_reporte.Prelude.{ℕ, ◌≡◌, List, [], ◌∷◌, length, tally, arith, refl}
use komodor_security_reporte.Prelude.Text.{Text}

-- Each item stands in the two lists equally often: they have the same weight, whatever each item
-- weighs.
abbrev pub SameItems : {A : Type 0} → List A → List A → Type 0
SameItems {A} xs ys = (w : A → ℕ) → tally w xs ≡ tally w ys

abbrev pub one : Text × WorkloadInfo → ℕ
one x = 1

-- The workloads of a list with their namespace.
abbrev pub in_namespace : Text → List WorkloadInfo → List (Text × WorkloadInfo)
in_namespace ns [] = []
in_namespace ns (wl ∷ wls) = (ns, wl) ∷ in_namespace ns wls

pub tally-in_namespace :
    (ns : Text) (wls : List WorkloadInfo) → tally one (in_namespace ns wls) ≡ length wls
tally-in_namespace ns [] = refl
tally-in_namespace ns (wl ∷ wls) = omega (arith, tally-in_namespace ns wls)

pub tally-one : (xs : List (Text × WorkloadInfo)) → tally one xs ≡ length xs
tally-one [] = refl
tally-one (x ∷ xs) = omega (arith, tally-one xs)
