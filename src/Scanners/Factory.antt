-- ===== src/Scanners/Factory.antt =====
-- internal/scanners/registry.go. A factory is a function of the scanner's configuration and of its
-- scoped settings; it returns `none` for an error.
pub mod Laws
use komodor_security_reporte.Prelude.{
  ℕ, Bool, true, false, not, Option, none, some, List, [], ◌∷◌, if◌then◌else◌,
}
use komodor_security_reporte.Prelude.Int.{ℤ}
use komodor_security_reporte.Prelude.Text.{Text}
use komodor_security_reporte.Prelude.Dict.{Dict, lookup, put}

-- config.ScannerConfig; its remaining settings are read through the scope only.
pub record ScannerConfig : Type 0 where
  pub name : Text
  pub kind : Text
  pub enabled : Bool

-- A scope or a timeout that is `nil` is `none`.
abbrev pub ScannerFactory : Type 0 → Type 0 → Type 0
ScannerFactory S V = ScannerConfig → Option V → Option (S × Option ℤ)

abbrev pub Scopes : Type 0 → Type 0
Scopes V = List (Option V)

module _ {V : Type 0} where
  -- `scannerScopes[i]` if `i < len(scannerScopes)`, for the scopes from `i` on
  abbrev pub scope_at : Scopes V → Option V
  scope_at [] = none
  scope_at (scope ∷ _) = scope

  abbrev pub scopes_after : Scopes V → Scopes V
  scopes_after [] = []
  scopes_after (_ ∷ scopes) = scopes

module _ {S V : Type 0} where
  -- RegisterScanner
  unfoldable pub register_scanner :
      Text → ScannerFactory S V → Dict (ScannerFactory S V) → Dict (ScannerFactory S V)
  register_scanner kind factory factories = put kind factory factories

abbrev pub put_timeout : Text → Option ℤ → Dict ℤ → Dict ℤ
put_timeout name none timeouts = timeouts
put_timeout name (some d) timeouts = put name d timeouts

module _ {S V : Type 0} (factories : Dict (ScannerFactory S V)) where
  -- The loop of CreateScannerRegistry, over the configurations and scopes that are left.
  unfoldable pub create_from :
      List ScannerConfig → Scopes V → Dict S → Dict ℤ → Option (Dict S × Dict ℤ)
  create_from [] scopes registry timeouts = some (registry, timeouts)
  create_from (cfg ∷ cfgs) scopes registry timeouts =
      let skip = create_from cfgs (scopes_after scopes) registry timeouts in
      if not cfg.enabled then skip else elim (lookup cfg.kind factories) [
        | none ↦ skip
        | some factory ↦ elim (factory cfg (scope_at scopes)) [
          | none ↦ none
          | some (scanner, timeout) ↦
              create_from cfgs (scopes_after scopes) (put cfg.name scanner registry)
                (put_timeout cfg.name timeout timeouts)
        ]
      ]

  unfoldable pub create_scanner_registry : List ScannerConfig → Scopes V → Option (Dict S × Dict ℤ)
  unfolding create_from
  create_scanner_registry cfgs scopes = create_from cfgs scopes [] []
