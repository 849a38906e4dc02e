-- ===== src/Scanners/Factory/Laws.antt =====
-- What CreateScannerRegistry of internal/scanners/registry.go registers.
use komodor_security_reporte.Prelude.{
  true, false, Option, none, some, List, [], ◌∷◌, ◌≡◌, refl, arith, inl, inr, ◌⊎◌, Bool-cases, sym,
  Option-cases, ◌∙◌,
}
use komodor_security_reporte.Prelude.Int.{ℤ}
use komodor_security_reporte.Prelude.Text.{Text}
use komodor_security_reporte.Prelude.Dict.{
  Dict, lookup, put, lookup-put_bound, lookup-put_cases, lookup-put_self,
}
use komodor_security_reporte.Scanners.Factory.{
  ScannerConfig, ScannerFactory, Scopes, scope_at, scopes_after, create_from,
  create_scanner_registry, put_timeout,
}

module _ {S V : Type 0} (factories : Dict (ScannerFactory S V)) where
  -- Some enabled configuration of the list has this name, and its factory made this scanner from
  -- the scope at the same place.
  pub data Makes (name : Text) (scanner : S) : List ScannerConfig → Scopes V → Type 0 where
    makes_here :
        {cfg : ScannerConfig} {cfgs : List ScannerConfig} {scopes : Scopes V}
        (factory : ScannerFactory S V) (timeout : Option ℤ)
        → cfg.enabled ≡ true
        → cfg.name ≡ name
        → lookup cfg.kind factories ≡ some factory
        → factory cfg (scope_at scopes) ≡ some (scanner, timeout)
        → Makes name scanner (cfg ∷ cfgs) scopes
    makes_later :
        {cfg : ScannerConfig} {cfgs : List ScannerConfig} {scopes rest : Scopes V}
        → rest ≡ scopes_after scopes
        → Makes name scanner cfgs rest
        → Makes name scanner (cfg ∷ cfgs) scopes

  -- One round of the loop, by what the configuration contributes.
  skipped :
      (cfg : ScannerConfig) (cfgs : List ScannerConfig) (scopes : Scopes V) (registry : Dict S)
      (timeouts : Dict ℤ)
      → (cfg.enabled ≡ false) ⊎ (lookup cfg.kind factories ≡ none)
      → create_from factories (cfg ∷ cfgs) scopes registry timeouts
        ≡ create_from factories cfgs (scopes_after scopes) registry timeouts
  unfolding create_from
  skipped cfg cfgs scopes registry timeouts h = ground arith

  made :
      (cfg : ScannerConfig) (cfgs : List ScannerConfig) (scopes : Scopes V) (registry : Dict S)
      (timeouts : Dict ℤ) (factory : ScannerFactory S V) (scanner : S) (timeout : Option ℤ)
      → cfg.enabled ≡ true
      → lookup cfg.kind factories ≡ some factory
      → factory cfg (scope_at scopes) ≡ some (scanner, timeout)
      → create_from factories (cfg ∷ cfgs) scopes registry timeouts
        ≡ create_from factories cfgs
            (scopes_after scopes)
            (put cfg.name scanner registry)
            (put_timeout cfg.name timeout timeouts)
  unfolding create_from
  made cfg cfgs scopes registry timeouts factory scanner timeout e l f = rw (e, l, f)

  failed :
      (cfg : ScannerConfig) (cfgs : List ScannerConfig) (scopes : Scopes V) (registry : Dict S)
      (timeouts : Dict ℤ) (factory : ScannerFactory S V)
      → cfg.enabled ≡ true
      → lookup cfg.kind factories ≡ some factory
      → factory cfg (scope_at scopes) ≡ none
      → create_from factories (cfg ∷ cfgs) scopes registry timeouts ≡ none
  unfolding create_from
  failed cfg cfgs scopes registry timeouts factory e l f = rw (e, l, f)

  -- The four things that a round can do.
  data Round (cfg : ScannerConfig) (scopes : Scopes V) : Type 0 where
    skips : (cfg.enabled ≡ false) ⊎ (lookup cfg.kind factories ≡ none) → Round cfg scopes
    makes :
        (factory : ScannerFactory S V) (scanner : S) (timeout : Option ℤ)
        → cfg.enabled ≡ true
        → lookup cfg.kind factories ≡ some factory
        → factory cfg (scope_at scopes) ≡ some (scanner, timeout)
        → Round cfg scopes
    fails :
        (factory : ScannerFactory S V)
        → cfg.enabled ≡ true
        → lookup cfg.kind factories ≡ some factory
        → factory cfg (scope_at scopes) ≡ none
        → Round cfg scopes

  round : (cfg : ScannerConfig) (scopes : Scopes V) → Round cfg scopes
  round cfg scopes = elim (Bool-cases cfg.enabled) [
    | inr off ↦ skips (inl off)
    | inl on ↦ elim (Option-cases (lookup cfg.kind factories)) [
      | inl unregistered ↦ skips (inr unregistered)
      | inr (factory, l) ↦ elim (Option-cases (factory cfg (scope_at scopes))) [
        | inl f ↦ fails factory on l f
        | inr ((scanner, timeout), f) ↦ makes factory scanner timeout on l f
      ]
    ]
  ]

  create_from_sound :
      (cfgs : List ScannerConfig) (scopes : Scopes V) (registry : Dict S) (timeouts : Dict ℤ)
      {out : Dict S} {out_timeouts : Dict ℤ} (name : Text) (scanner : S)
      → create_from factories cfgs scopes registry timeouts ≡ some (out, out_timeouts)
      → lookup name out ≡ some scanner
      → (lookup name registry ≡ some scanner) ⊎ Makes name scanner cfgs scopes
  unfolding create_from
  create_from_sound [] scopes registry timeouts name scanner h l = inl (ground arith)
  create_from_sound (cfg ∷ cfgs) scopes registry timeouts name scanner h l =
      elim (round cfg scopes) [
        | skips e ↦
            elim (create_from_sound cfgs (scopes_after scopes) registry timeouts name scanner
              (sym (skipped cfg cfgs scopes registry timeouts e) ∙ h) l) [
                | inl old ↦ inl old
                | inr m ↦ inr (makes_later refl m)
              ]
        | makes factory made_scanner timeout on e f ↦
            elim (create_from_sound cfgs (scopes_after scopes) (put cfg.name made_scanner registry)
              (put_timeout cfg.name timeout timeouts) name scanner
              (sym (made cfg cfgs scopes registry timeouts factory made_scanner timeout on e f) ∙ h)
              l) [
                | inr m ↦ inr (makes_later refl m)
                | inl now ↦ elim (lookup-put_cases cfg.name name made_scanner registry now) [
                  | inl (same, eq) ↦ inr (makes_here factory timeout on same e (cc (f, eq)))
                  | inr old ↦ inl old
                ]
              ]
        | fails factory on e f ↦ cc (failed cfg cfgs scopes registry timeouts factory on e f)
      ]

  create_from_keeps :
      (cfgs : List ScannerConfig) (scopes : Scopes V) (registry : Dict S) (timeouts : Dict ℤ)
      {out : Dict S} {out_timeouts : Dict ℤ} (name : Text) {x : S}
      → create_from factories cfgs scopes registry timeouts ≡ some (out, out_timeouts)
      → lookup name registry ≡ some x
      → (y : S) × (lookup name out ≡ some y)
  unfolding create_from
  create_from_keeps [] scopes registry timeouts name {x} h l = (x, ground arith)
  create_from_keeps (cfg ∷ cfgs) scopes registry timeouts name h l = elim (round cfg scopes) [
    | skips e ↦
        create_from_keeps cfgs (scopes_after scopes) registry timeouts name
          (sym (skipped cfg cfgs scopes registry timeouts e) ∙ h) l
    | makes factory scanner timeout on e f ↦
        create_from_keeps cfgs (scopes_after scopes) (put cfg.name scanner registry)
          (put_timeout cfg.name timeout timeouts) name
          (sym (made cfg cfgs scopes registry timeouts factory scanner timeout on e f) ∙ h)
          (lookup-put_bound cfg.name name scanner registry l).1
    | fails factory on e f ↦ cc (failed cfg cfgs scopes registry timeouts factory on e f)
  ]

  -- Some enabled configuration of the list has this name and a registered type.
  pub data Wants (name : Text) : List ScannerConfig → Type 0 where
    wants_here :
        {cfg : ScannerConfig} {cfgs : List ScannerConfig} (factory : ScannerFactory S V)
        → cfg.enabled ≡ true
        → cfg.name ≡ name
        → lookup cfg.kind factories ≡ some factory
        → Wants name (cfg ∷ cfgs)
    wants_later :
        {cfg : ScannerConfig} {cfgs : List ScannerConfig}
        → Wants name cfgs
        → Wants name (cfg ∷ cfgs)

  create_from_complete :
      (cfgs : List ScannerConfig) (scopes : Scopes V) (registry : Dict S) (timeouts : Dict ℤ)
      {out : Dict S} {out_timeouts : Dict ℤ} (name : Text)
      → create_from factories cfgs scopes registry timeouts ≡ some (out, out_timeouts)
      → Wants name cfgs
      → (y : S) × (lookup name out ≡ some y)
  create_from_complete [] scopes registry timeouts name h w = elim w [ ]
  create_from_complete (cfg ∷ cfgs) scopes registry timeouts name h
        (wants_here wanted o same known) =
      elim (round cfg scopes) [
        | skips e ↦ absurd (ground arith)
        | makes factory scanner timeout on e f ↦
            create_from_keeps cfgs (scopes_after scopes) (put cfg.name scanner registry)
              (put_timeout cfg.name timeout timeouts) name {x = scanner}
              (sym (made cfg cfgs scopes registry timeouts factory scanner timeout on e f) ∙ h)
              (cc (lookup-put_self cfg.name scanner registry, same))
        | fails factory on e f ↦ cc (failed cfg cfgs scopes registry timeouts factory on e f)
      ]
  create_from_complete (cfg ∷ cfgs) scopes registry timeouts name h (wants_later w) =
      elim (round cfg scopes) [
        | skips e ↦
            create_from_complete cfgs (scopes_after scopes) registry timeouts name
              (sym (skipped cfg cfgs scopes registry timeouts e) ∙ h) w
        | makes factory scanner timeout on e f ↦
            create_from_complete cfgs (scopes_after scopes) (put cfg.name scanner registry)
              (put_timeout cfg.name timeout timeouts) name
              (sym (made cfg cfgs scopes registry timeouts factory scanner timeout on e f) ∙ h) w
        | fails factory on e f ↦ cc (failed cfg cfgs scopes registry timeouts factory on e f)
      ]

  -- What is registered under a name was made, by the factory of its type, from an enabled
  -- configuration of that name and the scope at the same place; and every enabled configuration of
  -- a registered type has a scanner under its name.
  pub create_scanner_registry_exact :
      (cfgs : List ScannerConfig) (scopes : Scopes V) {out : Dict S} {timeouts : Dict ℤ}
      (name : Text)
      → create_scanner_registry factories cfgs scopes ≡ some (out, timeouts)
      → ((scanner : S) → lookup name out ≡ some scanner → Makes name scanner cfgs scopes)
        × (Wants name cfgs → (scanner : S) × (lookup name out ≡ some scanner))
  unfolding create_scanner_registry lookup
  create_scanner_registry_exact cfgs scopes name h = (
    λ scanner l. elim (create_from_sound cfgs scopes [] [] name scanner h l) [
      | inl nothing ↦ cc nothing
      | inr m ↦ m
    ],
    create_from_complete cfgs scopes [] [] name h,
  )
