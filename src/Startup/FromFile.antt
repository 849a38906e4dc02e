-- ===== src/Startup/FromFile.antt =====
-- loadAndValidateConfig of cmd/komodor-security-reporter/main.go on a file that
-- internal/config/loader.go loads.
use komodor_security_reporte.Prelude.{
  Option, none, some, ◌⊎◌, inl, inr, ◌≡◌, refl, Option-cases, Sum-cases,
}
use komodor_security_reporte.Config.Loader.{
  LoadedConfig, load_from_file, LoadError, Viper, new_loader,
}
use komodor_security_reporte.Startup.{
  load_and_validate_config, Floats, Config, Text, StartError, validate, config_not_loaded,
  ConfigError, invalid_with_override,
}
use komodor_security_reporte.Config.Loader.Effective.{finish_loading_exact}

-- What main.go takes from the loader.
unfoldable pub loaded_config : {F V : Type 0} → LoadError ⊎ LoadedConfig F V → Option (Config F)
loaded_config (inl e) = none
loaded_config (inr c) = some c.config

module _ {F V : Type 0} (floats : Floats F) (viper : Viper F V) (path : Text) where
  -- The configuration of the file is valid.
  load_from_file_valid :
      (c : LoadedConfig F V)
      → load_from_file floats viper path ≡ inr c
      → validate floats c.config ≡ none
  unfolding load_from_file
  load_from_file_valid c =
      elim (Sum-cases
        (viper.read_in_config (viper.set_config_file (new_loader floats viper) path))) [
          | inl (message, e) ↦ rw (load_from_file, e) (λ h. cc h)
          | inr (w, e) ↦ rw (load_from_file, e) (λ h. (finish_loading_exact floats viper w c h).2)
        ]

  -- What the program runs with: the configuration of the file, or that with the mode of the flag,
  -- once it is valid. The configuration of the file is not found to be invalid a second time.
  abbrev pub Outcome : Option Text → StartError ⊎ Config F → Type 0
  Outcome flag (inl e) =
      ((e ≡ config_not_loaded) × ((l : LoadError) × (load_from_file floats viper path ≡ inl l)))
      ⊎ ((x : ConfigError) × (mode : Text) × (c : LoadedConfig F V) × (e ≡ invalid_with_override x)
          × (flag ≡ some mode)
          × (load_from_file floats viper path ≡ inr c)
          × (validate floats (record c.config { publishing_mode = mode }) ≡ some x))
  Outcome flag (inr config) =
      (validate floats config ≡ none)
      × ((c : LoadedConfig F V) × (load_from_file floats viper path ≡ inr c)
          × (config ≡ elim flag as (λ _. Config F) [
            | none ↦ c.config
            | some mode ↦ record c.config { publishing_mode = mode }
          ]))

  -- loadAndValidateConfig on a file fails just when the loader does, or when the mode of the flag
  -- makes the configuration invalid; else it gives the configuration of the file with that mode,
  -- which is valid.
  load_and_validate_config-load_from_file :
      (flag : Option Text)
      → Outcome flag
          (load_and_validate_config floats (loaded_config (load_from_file floats viper path)) flag)
  unfolding load_and_validate_config loaded_config
  load_and_validate_config-load_from_file flag =
      elim (Sum-cases (load_from_file floats viper path)) [
        | inl (l, e) ↦ rw e (inl (refl, (l, e)))
        | inr (c, e) ↦
            let valid = load_from_file_valid c e in
            elim (Option-cases flag) [
              | inl f ↦ rw (e, load_and_validate_config, valid, f) (valid, (c, e, refl))
              | inr (mode, f) ↦
                  elim (Option-cases
                    (validate floats (record c.config { publishing_mode = mode }))) [
                      | inl v ↦ rw (e, load_and_validate_config, valid, f, v) (v, (c, e, refl))
                      | inr (x, v) ↦
                          rw (e, load_and_validate_config, valid, f, v)
                            (inr (x, mode, c, refl, refl, e, v))
                    ]
            ]
      ]
