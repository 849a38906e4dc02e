-- ===== src/Startup/Checked.antt =====
-- What the start in cmd/komodor-security-reporter/main.go makes sure of.
use komodor_security_reporte.Prelude.{
  ◌≡◌, ◌≢◌, refl, ◌⊎◌, inl, inr, Option, none, some, Option-cases, true, false, Bool-cases, subst,
  ◌∙◌, ap,
}
use komodor_security_reporte.Prelude.Text.{Text, is_empty}
use komodor_security_reporte.Config.Mode.{publish_to_komodor, publish_to_events}
use komodor_security_reporte.Config.Runtime.{Floats}
use komodor_security_reporte.Config.Validate.{Config, validate}
use komodor_security_reporte.Komodor.Client.{Client}
use komodor_security_reporte.State.Factory.{unsupported, new}
use komodor_security_reporte.Startup.{
  Components, StartError, load_and_validate_config, setup_publisher, load_komodor_api_key,
  no_state_store, Host, setup_runtime_components, start, state_store_namespace,
}
use komodor_security_reporte.Startup.Supported.{new-supported, valid_checked}

-- The publisher is there just if the mode publishes to Komodor, and else the mode publishes events.
abbrev pub HasOutlet : {F : Type 0} → Components F → Type 0
HasOutlet components =
    ((publish_to_komodor components.config.publishing_mode ≡ true)
      × ((client : Client) × (components.publisher ≡ some client)))
    ⊎ ((publish_to_events components.config.publishing_mode ≡ true) × (components.publisher ≡ none))

-- An outcome of the start: no error that the state backend is unsupported, or else components with
-- a valid configuration and an outlet.
abbrev pub IsSound : {F : Type 0} → Floats F → StartError ⊎ Components F → Type 0
IsSound floats (inl e) = e ≢ no_state_store unsupported
IsSound floats (inr components) = (validate floats components.config ≡ none) × HasOutlet components

-- The configuration is valid, if there is one.
abbrev IsLoaded : {F : Type 0} → Floats F → StartError ⊎ Config F → Type 0
IsLoaded floats (inl e) = e ≢ no_state_store unsupported
IsLoaded floats (inr c) = validate floats c ≡ none

load-IsLoaded :
    {F : Type 0} (floats : Floats F) (loaded : Option (Config F)) (flag : Option Text)
    → IsLoaded floats (load_and_validate_config floats loaded flag)
unfolding load_and_validate_config
load-IsLoaded floats none flag = λ k. cc k
load-IsLoaded floats (some c) flag = elim (Option-cases (validate floats c)) [
  | inr (e, v) ↦ rw (v, load_and_validate_config) (λ k. cc k)
  | inl v ↦ elim (Option-cases flag) [
    | inl f ↦ rw (v, load_and_validate_config) (rw f v)
    | inr (mode, f) ↦ elim (Option-cases (validate floats (record c { publishing_mode = mode }))) [
      | inl w ↦ rw (v, load_and_validate_config) (rw f (rw w w))
      | inr (e, w) ↦ rw (v, load_and_validate_config) (rw f (rw w (λ k. cc k)))
    ]
  ]
]

-- The publisher that the mode asks for.
abbrev IsPublisherOf : {F : Type 0} → Config F → StartError ⊎ Option Client → Type 0
IsPublisherOf c (inl e) = e ≢ no_state_store unsupported
IsPublisherOf c (inr none) = publish_to_komodor c.publishing_mode ≡ false
IsPublisherOf c (inr (some client)) = publish_to_komodor c.publishing_mode ≡ true

setup_publisher-IsPublisherOf :
    {F : Type 0} (host : Host) (c : Config F) → IsPublisherOf c (setup_publisher host c)
unfolding setup_publisher load_komodor_api_key
setup_publisher-IsPublisherOf host c = elim (Bool-cases (publish_to_komodor c.publishing_mode)) [
  | inr p ↦ rw (p, setup_publisher) p
  | inl p ↦ elim (Bool-cases (is_empty host.api_key)) [
    | inl k ↦ rw (p, setup_publisher) (rw k (λ e. cc e))
    | inr k ↦
        elim (Option-cases
          (host.validate_key (record { base_url = c.komodor_base_url; api_key = host.api_key }))) [
            | inl v ↦ rw (p, setup_publisher) (rw k (rw v p))
            | inr (e, v) ↦ rw (p, setup_publisher) (rw k (rw v (λ e. cc e)))
          ]
  ]
]

Either-cases : {A B : Type 0} (x : A ⊎ B) → ((a : A) × (x ≡ inl a)) ⊎ ((b : B) × (x ≡ inr b))
Either-cases (inl a) = inl (a, refl)
Either-cases (inr b) = inr (b, refl)

outlet_of :
    {F : Type 0} (c : Config F) (publisher : Option Client)
    → (publish_to_komodor c.publishing_mode ≡ true) ⊎ (publish_to_events c.publishing_mode ≡ true)
    → IsPublisherOf c (inr publisher)
    → ((publish_to_komodor c.publishing_mode ≡ true)
        × ((client : Client) × (publisher ≡ some client)))
      ⊎ ((publish_to_events c.publishing_mode ≡ true) × (publisher ≡ none))
outlet_of c (some client) some_mode p = inl (p, (client, refl))
outlet_of c none some_mode p = elim some_mode [ inl k ↦ cc (k, p) | inr e ↦ inr (e, refl) ]

setup-IsSound :
    {F : Type 0} (floats : Floats F) (host : Host) (c : Config F)
    → validate floats c ≡ none
    → IsSound floats (setup_runtime_components host c)
unfolding setup_runtime_components
setup-IsSound floats host c v =
    let checked = valid_checked floats c v in
    let published = setup_publisher-IsPublisherOf host c in
    let namespace = state_store_namespace host.pod_namespace host.state_namespace in
    elim (Bool-cases host.scanners_created) [
      | inr s ↦ rw (s, setup_runtime_components) (λ k. cc k)
      | inl s ↦ elim (Either-cases (setup_publisher host c)) [
        | inl (e, p) ↦ rw (s, setup_runtime_components) (rw p (subst (IsPublisherOf c) p published))
        | inr (publisher, p) ↦ elim (Bool-cases host.clientset_created) [
          | inr k ↦ rw (s, setup_runtime_components) (rw p (rw k (λ k. cc k)))
          | inl k ↦ elim (Either-cases (new c.state_backend host.settings namespace)) [
            | inl (e, n) ↦
                rw (s, setup_runtime_components)
                  (rw p (
                    rw k (
                      rw n (λ u.
                        new-supported c.state_backend namespace host.settings checked.0
                          (n ∙ ap inl (cc u))))))
            | inr (store, n) ↦
                rw (s, setup_runtime_components)
                  (rw p (
                    rw k (
                      rw n (
                        v,
                        outlet_of c publisher checked.1 (subst (IsPublisherOf c) p published),
                      ))))
          ]
        ]
      ]
    ]

-- However the program starts, it does not fail for an unsupported state backend, which the
-- validation has excluded, also under a mode of the command line; and if it starts, its
-- configuration is valid, and it has the publisher, or else the mode publishes events.
pub start-IsSound :
    {F : Type 0} (floats : Floats F) (host : Host) (loaded : Option (Config F)) (flag : Option Text)
    → IsSound floats (start floats host loaded flag)
unfolding start
start-IsSound floats host loaded flag =
    let checked = load-IsLoaded floats loaded flag in
    elim (Either-cases (load_and_validate_config floats loaded flag)) [
      | inl (e, l) ↦ rw (l, start) (subst (IsLoaded floats) l checked)
      | inr (c, l) ↦ rw (l, start) (setup-IsSound floats host c (subst (IsLoaded floats) l checked))
    ]
