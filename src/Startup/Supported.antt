-- ===== src/Startup/Supported.antt =====
-- What a valid configuration means for the start in cmd/komodor-security-reporter/main.go.
use komodor_security_reporte.Prelude.{
  ◌≡◌, ◌≢◌, refl, ◌⊎◌, inl, inr, arith, Option, none, some, Option-cases, Bool, true, false,
  Bool-cases, not, ◌&&◌,
}
use komodor_security_reporte.Prelude.Text.{Text, text_eq, codes, is_empty, trim_space}
use komodor_security_reporte.Config.Mode.{
  publish_to_komodor, publish_to_events, normalize_state_backend,
}
use komodor_security_reporte.Config.Runtime.{Floats}
use komodor_security_reporte.Config.Validate.{
  Config, ConfigError, validate, validate_state_backend, validate_outputs, and_then, reject_if,
  no_publisher, validate_workload_kinds, validate_scanners,
}
use komodor_security_reporte.State.Factory.{
  Settings, BackendError, unsupported, Chosen, new, parse_config_map, parse_redis, parse_memcache,
  chosen_by, config_map, parse_memory, memory, redis, memcache,
}

-- The settings of a backend fail for other reasons than the backend's name.
chosen_by-supported :
    {A : Type 0} (make : A → Chosen) (parsed : BackendError ⊎ A)
    → parsed ≢ inl unsupported
    → chosen_by make parsed ≢ inl unsupported
chosen_by-supported make (inl e) h = λ k. h (cc k)
chosen_by-supported make (inr a) h = λ k. cc k

parse_config_map-supported : (settings : Settings) → parse_config_map settings ≢ inl unsupported
unfolding parse_config_map
parse_config_map-supported settings = elim (Option-cases settings.config_map_name) [
  | inl e ↦ rw (e, parse_config_map) (λ k. cc k)
  | inr (names, e) ↦ rw (e, parse_config_map) (λ k. cc k)
]

parse_memory-supported : (settings : Settings) → parse_memory settings ≢ inl unsupported
parse_memory-supported settings = elim (Option-cases settings.max_entries) [
  | inl e ↦ rw e (λ k. cc k)
  | inr (n, e) ↦ rw e (λ k. cc k)
]

parse_redis-supported : (settings : Settings) → parse_redis settings ≢ inl unsupported
unfolding parse_redis
parse_redis-supported settings = elim (Option-cases settings.redis_address) [
  | inl e ↦ rw (e, parse_redis) (λ k. cc k)
  | inr (address, e) ↦ elim (Bool-cases (is_empty (trim_space address))) [
    | inl b ↦ rw (e, parse_redis) (rw b (λ k. cc k))
    | inr b ↦ rw (e, parse_redis) (rw b (λ k. cc k))
  ]
]

parse_memcache-supported : (settings : Settings) → parse_memcache settings ≢ inl unsupported
unfolding parse_memcache
parse_memcache-supported settings = elim (Option-cases settings.memcache_address) [
  | inl e ↦ rw (e, parse_memcache) (λ k. cc k)
  | inr (address, e) ↦ elim (Bool-cases (is_empty (trim_space address))) [
    | inl b ↦ rw (e, parse_memcache) (rw b (λ k. cc k))
    | inr b ↦ rw (e, parse_memcache) (rw b (λ k. cc k))
  ]
]

pub new-supported :
    (backend namespace : Text) (settings : Settings)
    → validate_state_backend backend ≡ none
    → new backend settings namespace ≢ inl unsupported
unfolding new validate_state_backend
new-supported backend namespace settings h =
    let b = normalize_state_backend backend in
    elim (Bool-cases (text_eq b (codes "configmap"))) [
      | inl e ↦
          rw (e, new)
            (chosen_by-supported (config_map namespace) _ (parse_config_map-supported settings))
      | inr e ↦ elim (Bool-cases (text_eq b (codes "memory"))) [
        | inl f ↦
            rw (e, new) (rw f (chosen_by-supported memory _ (parse_memory-supported settings)))
        | inr f ↦ elim (Bool-cases (text_eq b (codes "redis"))) [
          | inl g ↦
              rw (e, new)
                (rw f (rw g (chosen_by-supported redis _ (parse_redis-supported settings))))
          | inr g ↦ elim (Bool-cases (text_eq b (codes "memcache"))) [
            | inl m ↦
                rw (e, new)
                  (rw f (
                    rw g
                      (rw m (chosen_by-supported memcache _ (parse_memcache-supported settings)))))
            | inr m ↦ ground (arith, h)
          ]
        ]
      ]
    ]

both_none : (a b : Option ConfigError) → and_then a b ≡ none → (a ≡ none) × (b ≡ none)
unfolding and_then
both_none none b h = (refl, h)
both_none (some e) b h = cc h

not_rejected : (b : Bool) (e : ConfigError) → reject_if b e ≡ none → b ≡ false
not_rejected true e h = cc h
not_rejected false e h = refl

some_outlet : (k e : Bool) → (not k && not e) ≡ false → (k ≡ true) ⊎ (e ≡ true)
some_outlet true e h = inl refl
some_outlet false true h = inr refl
some_outlet false false h = cc h

-- What is checked of the outputs.
outputs_checked :
    {F : Type 0} (floats : Floats F) (c : Config F)
    → validate_outputs floats c ≡ none
    → (validate_state_backend c.state_backend ≡ none)
      × ((publish_to_komodor c.publishing_mode ≡ true)
          ⊎ (publish_to_events c.publishing_mode ≡ true))
unfolding validate_outputs
outputs_checked floats c h =
    let after_ttl = both_none _ _ h in
    let after_backend = both_none (validate_state_backend c.state_backend) _ after_ttl.1 in
    let after_mode = both_none _ _ after_backend.1 in
    let after_url = both_none _ _ after_mode.1 in
    (
      after_backend.0,
      some_outlet (publish_to_komodor c.publishing_mode) (publish_to_events c.publishing_mode)
          (not_rejected _ no_publisher after_url.1),
    )

pub valid_checked :
    {F : Type 0} (floats : Floats F) (c : Config F)
    → validate floats c ≡ none
    → (validate_state_backend c.state_backend ≡ none)
      × ((publish_to_komodor c.publishing_mode ≡ true)
          ⊎ (publish_to_events c.publishing_mode ≡ true))
unfolding validate
valid_checked floats c h =
    let after_name = both_none _ _ h in
    let after_kinds = both_none (validate_workload_kinds c.kinds) _ after_name.1 in
    let after_scanners =
      both_none (validate_scanners floats c.scanners) (validate_outputs floats c) after_kinds.1 in
    outputs_checked floats c after_scanners.1
