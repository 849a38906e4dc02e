-- ===== src/State/Factory.antt =====
-- The choice of a state backend in internal/state/backends/factory.go, with the settings of each
-- backend that the packages below it check.
use komodor_security_reporte.Prelude.{◌⊎◌, inl, inr, Option, none, some, if◌then◌else◌, not}
use komodor_security_reporte.Prelude.Text.{Text, codes, text_eq, is_empty, trim_space}
use komodor_security_reporte.Prelude.Int.{ℤ}
use komodor_security_reporte.Config.Mode.{normalize_state_backend}

-- What the settings decode to, each `none` if that fails: the ConfigMap's names under
-- `configMapName` and `configmap.configMapName`, the memory's limit, and the addresses of the
-- servers.
pub record Settings : Type 0 where
  pub config_map_name : Option (Text × Text)
  pub max_entries : Option ℤ
  pub redis_address : Option Text
  pub memcache_address : Option Text

pub data BackendError : Type 0 where
  not_decoded no_redis_address no_memcache_address unsupported : BackendError

pub data Chosen : Type 0 where
  config_map : Text → Text → Chosen
  memory : ℤ → Chosen
  redis memcache : Text → Chosen

-- ParseConfig of internal/state/backends/configmap, which has a default.
unfoldable pub parse_config_map : Settings → BackendError ⊎ Text
parse_config_map settings = elim settings.config_map_name [
  | none ↦ inl not_decoded
  | some (name, nested) ↦ inr (
      if not (is_empty name)
      then name
      else if not (is_empty nested)
      then nested
      else codes "komodor-security-reporter-state")
]

-- ParseConfig of internal/state/backends/redis
unfoldable pub parse_redis : Settings → BackendError ⊎ Text
parse_redis settings = elim settings.redis_address [
  | none ↦ inl not_decoded
  | some address ↦ if is_empty (trim_space address) then inl no_redis_address else inr address
]

-- ParseConfig of internal/state/backends/memcache
unfoldable pub parse_memcache : Settings → BackendError ⊎ Text
parse_memcache settings = elim settings.memcache_address [
  | none ↦ inl not_decoded
  | some address ↦ if is_empty (trim_space address) then inl no_memcache_address else inr address
]

-- What is made of the parsed settings
abbrev pub chosen_by : {A : Type 0} → (A → Chosen) → BackendError ⊎ A → BackendError ⊎ Chosen
chosen_by make (inl e) = inl e
chosen_by make (inr a) = inr (make a)

abbrev pub parse_memory : Settings → BackendError ⊎ ℤ
parse_memory settings = elim settings.max_entries [ none ↦ inl not_decoded | some n ↦ inr n ]

-- New
unfoldable pub new : Text → Settings → Text → BackendError ⊎ Chosen
unfolding normalize_state_backend parse_config_map parse_redis parse_memcache
new backend settings namespace =
    let b = normalize_state_backend backend in
    if text_eq b (codes "configmap")
    then chosen_by (config_map namespace) (parse_config_map settings)
    else if text_eq b (codes "memory")
    then chosen_by memory (parse_memory settings)
    else if text_eq b (codes "redis")
    then chosen_by redis (parse_redis settings)
    else if text_eq b (codes "memcache")
    then chosen_by memcache (parse_memcache settings)
    else inl unsupported
