-- ===== src/State/ConfigMap.antt =====
-- The store of internal/state/backends/configmap/store.go. The Kubernetes API, the library's
-- RetryOnConflict and the base64 encoding are parameters, and so are `read`, an entry's Unmarshal,
-- and `write`, its Marshal.
pub mod Updates
pub mod Kept
pub mod Reliable
pub mod Tests
use komodor_security_reporte.Prelude.{
  ℕ, ◌+◌, Bool, true, false, ◌||◌, ◌==◌, ltb, if◌then◌else◌, Option, none, some, [], ◌∷◌, ◌++◌,
}
use komodor_security_reporte.Prelude.Text.{Text, codes}
use komodor_security_reporte.Prelude.Int.{ℤ, pos, pos_part, leb_ℤ}
use komodor_security_reporte.Prelude.Dict.{Dict, lookup, put, remove}
use komodor_security_reporte.State.Entry.{Entry}
use komodor_security_reporte.State.Store.{Answer, failed, not_found, value, Store}

-- A ConfigMap with its resource version. A nil map of data is the empty one: both hold no key, and
-- Set fills both.
pub record ConfigMap : Type 0 where
  pub resource_version : ℕ
  pub contents : Dict Text

pub data Reply : Type 0 where
  get_failed missing : Reply
  got : ConfigMap → Reply

pub data Outcome : Type 0 where
  done conflict error : Outcome

-- The calls for the ConfigMap of this store. Their states are the cluster's: what other clients
-- write in between is part of a call.
pub record Api (S : Type 0) : Type 0 where
  pub get : S → Reply × S
  pub create : S → Dict Text → Outcome × S
  pub update : S → ConfigMap → Outcome × S

abbrev pub succeeded : Outcome → Bool
succeeded done = true
succeeded _ = false

module _ (encode : Text → Text) where
  unfoldable pub config_map_data_key : Text → Text
  config_map_data_key key = codes "state_" ++ encode key

-- isExpired
unfoldable pub is_expired : ℤ → Entry → ℕ → Bool
is_expired ttl e now =
    if leb_ℤ ttl (pos 0) || e.last_scanned_time == 0
    then false
    else ltb (e.last_scanned_time + pos_part ttl) now

module _ {S : Type 0} (api : Api S) where
  -- One try of Set.
  unfoldable pub try_set : Text → Text → S → Outcome × S
  try_set storage_key text s =
      let answer = api.get s in
      elim answer.0 [
        | get_failed ↦ (error, answer.1)
        | missing ↦ api.create answer.1 ((storage_key, text) ∷ [])
        | got cm ↦ api.update answer.1 (record cm { contents = put storage_key text cm.contents })
      ]

  -- One try of Delete.
  unfoldable pub try_delete : Text → S → Outcome × S
  try_delete storage_key s =
      let answer = api.get s in
      elim answer.0 [
        | get_failed ↦ (error, answer.1)
        | missing ↦ (done, answer.1)
        | got cm ↦ elim (lookup storage_key cm.contents) [
          | none ↦ (done, answer.1)
          | some text ↦
              api.update answer.1 (record cm { contents = remove storage_key cm.contents })
        ]
      ]

-- What RetryOnConflict makes of a function that may conflict.
abbrev pub Retry : Type 0 → Type 0
Retry S = (S → Outcome × S) → S → Outcome × S

module _ {S : Type 0} (api : Api S) (retry : Retry S) (encode : Text → Text)
    (read : Text → Option Entry) (write : Entry → Text) (ttl : ℤ) where
  unfoldable pub set : S → Text → Entry → ℤ → Bool × S
  unfolding config_map_data_key try_set
  set s key e expiration =
      let out = retry (try_set api (config_map_data_key encode key) (write e)) s in
      (succeeded out.0, out.1)

  unfoldable pub delete : S → Text → Bool × S
  unfolding config_map_data_key try_delete
  delete s key =
      let out = retry (try_delete api (config_map_data_key encode key)) s in
      (succeeded out.0, out.1)

  -- Get at the time `now`; it deletes an entry that has expired, whether or not that succeeds.
  unfoldable pub get : ℕ → S → Text → Answer × S
  unfolding config_map_data_key is_expired delete
  get now s key =
      let answer = api.get s in
      elim answer.0 [
        | get_failed ↦ (failed, answer.1)
        | missing ↦ (not_found, answer.1)
        | got cm ↦ elim (lookup (config_map_data_key encode key) cm.contents) [
          | none ↦ (not_found, answer.1)
          | some text ↦ elim (read text) [
            | none ↦ (failed, answer.1)
            | some e ↦
                if is_expired ttl e now
                then (not_found, (delete answer.1 key).1)
                else (value e, answer.1)
          ]
        ]
      ]

  unfoldable pub new_store : ℕ → Store S
  unfolding get set delete
  new_store now = record { get = get now; set = set; delete = delete }

  -- GetWithTTL: the entry, with the time to live of the store.
  unfoldable pub get_with_ttl : ℕ → S → Text → (Answer × ℤ) × S
  unfolding get
  get_with_ttl now s key =
      let answer = get now s key in
      elim answer.0 [ value e ↦ ((value e, ttl), answer.1) | other ↦ ((other, pos 0), answer.1) ]

-- NewBackend's default: a day.
unfoldable pub backend_ttl : ℤ → ℤ
backend_ttl ttl = if leb_ℤ ttl (pos 0) then pos 86_400_000_000_000 else ttl
