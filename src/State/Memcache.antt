-- ===== src/State/Memcache.antt =====
-- The store of internal/state/backends/memcache/store.go. The client of Memcache and the base64
-- encoding are parameters, and so are `read`, an entry's Unmarshal, and `write`, its Marshal.
pub mod Kept
pub mod Expiration
mod Tests
use komodor_security_reporte.Prelude.{
  ℕ, ◌/◌, ◌-◌, ◌^◌, Bool, true, false, ltb, if◌then◌else◌, Option, none, some, ◌++◌, ◌==◌,
}
use komodor_security_reporte.Prelude.Text.{Text, codes}
use komodor_security_reporte.Prelude.Int.{ℤ, pos, ltb_ℤ, leb_ℤ, pos_part}
use komodor_security_reporte.State.Entry.{Entry}
use komodor_security_reporte.State.Store.{Answer, failed, not_found, value, Store}
use komodor_security_reporte.State.Remote.{
  client_error, nothing, text, delete_error, is_deleted, Client,
}

abbrev pub max_int32 : ℕ
max_int32 = 2 ^ 31 - 1

-- durationToMemcacheExpiration, of a duration in nanoseconds
unfoldable pub duration_to_memcache_expiration : ℤ → ℕ
duration_to_memcache_expiration d =
    let seconds = pos_part d / 1_000_000_000 in
    if leb_ℤ d (pos 0)
    then 0
    else if seconds == 0
    then 1
    else if ltb max_int32 seconds
    then max_int32
    else seconds

module _ (encode : Text → Text) (key_prefix : Text) where
  unfoldable pub memcache_key : Text → Text
  memcache_key key = key_prefix ++ (codes ":state:" ++ encode key)

module _ {S : Type 0} (client : Client S) (encode : Text → Text) (key_prefix : Text)
    (read : Text → Option Entry) (write : Entry → Text) (ttl : ℤ) where
  unfoldable pub get : S → Text → Answer × S
  unfolding memcache_key
  get s key =
      let item = client.get s (memcache_key encode key_prefix key) in
      elim item.0 [
        | nothing ↦ (not_found, item.1)
        | client_error ↦ (failed, item.1)
        | text t ↦ elim (read t) [ none ↦ (failed, item.1) | some e ↦ (value e, item.1) ]
      ]

  -- Memcache does not tell the remaining time: it is the store's.
  unfoldable pub get_with_ttl : S → Text → (Answer × ℤ) × S
  unfolding get
  get_with_ttl s key =
      let answer = get s key in
      elim answer.0 [ value e ↦ ((value e, ttl), answer.1) | other ↦ ((other, pos 0), answer.1) ]

  unfoldable pub set : S → Text → Entry → ℤ → Bool × S
  unfolding memcache_key duration_to_memcache_expiration
  set s key e expiration =
      let expiry = if ltb_ℤ (pos 0) expiration then expiration else ttl in
      client.set s (memcache_key encode key_prefix key) (write e)
        (pos (duration_to_memcache_expiration expiry))

  unfoldable pub delete : S → Text → Bool × S
  unfolding memcache_key
  delete s key =
      let out = client.delete s (memcache_key encode key_prefix key) in (is_deleted out.0, out.1)

  unfoldable pub new_store : Store S
  unfolding get set delete
  new_store = record { get = get; set = set; delete = delete }
