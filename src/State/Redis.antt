-- ===== src/State/Redis.antt =====
-- The store of internal/state/backends/redis/store.go. The client of Redis and the base64 encoding
-- are parameters, and so are `read`, an entry's Unmarshal, and `write`, its Marshal.
pub mod Kept
pub mod Clear
mod Tests
use komodor_security_reporte.Prelude.{
  ℕ, zero, suc, Bool, true, false, not, ◌==◌, if◌then◌else◌, Option, none, some, List, [], ◌∷◌,
  ◌++◌,
}
use komodor_security_reporte.Prelude.Text.{Text, codes}
use komodor_security_reporte.Prelude.Int.{ℤ, pos, ltb_ℤ}
use komodor_security_reporte.State.Entry.{Entry}
use komodor_security_reporte.State.Store.{Answer, failed, not_found, value, Store}
use komodor_security_reporte.State.Remote.{
  client_error, nothing, text, Deletion, delete_error, is_deleted, Client,
}

-- What SCAN returns: the keys of a page and the next cursor.
pub data Scanned : Type 0 where
  scan_error : Scanned
  page : List Text → ℕ → Scanned

-- The calls of a Redis client beside those of `Client`.
pub record Commands (S : Type 0) : Type 0 where
  pub ttl_of : S → Text → Option ℤ × S
  pub scan : S → ℕ → Text → Scanned × S
  pub delete_all : S → List Text → Bool × S

-- How Clear ends.
pub data Cleared : Type 0 where
  cleared scan_failed delete_failed out_of_fuel : Cleared

module _ (encode : Text → Text) (key_prefix : Text) where
  unfoldable pub redis_key : Text → Text
  redis_key key = key_prefix ++ (codes ":state:" ++ encode key)

module _ {S : Type 0} (client : Client S) (encode : Text → Text) (key_prefix : Text)
    (read : Text → Option Entry) (write : Entry → Text) (ttl : ℤ) where
  unfoldable pub get : S → Text → Answer × S
  unfolding redis_key
  get s key =
      let data_reply = client.get s (redis_key encode key_prefix key) in
      elim data_reply.0 [
        | client_error ↦ (failed, data_reply.1)
        | nothing ↦ (not_found, data_reply.1)
        | text t ↦ elim (read t) [
          | none ↦ (failed, data_reply.1)
          | some e ↦ (value e, data_reply.1)
        ]
      ]

  -- The time to live falls back to the store's.
  unfoldable pub get_with_ttl : Commands S → S → Text → (Answer × ℤ) × S
  unfolding redis_key
  get_with_ttl commands s key =
      let data_reply = client.get s (redis_key encode key_prefix key) in
      elim data_reply.0 [
        | client_error ↦ ((failed, pos 0), data_reply.1)
        | nothing ↦ ((not_found, pos 0), data_reply.1)
        | text t ↦ elim (read t) [
          | none ↦ ((failed, pos 0), data_reply.1)
          | some e ↦
              let left = commands.ttl_of data_reply.1 (redis_key encode key_prefix key) in
              elim left.0 [
                | none ↦ ((value e, ttl), left.1)
                | some remaining ↦ ((value e, remaining), left.1)
              ]
        ]
      ]

  unfoldable pub set : S → Text → Entry → ℤ → Bool × S
  unfolding redis_key
  set s key e expiration =
      let expiry = if ltb_ℤ (pos 0) expiration then expiration else ttl in
      client.set s (redis_key encode key_prefix key) (write e) expiry

  unfoldable pub delete : S → Text → Bool × S
  unfolding redis_key
  delete s key =
      let out = client.delete s (redis_key encode key_prefix key) in (is_deleted out.0, out.1)

  unfoldable pub new_store : Store S
  unfolding get set delete
  new_store = record { get = get; set = set; delete = delete }

module _ {S : Type 0} (commands : Commands S) where
  -- The keys of a page are deleted, if there are any.
  unfoldable pub delete_page : List Text → S → Bool × S
  delete_page [] s = (true, s)
  delete_page (k ∷ ks) s = commands.delete_all s (k ∷ ks)

  -- The loop of Clear, from a cursor
  unfoldable pub clear_from : ℕ → Text → S → ℕ → Cleared × S
  unfolding delete_page
  clear_from zero pattern s cursor = (out_of_fuel, s)
  clear_from (suc fuel) pattern s cursor =
      let out = commands.scan s cursor pattern in
      elim out.0 [
        | scan_error ↦ (scan_failed, out.1)
        | page keys next ↦
            let emptied = delete_page keys out.1 in
            let rest = clear_from fuel pattern emptied.1 next in
            if not emptied.0
            then (delete_failed, emptied.1)
            else if next == 0
            then (cleared, emptied.1)
            else rest
      ]

  unfoldable pub clear : ℕ → Text → S → Cleared × S
  unfolding clear_from
  clear fuel key_prefix s = clear_from fuel (key_prefix ++ codes ":state:*") s 0
