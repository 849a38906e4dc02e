-- ===== src/State/Redis/Kept.antt =====
-- The store of internal/state/backends/redis/store.go on a server whose calls succeed.
use komodor_security_reporte.Prelude.{
  ◌≡◌, inl, inr, refl, ap, ◌∙◌, Option, none, some, Option-cases, if◌then◌else◌, ◌++◌,
}
use komodor_security_reporte.Prelude.Text.{Text, codes, text_eq, text_eq_injective, append_cancel}
use komodor_security_reporte.Prelude.Int.{ℤ}
use komodor_security_reporte.State.Entry.{Entry}
use komodor_security_reporte.State.Backend.{IsReliable}
use komodor_security_reporte.State.Store.{
  Store, PassesOn, loaded_of, new_backend, new_backend-IsReliable, expiration_option, texts-Keeps,
}
use komodor_security_reporte.State.Remote.{Client, IsQuiet, reply_of, answer_of}
use komodor_security_reporte.State.Redis.{redis_key, get, set, delete, new_store}

redis_key-eq :
    (encode : Text → Text)
    → ((k j : Text) → encode k ≡ encode j → k ≡ j)
    → (key_prefix k j : Text)
    → text_eq (redis_key encode key_prefix k) (redis_key encode key_prefix j) ≡ text_eq k j
unfolding redis_key
redis_key-eq encode injective key_prefix = text_eq_injective (redis_key encode key_prefix) (λ k j e.
    injective k j (
      append_cancel (codes ":state:") (encode k) (encode j)
        (append_cancel key_prefix (codes ":state:" ++ encode k) (codes ":state:" ++ encode j) e)))

module _ {S : Type 0} (client : Client S) (held : S → Text → Option Text)
    (quiet : IsQuiet client held) (encode : Text → Text)
    (injective : (k j : Text) → encode k ≡ encode j → k ≡ j) (key_prefix : Text)
    (read : Text → Option Entry) (write : Entry → Text) where
  getting_held :
      (s : S) (k : Text) {h : Option Text} → held s k ≡ h → client.get s k ≡ (reply_of h, s)
  getting_held s k e = quiet.getting s k ∙ ap (λ h. (reply_of h, s)) e

  get_lem :
      (ttl : ℤ) (k : Text) (s : S)
      → get client encode key_prefix read write ttl s k
        ≡ (answer_of read (held s (redis_key encode key_prefix k)), s)
  unfolding get answer_of
  get_lem ttl k s = elim (Option-cases (held s (redis_key encode key_prefix k))) [
    | inl e ↦ rw (getting_held s _ e, get) (rw (getting_held s _ e) (rw e))
    | inr (t, e) ↦ elim (Option-cases (read t)) [
      | inl r ↦
          rw (getting_held s _ e, get) (rw r (rw (getting_held s _ e) (rw e (rw (r, answer_of)))))
      | inr (old, r) ↦
          rw (getting_held s _ e, get) (rw r (rw (getting_held s _ e) (rw e (rw (r, answer_of)))))
    ]
  ]

  delete_lem :
      (ttl : ℤ) (k j : Text) (s : S)
      → held (delete client encode key_prefix read write ttl s k).1 (redis_key encode key_prefix j)
        ≡ (if text_eq k j then none else held s (redis_key encode key_prefix j))
  unfolding delete
  delete_lem ttl k j s =
      quiet.deleting s (redis_key encode key_prefix k) (redis_key encode key_prefix j)
      ∙ rw (redis_key-eq encode injective key_prefix k j)

  set_lem :
      (ttl : ℤ) (k j : Text) (e : Entry) (expiration : ℤ) (s : S)
      → held
          (set client encode key_prefix read write ttl s k e expiration).1
          (redis_key encode key_prefix j)
        ≡ (if text_eq k j then some (write e) else held s (redis_key encode key_prefix j))
  unfolding set
  set_lem ttl k j e expiration s =
      quiet.setting s (redis_key encode key_prefix k) (redis_key encode key_prefix j) (write e) _
      ∙ rw (redis_key-eq encode injective key_prefix k j)

  -- The Redis backend is reliable while the server's calls succeed, nothing expires and there is no
  -- other client: a reader gets what was written last under its key, as it is read back, and
  -- nothing else changes. Different keys have different encodings, and the cache hands its calls
  -- on.
  pub redis-IsReliable :
      (new_cache : Store S → Store S)
      → PassesOn new_cache
      → (ttl : ℤ)
      → IsReliable
          (new_backend new_cache (new_store client encode key_prefix read write ttl) ttl)
          (λ e. loaded_of (answer_of read (some (write e))))
  unfolding new_store answer_of
  redis-IsReliable new_cache passes ttl =
      let store = new_store client encode key_prefix read write ttl in
      new_backend-IsReliable new_cache passes store ttl (λ e. answer_of read (some (write e)))
        (texts-Keeps store (expiration_option ttl) write (answer_of read)
          (λ s k. held s (redis_key encode key_prefix k)) refl
          (λ k s. ap (λ out. out.0) (get_lem ttl k s))
          (λ k j e. set_lem ttl k j e (expiration_option ttl)) (delete_lem ttl)
          (λ k j s.
            ap (λ out. answer_of read (held out.1 (redis_key encode key_prefix j)))
              (get_lem ttl k s)))
