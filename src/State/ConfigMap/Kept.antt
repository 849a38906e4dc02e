-- ===== src/State/ConfigMap/Kept.antt =====
-- The store of internal/state/backends/configmap/store.go as the only client of a cluster whose
-- calls succeed.
use komodor_security_reporte.Prelude.{
  ◌≡◌, inl, inr, refl, Bool-cases, ap, ◌∙◌, sym, Option, none, some, Option-cases, [], ◌∷◌, ℕ,
  if◌then◌else◌,
}
use komodor_security_reporte.Prelude.Text.{
  Text, text_eq, text_eq_sound, text_eq_injective, append_cancel, codes,
}
use komodor_security_reporte.Prelude.Int.{ℤ}
use komodor_security_reporte.Prelude.Dict.{Dict, lookup, put, remove, lookup-put, lookup-remove}
use komodor_security_reporte.State.Entry.{Entry}
use komodor_security_reporte.State.Store.{Answer, failed, not_found, value, Keeps, texts-Keeps}
use komodor_security_reporte.State.ConfigMap.{
  ConfigMap, Reply, missing, got, Outcome, done, Api, Retry, config_map_data_key, try_set,
  try_delete, set, delete, get, new_store, is_expired,
}

abbrev pub reply_of : Option ConfigMap → Reply
reply_of none = missing
reply_of (some cm) = got cm

abbrev pub contents_of : Option ConfigMap → Dict Text
contents_of none = []
contents_of (some cm) = cm.contents

-- An API whose calls succeed, where `held` is the ConfigMap that the cluster holds. No other client
-- writes it.
pub record IsQuiet {S : Type 0} (api : Api S) (held : S → Option ConfigMap) : Type 0 where
  pub getting : (s : S) → api.get s ≡ (reply_of (held s), s)
  pub creating :
      (s : S) (d : Dict Text)
      → held s ≡ none
      → ((api.create s d).0 ≡ done) × (contents_of (held (api.create s d).1) ≡ d)
  pub updating :
      (s : S) (cm : ConfigMap) (d : Dict Text)
      → held s ≡ some cm
      → ((api.update s (record cm { contents = d })).0 ≡ done)
        × (contents_of (held (api.update s (record cm { contents = d })).1) ≡ d)

-- RetryOnConflict tries once where the first try succeeds.
abbrev pub IsDoneAtOnce : {S : Type 0} → Retry S → Type 0
IsDoneAtOnce {S} retry = (f : S → Outcome × S) (s : S) → (f s).0 ≡ done → retry f s ≡ f s

-- Different keys have different encodings.
abbrev pub IsInjective : (Text → Text) → Type 0
IsInjective encode = (k j : Text) → encode k ≡ encode j → k ≡ j

-- What the store answers for the text under a key.
unfoldable pub answer_of : (Text → Option Entry) → ℤ → ℕ → Option Text → Answer
unfolding is_expired
answer_of read ttl now none = not_found
answer_of read ttl now (some text) = elim (read text) [
  | none ↦ failed
  | some e ↦ if is_expired ttl e now then not_found else value e
]

module _ {S : Type 0} (api : Api S) (held : S → Option ConfigMap) (quiet : IsQuiet api held) where
  -- The text under a key of the ConfigMap
  abbrev text_at : S → Text → Option Text
  text_at s key = lookup key (contents_of (held s))

  getting_held : (s : S) {h : Option ConfigMap} → held s ≡ h → api.get s ≡ (reply_of h, s)
  getting_held s e = quiet.getting s ∙ ap (λ h. (reply_of h, s)) e

  try_set_lem :
      (key text j : Text) (s : S)
      → ((try_set api key text s).0 ≡ done)
        × (text_at (try_set api key text s).1 j
            ≡ (if text_eq key j then some text else text_at s j))
  unfolding try_set
  try_set_lem key text j s = elim (Option-cases (held s)) [
    | inl e ↦
        rw (getting_held s e, try_set)
          (rw (getting_held s e) (
            rw e (
              (quiet.creating s ((key, text) ∷ []) e).0,
              rw (quiet.creating s ((key, text) ∷ []) e).1 (unfold lookup in refl),
            )))
    | inr (cm, e) ↦
        rw (getting_held s e, try_set)
          (rw (getting_held s e) (
            rw e (
              (quiet.updating s cm (put key text cm.contents) e).0,
              rw (quiet.updating s cm (put key text cm.contents) e).1
                  (lookup-put key j text cm.contents),
            )))
  ]

  -- A key that is not there is not there after it is removed.
  no_text :
      (key j : Text) (d : Dict Text)
      → lookup key d ≡ none
      → lookup j d ≡ (if text_eq key j then none else lookup j d)
  no_text key j d h = elim (Bool-cases (text_eq key j)) [
    | inl e ↦ rw e (ap (λ i. lookup i d) (sym (text_eq_sound key j e)) ∙ h)
    | inr e ↦ rw e
  ]

  try_delete_lem :
      (key j : Text) (s : S)
      → ((try_delete api key s).0 ≡ done)
        × (text_at (try_delete api key s).1 j ≡ (if text_eq key j then none else text_at s j))
  unfolding try_delete
  try_delete_lem key j s = elim (Option-cases (held s)) [
    | inl e ↦
        rw (getting_held s e, try_delete)
          (rw (getting_held s e, e) (refl, no_text key j [] (unfold lookup in refl)))
    | inr (cm, e) ↦ elim (Option-cases (lookup key cm.contents)) [
      | inl l ↦
          rw (getting_held s e, try_delete)
            (rw l (rw (getting_held s e, e) (refl, no_text key j cm.contents l)))
      | inr (text, l) ↦
          rw (getting_held s e, try_delete)
            (rw l (
              rw (getting_held s e, e)
                (
                  (quiet.updating s cm (remove key cm.contents) e).0,
                  rw (quiet.updating s cm (remove key cm.contents) e).1
                      (lookup-remove key j cm.contents),
                )))
    ]
  ]

  module _ (retry : Retry S) (at_once : IsDoneAtOnce retry) (encode : Text → Text)
      (injective : IsInjective encode) (read : Text → Option Entry) (write : Entry → Text)
      (ttl : ℤ) where
    data_key_eq :
        (k j : Text)
        → text_eq (config_map_data_key encode k) (config_map_data_key encode j) ≡ text_eq k j
    unfolding config_map_data_key
    data_key_eq =
        text_eq_injective (config_map_data_key encode)
          (λ k j e. injective k j (append_cancel (codes "state_") (encode k) (encode j) e))

    set_lem :
        (k j : Text) (e : Entry) (expiration : ℤ) (s : S)
        → text_at
            (set api retry encode read write ttl s k e expiration).1
            (config_map_data_key encode j)
          ≡ (if text_eq k j then some (write e) else text_at s (config_map_data_key encode j))
    unfolding set
    set_lem k j e expiration s =
        let key = config_map_data_key encode k in
        let tried = try_set_lem key (write e) (config_map_data_key encode j) s in
        rw (at_once (try_set api key (write e)) s tried.0) (tried.1 ∙ rw (data_key_eq k j))

    delete_lem :
        (k j : Text) (s : S)
        → text_at (delete api retry encode read write ttl s k).1 (config_map_data_key encode j)
          ≡ (if text_eq k j then none else text_at s (config_map_data_key encode j))
    unfolding delete
    delete_lem k j s =
        let key = config_map_data_key encode k in
        let tried = try_delete_lem key (config_map_data_key encode j) s in
        rw (at_once (try_delete api key) s tried.0) (tried.1 ∙ rw (data_key_eq k j))

    get_lem :
        (now : ℕ) (k : Text) (s : S)
        → (get api retry encode read write ttl now s k).0
          ≡ answer_of read ttl now (text_at s (config_map_data_key encode k))
    unfolding answer_of get
    get_lem now k s = elim (Option-cases (held s)) [
      | inl e ↦ rw (getting_held s e, get) (rw e (unfold lookup in refl))
      | inr (cm, e) ↦ elim (Option-cases (lookup (config_map_data_key encode k) cm.contents)) [
        | inl l ↦ rw (getting_held s e, get) (rw e (rw l))
        | inr (text, l) ↦ elim (Option-cases (read text)) [
          | inl r ↦ rw (getting_held s e, get) (rw e (rw l (rw r (rw (r, answer_of)))))
          | inr (old, r) ↦ elim (Bool-cases (is_expired ttl old now)) [
            | inl x ↦ rw (getting_held s e, get) (rw e (rw l (rw r (rw (r, answer_of) (rw x)))))
            | inr x ↦ rw (getting_held s e, get) (rw e (rw l (rw r (rw (r, answer_of) (rw x)))))
          ]
        ]
      ]
    ]

    -- Nothing that is read changes when an expired entry is deleted.
    delete_expired :
        (now : ℕ) (k j : Text) (s : S)
        → answer_of read ttl now (text_at s (config_map_data_key encode k)) ≡ not_found
        → answer_of read ttl now
            (text_at (delete api retry encode read write ttl s k).1 (config_map_data_key encode j))
          ≡ answer_of read ttl now (text_at s (config_map_data_key encode j))
    delete_expired now k j s gone = rw (delete_lem k j s) (elim (Bool-cases (text_eq k j)) [
      | inl e ↦ rw e (
          unfold answer_of in
          sym gone
          ∙ ap (λ i. answer_of read ttl now (text_at s (config_map_data_key encode i)))
              (text_eq_sound k j e))
      | inr e ↦ rw e
    ])

    get_after_get :
        (now : ℕ) (k j : Text) (s : S)
        → answer_of read ttl now
            (text_at (get api retry encode read write ttl now s k).1 (config_map_data_key encode j))
          ≡ answer_of read ttl now (text_at s (config_map_data_key encode j))
    unfolding answer_of get
    get_after_get now k j s = elim (Option-cases (held s)) [
      | inl e ↦ rw (getting_held s e, get) (rw (getting_held s e))
      | inr (cm, e) ↦ elim (Option-cases (lookup (config_map_data_key encode k) cm.contents)) [
        | inl l ↦ rw (getting_held s e, get) (rw l (rw (getting_held s e)))
        | inr (text, l) ↦ elim (Option-cases (read text)) [
          | inl r ↦ rw (getting_held s e, get) (rw l (rw r (rw (getting_held s e))))
          | inr (old, r) ↦ elim (Bool-cases (is_expired ttl old now)) [
            | inl x ↦
                rw (getting_held s e, get)
                  (rw l (
                    rw r (
                      rw x (
                        rw (getting_held s e)
                          (delete_expired now k j s (rw e (rw l (rw (r, answer_of) (rw x)))))))))
            | inr x ↦ rw (getting_held s e, get) (rw l (rw r (rw x (rw (getting_held s e)))))
          ]
        ]
      ]
    ]

    pub new_store-Keeps :
        (now : ℕ) (expiration : ℤ)
        → Keeps
            (new_store api retry encode read write ttl now)
            expiration
            (λ e. answer_of read ttl now (some (write e)))
    unfolding new_store answer_of
    new_store-Keeps now expiration =
        texts-Keeps (new_store api retry encode read write ttl now) expiration write
          (answer_of read ttl now) (λ s k. text_at s (config_map_data_key encode k)) refl
          (get_lem now) (λ k j e. set_lem k j e expiration) delete_lem (get_after_get now)
