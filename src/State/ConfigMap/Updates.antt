-- ===== src/State/ConfigMap/Updates.antt =====
-- What Set of internal/state/backends/configmap/store.go writes while other clients write too.
use komodor_security_reporte.Prelude.{◌≡◌, ◌⊎◌, inl, inr, refl, true, Option, none, some, [], ◌∷◌}
use komodor_security_reporte.Prelude.Text.{Text}
use komodor_security_reporte.Prelude.Int.{ℤ}
use komodor_security_reporte.Prelude.Dict.{Dict, put}
use komodor_security_reporte.State.Entry.{Entry}
use komodor_security_reporte.State.ConfigMap.{
  ConfigMap, Reply, get_failed, missing, got, Outcome, done, conflict, error, Api, Retry,
  config_map_data_key, try_set, set, succeeded,
}

Reply-cases : (r : Reply) → (r ≡ get_failed) ⊎ ((r ≡ missing) ⊎ ((cm : ConfigMap) × (r ≡ got cm)))
Reply-cases get_failed = inl refl
Reply-cases missing = inr (inl refl)
Reply-cases (got cm) = inr (inr (cm, refl))

-- The keys of a ConfigMap that may be missing.
abbrev pub entries_of : Option (Dict Text) → Dict Text
entries_of none = []
entries_of (some d) = d

-- The locking of the Kubernetes API, where `contents` is the data that the cluster holds: an
-- update with the resource version of a read is accepted only if nothing was written since, and a
-- creation only if there is no ConfigMap.
pub record HasLocking {S : Type 0} (api : Api S) (contents : S → Option (Dict Text)) : Type 0 where
  pub updated :
      (s : S) (cm : ConfigMap) (d : Dict Text)
      → (api.get s).0 ≡ got cm
      → (api.update (api.get s).1 (record cm { contents = d })).0 ≡ done
      → (contents (api.get s).1 ≡ some cm.contents)
        × (contents (api.update (api.get s).1 (record cm { contents = d })).1 ≡ some d)
  pub created :
      (s : S) (d : Dict Text)
      → (api.create s d).0 ≡ done
      → (contents s ≡ none) × (contents (api.create s d).1 ≡ some d)

-- RetryOnConflict returns what its last try did.
abbrev pub IsLastTry : {S : Type 0} → Retry S → Type 0
IsLastTry {S} retry = (f : S → Outcome × S) (s : S) → (last : S) × (retry f s ≡ f last)

-- One accepted write leads from a state to another.
abbrev pub IsWrite : {S : Type 0} → Api S → S → S → Type 0
IsWrite api before after =
    ((cm : ConfigMap) × (api.update before cm ≡ (done, after)))
    ⊎ ((d : Dict Text) × (api.create before d ≡ (done, after)))

-- A write after which the ConfigMap is what it was just before, with one key set.
abbrev pub IsPut : {S : Type 0} → Api S → (S → Option (Dict Text)) → Text → Text → S → Type 0
IsPut {S} api contents key text after =
    (before : S) × IsWrite api before after
    × (contents after ≡ some (put key text (entries_of (contents before))))

succeeded-done : (o : Outcome) → succeeded o ≡ true → o ≡ done
succeeded-done done h = refl
succeeded-done conflict h = cc
succeeded-done error h = cc

module _ {S : Type 0} (api : Api S) (contents : S → Option (Dict Text))
    (locking : HasLocking api contents) where
  create-IsPut :
      (key text : Text) (s : S)
      → (api.create s ((key, text) ∷ [])).0 ≡ done
      → IsPut api contents key text (api.create s ((key, text) ∷ [])).1
  create-IsPut key text s h = (
    s,
    inr ((key, text) ∷ [], λ i. (h i, (api.create s ((key, text) ∷ [])).1)),
    rw (locking.created s ((key, text) ∷ []) h).1
        (rw (locking.created s ((key, text) ∷ []) h).0 (unfold put in refl)),
  )

  update-IsPut :
      (key text : Text) (s : S) (cm : ConfigMap)
      → (api.get s).0 ≡ got cm
      → (api.update (api.get s).1 (record cm { contents = put key text cm.contents })).0 ≡ done
      → IsPut api contents key text
          (api.update (api.get s).1 (record cm { contents = put key text cm.contents })).1
  update-IsPut key text s cm e h = (
    (api.get s).1,
    inl (
      record cm { contents = put key text cm.contents },
      λ i. (h i, (api.update (api.get s).1 (record cm { contents = put key text cm.contents })).1),
    ),
    rw (locking.updated s cm (put key text cm.contents) e h).1
        (rw (locking.updated s cm (put key text cm.contents) e h).0 refl),
  )

  try_set-IsPut :
      (key text : Text) (s : S)
      → (try_set api key text s).0 ≡ done
      → IsPut api contents key text (try_set api key text s).1
  unfolding try_set
  try_set-IsPut key text s = elim (Reply-cases (api.get s).0) [
    | inl e ↦ rw (e, try_set) (λ h. cc)
    | inr (inl e) ↦ rw (e, try_set) (create-IsPut key text (api.get s).1)
    | inr (inr (cm, e)) ↦ rw (e, try_set) (update-IsPut key text s cm e)
  ]

  -- Whatever other clients write in the meantime, a Set that succeeds leaves the ConfigMap as it
  -- was just before the write, with the entry's text under its key: no update is lost. It relies
  -- on the locking of the API, and on RetryOnConflict returning what its last try did.
  pub set-IsPut :
      (retry : Retry S)
      → IsLastTry retry
      → (encode : Text → Text) (read : Text → Option Entry) (write : Entry → Text) (ttl : ℤ) (s : S)
        (key : Text) (e : Entry) (expiration : ℤ)
      → (set api retry encode read write ttl s key e expiration).0 ≡ true
      → IsPut api contents
          (config_map_data_key encode key)
          (write e)
          (set api retry encode read write ttl s key e expiration).1
  unfolding set
  set-IsPut retry last_try encode read write ttl s key e expiration =
      rw ((last_try (try_set api (config_map_data_key encode key) (write e)) s).1, set)
        (λ h. try_set-IsPut (config_map_data_key encode key) (write e) _ (succeeded-done _ h))
