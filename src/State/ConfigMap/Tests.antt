-- ===== src/State/ConfigMap/Tests.antt =====
-- A cluster of one client: its state is the ConfigMap that it holds.
use komodor_security_reporte.Prelude.{
  ◌≡◌, refl, ap, ℕ, suc, arith, Option, none, some, true, Bool-cases, inl, inr, if◌then◌else◌, ◌==◌,
  [], ◌∷◌, sym,
}
use komodor_security_reporte.Prelude.Text.{Text, codes, text_eq}
use komodor_security_reporte.Prelude.Int.{pos}
use komodor_security_reporte.Prelude.Dict.{Dict}
use komodor_security_reporte.Prelude.Json.{Json}
use komodor_security_reporte.State.Entry.{Entry}
use komodor_security_reporte.State.Entry.Codec.{encode_entry, marshal, unmarshal, zero_entry}
use komodor_security_reporte.State.Backend.{IsReliable}
use komodor_security_reporte.State.Store.{Store, PassesOn, new_backend, loaded_of}
use komodor_security_reporte.State.ConfigMap.{
  ConfigMap, Reply, got, Outcome, done, conflict, error, Api, Retry, config_map_data_key, set,
  new_store, backend_ttl,
}
use komodor_security_reporte.State.ConfigMap.Updates.{HasLocking, IsPut, IsLastTry, set-IsPut}
use komodor_security_reporte.State.ConfigMap.Kept.{
  reply_of, IsQuiet, IsDoneAtOnce, answer_of, contents_of,
}
use komodor_security_reporte.State.ConfigMap.Reliable.{config_map-IsReliable}

abbrev create_at : Dict Text → Option ConfigMap → Outcome × Option ConfigMap
create_at d none = (done, some (record { resource_version = 1; contents = d }))
create_at d (some cm) = (error, some cm)

-- An update with an old resource version is a conflict.
abbrev update_at : ConfigMap → Option ConfigMap → Outcome × Option ConfigMap
update_at new none = (error, none)
update_at new (some cm) =
    if new.resource_version == cm.resource_version
    then (done, some (record new { resource_version = suc cm.resource_version }))
    else (conflict, some cm)

abbrev pub cluster : Api (Option ConfigMap)
cluster = record {
  get = λ s. (reply_of s, s);
  create = λ s d. create_at d s;
  update = λ s cm. update_at cm s;
}

abbrev contents : Option ConfigMap → Option (Dict Text)
contents none = none
contents (some cm) = some cm.contents

-- One more try after a conflict.
abbrev again_after : {S : Type 0} → (S → Outcome × S) → Outcome × S → Outcome × S
again_after f (conflict, s) = f s
again_after f (outcome, s) = (outcome, s)

abbrev pub retry_once : {S : Type 0} → Retry S
retry_once f s = again_after f (f s)

again_after-last :
    {S : Type 0} (f : S → Outcome × S) (s : S) (out : Outcome × S)
    → f s ≡ out
    → (last : S) × (again_after f out ≡ f last)
again_after-last f s (done, t) e = (s, sym e)
again_after-last f s (error, t) e = (s, sym e)
again_after-last f s (conflict, t) e = (t, refl)

retry_once-last : IsLastTry (retry_once {S = Option ConfigMap})
retry_once-last f s = again_after-last f s (f s) refl

again_after-done :
    {S : Type 0} (f : S → Outcome × S) (out : Outcome × S) → out.0 ≡ done → again_after f out ≡ out
again_after-done f (done, t) e = refl
again_after-done f (error, t) e = refl
again_after-done f (conflict, t) e = cc e

pub retry_once-IsDoneAtOnce : IsDoneAtOnce (retry_once {S = Option ConfigMap})
retry_once-IsDoneAtOnce f s e = again_after-done f (f s) e

updated :
    (s : Option ConfigMap) (cm : ConfigMap) (d : Dict Text)
    → reply_of s ≡ got cm
    → (update_at (record cm { contents = d }) s).0 ≡ done
    → (contents s ≡ some cm.contents)
      × (contents (update_at (record cm { contents = d }) s).1 ≡ some d)
updated none cm d e = λ h. cc h
updated (some held) cm d e = elim (Bool-cases (cm.resource_version == held.resource_version)) [
  | inl b ↦ rw b (λ h. (ap contents_of_reply e, refl))
  | inr b ↦ rw b (λ h. cc h)
]
  where
    contents_of_reply : Reply → Option (Dict Text)
    contents_of_reply (got c) = some c.contents
    contents_of_reply _ = none

created :
    (s : Option ConfigMap) (d : Dict Text)
    → (create_at d s).0 ≡ done
    → (contents s ≡ none) × (contents (create_at d s).1 ≡ some d)
created none d h = (refl, refl)
created (some cm) d h = cc h

cluster-HasLocking : HasLocking cluster contents
cluster-HasLocking = record { updated = updated; created = created }

creating :
    (s : Option ConfigMap) (d : Dict Text)
    → s ≡ none
    → ((create_at d s).0 ≡ done) × (contents_of (create_at d s).1 ≡ d)
creating none d h = (refl, refl)
creating (some cm) d h = cc h

updating :
    (s : Option ConfigMap) (cm : ConfigMap) (d : Dict Text)
    → s ≡ some cm
    → ((update_at (record cm { contents = d }) s).0 ≡ done)
      × (contents_of (update_at (record cm { contents = d }) s).1 ≡ d)
updating s cm d e = rw e (rw (same_version cm.resource_version) (refl, refl))
  where
    same_version : (n : ℕ) → (n == n) ≡ true
    same_version n = ground arith

pub cluster-IsQuiet : IsQuiet cluster (λ s. s)
cluster-IsQuiet = record { getting = λ s. refl; creating = creating; updating = updating }

abbrev entry : Entry
entry = record {
  fingerprint = codes "sha256:ab/trivy";
  last_scanned_time = 5_500_000_000;
  last_published_time = 6_000_000_000;
  summary = codes "ok";
}

abbrev print : Json → Text
print v = codes "{}"

abbrev parse_json : Text → Option Json
parse_json text = if text_eq text (codes "{}") then some (encode_entry entry) else none

abbrev no_time : Text → Option ℕ
no_time text = none

abbrev read_entry : Text → Option Entry
read_entry text = unmarshal parse_json no_time text zero_entry

abbrev write_entry : Entry → Text
write_entry e = marshal print e

abbrev held_now : Option ConfigMap
held_now = some (record { resource_version = 4; contents = (codes "state_k", codes "{}") ∷ [] })

abbrev identity : Text → Text
identity text = text

set-IsPut_example :
    IsPut cluster contents
      (config_map_data_key identity (codes "j"))
      (write_entry entry)
      (set cluster retry_once identity read_entry write_entry
        (pos 60)
        held_now
        (codes "j")
        entry
        (pos 0)).1
unfolding set
set-IsPut_example =
    set-IsPut cluster contents cluster-HasLocking retry_once retry_once-last identity read_entry
      write_entry (pos 60) held_now (codes "j") entry (pos 0) refl

abbrev pub same_store : Store (Option ConfigMap) → Store (Option ConfigMap)
same_store store = store

pub same_store-PassesOn : PassesOn same_store
same_store-PassesOn = record {
  get_on = λ store s k. refl;
  set_on = λ store s k e expiration. refl;
  delete_on = λ store s k. refl;
}

config_map-IsReliable_example :
    IsReliable
      (new_backend same_store
        (new_store cluster retry_once identity read_entry write_entry
          (backend_ttl (pos 0))
          9_000_000_000)
        (backend_ttl (pos 0)))
      (λ e.
        loaded_of (answer_of read_entry (backend_ttl (pos 0)) 9_000_000_000 (some (write_entry e))))
config_map-IsReliable_example =
    config_map-IsReliable cluster (λ s. s) cluster-IsQuiet retry_once retry_once-IsDoneAtOnce
      identity (λ k j e. e) same_store same_store-PassesOn read_entry write_entry (pos 0)
      9_000_000_000

reads : parse_json (print (encode_entry entry)) ≡ some (encode_entry entry)
unfolding text_eq
reads = refl
