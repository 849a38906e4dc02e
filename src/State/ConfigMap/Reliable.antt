-- ===== src/State/ConfigMap/Reliable.antt =====
-- The store of internal/state/backends/configmap/store.go as a reliable backend, with the entries of
-- internal/state/entry.go.
use komodor_security_reporte.Prelude.{◌≡◌, Option, some, arith, ℕ, if◌then◌else◌, ◌≤◌, ltb, ◌+◌}
use komodor_security_reporte.Prelude.Text.{Text}
use komodor_security_reporte.Prelude.Int.{ℤ, pos_part}
use komodor_security_reporte.State.Entry.{Entry}
use komodor_security_reporte.State.Backend.{IsReliable, absent, found}
use komodor_security_reporte.State.Store.{
  Store, PassesOn, loaded_of, new_backend, new_backend-IsReliable, expiration_option,
  is_cache_not_found,
}
use komodor_security_reporte.State.ConfigMap.{
  ConfigMap, Api, Retry, new_store, is_expired, backend_ttl,
}
use komodor_security_reporte.State.Entry.Formats.{rounded, FitsUnix, unmarshal-marshal}
use komodor_security_reporte.Prelude.Json.{Json}
use komodor_security_reporte.State.Entry.Codec.{
  encode_entry, second, unmarshal, zero_entry, marshal,
}
use komodor_security_reporte.State.ConfigMap.Kept.{
  IsQuiet, IsDoneAtOnce, IsInjective, answer_of, new_store-Keeps,
}

module _ {S : Type 0} (api : Api S) (held : S → Option ConfigMap) (quiet : IsQuiet api held) where
  -- The ConfigMap backend is reliable while it is the only client and the calls succeed: a reader
  -- gets what was written last under its key, as it is read back, and nothing else changes. It
  -- relies on RetryOnConflict trying once where that succeeds, on different keys having different
  -- encodings, and on the cache handing its calls on.
  pub config_map-IsReliable :
      (retry : Retry S)
      → IsDoneAtOnce retry
      → (encode : Text → Text) → IsInjective encode
      → (new_cache : Store S → Store S) → PassesOn new_cache
      → (read : Text → Option Entry) (write : Entry → Text) (ttl : ℤ) (now : ℕ)
      → let kept_for = backend_ttl ttl in
        IsReliable
          (new_backend new_cache (new_store api retry encode read write kept_for now) kept_for)
          (λ e. loaded_of (answer_of read kept_for now (some (write e))))
  config_map-IsReliable retry at_once encode injective new_cache passes read write ttl now =
      let kept_for = backend_ttl ttl in
      new_backend-IsReliable new_cache passes (new_store api retry encode read write kept_for now)
        kept_for (λ e. answer_of read kept_for now (some (write e)))
        (new_store-Keeps api held quiet retry at_once encode injective read write kept_for now
          (expiration_option kept_for))

-- What the ConfigMap backend finds of an entry that Marshal wrote: the entry with its times cut to
-- seconds, until the time to live after its scan has passed, and nothing afterwards. Without a
-- positive time to live that is a day. The JSON library reads the text back, the seconds are
-- int64s, and the scan was not in the first second of 1970.
pub answer_of-marshal :
    (parse : Text → Option Json) (parse_time : Text → Option ℕ) (print : Json → Text) (e : Entry)
    (ttl : ℤ) (now : ℕ)
    → parse (print (encode_entry e)) ≡ some (encode_entry e)
    → FitsUnix e.last_scanned_time
    → FitsUnix e.last_published_time
    → second ≤ e.last_scanned_time
    → loaded_of (
        answer_of
          (λ text. unmarshal parse parse_time text zero_entry)
          (backend_ttl ttl)
          now
          (some (marshal print e)))
      ≡ (if ltb ((rounded e).last_scanned_time + pos_part (backend_ttl ttl)) now
          then absent
          else found (rounded e))
unfolding answer_of rounded is_expired backend_ttl loaded_of is_cache_not_found
answer_of-marshal parse parse_time print e ttl now reads hs hp late =
    rw (unmarshal-marshal parse parse_time print e zero_entry reads hs hp, answer_of) (ground arith)
