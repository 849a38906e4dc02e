-- ===== src/State/Memcache/Expiration.antt =====
-- durationToMemcacheExpiration of internal/state/backends/memcache/store.go.
use komodor_security_reporte.Prelude.{◌≡◌, ◌<◌, ◌≤◌, ◌+◌, ◌*◌, ℕ, arith, ◌⊎◌, ◌↔◌}
use komodor_security_reporte.Prelude.Int.{ℤ, pos, ◌≤ℤ◌, pos_part}
use komodor_security_reporte.State.Memcache.{duration_to_memcache_expiration, max_int32}

abbrev pub second : ℕ
second = 1_000_000_000

-- The expiration of a duration is an int32, and 0, which is never, just for a duration that is not
-- positive. Else it is the whole seconds of the duration, but at least 1 and at most the greatest
-- int32: it ends no later than the duration unless it is 1, and less than a second before it unless
-- it is the greatest int32.
pub expiration_bounds :
    (d : ℤ)
    → let expiration = duration_to_memcache_expiration d in
      (expiration ≤ max_int32)
      × ((expiration ≡ 0) ↔ (d ≤ℤ pos 0))
      × ((d ≤ℤ pos 0) ⊎ ((expiration * second ≤ pos_part d) ⊎ (expiration ≡ 1)))
      × ((pos_part d < (expiration + 1) * second) ⊎ (expiration ≡ max_int32))
unfolding duration_to_memcache_expiration
expiration_bounds d = ground arith
