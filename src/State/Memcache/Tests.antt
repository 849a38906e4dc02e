-- ===== src/State/Memcache/Tests.antt =====
-- Expirations of single durations, in nanoseconds.
use komodor_security_reporte.Prelude.{◌≡◌, ◌≤◌, ◌<◌, ◌+◌, ◌*◌, ◌↔◌, ◌⊎◌, refl}
use komodor_security_reporte.Prelude.Int.{pos, ◌≤ℤ◌}
use komodor_security_reporte.State.Memcache.{duration_to_memcache_expiration, max_int32}
use komodor_security_reporte.State.Memcache.Expiration.{expiration_bounds, second}

-- Half a second becomes a second, and a day stays a day.
half_second : duration_to_memcache_expiration (pos 500_000_000) ≡ 1
unfolding duration_to_memcache_expiration
half_second = refl

one_day : duration_to_memcache_expiration (pos 86_400_000_000_000) ≡ 86_400
unfolding duration_to_memcache_expiration
one_day = refl

expiration_bounds_example :
    let expiration = duration_to_memcache_expiration (pos 1_500_000_000) in
    (expiration ≤ max_int32)
    × ((expiration ≡ 0) ↔ (pos 1_500_000_000 ≤ℤ pos 0))
    × ((pos 1_500_000_000 ≤ℤ pos 0) ⊎ ((expiration * second ≤ 1_500_000_000) ⊎ (expiration ≡ 1)))
    × ((1_500_000_000 < (expiration + 1) * second) ⊎ (expiration ≡ max_int32))
expiration_bounds_example = expiration_bounds (pos 1_500_000_000)
