-- ===== src/State/Memory.antt =====
-- internal/state/backends/memory/store.go. The cache library's store of entries in memory, which it
-- calls, is a parameter: `delegate`, made with a time to live and an interval of its cleanups.
use komodor_security_reporte.Prelude.{◌/◌, ◌==◌, if◌then◌else◌}
use komodor_security_reporte.Prelude.Int.{ℤ, pos, pos_part, leb_ℤ}
use komodor_security_reporte.State.Backend.{Backend}
use komodor_security_reporte.State.Store.{Store, new_backend}

abbrev pub minute : ℤ
minute = pos 60_000_000_000

-- The interval that NewStore asks for: half of the time to live, but at least something.
unfoldable pub cleanup_interval : ℤ → ℤ
cleanup_interval ttl =
    let half = pos_part ttl / 2 in
    if leb_ℤ ttl (pos 0) then minute else if half == 0 then pos 1_000_000_000 else pos half

-- NewStore, whose operations are those of its delegate
unfoldable pub new_memory_store : {S : Type 0} → (ℤ → ℤ → Store S) → ℤ → Store S
unfolding cleanup_interval
new_memory_store delegate ttl = delegate ttl (cleanup_interval ttl)

-- NewBackend, with its default of a day
unfoldable pub new_memory_backend :
    {S : Type 0} → (Store S → Store S) → (ℤ → ℤ → Store S) → ℤ → Backend S
unfolding new_memory_store new_backend
new_memory_backend new_cache delegate ttl =
    let kept_for = if leb_ℤ ttl (pos 0) then pos 86_400_000_000_000 else ttl in
    new_backend new_cache (new_memory_store delegate kept_for) kept_for
