-- ===== src/Limiter/Tests.antt =====
-- A limiter with integer rates.
use komodor_security_reporte.Limiter.{AdaptiveLimiter, effective_rps_locked, error_rate_locked}
use komodor_security_reporte.Limiter.Interleaved.{Reach, Shared, counted, IsRated, Reach-IsRated}
use komodor_security_reporte.Limiter.Late.{record_result-late}
use komodor_security_reporte.Limiter.Counts.{count_errors}
use komodor_security_reporte.Prelude.{◌≡◌, refl, true, false, [], ◌∷◌}
use komodor_security_reporte.Prelude.Int.{ℤ, pos, leb_ℤ, ltb_ℤ}
use komodor_security_reporte.Limiter.{Rates, new_adaptive_limiter}

abbrev integer_rates : Rates ℤ
integer_rates = record {
  zero = pos 0;
  half = pos 1;
  one = pos 1;
  of_count = pos;
  less = ltb_ℤ;
  less_eq = leb_ℤ;
  divide = λ a b. a;
  times = λ a b. a;
  minus = λ a b. a;
}

abbrev start : AdaptiveLimiter ℤ
start = new_adaptive_limiter integer_rates (pos 9) (pos 2) (pos 1)

-- The rates after the success alone and after both.
different_rates :
    (effective_rps_locked integer_rates (counted integer_rates start (false ∷ [])) ≡ pos 9)
    × (effective_rps_locked integer_rates (counted integer_rates start (false ∷ true ∷ [])) ≡ pos 2)
unfolding effective_rps_locked new_adaptive_limiter count_errors error_rate_locked
different_rates = (refl, refl)

-- A success, whose rate is set last, and an error.
record_result-late_example :
    (s : Shared ℤ) × Reach integer_rates
      (record { limiter = start; pending = [] })
      s
      (false ∷ true ∷ [])
    × (s.pending ≡ [])
    × (s.limiter.total_scans ≡ 2)
    × (s.limiter.error_scans ≡ 1)
    × (s.limiter.limit
        ≡ effective_rps_locked integer_rates (counted integer_rates start (false ∷ [])))
    × (effective_rps_locked integer_rates s.limiter
        ≡ effective_rps_locked integer_rates (counted integer_rates start (false ∷ true ∷ [])))
unfolding count_errors new_adaptive_limiter
record_result-late_example = record_result-late integer_rates start [] (true ∷ []) false

Reach-IsRated_example :
    IsRated integer_rates start
      (false ∷ true ∷ [])
      (record_result-late integer_rates start [] (true ∷ []) false).0
Reach-IsRated_example =
    Reach-IsRated integer_rates start
      (record_result-late integer_rates start [] (true ∷ []) false).1
