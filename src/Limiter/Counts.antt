-- ===== src/Limiter/Counts.antt =====
-- What the rate of internal/concurrency/adaptive_limiter.go depends on.
use mathlib.Core.Path.{ap₂}
use komodor_security_reporte.Prelude.{
  ℕ, suc, ◌≡◌, ◌+◌, arith, Bool, true, false, List, [], ◌∷◌, length, ◌∙◌,
}
use komodor_security_reporte.Limiter.{
  Rates, AdaptiveLimiter, effective_rps_locked, record_result, record_all, error_rate_locked,
}

-- The errors among the results.
unfoldable pub count_errors : List Bool → ℕ
count_errors [] = 0
count_errors (true ∷ rs) = suc (count_errors rs)
count_errors (false ∷ rs) = count_errors rs

module _ {F : Type 0} (rates : Rates F) where
  -- A limiter with these counts, and the rate for them.
  abbrev settled : AdaptiveLimiter F → ℕ → ℕ → AdaptiveLimiter F
  settled a scans errors =
      let counted = record a { total_scans = scans; error_scans = errors } in
      record counted { limit = effective_rps_locked rates counted }

  -- A limiter to whose counts these are added at once.
  unfoldable pub after_counts : ℕ → ℕ → AdaptiveLimiter F → AdaptiveLimiter F
  after_counts scans errors a = settled a (a.total_scans + scans) (a.error_scans + errors)

  -- After any results, at least one, the limiter is as if their number and the number of errors among them had
  -- been added at once: neither its counts nor its rate depends on their order.
  record_all_lem :
      (r : Bool) (rs : List Bool) (a : AdaptiveLimiter F)
      → record_all rates (r ∷ rs) a ≡ after_counts (length (r ∷ rs)) (count_errors (r ∷ rs)) a
  unfolding record_all record_result after_counts count_errors effective_rps_locked
      error_rate_locked
  record_all_lem true [] a = ap₂ (settled a) (omega arith) (omega arith)
  record_all_lem false [] a = ap₂ (settled a) (omega arith) (omega arith)
  record_all_lem true (q ∷ rs) a =
      record_all_lem q rs (record_result rates true a) ∙ ap₂ (settled a) (omega arith) (omega arith)
  record_all_lem false (q ∷ rs) a =
      record_all_lem q rs (record_result rates false a)
      ∙ ap₂ (settled a) (omega arith) (omega arith)
