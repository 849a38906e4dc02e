-- ===== src/Limiter/Late.antt =====
-- Calls of RecordResult of internal/concurrency/adaptive_limiter.go of which one sets its rate late.
use mathlib.Core.Path.{ap₂}
use komodor_security_reporte.Limiter.{
  Rates, AdaptiveLimiter, count_result, effective_rps_locked, error_rate_locked,
}
use komodor_security_reporte.Limiter.Counts.{count_errors}
use komodor_security_reporte.Limiter.Interleaved.{
  Shared, set_limit, enter, counts, sets, Reach, here, next, counted, effective-enter,
  count_errors-append,
}
use komodor_security_reporte.Prelude.{
  ◌≡◌, Bool, true, false, List, [], ◌∷◌, ◌++◌, ap, append-nil, ◌+◌, length, ◌∙◌, append_assoc,
  arith, refl, sym, subst, suc, length-append, if◌then◌else◌, ℕ,
}

-- An erroneous result counts once.
errors_of :
    (r : Bool) (n : ℕ) (rs : List Bool)
    → (if r then suc n else n) + count_errors rs ≡ n + count_errors (r ∷ rs)
unfolding count_errors
errors_of true n rs = omega arith
errors_of false n rs = omega arith

module _ {F : Type 0} (rates : Rates F) where
  module _ (start : Shared F) where
    moved :
        {s t : Shared F} {rs us : List Bool}
        → s ≡ t
        → rs ≡ us
        → Reach rates start s rs
        → Reach rates start t us
    moved {s} {t} {rs} {us} e f run =
        subst (λ u. Reach rates start u us) e (subst (λ l. Reach rates start s l) f run)

    -- Calls that each set their rate at once, while other rates are still to be set.
    serve :
        (held : List F) (l : AdaptiveLimiter F) (rs results : List Bool)
        → Reach rates start (record { limiter = l; pending = held }) rs
        → (limit : F) × Reach rates start
            (record { limiter = set_limit limit (counted rates l results); pending = held })
            (rs ++ results)
    unfolding set_limit count_errors enter count_result effective_rps_locked error_rate_locked
    serve held l rs [] run = (
      l.limit,
      moved
          (ap₂
            (λ n m. record {
              limiter = record l { total_scans = n; error_scans = m };
              pending = held;
            })
            (omega arith) (omega arith))
          (sym (append-nil rs)) run,
    )
    serve held l rs (r ∷ results) run =
        let after = count_result rates r l in
        let rate = effective_rps_locked rates after in
        let run1 = next run (counts r refl) in
        let run2 = next run1 (sets held [] rate refl refl) in
        let (limit, run3) = serve held (set_limit rate after) (rs ++ (r ∷ [])) results (
          moved (ap (λ p. record { limiter = set_limit rate after; pending = p }) (append-nil held))
            (append-nil (rs ++ (r ∷ []))) run2) in
        (
          limit,
          moved
              (ap₂
                (λ n m. record {
                  limiter = record l { limit = limit; total_scans = n; error_scans = m };
                  pending = held;
                })
                (omega arith) (errors_of r l.error_scans results))
              (append_assoc rs (r ∷ []) results) run3,
        )

  counted-append :
      (a : AdaptiveLimiter F) (limit : F) (xs ys : List Bool)
      → set_limit limit (counted rates (counted rates a xs) ys)
        ≡ set_limit limit (counted rates a (xs ++ ys))
  unfolding set_limit
  counted-append a limit xs ys =
      ap₂ (λ n m. record a { limit = limit; total_scans = n; error_scans = m })
        (omega (arith, length-append xs ys)) (omega (arith, count_errors-append xs ys))

  -- When calls of RecordResult interleave, any of them can be the last to set its rate: then all
  -- results are counted and all rates are set, but the limiter is left with the rate that is the
  -- effective one after the results up to that call, without the later ones.
  pub record_result-late :
      (a : AdaptiveLimiter F) (earlier later : List Bool) (r : Bool)
      → let upto = earlier ++ (r ∷ []) in
        (s : Shared F) × Reach rates (record { limiter = a; pending = [] }) s (upto ++ later)
        × (s.pending ≡ [])
        × (s.limiter.total_scans ≡ a.total_scans + length (upto ++ later))
        × (s.limiter.error_scans ≡ a.error_scans + count_errors (upto ++ later))
        × (s.limiter.limit ≡ effective_rps_locked rates (counted rates a upto))
        × (effective_rps_locked rates s.limiter
            ≡ effective_rps_locked rates (counted rates a (upto ++ later)))
  unfolding set_limit enter effective_rps_locked error_rate_locked
  record_result-late a earlier later r =
      let start : Shared F = record { limiter = a; pending = [] } in
      let upto = earlier ++ (r ∷ []) in
      let (limit1, run1) = serve start [] a [] earlier here in
      let before : AdaptiveLimiter F = set_limit limit1 (counted rates a earlier) in
      let rate = effective_rps_locked rates (count_result rates r before) in
      let shape = effective-enter rates a earlier r limit1 in
      let run2 = next run1 (counts r refl) in
      let (limit2, run3) = serve start (rate ∷ []) (count_result rates r before) upto later run2 in
      let run4 = next run3 (sets [] [] rate refl refl) in
      let end : AdaptiveLimiter F =
        set_limit rate (counted rates (count_result rates r before) later) in
      let same : end ≡ set_limit rate (counted rates a (upto ++ later)) =
        ap (λ l. set_limit rate (counted rates l later)) shape ∙ counted-append a rate upto later in
      (
        record { limiter = set_limit rate (counted rates a (upto ++ later)); pending = [] },
        moved start (ap (λ l. record { limiter = l; pending = [] }) same)
            (append-nil (upto ++ later)) run4,
        refl,
        refl,
        refl,
        ap (effective_rps_locked rates) shape,
        refl,
      )
