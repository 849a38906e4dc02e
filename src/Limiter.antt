-- ===== src/Limiter.antt =====
-- internal/concurrency/adaptive_limiter.go. The token bucket is a third-party library, of which
-- `limit` is the rate that was set last. Floating-point arithmetic is a parameter: nothing is
-- assumed of it. `RecordResult` counts under the mutex and sets the rate after it: record_result is
-- a call that no other interrupts, and Interleaved has the two parts as steps.
mod Tests
pub mod Counts
pub mod Interleaved
pub mod Late
use komodor_security_reporte.Prelude.{
  ℕ, suc, Bool, true, false, List, [], ◌∷◌, if◌then◌else◌, ◌||◌, ◌==◌,
}

pub record Rates (F : Type 0) : Type 0 where
  pub zero : F
  pub half : F
  pub one : F
  pub of_count : ℕ → F
  pub less : F → F → Bool
  pub less_eq : F → F → Bool
  pub divide : F → F → F
  pub times : F → F → F
  pub minus : F → F → F

pub record AdaptiveLimiter (F : Type 0) : Type 0 where
  pub limit : F
  pub min_rps : F
  pub max_rps : F
  pub error_rate_threshold : F
  pub total_scans : ℕ
  pub error_scans : ℕ

module _ {F : Type 0} (rates : Rates F) where
  unfoldable pub new_adaptive_limiter : F → F → F → AdaptiveLimiter F
  new_adaptive_limiter max_rps min_rps threshold =
      let top = if rates.less_eq max_rps rates.zero then rates.one else max_rps in
      let floor = if rates.less min_rps rates.zero then rates.zero else min_rps in
      record {
        limit = top;
        min_rps = if rates.less top floor then top else floor;
        max_rps = top;
        error_rate_threshold =
            if rates.less_eq threshold rates.zero || rates.less rates.one threshold
            then rates.half
            else threshold;
        total_scans = 0;
        error_scans = 0;
      }

  unfoldable pub error_rate_locked : AdaptiveLimiter F → F
  error_rate_locked a =
      if a.total_scans == 0
      then rates.zero
      else rates.divide (rates.of_count a.error_scans) (rates.of_count a.total_scans)

  unfoldable pub effective_rps_locked : AdaptiveLimiter F → F
  unfolding error_rate_locked
  effective_rps_locked a =
      let error_rate = error_rate_locked a in
      if rates.less_eq a.error_rate_threshold error_rate
      then a.min_rps
      else if rates.less_eq error_rate rates.zero
      then a.max_rps
      else rates.minus a.max_rps (
          rates.times (rates.divide error_rate a.error_rate_threshold)
            (rates.minus a.max_rps a.min_rps))

  -- What RecordResult does under the mutex, without the new rate.
  unfoldable pub count_result : Bool → AdaptiveLimiter F → AdaptiveLimiter F
  count_result is_error a = record a {
    total_scans = suc a.total_scans;
    error_scans = if is_error then suc a.error_scans else a.error_scans;
  }

  unfoldable pub record_result : Bool → AdaptiveLimiter F → AdaptiveLimiter F
  unfolding count_result effective_rps_locked
  record_result is_error a =
      let counted = count_result is_error a in
      record counted { limit = effective_rps_locked counted }

  unfoldable pub record_all : List Bool → AdaptiveLimiter F → AdaptiveLimiter F
  unfolding record_result
  record_all [] a = a
  record_all (r ∷ rs) a = record_all rs (record_result r a)

  unfoldable pub error_rate : AdaptiveLimiter F → F
  unfolding error_rate_locked
  error_rate a = error_rate_locked a

  unfoldable pub effective_rps : AdaptiveLimiter F → F
  unfolding effective_rps_locked
  effective_rps a = effective_rps_locked a
