-- ===== src/Limiter/Interleaved.antt =====
-- Calls of RecordResult of internal/concurrency/adaptive_limiter.go that interleave: each counts and
-- computes its rate under the mutex, and sets that rate after the unlock.
use mathlib.Core.Path.{ap₂}
use komodor_security_reporte.Limiter.{error_rate_locked, suc}
use komodor_security_reporte.Prelude.{
  false, ◌≡◌, Bool, List, [], ◌∷◌, ◌++◌, ap, append-nil, ◌+◌, ◌⊎◌, All, length, ◌∙◌, append_assoc,
  arith, if◌then◌else◌, inl, inr, refl, true, All-append, length-append, sym, subst,
}
use komodor_security_reporte.Limiter.{Rates, AdaptiveLimiter, count_result, effective_rps_locked}
use komodor_security_reporte.Limiter.Counts.{count_errors}

-- The limiter, and the rates that calls have computed and not yet set.
pub record Shared (F : Type 0) : Type 0 where
  pub limiter : AdaptiveLimiter F
  pub pending : List F

unfoldable pub set_limit : {F : Type 0} → F → AdaptiveLimiter F → AdaptiveLimiter F
set_limit rate a = record a { limit = rate }

pub count_errors-append :
    (xs ys : List Bool) → count_errors (xs ++ ys) ≡ count_errors xs + count_errors ys
unfolding count_errors
count_errors-append [] ys = omega arith
count_errors-append (true ∷ xs) ys = omega (arith, count_errors-append xs ys)
count_errors-append (false ∷ xs) ys = count_errors-append xs ys

All-implied {ℓ κ} :
    {A : Type ℓ} (P Q : A → Type κ) (xs : List A) → ((x : A) → P x → Q x) → All P xs → All Q xs
All-implied P Q [] implies h = tt
All-implied P Q (x ∷ xs) implies (h, hs) = (implies x h, All-implied P Q xs implies hs)

All-without {ℓ κ} :
    {A : Type ℓ} (P : A → Type κ) (xs ys : List A) (x : A)
    → All P (xs ++ (x ∷ ys))
    → P x × All P (xs ++ ys)
All-without P [] ys x h = h
All-without P (z ∷ xs) ys x (h, hs) =
    let (here, rest) = All-without P xs ys x hs in (here, (h, rest))

module _ {F : Type 0} (rates : Rates F) where
  unfoldable pub enter : Bool → Shared F → Shared F
  unfolding count_result effective_rps_locked
  enter is_error s =
      let counted = count_result rates is_error s.limiter in
      record { limiter = counted; pending = s.pending ++ (effective_rps_locked rates counted ∷ []) }

  -- A step, with the results that are counted by it.
  pub data Step (s t : Shared F) : List Bool → Type 0 where
    counts : (is_error : Bool) → t ≡ enter is_error s → Step s t (is_error ∷ [])
    sets :
        (before after : List F) (rate : F)
        → s.pending ≡ before ++ (rate ∷ after)
        → t ≡ record { limiter = set_limit rate s.limiter; pending = before ++ after }
        → Step s t []

  pub data Reach (s : Shared F) : Shared F → List Bool → Type 0 where
    here : Reach s s []
    next :
        {t u : Shared F} {rs new : List Bool} → Reach s t rs → Step t u new → Reach s u (rs ++ new)

  -- The rate after some of the results, from the first on.
  abbrev pub counted : AdaptiveLimiter F → List Bool → AdaptiveLimiter F
  counted a rs = record a {
    total_scans = a.total_scans + length rs;
    error_scans = a.error_scans + count_errors rs;
  }

  abbrev pub IsRate : AdaptiveLimiter F → List Bool → F → Type 0
  IsRate a rs rate =
      (first : List Bool) × (later : List Bool) × (rs ≡ first ++ later)
      × (rate ≡ effective_rps_locked rates (counted a first))

  pub record IsRated (a : AdaptiveLimiter F) (rs : List Bool) (s : Shared F) : Type 0 where
    pub counted_all : s.limiter ≡ set_limit s.limiter.limit (counted a rs)
    pub limit_known : (s.limiter.limit ≡ a.limit) ⊎ IsRate a rs s.limiter.limit
    pub pending_known : All (IsRate a rs) s.pending

  IsRate-more :
      (a : AdaptiveLimiter F) (rs new : List Bool) (x : F) → IsRate a rs x → IsRate a (rs ++ new) x
  IsRate-more a rs new x (first, later, e, rate) =
      (first, later ++ new, ap (λ l. l ++ new) e ∙ append_assoc first later new, rate)

  -- The rate that a call computes is that of the results so far and its own.
  pub effective-enter :
      (a : AdaptiveLimiter F) (rs : List Bool) (r : Bool) (limit : F)
      → count_result rates r (set_limit limit (counted a rs))
        ≡ set_limit limit (counted a (rs ++ (r ∷ [])))
  unfolding count_result set_limit count_errors
  effective-enter a rs r limit =
      ap₂ (λ n m. set_limit limit (record a { total_scans = n; error_scans = m }))
        (omega (arith, length-append rs (r ∷ []))) (one_error r)
    where
      one_error :
          (r : Bool)
          → (if r then suc (a.error_scans + count_errors rs) else a.error_scans + count_errors rs)
            ≡ a.error_scans + count_errors (rs ++ (r ∷ []))
      one_error true = omega (arith, count_errors-append rs (true ∷ []))
      one_error false = omega (arith, count_errors-append rs (false ∷ []))

  Step-IsRated :
      (a : AdaptiveLimiter F) (rs new : List Bool) {s t : Shared F}
      → Step s t new
      → IsRated a rs s
      → IsRated a (rs ++ new) t
  unfolding enter set_limit count_result effective_rps_locked error_rate_locked
  Step-IsRated a rs _ {s = s} (counts r e) i =
      let shape =
        ap (count_result rates r) i.counted_all ∙ effective-enter a rs r s.limiter.limit in
      rw e (record {
        counted_all = shape;
        limit_known = elim i.limit_known [
          | inl same ↦ inl same
          | inr known ↦ inr (IsRate-more a rs (r ∷ []) s.limiter.limit known)
        ];
        pending_known =
            All-append (IsRate a (rs ++ (r ∷ []))) s.pending
              (effective_rps_locked rates (count_result rates r s.limiter) ∷ [])
              (All-implied (IsRate a rs) (IsRate a (rs ++ (r ∷ []))) s.pending
                (IsRate-more a rs (r ∷ [])) i.pending_known)
              ((rs ++ (r ∷ []), [], sym (append-nil _), ap (effective_rps_locked rates) shape), tt);
      })
  Step-IsRated a rs _ {s = s} (sets before after rate stands e) i =
      let (known, rest) =
        All-without (IsRate a rs) before after rate
          (subst (All (IsRate a rs)) stands i.pending_known) in
      rw (append-nil rs, e)
        (record {
          counted_all = ap (set_limit rate) i.counted_all;
          limit_known = inr known;
          pending_known = rest;
        })

  -- However calls of RecordResult interleave, no result is lost from the counts, and the rate that is
  -- set, like each that is still to be set, is the effective one after some of the results, from the
  -- first on; before any is set it is the one at the start.
  pub Reach-IsRated :
      (a : AdaptiveLimiter F) {rs : List Bool} {s : Shared F}
      → Reach (record { limiter = a; pending = [] }) s rs
      → IsRated a rs s
  unfolding set_limit count_errors
  Reach-IsRated a here = record {
    counted_all =
        ap₂ (λ n m. record a { total_scans = n; error_scans = m }) (omega arith) (omega arith);
    limit_known = inl refl;
    pending_known = tt;
  }
  Reach-IsRated a (next {rs = rs} {new = new} run step) =
      Step-IsRated a rs new step (Reach-IsRated a run)
