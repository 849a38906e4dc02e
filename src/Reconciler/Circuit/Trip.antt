-- ===== src/Reconciler/Circuit/Trip.antt =====
-- When a closed circuit of scanner_runtime.go opens.
use komodor_security_reporte.Reconciler.Circuit.{
  RuntimePolicy, Circuit, closed, open_circuit, new_circuit, succeed_circuit, fail_circuit, ℕ, pos,
}
use komodor_security_reporte.Prelude.{
  List, ◌≡◌, arith, ◌++◌, ◌∷◌, All, inl, length, suc, ◌+◌, ◌<◌, ◌⊎◌, inr, ◌↔◌, ◌≤◌, [], refl,
}

-- What is reported of one scan.
pub data Outcome : Type 0 where
  succeeded : Outcome
  failed_at : ℕ → Outcome

abbrev pub Failed : Outcome → Type 0
Failed succeeded = ⊥
Failed (failed_at _) = Unit

-- The outcomes hold `n` failures in a row.
abbrev pub HasStreak : ℕ → List Outcome → Type 0
HasStreak n outcomes =
    (before : List Outcome) × (streak : List Outcome) × (after : List Outcome) × (outcomes
      ≡ before ++ (streak ++ after))
    × (length streak ≡ n)
    × All Failed streak

-- The outcomes begin with `n` failures.
abbrev BeginsWithStreak : ℕ → List Outcome → Type 0
BeginsWithStreak n outcomes =
    (streak : List Outcome) × (after : List Outcome) × (outcomes ≡ streak ++ after)
    × (length streak ≡ n)
    × All Failed streak

module _ {F : Type 0} (policy : RuntimePolicy F) where
  unfoldable pub report : Outcome → Circuit → Circuit
  report succeeded c = succeed_circuit policy c
  report (failed_at now) c = fail_circuit policy now c

  unfoldable pub report_all : List Outcome → Circuit → Circuit
  report_all [] c = c
  report_all (o ∷ os) c = report_all os (report o c)

  report_all-append :
      (os ps : List Outcome) (c : Circuit)
      → report_all (os ++ ps) c ≡ report_all ps (report_all os c)
  unfolding report_all
  report_all-append [] ps c = refl
  report_all-append (o ∷ os) ps c = report_all-append os ps (report o c)

  report_open : (o : Outcome) (c : Circuit) → c.state ≡ open_circuit → report o c ≡ c
  unfolding report succeed_circuit fail_circuit
  report_open succeeded c h = ground arith
  report_open (failed_at now) c h = ground arith

  report_all_open : (os : List Outcome) (c : Circuit) → c.state ≡ open_circuit → report_all os c ≡ c
  unfolding report_all
  report_all_open [] c h = refl
  report_all_open (o ∷ os) c h = rw (report_open o c h) (report_all_open os c h)

  -- A closed circuit with `k` failures counted, below the threshold `n`.
  record IsCounting (n k : ℕ) (c : Circuit) : Type 0 where
    shut : c.state ≡ closed
    count : c.consecutive_failures ≡ pos k
    below : k < n

  module _ (n : ℕ) (threshold : policy.failure_threshold ≡ pos n) where
    report_succeeded :
        (k : ℕ) (c : Circuit) → IsCounting n k c → IsCounting n 0 (report succeeded c)
    unfolding report succeed_circuit
    report_succeeded k c h = ground arith

    report_failed :
        (k now : ℕ) (c : Circuit)
        → IsCounting n k c
        → IsCounting n (suc k) (report (failed_at now) c)
          ⊎ ((suc k ≡ n) × ((report (failed_at now) c).state ≡ open_circuit))
    unfolding report fail_circuit
    report_failed k now c h = ground arith

    -- An open end comes of a streak, which the failures counted at the start may begin.
    streak_of_open :
        (k : ℕ) (os : List Outcome) (c : Circuit)
        → IsCounting n k c
        → (report_all os c).state ≡ open_circuit
        → ((m : ℕ) × (m + k ≡ n) × BeginsWithStreak m os) ⊎ HasStreak n os
    unfolding report_all
    streak_of_open k [] c h e = cc (h.shut)
    streak_of_open k (succeeded ∷ os) c h e =
        elim (streak_of_open 0 os (report succeeded c) (report_succeeded k c h) e) [
          | inl (m, eq, (streak, after, split, len, fails)) ↦
              inr (succeeded ∷ [], streak, after, cc split, omega arith, fails)
          | inr (before, streak, after, split, len, fails) ↦
              inr (succeeded ∷ before, streak, after, cc split, len, fails)
        ]
    streak_of_open k (failed_at now ∷ os) c h e = elim (report_failed k now c h) [
      | inr (last, tripped) ↦ inl (1, omega arith, (failed_at now ∷ [], os, refl, refl, (tt, tt)))
      | inl more ↦ elim (streak_of_open (suc k) os (report (failed_at now) c) more e) [
        | inl (m, eq, (streak, after, split, len, fails)) ↦ inl (
          suc m,
          omega arith,
          (failed_at now ∷ streak, after, cc split, omega arith, (tt, fails)),
        )
        | inr (before, streak, after, split, len, fails) ↦
            inr (failed_at now ∷ before, streak, after, cc split, len, fails)
      ]
    ]

    -- Enough failures open the circuit.
    open_of_failures :
        (k : ℕ) (os : List Outcome) (c : Circuit)
        → IsCounting n k c
        → All Failed os
        → n ≤ length os + k
        → (report_all os c).state ≡ open_circuit
    unfolding report_all
    open_of_failures k [] c h fails enough = absurd (omega (arith, h.below))
    open_of_failures k (succeeded ∷ os) c h fails enough = absurd fails.0
    open_of_failures k (failed_at now ∷ os) c h fails enough = elim (report_failed k now c h) [
      | inr (last, tripped) ↦ rw (report_all_open os (report (failed_at now) c) tripped) tripped
      | inl more ↦ open_of_failures (suc k) os (report (failed_at now) c) more fails.1 (omega arith)
    ]

    -- Before it opens the circuit counts.
    IsCounting-or_open :
        (k : ℕ) (os : List Outcome) (c : Circuit)
        → IsCounting n k c
        → ((j : ℕ) × IsCounting n j (report_all os c)) ⊎ ((report_all os c).state ≡ open_circuit)
    unfolding report_all
    IsCounting-or_open k [] c h = inl (k, h)
    IsCounting-or_open k (succeeded ∷ os) c h =
        IsCounting-or_open 0 os (report succeeded c) (report_succeeded k c h)
    IsCounting-or_open k (failed_at now ∷ os) c h = elim (report_failed k now c h) [
      | inr (last, tripped) ↦
          inr (rw (report_all_open os (report (failed_at now) c) tripped) tripped)
      | inl more ↦ IsCounting-or_open (suc k) os (report (failed_at now) c) more
    ]

    open_of_streak :
        (os : List Outcome) (c : Circuit)
        → IsCounting n 0 c
        → HasStreak n os
        → (report_all os c).state ≡ open_circuit
    open_of_streak os c h (before, streak, after, split, len, fails) =
        let mid = report_all before c in
        let opened : (report_all streak mid).state ≡ open_circuit =
          elim (IsCounting-or_open 0 before c h) [
            | inl (j, counting) ↦ open_of_failures j streak mid counting fails (omega arith)
            | inr tripped ↦ rw (report_all_open streak mid tripped) tripped
          ] in
        rw split (
          rw (report_all-append before) (
            rw (report_all-append streak)
              (rw (report_all_open after (report_all streak mid) opened) opened)))

    -- A new circuit is open after some reported outcomes exactly when these hold as many failures
    -- in a row as the policy's threshold says.
    pub trips_exactly :
        (os : List Outcome)
        → 0 < n
        → ((report_all os new_circuit).state ≡ open_circuit) ↔ HasStreak n os
    trips_exactly os h =
        let fresh : IsCounting n 0 new_circuit = record { shut = refl; count = refl; below = h } in
        (
          λ e. elim (streak_of_open 0 os new_circuit fresh e) [
            | inl (m, eq, (streak, after, split, len, fails)) ↦
                ([], streak, after, split, omega arith, fails)
            | inr found ↦ found
          ],
          open_of_streak os new_circuit fresh,
        )
