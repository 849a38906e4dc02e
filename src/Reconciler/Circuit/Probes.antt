-- ===== src/Reconciler/Circuit/Probes.antt =====
-- The half-open state of a circuit of scanner_runtime.go: its slots, and how they are lost.
use komodor_security_reporte.Reconciler.Circuit.{
  RuntimePolicy, Circuit, closed, open_circuit, half_open, allow_circuit, succeed_circuit,
  fail_circuit, ℕ, pos, ltb_ℤ, sub_ℕ,
}
use komodor_security_reporte.Reconciler.Circuit.Invariant.{IsPositive}
use komodor_security_reporte.Prelude.{
  List, ◌∷◌, ◌≡◌, ◌≤◌, length, ◌-◌, ◌+◌, arith, if◌then◌else◌, false, true, Bool-cases, [], leb,
  ◌<◌, inl, refl, inr,
}
use Prim.Native.Nat.{min, suc}

module _ {F : Type 0} (policy : RuntimePolicy F) where
  -- Calls of `allow` at these instants: the circuit, and how many were allowed.
  unfoldable pub allow_all : List ℕ → Circuit → Circuit × ℕ
  allow_all [] c = (c, 0)
  allow_all (now ∷ times) c =
      let (c', allowed) = allow_circuit policy now c in
      let (out, n) = allow_all times c' in (out, if allowed then suc n else n)

  -- An open circuit refuses until its duration has passed, and changes nothing; then it lets one
  -- scan through and is half open, with that scan's slot taken.
  pub allow_open :
      (now : ℕ) (c : Circuit)
      → IsPositive policy
      → c.state ≡ open_circuit
      → allow_circuit policy now c ≡ (
          if ltb_ℤ (sub_ℕ now c.opened_at) policy.open_duration
          then (c, false)
          else (record c { state = half_open; half_open_in_flight = 1 }, true))
  unfolding allow_circuit
  allow_open now c p h = ground arith

  -- One call on a half-open circuit.
  allow_half_open :
      (m now : ℕ) (c : Circuit)
      → policy.half_open_max_requests ≡ pos m
      → c.state ≡ half_open
      → allow_circuit policy now c ≡ (
          if leb m c.half_open_in_flight
          then (c, false)
          else (record c { half_open_in_flight = suc c.half_open_in_flight }, true))
  unfolding allow_circuit
  allow_half_open m now c e h = ground arith

  -- A half-open circuit with no free slot refuses every call and stays as it is.
  pub allow_all_full :
      (m : ℕ) (times : List ℕ) (c : Circuit)
      → policy.half_open_max_requests ≡ pos m
      → c.state ≡ half_open
      → m ≤ c.half_open_in_flight
      → allow_all times c ≡ (c, 0)
  unfolding allow_all
  allow_all_full m [] c e h full = refl
  allow_all_full m (now ∷ times) c e h full =
      ground (arith, allow_half_open m now c e h, allow_all_full m times c e h full)

  -- Until a probe reports, a half-open circuit lets as many calls through as it has free slots.
  half_open_admits :
      (m : ℕ) (times : List ℕ) (c : Circuit)
      → policy.half_open_max_requests ≡ pos m
      → c.state ≡ half_open
      → c.half_open_in_flight ≤ m
      → ((allow_all times c).1 ≡ min (length times) (m - c.half_open_in_flight))
        × ((allow_all times c).0
            ≡ record c { half_open_in_flight = c.half_open_in_flight + (allow_all times c).1 })
  unfolding allow_all
  half_open_admits m [] c e h fits = (omega arith, ground arith)
  half_open_admits m (now ∷ times) c e h fits = elim (Bool-cases (leb m c.half_open_in_flight)) [
    | inl full ↦
        rw (allow_half_open m now c e h)
          (rw full (rw (allow_all_full m times c e h (ground arith)) (ground arith, ground arith)))
    | inr free ↦
        let c' = record c { half_open_in_flight = suc c.half_open_in_flight } in
        let (count, end) = half_open_admits m times c' e h (ground arith) in
        rw (allow_half_open m now c e h)
          (rw free (ground (arith, count), ground (arith, end, count)))
  ]

  -- A successful probe closes the circuit and forgets the failures; a failed one opens it again
  -- from now on. Either gives its slot back.
  pub probe_reports :
      (now : ℕ) (c : Circuit)
      → c.state ≡ half_open
      → 0 < c.half_open_in_flight
      → ((succeed_circuit policy c).state ≡ closed)
        × ((succeed_circuit policy c).consecutive_failures ≡ pos 0)
        × ((succeed_circuit policy c).half_open_in_flight + 1 ≡ c.half_open_in_flight)
        × ((fail_circuit policy now c).state ≡ open_circuit)
        × ((fail_circuit policy now c).opened_at ≡ now)
        × ((fail_circuit policy now c).half_open_in_flight + 1 ≡ c.half_open_in_flight)
  unfolding succeed_circuit fail_circuit
  probe_reports now c h some_slot =
      (ground arith, ground arith, ground arith, ground arith, ground arith, ground arith)
