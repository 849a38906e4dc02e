-- ===== src/Reconciler/Circuit/Keyed.antt =====
-- The breaker of scanner_runtime.go as a whole: every circuit stays consistent, and a call for one
-- scanner leaves the circuits of the others alone.
use komodor_security_reporte.Prelude.Text.{Text, text_eq_iff, text_eq}
use komodor_security_reporte.Prelude.Dict.{lookup, lookup-put, put}
use komodor_security_reporte.Reconciler.Circuit.{
  RuntimePolicy, Circuit, Breaker, get_or_create, allow, on_success, on_failure, circuit_state, ℕ,
  allow_circuit, succeed_circuit, fail_circuit,
}
use komodor_security_reporte.Reconciler.Circuit.Invariant.{
  IsPositive, IsConsistent, new_circuit-IsConsistent, allow-IsConsistent, succeed-IsConsistent,
  fail-IsConsistent,
}
use komodor_security_reporte.Prelude.{
  List, Bool-cases, [], ◌∷◌, ◌≡◌, if◌then◌else◌, inl, arith, inr, refl, ◌∙◌, ap,
}

pub get_or_create-put :
    (k j : Text) (c : Circuit) (b : Breaker)
    → get_or_create j (put k c b) ≡ (if text_eq k j then c else get_or_create j b)
unfolding get_or_create
get_or_create-put k j c b = ground (arith, lookup-put k j c b)

-- A call that scans make of the breaker.
pub data Call : Type 0 where
  allow_call : ℕ → Text → Call
  success_call : Text → Call
  failure_call : ℕ → Text → Call
  state_call : Text → Call

abbrev pub target : Call → Text
target (allow_call _ name) = name
target (success_call name) = name
target (failure_call _ name) = name
target (state_call name) = name

module _ {F : Type 0} (policy : RuntimePolicy F) where
  unfoldable pub call : Call → Breaker → Breaker
  call (allow_call now name) b = (allow policy now name b).0
  call (success_call name) b = on_success policy name b
  call (failure_call now name) b = on_failure policy now name b
  call (state_call name) b = (circuit_state name b).0

  -- Calls in the order in which the mutex lets them through, from any number of scans.
  unfoldable pub call_all : List Call → Breaker → Breaker
  call_all [] b = b
  call_all (k ∷ ks) b = call_all ks (call k b)

  abbrev pub AllConsistent : Breaker → Type 0
  AllConsistent b = (name : Text) → IsConsistent policy (get_or_create name b)

  put-AllConsistent :
      (k : Text) (c : Circuit) (b : Breaker)
      → IsConsistent policy c
      → AllConsistent b
      → AllConsistent (put k c b)
  put-AllConsistent k c b hc hb j =
      rw (get_or_create-put k j c b)
        (elim (Bool-cases (text_eq k j)) [ inl e ↦ rw e hc | inr e ↦ rw e (hb j) ])

  call-AllConsistent :
      (k : Call) (b : Breaker) → IsPositive policy → AllConsistent b → AllConsistent (call k b)
  unfolding call allow on_success on_failure circuit_state
  call-AllConsistent (allow_call now name) b p h =
      put-AllConsistent name _ b (allow-IsConsistent policy p now (get_or_create name b) (h name)) h
  call-AllConsistent (success_call name) b p h =
      put-AllConsistent name _ b (succeed-IsConsistent policy p (get_or_create name b) (h name)) h
  call-AllConsistent (failure_call now name) b p h =
      put-AllConsistent name _ b (fail-IsConsistent policy p now (get_or_create name b) (h name)) h
  call-AllConsistent (state_call name) b p h = put-AllConsistent name _ b (h name) h

  call_all_consistent :
      (ks : List Call) (b : Breaker)
      → IsPositive policy
      → AllConsistent b
      → AllConsistent (call_all ks b)
  unfolding call_all
  call_all_consistent [] b p h = h
  call_all_consistent (k ∷ ks) b p h =
      call_all_consistent ks (call k b) p (call-AllConsistent k b p h)

  -- Whatever calls a new breaker has answered, every circuit is consistent: a closed one counts
  -- fewer failures than the threshold, another exactly as many, and no more slots are taken than
  -- there are.
  pub call_all-AllConsistent : (ks : List Call) → IsPositive policy → AllConsistent (call_all ks [])
  call_all-AllConsistent ks p =
      call_all_consistent ks [] p
        (λ name. unfold get_or_create lookup in new_circuit-IsConsistent policy p)

  -- What a call does to the circuit of its scanner.
  unfoldable pub call_circuit : Call → Circuit → Circuit
  call_circuit (allow_call now _) c = (allow_circuit policy now c).0
  call_circuit (success_call _) c = succeed_circuit policy c
  call_circuit (failure_call now _) c = fail_circuit policy now c
  call_circuit (state_call _) c = c

  call-put :
      (k : Call) (b : Breaker)
      → call k b ≡ put (target k) (call_circuit k (get_or_create (target k) b)) b
  unfolding call call_circuit allow on_success on_failure circuit_state
  call-put (allow_call now name) b = refl
  call-put (success_call name) b = refl
  call-put (failure_call now name) b = refl
  call-put (state_call name) b = refl

  call_at :
      (k : Call) (b : Breaker) (name : Text)
      → get_or_create name (call k b) ≡ (
          if text_eq (target k) name
          then call_circuit k (get_or_create name b)
          else get_or_create name b)
  call_at k b name =
      rw (call-put k b) (rw get_or_create-put (ground (arith, text_eq_iff (target k) name)))

  -- The calls for one scanner, in their order, on its circuit alone.
  unfoldable pub run_circuit : Text → List Call → Circuit → Circuit
  run_circuit name [] c = c
  run_circuit name (k ∷ ks) c =
      run_circuit name ks (if text_eq (target k) name then call_circuit k c else c)

  -- However the calls for several scanners interleave, the circuit of each is what its own calls
  -- make of it.
  pub call_all-run_circuit :
      (ks : List Call) (b : Breaker) (name : Text)
      → get_or_create name (call_all ks b) ≡ run_circuit name ks (get_or_create name b)
  unfolding call_all run_circuit
  call_all-run_circuit [] b name = refl
  call_all-run_circuit (k ∷ ks) b name =
      call_all-run_circuit ks (call k b) name ∙ ap (run_circuit name ks) (call_at k b name)
