-- ===== src/Llm/Circuit/Trace.antt =====
-- Sequences of calls of one circuit breaker (internal/llm/circuit.go), in the order in which they
-- take `mu`, and what they count.
use kyoci_agent.Prelude.{ℕ, ◌+◌, ◌<◌, ◌≡◌, refl, List, [], ◌∷◌, arith}
use kyoci_agent.Llm.Circuit.{
  CircuitBreaker, circuit_closed, new_circuit_breaker, record_success, record_failure, allow, reset,
}

pub data Call : Type 0 where
  success : Call
  failure : ℕ → Call
  ask : ℕ → Call
  manual_reset : Call

unfoldable pub step : CircuitBreaker → Call → CircuitBreaker
unfolding record_success record_failure allow reset
step cb success = record_success cb
step cb (failure now) = (record_failure now cb).0
step cb (ask now) = (allow now cb).0
step cb manual_reset = reset cb

unfoldable pub run : CircuitBreaker → List Call → CircuitBreaker
run cb [] = cb
run cb (c ∷ cs) = run (step cb c) cs

-- How many failures were reported since the last success or reset, counting on from `n`.
unfoldable pub streak : ℕ → List Call → ℕ
streak n [] = n
streak n (success ∷ cs) = streak 0 cs
streak n (failure _ ∷ cs) = streak (n + 1) cs
streak n (ask _ ∷ cs) = streak n cs
streak n (manual_reset ∷ cs) = streak 0 cs

-- No moment of the sequence has a streak of `t` failures.
unfoldable pub StaysBelow : ℕ → ℕ → List Call → Type 0
StaysBelow t n [] = n < t
StaysBelow t n (success ∷ cs) = StaysBelow t 0 cs
StaysBelow t n (failure _ ∷ cs) = (n + 1 < t) × StaysBelow t (n + 1) cs
StaysBelow t n (ask _ ∷ cs) = StaysBelow t n cs
StaysBelow t n (manual_reset ∷ cs) = StaysBelow t 0 cs

-- After any calls the counter of the breaker is the number of failures reported since the last
-- success or manual reset.
pub failures-run :
    (cb : CircuitBreaker) (cs : List Call) → (run cb cs).failures ≡ streak cb.failures cs
unfolding run step streak
failures-run cb [] = refl
failures-run cb (success ∷ cs) = failures-run (step cb success) cs
failures-run cb (failure t ∷ cs) = ground (arith, failures-run (step cb (failure t)) cs)
failures-run cb (ask t ∷ cs) = ground (arith, failures-run (step cb (ask t)) cs)
failures-run cb (manual_reset ∷ cs) = failures-run (step cb manual_reset) cs

-- What a closed breaker keeps.
record IsQuiet (t : ℕ) (cb : CircuitBreaker) : Type 0 where
  threshold : cb.failure_threshold ≡ t
  quiet : cb.state ≡ circuit_closed → cb.failures < t

step-IsQuiet :
    (t : ℕ) (cb : CircuitBreaker) (c : Call) → 0 < t → IsQuiet t cb → IsQuiet t (step cb c)
unfolding step
step-IsQuiet t cb success p h = ground arith
step-IsQuiet t cb (failure now) p h = ground arith
step-IsQuiet t cb (ask now) p h = ground arith
step-IsQuiet t cb manual_reset p h = ground arith

run-IsQuiet :
    (t : ℕ) (cb : CircuitBreaker) (cs : List Call) → 0 < t → IsQuiet t cb → IsQuiet t (run cb cs)
unfolding run
run-IsQuiet t cb [] p h = h
run-IsQuiet t cb (c ∷ cs) p h = run-IsQuiet t (step cb c) cs p (step-IsQuiet t cb c p h)

new-IsQuiet : (t r : ℕ) → 0 < t → IsQuiet t (new_circuit_breaker t r)
unfolding new_circuit_breaker
new-IsQuiet t r p = ground arith

stays_closed :
    (t : ℕ) (cb : CircuitBreaker) (cs : List Call)
    → cb.failure_threshold ≡ t
    → cb.state ≡ circuit_closed
    → StaysBelow t cb.failures cs
    → (run cb cs).state ≡ circuit_closed
unfolding run step StaysBelow
stays_closed t cb [] e s h = s
stays_closed t cb (success ∷ cs) e s h = stays_closed t (step cb success) cs e (ground arith) h
stays_closed t cb (failure now ∷ cs) e s h =
    ground (arith, stays_closed t (step cb (failure now)) cs)
stays_closed t cb (ask now ∷ cs) e s h = ground (arith, stays_closed t (step cb (ask now)) cs)
stays_closed t cb (manual_reset ∷ cs) e s h = stays_closed t (step cb manual_reset) cs e refl h

-- A new breaker is closed as long as no streak of failures has reached its threshold.
pub run-new-closed :
    (t r : ℕ) (cs : List Call)
    → StaysBelow t 0 cs
    → (run (new_circuit_breaker t r) cs).state ≡ circuit_closed
unfolding new_circuit_breaker
run-new-closed t r cs h = stays_closed t (new_circuit_breaker t r) cs refl refl h

-- A breaker that was made with a positive threshold and is closed, after any calls, has fewer
-- failures since the last success or reset than the threshold.
pub closed-streak-lt :
    (t r : ℕ) (cs : List Call)
    → 0 < t
    → (run (new_circuit_breaker t r) cs).state ≡ circuit_closed
    → streak 0 cs < t
unfolding new_circuit_breaker
closed-streak-lt t r cs p s =
    let q = run-IsQuiet t (new_circuit_breaker t r) cs p (new-IsQuiet t r p) in
    ground (arith, failures-run (new_circuit_breaker t r) cs, q.quiet s)
