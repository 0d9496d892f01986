-- ===== src/Llm/Circuit/Blocking.antt =====
-- What an open or half-open circuit breaker lets through (internal/llm/circuit.go).
use kyoci_agent.Prelude.{
  ℕ, ◌+◌, ◌≤◌, ◌<◌, ◌≡◌, Bool, true, false, none, some, List, [], ◌∷◌, arith, leb, if◌then◌else◌,
}
use kyoci_agent.Llm.Circuit.{
  CircuitBreaker, circuit_closed, circuit_open, circuit_half_open, err_circuit_open, record_failure,
  allow,
}
use kyoci_agent.Llm.Circuit.Trace.{Call, success, failure, ask, manual_reset, step, run}

-- Every failure is reported no earlier than the one before it, and every request is made within
-- the reset timeout of the last failure; nobody resets the breaker by hand.
unfoldable pub WithinTimeout : ℕ → ℕ → List Call → Type 0
WithinTimeout timeout last [] = Unit
WithinTimeout timeout last (success ∷ cs) = WithinTimeout timeout last cs
WithinTimeout timeout last (failure now ∷ cs) = WithinTimeout timeout now cs
WithinTimeout timeout last (ask now ∷ cs) = (now ≤ last + timeout) × WithinTimeout timeout last cs
WithinTimeout timeout last (manual_reset ∷ cs) = ⊥

-- The answers that the requests of a sequence get.
unfoldable pub answers : CircuitBreaker → List Call → List Bool
answers cb [] = []
answers cb (ask now ∷ cs) = (allow now cb).1 ∷ answers (step cb (ask now)) cs
answers cb (c ∷ cs) = answers (step cb c) cs

abbrev pub AllFalse : List Bool → Type 0
AllFalse [] = Unit
AllFalse (b ∷ bs) = (b ≡ false) × AllFalse bs

-- While an open breaker gets requests only within the reset timeout of the last failure, it stays
-- open and refuses every one, whatever successes and failures are reported between them.
pub open_refuses :
    (cb : CircuitBreaker) (cs : List Call)
    → cb.state ≡ circuit_open
    → WithinTimeout cb.reset_timeout cb.last_failure_time cs
    → ((run cb cs).state ≡ circuit_open) × AllFalse (answers cb cs)
unfolding run step answers WithinTimeout
open_refuses cb [] s h = (s, tt)
open_refuses cb (success ∷ cs) s h = open_refuses (step cb success) cs (ground arith) h
open_refuses cb (failure now ∷ cs) s h = ground (arith, open_refuses (step cb (failure now)) cs)
open_refuses cb (ask now ∷ cs) s h = ground (arith, open_refuses (step cb (ask now)) cs)
open_refuses cb (manual_reset ∷ cs) s h = absurd h

-- After the reset timeout an open breaker grants a request and is half-open. A success of that
-- request closes it with no failures counted. A failure is counted, and opens it again with an
-- error exactly if the count then reaches the threshold; otherwise it stays half-open.
pub trial_request :
    (cb : CircuitBreaker) (now later : ℕ)
    → cb.state ≡ circuit_open
    → cb.last_failure_time + cb.reset_timeout < now
    → ((allow now cb).1 ≡ true)
      × (step (step cb (ask now)) success ≡ record cb { state = circuit_closed; failures = 0 })
      × (record_failure later (step cb (ask now)) ≡ (
          let cb' = record cb { failures = cb.failures + 1; last_failure_time = later } in
          if leb cb.failure_threshold (cb.failures + 1)
          then (record cb' { state = circuit_open }, some err_circuit_open)
          else (record cb' { state = circuit_half_open }, none)))
unfolding step
trial_request cb now later s h = ground arith

-- A success that is reported while the breaker is open (a request sent before it opened) clears
-- the counter and leaves it open. With a threshold above one the failure of the next trial request
-- is then not enough: the breaker stays half-open, reports no error and grants every request.
pub late_success_defeats_trial :
    (cb : CircuitBreaker) (now later after : ℕ)
    → cb.state ≡ circuit_open
    → 1 < cb.failure_threshold
    → cb.last_failure_time + cb.reset_timeout < now
    → let (cb', error) = record_failure later (step (step cb success) (ask now)) in
      (cb'.state ≡ circuit_half_open) × (error ≡ none) × ((allow after cb').1 ≡ true)
unfolding step
late_success_defeats_trial cb now later after s t h = ground arith
