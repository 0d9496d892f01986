-- ===== src/Llm/Circuit/Tests.antt =====
-- Runs of the circuit breaker (internal/llm/circuit.go), and instances of its theorems.
use kyoci_agent.Prelude.{◌≡◌, refl, true, none, List, [], ◌∷◌, arith}
use kyoci_agent.Llm.Circuit.{
  CircuitBreaker, circuit_closed, circuit_open, circuit_half_open, new_circuit_breaker,
  record_failure, allow,
}
use kyoci_agent.Llm.Circuit.Trace.{
  Call, success, failure, ask, step, run, streak, StaysBelow, failures-run, run-new-closed,
}
use kyoci_agent.Llm.Circuit.Blocking.{late_success_defeats_trial}

abbrev fresh : CircuitBreaker
unfolding new_circuit_breaker
fresh = new_circuit_breaker 3 100

abbrev three_failures : List Call
three_failures = failure 10 ∷ ask 11 ∷ failure 12 ∷ failure 13 ∷ []

opened : CircuitBreaker
unfolding run step
opened = run fresh three_failures

opened-is_open : opened.state ≡ circuit_open
unfolding opened fresh
opened-is_open = refl

half_open_after_timeout : (allow 114 opened).0.state ≡ circuit_half_open
unfolding opened fresh allow
half_open_after_timeout = refl

failures-run_example : (run fresh three_failures).failures ≡ streak fresh.failures three_failures
failures-run_example = failures-run fresh three_failures

run-new-closed_example :
    (run (new_circuit_breaker 3 100) (failure 1 ∷ failure 2 ∷ success ∷ failure 3 ∷ [])).state
    ≡ circuit_closed
unfolding StaysBelow
run-new-closed_example =
    run-new-closed 3 100 (failure 1 ∷ failure 2 ∷ success ∷ failure 3 ∷ []) (omega arith)

abbrev busy : List Call
busy = ask 50 ∷ success ∷ failure 60 ∷ ask 160 ∷ []

late_success_defeats_trial_example :
    let (cb', error) = record_failure 120 (step (step opened success) (ask 114)) in
    (cb'.state ≡ circuit_half_open) × (error ≡ none) × ((allow 130 cb').1 ≡ true)
unfolding opened fresh
late_success_defeats_trial_example =
    late_success_defeats_trial opened 114 120 130 refl (omega arith) (omega arith)
