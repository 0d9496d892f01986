-- ===== src/Llm/Circuit.antt =====
-- The circuit breaker of a provider (internal/llm/circuit.go).
-- Instants and durations are nanoseconds on the monotonic clock; `now` is what `time.Now()` reads.
-- The log lines are left out, and a method runs whole because it holds `mu`.
pub mod Trace
pub mod Blocking
mod Tests
use kyoci_agent.Prelude.{ℕ, ◌+◌, Bool, true, false, Option, none, some, ltb, leb, if◌then◌else◌}

pub data CircuitState : Type 0 where
  circuit_closed circuit_open circuit_half_open : CircuitState

pub record CircuitBreaker : Type 0 where
  pub failure_threshold : ℕ
  pub reset_timeout : ℕ
  pub state : CircuitState
  pub failures : ℕ
  pub last_failure_time : ℕ

-- The sentinel `apperr.ErrCircuitOpen`, the one error of this file.
pub data CircuitError : Type 0 where
  err_circuit_open : CircuitError

unfoldable pub new_circuit_breaker : ℕ → ℕ → CircuitBreaker
new_circuit_breaker failure_threshold reset_timeout = record {
  failure_threshold = failure_threshold;
  reset_timeout = reset_timeout;
  state = circuit_closed;
  failures = 0;
  last_failure_time = 0;
}

close_if_half_open : CircuitState → CircuitState
close_if_half_open circuit_half_open = circuit_closed
close_if_half_open s = s

unfoldable pub record_success : CircuitBreaker → CircuitBreaker
unfolding close_if_half_open
record_success cb = record cb { state = close_if_half_open cb.state; failures = 0 }

unfoldable pub record_failure : ℕ → CircuitBreaker → CircuitBreaker × Option CircuitError
record_failure now cb =
    let cb' = record cb { failures = cb.failures + 1; last_failure_time = now } in
    if leb cb.failure_threshold (cb.failures + 1)
    then (record cb' { state = circuit_open }, some err_circuit_open)
    else (cb', none)

-- The `switch` of `Allow`.
allow_in : CircuitState → ℕ → CircuitBreaker → CircuitBreaker × Bool
allow_in circuit_closed now cb = (cb, true)
allow_in circuit_open now cb =
    if ltb (cb.last_failure_time + cb.reset_timeout) now
    then (record cb { state = circuit_half_open }, true)
    else (cb, false)
allow_in circuit_half_open now cb = (cb, true)

unfoldable pub allow : ℕ → CircuitBreaker → CircuitBreaker × Bool
unfolding allow_in
allow now cb = allow_in cb.state now cb

unfoldable pub reset : CircuitBreaker → CircuitBreaker
reset cb = record cb { state = circuit_closed; failures = 0 }
