-- ===== src/Breaker.antt =====
-- utils/circuit_breaker.py: the circuit breaker of the model calls. Each section that the source
-- runs under `_lock` is one function of the breaker and of the clock reading that it takes, so an
-- interleaving of threads is a list of such sections. Times are ticks of the monotonic clock.
pub mod Trace
pub mod Trip
mod Tests
use rag_support_assistant.Prelude.{
  ℕ, zero, suc, ◌+◌, Bool, true, false, ◌&&◌, ◌||◌, Option, none, some, List, [], ◌∷◌, leb, ◌==◌,
  if◌then◌else◌,
}

-- `CircuitState`; `opened` is the source's `OPEN`
pub data CircuitState : Type 0 where
  closed opened half_open : CircuitState

pub record CircuitBreaker : Type 0 where
  pub failure_threshold : ℕ
  pub reset_timeout : ℕ
  pub state : CircuitState
  pub consecutive_failures : ℕ
  pub opened_at : ℕ
  pub half_open_in_flight : Bool

-- a breaker as its constructor leaves it
abbrev pub new : ℕ → ℕ → CircuitBreaker
new failure_threshold reset_timeout = record {
  failure_threshold = failure_threshold;
  reset_timeout = reset_timeout;
  state = closed;
  consecutive_failures = 0;
  opened_at = 0;
  half_open_in_flight = false;
}

abbrev pub is_opened : CircuitState → Bool
is_opened opened = true
is_opened _ = false

abbrev pub is_half_open : CircuitState → Bool
is_half_open half_open = true
is_half_open _ = false

-- what `_emit_state_change` hands to the callback: nothing when the state is the same
abbrev pub state_change : CircuitState → CircuitState → Option (CircuitState × CircuitState)
state_change closed closed = none
state_change opened opened = none
state_change half_open half_open = none
state_change old new_state = some (old, new_state)

-- the first test of `state` and of `call`: an open circuit whose timeout is over becomes half open
unfoldable pub refresh : ℕ → CircuitBreaker → CircuitBreaker
refresh now b =
    if is_opened b.state && leb (b.opened_at + b.reset_timeout) now
    then record b { state = half_open; half_open_in_flight = false }
    else b

-- the property `state`
unfoldable pub observe : ℕ → CircuitBreaker → CircuitBreaker × CircuitState
unfolding refresh
observe now b = let b' = refresh now b in (b', b'.state)

pub data Admission : Type 0 where
  admitted rejected_open rejected_probe : Admission

admit : CircuitState → CircuitBreaker → CircuitBreaker × Admission
admit opened b = (b, rejected_open)
admit half_open b =
    if b.half_open_in_flight
    then (b, rejected_probe)
    else (record b { half_open_in_flight = true }, admitted)
admit closed b = (b, admitted)

-- the locked section at the head of `call`; a rejection is the `CircuitOpenError`
unfoldable pub enter : ℕ → CircuitBreaker → CircuitBreaker × Admission
unfolding refresh admit
enter now b = let b' = refresh now b in admit b'.state b'

unfoldable pub record_failure : ℕ → CircuitBreaker → CircuitBreaker
record_failure now b =
    let b' = record b {
      consecutive_failures = b.consecutive_failures + 1;
      half_open_in_flight = false;
    } in
    if is_half_open b'.state || leb b'.failure_threshold b'.consecutive_failures
    then record b' { state = opened; opened_at = now }
    else b'

unfoldable pub record_success : CircuitBreaker → CircuitBreaker
record_success b = record b {
  consecutive_failures = 0;
  state = closed;
  opened_at = 0;
  half_open_in_flight = false;
}

unfoldable pub reset : CircuitBreaker → CircuitBreaker
reset b = record b {
  state = closed;
  consecutive_failures = 0;
  opened_at = 0;
  half_open_in_flight = false;
}

-- `snapshot`: an `_opened_at` of 0 is falsy and shown as `None`
pub record Snapshot : Type 0 where
  pub state : CircuitState
  pub consecutive_failures : ℕ
  pub opened_at_monotonic : Option ℕ

unfoldable pub snapshot : CircuitBreaker → Snapshot
snapshot b = record {
  state = b.state;
  consecutive_failures = b.consecutive_failures;
  opened_at_monotonic = if b.opened_at == 0 then none else some b.opened_at;
}

-- how the wrapped function ends: with a result, with an `Exception`, or with another
-- `BaseException` (a cancelled task, an interrupt), which `except Exception` does not catch
pub data Outcome : Type 0 where
  returns raises aborts : Outcome

unfoldable pub settle : Outcome → ℕ → CircuitBreaker → CircuitBreaker
unfolding record_failure record_success
settle returns now b = record_success b
settle raises now b = record_failure now b
settle aborts now b = b

-- `call` run with no other thread between its sections; `later` is the clock when `fn` ends
unfoldable pub call : ℕ → Outcome → ℕ → CircuitBreaker → CircuitBreaker × Admission
unfolding enter settle
call now outcome later b =
    let (b', a) = enter now b in
    elim a [
      | admitted ↦ (settle outcome later b', admitted)
      | rejected_open ↦ (b', rejected_open)
      | rejected_probe ↦ (b', rejected_probe)
    ]

-- one locked section, run by any thread
pub data Section : Type 0 where
  entering : ℕ → Section
  observing : ℕ → Section
  failing : ℕ → Section
  succeeding : Section
  resetting : Section

unfoldable pub step : CircuitBreaker → Section → CircuitBreaker
unfolding enter observe record_failure record_success reset
step b (entering now) = (enter now b).0
step b (observing now) = (observe now b).0
step b (failing now) = record_failure now b
step b succeeding = record_success b
step b resetting = reset b

unfoldable pub run : CircuitBreaker → List Section → CircuitBreaker
unfolding step
run b [] = b
run b (s ∷ ss) = run (step b s) ss

-- what threads do with whole calls: one begins, a call that was admitted ends, or `state` is read
pub data CallEvent : Type 0 where
  begins : ℕ → CallEvent
  ends : Outcome → ℕ → CallEvent
  reads : ℕ → CallEvent

-- the breaker and the number of admitted calls whose function runs
pub record Calls : Type 0 where
  pub breaker : CircuitBreaker
  pub running : ℕ

abbrev pub one_more : Admission → ℕ → ℕ
one_more admitted k = k + 1
one_more _ k = k

-- only a call that runs can end
abbrev pub end_one : Outcome → ℕ → CircuitBreaker → ℕ → Calls
end_one outcome now b zero = record { breaker = b; running = zero }
end_one outcome now b (suc k) = record { breaker = settle outcome now b; running = k }

unfoldable pub calls_step : Calls → CallEvent → Calls
unfolding enter observe settle
calls_step c (begins now) =
    let (b, a) = enter now c.breaker in record { breaker = b; running = one_more a c.running }
calls_step c (ends outcome now) = end_one outcome now c.breaker c.running
calls_step c (reads now) = record c { breaker = (observe now c.breaker).0 }

unfoldable pub calls_run : Calls → List CallEvent → Calls
unfolding calls_step
calls_run c [] = c
calls_run c (e ∷ es) = calls_run (calls_step c e) es
