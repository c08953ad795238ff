-- ===== src/Breaker/Trip.antt =====
-- utils/circuit_breaker.py: whole calls, when the breaker trips and when it closes.
use rag_support_assistant.Prelude.{
  ℕ, ◌+◌, ◌≡◌, refl, List, [], ◌∷◌, length, leb, if◌then◌else◌, arith, ◌≤◌, ◌<◌, suc,
}
use rag_support_assistant.Breaker.{
  CircuitBreaker, closed, opened, admitted, raises, returns, call, new,
}

-- calls that are made one after the other and all raise an `Exception`, each in one tick
abbrev pub failing_calls : List ℕ → CircuitBreaker → CircuitBreaker
failing_calls [] b = b
failing_calls (now ∷ ts) b = failing_calls ts (call now raises now b).0

-- a closed breaker after one more failing call
closed_call :
    (now : ℕ) (b : CircuitBreaker)
    → b.state ≡ closed
    → ((call now raises now b).0.state
        ≡ (if leb b.failure_threshold (b.consecutive_failures + 1) then opened else closed))
      × ((call now raises now b).0.consecutive_failures ≡ b.consecutive_failures + 1)
      × ((call now raises now b).0.failure_threshold ≡ b.failure_threshold)
unfolding call
closed_call now b h = ground arith

closed_run :
    (ts : List ℕ) (b : CircuitBreaker)
    → b.state ≡ closed
    → b.consecutive_failures + length ts < b.failure_threshold
    → ((failing_calls ts b).state ≡ closed)
      × ((failing_calls ts b).consecutive_failures ≡ b.consecutive_failures + length ts)
      × ((failing_calls ts b).failure_threshold ≡ b.failure_threshold)
closed_run [] b h room = ground arith
closed_run (now ∷ ts) b h room =
    let (st, cf, ft) = closed_call now b h in
    let (st', cf', ft') = closed_run ts (call now raises now b).0 (ground arith) (ground arith) in
    (st', ground arith, ground arith)

last_call :
    (now : ℕ) (b : CircuitBreaker)
    → b.state ≡ closed
    → ((call now raises now b).0.state
        ≡ (if leb b.failure_threshold (b.consecutive_failures + 1) then opened else closed))
      × ((call now raises now b).0.opened_at
          ≡ (if leb b.failure_threshold (b.consecutive_failures + 1) then now else b.opened_at))
unfolding call
last_call now b h = ground arith

-- From a new breaker, calls made one after the other, each in one tick of the clock, that all raise
-- an `Exception` leave it closed while they are fewer than the threshold, and the next failing call
-- opens it exactly when the threshold is reached.
pub failing_calls_trip :
    (threshold timeout last : ℕ) (ts : List ℕ)
    → length ts < threshold
    → ((failing_calls ts (new threshold timeout)).state ≡ closed)
      × ((call last raises last (failing_calls ts (new threshold timeout))).0.state
          ≡ (if leb threshold (suc (length ts)) then opened else closed))
failing_calls_trip threshold timeout last ts room =
    let (st, cf, ft) = closed_run ts (new threshold timeout) refl (omega arith) in
    let (tripped, at) = last_call last (failing_calls ts (new threshold timeout)) st in
    (st, ground arith)

-- When the timeout of an open circuit is over, the next call is admitted as the probe; a result
-- closes the circuit and clears the failures, and an `Exception` opens it again for a full timeout.
pub probe_decides :
    (b : CircuitBreaker) (now later : ℕ)
    → b.state ≡ opened
    → b.opened_at + b.reset_timeout ≤ now
    → ((call now returns later b).1 ≡ admitted)
      × ((call now returns later b).0.state ≡ closed)
      × ((call now returns later b).0.consecutive_failures ≡ 0)
      × ((call now raises later b).1 ≡ admitted)
      × ((call now raises later b).0.state ≡ opened)
      × ((call now raises later b).0.opened_at ≡ later)
unfolding call
probe_decides b now later h due = ground arith
