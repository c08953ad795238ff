-- ===== src/Breaker/Trace.antt =====
-- utils/circuit_breaker.py: the interleavings of the breaker's locked sections.
use rag_support_assistant.Prelude.{
  ℕ, ◌+◌, ◌≡◌, ◌≢◌, ◌⊎◌, refl, List, [], ◌∷◌, arith, ◌≤◌, ◌<◌, true, All,
}
use rag_support_assistant.Breaker.{
  CircuitBreaker, Section, closed, opened, half_open, admitted, enter, step, run, new, entering,
  observing, failing, succeeding, resetting, aborts, call, CallEvent, begins, ends, reads,
  calls_step, calls_run, observe,
}

-- the probe flag is up only in the half-open state, and only an open circuit has an opening time
pub record IsCoherent (b : CircuitBreaker) : Type 0 where
  pub probe_half_open : b.half_open_in_flight ≡ true → b.state ≡ half_open
  pub closed_cleared : b.state ≡ closed → b.opened_at ≡ 0
  pub closed_below :
      b.state ≡ closed
      → (b.consecutive_failures ≡ 0) ⊎ (b.consecutive_failures < b.failure_threshold)

step-IsCoherent : (b : CircuitBreaker) (s : Section) → IsCoherent b → IsCoherent (step b s)
unfolding step
step-IsCoherent b (entering now) h = ground arith
step-IsCoherent b (observing now) h = ground arith
step-IsCoherent b (failing now) h = ground arith
step-IsCoherent b succeeding h = ground arith
step-IsCoherent b resetting h = ground arith

run-IsCoherent : (b : CircuitBreaker) (ss : List Section) → IsCoherent b → IsCoherent (run b ss)
unfolding run
run-IsCoherent b [] h = h
run-IsCoherent b (s ∷ ss) h = run-IsCoherent (step b s) ss (step-IsCoherent b s h)

-- However the sections of the threads interleave, the probe flag of a breaker is up only in the
-- half-open state, and while the circuit is closed it has no opening time and fewer failures on
-- record than the threshold (or none).
pub run-new-IsCoherent :
    (threshold timeout : ℕ) (ss : List Section) → IsCoherent (run (new threshold timeout) ss)
run-new-IsCoherent threshold timeout ss = run-IsCoherent (new threshold timeout) ss (ground arith)

-- sections that neither record an outcome nor reset, and that run before `limit`
abbrev pub IsWaiting : ℕ → Section → Type 0
IsWaiting limit (entering now) = now < limit
IsWaiting limit (observing now) = now < limit
IsWaiting limit _ = ⊥

open_step :
    (b : CircuitBreaker) (s : Section)
    → b.state ≡ opened
    → IsWaiting (b.opened_at + b.reset_timeout) s
    → step b s ≡ b
unfolding step
open_step b (entering now) h w = ground arith
open_step b (observing now) h w = ground arith
open_step b (failing now) h w = elim w [ ]
open_step b succeeding h w = elim w [ ]
open_step b resetting h w = elim w [ ]

open_run :
    (b : CircuitBreaker) (ss : List Section)
    → b.state ≡ opened
    → All (IsWaiting (b.opened_at + b.reset_timeout)) ss
    → run b ss ≡ b
unfolding run
open_run b [] h w = refl
open_run b (s ∷ ss) h w = rw (open_step b s h w.0) (open_run b ss h w.1)

open_enter :
    (b : CircuitBreaker) (now : ℕ)
    → b.state ≡ opened
    → now < b.opened_at + b.reset_timeout
    → (enter now b).1 ≢ admitted
unfolding enter
open_enter b now h w = ground arith

-- Until its timeout is over, an open circuit admits no call, whatever calls and reads of `state`
-- other threads make in between: only a recorded outcome or a reset could change it.
pub open_refuses :
    (b : CircuitBreaker) (ss : List Section) (now : ℕ)
    → b.state ≡ opened
    → All (IsWaiting (b.opened_at + b.reset_timeout)) ss
    → now < b.opened_at + b.reset_timeout
    → (run b ss ≡ b) × ((enter now (run b ss)).1 ≢ admitted)
open_refuses b ss now h w late =
    let same = open_run b ss h w in (same, rw same (open_enter b now h late))

-- sections that neither record an outcome nor reset, at any time
abbrev pub IsPassive : Section → Type 0
IsPassive (entering now) = Unit
IsPassive (observing now) = Unit
IsPassive _ = ⊥

probing_step :
    (b : CircuitBreaker) (s : Section)
    → b.state ≡ half_open
    → b.half_open_in_flight ≡ true
    → IsPassive s
    → step b s ≡ b
unfolding step
probing_step b (entering now) h f w = ground arith
probing_step b (observing now) h f w = ground arith
probing_step b (failing now) h f w = elim w [ ]
probing_step b succeeding h f w = elim w [ ]
probing_step b resetting h f w = elim w [ ]

probing_run :
    (b : CircuitBreaker) (ss : List Section)
    → b.state ≡ half_open
    → b.half_open_in_flight ≡ true
    → All IsPassive ss
    → run b ss ≡ b
unfolding run
probing_run b [] h f w = refl
probing_run b (s ∷ ss) h f w = rw (probing_step b s h f w.0) (probing_run b ss h f w.1)

probing_enter :
    (b : CircuitBreaker) (now : ℕ)
    → b.state ≡ half_open
    → b.half_open_in_flight ≡ true
    → (enter now b).1 ≢ admitted
unfolding enter
probing_enter b now h f = ground arith

probe_admitted :
    (b : CircuitBreaker) (now : ℕ)
    → b.state ≡ opened
    → b.opened_at + b.reset_timeout ≤ now
    → ((enter now b).1 ≡ admitted)
      × ((enter now b).0.state ≡ half_open)
      × ((enter now b).0.half_open_in_flight ≡ true)
unfolding enter
probe_admitted b now h due = ground arith

-- Once the timeout of an open circuit is over, exactly one call is admitted: the first one is the
-- probe, and until an outcome is recorded or the breaker is reset no other call is, whatever the
-- threads do.
pub single_probe :
    (b : CircuitBreaker) (now : ℕ) (ss : List Section) (later : ℕ)
    → b.state ≡ opened
    → b.opened_at + b.reset_timeout ≤ now
    → All IsPassive ss
    → ((enter now b).1 ≡ admitted) × ((enter later (run (enter now b).0 ss)).1 ≢ admitted)
single_probe b now ss later h due w =
    let (ok, st, fl) = probe_admitted b now h due in
    (ok, rw (probing_run (enter now b).0 ss st fl w) (probing_enter (enter now b).0 later st fl))

aborted_call :
    (b : CircuitBreaker) (now later : ℕ)
    → b.state ≡ opened
    → b.opened_at + b.reset_timeout ≤ now
    → ((call now aborts later b).0.state ≡ half_open)
      × ((call now aborts later b).0.half_open_in_flight ≡ true)
unfolding call
aborted_call b now later h due = ground arith

-- while the probe's flag is up and no call runs, nothing that threads do changes the breaker
stuck_step :
    (b : CircuitBreaker) (e : CallEvent)
    → b.state ≡ half_open
    → b.half_open_in_flight ≡ true
    → calls_step (record { breaker = b; running = 0 }) e ≡ record { breaker = b; running = 0 }
unfolding calls_step enter observe
stuck_step b (begins now) h f = ground arith
stuck_step b (ends outcome now) h f = refl
stuck_step b (reads now) h f = ground arith

stuck_run :
    (b : CircuitBreaker) (es : List CallEvent)
    → b.state ≡ half_open
    → b.half_open_in_flight ≡ true
    → calls_run (record { breaker = b; running = 0 }) es ≡ record { breaker = b; running = 0 }
unfolding calls_run
stuck_run b [] h f = refl
stuck_run b (e ∷ es) h f = rw (stuck_step b e h f) (stuck_run b es h f)

-- A probe that ends by a `BaseException` which is no `Exception`, while no other call runs, locks
-- the breaker: whatever calls threads begin and end and however often they read `state` afterwards,
-- in any order and at any time, no call is admitted, so none runs that could record an outcome, and
-- the breaker stays as it is. Only `reset`, which is not among these events, could change it.
pub aborted_probe_locks :
    (b : CircuitBreaker) (now later : ℕ) (es : List CallEvent) (much_later : ℕ)
    → b.state ≡ opened
    → b.opened_at + b.reset_timeout ≤ now
    → (calls_run (record { breaker = (call now aborts later b).0; running = 0 }) es
        ≡ record { breaker = (call now aborts later b).0; running = 0 })
      × ((enter much_later
            (calls_run
              (record { breaker = (call now aborts later b).0; running = 0 })
              es).breaker).1
          ≢ admitted)
aborted_probe_locks b now later es much_later h due =
    let (st, fl) = aborted_call b now later h due in
    let same = stuck_run (call now aborts later b).0 es st fl in
    (same, rw (same) (probing_enter (call now aborts later b).0 much_later st fl))
