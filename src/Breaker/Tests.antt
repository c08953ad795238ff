-- ===== src/Breaker/Tests.antt =====
-- Runs of the breaker, and its theorems at concrete breakers.
use rag_support_assistant.Prelude.{◌≡◌, ◌≢◌, refl, List, [], ◌∷◌, arith, some, none}
use rag_support_assistant.Breaker.{
  CircuitBreaker, closed, opened, half_open, admitted, returns, raises, aborts, call, enter, run,
  new, CallEvent, begins, ends, reads, Calls, calls_run, entering, observing, failing, snapshot,
  state_change,
}
use rag_support_assistant.Breaker.Trip.{failing_calls, failing_calls_trip}
use rag_support_assistant.Breaker.Trace.{
  IsCoherent, run-new-IsCoherent, open_refuses, single_probe, aborted_probe_locks,
}

-- a breaker of threshold 2 and timeout 30 that opened at time 7
abbrev tripped : CircuitBreaker
tripped = record (new 2 30) { state = opened; consecutive_failures = 2; opened_at = 7 }

two_failures_trip : failing_calls (5 ∷ 7 ∷ []) (new 2 30) ≡ tripped
unfolding call
two_failures_trip = refl

snapshot-tripped : (snapshot tripped).opened_at_monotonic ≡ some 7
unfolding snapshot
snapshot-tripped = refl

reported_change :
    (state_change opened half_open ≡ some (opened, half_open)) × (state_change closed closed ≡ none)
reported_change = (refl, refl)

failing_calls_trip_example :
    ((failing_calls (5 ∷ []) (new 2 30)).state ≡ closed)
    × ((call 7 raises 7 (failing_calls (5 ∷ []) (new 2 30))).0.state ≡ opened)
failing_calls_trip_example = failing_calls_trip 2 30 7 (5 ∷ []) (omega arith)

run-new-IsCoherent_example :
    IsCoherent (run (new 2 30) (entering 1 ∷ failing 2 ∷ failing 3 ∷ entering 40 ∷ []))
run-new-IsCoherent_example =
    run-new-IsCoherent 2 30 (entering 1 ∷ failing 2 ∷ failing 3 ∷ entering 40 ∷ [])

open_refuses_example :
    (run tripped (entering 8 ∷ observing 20 ∷ []) ≡ tripped)
    × ((enter 36 (run tripped (entering 8 ∷ observing 20 ∷ []))).1 ≢ admitted)
open_refuses_example =
    open_refuses tripped (entering 8 ∷ observing 20 ∷ []) 36 refl (omega arith) (omega arith)

single_probe_example :
    ((enter 37 tripped).1 ≡ admitted)
    × ((enter 99 (run (enter 37 tripped).0 (observing 38 ∷ []))).1 ≢ admitted)
single_probe_example = single_probe tripped 37 (observing 38 ∷ []) 99 refl (omega arith) (tt, tt)

abbrev visits : List CallEvent
visits = begins 500 ∷ reads 600 ∷ ends returns 700 ∷ begins 800 ∷ []

abbrev locked : Calls
locked = record { breaker = (call 37 aborts 38 tripped).0; running = 0 }

aborted_probe_locks_example :
    (calls_run locked visits ≡ locked)
    × ((enter 9000 (calls_run locked visits).breaker).1 ≢ admitted)
aborted_probe_locks_example = aborted_probe_locks tripped 37 38 visits 9000 refl (omega arith)
