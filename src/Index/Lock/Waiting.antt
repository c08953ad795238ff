-- ===== src/Index/Lock/Waiting.antt =====
-- vectordb/tenant_lock.py: how the wait for the lock ends.
use rag_support_assistant.Prelude.{
  ℕ, zero, suc, ◌+◌, ◌-◌, ◌*◌, ◌/◌, ◌≤◌, ◌<◌, ◌≡◌, refl, inl, inr, some, arith, leb, min, true,
  Bool-cases,
}
use rag_support_assistant.Index.{Result, ok, raise, lock_timeout, lock_unavailable}
use rag_support_assistant.Index.Lock.{
  Answer, granted, busy, broken, poll_interval, acquire_loop, acquire,
}

module _ (answer : ℕ → Answer) (lag : ℕ → ℕ) (start deadline : ℕ) where
  -- the clock before each query, and after it
  abbrev pub before : ℕ → ℕ
  before zero = start
  before (suc n) = let later = before n + lag n in later + min poll_interval (deadline - later)

  abbrev pub after : ℕ → ℕ
  after n = before n + lag n

  -- the queries before the `n`-th all found the lock taken, before the deadline
  abbrev pub IsWaiting : ℕ → Type 0
  IsWaiting zero = Unit
  IsWaiting (suc n) = IsWaiting n × (answer n ≡ busy) × (after n < deadline)

  -- how a wait may end at a query: granted, broken, or taken still when the deadline is over
  pub data Ends (n : ℕ) : Result ℕ → Type 0 where
    got : answer n ≡ granted → Ends n (ok n)
    failed : answer n ≡ broken → Ends n (raise lock_unavailable)
    gave_up : answer n ≡ busy → deadline ≤ after n → Ends n (raise lock_timeout)

  abbrev HasEnd : ℕ → ℕ → Type 0
  HasEnd fuel n =
      (m : ℕ) × (r : Result ℕ) × (acquire_loop answer lag deadline (suc fuel) n (before n) ≡ some r)
      × (m ≤ n + fuel)
      × IsWaiting m
      × Ends m r

  -- with a round of fuel for each poll interval that is left, and one more, the loop ends
  loop_ends :
      (fuel n : ℕ) → deadline ≤ before n + fuel * poll_interval → IsWaiting n → HasEnd fuel n
  unfolding acquire_loop
  loop_ends zero n room w = decide (answer n) refl
    where
      decide : (a : Answer) → answer n ≡ a → HasEnd zero n
      decide granted e = (n, ok n, rw (e, acquire_loop) refl, omega arith, w, got e)
      decide broken e =
          (n, raise lock_unavailable, rw (e, acquire_loop) refl, omega arith, w, failed e)
      decide busy e =
          let late : leb deadline (after n) ≡ true = ground arith in
          (
            n,
            raise lock_timeout,
            rw (e, acquire_loop, late) refl,
            omega arith,
            w,
            gave_up e (omega arith),
          )
  loop_ends (suc fuel) n room w = decide (answer n) refl (loop_ends fuel (suc n))
    where
      decide :
          (a : Answer)
          → answer n ≡ a
          → (deadline ≤ before (suc n) + fuel * poll_interval
              → IsWaiting (suc n)
              → HasEnd fuel (suc n))
          → HasEnd (suc fuel) n
      decide granted e rec = (n, ok n, rw (e, acquire_loop) refl, omega arith, w, got e)
      decide broken e rec =
          (n, raise lock_unavailable, rw (e, acquire_loop) refl, omega arith, w, failed e)
      decide busy e rec = elim (Bool-cases (leb deadline (after n))) [
        | inl late ↦ (
          n,
          raise lock_timeout,
          rw (e, acquire_loop, late) refl,
          omega arith,
          w,
          gave_up e (ground arith),
        )
        | inr early ↦
            let (m, r, runs, few, waited, ends) = rec (ground arith) (w, e, ground arith) in
            (m, r, rw (e, acquire_loop, early) runs, omega arith, waited, ends)
      ]

abbrev pub HasEnded : (ℕ → Answer) → (ℕ → ℕ) → ℕ → ℕ → Type 0
HasEnded answer lag start wait =
    (m : ℕ) × (r : Result ℕ) × (acquire answer lag start wait ≡ some r)
    × (m ≤ wait / poll_interval + 1)
    × IsWaiting answer lag start (start + wait) m
    × Ends answer lag start (start + wait) m r

-- The wait for the lock ends after at most as many queries as poll intervals fit into the waiting
-- time, and two more. All queries before the last found the lock taken and came before the
-- deadline; the last was granted (and the lock is held), or it failed, or it found the lock taken
-- when the deadline was over.
pub acquire_ends :
    (answer : ℕ → Answer) (lag : ℕ → ℕ) (start wait : ℕ) → HasEnded answer lag start wait
unfolding acquire
acquire_ends answer lag start wait =
    let fuel = wait / poll_interval + 1 in
    let fuel_enough : wait / poll_interval + 2 ≡ suc fuel = omega arith in
    let (m, r, runs, few, waited, ends) =
      loop_ends answer lag start (start + wait) fuel 0 (omega arith) tt in
    (m, r, rw (fuel_enough) runs, omega arith, waited, ends)
