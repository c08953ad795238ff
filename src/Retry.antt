-- ===== src/Retry.antt =====
-- utils/retry.py: the retries of a call over the network. `calls` says what the call gives at each
-- attempt, from 0; an exception is the list of the names of its class and its base classes. Times are
-- milliseconds, those of a wait with jitter millionths of a second. `sleep` returns.
pub mod Decisive
mod Tests
use package.text.Mathlib.Text.{◌==◌ as str_eq}
use rag_support_assistant.Prelude.{
  ℕ, zero, suc, ◌+◌, ◌*◌, ◌^◌, min, String, Bool, true, false, List, [], ◌∷◌, Option, none, some,
  if◌then◌else◌,
}

-- what a call gives: a result, or an exception
pub data Answer {ℓ κ} (E : Type ℓ) (A : Type κ) : Type (ℓ ⊔ κ) where
  returned : A → Answer E A
  raised : E → Answer E A

pub data RetryEvent : Type 0 where
  attempt success retry exhausted : RetryEvent

abbrev retryable_exc_names : List String
retryable_exc_names =
    "ConnectError" ∷ "ConnectTimeout" ∷ "ReadTimeout" ∷ "WriteTimeout" ∷ "PoolTimeout"
    ∷ "NetworkError" ∷ "RemoteProtocolError" ∷ "ResponseError" ∷ []

abbrev is_in : String → List String → Bool
is_in n [] = false
is_in n (m ∷ ms) = if str_eq n m then true else is_in n ms

-- `is_retryable_error`, on the names of the classes in the order of `__mro__`
unfoldable pub is_retryable_error : List String → Bool
is_retryable_error [] = false
is_retryable_error (n ∷ ns) = if is_in n retryable_exc_names then true else is_retryable_error ns

-- the wait after an attempt that failed, in millionths; `random` gives thousandths
abbrev pub spread : ℕ → Option (ℕ → ℕ) → ℕ → ℕ → ℕ
spread limit none i d = d * 1000
spread limit (some random) i d = min (d * (500 + random i)) (limit * 1000)

unfoldable pub delay : ℕ → ℕ → Option (ℕ → ℕ) → ℕ → ℕ
delay base limit jitter i = spread limit jitter i (min (base * 2 ^ i) limit)

-- what a call with retries gives, the events it emits and the waits between its attempts
pub record Run {ℓ κ} (E : Type ℓ) (A : Type κ) : Type (ℓ ⊔ κ) where
  pub answer : Answer E A
  pub events : List RetryEvent
  pub delays : List ℕ

module _ {ℓ κ} {E : Type ℓ} {A : Type κ} (base limit : ℕ) (jitter : Option (ℕ → ℕ))
    (is_retryable : E → Bool) (calls : ℕ → Answer E A) where
  abbrev pub finish : Answer E A → List RetryEvent → Run E A
  finish answer events = record { answer = answer; events = events; delays = [] }

  -- an attempt that is followed by another
  abbrev pub again : ℕ → Run E A → Run E A
  again i rest = record {
    answer = rest.answer;
    events = attempt ∷ retry ∷ rest.events;
    delays = delay base limit jitter i ∷ rest.delays;
  }

  -- an attempt that raised an exception to retry; `none` is that no attempt is left
  abbrev pub retry_or_stop : ℕ → E → Option (Run E A) → Run E A
  retry_or_stop i e none = finish (raised e) (attempt ∷ exhausted ∷ [])
  retry_or_stop i e (some rest) = again i rest

  -- an attempt, by what its call gives, and the run after it
  unfoldable pub attempted : ℕ → Answer E A → Option (Run E A) → Run E A
  attempted i (returned a) rest = finish (returned a) (attempt ∷ success ∷ [])
  attempted i (raised e) rest =
      if is_retryable e then retry_or_stop i e rest else finish (raised e) (attempt ∷ [])

  -- the loop, with the number of attempts that are left after this one
  unfoldable pub wrapped_from : ℕ → ℕ → Run E A
  unfolding attempted
  wrapped_from zero i = attempted i (calls i) none
  wrapped_from (suc left) i =
      let rest = wrapped_from left (suc i) in attempted i (calls i) (some rest)

  -- `retry_with_backoff` and a call of what it gives; `none` is its `ValueError`
  unfoldable pub retry_with_backoff : ℕ → Option (Run E A)
  unfolding wrapped_from
  retry_with_backoff zero = none
  retry_with_backoff (suc left) = some (wrapped_from left 0)
