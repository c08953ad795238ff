-- ===== src/Retry/Tests.antt =====
-- Calls with retries, and the theorem at these inputs.
use rag_support_assistant.Prelude.{ℕ, zero, suc, ◌≡◌, refl, String, List, [], ◌∷◌, none, some}
use rag_support_assistant.Retry.{
  Answer, returned, raised, attempt, success, retry, exhausted, delay, Run, is_retryable_error,
  retry_with_backoff,
}
use rag_support_assistant.Retry.Decisive.{EndsAt, retry_with_backoff-EndsAt}

abbrev timeout : List String
timeout = "ReadTimeout" ∷ "TimeoutException" ∷ "Exception" ∷ "BaseException" ∷ "object" ∷ []

abbrev wrong : List String
wrong = "ValueError" ∷ "Exception" ∷ "BaseException" ∷ "object" ∷ []

-- a service that is back at the third call
abbrev late : ℕ → Answer (List String) String
late zero = raised timeout
late (suc zero) = raised timeout
late _ = returned "ok"

abbrev broken : ℕ → Answer (List String) String
broken i = raised wrong

answered :
    retry_with_backoff 500 700 none is_retryable_error late 3
    ≡ some record {
      answer = returned "ok";
      events = attempt ∷ retry ∷ attempt ∷ retry ∷ attempt ∷ success ∷ [];
      delays = 500000 ∷ 700000 ∷ [];
    }
unfolding retry_with_backoff is_retryable_error delay
answered = refl

given_up :
    retry_with_backoff 500 5000 (some (λ i. 999)) is_retryable_error late 2
    ≡ some record {
      answer = raised timeout;
      events = attempt ∷ retry ∷ attempt ∷ exhausted ∷ [];
      delays = 749500 ∷ [];
    }
unfolding retry_with_backoff is_retryable_error delay
given_up = refl

not_retried :
    retry_with_backoff 500 5000 none is_retryable_error broken 3
    ≡ some record { answer = raised wrong; events = attempt ∷ []; delays = [] }
unfolding retry_with_backoff is_retryable_error
not_retried = refl

retry_with_backoff-EndsAt_example :
    (run : Run (List String) String) × (retry_with_backoff 500 700 none is_retryable_error late 3
      ≡ some run)
    × ((k : ℕ) × EndsAt 500 700 none is_retryable_error late 0 2 k run)
retry_with_backoff-EndsAt_example = retry_with_backoff-EndsAt 500 700 none is_retryable_error late 2
