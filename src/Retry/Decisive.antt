-- ===== src/Retry/Decisive.antt =====
-- utils/retry.py: which attempt decides a call with retries.
use rag_support_assistant.Prelude.{
  ℕ, zero, suc, ◌+◌, ◌*◌, ◌≤◌, ◌<◌, ◌≡◌, refl, sym, ap, ◌∙◌, ◌⊎◌, inl, inr, Bool, true, false, not,
  Bool-cases, List, [], ◌∷◌, All, length, Option, none, some, leb, arith,
}
use rag_support_assistant.Retry.{
  Answer, returned, raised, RetryEvent, attempt, success, retry, exhausted, spread, delay, Run,
  attempted, wrapped_from, retry_with_backoff,
}

-- the number of calls among the events
abbrev pub attempts : List RetryEvent → ℕ
attempts [] = 0
attempts (attempt ∷ es) = suc (attempts es)
attempts (_ ∷ es) = attempts es

spread-bounded :
    (limit : ℕ) (jitter : Option (ℕ → ℕ)) (i d : ℕ)
    → d ≤ limit
    → spread limit jitter i d ≤ limit * 1000
spread-bounded limit none i d h = omega arith
spread-bounded limit (some random) i d h = omega arith

delay-bounded :
    (base limit : ℕ) (jitter : Option (ℕ → ℕ)) (i : ℕ) → delay base limit jitter i ≤ limit * 1000
unfolding delay
delay-bounded base limit jitter i = spread-bounded limit jitter i _ (omega arith)

-- an index that is not below this one is this one or comes after it
from_here : (i j : ℕ) → i ≤ j → (i ≡ j) ⊎ (suc i ≤ j)
from_here i j h = elim (Bool-cases (leb (suc i) j)) [
  | inl e ↦ inr (ground arith)
  | inr e ↦ inl (ground arith)
]

module _ {ℓ κ} {E : Type ℓ} {A : Type κ} (base limit : ℕ) (jitter : Option (ℕ → ℕ))
    (is_retryable : E → Bool) (calls : ℕ → Answer E A) where
  -- a result, or an exception that is not retried
  abbrev pub is_decisive : Answer E A → Bool
  is_decisive (returned a) = true
  is_decisive (raised e) = not (is_retryable e)

  -- the run ends with the attempt `k`, the first decisive one from `first` on or the last one
  abbrev pub EndsAt : ℕ → ℕ → ℕ → Run E A → Type (ℓ ⊔ κ)
  EndsAt first last k run =
      (first ≤ k)
      × (k ≤ last)
      × (run.answer ≡ calls k)
      × ((i : ℕ) → first ≤ i → i < k → is_decisive (calls i) ≡ false)
      × ((is_decisive (calls k) ≡ true) ⊎ (k ≡ last))
      × (first + attempts run.events ≡ suc k)
      × (first + length run.delays ≡ k)
      × All (λ d. d ≤ limit * 1000) run.delays

  -- a run that ends with its first attempt
  finish-EndsAt :
      (first last : ℕ) (a : Answer E A) (events : List RetryEvent)
      → first ≤ last
      → calls first ≡ a
      → attempts events ≡ 1
      → (is_decisive a ≡ true) ⊎ (first ≡ last)
      → (k : ℕ) × EndsAt first last k (record { answer = a; events = events; delays = [] })
  finish-EndsAt first last a events low gives once ends = (
    first,
    (
      omega arith,
      low,
      sym gives,
      λ i above below. ground arith,
      elim ends [ inl e ↦ inl (ap is_decisive gives ∙ e) | inr e ↦ inr e ],
      omega arith,
      omega arith,
      tt,
    ),
  )

  -- a run that goes on after its first attempt
  again-EndsAt :
      (first last : ℕ) (rest : Run E A)
      → is_decisive (calls first) ≡ false
      → (k : ℕ) × EndsAt (suc first) last k rest
      → (k : ℕ) × EndsAt first last k (record {
        answer = rest.answer;
        events = attempt ∷ retry ∷ rest.events;
        delays = delay base limit jitter first ∷ rest.delays;
      })
  again-EndsAt first last rest retried (k, (low, high, same, before, ends, count, waits, bounded)) =
      (
        k,
        (
          omega arith,
          high,
          same,
          λ i above below. elim (from_here first i above) [
            | inl e ↦ ap (λ j. is_decisive (calls j)) (sym e) ∙ retried
            | inr later ↦ before i later below
          ],
          ends,
          omega arith,
          omega arith,
          (delay-bounded base limit jitter first, bounded),
        ),
      )

  stop-EndsAt :
      (first last : ℕ) (a : Answer E A)
      → first ≤ last
      → calls first ≡ a
      → first ≡ last
      → (k : ℕ) × EndsAt first last k (attempted base limit jitter is_retryable calls first a none)
  unfolding attempted
  stop-EndsAt first last (returned a) low gives none_left =
      finish-EndsAt first last (returned a) (attempt ∷ success ∷ []) low gives refl (inl refl)
  stop-EndsAt first last (raised e) low gives none_left = elim (Bool-cases (is_retryable e)) [
    | inl q ↦ rw (q) (
        finish-EndsAt first last (raised e) (attempt ∷ exhausted ∷ []) low gives refl
          (inr none_left))
    | inr q ↦
        rw (q) (finish-EndsAt first last (raised e) (attempt ∷ []) low gives refl (inr none_left))
  ]

  go_on-EndsAt :
      (first last : ℕ) (a : Answer E A) (rest : Run E A)
      → first ≤ last
      → calls first ≡ a
      → (k : ℕ) × EndsAt (suc first) last k rest
      → (k : ℕ) × EndsAt first last k
          (attempted base limit jitter is_retryable calls first a (some rest))
  unfolding attempted
  go_on-EndsAt first last (returned a) rest low gives after =
      finish-EndsAt first last (returned a) (attempt ∷ success ∷ []) low gives refl (inl refl)
  go_on-EndsAt first last (raised e) rest low gives after = elim (Bool-cases (is_retryable e)) [
    | inl q ↦
        let retried : is_decisive (calls first) ≡ false =
          ap is_decisive gives ∙ ap (λ b. not b) q in
        rw (q) (again-EndsAt first last rest retried after)
    | inr q ↦ rw (q) (
        finish-EndsAt first last (raised e) (attempt ∷ []) low gives refl (inl (ap (λ b. not b) q)))
  ]

  wrapped_from-EndsAt :
      (left i last : ℕ)
      → i + left ≡ last
      → (k : ℕ) × EndsAt i last k (wrapped_from base limit jitter is_retryable calls left i)
  unfolding wrapped_from
  wrapped_from-EndsAt zero i last h = stop-EndsAt i last (calls i) (omega arith) refl (omega arith)
  wrapped_from-EndsAt (suc left) i last h =
      go_on-EndsAt i last (calls i) (wrapped_from base limit jitter is_retryable calls left (suc i))
        (omega arith) refl (wrapped_from-EndsAt left (suc i) last (omega arith))

  -- A call with retries and at least one attempt gives what one of its attempts gave: the first that
  -- returned or raised an exception that is not retried, or the last one where there is no such. It
  -- makes no call after that one and as many before it as it has waits, and no wait is longer than
  -- the greatest delay.
  pub retry_with_backoff-EndsAt :
      (left : ℕ)
      → (run : Run E A) × (retry_with_backoff base limit jitter is_retryable calls (suc left)
          ≡ some run)
        × ((k : ℕ) × EndsAt 0 left k run)
  unfolding retry_with_backoff
  retry_with_backoff-EndsAt left = (
    wrapped_from base limit jitter is_retryable calls left 0,
    refl,
    wrapped_from-EndsAt left 0 left (omega arith),
  )
