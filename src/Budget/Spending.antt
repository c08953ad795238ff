-- ===== src/Budget/Spending.antt =====
-- llm/request_budget.py: how far a shared budget is spent.
use rag_support_assistant.Prelude.{
  ℕ, ◌+◌, ◌≤◌, ◌<◌, ◌≡◌, ◌≢◌, refl, inl, inr, ℤ, true, Bool-cases, List, [], ◌∷◌, none, arith,
}
use rag_support_assistant.Budget.{
  LlmRequestBudget, check, charge, Event, asks, pays, drops, Requests, step, run,
}

-- what is never overspent by more than the calls in flight
abbrev pub IsWithin : ℕ → Requests → Type 0
IsWithin slack s =
    (s.budget.enabled ≡ true)
    × (0 < s.budget.max_calls)
    × (s.budget.calls + s.in_flight ≤ s.budget.max_calls + slack)

-- a charge is for an admitted call
abbrev IsAdmitted : Event → Requests → Type 0
IsAdmitted (pays input output) s = 1 ≤ s.in_flight
IsAdmitted _ s = Unit

-- charging a call spends no limit less
check-charge :
    (estimate input output : ℤ) (b : LlmRequestBudget)
    → check estimate (charge input output b) ≡ none
    → check estimate b ≡ none
unfolding check charge
check-charge estimate input output b h = elim (Bool-cases b.enabled) [
  | inl e ↦ ground arith
  | inr e ↦ rw (e) refl
]

check-step :
    (estimate : ℤ) (e : Event) (s : Requests)
    → check estimate (step e s).budget ≡ none
    → check estimate s.budget ≡ none
unfolding step
check-step estimate (asks other) s h = h
check-step estimate (pays input output) s h = check-charge estimate input output s.budget h
check-step estimate drops s h = h

-- A refusal is final: a call that the budget refuses is refused after any further checks and
-- charges of the same request, whatever tokens they report, for each estimate of its input.
pub refusal_final :
    (estimate : ℤ) (es : List Event) (s : Requests)
    → check estimate s.budget ≢ none
    → check estimate (run es s).budget ≢ none
unfolding run
refusal_final estimate [] s refused = refused
refusal_final estimate (e ∷ es) s refused =
    refusal_final estimate es (step e s) (λ h. refused (check-step estimate e s h))
