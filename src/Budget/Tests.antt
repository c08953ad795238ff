-- ===== src/Budget/Tests.antt =====
-- Runs of a budget, and its theorems at concrete budgets.
use rag_support_assistant.Prelude.{
  ◌+◌, ◌≡◌, ◌≢◌, refl, pos, negsuc, true, List, [], ◌∷◌, none, some, arith,
}
use rag_support_assistant.Budget.{
  LlmRequestBudget, output_spent, check, charge, bind_budget, Event, asks, pays, Requests, run,
}

abbrev two_calls : LlmRequestBudget
two_calls = record {
  max_calls = 2;
  max_input_tokens = 0;
  max_output_tokens = 100;
  max_total_tokens = 0;
  calls = 0;
  input_tokens = 0;
  output_tokens = 0;
  enabled = true;
}

bound : bind_budget (pos 2) (negsuc 4) (pos 100) (pos 0) ≡ some two_calls
unfolding bind_budget
bound = refl

unlimited : bind_budget (negsuc 0) (pos 0) (pos 0) (pos 0) ≡ none
unfolding bind_budget
unlimited = refl

-- three threads ask before one of them pays: all are admitted
abbrev racing : List Event
racing =
    asks (pos 5) ∷ asks (pos 5) ∷ asks (pos 5) ∷ pays (pos 5) (pos 7) ∷ pays (pos 5) (negsuc 0) ∷ []

abbrev raced : Requests
raced = run racing (record { budget = two_calls; in_flight = 0 })

overspent : raced.budget.calls + raced.in_flight ≡ 3
unfolding run
overspent = refl

spent : check (pos 0) (charge (pos 1) (pos 100) two_calls) ≡ some output_spent
unfolding check charge
spent = refl

refused : check (pos 0) raced.budget ≢ none
unfolding run
refused = λ e. ground arith
