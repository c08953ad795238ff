-- ===== src/Budget.antt =====
-- llm/request_budget.py: the budget of calls and tokens that the nodes of one request share. A limit
-- of 0 is none. `check` and `charge` each run under the lock of the budget.
mod Tests
pub mod Spending
use rag_support_assistant.Prelude.{
  ℕ, ◌+◌, ◌-◌, ◌≤◌, ℤ, clip, Bool, true, false, ◌&&◌, ◌||◌, List, [], ◌∷◌, Option, none, some, leb,
  ltb, max, if◌then◌else◌,
}

-- `LLMRequestBudget`
pub record LlmRequestBudget : Type 0 where
  pub max_calls : ℕ
  pub max_input_tokens : ℕ
  pub max_output_tokens : ℕ
  pub max_total_tokens : ℕ
  pub calls : ℕ
  pub input_tokens : ℕ
  pub output_tokens : ℕ
  pub enabled : Bool

-- the reason of an `LLMBudgetExceeded`
pub data Reason : Type 0 where
  calls_spent input_spent total_spent output_spent : Reason

-- `_limit_active`
abbrev pub is_limited : ℕ → Bool
is_limited limit = ltb 0 limit

abbrev pub total_tokens : LlmRequestBudget → ℕ
total_tokens b = b.input_tokens + b.output_tokens

-- `check_can_start_call`, under the lock: the first reason to refuse the call
unfoldable pub check : ℤ → LlmRequestBudget → Option Reason
check estimate b =
    if b.enabled
    then (if is_limited b.max_calls && leb b.max_calls b.calls
        then some calls_spent
        else if is_limited b.max_input_tokens
            && ltb b.max_input_tokens (b.input_tokens + clip estimate)
        then some input_spent
        else if is_limited b.max_total_tokens
            && ltb b.max_total_tokens (total_tokens b + clip estimate)
        then some total_spent
        else if is_limited b.max_output_tokens && leb b.max_output_tokens b.output_tokens
        then some output_spent
        else none)
    else none

-- `charge`
unfoldable pub charge : ℤ → ℤ → LlmRequestBudget → LlmRequestBudget
charge input output b =
    if b.enabled
    then record b {
      calls = b.calls + 1;
      input_tokens = b.input_tokens + clip input;
      output_tokens = b.output_tokens + clip output;
    }
    else b

-- `bind_llm_request_budget`: no budget where no limit is positive
abbrev pub no_limit : ℤ → ℤ → ℤ → ℤ → Bool
no_limit c i o t = leb (clip c + clip i + clip o + clip t) 0

unfoldable pub bind_budget : ℤ → ℤ → ℤ → ℤ → Option LlmRequestBudget
bind_budget c i o t =
    if no_limit c i o t
    then none
    else some record {
      max_calls = clip c;
      max_input_tokens = clip i;
      max_output_tokens = clip o;
      max_total_tokens = clip t;
      calls = 0;
      input_tokens = 0;
      output_tokens = 0;
      enabled = true;
    }

-- what the threads of a request do, in the order of the lock: a check that admits or refuses a
-- call, a charge, and the end of an admitted call that is not charged, as where a provider fails. A
-- thread may have several calls admitted at one time: a batch checks all its items first.
pub data Event : Type 0 where
  asks : ℤ → Event
  pays : ℤ → ℤ → Event
  drops : Event

-- the budget and the number of calls that were admitted and not charged yet
pub record Requests : Type 0 where
  pub budget : LlmRequestBudget
  pub in_flight : ℕ

abbrev pub admit : Option Reason → ℕ → ℕ
admit none k = k + 1
admit (some r) k = k

-- `charge` does not ask whether a call was admitted
abbrev pub settle : ℤ → ℤ → LlmRequestBudget → ℕ → Requests
settle input output b k = record { budget = charge input output b; in_flight = k - 1 }

unfoldable pub step : Event → Requests → Requests
unfolding check charge
step (asks estimate) s = record s { in_flight = admit (check estimate s.budget) s.in_flight }
step (pays input output) s = settle input output s.budget s.in_flight
step drops s = record s { in_flight = s.in_flight - 1 }

unfoldable pub run : List Event → Requests → Requests
unfolding step
run [] s = s
run (e ∷ es) s = run es (step e s)

-- the most calls that are in flight at one time
abbrev pub max_in_flight : List Event → Requests → ℕ
max_in_flight [] s = s.in_flight
max_in_flight (e ∷ es) s = max s.in_flight (max_in_flight es (step e s))

-- every charge is for a call that was admitted and not charged yet
abbrev pub AreAdmitted : List Event → Requests → Type 0
AreAdmitted [] s = Unit
AreAdmitted (pays input output ∷ es) s =
    (1 ≤ s.in_flight) × AreAdmitted es (step (pays input output) s)
AreAdmitted (e ∷ es) s = AreAdmitted es (step e s)
