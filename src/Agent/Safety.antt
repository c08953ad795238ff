-- ===== src/Agent/Safety.antt =====
-- agent/response_safety.py: the check of an answer before it is sent. `injections` are the codes of
-- the prompt-injection patterns that a text matches, `contains_pii` and `redact_pii` those of
-- utils/pii.py.
use rag_support_assistant.Prelude.{
  String, Bool, true, false, List, [], ◌∷◌, ◌++◌, Option, none, some, if◌then◌else◌,
}
use rag_support_assistant.Text
use rag_support_assistant.Agent.{State, human, not_verified, is_nonempty}

-- `SafetyAction`, of which `human` is never decided
pub data Action : Type 0 where
  allow redact refuse : Action

pub record Decision : Type 0 where
  pub action : Action
  pub pii_found : Bool
  pub injection_found : Bool
  pub answer : String

abbrev pub refusal : String
refusal =
    "Не могу предоставить этот ответ: обнаружены признаки небезопасного содержимого (prompt injection). Вопрос передан на проверку специалисту."

module _ (injections : String → List String) (contains_pii : String → Bool)
    (redact_pii : String → String) where
  -- `detect_prompt_injection`
  abbrev pub detect : String → List String
  detect s = if Text.is_empty (Text.strip s) then [] else injections s

  -- the codes of an answer and of the documents behind it
  abbrev pub all_codes : List String → List String
  all_codes [] = []
  all_codes (s ∷ ss) = detect s ++ all_codes ss

  -- the codes that count: a question for a confirmation is not searched for markers
  abbrev pub codes_of : String → List String → Bool → List String
  codes_of answer docs requires_confirmation =
      if requires_confirmation then [] else all_codes (answer ∷ docs)

  -- the decision by the codes
  abbrev pub decide : String → List String → Decision
  decide answer (c ∷ cs) = record {
    action = refuse;
    pii_found = contains_pii answer;
    injection_found = true;
    answer = refusal;
  }
  decide answer [] =
      if contains_pii answer
      then record {
        action = redact;
        pii_found = true;
        injection_found = false;
        answer = redact_pii answer;
      }
      else record { action = allow; pii_found = false; injection_found = false; answer = answer }

  -- `evaluate_pre_response_safety`, less the reasons
  unfoldable pub evaluate_safety : String → List String → Bool → Decision
  evaluate_safety answer docs requires_confirmation =
      decide answer (codes_of answer docs requires_confirmation)

  -- `state.get("graded_docs") or state.get("context_docs") or []`
  abbrev pub docs_of : State → List String
  docs_of s = if is_nonempty s.graded_docs then s.graded_docs else s.context_docs

  -- what the decision makes of the state
  abbrev pub apply_decision : State → Decision → Action → State
  apply_decision s d refuse = record s {
    answer = some d.answer;
    route = human;
    quality_score = some 0;
    relevance_score = some 0;
    grounding_status = not_verified;
    factuality_score = 0;
    requires_confirmation = false;
  }
  apply_decision s d _ = record s { answer = some d.answer }

  abbrev pub apply_to : State → Option String → State
  apply_to s none = s
  apply_to s (some answer) =
      if Text.is_empty (Text.strip answer)
      then s
      else (let d = evaluate_safety answer (docs_of s) s.requires_confirmation in
          apply_decision s d d.action)

  -- `apply_pre_response_safety`, the action and its reasons left out
  unfoldable pub apply_safety : State → State
  unfolding evaluate_safety
  apply_safety s = apply_to s s.answer
