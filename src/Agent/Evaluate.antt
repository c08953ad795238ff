-- ===== src/Agent/Evaluate.antt =====
-- agent/graph.py: the node that lets a model judge the answer. `lower` is `str.lower`, `numbers` as in
-- JudgePolicy. The relevance that agent/relevance.py measures is an argument.
use rag_support_assistant.Prelude.{
  ℕ, String, Bool, false, ◌||◌, List, [], ◌∷◌, length, Option, none, some, ltb, if◌then◌else◌,
}
use rag_support_assistant.Text
use rag_support_assistant.Agent.{
  not_verified, Judge, scored, unavailable, failed, parse_failure, State, is_nonempty,
}
use rag_support_assistant.Agent.JudgePolicy.{
  LlmIdentity, Resolution, refused, chosen, resolve_judge, parse_judge_score,
}

-- `judge_fail_closed_fields`
abbrev pub unjudged : Judge → State → State
unjudged status s = record s {
  quality_score = some 0;
  relevance_score = some 0;
  grounding_status = not_verified;
  factuality_score = 0;
  judge_status = status;
}

abbrev pub gap_patterns : List String
gap_patterns =
    "я не знаю" ∷ "не нашел" ∷ "не нашёл" ∷ "недостаточно информации" ∷ "не могу ответить"
    ∷ "нет данных" ∷ []

abbrev pub has_pattern : String → List String → Bool
has_pattern text [] = false
has_pattern text (p ∷ ps) = Text.is_part p text || has_pattern text ps

abbrev pub answer_text : Option String → String
answer_text none = ""
answer_text (some a) = a

module _ (lower : String → String) (numbers : String → List ℕ) where
  -- the documents that a question was answered from, for the gap
  abbrev pub gap_docs : State → List String
  gap_docs s = if is_nonempty s.graded_docs then s.graded_docs else s.context_docs

  -- `_is_knowledge_gap`
  unfoldable pub is_knowledge_gap : State → Bool
  is_knowledge_gap s =
      ltb (length (gap_docs s)) 2
      || ltb s.factuality_score 50
      || has_pattern (lower (answer_text s.answer)) gap_patterns

  -- the state that leaves the node
  abbrev pub with_gap : State → State
  with_gap s = record s { knowledge_gap = is_knowledge_gap s }

  abbrev pub judged : Option ℕ → ℕ → State → State
  judged relevance score s = record s {
    quality_score = some score;
    relevance_score = relevance;
    judge_status = scored;
  }

  abbrev pub by_score : Option ℕ → State → Option ℕ → State
  by_score relevance s none = unjudged parse_failure s
  by_score relevance s (some score) = judged relevance score s

  -- the fields by the judge's reply, which is absent where the call raises
  abbrev pub by_reply : Option ℕ → State → Option String → State
  by_reply relevance s none = unjudged failed s
  by_reply relevance s (some raw) = by_score relevance s (parse_judge_score numbers raw)

  abbrev pub by_resolution : Option ℕ → (LlmIdentity → Option String) → State → Resolution → State
  by_resolution relevance reply s (refused reason) = unjudged unavailable s
  by_resolution relevance reply s (chosen judge independent) = by_reply relevance s (reply judge)

  -- the model that wrote the answer
  abbrev pub generator_of : LlmIdentity → LlmIdentity → State → LlmIdentity
  generator_of fast strong s = if s.is_simple then fast else strong

  -- the node of `make_evaluate_node`
  unfoldable pub evaluate :
      LlmIdentity → LlmIdentity → Bool → (LlmIdentity → Option String) → Option ℕ → State → State
  unfolding is_knowledge_gap resolve_judge parse_judge_score
  evaluate fast strong required reply relevance s =
      if s.error
      then s
      else with_gap (
          by_resolution relevance reply s
            (resolve_judge (some fast) (some strong) (some (generator_of fast strong s)) required))
