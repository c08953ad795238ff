-- ===== src/Agent/JudgePolicy.antt =====
-- agent/judge_policy.py: which model judges an answer, and what its reply is worth. `numbers` are the
-- matches of the pattern \d+ in a text, as numbers.
use text.Mathlib.Text.{◌==◌ as str_eq}
use rag_support_assistant.Prelude.{
  ℕ, String, Bool, true, false, not, ◌&&◌, ◌||◌, List, [], ◌∷◌, Option, none, some, ◌==◌, max, min,
  if◌then◌else◌,
}
use rag_support_assistant.Text

-- `LlmIdentity`, which `llm_identity` makes of a model; its names are stripped and in lower case
pub record LlmIdentity : Type 0 where
  pub provider : String
  pub model : String
  pub object_id : ℕ

-- `labeled`
abbrev pub is_labeled : LlmIdentity → Bool
is_labeled a = not (Text.is_empty a.provider) || not (Text.is_empty a.model)

-- `same_llm_identity`, of two models
unfoldable pub same_identity : LlmIdentity → LlmIdentity → Bool
same_identity a b =
    if a.object_id == b.object_id
    then true
    else (if is_labeled a && is_labeled b
        then str_eq a.provider b.provider && str_eq a.model b.model
        else false)

-- `same_llm_identity`, where the second may be absent
abbrev pub is_same : LlmIdentity → Option LlmIdentity → Bool
is_same a none = false
is_same a (some b) = same_identity a b

-- `JudgeResolution`: no judge with the reason, or a judge and whether it is independent
pub data Resolution : Type 0 where
  refused : String → Resolution
  chosen : LlmIdentity → Bool → Resolution

-- the candidates in order, each object once
abbrev pub ordered : Option LlmIdentity → Option LlmIdentity → List LlmIdentity
ordered none none = []
ordered none (some b) = b ∷ []
ordered (some a) none = a ∷ []
ordered (some a) (some b) = if b.object_id == a.object_id then a ∷ [] else a ∷ b ∷ []

abbrev pub independent_of : Option LlmIdentity → List LlmIdentity → List LlmIdentity
independent_of generator [] = []
independent_of generator (c ∷ cs) =
    if is_same c generator then independent_of generator cs else c ∷ independent_of generator cs

abbrev pub first_independent : List LlmIdentity → Resolution
first_independent [] = refused "no_independent_judge"
first_independent (c ∷ cs) = chosen c true

-- the choice among the ordered candidates
abbrev pub choose_judge : List LlmIdentity → Option LlmIdentity → Bool → Resolution
choose_judge [] generator required = refused "no_judge_candidate"
choose_judge (c ∷ cs) generator true = first_independent (independent_of generator (c ∷ cs))
choose_judge (c ∷ cs) generator false = chosen c (not (is_same c generator))

-- `resolve_judge_llm`
unfoldable pub resolve_judge :
    Option LlmIdentity → Option LlmIdentity → Option LlmIdentity → Bool → Resolution
unfolding same_identity
resolve_judge fast strong generator required = choose_judge (ordered fast strong) generator required

module _ (numbers : String → List ℕ) where
  abbrev pub first_score : List ℕ → Option ℕ
  first_score [] = none
  first_score (n ∷ ns) = some (max 1 (min 100 n))

  -- `parse_judge_score`
  unfoldable pub parse_judge_score : String → Option ℕ
  parse_judge_score raw =
      if Text.is_empty (Text.strip raw) then none else first_score (numbers (Text.strip raw))
