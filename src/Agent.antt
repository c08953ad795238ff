-- ===== src/Agent.antt =====
-- agent/graph.py and agent/grounding.py: the gates of the answering agent. Here is the state, as far
-- as the gates read it, the grounding gate and the node that routes an answer: sent without review,
-- to a human, or tried again. Scores of relevance are thousandths.
mod Tests
mod NodeTests
pub mod Gate
pub mod Safety
pub mod Citations
pub mod Verify
pub mod Sources
pub mod Bound
pub mod Words
pub mod Found
pub mod Backed
pub mod Grounded
pub mod JudgePolicy
pub mod Evaluate
pub mod Independent
pub mod Judged
pub mod Graph
pub mod Delivery
pub mod Potential
pub mod Runs
pub mod Sent
use rag_support_assistant.Prelude.{
  ℕ, zero, suc, ◌+◌, ◌*◌, ◌/◌, String, Bool, true, false, not, ◌&&◌, ◌||◌, List, [], ◌∷◌, length,
  Option, none, some, leb, ltb, ◌==◌, if◌then◌else◌,
}

-- `GroundingStatus`
pub data Status : Type 0 where
  verified unsupported not_verified : Status

pub data Route : Type 0 where
  auto human retry errored escalated unrouted : Route

-- `judge_status`: the judge gave a score, or one of the three failures
pub data Judge : Type 0 where
  scored unavailable failed parse_failure : Judge

-- a claim of the answer, with the verdict on it and the documents that it is bound to
pub record Claim : Type 0 where
  pub text : String
  pub supported : Bool
  pub evidence : String
  pub citation_bound : Bool
  pub citation_indices : List ℕ

pub record State : Type 0 where
  pub error : Bool
  pub generation_error : Bool
  pub fact_verification_error : Bool
  pub fact_verification_skipped : Bool
  pub requires_confirmation : Bool
  -- `complexity == "simple"`
  pub is_simple : Bool
  pub knowledge_gap : Bool
  -- `doc_grade_reason` is set
  pub is_graded : Bool
  -- the contents of the documents
  pub context_docs : List String
  pub graded_docs : List String
  pub claims : List Claim
  pub grounding_status : Status
  -- an absent score counts as 0
  pub factuality_score : ℕ
  pub quality_score : Option ℕ
  pub relevance_score : Option ℕ
  pub judge_status : Judge
  pub answer : Option String
  pub route : Route
  pub iteration : ℕ
  pub max_iterations : ℕ

abbrev pub is_nonempty {ℓ} : {A : Type ℓ} → List A → Bool
is_nonempty [] = false
is_nonempty (x ∷ xs) = true

-- `_claim_effectively_supported`
abbrev pub is_supported : Bool → Claim → Bool
is_supported require_bound c = c.supported && (if require_bound then c.citation_bound else true)

abbrev pub count_supported : Bool → List Claim → ℕ
count_supported require_bound [] = 0
count_supported require_bound (c ∷ cs) =
    let rest = count_supported require_bound cs in
    if is_supported require_bound c then suc rest else rest

-- `status_for_claims`, without the flag that is false on each branch
unfoldable pub status_for_claims : Bool → List Claim → Status × ℕ
status_for_claims require_bound [] = (not_verified, 0)
status_for_claims require_bound (c ∷ cs) =
    let supported = count_supported require_bound (c ∷ cs) in
    let factuality = 100 * supported / length (c ∷ cs) in
    if supported == length (c ∷ cs) then (verified, factuality) else (unsupported, factuality)

-- `has_retrieval_context`
abbrev pub has_context : State → Bool
has_context s = is_nonempty s.graded_docs || is_nonempty s.context_docs

abbrev pub all_bound : List Claim → Bool
all_bound [] = true
all_bound (c ∷ cs) = c.citation_bound && all_bound cs

abbrev pub is_verified : Status → Bool
is_verified verified = true
is_verified _ = false

-- `grounding_allows_auto`
unfoldable pub grounding_allows_auto : ℕ → State → Bool
grounding_allows_auto min_factuality s =
    if s.error
    then false
    else if s.knowledge_gap
    then false
    else if not (has_context s)
    then false
    else if not (is_verified s.grounding_status)
    then false
    else if is_nonempty s.claims
    then (if all_bound s.claims then leb min_factuality s.factuality_score else false)
    else true

abbrev pub is_broken : Judge → Bool
is_broken scored = false
is_broken _ = true

-- the floors of the quality, the relevance and the factuality
pub record Floors : Type 0 where
  pub min_quality : ℕ
  pub min_relevance : ℕ
  pub min_factuality : ℕ

-- an answer that is not good enough: another iteration, if one is left and can help
abbrev pub again_or_human : State → Route
again_or_human s =
    if ltb s.iteration s.max_iterations
    then (if s.is_simple && s.fact_verification_skipped then human else retry)
    else human

-- the route of `route_or_retry`, by the two scores
abbrev pub choose_route : Floors → State → Option ℕ → Option ℕ → Route
choose_route floors s (some q) (some r) =
    if leb floors.min_quality q
      && leb floors.min_relevance r
      && grounding_allows_auto floors.min_factuality s
    then auto
    else again_or_human s
choose_route floors s _ _ = human

-- `route_or_retry`
unfoldable pub route_or_retry : Floors → State → State
route_or_retry floors s = if s.error then s else record s {
  route =
      if is_broken s.judge_status
      then human
      else choose_route floors s s.quality_score s.relevance_score;
}
