-- ===== src/Agent/NodeTests.antt =====
-- Runs of the nodes that verify and evaluate an answer, and the theorems at these inputs.
use rag_support_assistant.Prelude.{
  ℕ, ◌≡◌, refl, String, true, false, List, [], ◌∷◌, none, some, if◌then◌else◌,
}
use rag_support_assistant.Text
use rag_support_assistant.Agent.{
  verified, not_verified, auto, human, retry, unrouted, scored, State, Floors, status_for_claims,
  grounding_allows_auto, route_or_retry,
}
use rag_support_assistant.Agent.Citations.{normalized, supported_by, binds, bind_claim, bind_claims}
use rag_support_assistant.Agent.Verify.{
  unreachable, written, Verifier, VerifySettings, generation_docs, claim_of_text, verify_claim,
  scored_claims, conclude, with_lines, with_claims, with_answer, guarded, verify_facts,
}
use rag_support_assistant.Agent.Grounded.{IsGrounded, verify_facts-IsGrounded}
use rag_support_assistant.Agent.JudgePolicy.{
  LlmIdentity, same_identity, resolve_judge, parse_judge_score,
}
use rag_support_assistant.Agent.Evaluate.{is_knowledge_gap, evaluate}
use rag_support_assistant.Agent.Judged.{HasJudge, evaluate-HasJudge}

abbrev same_text : String → String
same_text s = s

abbrev words : String → List String
words s = Text.split_from "" s

abbrev lines : String → List String
lines s = s ∷ []

abbrev citations : String → List ℕ
citations s = if Text.is_part "[1]" s then 1 ∷ [] else []

abbrev numbers : String → List ℕ
numbers s = 90 ∷ []

abbrev verifier : Verifier
verifier = record {
  extract = λ a. some "- the office opens at nine";
  verdict = λ c. written "SUPPORTED: opens at nine";
}

abbrev unsure : Verifier
unsure = record verifier { verdict = λ c. unreachable }

abbrev settings : VerifySettings
settings = record { enabled = true; max_docs = 5; chars_per_doc = 3600 }

abbrev asked : State
asked = record {
  error = false;
  generation_error = false;
  fact_verification_error = false;
  fact_verification_skipped = false;
  requires_confirmation = false;
  is_simple = false;
  knowledge_gap = false;
  is_graded = true;
  context_docs = "the office opens at nine" ∷ "closed on sunday" ∷ [];
  graded_docs = "the office opens at nine" ∷ "closed on sunday" ∷ [];
  claims = [];
  grounding_status = not_verified;
  factuality_score = 0;
  quality_score = none;
  relevance_score = none;
  judge_status = scored;
  answer = some "it opens at nine [1]";
  route = unrouted;
  iteration = 0;
  max_iterations = 2;
}

abbrev verify : Verifier → State
verify v = verify_facts same_text same_text words lines citations v settings asked

verifies : (verify verifier).grounding_status ≡ verified
unfolding verify_facts guarded with_answer with_claims with_lines conclude scored_claims
    status_for_claims verify_claim claim_of_text bind_claims bind_claim binds supported_by
    normalized generation_docs Text.strip Text.split_from
verifies = refl

fails_closed : ((verify unsure).grounding_status ≡ not_verified) × ((verify unsure).route ≡ human)
unfolding verify_facts guarded with_answer with_claims with_lines conclude verify_claim
    generation_docs Text.strip Text.split_from
fails_closed = (refl, refl)

verify_facts-IsGrounded_example :
    IsGrounded same_text same_text words lines citations verifier asked (verify verifier)
verify_facts-IsGrounded_example =
    verify_facts-IsGrounded same_text same_text words lines citations verifier asked settings refl
      verifies

abbrev floors : Floors
floors = record { min_quality = 80; min_relevance = 800; min_factuality = 80 }

abbrev fast : LlmIdentity
fast = record { provider = "a"; model = "small"; object_id = 1 }

abbrev strong : LlmIdentity
strong = record { provider = "a"; model = "large"; object_id = 2 }

abbrev known : State
known = record asked { grounding_status = verified; factuality_score = 100 }

sent_on :
    (route_or_retry floors
      (evaluate same_text numbers fast strong true (λ j. some "90") (some 1000) known)).route
    ≡ auto
unfolding evaluate is_knowledge_gap resolve_judge same_identity parse_judge_score route_or_retry
    grounding_allows_auto Text.strip
sent_on = refl

evaluate-HasJudge_example :
    HasJudge same_text numbers floors fast strong (λ j. some "90") (some 1000) known
evaluate-HasJudge_example =
    evaluate-HasJudge same_text numbers floors fast strong (λ j. some "90") (some 1000) known refl
      sent_on

-- an answer without claims is verified with a factuality of 0, and is not sent
vacuous :
    (route_or_retry floors (
      evaluate same_text numbers fast strong true
        (λ j. some "90")
        (some 1000)
        (record known { factuality_score = 0 }))).route
    ≡ retry
unfolding evaluate is_knowledge_gap resolve_judge same_identity parse_judge_score route_or_retry
    grounding_allows_auto Text.strip
vacuous = refl
