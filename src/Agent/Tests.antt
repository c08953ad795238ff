-- ===== src/Agent/Tests.antt =====
-- Runs of the agent's gates, and the theorems at concrete states.
use rag_support_assistant.Prelude.{
  inl, ◌+◌, ◌*◌, ◌-◌, ◌≤◌, ◌≡◌, ◌↔◌, refl, String, Bool, true, false, List, [], ◌∷◌, some, arith,
}
use rag_support_assistant.Text
use rag_support_assistant.Agent.{
  verified, unsupported, auto, human, retry, unrouted, escalated, scored, failed, Claim, State,
  status_for_claims, Floors, grounding_allows_auto, route_or_retry,
}
use rag_support_assistant.Agent.Gate.{IsCleared, route_or_retry-IsCleared}
use rag_support_assistant.Agent.Safety.{refusal, apply_safety}
use rag_support_assistant.Agent.Delivery.{IsDelivered, apply_safety-IsDelivered}
use rag_support_assistant.Agent.Graph.{
  Keeps, calls, routes, checks, suggests, logs, transforming, retrieving, grading, generating,
  verifying, evaluating, classifying, grade_docs, generate, verify_facts, evaluate,
  route_after_generate, route_after_verify_facts, should_retry, classify_complexity,
  transform_query, retrieve, handle_error, finish, next, make_error, route_after_retrieve, passes,
  handles, fails, Run, stays, goes,
}
use rag_support_assistant.Agent.Sent.{sent-IsCleared}
use rag_support_assistant.Agent.Runs.{graph_ends}

abbrev floors : Floors
floors = record { min_quality = 80; min_relevance = 800; min_factuality = 80 }

abbrev bound : Claim
bound = record {
  text = "opens at nine";
  supported = true;
  evidence = "";
  citation_bound = true;
  citation_indices = 1 ∷ [];
}

abbrev loose : Claim
loose = record {
  text = "closes at six";
  supported = true;
  evidence = "";
  citation_bound = false;
  citation_indices = [];
}

abbrev answered : State
answered = record {
  error = false;
  generation_error = false;
  fact_verification_error = false;
  fact_verification_skipped = false;
  requires_confirmation = false;
  is_simple = false;
  knowledge_gap = false;
  is_graded = true;
  context_docs = "The office opens at nine." ∷ [];
  graded_docs = "The office opens at nine." ∷ [];
  claims = bound ∷ [];
  grounding_status = verified;
  factuality_score = 100;
  quality_score = some 90;
  relevance_score = some 850;
  judge_status = scored;
  answer = some "At nine [1].";
  route = unrouted;
  iteration = 0;
  max_iterations = 2;
}

half_bound : status_for_claims true (bound ∷ loose ∷ []) ≡ (unsupported, 50)
unfolding status_for_claims
half_bound = refl

good_answer : (route_or_retry floors answered).route ≡ auto
unfolding route_or_retry grounding_allows_auto
good_answer = refl

loose_claim :
    (route_or_retry floors (record answered { claims = bound ∷ loose ∷ [] })).route ≡ retry
unfolding route_or_retry grounding_allows_auto
loose_claim = refl

no_iteration_left :
    (route_or_retry floors (record answered { quality_score = some 10; iteration = 2 })).route
    ≡ human
unfolding route_or_retry grounding_allows_auto
no_iteration_left = refl

judge_failed : (route_or_retry floors (record answered { judge_status = failed })).route ≡ human
unfolding route_or_retry
judge_failed = refl

route_or_retry-IsCleared_example :
    ((route_or_retry floors answered).route ≡ auto) ↔ IsCleared floors answered
route_or_retry-IsCleared_example = route_or_retry-IsCleared floors answered refl

-- each text has a marker, and none has personal data
abbrev marked : String → List String
marked s = "answer" ∷ []

abbrev no_pii : String → Bool
no_pii s = false

abbrev same_text : String → String
same_text s = s

refused : (apply_safety marked no_pii same_text answered).answer ≡ some refusal
unfolding apply_safety Text.strip
refused = refl

not_blank : Text.is_empty (Text.strip "At nine [1].") ≡ false
unfolding Text.strip
not_blank = refl

apply_safety-IsDelivered_example :
    IsDelivered marked no_pii same_text answered
      (apply_safety marked no_pii same_text answered)
      "At nine [1]."
apply_safety-IsDelivered_example =
    apply_safety-IsDelivered marked no_pii same_text answered "At nine [1]." refl not_blank

-- the first node raises: three nodes pass the state on to `handle_error`
abbrev broken : State
broken = make_error answered

abbrev escalated_state : State
escalated_state = record broken { route = escalated; answer = some "Sent to support." }

escalation :
    Run floors marked no_pii same_text 4 classify_complexity answered finish escalated_state
unfolding next route_after_retrieve
escalation =
    goes 3 classify_complexity transform_query finish answered broken escalated_state
      (fails classify_complexity answered (λ e. ground arith) refl)
      (goes 2 transform_query retrieve finish broken broken escalated_state
        (passes transform_query broken (λ e. ground arith) (λ e. ground arith) refl)
        (goes 1 retrieve handle_error finish broken broken escalated_state
          (passes retrieve broken (λ e. ground arith) (λ e. ground arith) refl)
          (goes 0 handle_error finish finish broken escalated_state escalated_state
            (handles broken "Sent to support.") (stays finish escalated_state))))

graph_ends_example : 4 ≤ 23 + 9 * (answered.max_iterations - answered.iteration)
graph_ends_example =
    graph_ends floors marked no_pii same_text 4 answered finish escalated_state refl escalation

abbrev no_marks : String → List String
no_marks s = []

abbrev routed : State
routed = record answered { route = auto }

kept : Keeps answered answered
kept = (refl, refl, inl refl)

routed_answer : route_or_retry floors answered ≡ routed
unfolding route_or_retry grounding_allows_auto
routed_answer = refl

-- the whole way of a good answer, eleven nodes
sending : Run floors no_marks no_pii same_text 11 classify_complexity answered finish routed
unfolding next route_after_retrieve route_after_generate route_after_verify_facts should_retry
    route_or_retry grounding_allows_auto apply_safety Text.strip
sending =
    goes 10 _ _ finish _ _ _ (calls classify_complexity answered answered classifying refl kept) (
      goes 9 _ _ finish _ _ _ (calls transform_query answered answered transforming refl kept) (
        goes 8 _ _ finish _ _ _ (calls retrieve answered answered retrieving refl kept) (
          goes 7 _ _ finish _ _ _ (calls grade_docs answered answered grading refl kept) (
            goes 6 _ _ finish _ _ _ (calls generate answered answered generating refl kept) (
              goes 5 _ _ finish _ _ _ (calls verify_facts answered answered verifying refl kept) (
                goes 4 _ _ finish _ _ _ (calls evaluate answered answered evaluating refl kept) (
                  goes 3 _ _ finish _ _ _ (routes answered refl) (
                    goes 2 _ _ finish _ _ _ (checks routed refl) (
                      goes 1 _ _ finish _ _ _ (suggests routed refl)
                        (goes 0 _ _ finish _ _ _ (logs routed) (stays finish routed)))))))))))

sent-IsCleared_example : IsCleared floors routed
sent-IsCleared_example =
    sent-IsCleared floors no_marks no_pii same_text 11 answered routed (λ e. ground arith) sending
      refl
