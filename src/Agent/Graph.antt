-- ===== src/Agent/Graph.antt =====
-- agent/graph.py: the nodes of the graph that answers a question, the edges between them, and the
-- steps of a run. A node whose work is a call of a model or of the retriever may leave any state in
-- which the counters of iterations are those it found and the route is the one it found, a human or
-- an error; the others do what their code does.
use rag_support_assistant.Prelude.{
  ◌⊎◌, ℕ, zero, suc, ◌+◌, ◌≡◌, ◌≢◌, String, Bool, true, false, none, some, List, [], if◌then◌else◌,
  ◌||◌,
}
use rag_support_assistant.Agent.{
  human, State, Route, auto, retry, errored, escalated, Floors, route_or_retry,
}
use rag_support_assistant.Agent.Safety.{apply_safety}

pub data Node : Type 0 where
  classify_complexity transform_query retrieve grade_docs generate verify_facts evaluate : Node
  route_node response_safety suggest_questions rewrite_query log_node handle_error finish : Node

-- `_make_error_state`
abbrev pub make_error : State → State
make_error s = record s { error = true; route = errored }

abbrev pub is_errored : Route → Bool
is_errored errored = true
is_errored _ = false

-- `_route_after_retrieve`, `_route_after_generate`, `_route_after_verify_facts`
unfoldable pub route_after_retrieve : State → Node
route_after_retrieve s =
    if s.error then handle_error else if s.is_simple then generate else grade_docs

unfoldable pub route_after_generate : State → Node
route_after_generate s =
    if s.error
    then handle_error
    else if s.generation_error
    then response_safety
    else if s.is_simple
    then evaluate
    else verify_facts

unfoldable pub route_after_verify_facts : State → Node
route_after_verify_facts s =
    if s.error || is_errored s.route
    then handle_error
    else if s.fact_verification_error
    then response_safety
    else evaluate

-- `_should_retry`
abbrev pub retry_by_route : Route → Node
retry_by_route errored = handle_error
retry_by_route retry = rewrite_query
retry_by_route _ = response_safety

unfoldable pub should_retry : State → Node
should_retry s = if s.error then handle_error else retry_by_route s.route

-- `_after_response_safety`
abbrev pub after_response_safety : Route → Node
after_response_safety auto = suggest_questions
after_response_safety _ = log_node

-- the edges of `build_support_graph`
unfoldable pub next : Node → State → Node
next classify_complexity s = transform_query
next transform_query s = retrieve
next retrieve s = route_after_retrieve s
next grade_docs s = generate
next generate s = route_after_generate s
next verify_facts s = route_after_verify_facts s
next evaluate s = route_node
next route_node s = should_retry s
next response_safety s = after_response_safety s.route
next suggest_questions s = log_node
next rewrite_query s = retrieve
next log_node s = finish
next handle_error s = finish
next finish s = finish

-- the state for another iteration
abbrev pub rewritten : State → State
rewritten s = record s {
  iteration = s.iteration + 1;
  context_docs = [];
  graded_docs = [];
  answer = none;
  claims = [];
  factuality_score = 0;
  fact_verification_skipped = false;
  fact_verification_error = false;
  quality_score = none;
  relevance_score = none;
}

-- the node `rewrite_query`, without an exception of its own
abbrev pub rewrite : State → State
rewrite s = if s.error then s else rewritten s

-- the nodes whose work is a call of a model or of the retriever
pub data IsCalling : Node → Type 0 where
  classifying : IsCalling classify_complexity
  transforming : IsCalling transform_query
  retrieving : IsCalling retrieve
  grading : IsCalling grade_docs
  generating : IsCalling generate
  verifying : IsCalling verify_facts
  evaluating : IsCalling evaluate

-- what a call keeps: the counters, and the route unless it gives the answer to a human or fails
abbrev pub Keeps : State → State → Type 0
Keeps s t =
    (t.iteration ≡ s.iteration)
    × (t.max_iterations ≡ s.max_iterations)
    × ((t.route ≡ s.route) ⊎ (t.route ≡ human) ⊎ (t.route ≡ errored))

module _ (floors : Floors) (injections : String → List String) (contains_pii : String → Bool)
    (redact_pii : String → String) where
  -- one node of a run: what it makes of the state, and the edge that is taken after it. A state
  -- with an error passes every node but `handle_error` as it is.
  pub data Step : Node → State → Node → State → Type 0 where
    passes :
        (n : Node) (s : State)
        → n ≢ finish
        → n ≢ handle_error
        → s.error ≡ true
        → Step n s (next n s) s
    calls :
        (n : Node) (s t : State) → IsCalling n → s.error ≡ false → Keeps s t → Step n s (next n t) t
    routes :
        (s : State)
        → s.error ≡ false
        → Step route_node s (next route_node (route_or_retry floors s)) (route_or_retry floors s)
    checks :
        (s : State)
        → s.error ≡ false
        → Step response_safety s
            (next response_safety (apply_safety injections contains_pii redact_pii s))
            (apply_safety injections contains_pii redact_pii s)
    rewrites :
        (s : State)
        → s.error ≡ false
        → Step rewrite_query s (next rewrite_query (rewrite s)) (rewrite s)
    -- the suggested questions are no part of the state here
    suggests : (s : State) → s.error ≡ false → Step suggest_questions s (next suggest_questions s) s
    logs : (s : State) → Step log_node s finish s
    handles :
        (s : State) (message : String)
        → Step handle_error s finish (record s { route = escalated; answer = some message })
    -- an exception that the node catches
    fails :
        (n : Node) (s : State)
        → n ≢ finish
        → s.error ≡ false
        → Step n s (next n (make_error s)) (make_error s)

  -- a run of `k` nodes
  pub data Run : ℕ → Node → State → Node → State → Type 0 where
    stays : (n : Node) (s : State) → Run zero n s n s
    goes :
        (k : ℕ) (n n' m : Node) (s s' t : State)
        → Step n s n' s'
        → Run k n' s' m t
        → Run (suc k) n s m t
