-- ===== src/Agent/Sent.antt =====
-- agent/graph.py: the answers that a run of the graph sends without review.
use rag_support_assistant.Prelude.{
  ℕ, ◌≡◌, ◌≢◌, ◌⊎◌, refl, sym, ◌∙◌, inl, inr, String, Bool, true, false, List, Option, none, some,
  if◌then◌else◌, arith,
}
use rag_support_assistant.Agent.{State, Route, auto, human, retry, errored, Floors, route_or_retry}
use rag_support_assistant.Text
use rag_support_assistant.Agent.Gate.{IsCleared, route_or_retry-IsCleared}
use rag_support_assistant.Agent.Safety.{
  apply_safety, apply_to, apply_decision, docs_of, evaluate_safety, Decision, Action, refuse,
}
use rag_support_assistant.Agent.Potential.{should_retry-route}
use rag_support_assistant.Agent.Graph.{
  Node, classify_complexity, response_safety, suggest_questions, log_node, finish, make_error,
  retry_by_route, after_response_safety, next, rewritten, IsCalling, classifying, Step, passes,
  calls, routes, checks, rewrites, suggests, logs, handles, fails, Run, stays, goes,
}

module _ (floors : Floors) where
  abbrev IsGated : State → Type 0
  IsGated s = s.route ≡ auto → IsCleared floors s

  -- before the routing no answer is marked as sent; after it only a cleared one is
  abbrev IsSafe : Node → State → Type 0
  IsSafe response_safety s = IsGated s
  IsSafe suggest_questions s = IsGated s
  IsSafe log_node s = IsGated s
  IsSafe finish s = IsGated s
  IsSafe _ s = s.route ≢ auto

  unsent-IsSafe : (n : Node) (s : State) → s.route ≢ auto → IsSafe n s
  unsent-IsSafe response_safety s h = λ e. elim (h e) [ ]
  unsent-IsSafe suggest_questions s h = λ e. elim (h e) [ ]
  unsent-IsSafe log_node s h = λ e. elim (h e) [ ]
  unsent-IsSafe finish s h = λ e. elim (h e) [ ]
  unsent-IsSafe n s h = h

  after-IsSafe : (s : State) (r : Route) → IsGated s → IsSafe (after_response_safety r) s
  after-IsSafe s auto h = h
  after-IsSafe s r h = h

  passes-IsSafe : (n : Node) (s : State) → n ≢ finish → IsSafe n s → IsSafe (next n s) s
  unfolding next
  passes-IsSafe finish s f h = elim (f refl) [ ]
  passes-IsSafe response_safety s f h = after-IsSafe s s.route h
  passes-IsSafe suggest_questions s f h = h
  passes-IsSafe log_node s f h = h
  passes-IsSafe n s f h = unsent-IsSafe (next n s) s h

  by_route-IsSafe : (s : State) (r : Route) → s.route ≡ r → IsGated s → IsSafe (retry_by_route r) s
  by_route-IsSafe s errored e h = λ q. ground arith
  by_route-IsSafe s retry e h = λ q. ground arith
  by_route-IsSafe s r e h = h

  calling_unsent : {n : Node} (s : State) → IsCalling n → IsSafe n s → s.route ≢ auto
  calling_unsent s classifying h = h
  calling_unsent s c h = h

  kept_unsent :
      (s t : State)
      → (t.route ≡ s.route) ⊎ (t.route ≡ human) ⊎ (t.route ≡ errored)
      → s.route ≢ auto
      → t.route ≢ auto
  kept_unsent s t (inl e) h q = h (sym e ∙ q)
  kept_unsent s t (inr (inl e)) h q = ground arith
  kept_unsent s t (inr (inr e)) h q = ground arith

  rewrite_route : (s : State) (b : Bool) → (if b then s else rewritten s).route ≡ s.route
  rewrite_route s true = refl
  rewrite_route s false = refl

  rerouted :
      (s : State) (r : Route) → IsCleared floors s → IsCleared floors (record s { route = r })
  rerouted s r h = record {
    judged = h.judged;
    good = h.good;
    relevant = h.relevant;
    known = h.known;
    found = h.found;
    checked = h.checked;
    cited = h.cited;
  }

  reworded :
      (s : State) (a : Option String)
      → IsCleared floors s
      → IsCleared floors (record s { answer = a })
  reworded s a h = record {
    judged = h.judged;
    good = h.good;
    relevant = h.relevant;
    known = h.known;
    found = h.found;
    checked = h.checked;
    cited = h.cited;
  }

  if_IsCleared :
      (b : Bool) (x y : State)
      → IsCleared floors x
      → IsCleared floors y
      → IsCleared floors (if b then x else y)
  if_IsCleared true x y h k = h
  if_IsCleared false x y h k = k

  route_or_retry-IsGated : (s : State) → s.error ≡ false → IsGated (route_or_retry floors s)
  unfolding route_or_retry
  route_or_retry-IsGated s clean sent =
      let h = (route_or_retry-IsCleared floors s clean).0 sent in
      if_IsCleared s.error s _ h (rerouted s _ h)

  unfailed : (s : State) → s.error ≡ false → (route_or_retry floors s).error ≡ false
  unfolding route_or_retry
  unfailed s clean = ground arith

  module _ (injections : String → List String) (contains_pii : String → Bool)
      (redact_pii : String → String) where
    apply_decision-IsGated :
        (s : State) (d : Decision) (a : Action)
        → IsGated s
        → IsGated (apply_decision injections contains_pii redact_pii s d a)
    apply_decision-IsGated s d refuse h e = ground arith
    apply_decision-IsGated s d a h e = reworded s (some d.answer) (h e)

    if_IsGated : (b : Bool) (x y : State) → IsGated x → IsGated y → IsGated (if b then x else y)
    if_IsGated true x y h k = h
    if_IsGated false x y h k = k

    apply_to-IsGated :
        (s : State) (o : Option String)
        → IsGated s
        → IsGated (apply_to injections contains_pii redact_pii s o)
    apply_to-IsGated s none h = h
    apply_to-IsGated s (some answer) h =
        let d =
          evaluate_safety injections contains_pii redact_pii answer
            (docs_of injections contains_pii redact_pii s) s.requires_confirmation in
        if_IsGated (Text.is_empty (Text.strip answer)) s _ h (apply_decision-IsGated s d d.action h)

    apply_safety-IsGated :
        (s : State) → IsGated s → IsGated (apply_safety injections contains_pii redact_pii s)
    unfolding apply_safety
    apply_safety-IsGated s h = apply_to-IsGated s s.answer h

    Step-IsSafe :
        {n : Node} {s t : State} {m : Node}
        → Step floors injections contains_pii redact_pii n s m t
        → IsSafe n s
        → IsSafe m t
    unfolding next
    Step-IsSafe (passes n s f h e) safe = passes-IsSafe n s f safe
    Step-IsSafe (calls n s t c e (same, bound, sent)) safe =
        unsent-IsSafe (next n t) t (kept_unsent s t sent (calling_unsent s c safe))
    Step-IsSafe (routes s e) safe =
        let t = route_or_retry floors s in
        let gated = route_or_retry-IsGated s e in
        rw (should_retry-route t (unfailed s e)) (by_route-IsSafe t t.route refl gated)
    Step-IsSafe (checks s e) safe =
        after-IsSafe (apply_safety injections contains_pii redact_pii s) _
          (apply_safety-IsGated s safe)
    Step-IsSafe (rewrites s e) safe = λ q. safe (sym (rewrite_route s s.error) ∙ q)
    Step-IsSafe (suggests s e) safe = safe
    Step-IsSafe (logs s) safe = safe
    Step-IsSafe (handles s x) safe = λ q. ground arith
    Step-IsSafe (fails n s f e) safe =
        unsent-IsSafe (next n (make_error s)) (make_error s) (λ q. ground arith)

    Run-IsSafe :
        {k : ℕ} {n : Node} {s : State} {m : Node} {t : State}
        → Run floors injections contains_pii redact_pii k n s m t
        → IsSafe n s
        → IsSafe m t
    Run-IsSafe (stays n s) safe = safe
    Run-IsSafe (goes k n n' m s s' t step run) safe = Run-IsSafe run (Step-IsSafe step safe)

    -- If a run of the graph, from its entry and a state that is not marked as sent, ends with its
    -- answer sent without review, then the state that it ends with has passed the gate: the judge
    -- gave its scores, quality and relevance reach their floors, there are documents and no
    -- knowledge gap, the facts are verified and the claims bound to cited documents. Whatever the
    -- calls of models and of the retriever do, and wherever nodes raise, no path goes around it.
    pub sent-IsCleared :
        (k : ℕ) (s t : State)
        → s.route ≢ auto
        → Run floors injections contains_pii redact_pii k classify_complexity s finish t
        → t.route ≡ auto
        → IsCleared floors t
    sent-IsCleared k s t unsent run sent = Run-IsSafe run unsent sent
