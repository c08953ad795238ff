-- ===== src/Agent/Runs.antt =====
-- agent/graph.py: how long the runs of the graph are.
use rag_support_assistant.Prelude.{
  ℕ, ◌+◌, ◌*◌, ◌-◌, ◌≤◌, ◌<◌, ◌≡◌, refl, ap, sym, String, Bool, true, false, List, Option, none,
  some, if◌then◌else◌, arith,
}
use rag_support_assistant.Agent.{State, Floors, route_or_retry}
use rag_support_assistant.Text
use rag_support_assistant.Agent.Safety.{
  apply_safety, apply_to, apply_decision, docs_of, Decision, Action, refuse, evaluate_safety,
}
use rag_support_assistant.Agent.Graph.{
  Node, classify_complexity, route_node, response_safety, make_error, next, Step, passes, calls,
  routes, checks, rewrites, logs, suggests, handles, fails, Run, stays, goes,
}
use rag_support_assistant.Agent.Potential.{
  rank, left, level, potential, IsReady, next-IsLower, route_or_retry_counters,
  route_or_retry-retry, rank_bound, dropped, level_same, rewrite_lower, not_both, not_rewrite,
  calling_node, next-make_error-IsReady,
}

module _ (floors : Floors) (injections : String → List String) (contains_pii : String → Bool)
    (redact_pii : String → String) where
  left-apply_decision :
      (s : State) (d : Decision) (a : Action)
      → left (apply_decision injections contains_pii redact_pii s d a) ≡ left s
  left-apply_decision s d refuse = refl
  left-apply_decision s d a = refl

  if_left :
      (s x y : State) (b : Bool)
      → left x ≡ left s
      → left y ≡ left s
      → left (if b then x else y) ≡ left s
  if_left s x y true h k = h
  if_left s x y false h k = k

  left-apply_to :
      (s : State) (o : Option String)
      → left (apply_to injections contains_pii redact_pii s o) ≡ left s
  left-apply_to s none = refl
  left-apply_to s (some answer) = if_left s s _ (Text.is_empty (Text.strip answer)) refl (
      left-apply_decision s
        (evaluate_safety injections contains_pii redact_pii answer
          (docs_of injections contains_pii redact_pii s) s.requires_confirmation)
        _)

  left-apply_safety :
      (s : State) → left (apply_safety injections contains_pii redact_pii s) ≡ left s
  unfolding apply_safety
  left-apply_safety s = left-apply_to s s.answer

  -- each step lowers the potential
  Step-potential :
      {n : Node} {s t : State} {m : Node}
      → Step floors injections contains_pii redact_pii n s m t
      → IsReady n s
      → (potential m t < potential n s) × IsReady m t
  unfolding next
  Step-potential (passes n s f h e) ready =
      let (lower, ready') =
        next-IsLower n s f (not_rewrite n s e ready) (λ clean. elim (not_both e clean) [ ]) in
      (level_same s.error (left s) (rank (next n s)) (rank n) lower, ready')
  Step-potential (calls n s t c e (same, bound, sent)) ready =
      let (f, w, r) = calling_node c in
      let (lower, ready') = next-IsLower n t f w (λ clean retries q. elim (r q) [ ]) in
      (dropped n (next n t) s t e (omega arith) lower, ready')
  Step-potential (routes s e) ready =
      let t = route_or_retry floors s in
      let (same, bound) = route_or_retry_counters floors s in
      let (lower, ready') =
        next-IsLower route_node t (λ q. ground arith) (λ q. ground arith)
          (λ clean retries q. let more = route_or_retry-retry floors s e retries in omega arith) in
      (dropped route_node (next route_node t) s t e (omega arith) lower, ready')
  Step-potential (checks s e) ready =
      let t = apply_safety injections contains_pii redact_pii s in
      let same = left-apply_safety s in
      let (lower, ready') =
        next-IsLower response_safety t (λ q. ground arith) (λ q. ground arith)
          (λ clean retries q. ground arith) in
      (dropped response_safety (next response_safety t) s t e (omega arith) lower, ready')
  Step-potential (rewrites s e) (more, clean) = (rewrite_lower s more e, tt)
  Step-potential (suggests s e) ready = (level_same s.error (left s) 1 2 (omega arith), tt)
  Step-potential (logs s) ready = (level_same s.error (left s) 0 1 (omega arith), tt)
  Step-potential (handles s x) ready = (level_same s.error (left s) 0 2 (omega arith), tt)
  Step-potential (fails n s f e) ready =
      let top = rank_bound (next n (make_error s)) in
      let before : level false (left s) (rank n) ≡ potential n s =
        ap (λ b. level b (left s) (rank n)) (sym e) in
      (omega arith, next-make_error-IsReady n s f)

  Run-potential :
      {k : ℕ} {n : Node} {s : State} {m : Node} {t : State}
      → Run floors injections contains_pii redact_pii k n s m t
      → IsReady n s
      → k + potential m t ≤ potential n s
  Run-potential (stays n s) ready = omega arith
  Run-potential (goes k n n' m s s' t step run) ready =
      let (lower, ready') = Step-potential step ready in
      let rest = Run-potential run ready' in omega arith

  -- A run of the graph from its entry, on a state without an error, has at most 23 nodes and 9 more
  -- for each iteration that the state has left: whatever the models, the retriever and the judge
  -- answer, and wherever a node raises, the loop of new tries ends.
  pub graph_ends :
      (k : ℕ) (s : State) (m : Node) (t : State)
      → s.error ≡ false
      → Run floors injections contains_pii redact_pii k classify_complexity s m t
      → k ≤ 23 + 9 * (s.max_iterations - s.iteration)
  graph_ends k s m t e run =
      let whole = Run-potential run tt in
      let start : potential classify_complexity s ≡ level false (left s) 11 =
        ap (λ b. level b (left s) 11) e in
      omega arith
