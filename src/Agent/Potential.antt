-- ===== src/Agent/Potential.antt =====
-- agent/graph.py: the potential of a node and a state, and the edges between nodes.
use rag_support_assistant.Prelude.{
  ℕ, ◌+◌, ◌*◌, ◌-◌, ◌≤◌, ◌<◌, ◌≡◌, ◌≢◌, refl, ap, sym, inl, inr, Bool, true, false, Bool-cases,
  Option, some, if◌then◌else◌, arith, ◌||◌,
}
use rag_support_assistant.Agent.{
  State, Route, auto, retry, errored, Floors, route_or_retry, choose_route,
}
use rag_support_assistant.Agent.Graph.{
  Node, classify_complexity, transform_query, retrieve, grade_docs, generate, verify_facts,
  evaluate, route_node, response_safety, suggest_questions, rewrite_query, log_node, handle_error,
  finish, make_error, is_errored, route_after_retrieve, route_after_generate,
  route_after_verify_facts, retry_by_route, should_retry, after_response_safety, next, rewrite,
  rewritten, IsCalling, classifying,
}

-- how many nodes may follow one within an iteration
abbrev pub rank : Node → ℕ
rank finish = 0
rank log_node = 1
rank rewrite_query = 1
rank handle_error = 2
rank suggest_questions = 2
rank response_safety = 3
rank route_node = 4
rank evaluate = 5
rank verify_facts = 6
rank generate = 7
rank grade_docs = 8
rank retrieve = 9
rank transform_query = 10
rank classify_complexity = 11

abbrev pub left : State → ℕ
left s = s.max_iterations - s.iteration

-- an error leaves the nodes of one iteration only
abbrev pub level : Bool → ℕ → ℕ → ℕ
level true iterations k = k
level false iterations k = 12 + 9 * iterations + k

abbrev pub potential : Node → State → ℕ
potential n s = level s.error (left s) (rank n)

-- an iteration is left, and there is no error, where a query is rewritten
abbrev pub IsReady : Node → State → Type 0
IsReady rewrite_query s = (s.iteration < s.max_iterations) × (s.error ≡ false)
IsReady _ s = Unit

-- the route `retry` is given only while an iteration is left
pub choose_route-retry :
    (floors : Floors) (s : State) (q r : Option ℕ)
    → choose_route floors s q r ≡ retry
    → s.iteration < s.max_iterations
choose_route-retry floors s (some q) (some r) h = ground arith
choose_route-retry floors s q r h = ground arith

abbrev pub IsLower : ℕ → State → Node → Type 0
IsLower k s m = (rank m < k) × IsReady m s

pub if_IsLower :
    (k : ℕ) (s : State) (b : Bool) (m n : Node)
    → IsLower k s m
    → IsLower k s n
    → IsLower k s (if b then m else n)
if_IsLower k s true m n x y = x
if_IsLower k s false m n x y = y

pub after-IsLower : (s : State) (r : Route) → IsLower 3 s (after_response_safety r)
after-IsLower s auto = (omega arith, tt)
after-IsLower s r = (omega arith, tt)

pub by_route-IsLower :
    (s : State) (r : Route)
    → s.error ≡ false
    → (r ≡ retry → s.iteration < s.max_iterations)
    → IsLower 4 s (retry_by_route r)
by_route-IsLower s errored e ready = (omega arith, tt)
by_route-IsLower s retry e ready = (omega arith, (ready refl, e))
by_route-IsLower s r e ready = (omega arith, tt)

pub should_retry-error : (s : State) → s.error ≡ true → should_retry s ≡ handle_error
unfolding should_retry
should_retry-error s e = ap (λ (b : Bool). if b then handle_error else retry_by_route s.route) e

pub should_retry-route : (s : State) → s.error ≡ false → should_retry s ≡ retry_by_route s.route
unfolding should_retry
should_retry-route s e = ap (λ (b : Bool). if b then handle_error else retry_by_route s.route) e

pub should_retry-IsLower :
    (s : State)
    → (s.error ≡ false → s.route ≡ retry → s.iteration < s.max_iterations)
    → IsLower 4 s (should_retry s)
should_retry-IsLower s ready = elim (Bool-cases s.error) [
  | inl e ↦ rw (should_retry-error s e) (omega arith, tt)
  | inr e ↦ rw (should_retry-route s e) (by_route-IsLower s s.route e (ready e))
]

-- each edge leads to a node of a lower rank, but the two that `retry` makes
pub next-IsLower :
    (n : Node) (s : State)
    → n ≢ finish
    → n ≢ rewrite_query
    → (s.error ≡ false → s.route ≡ retry → n ≡ route_node → s.iteration < s.max_iterations)
    → IsLower (rank n) s (next n s)
unfolding next route_after_retrieve route_after_generate route_after_verify_facts
next-IsLower classify_complexity s f w ready = (omega arith, tt)
next-IsLower transform_query s f w ready = (omega arith, tt)
next-IsLower retrieve s f w ready =
    if_IsLower 9 s s.error _ _ (omega arith, tt)
      (if_IsLower 9 s s.is_simple _ _ (omega arith, tt) (omega arith, tt))
next-IsLower grade_docs s f w ready = (omega arith, tt)
next-IsLower generate s f w ready =
    if_IsLower 7 s s.error _ _ (omega arith, tt)
      (if_IsLower 7 s s.generation_error _ _ (omega arith, tt)
        (if_IsLower 7 s s.is_simple _ _ (omega arith, tt) (omega arith, tt)))
next-IsLower verify_facts s f w ready =
    if_IsLower 6 s (s.error || is_errored s.route) _ _ (omega arith, tt)
      (if_IsLower 6 s s.fact_verification_error _ _ (omega arith, tt) (omega arith, tt))
next-IsLower evaluate s f w ready = (omega arith, tt)
next-IsLower route_node s f w ready = should_retry-IsLower s (λ e r. ready e r refl)
next-IsLower response_safety s f w ready = after-IsLower s s.route
next-IsLower suggest_questions s f w ready = (omega arith, tt)
next-IsLower rewrite_query s f w ready = elim (w refl) [ ]
next-IsLower log_node s f w ready = (omega arith, tt)
next-IsLower handle_error s f w ready = (omega arith, tt)
next-IsLower finish s f w ready = elim (f refl) [ ]

pub route_or_retry_counters :
    (floors : Floors) (s : State)
    → ((route_or_retry floors s).iteration ≡ s.iteration)
      × ((route_or_retry floors s).max_iterations ≡ s.max_iterations)
unfolding route_or_retry
route_or_retry_counters floors s = elim (Bool-cases s.error) [
  | inl e ↦ (ground arith, ground arith)
  | inr e ↦ (ground arith, ground arith)
]

pub route_or_retry-retry :
    (floors : Floors) (s : State)
    → s.error ≡ false
    → (route_or_retry floors s).route ≡ retry
    → s.iteration < s.max_iterations
unfolding route_or_retry
route_or_retry-retry floors s clean h =
    let chosen : choose_route floors s s.quality_score s.relevance_score ≡ retry = ground arith in
    choose_route-retry floors s s.quality_score s.relevance_score chosen

pub rank_bound : (n : Node) → rank n ≤ 11
rank_bound finish = omega arith
rank_bound n = omega arith

pub level_lower : (b : Bool) (x y k l : ℕ) → x ≤ y → k < l → k ≤ 11 → level b x k < level false y l
level_lower true x y k l fewer lower top = omega arith
level_lower false x y k l fewer lower top = omega arith

-- the potential after a step to a lower node
pub dropped :
    (n m : Node) (s t : State)
    → s.error ≡ false
    → left t ≤ left s
    → rank m < rank n
    → potential m t < potential n s
dropped n m s t clean fewer lower =
    let before : level false (left s) (rank n) ≡ potential n s =
      ap (λ b. level b (left s) (rank n)) (sym clean) in
    let drop = level_lower t.error (left t) (left s) (rank m) (rank n) fewer lower (rank_bound m) in
    omega arith

pub level_same : (b : Bool) (x k l : ℕ) → k < l → level b x k < level b x l
level_same true x k l lower = omega arith
level_same false x k l lower = omega arith

-- an iteration that is spent is worth more than the nodes that follow
pub spent_lower :
    (b : Bool) (it max : ℕ)
    → b ≡ false
    → it < max
    → level b (max - (it + 1)) 9 < level b (max - it) 1
spent_lower true it max e more = ground arith
spent_lower false it max e more = omega arith

pub rewrite_lower :
    (s : State)
    → s.iteration < s.max_iterations
    → s.error ≡ false
    → potential retrieve (rewrite s) < potential rewrite_query s
rewrite_lower s more e =
    let same : potential retrieve (rewrite s) ≡ potential retrieve (rewritten s) =
      ap (λ (b : Bool). potential retrieve (if b then s else rewritten s)) e in
    let lower : potential retrieve (rewritten s) < potential rewrite_query s =
      spent_lower s.error s.iteration s.max_iterations e more in
    omega arith

pub not_both : {b : Bool} → b ≡ true → b ≢ false
not_both h e = ground arith

pub not_rewrite : (n : Node) (s : State) → s.error ≡ true → IsReady n s → n ≢ rewrite_query
not_rewrite rewrite_query s e (more, clean) q = not_both e clean
not_rewrite n s e ready q = ground arith

pub calling_node : {n : Node} → IsCalling n → (n ≢ finish) × (n ≢ rewrite_query) × (n ≢ route_node)
calling_node classifying = ((λ e. ground arith), (λ e. ground arith), (λ e. ground arith))
calling_node c = ((λ e. ground arith), (λ e. ground arith), (λ e. ground arith))

pub next-make_error-IsReady :
    (n : Node) (s : State) → n ≢ finish → IsReady (next n (make_error s)) (make_error s)
unfolding next
next-make_error-IsReady rewrite_query s f = tt
next-make_error-IsReady n s f =
    (next-IsLower n (make_error s) f (λ q. ground arith)
      (λ clean. elim (not_both refl clean) [ ])).1
