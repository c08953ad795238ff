-- ===== src/Agent/Gate.antt =====
-- agent/graph.py and agent/grounding.py: when an answer is sent without review.
use rag_support_assistant.Prelude.{
  ℕ, ◌≤◌, ◌≡◌, ◌≢◌, ◌↔◌, ◌⊎◌, inl, inr, refl, ap, ◌∙◌, true, false, ◌&&◌, List, [], ◌∷◌, Option,
  some, leb, arith, All, Bool-cases,
}
use rag_support_assistant.Agent.{
  is_verified, verified, auto, scored, Claim, State, has_context, all_bound, is_nonempty,
  grounding_allows_auto, Floors, choose_route, route_or_retry,
}

-- what an answer must have to go out without review
pub record IsCleared (floors : Floors) (s : State) : Type 0 where
  pub judged : s.judge_status ≡ scored
  pub good : (q : ℕ) × (s.quality_score ≡ some q) × (floors.min_quality ≤ q)
  pub relevant : (r : ℕ) × (s.relevance_score ≡ some r) × (floors.min_relevance ≤ r)
  pub known : s.knowledge_gap ≡ false
  pub found : (s.graded_docs ≢ []) ⊎ (s.context_docs ≢ [])
  pub checked : s.grounding_status ≡ verified
  pub cited :
      (s.claims ≡ [])
      ⊎ (All (λ (c : Claim). c.citation_bound ≡ true) s.claims
          × (floors.min_factuality ≤ s.factuality_score))

all_bound-All :
    (cs : List Claim) → all_bound cs ≡ true → All (λ (c : Claim). c.citation_bound ≡ true) cs
all_bound-All [] h = tt
all_bound-All (c ∷ cs) h = (ground arith, all_bound-All cs (ground arith))

All-all_bound :
    (cs : List Claim) → All (λ (c : Claim). c.citation_bound ≡ true) cs → all_bound cs ≡ true
All-all_bound [] h = refl
All-all_bound (c ∷ cs) (bound, rest) = rw (bound) (All-all_bound cs rest)

is_nonempty-not_nil {ℓ} : {A : Type ℓ} (xs : List A) → is_nonempty xs ≡ true → xs ≢ []
is_nonempty-not_nil [] h = ground arith
is_nonempty-not_nil (x ∷ xs) h = λ e. ground arith

not_nil-is_nonempty {ℓ} : {A : Type ℓ} (xs : List A) → xs ≢ [] → is_nonempty xs ≡ true
not_nil-is_nonempty [] h = elim (h refl) [ ]
not_nil-is_nonempty (x ∷ xs) h = refl

is_nonempty-nil {ℓ} : {A : Type ℓ} (xs : List A) → is_nonempty xs ≡ false → xs ≡ []
is_nonempty-nil [] h = refl
is_nonempty-nil (x ∷ xs) h = ground arith

-- the tests that `grounding_allows_auto` makes, all passed
grounding_tests :
    (k : ℕ) (s : State)
    → grounding_allows_auto k s ≡ true
    → (s.knowledge_gap ≡ false)
      × (has_context s ≡ true)
      × (is_verified s.grounding_status ≡ true)
      × ((is_nonempty s.claims ≡ false) ⊎ ((all_bound s.claims ≡ true) × (k ≤ s.factuality_score)))
unfolding grounding_allows_auto
grounding_tests k s h = elim (Bool-cases (is_nonempty s.claims)) [
  | inl e ↦ (ground arith, ground arith, ground arith, inr (ground arith, ground arith))
  | inr e ↦ (ground arith, ground arith, ground arith, inl e)
]

context_lem : (s : State) → has_context s ≡ true → (s.graded_docs ≢ []) ⊎ (s.context_docs ≢ [])
context_lem s h = elim (Bool-cases (is_nonempty s.graded_docs)) [
  | inl e ↦ inl (is_nonempty-not_nil s.graded_docs e)
  | inr e ↦ inr (is_nonempty-not_nil s.context_docs (ground arith))
]

choose_route-auto :
    (floors : Floors) (s : State) (q r : Option ℕ)
    → choose_route floors s q r ≡ auto
    → (a : ℕ) × (q ≡ some a)
      × (b : ℕ) × (r ≡ some b)
      × (floors.min_quality ≤ a)
      × (floors.min_relevance ≤ b)
      × (grounding_allows_auto floors.min_factuality s ≡ true)
choose_route-auto floors s (some q) (some r) h =
    (q, refl, r, refl, ground arith, ground arith, ground arith)
choose_route-auto floors s q r h = ground arith

IsCleared-grounding :
    (floors : Floors) (s : State)
    → s.error ≡ false
    → IsCleared floors s
    → grounding_allows_auto floors.min_factuality s ≡ true
unfolding grounding_allows_auto
IsCleared-grounding floors s clean h = elim h.cited [
  | inl none_made ↦ rw (clean, h.known, context h.found, h.checked, none_made) refl
  | inr (bound, factual) ↦
      let enough : leb floors.min_factuality s.factuality_score ≡ true = ground arith in
      elim (Bool-cases (is_nonempty s.claims)) [
        | inl e ↦
            rw (clean, h.known, context h.found, h.checked, e, All-all_bound s.claims bound, enough)
              refl
        | inr e ↦ rw (clean, h.known, context h.found, h.checked, e) refl
      ]
]
  where
    context : (s.graded_docs ≢ []) ⊎ (s.context_docs ≢ []) → has_context s ≡ true
    context (inl graded) = rw (not_nil-is_nonempty s.graded_docs graded) refl
    context (inr kept) = elim (Bool-cases (is_nonempty s.graded_docs)) [
      | inl e ↦ rw (e) refl
      | inr e ↦ rw (e, not_nil-is_nonempty s.context_docs kept) refl
    ]

auto-IsCleared :
    (floors : Floors) (s : State)
    → s.error ≡ false
    → (route_or_retry floors s).route ≡ auto
    → IsCleared floors s
unfolding route_or_retry
auto-IsCleared floors s clean h =
    let routed : choose_route floors s s.quality_score s.relevance_score ≡ auto = ground arith in
    let (q, has_q, r, has_r, good, near, grounded) =
      choose_route-auto floors s s.quality_score s.relevance_score routed in
    let (known, found, checked, cited) = grounding_tests floors.min_factuality s grounded in
    record {
      judged = ground arith;
      good = (q, has_q, good);
      relevant = (r, has_r, near);
      known = known;
      found = context_lem s found;
      checked = ground arith;
      cited = elim cited [
        | inl e ↦ inl (is_nonempty-nil s.claims e)
        | inr (bound, factual) ↦ inr (all_bound-All s.claims bound, factual)
      ];
    }

IsCleared-auto :
    (floors : Floors) (s : State)
    → s.error ≡ false
    → IsCleared floors s
    → (route_or_retry floors s).route ≡ auto
unfolding route_or_retry
IsCleared-auto floors s clean h =
    let (q, has_q, good) = h.good in
    let (r, has_r, near) = h.relevant in
    let enough : (leb floors.min_quality q && leb floors.min_relevance r) ≡ true = ground arith in
    let grounded = IsCleared-grounding floors s clean h in
    let judged = h.judged in
    let chosen : choose_route floors s (some q) (some r) ≡ auto = rw (grounded) (ground arith) in
    let routed : choose_route floors s s.quality_score s.relevance_score ≡ auto =
      ap (λ x. choose_route floors s x s.relevance_score) has_q
      ∙ ap (λ y. choose_route floors s (some q) y) has_r
      ∙ chosen in
    ground arith

-- Of the states without an error, the routing sends an answer without review exactly for those in
-- which the judge gave a score, the quality and the relevance were measured and reach their floors,
-- no knowledge gap was found, there are documents, the facts are verified, and each claim is bound
-- to a cited document while the factuality reaches its floor, or there are no claims at all.
pub route_or_retry-IsCleared :
    (floors : Floors) (s : State)
    → s.error ≡ false
    → ((route_or_retry floors s).route ≡ auto) ↔ IsCleared floors s
route_or_retry-IsCleared floors s clean =
    (auto-IsCleared floors s clean, IsCleared-auto floors s clean)
