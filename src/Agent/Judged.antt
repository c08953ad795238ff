-- ===== src/Agent/Judged.antt =====
-- agent/graph.py and agent/judge_policy.py: who judged an answer that is sent without review.
use rag_support_assistant.Prelude.{
  ℕ, ◌≤◌, ◌≡◌, refl, sym, ap, ◌∙◌, ◌⊎◌, inl, inr, max, min, String, true, false, Bool-cases, List,
  [], ◌∷◌, length, Option, none, some, arith, if◌then◌else◌,
}
use rag_support_assistant.Text
use rag_support_assistant.Agent.{auto, State, Floors, route_or_retry}
use rag_support_assistant.Agent.Gate.{route_or_retry-IsCleared}
use rag_support_assistant.Agent.Delivery.{AreBehind}
use rag_support_assistant.Agent.JudgePolicy.{
  LlmIdentity, Resolution, refused, chosen, ordered, resolve_judge, first_score, parse_judge_score,
}
use rag_support_assistant.Agent.Evaluate.{
  gap_docs, is_knowledge_gap, with_gap, by_score, by_reply, by_resolution, generator_of, evaluate,
}
use rag_support_assistant.Agent.Independent.{
  IsOther, resolve_judge-independent, same_identity-IsOther, choose_judge-kept, both_ordered,
}

module _ (lower : String → String) (numbers : String → List ℕ) (floors : Floors)
    (fast strong : LlmIdentity) (reply : LlmIdentity → Option String) (relevance : Option ℕ)
    (s : State) where
  no_gap :
      (t : State)
      → is_knowledge_gap lower numbers t ≡ false
      → (2 ≤ length (gap_docs lower numbers t)) × (50 ≤ t.factuality_score)
  unfolding is_knowledge_gap
  no_gap t h = (ground arith, ground arith)

  -- the model that wrote the answer
  abbrev pub Generator : LlmIdentity → Type 0
  Generator g = ((s.is_simple ≡ true) × (g ≡ fast)) ⊎ ((s.is_simple ≡ false) × (g ≡ strong))

  -- the score that the judge wrote first, between 1 and 100
  abbrev pub IsScore : String → ℕ → Type 0
  IsScore raw q =
      (n : ℕ) × (ns : List ℕ) × (numbers (Text.strip raw) ≡ n ∷ ns) × (q ≡ max 1 (min 100 n))

  -- the judgement that an answer without review rests on
  abbrev pub IsJudged : LlmIdentity → String → ℕ → Type 0
  IsJudged j raw q =
      ((j ≡ fast) ⊎ (j ≡ strong))
      × ((g : LlmIdentity) × Generator g × IsOther j g)
      × (reply j ≡ some raw)
      × IsScore raw q
      × (floors.min_quality ≤ q)
      × ((docs : List String) × AreBehind s docs × (2 ≤ length docs))
      × (50 ≤ s.factuality_score)

  generator_of-Generator : Generator (generator_of lower numbers fast strong s)
  generator_of-Generator = elim (Bool-cases s.is_simple) [
    | inl e ↦ inl (e, rw (e) refl)
    | inr e ↦ inr (e, rw (e) refl)
  ]

  gap_docs-AreBehind : (t : State) → AreBehind t (gap_docs lower numbers t)
  gap_docs-AreBehind t = by_graded t.graded_docs
    where
      by_graded :
          (gs : List String)
          → let t' = record t { graded_docs = gs } in AreBehind t' (gap_docs lower numbers t')
      by_graded [] = inr (refl, refl)
      by_graded (d ∷ ds) = inl ((λ e. ground arith), refl)

  parse_judge_score-IsScore :
      (raw : String) (q : ℕ) → parse_judge_score numbers raw ≡ some q → IsScore raw q
  unfolding parse_judge_score
  parse_judge_score-IsScore raw q h = elim (Bool-cases (Text.is_empty (Text.strip raw))) [
    | inl e ↦ let absurd : ◌≡◌ {A = Option ℕ} none (some q) = rw (e) at h in ground arith
    | inr e ↦ first_number (numbers (Text.strip raw)) refl (rw (e) at h)
  ]
    where
      first_number :
          (ms : List ℕ)
          → numbers (Text.strip raw) ≡ ms
          → first_score numbers ms ≡ some q
          → IsScore raw q
      first_number [] e h = ground arith
      first_number (m ∷ ms) e h = (m, ms, e, ground arith)

  abbrev pub HasJudge : Type 0
  HasJudge = (j : LlmIdentity) × (raw : String) × (q : ℕ) × IsJudged j raw q

  score-HasJudge :
      (j : LlmIdentity) (raw : String) (o : Option ℕ)
      → s.error ≡ false
      → IsOther j (generator_of lower numbers fast strong s)
      → (j ≡ fast) ⊎ (j ≡ strong)
      → reply j ≡ some raw
      → parse_judge_score numbers raw ≡ o
      → (route_or_retry floors
          (with_gap lower numbers (by_score lower numbers relevance s o))).route
        ≡ auto
      → HasJudge
  score-HasJudge j raw none clean other known replies reads h =
      let cleared = (route_or_retry-IsCleared floors _ clean).0 h in
      let broken = cleared.judged in ground arith
  score-HasJudge j raw (some q) clean other known replies reads h =
      let cleared = (route_or_retry-IsCleared floors _ clean).0 h in
      let (p, found, good) = cleared.good in
      let (docs, facts) = no_gap (by_score lower numbers relevance s (some q)) cleared.known in
      let same : p ≡ q = ground arith in
      (
        j,
        raw,
        q,
        (
          known,
          (generator_of lower numbers fast strong s, generator_of-Generator, other),
          replies,
          parse_judge_score-IsScore raw q reads,
          omega arith,
          (gap_docs lower numbers s, gap_docs-AreBehind s, docs),
          facts,
        ),
      )

  reply-HasJudge :
      (j : LlmIdentity) (o : Option String)
      → s.error ≡ false
      → IsOther j (generator_of lower numbers fast strong s)
      → (j ≡ fast) ⊎ (j ≡ strong)
      → reply j ≡ o
      → (route_or_retry floors
          (with_gap lower numbers (by_reply lower numbers relevance s o))).route
        ≡ auto
      → HasJudge
  reply-HasJudge j none clean other known replies h =
      let cleared = (route_or_retry-IsCleared floors _ clean).0 h in
      let broken = cleared.judged in ground arith
  reply-HasJudge j (some raw) clean other known replies h =
      score-HasJudge j raw (parse_judge_score numbers raw) clean other known replies refl h

  resolution-HasJudge :
      (r : Resolution)
      → s.error ≡ false
      → resolve_judge
          (some fast)
          (some strong)
          (some (generator_of lower numbers fast strong s))
          true
        ≡ r
      → (route_or_retry floors
          (with_gap lower numbers (by_resolution lower numbers relevance reply s r))).route
        ≡ auto
      → HasJudge
  unfolding resolve_judge
  resolution-HasJudge (refused reason) clean resolves h =
      let cleared = (route_or_retry-IsCleared floors _ clean).0 h in
      let broken = cleared.judged in ground arith
  resolution-HasJudge (chosen j b) clean resolves h =
      let generator = generator_of lower numbers fast strong s in
      reply-HasJudge j (reply j) clean
        (same_identity-IsOther j generator
          (resolve_judge-independent (ordered (some fast) (some strong)) generator j b resolves))
        (choose_judge-kept (λ k. (k ≡ fast) ⊎ (k ≡ strong)) (ordered (some fast) (some strong))
          generator j b (both_ordered fast strong) resolves)
        refl h

  -- Where the judge is required to be independent and no error came before, an answer that is judged
  -- and then sent without review was judged by one of the two models: by another object than the
  -- one that wrote it, with another provider or model name where both have names. The judge
  -- replied, and the first number of its reply, moved between 1 and 100, is at least the floor of
  -- the quality. There were two documents or more behind the answer, the graded ones, or those of
  -- the context where there are no graded ones, and its factuality was at least 50.
  pub evaluate-HasJudge :
      s.error ≡ false
      → (route_or_retry floors (evaluate lower numbers fast strong true reply relevance s)).route
        ≡ auto
      → HasJudge
  unfolding evaluate
  evaluate-HasJudge clean h =
      let resolution =
        resolve_judge (some fast) (some strong) (some (generator_of lower numbers fast strong s))
          true in
      let after =
        with_gap lower numbers (by_resolution lower numbers relevance reply s resolution) in
      resolution-HasJudge resolution clean refl
        (ap (λ b. (route_or_retry floors (if b then s else after)).route) (sym clean) ∙ h)
