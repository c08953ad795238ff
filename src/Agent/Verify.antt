-- ===== src/Agent/Verify.antt =====
-- agent/graph.py with agent/grounding.py and agent/doc_grade.py: the node that verifies the facts of an
-- answer. `upper` and `lines` are `str.upper` and `str.splitlines`; `Verifier` is what the model
-- answers. The other parameters are those of Citations.
use rag_support_assistant.Prelude.{
  ℕ, zero, suc, String, Bool, true, false, not, ◌&&◌, ◌||◌, List, [], ◌∷◌, map, length, Option,
  none, some, ltb, if◌then◌else◌,
}
use rag_support_assistant.Text
use rag_support_assistant.Agent.{
  Status, verified, not_verified, human, Claim, State, is_nonempty, status_for_claims,
}
use rag_support_assistant.Agent.Citations.{bind_claims}

-- what the model says of a claim: its call raises, it fills the schema, or it writes a text
pub data Verdict : Type 0 where
  unreachable : Verdict
  filled : Bool → String → Verdict
  written : String → Verdict

-- the text in which the model lists the claims of an answer, unless its call raises, and its verdicts
pub record Verifier : Type 0 where
  pub extract : String → Option String
  pub verdict : String → Verdict

-- `fact_verification_enabled`, `fact_verify_context_max_docs`, `fact_verify_context_chars_per_doc`
pub record VerifySettings : Type 0 where
  pub enabled : Bool
  pub max_docs : ℕ
  pub chars_per_doc : ℕ

abbrev pub max_claims : ℕ
max_claims = 10

-- `resolve_generation_context_docs`
unfoldable pub generation_docs : State → List String
generation_docs s =
    if s.is_graded
    then s.graded_docs
    else (if is_nonempty s.graded_docs then s.graded_docs else s.context_docs)

abbrev pub first {ℓ} : {A : Type ℓ} → ℕ → List A → List A
first zero xs = []
first (suc n) [] = []
first (suc n) (x ∷ xs) = x ∷ first n xs

-- the evidence that the model is shown
abbrev pub context_text : VerifySettings → List String → String
context_text o docs =
    Text.join "\n\n" (map (λ d. Text.take_append o.chars_per_doc d "") (first o.max_docs docs))

-- the result of the node's early exits, and of its end
abbrev pub checked : State → List Claim → Status → ℕ → Bool → State
checked s claims status factuality skipped = record s {
  claims = claims;
  fact_verification_skipped = skipped;
  fact_verification_error = false;
  factuality_score = factuality;
  grounding_status = status;
}

-- `_fact_verification_provider_fail_closed`
abbrev pub fail_closed : State → State
fail_closed s = record s {
  claims = [];
  fact_verification_skipped = true;
  fact_verification_error = true;
  factuality_score = 0;
  grounding_status = not_verified;
  route = human;
  error = false;
}

-- `status_for_truncated_coverage`, with the limit of the node
abbrev pub is_truncated : ℕ → ℕ → Bool
is_truncated extracted verified_count = ltb max_claims extracted && ltb verified_count extracted

abbrev pub any_bound : List Claim → Bool
any_bound [] = false
any_bound (c ∷ cs) = c.citation_bound || any_bound cs

-- the status and the score after the override for missing citations
abbrev pub overridden : List Claim → Option Status → Status × ℕ → Status × ℕ
overridden cs none r = r
overridden cs (some not_verified) (status, factuality) =
    (not_verified, if ltb 0 factuality && not (any_bound cs) then 0 else factuality)
overridden cs (some other) (status, factuality) = (other, factuality)

-- and after the limit of claims cut some off
abbrev pub cut_off : Bool → List Claim → Status × ℕ → Status × ℕ
cut_off false cs r = r
cut_off true cs (status, factuality) = (not_verified, if is_nonempty cs then factuality else 0)

module _ (lower upper : String → String) (words lines : String → List String)
    (citations : String → List ℕ) where
  -- the lines that start with a dash, without it
  abbrev pub claim_lines : List String → List String
  claim_lines [] = []
  claim_lines (l ∷ ls) =
      if Text.starts_with (Text.strip l) "-"
      then Text.strip (Text.strip_marks l) ∷ claim_lines ls
      else claim_lines ls

  abbrev pub new_claim : String → Bool → String → Claim
  new_claim text supported evidence = record {
    text = text;
    supported = supported;
    evidence = evidence;
    citation_bound = false;
    citation_indices = [];
  }

  abbrev pub short : String → String
  short s = Text.take_append 200 (Text.strip s) ""

  abbrev pub evidence_after : Option String → String
  evidence_after none = ""
  evidence_after (some e) = short e

  -- `verdict.upper().startswith("SUPPORTED")`, with the evidence after the first colon
  unfoldable pub claim_of_text : String → String → Claim
  claim_of_text text verdict =
      let supported = Text.starts_with (upper verdict) "SUPPORTED" in
      new_claim text supported
        (if supported then evidence_after (Text.after_first 58 verdict) else "")

  -- the claim with its verdict; `none` where the call raises
  unfoldable pub verify_claim : String → Verdict → Option Claim
  unfolding claim_of_text
  verify_claim text unreachable = none
  verify_claim text (filled supported evidence) = some (new_claim text supported (short evidence))
  verify_claim text (written v) = some (claim_of_text text (Text.strip v))

  abbrev pub add_claim : Option Claim → Option (List Claim) → Option (List Claim)
  add_claim (some c) (some cs) = some (c ∷ cs)
  add_claim _ _ = none

  -- the loop over the claims, which ends at the first call that raises
  abbrev pub verify_claims : (String → Verdict) → List String → Option (List Claim)
  verify_claims verdict [] = some []
  verify_claims verdict (l ∷ ls) = add_claim (verify_claim l (verdict l)) (verify_claims verdict ls)

  -- the status and the score for claims that were bound
  unfoldable pub scored_claims : ℕ → List Claim → Option Status → Status × ℕ
  unfolding status_for_claims
  scored_claims extracted cs override =
      cut_off (is_truncated extracted (length cs)) cs
        (overridden cs override (status_for_claims true cs))

  -- the end of the node, with the verdicts
  unfoldable pub conclude : State → String → ℕ → Option (List Claim) → State
  unfolding bind_claims scored_claims
  conclude s answer extracted none = fail_closed s
  conclude s answer extracted (some cs) =
      let (bound, override) = bind_claims lower words citations answer cs (generation_docs s) in
      let (status, factuality) = scored_claims extracted bound override in
      checked s bound status factuality false

  -- the node once the claims are extracted
  unfoldable pub with_lines : Verifier → State → String → List String → State
  unfolding conclude
  with_lines v s answer [] = checked s [] not_verified 0 false
  with_lines v s answer (l ∷ ls) =
      conclude s answer (length (l ∷ ls)) (verify_claims v.verdict (first max_claims (l ∷ ls)))

  unfoldable pub with_claims : Verifier → State → String → Option String → State
  unfolding with_lines
  with_claims v s answer none = fail_closed s
  with_claims v s answer (some raw) =
      if Text.starts_with (upper (Text.strip raw)) "NONE"
      then checked s [] verified 0 false
      else with_lines v s answer (claim_lines (lines (Text.strip raw)))

  -- the node once there is an answer and a context
  unfoldable pub with_answer : Verifier → State → String → State
  unfolding with_claims
  with_answer v s answer =
      if ltb (length (words answer)) 3
      then checked s [] not_verified 0 false
      else with_claims v s answer (v.extract answer)

  abbrev pub answer_of : Option String → String
  answer_of none = ""
  answer_of (some a) = a

  -- the early exits before the model is called, and what comes after them
  unfoldable pub guarded : Bool → Bool → Bool → State → State → State
  guarded error enabled missing s rest =
      if error
      then s
      else if not enabled
      then checked s [] not_verified 0 true
      else if missing
      then checked s [] not_verified 0 true
      else rest

  -- there is no answer, or nothing to check it against
  abbrev pub is_missing : VerifySettings → State → Bool
  is_missing o s =
      Text.is_empty (answer_of s.answer) || Text.is_empty (context_text o (generation_docs s))

  -- the node of `make_verify_facts_node`
  unfoldable pub verify_facts : Verifier → VerifySettings → State → State
  unfolding guarded with_answer generation_docs
  verify_facts v o s =
      guarded s.error o.enabled (is_missing o s) s (with_answer v s (answer_of s.answer))
