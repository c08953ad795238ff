-- ===== src/Agent/Grounded.antt =====
-- agent/graph.py and agent/grounding.py: what verified facts rest on.
use rag_support_assistant.Prelude.{
  ℕ, zero, suc, ◌≡◌, ◌≢◌, refl, sym, ap, ◌∙◌, ◌⊎◌, inl, inr, String, Bool, true, false, ◌||◌,
  Bool-cases, List, [], ◌∷◌, length, Option, none, some, ltb, arith,
}
use rag_support_assistant.Text
use rag_support_assistant.Agent.{Status, verified, not_verified, Claim, State, status_for_claims}
use rag_support_assistant.Agent.Citations.{bind_claims}
use rag_support_assistant.Agent.Verify.{
  Verifier, VerifySettings, max_claims, generation_docs, first, is_truncated, overridden,
  claim_lines, verify_claims, scored_claims, conclude, with_lines, with_claims, with_answer,
  answer_of, guarded, is_missing, verify_facts,
}
use rag_support_assistant.Agent.Backed.{
  Dashed, AreGiven, AreBacked, claim_lines-Dashed, verify_claims-AreOf, bind_claims-AreOf,
  AreOf-AreBacked, generation_docs-AreGiven,
}
use rag_support_assistant.Agent.Bound.{
  status_for_claims-verified, overridden-verified, cut_off-verified, length-first,
  length-verify_claims, bind_claims-AreBound, bind_claims-not_verified, length-bind_claims,
}

or_false : (a b : Bool) → (a || b) ≡ false → a ≡ false
or_false true b h = ground arith
or_false false b h = refl

first_whole : (n : ℕ) (xs : List String) → length (first n xs) ≡ length xs → first n xs ≡ xs
first_whole zero [] h = refl
first_whole zero (x ∷ xs) h = ground arith
first_whole (suc n) [] h = refl
first_whole (suc n) (x ∷ xs) h = ap (λ l. x ∷ l) (first_whole n xs (omega arith))

-- the limit of claims cut none off
complete :
    (ls : List String) (k : ℕ)
    → k ≡ length (first max_claims ls)
    → is_truncated (length ls) k ≡ false
    → length (first max_claims ls) ≡ length ls
complete ls k e h =
    let cut = length-first max_claims ls in
    elim (Bool-cases (ltb max_claims (length ls))) [
      | inr few ↦ ground arith
      | inl long ↦ let all : ltb k (length ls) ≡ false = rw (long) at h in ground arith
    ]

module _ (lower upper : String → String) (words lines : String → List String)
    (citations : String → List ℕ) (v : Verifier) (s : State) where
  abbrev pub extracted : String → List String
  extracted raw = claim_lines lower upper words lines citations (lines (Text.strip raw))

  -- each claim is that of its line, supported by the model and found in the documents
  abbrev pub AreGrounded : String → List String → List Claim → Type 0
  AreGrounded answer ls claims =
      (docs : List String) × AreGiven s docs
      × AreBacked lower upper words lines citations v.verdict answer docs ls claims

  -- the claims of a verified answer: the model named none, or all that it named are grounded
  abbrev pub HasClaims : String → String → List Claim → Type 0
  HasClaims answer raw claims =
      ((Text.starts_with (upper (Text.strip raw)) "NONE" ≡ true) × (claims ≡ []))
      ⊎ ((ls : List String) × Dashed (lines (Text.strip raw)) ls
          × (ls ≢ [])
          × AreGrounded answer ls claims)

  scored_claims-verified :
      (n : ℕ) (cs : List Claim) (o : Option Status)
      → o ≢ some verified
      → (scored_claims lower upper words lines citations n cs o).0 ≡ verified
      → (is_truncated n (length cs) ≡ false)
        × (o ≡ none)
        × ((status_for_claims true cs).0 ≡ verified)
  unfolding scored_claims
  scored_claims-verified n cs o real h =
      let (whole, kept) =
        cut_off-verified (is_truncated n (length cs)) cs
          (overridden cs o (status_for_claims true cs)) h in
      let (free, all) = overridden-verified cs o (status_for_claims true cs) real kept in
      (whole, free, all)

  conclude-AreGrounded :
      (answer : String) (ls : List String) (o : Option (List Claim))
      → verify_claims lower upper words lines citations v.verdict (first max_claims ls) ≡ o
      → (conclude lower upper words lines citations s answer (length ls) o).grounding_status
        ≡ verified
      → AreGrounded answer ls
          (conclude lower upper words lines citations s answer (length ls) o).claims
  unfolding conclude
  conclude-AreGrounded answer ls none checks h = ground arith
  conclude-AreGrounded answer ls (some cs) checks h =
      let docs = generation_docs s in
      let run = bind_claims lower words citations answer cs docs in
      let (whole, free, all) =
        scored_claims-verified (length ls) run.0 run.1
          (bind_claims-not_verified lower upper words lines citations answer cs docs) h in
      let (some_claim, supported) = status_for_claims-verified run.0 all in
      let many : length run.0 ≡ length cs =
        length-bind_claims lower upper words lines citations answer cs docs in
      let read : length cs ≡ length (first max_claims ls) =
        length-verify_claims lower upper words lines citations v.verdict (first max_claims ls) cs
          checks in
      let uncut : first max_claims ls ≡ ls =
        first_whole max_claims ls (complete ls (length run.0) (many ∙ read) whole) in
      let all_lines : verify_claims lower upper words lines citations v.verdict ls ≡ some cs =
        ap (λ k. verify_claims lower upper words lines citations v.verdict k) (sym uncut)
        ∙ checks in
      (
        docs,
        generation_docs-AreGiven s,
        AreOf-AreBacked lower upper words lines citations v.verdict answer docs ls run.0
            (bind_claims-AreOf lower upper words lines citations v.verdict answer docs ls cs
              (verify_claims-AreOf lower upper words lines citations v.verdict ls cs all_lines))
            (bind_claims-AreBound lower upper words lines citations answer cs docs free supported),
      )

  with_lines-AreGrounded :
      (answer : String) (ls : List String)
      → (with_lines lower upper words lines citations v s answer ls).grounding_status ≡ verified
      → AreGrounded answer ls (with_lines lower upper words lines citations v s answer ls).claims
  unfolding with_lines
  with_lines-AreGrounded answer [] h = ground arith
  with_lines-AreGrounded answer (l ∷ ls) h = conclude-AreGrounded answer (l ∷ ls) _ refl h

  -- what a state with verified facts rests on
  abbrev pub IsGrounded : State → Type 0
  IsGrounded after =
      (answer : String) × (raw : String) × (s.answer ≡ some answer)
      × (v.extract answer ≡ some raw)
      × HasClaims answer raw after.claims

  some_line :
      (answer : String) (ls : List String)
      → (with_lines lower upper words lines citations v s answer ls).grounding_status ≡ verified
      → ls ≢ []
  unfolding with_lines
  some_line answer [] h = ground arith
  some_line answer (l ∷ ls) h = λ e. ground arith

  listed_claims :
      (answer raw : String)
      → (with_lines lower upper words lines citations v s answer (extracted raw)).grounding_status
        ≡ verified
      → (ls : List String) × Dashed (lines (Text.strip raw)) ls
        × (ls ≢ [])
        × AreGrounded answer ls
            (with_lines lower upper words lines citations v s answer (extracted raw)).claims
  listed_claims answer raw h = (
    extracted raw,
    claim_lines-Dashed lower upper words lines citations v.verdict (lines (Text.strip raw)),
    some_line answer (extracted raw) h,
    with_lines-AreGrounded answer (extracted raw) h,
  )

  with_claims-HasClaims :
      (answer raw : String)
      → (with_claims lower upper words lines citations v s answer (some raw)).grounding_status
        ≡ verified
      → HasClaims answer raw
          (with_claims lower upper words lines citations v s answer (some raw)).claims
  unfolding with_claims
  with_claims-HasClaims answer raw h =
      elim (Bool-cases (Text.starts_with (upper (Text.strip raw)) "NONE")) [
        | inl e ↦ rw (e) (inl (refl, refl))
        | inr e ↦ rw (e) (inr (listed_claims answer raw (rw (e) at h)))
      ]

  with_extracted :
      (answer : String) (o : Option String)
      → v.extract answer ≡ o
      → (with_claims lower upper words lines citations v s answer o).grounding_status ≡ verified
      → (raw : String) × (v.extract answer ≡ some raw)
        × HasClaims answer raw (with_claims lower upper words lines citations v s answer o).claims
  unfolding with_claims
  with_extracted answer none e h = ground arith
  with_extracted answer (some raw) e h = (raw, e, with_claims-HasClaims answer raw h)

  with_answer-IsGrounded :
      (o : Option String)
      → s.answer ≡ o
      → Text.is_empty (answer_of lower upper words lines citations o) ≡ false
      → (with_answer lower upper words lines citations v s
          (answer_of lower upper words lines citations o)).grounding_status
        ≡ verified
      → IsGrounded (
          with_answer lower upper words lines citations v s
            (answer_of lower upper words lines citations o))
  unfolding with_answer
  with_answer-IsGrounded none has full h = ground arith
  with_answer-IsGrounded (some answer) has full h =
      elim (Bool-cases (ltb (length (words answer)) 3)) [
        | inl e ↦ let absurd : not_verified ≡ verified = rw (e) at h in ground arith
        | inr e ↦
            let (raw, extracts, claims) =
              with_extracted answer (v.extract answer) refl (rw (e) at h) in
            rw (e) (answer, raw, has, extracts, claims)
      ]

  guarded-verified :
      (error enabled missing : Bool) (rest : State)
      → error ≡ false
      → (guarded lower upper words lines citations error enabled missing s rest).grounding_status
        ≡ verified
      → (missing ≡ false)
        × (guarded lower upper words lines citations error enabled missing s rest ≡ rest)
  unfolding guarded
  guarded-verified true enabled missing rest clean h = ground arith
  guarded-verified false false missing rest clean h = ground arith
  guarded-verified false true true rest clean h = ground arith
  guarded-verified false true false rest clean h = (refl, refl)

  -- A state that leaves the verification of facts as verified, with no error before, has an answer
  -- from which the model extracted either the word for no claims, and then it has no claims, or
  -- lines of which at least one starts with a dash. In the second case the claims are those lines,
  -- in order and without the dash. For every claim the model's verdict is that it is supported: it
  -- filled the schema so, or wrote a text that starts with the word; the evidence is that of the
  -- verdict. Every claim is bound to at least one document; each one that it is bound to is cited in
  -- the answer by its place among the documents that the answer was generated from, is not blank,
  -- and holds the evidence or the text of the claim, in lower case and with single spaces, or, where
  -- that has 8 characters or more, at least two and half of its words of three characters or more.
  pub verify_facts-IsGrounded :
      (o : VerifySettings)
      → s.error ≡ false
      → (verify_facts lower upper words lines citations v o s).grounding_status ≡ verified
      → IsGrounded (verify_facts lower upper words lines citations v o s)
  unfolding verify_facts
  verify_facts-IsGrounded o clean h =
      let rest =
        with_answer lower upper words lines citations v s
          (answer_of lower upper words lines citations s.answer) in
      let (present, same) =
        guarded-verified s.error o.enabled (is_missing lower upper words lines citations o s) rest
          clean h in
      rw (same) (
        with_answer-IsGrounded s.answer refl (or_false _ _ present)
          (ap (λ (r : State). r.grounding_status) (sym same) ∙ h))
