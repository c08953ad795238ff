-- ===== src/Agent/Backed.antt =====
-- agent/graph.py: the claims of an answer, beside the lines and the verdicts that they come from.
use rag_support_assistant.Prelude.{
  ℕ, Bool-cases, ◌≡◌, ◌≢◌, refl, sym, ◌⊎◌, inl, inr, String, Bool, true, false, List, [], ◌∷◌, map,
  All, Option, none, some, arith,
}
use rag_support_assistant.Text
use rag_support_assistant.Agent.{Claim, State}
use rag_support_assistant.Agent.Citations.{
  citation_numbers, bind_claim, unbound, bind_to, bind_claims,
}
use rag_support_assistant.Agent.Verify.{
  Verdict, unreachable, filled, written, generation_docs, claim_lines, new_claim, short,
  evidence_after, claim_of_text, verify_claim, add_claim, verify_claims,
}
use rag_support_assistant.Agent.Sources.{IsBound}
use rag_support_assistant.Agent.Found.{IsCited, IsBound-IsCited}

-- the second list has the lines of the first that start with a dash, without it, in order
pub data Dashed : List String → List String → Type 0 where
  no_line : Dashed [] []
  listed :
      {l : String} {ls cs : List String}
      → Text.starts_with (Text.strip l) "-" ≡ true
      → Dashed ls cs
      → Dashed (l ∷ ls) (Text.strip (Text.strip_marks l) ∷ cs)
  other :
      {l : String} {ls cs : List String}
      → Text.starts_with (Text.strip l) "-" ≡ false
      → Dashed ls cs
      → Dashed (l ∷ ls) cs

-- the documents that the answer was generated from: the graded ones once they were graded or where
-- there are any, and those of the context otherwise
abbrev pub AreGiven : State → List String → Type 0
AreGiven s docs =
    (((s.is_graded ≡ true) ⊎ (s.graded_docs ≢ [])) × (docs ≡ s.graded_docs))
    ⊎ ((s.is_graded ≡ false) × (s.graded_docs ≡ []) × (docs ≡ s.context_docs))

pub generation_docs-AreGiven : (s : State) → AreGiven s (generation_docs s)
unfolding generation_docs
generation_docs-AreGiven s = given s.is_graded s.graded_docs
  where
    given :
        (graded : Bool) (gs : List String)
        → let s' = record s { is_graded = graded; graded_docs = gs } in
          AreGiven s' (generation_docs s')
    given true gs = inl (inl refl, refl)
    given false [] = inr (refl, refl, refl)
    given false (g ∷ gs) = inl (inr (λ e. ground arith), refl)

module _ (lower upper : String → String) (words lines : String → List String)
    (citations : String → List ℕ) (verdict : String → Verdict) where
  -- the model says that the claim is supported, with this evidence
  abbrev pub Backs : Verdict → String → Type 0
  Backs unreachable e = ⊥
  Backs (filled supported evidence) e =
      (supported ≡ true) × (e ≡ short lower upper words lines citations evidence)
  Backs (written v) e =
      (Text.starts_with (upper (Text.strip v)) "SUPPORTED" ≡ true)
      × (e ≡ evidence_after lower upper words lines citations (Text.after_first 58 (Text.strip v)))

  -- the claim is that of the line, and if it counts as supported, the model said so
  abbrev pub IsOf : String → Claim → Type 0
  IsOf l c = (c.text ≡ l) × (c.supported ≡ true → Backs (verdict l) c.evidence)

  abbrev pub AreOf : List String → List Claim → Type 0
  AreOf [] [] = Unit
  AreOf (l ∷ ls) (c ∷ cs) = IsOf l c × AreOf ls cs
  AreOf _ _ = ⊥

  pub claim_lines-Dashed :
      (ls : List String) → Dashed ls (claim_lines lower upper words lines citations ls)
  claim_lines-Dashed [] = no_line
  claim_lines-Dashed (l ∷ ls) = elim (Bool-cases (Text.starts_with (Text.strip l) "-")) [
    | inl e ↦ rw (e) (listed e (claim_lines-Dashed ls))
    | inr e ↦ rw (e) (other e (claim_lines-Dashed ls))
  ]

  claim_of_text-IsOf :
      (l v : String)
      → verdict l ≡ written v
      → IsOf l (claim_of_text lower upper words lines citations l (Text.strip v))
  unfolding claim_of_text
  claim_of_text-IsOf l v said = (
    refl,
    λ (h : Text.starts_with (upper (Text.strip v)) "SUPPORTED" ≡ true). rw (said, h) (refl, refl),
  )

  verify_claim-IsOf :
      (l : String) (v : Verdict) (c : Claim)
      → verdict l ≡ v
      → verify_claim lower upper words lines citations l v ≡ some c
      → IsOf l c
  unfolding verify_claim
  verify_claim-IsOf l unreachable c said h = ground arith
  verify_claim-IsOf l (filled b e) c said h =
      let same : new_claim lower upper words lines citations l b
            (short lower upper words lines citations e)
          ≡ c =
        ground arith in
      rw (sym same) (refl, λ k. rw (said) (k, refl))
  verify_claim-IsOf l (written v) c said h =
      let same : claim_of_text lower upper words lines citations l (Text.strip v) ≡ c =
        ground arith in
      rw (sym same) (claim_of_text-IsOf l v said)

  pub verify_claims-AreOf :
      (ls : List String) (cs : List Claim)
      → verify_claims lower upper words lines citations verdict ls ≡ some cs
      → AreOf ls cs
  verify_claims-AreOf [] [] h = tt
  verify_claims-AreOf [] (c ∷ cs) h = ground arith
  verify_claims-AreOf (l ∷ ls) cs h =
      both (verify_claim lower upper words lines citations l (verdict l))
        (verify_claims lower upper words lines citations verdict ls)
        (λ c e. verify_claim-IsOf l (verdict l) c refl e) (λ ds e. verify_claims-AreOf ls ds e) refl
        refl cs h
    where
      both :
          (o : Option Claim) (rest : Option (List Claim))
          → ((c : Claim)
              → verify_claim lower upper words lines citations l (verdict l) ≡ some c
              → IsOf l c)
          → ((ds : List Claim)
              → verify_claims lower upper words lines citations verdict ls ≡ some ds
              → AreOf ls ds)
          → verify_claim lower upper words lines citations l (verdict l) ≡ o
          → verify_claims lower upper words lines citations verdict ls ≡ rest
          → (cs : List Claim) → add_claim lower upper words lines citations o rest ≡ some cs
          → AreOf (l ∷ ls) cs
      both none rest one all e f cs h = ground arith
      both (some c) none one all e f cs h = ground arith
      both (some c) (some ds) one all e f cs h =
          let made : c ∷ ds ≡ cs = ground arith in rw (sym made) (one c e, all ds f)

  map-AreOf :
      (f : Claim → Claim)
      → ((l : String) (c : Claim) → IsOf l c → IsOf l (f c))
      → (ls : List String) (cs : List Claim) → AreOf ls cs
      → AreOf ls (map f cs)
  map-AreOf f keeps [] [] h = tt
  map-AreOf f keeps [] (c ∷ cs) h = elim h [ ]
  map-AreOf f keeps (l ∷ ls) [] h = elim h [ ]
  map-AreOf f keeps (l ∷ ls) (c ∷ cs) (one, rest) = (keeps l c one, map-AreOf f keeps ls cs rest)

  bind_to-AreOf :
      (numbers : List ℕ) (cited : List (ℕ × String)) (ls : List String) (cs : List Claim)
      → AreOf ls cs
      → AreOf ls (bind_to lower words citations numbers cited cs).0
  unfolding bind_claim
  bind_to-AreOf numbers [] ls cs h =
      map-AreOf (unbound lower words citations numbers) (λ l c k. k) ls cs h
  bind_to-AreOf numbers (d ∷ ds) ls cs h =
      map-AreOf (bind_claim lower words citations (d ∷ ds)) (λ l c k. k) ls cs h

  pub bind_claims-AreOf :
      (answer : String) (docs : List String) (ls : List String) (cs : List Claim)
      → AreOf ls cs
      → AreOf ls (bind_claims lower words citations answer cs docs).0
  unfolding bind_claims
  bind_claims-AreOf answer docs [] [] h = tt
  bind_claims-AreOf answer docs (l ∷ ls) [] h = elim h [ ]
  bind_claims-AreOf answer docs ls (c ∷ cs) h = bind_to-AreOf _ _ ls (c ∷ cs) h

  -- a claim of a line that the model supports and that is found in the documents
  abbrev pub IsBacked : String → List String → String → Claim → Type 0
  IsBacked answer docs l c =
      (c.text ≡ l)
      × (c.supported ≡ true)
      × Backs (verdict l) c.evidence
      × IsCited lower words citations answer docs c

  abbrev pub AreBacked : String → List String → List String → List Claim → Type 0
  AreBacked answer docs [] [] = Unit
  AreBacked answer docs (l ∷ ls) (c ∷ cs) = IsBacked answer docs l c × AreBacked answer docs ls cs
  AreBacked answer docs _ _ = ⊥

  pub AreOf-AreBacked :
      (answer : String) (docs ls : List String) (cs : List Claim)
      → AreOf ls cs
      → All (IsBound lower words citations docs (citation_numbers lower words citations answer)) cs
      → AreBacked answer docs ls cs
  AreOf-AreBacked answer docs [] [] h k = tt
  AreOf-AreBacked answer docs [] (c ∷ cs) h k = elim h [ ]
  AreOf-AreBacked answer docs (l ∷ ls) [] h k = elim h [ ]
  AreOf-AreBacked answer docs (l ∷ ls) (c ∷ cs) ((same, backs), h) (bound, k) = (
    (same, bound.0, backs bound.0, IsBound-IsCited lower words citations answer docs c bound),
    AreOf-AreBacked answer docs ls cs h k,
  )
