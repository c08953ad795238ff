-- ===== src/Agent/Sources.antt =====
-- agent/grounding.py: the documents that bound claims stand in.
use rag_support_assistant.Prelude.{
  ℕ, ◌≡◌, refl, sym, inl, inr, String, Bool, true, false, ◌&&◌, Bool-cases, List, [], ◌∷◌, map, All,
  Option, none, some, Option-cases, ◌==◌, arith, if◌then◌else◌,
}
use rag_support_assistant.Text
use rag_support_assistant.Agent.{Claim, is_nonempty, is_supported}
use rag_support_assistant.Agent.Citations.{
  is_in, document, citation_numbers, binds, keep_cited, cited_texts, bound_numbers, only_in,
  cited_text, own_numbers, or_own, narrowed, bind_claim,
}

module _ (lower : String → String) (words : String → List String) (citations : String → List ℕ)
    (docs : List String) (numbers : List ℕ) where
  -- a document that is cited, exists and is not blank
  abbrev pub IsSource : ℕ → String → Type 0
  IsSource n d =
      (is_in n numbers ≡ true) × (document n docs ≡ some d) × (Text.is_empty (Text.strip d) ≡ false)

  -- the claim stands in the document with the number
  abbrev pub HasSource : Claim → ℕ → Type 0
  HasSource c n = (d : String) × IsSource n d × (binds lower words citations c d ≡ true)

  -- what is promised of a claim that counts as supported
  abbrev pub IsBound : Claim → Type 0
  IsBound c =
      (c.supported ≡ true)
      × (is_nonempty c.citation_indices ≡ true)
      × All (HasSource c) c.citation_indices

  abbrev pub AreSources : List (ℕ × String) → Type 0
  AreSources cited = All (λ (p : ℕ × String). IsSource p.0 p.1) cited

  pub cited_texts-AreSources :
      (ns : List ℕ)
      → All (λ n. is_in n numbers ≡ true) ns
      → AreSources (cited_texts lower words citations docs ns)
  cited_texts-AreSources [] h = tt
  cited_texts-AreSources (n ∷ ns) (named, h) =
      keep (document n docs) refl (cited_texts-AreSources ns h)
    where
      keep :
          (o : Option String)
          → document n docs ≡ o
          → AreSources (cited_texts lower words citations docs ns)
          → AreSources
              (keep_cited lower words citations n o (cited_texts lower words citations docs ns))
      keep none e rest = rest
      keep (some d) e rest = elim (Bool-cases (Text.is_empty (Text.strip d))) [
        | inl blank ↦ rw (blank) rest
        | inr full ↦ rw (full) ((named, e, full), rest)
      ]

  module _ (c : Claim) where
    bound_numbers-All :
        (cited : List (ℕ × String))
        → AreSources cited
        → All (HasSource c) (bound_numbers lower words citations c cited)
    bound_numbers-All [] h = tt
    bound_numbers-All ((n, d) ∷ ds) (source, h) =
        elim (Bool-cases (binds lower words citations c d)) [
          | inl e ↦ rw (e) ((d, source, e), bound_numbers-All ds h)
          | inr e ↦ rw (e) (bound_numbers-All ds h)
        ]

    only_in-All :
        (ns ms : List ℕ)
        → All (HasSource c) ms
        → All (HasSource c) (only_in lower words citations ns ms)
    only_in-All ns [] h = tt
    only_in-All ns (m ∷ ms) (one, h) = elim (Bool-cases (is_in m ns)) [
      | inl e ↦ rw (e) (one, only_in-All ns ms h)
      | inr e ↦ rw (e) (only_in-All ns ms h)
    ]

    cited_text-IsSource :
        (n : ℕ) (cited : List (ℕ × String)) (d : String)
        → AreSources cited
        → cited_text lower words citations n cited ≡ some d
        → IsSource n d
    cited_text-IsSource n [] d h e = ground arith
    cited_text-IsSource n ((m, t) ∷ ds) d (source, h) e = elim (Bool-cases (m == n)) [
      | inl same ↦
          let there : some t ≡ some d = rw (same) at e in
          let text : t ≡ d = ground arith in
          let number : m ≡ n = ground arith in rw (sym number, sym text) source
      | inr other ↦
          let later : cited_text lower words citations n ds ≡ some d = rw (other) at e in
          cited_text-IsSource n ds d h later
    ]

    own_numbers-All :
        (cited : List (ℕ × String)) (ns : List ℕ)
        → AreSources cited
        → All (HasSource c) (own_numbers lower words citations c cited ns)
    own_numbers-All cited [] h = tt
    own_numbers-All cited (n ∷ ns) h =
        elim (Option-cases (cited_text lower words citations n cited)) [
          | inl e ↦ rw (e) (own_numbers-All cited ns h)
          | inr (d, e) ↦ elim (Bool-cases (binds lower words citations c d)) [
            | inl b ↦
                rw (e, b) ((d, cited_text-IsSource n cited d h e, b), own_numbers-All cited ns h)
            | inr b ↦ rw (e, b) (own_numbers-All cited ns h)
          ]
        ]

    or_own-All :
        (ns own : List ℕ)
        → All (HasSource c) ns
        → All (HasSource c) own
        → All (HasSource c) (or_own lower words citations ns own)
    or_own-All [] own h k = k
    or_own-All (n ∷ ns) own h k = h

    narrowed-All :
        (cited : List (ℕ × String)) (bound local : List ℕ)
        → AreSources cited
        → All (HasSource c) bound
        → All (HasSource c) (narrowed lower words citations c cited bound local)
    narrowed-All cited bound [] h k = k
    narrowed-All cited bound (n ∷ ns) h k =
        or_own-All (only_in lower words citations (n ∷ ns) bound)
          (own_numbers lower words citations c cited (n ∷ ns)) (only_in-All (n ∷ ns) bound k)
          (own_numbers-All cited (n ∷ ns) h)

  bind_claim-IsBound :
      (cited : List (ℕ × String)) (c : Claim)
      → AreSources cited
      → is_supported true (bind_claim lower words citations cited c) ≡ true
      → IsBound (bind_claim lower words citations cited c)
  unfolding bind_claim binds
  bind_claim-IsBound cited c h e = by_support c.supported e
    where
      found : Bool → List ℕ
      found b =
          if b
          then narrowed lower words citations c cited (bound_numbers lower words citations c cited)
              (citation_numbers lower words citations (Text.strip c.text))
          else []

      by_support :
          (b : Bool)
          → (b && is_nonempty (found b)) ≡ true
          → (b ≡ true) × (is_nonempty (found b) ≡ true) × All (HasSource c) (found b)
      by_support true e = (
        refl,
        e,
        narrowed-All c cited (bound_numbers lower words citations c cited)
            (citation_numbers lower words citations (Text.strip c.text)) h
            (bound_numbers-All c cited h),
      )
      by_support false e = ground arith

  pub map-bind_claim-IsBound :
      (cited : List (ℕ × String)) (cs : List Claim)
      → AreSources cited
      → All
          (λ (c : Claim). is_supported true c ≡ true)
          (map (bind_claim lower words citations cited) cs)
      → All IsBound (map (bind_claim lower words citations cited) cs)
  map-bind_claim-IsBound cited [] h k = tt
  map-bind_claim-IsBound cited (c ∷ cs) h (one, k) =
      (bind_claim-IsBound cited c h one, map-bind_claim-IsBound cited cs h k)
