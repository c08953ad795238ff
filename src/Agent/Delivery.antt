-- ===== src/Agent/Delivery.antt =====
-- agent/response_safety.py: what the check of an answer delivers.
use rag_support_assistant.Prelude.{
  ◌≡◌, ◌≢◌, refl, sym, ap, ◌∙◌, ◌⊎◌, inl, inr, String, Bool, true, false, List, [], ◌∷◌, ◌++◌, All,
  some, if◌then◌else◌, Bool-cases, arith,
}
use rag_support_assistant.Text
use rag_support_assistant.Agent.{State, human, not_verified}
use rag_support_assistant.Agent.Safety.{
  refusal, detect, all_codes, docs_of, apply_safety, evaluate_safety, apply_to, codes_of, decide,
  apply_decision, Decision,
}

-- the documents behind an answer: the graded ones, or the context where none is
abbrev pub AreBehind : State → List String → Type 0
AreBehind s docs =
    ((s.graded_docs ≢ []) × (docs ≡ s.graded_docs))
    ⊎ ((s.graded_docs ≡ []) × (docs ≡ s.context_docs))

not_empty : (c : String) (cs : List String) → (c ∷ cs) ≢ []
not_empty c cs = λ e. ground arith

append_nonempty : (xs ys : List String) → xs ≢ [] → (xs ++ ys) ≢ []
append_nonempty [] ys h = elim (h refl) [ ]
append_nonempty (x ∷ xs) ys h = not_empty x (xs ++ ys)

module _ (injections : String → List String) (contains_pii : String → Bool)
    (redact_pii : String → String) where
  -- a text with a marker of an injection, and one without
  abbrev pub HasMarker : String → Type 0
  HasMarker t = (Text.is_empty (Text.strip t) ≡ false) × (injections t ≢ [])

  abbrev pub HasNoMarker : String → Type 0
  HasNoMarker t = (Text.is_empty (Text.strip t) ≡ true) ⊎ (injections t ≡ [])

  abbrev pub AnyMarked : List String → Type 0
  AnyMarked [] = ⊥
  AnyMarked (t ∷ ts) = HasMarker t ⊎ AnyMarked ts

  -- an answer that goes on its way, with nothing changed but its text, and one that is refused
  abbrev pub IsPassed : State → State → String → Type 0
  IsPassed s t answer =
      t ≡ record s { answer = some (if contains_pii answer then redact_pii answer else answer) }

  abbrev pub IsRefused : State → State → Type 0
  IsRefused s t =
      (t.route ≡ human)
      × (t.answer ≡ some refusal)
      × (t.grounding_status ≡ not_verified)
      × (t.factuality_score ≡ 0)
      × (t.quality_score ≡ some 0)
      × (t.relevance_score ≡ some 0)
      × (t.requires_confirmation ≡ false)

  abbrev pub IsDelivered : State → State → String → Type 0
  IsDelivered s t answer =
      (docs : List String) × AreBehind s docs
      × ((((s.requires_confirmation ≡ true) ⊎ All HasNoMarker (answer ∷ docs))
            × IsPassed s t answer)
          ⊎ ((s.requires_confirmation ≡ false) × AnyMarked (answer ∷ docs) × IsRefused s t))

  marker-cases :
      (t : String)
      → ((detect injections contains_pii redact_pii t ≡ []) × HasNoMarker t)
        ⊎ ((detect injections contains_pii redact_pii t ≢ []) × HasMarker t)
  marker-cases t = elim (Bool-cases (Text.is_empty (Text.strip t))) [
    | inl e ↦ inl (rw (e) refl, inl e)
    | inr e ↦ by_codes e (injections t) refl
  ]
    where
      by_codes :
          Text.is_empty (Text.strip t) ≡ false
          → (cs : List String) → injections t ≡ cs
          → ((detect injections contains_pii redact_pii t ≡ []) × HasNoMarker t)
            ⊎ ((detect injections contains_pii redact_pii t ≢ []) × HasMarker t)
      by_codes e [] h = inl (rw (e) h, inr h)
      by_codes e (c ∷ cs) h =
          let found : injections t ≢ [] = λ g. not_empty c cs (sym h ∙ g) in
          inr (rw (e) found, (e, found))

  codes-cases :
      (ts : List String)
      → ((all_codes injections contains_pii redact_pii ts ≡ []) × All HasNoMarker ts)
        ⊎ ((all_codes injections contains_pii redact_pii ts ≢ []) × AnyMarked ts)
  codes-cases [] = inl (refl, tt)
  codes-cases (t ∷ ts) = elim (marker-cases t) [
    | inr (some_codes, marked) ↦ inr (append_nonempty _ _ some_codes, inl marked)
    | inl (e, clean) ↦ elim (codes-cases ts) [
      | inl (f, all) ↦ inl (rw (e, f) refl, (clean, all))
      | inr (f, found) ↦ inr (rw (e) f, inr found)
    ]
  ]

  docs_of-AreBehind : (s : State) → AreBehind s (docs_of injections contains_pii redact_pii s)
  docs_of-AreBehind s = by_graded s.graded_docs
    where
      by_graded :
          (gs : List String)
          → let s' = record s { graded_docs = gs } in
            AreBehind s' (docs_of injections contains_pii redact_pii s')
      by_graded [] = inr (refl, refl)
      by_graded (g ∷ gs) = inl ((λ e. ground arith), refl)

  -- the decision without a marker, and with one
  passed :
      (s : State) (answer : String) (codes : List String)
      → codes ≡ []
      → let d = decide injections contains_pii redact_pii answer codes in
        IsPassed s (apply_decision injections contains_pii redact_pii s d d.action) answer
  passed s answer (c ∷ cs) h = elim (not_empty c cs h) [ ]
  passed s answer [] h = elim (Bool-cases (contains_pii answer)) [
    | inl e ↦ rw (e) refl
    | inr e ↦ rw (e) refl
  ]

  turned_down :
      (s : State) (answer : String) (codes : List String)
      → codes ≢ []
      → let d = decide injections contains_pii redact_pii answer codes in
        IsRefused s (apply_decision injections contains_pii redact_pii s d d.action)
  turned_down s answer [] h = elim (h refl) [ ]
  turned_down s answer (c ∷ cs) h = (refl, refl, refl, refl, refl, refl, refl)

  abbrev decision_of : State → String → Decision
  decision_of s answer = decide injections contains_pii redact_pii answer (
      codes_of injections contains_pii redact_pii answer
        (docs_of injections contains_pii redact_pii s) s.requires_confirmation)

  apply_safety_lem :
      (s : State) (answer : String)
      → s.answer ≡ some answer
      → Text.is_empty (Text.strip answer) ≡ false
      → apply_safety injections contains_pii redact_pii s
        ≡ apply_decision injections contains_pii redact_pii s
            (decision_of s answer)
            (decision_of s answer).action
  unfolding apply_safety evaluate_safety
  apply_safety_lem s answer has full = ap (apply_to injections contains_pii redact_pii s) has ∙ rest
    where
      rest :
          apply_to injections contains_pii redact_pii s (some answer)
          ≡ apply_decision injections contains_pii redact_pii s
              (decision_of s answer)
              (decision_of s answer).action
      rest =
          ap
            (λ (b : Bool).
              if b
              then s
              else apply_decision injections contains_pii redact_pii s (decision_of s answer)
                  (decision_of s answer).action)
            full

  codes_of-cases :
      (s : State) (answer : String) (docs : List String) (confirms : Bool)
      → s.requires_confirmation ≡ confirms
      → let codes = codes_of injections contains_pii redact_pii answer docs confirms in
        (((s.requires_confirmation ≡ true) ⊎ All HasNoMarker (answer ∷ docs)) × (codes ≡ []))
        ⊎ ((s.requires_confirmation ≡ false) × AnyMarked (answer ∷ docs) × (codes ≢ []))
  codes_of-cases s answer docs true asks = inl (inl asks, refl)
  codes_of-cases s answer docs false asks = elim (codes-cases (answer ∷ docs)) [
    | inl (none_found, clean) ↦ inl (inr clean, none_found)
    | inr (found, marked) ↦ inr (asks, marked, found)
  ]

  -- An answer that is not blank is delivered in one of two ways. If it asks for a confirmation, or
  -- neither it nor a document behind it has a marker of an injection, only its text changes: it is
  -- the masked one where it has personal data and its own otherwise. If it asks for none and one of
  -- these has a marker, its text is the refusal, its route is a human, its facts count as not
  -- verified and its scores are 0. The documents behind it are the graded ones, or those of the
  -- context where there are no graded ones; a blank text has no marker.
  pub apply_safety-IsDelivered :
      (s : State) (answer : String)
      → s.answer ≡ some answer
      → Text.is_empty (Text.strip answer) ≡ false
      → IsDelivered s (apply_safety injections contains_pii redact_pii s) answer
  apply_safety-IsDelivered s answer has full =
      let docs = docs_of injections contains_pii redact_pii s in
      let codes = codes_of injections contains_pii redact_pii answer docs s.requires_confirmation in
      rw (apply_safety_lem s answer has full) (
        docs,
        docs_of-AreBehind s,
        elim (codes_of-cases s answer docs s.requires_confirmation refl) [
          | inl (clean, none_found) ↦ inl (clean, passed s answer codes none_found)
          | inr (asks, marked, found) ↦ inr (asks, marked, turned_down s answer codes found)
        ],
      )
