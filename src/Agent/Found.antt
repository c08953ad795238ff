-- ===== src/Agent/Found.antt =====
-- agent/grounding.py: where the text of a bound claim is found.
use rag_support_assistant.Prelude.{
  ℕ, zero, suc, ◌*◌, ◌≤◌, ◌≡◌, ◌≢◌, refl, not, ap, ◌⊎◌, inl, inr, String, Bool, true, false, ◌&&◌,
  ◌||◌, Bool-cases, List, [], ◌∷◌, ◌++◌, length, All, some, leb, ltb, ◌==◌, arith,
}
use rag_support_assistant.Text
use rag_support_assistant.Agent.{Claim, is_nonempty}
use rag_support_assistant.Agent.Citations.{
  insert_number, sorted_set, is_in, document, long_words, count_parts, citation_numbers, normalized,
  min_bind_chars, overlaps, matches, supported_by, binds,
}
use rag_support_assistant.Agent.Words.{Picks, long_words-Picks, count_parts-Picks, half_lem}
use rag_support_assistant.Agent.Sources.{HasSource, IsBound}

-- the number stands in the list
abbrev pub Occurs : ℕ → List ℕ → Type 0
Occurs n ns = (before : List ℕ) × (after : List ℕ) × (ns ≡ before ++ n ∷ after)

-- the document has the number, counted from 1
abbrev pub IsAt : ℕ → List String → String → Type 0
IsAt n docs d =
    (before : List String) × (after : List String) × (docs ≡ before ++ d ∷ after)
    × (n ≡ suc (length before))

Occurs-later : (n m : ℕ) (ns : List ℕ) → Occurs n ns → Occurs n (m ∷ ns)
Occurs-later n m ns (before, after, e) = (m ∷ before, after, ap (λ l. m ∷ l) e)

is_in-Occurs : (n : ℕ) (ns : List ℕ) → is_in n ns ≡ true → Occurs n ns
is_in-Occurs n [] h = ground arith
is_in-Occurs n (m ∷ ns) h = elim (Bool-cases (m == n)) [
  | inl e ↦ let same : m ≡ n = ground arith in ([], ns, ap (λ k. k ∷ ns) same)
  | inr e ↦ Occurs-later n m ns (is_in-Occurs n ns (rw (e) at h))
]

insert_number_lem :
    (n m : ℕ) (ns : List ℕ) → is_in n (insert_number m ns) ≡ true → (m ≡ n) ⊎ (is_in n ns ≡ true)
insert_number_lem n m [] h = elim (Bool-cases (m == n)) [
  | inl e ↦ inl (ground arith)
  | inr e ↦ let none_there : is_in n [] ≡ true = rw (e) at h in ground arith
]
insert_number_lem n m (k ∷ ks) h = elim (Bool-cases (m == k)) [
  | inl e ↦ inr (rw (e) at h)
  | inr e ↦ elim (Bool-cases (ltb m k)) [
    | inl low ↦ elim (Bool-cases (m == n)) [
      | inl f ↦ inl (ground arith)
      | inr f ↦ inr (rw (e, low, f) at h)
    ]
    | inr high ↦ elim (Bool-cases (k == n)) [
      | inl f ↦ inr (rw (f) refl)
      | inr f ↦ elim (insert_number_lem n m ks (rw (e, high, f) at h)) [
        | inl same ↦ inl same
        | inr there ↦ inr (rw (f) there)
      ]
    ]
  ]
]

sorted_set-Occurs : (n : ℕ) (ns : List ℕ) → is_in n (sorted_set ns) ≡ true → Occurs n ns
sorted_set-Occurs n [] h = ground arith
sorted_set-Occurs n (m ∷ ns) h = elim (Bool-cases (leb 1 m)) [
  | inl e ↦ elim (insert_number_lem n m (sorted_set ns) (rw (e) at h)) [
    | inl same ↦ ([], ns, ap (λ k. k ∷ ns) same)
    | inr there ↦ Occurs-later n m ns (sorted_set-Occurs n ns there)
  ]
  | inr e ↦ Occurs-later n m ns (sorted_set-Occurs n ns (rw (e) at h))
]

document-IsAt : (n : ℕ) (docs : List String) (d : String) → document n docs ≡ some d → IsAt n docs d
document-IsAt n [] d h = ground arith
document-IsAt zero (x ∷ docs) d h = ground arith
document-IsAt (suc zero) (x ∷ docs) d h =
    let same : x ≡ d = ground arith in ([], docs, ap (λ y. y ∷ docs) same, refl)
document-IsAt (suc (suc n)) (x ∷ docs) d h =
    let (before, after, e, count) = document-IsAt (suc n) docs d h in
    (x ∷ before, after, ap (λ l. x ∷ l) e, ap suc count)

module _ (lower : String → String) (words : String → List String)
    (citations : String → List ℕ) where
  -- lower case, with single spaces
  abbrev pub flat : String → String
  flat s = Text.join " " (Text.split_from "" (lower s))

  -- at least two and half of the words of three letters or more stand in the document
  abbrev pub HasHalf : String → String → Type 0
  HasHalf needle text =
      (ws : List String) × (hits : List String) × Picks (λ w. 3 ≤ Text.length w) (words needle) ws
      × Picks (λ w. Text.is_part w text ≡ true) ws hits
      × (2 ≤ length hits)
      × (length ws ≤ 2 * length hits)

  -- the text stands in the document, or it has 8 letters or more and half of its long words do
  abbrev pub StandsIn : String → String → Type 0
  StandsIn needle text =
      (Text.is_empty needle ≡ false)
      × (Text.is_empty text ≡ false)
      × ((Text.is_part needle text ≡ true) ⊎ ((8 ≤ Text.length needle) × HasHalf needle text))

  overlaps-half :
      (ws : List String) (text : String)
      → overlaps lower words citations ws text ≡ true
      → (2 ≤ count_parts text ws) × (length ws ≤ 2 * count_parts text ws)
  overlaps-half [] text h = ground arith
  overlaps-half (w ∷ ws) text h = half_lem (length (w ∷ ws)) (count_parts text (w ∷ ws)) h

  long_words-HasHalf :
      (needle text : String)
      → overlaps lower words citations (long_words (words needle)) text ≡ true
      → HasHalf needle text
  long_words-HasHalf needle text h =
      let (two, half) = overlaps-half (long_words (words needle)) text h in
      let (hits, parts, count) = count_parts-Picks text (long_words (words needle)) in
      (
        long_words (words needle),
        hits,
        long_words-Picks (words needle),
        parts,
        omega arith,
        omega arith,
      )

  matches-StandsIn :
      (needle text : String)
      → matches lower words citations needle text ≡ true
      → StandsIn needle text
  matches-StandsIn needle text h = elim (Bool-cases (Text.is_empty needle || Text.is_empty text)) [
    | inl e ↦ let absurd : false ≡ true = rw (e) at h in ground arith
    | inr full ↦
        let given : Text.is_empty needle ≡ false = ground arith in
        let there : Text.is_empty text ≡ false = ground arith in
        elim (Bool-cases (Text.is_part needle text)) [
          | inl part ↦ (given, there, inl part)
          | inr apart ↦ elim (Bool-cases (ltb (Text.length needle) min_bind_chars)) [
            | inl short ↦ let absurd : false ≡ true = rw (full, short, apart) at h in ground arith
            | inr long ↦
                let half = long_words-HasHalf needle text (rw (full, long, apart) at h) in
                (given, there, inr (ground arith, half))
          ]
        ]
  ]

  -- the evidence or the text of the claim, where it is not blank, stands in the document
  abbrev pub HoldsText : String → String → Type 0
  HoldsText text d =
      (Text.is_empty (Text.strip text) ≡ false) × StandsIn (flat (Text.strip text)) (flat d)

  or_true : (a b : Bool) → (a || b) ≡ true → (a ≡ true) ⊎ (b ≡ true)
  or_true true b h = inl refl
  or_true false b h = inr h

  part_found :
      (text d : String)
      → (not (Text.is_empty (Text.strip text))
          && supported_by lower words citations (Text.strip text) d)
        ≡ true
      → HoldsText text d
  unfolding supported_by normalized
  part_found text d h = elim (Bool-cases (Text.is_empty (Text.strip text))) [
    | inl e ↦ let absurd : false ≡ true = rw (e) at h in ground arith
    | inr e ↦ (e, matches-StandsIn (flat (Text.strip text)) (flat d) (rw (e) at h))
  ]

  binds_found :
      (c : Claim) (d : String)
      → binds lower words citations c d ≡ true
      → HoldsText c.evidence d ⊎ HoldsText c.text d
  unfolding binds
  binds_found c d h = elim (or_true _ _ h) [
    | inl e ↦ inl (part_found c.evidence d e)
    | inr e ↦ inr (part_found c.text d e)
  ]

  module _ (answer : String) (docs : List String) where
    -- the document with the number is cited, is not blank and holds the claim
    abbrev pub IsFound : Claim → ℕ → Type 0
    IsFound c n =
        (d : String) × Occurs n (citations answer)
        × IsAt n docs d
        × (Text.is_empty (Text.strip d) ≡ false)
        × (HoldsText c.evidence d ⊎ HoldsText c.text d)

    -- the claim is found in at least one document, and in all that it is bound to
    abbrev pub IsCited : Claim → Type 0
    IsCited c = (c.citation_indices ≢ []) × All (IsFound c) c.citation_indices

    All-IsFound :
        (c : Claim) (ns : List ℕ)
        → All
            (HasSource lower words citations docs (citation_numbers lower words citations answer) c)
            ns
        → All (IsFound c) ns
    All-IsFound c [] h = tt
    All-IsFound c (n ∷ ns) ((d, (cited, at, full), holds), rest) = (
      (
        d,
        sorted_set-Occurs n (citations answer) cited,
        document-IsAt n docs d at,
        full,
        binds_found c d holds,
      ),
      All-IsFound c ns rest,
    )

    has_number : (ns : List ℕ) → is_nonempty ns ≡ true → ns ≢ []
    has_number [] h = ground arith
    has_number (n ∷ ns) h = λ e. ground arith

    pub IsBound-IsCited :
        (c : Claim)
        → IsBound lower words citations docs (citation_numbers lower words citations answer) c
        → IsCited c
    IsBound-IsCited c (supported, some_number, all) =
        (has_number c.citation_indices some_number, All-IsFound c c.citation_indices all)
