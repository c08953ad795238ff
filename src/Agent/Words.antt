-- ===== src/Agent/Words.antt =====
-- agent/grounding.py: the words of a claim that stand in a text.
use rag_support_assistant.Prelude.{
  ℕ, suc, ◌+◌, ◌*◌, ◌/◌, ◌≤◌, ◌≡◌, refl, ap, inl, inr, String, true, Bool-cases, List, [], ◌∷◌,
  length, leb, ltb, max, arith,
}
use rag_support_assistant.Text
use rag_support_assistant.Agent.Citations.{long_words, count_parts}

-- the second list has those of the first list's words that have the property, in order
pub data Picks (P : String → Type 0) : List String → List String → Type 0 where
  no_word : Picks P [] []
  picked : {w : String} {ws us : List String} → P w → Picks P ws us → Picks P (w ∷ ws) (w ∷ us)
  left_out : {w : String} {ws us : List String} → ¬ P w → Picks P ws us → Picks P (w ∷ ws) us

pub long_words-Picks : (ws : List String) → Picks (λ w. 3 ≤ Text.length w) ws (long_words ws)
long_words-Picks [] = no_word
long_words-Picks (w ∷ ws) = elim (Bool-cases (ltb 2 (Text.length w))) [
  | inl e ↦
      let long : 3 ≤ Text.length w = ground arith in rw (e) (picked long (long_words-Picks ws))
  | inr e ↦
      let short : ¬ (3 ≤ Text.length w) = λ h. ground arith in
      rw (e) (left_out short (long_words-Picks ws))
]

pub count_parts-Picks :
    (text : String) (ws : List String)
    → (hits : List String) × Picks (λ w. Text.is_part w text ≡ true) ws hits
      × (length hits ≡ count_parts text ws)
count_parts-Picks text [] = ([], no_word, refl)
count_parts-Picks text (w ∷ ws) =
    let (hits, parts, count) = count_parts-Picks text ws in
    elim (Bool-cases (Text.is_part w text)) [
      | inl e ↦ (w ∷ hits, picked e parts, rw (e) (ap suc count))
      | inr e ↦
          let apart : ¬ (Text.is_part w text ≡ true) = λ h. ground arith in
          (hits, left_out apart parts, rw (e) count)
    ]

pub half_lem : (l k : ℕ) → leb (max 2 ((l + 1) / 2)) k ≡ true → (2 ≤ k) × (l ≤ 2 * k)
half_lem l k h = (ground arith, ground arith)
