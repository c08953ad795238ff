-- ===== src/Agent/Citations.antt =====
-- agent/grounding.py: the binding of claims to the documents that the answer cites. `lower` is
-- `str.lower`, `words` the matches of the pattern \w+, and `citations` the numbers in square brackets
-- of a text, in order.
use rag_support_assistant.Prelude.{
  ℕ, zero, suc, ◌+◌, ◌/◌, String, Bool, true, false, not, ◌&&◌, ◌||◌, List, [], ◌∷◌, map, length,
  Option, none, some, leb, ltb, ◌==◌, max, if◌then◌else◌,
}
use rag_support_assistant.Text
use rag_support_assistant.Agent.{Status, not_verified, Claim, is_nonempty}

-- `_MIN_BIND_CHARS`
abbrev pub min_bind_chars : ℕ
min_bind_chars = 8

-- a sorted list without repetitions, with one more number
abbrev pub insert_number : ℕ → List ℕ → List ℕ
insert_number n [] = n ∷ []
insert_number n (m ∷ ms) =
    let rest = insert_number n ms in
    if n == m then m ∷ ms else if ltb n m then n ∷ m ∷ ms else m ∷ rest

abbrev pub sorted_set : List ℕ → List ℕ
sorted_set [] = []
sorted_set (n ∷ ns) = if leb 1 n then insert_number n (sorted_set ns) else sorted_set ns

abbrev pub is_in : ℕ → List ℕ → Bool
is_in n [] = false
is_in n (m ∷ ms) = if m == n then true else is_in n ms

-- the document with the number, counted from 1
abbrev pub document : ℕ → List String → Option String
document n [] = none
document zero (d ∷ ds) = none
document (suc zero) (d ∷ ds) = some d
document (suc (suc n)) (d ∷ ds) = document (suc n) ds

abbrev pub long_words : List String → List String
long_words [] = []
long_words (w ∷ ws) = if ltb 2 (Text.length w) then w ∷ long_words ws else long_words ws

abbrev pub count_parts : String → List String → ℕ
count_parts text [] = 0
count_parts text (w ∷ ws) =
    let rest = count_parts text ws in if Text.is_part w text then suc rest else rest

module _ (lower : String → String) (words : String → List String)
    (citations : String → List ℕ) where
  -- `parse_answer_citation_indices`
  abbrev pub citation_numbers : String → List ℕ
  citation_numbers s = sorted_set (citations s)

  -- `_normalize_match_text`
  unfoldable pub normalized : String → String
  normalized s = Text.join " " (Text.split_from "" (lower s))

  -- enough of the words stand in the text
  abbrev pub overlaps : List String → String → Bool
  overlaps [] text = false
  overlaps (w ∷ ws) text = leb (max 2 ((length (w ∷ ws) + 1) / 2)) (count_parts text (w ∷ ws))

  -- `_text_supported_by_doc`, of normalized texts
  abbrev pub matches : String → String → Bool
  matches needle text =
      if Text.is_empty needle || Text.is_empty text
      then false
      else if ltb (Text.length needle) min_bind_chars
      then Text.is_part needle text
      else if Text.is_part needle text
      then true
      else overlaps (long_words (words needle)) text

  unfoldable pub supported_by : String → String → Bool
  unfolding normalized
  supported_by needle text = matches (normalized needle) (normalized text)

  -- the evidence or the text of a claim stands in a document
  unfoldable pub binds : Claim → String → Bool
  unfolding supported_by
  binds c text =
      let evidence = Text.strip c.evidence in
      let claim_text = Text.strip c.text in
      (not (Text.is_empty evidence) && supported_by evidence text)
      || (not (Text.is_empty claim_text) && supported_by claim_text text)

  -- `cited_texts`: the cited documents that exist and are not blank
  abbrev pub keep_cited : ℕ → Option String → List (ℕ × String) → List (ℕ × String)
  keep_cited n none rest = rest
  keep_cited n (some d) rest = if Text.is_empty (Text.strip d) then rest else (n, d) ∷ rest

  abbrev pub cited_texts : List String → List ℕ → List (ℕ × String)
  cited_texts docs [] = []
  cited_texts docs (n ∷ ns) = keep_cited n (document n docs) (cited_texts docs ns)

  abbrev pub bound_numbers : Claim → List (ℕ × String) → List ℕ
  bound_numbers c [] = []
  bound_numbers c ((n, d) ∷ ds) = if binds c d then n ∷ bound_numbers c ds else bound_numbers c ds

  abbrev pub only_in : List ℕ → List ℕ → List ℕ
  only_in ns [] = []
  only_in ns (m ∷ ms) = if is_in m ns then m ∷ only_in ns ms else only_in ns ms

  abbrev pub cited_text : ℕ → List (ℕ × String) → Option String
  cited_text n [] = none
  cited_text n ((m, d) ∷ ds) = if m == n then some d else cited_text n ds

  abbrev pub is_bound_to : Claim → Option String → Bool
  is_bound_to c none = false
  is_bound_to c (some d) = binds c d

  -- the claim's own citations that it is bound to
  abbrev pub own_numbers : Claim → List (ℕ × String) → List ℕ → List ℕ
  own_numbers c cited [] = []
  own_numbers c cited (n ∷ ns) =
      if is_bound_to c (cited_text n cited)
      then n ∷ own_numbers c cited ns
      else own_numbers c cited ns

  abbrev pub or_own : List ℕ → List ℕ → List ℕ
  or_own [] own = own
  or_own (n ∷ ns) own = n ∷ ns

  -- citations on the claim's own line narrow the binding
  abbrev pub narrowed : Claim → List (ℕ × String) → List ℕ → List ℕ → List ℕ
  narrowed c cited bound [] = bound
  narrowed c cited bound (n ∷ ns) = or_own (only_in (n ∷ ns) bound) (own_numbers c cited (n ∷ ns))

  -- one turn of the loop of `apply_citation_bound_claims`
  unfoldable pub bind_claim : List (ℕ × String) → Claim → Claim
  unfolding binds
  bind_claim cited c =
      let found =
        if c.supported
        then narrowed c cited (bound_numbers c cited) (citation_numbers (Text.strip c.text))
        else [] in
      record c { citation_bound = is_nonempty found; citation_indices = found }

  abbrev pub unbound : List ℕ → Claim → Claim
  unbound numbers c = record c { citation_bound = false; citation_indices = numbers }

  -- the claims, by the cited documents; `not_verified` where there is none
  abbrev pub bind_to : List ℕ → List (ℕ × String) → List Claim → List Claim × Option Status
  bind_to numbers [] cs = (map (unbound numbers) cs, some not_verified)
  bind_to numbers (d ∷ ds) cs = (map (bind_claim (d ∷ ds)) cs, none)

  -- `apply_citation_bound_claims`
  unfoldable pub bind_claims : String → List Claim → List String → List Claim × Option Status
  unfolding bind_claim
  bind_claims answer [] docs = ([], none)
  bind_claims answer (c ∷ cs) docs =
      let numbers = citation_numbers answer in bind_to numbers (cited_texts docs numbers) (c ∷ cs)
