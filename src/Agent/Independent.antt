-- ===== src/Agent/Independent.antt =====
-- agent/judge_policy.py: that a judge is another model than the generator.
use rag_support_assistant.Prelude.{
  ◌≡◌, ◌≢◌, refl, sym, ap, ◌∙◌, ◌⊎◌, inl, inr, ◌==◌, eq_iff, All, String, Bool, true, false,
  Bool-cases, List, [], ◌∷◌, some, arith,
}
use package.text.Mathlib.Text.{◌==◌ as str_eq}
use rag_support_assistant.Text
use rag_support_assistant.Agent.JudgePolicy.{
  LlmIdentity, is_labeled, same_identity, chosen, ordered, independent_of, first_independent,
  choose_judge,
}

-- a candidate that is kept is another model than the generator
independent_of-first :
    (generator : LlmIdentity) (cs : List LlmIdentity) (j : LlmIdentity) (b : Bool)
    → first_independent (independent_of (some generator) cs) ≡ chosen j b
    → same_identity j generator ≡ false
independent_of-first generator [] j b h = ground arith
independent_of-first generator (c ∷ cs) j b h = elim (Bool-cases (same_identity c generator)) [
  | inl e ↦
      let rest : first_independent (independent_of (some generator) cs) ≡ chosen j b =
        rw (e) at h in
      independent_of-first generator cs j b rest
  | inr e ↦
      let first : chosen c true ≡ chosen j b = rw (e) at h in
      let one : c ≡ j = ground arith in ap (λ x. same_identity x generator) (sym one) ∙ e
]

pub resolve_judge-independent :
    (cs : List LlmIdentity) (generator j : LlmIdentity) (b : Bool)
    → choose_judge cs (some generator) true ≡ chosen j b
    → same_identity j generator ≡ false
resolve_judge-independent [] generator j b h = ground arith
resolve_judge-independent (c ∷ cs) generator j b h = independent_of-first generator (c ∷ cs) j b h

-- another object, and another provider or model where both have labels
abbrev pub IsOther : LlmIdentity → LlmIdentity → Type 0
IsOther j g =
    (j.object_id ≢ g.object_id)
    × (((j.provider ≡ "") × (j.model ≡ ""))
        ⊎ ((g.provider ≡ "") × (g.model ≡ ""))
        ⊎ (j.provider ≢ g.provider)
        ⊎ (j.model ≢ g.model))

empty_text : (t : String) → Text.is_empty t ≡ true → t ≡ ""
empty_text String.[] h = refl
empty_text (String.◌∷◌ c t) h = ground arith

unequal : (t u : String) → str_eq t u ≡ false → t ≢ u
unequal t u h = λ same. let absurd = (eq_iff t u).1 same in ground arith

no_labels : (j : LlmIdentity) → is_labeled j ≡ false → (j.provider ≡ "") × (j.model ≡ "")
no_labels j h = (empty_text j.provider (ground arith), empty_text j.model (ground arith))

pub same_identity-IsOther : (j g : LlmIdentity) → same_identity j g ≡ false → IsOther j g
unfolding same_identity
same_identity-IsOther j g h = elim (Bool-cases (j.object_id == g.object_id)) [
  | inl e ↦ let absurd : true ≡ false = rw (e) at h in ground arith
  | inr e ↦
      let labels = rw (e) at h in
      let objects : j.object_id ≢ g.object_id = λ same. ground arith in
      elim (Bool-cases (is_labeled j)) [
        | inr bare ↦ (objects, inl (no_labels j bare))
        | inl l ↦ elim (Bool-cases (is_labeled g)) [
          | inr bare ↦ (objects, inr (inl (no_labels g bare)))
          | inl m ↦ elim (Bool-cases (str_eq j.provider g.provider)) [
            | inr f ↦ (objects, inr (inr (inl (unequal j.provider g.provider f))))
            | inl f ↦
                let models : str_eq j.model g.model ≡ false = rw (l, m, f) at labels in
                (objects, inr (inr (inr (unequal j.model g.model models))))
          ]
        ]
      ]
]

kept :
    (generator : LlmIdentity) (P : LlmIdentity → Type 0) (cs : List LlmIdentity) (j : LlmIdentity)
    (b : Bool)
    → All P cs
    → first_independent (independent_of (some generator) cs) ≡ chosen j b
    → P j
kept generator P [] j b all h = ground arith
kept generator P (c ∷ cs) j b (one, rest) h = elim (Bool-cases (same_identity c generator)) [
  | inl e ↦ kept generator P cs j b rest (rw (e) at h)
  | inr e ↦
      let first : chosen c true ≡ chosen j b = rw (e) at h in
      let same : c ≡ j = ground arith in rw (sym same) one
]

pub choose_judge-kept :
    (P : LlmIdentity → Type 0) (cs : List LlmIdentity) (generator j : LlmIdentity) (b : Bool)
    → All P cs
    → choose_judge cs (some generator) true ≡ chosen j b
    → P j
choose_judge-kept P [] generator j b all h = ground arith
choose_judge-kept P (c ∷ cs) generator j b all h = kept generator P (c ∷ cs) j b all h

pub both_ordered :
    (fast strong : LlmIdentity)
    → All (λ j. (j ≡ fast) ⊎ (j ≡ strong)) (ordered (some fast) (some strong))
both_ordered fast strong = elim (Bool-cases (strong.object_id == fast.object_id)) [
  | inl e ↦ rw (e) (inl refl, tt)
  | inr e ↦ rw (e) (inl refl, (inr refl, tt))
]
