-- ===== src/Escalation/Due.antt =====
-- services/escalation.py: which tickets a pass is for, and which of them are left.
use text.Mathlib.Text.{◌==◌ as str_eq}
use rag_support_assistant.Prelude.{
  ℕ, zero, suc, ◌+◌, ◌≤◌, ◌≡◌, refl, sym, ap, ◌∙◌, ◌⊎◌, inl, inr, String, Bool, true, false, ◌&&◌,
  Bool-cases, List, [], ◌∷◌, All, none, some, arith, eq_iff, if◌then◌else◌,
}
use rag_support_assistant.Escalation.{Ticket, delivered, set_delivery, find, has_id}
use rag_support_assistant.Escalation.Retrying.{listed, of_tenant, member}
use rag_support_assistant.Escalation.Sweeping.{ids_of}

-- no identifier stands twice
abbrev pub Distinct : List String → Type 0
Distinct [] = Unit
Distinct (i ∷ is) = (member i is ≡ false) × Distinct is

module _ (states : List String) (tenant_id : String) where
  -- the row is one that the pass is for
  abbrev pub is_due : Ticket → Bool
  is_due t = member t.delivery_state states && of_tenant tenant_id t

  abbrev pub count_due : List Ticket → ℕ
  count_due [] = 0
  count_due (t ∷ ts) = (if is_due t then 1 else 0) + count_due ts

  -- the rows that are due have one of the identifiers
  abbrev pub Covers : List String → List Ticket → Type 0
  Covers ids ts = All (λ t. (is_due t ≡ false) ⊎ (member t.id ids ≡ true)) ts

  widen : (i : String) (ids : List String) (ts : List Ticket) → Covers ids ts → Covers (i ∷ ids) ts
  widen i ids [] h = tt
  widen i ids (t ∷ ts) (inl e, h) = (inl e, widen i ids ts h)
  widen i ids (t ∷ ts) (inr e, h) = (inr (added (str_eq i t.id)), widen i ids ts h)
    where
      added : (b : Bool) → (if b then true else member t.id ids) ≡ true
      added true = refl
      added false = e

  along : (is js : List String) (ts : List Ticket) → is ≡ js → Covers is ts → Covers js ts
  along is js ts e h = rw (sym e) h

  pub listed-Covers :
      (n : ℕ) (ts : List Ticket) → count_due ts ≤ n → Covers (listed n states tenant_id ts) ts
  listed-Covers n [] h = tt
  listed-Covers zero (t ∷ ts) h = elim (Bool-cases (is_due t)) [
    | inl e ↦ let more : 1 + count_due ts ≤ 0 = rw (e) at h in ground arith
    | inr e ↦ (inl e, listed-Covers zero ts (ground arith))
  ]
  listed-Covers (suc n) (t ∷ ts) h = elim (Bool-cases (is_due t)) [
    | inl e ↦
        let less : count_due ts ≤ n = ground arith in
        let ids = listed n states tenant_id ts in
        let same : t.id ∷ ids ≡ listed (suc n) states tenant_id (t ∷ ts) = rw (e) refl in
        along (t.id ∷ ids) (listed (suc n) states tenant_id (t ∷ ts)) (t ∷ ts) same
          (inr (rw ((eq_iff t.id t.id).1 refl) refl), widen t.id ids ts (listed-Covers n ts less))
    | inr e ↦
        let more : count_due ts ≤ suc n = ground arith in
        let ids = listed (suc n) states tenant_id ts in
        let same : ids ≡ listed (suc n) states tenant_id (t ∷ ts) = rw (e) refl in
        along ids (listed (suc n) states tenant_id (t ∷ ts)) (t ∷ ts) same
          (inl e, listed-Covers (suc n) ts more)
  ]

  -- a row with another identifier
  needed :
      (i : String) (ids : List String) (t : Ticket)
      → (is_due t ≡ false) ⊎ (member t.id (i ∷ ids) ≡ true)
      → str_eq t.id i ≡ false
      → (is_due t ≡ false) ⊎ (member t.id ids ≡ true)
  needed i ids t (inl e) f = inl e
  needed i ids t (inr e) f = elim (Bool-cases (str_eq i t.id)) [
    | inr other ↦ inr (rw (other) at e)
    | inl same ↦ let back = (eq_iff t.id i).1 (sym ((eq_iff i t.id).0 same)) in ground arith
  ]

  -- an identifier that no row has is not needed
  drop_missing :
      (i : String) (ids : List String) (ts : List Ticket)
      → member i (ids_of ts) ≡ false
      → Covers (i ∷ ids) ts
      → Covers ids ts
  drop_missing i ids [] h c = tt
  drop_missing i ids (t ∷ ts) h (one, c) = elim (Bool-cases (str_eq t.id i)) [
    | inl e ↦ let absurd : true ≡ false = rw (e) at h in ground arith
    | inr e ↦
        let rest : member i (ids_of ts) ≡ false = rw (e) at h in
        (needed i ids t one e, drop_missing i ids ts rest c)
  ]

  module _ (i : String) (ids : List String) (safe : member delivered states ≡ false) where
    -- the delivery of the row with the identifier
    pub set_delivery-Covers :
        (ts : List Ticket)
        → Distinct (ids_of ts)
        → Covers (i ∷ ids) ts
        → Covers ids (set_delivery i delivered "" ts)
    set_delivery-Covers [] d c = tt
    set_delivery-Covers (t ∷ ts) (new, d) (one, c) = elim (Bool-cases (str_eq t.id i)) [
      | inl e ↦
          let gone : member i (ids_of ts) ≡ false =
            ap (λ z. member z (ids_of ts)) (sym ((eq_iff t.id i).0 e)) ∙ new in
          rw (e) (inl (rw (safe) refl), drop_missing i ids ts gone c)
      | inr e ↦ rw (e) (needed i ids t one e, set_delivery-Covers ts d c)
    ]

    -- the row with the identifier is not due
    pub found-Covers :
        (ts : List Ticket) (u : Ticket)
        → find (has_id i) ts ≡ some u
        → is_due u ≡ false
        → Distinct (ids_of ts)
        → Covers (i ∷ ids) ts
        → Covers ids ts
    found-Covers [] u h idle d c = tt
    found-Covers (t ∷ ts) u h idle (new, d) (one, c) = elim (Bool-cases (str_eq t.id i)) [
      | inl e ↦
          let same : some t ≡ some u = rw (e) at h in
          let row : t ≡ u = ground arith in
          let gone : member i (ids_of ts) ≡ false =
            ap (λ z. member z (ids_of ts)) (sym ((eq_iff t.id i).0 e)) ∙ new in
          (inl (ap is_due row ∙ idle), drop_missing i ids ts gone c)
      | inr e ↦
          let later : find (has_id i) ts ≡ some u = rw (e) at h in
          (needed i ids t one e, found-Covers ts u later idle d c)
    ]

    pub missing-Covers :
        (ts : List Ticket) → find (has_id i) ts ≡ none → Covers (i ∷ ids) ts → Covers ids ts
    missing-Covers [] h c = tt
    missing-Covers (t ∷ ts) h (one, c) = elim (Bool-cases (str_eq t.id i)) [
      | inl e ↦ let absurd : some t ≡ none = rw (e) at h in ground arith
      | inr e ↦
          let later : find (has_id i) ts ≡ none = rw (e) at h in
          (needed i ids t one e, missing-Covers ts later c)
    ]
