-- ===== src/Escalation/Rows.antt =====
-- services/escalation.py: the first row of the table that a query finds.
use rag_support_assistant.Prelude.{
  ◌≡◌, refl, sym, ap, ◌∙◌, inl, inr, Bool, true, false, Bool-cases, List, [], ◌∷◌, ◌++◌, none, some,
  arith,
}
use rag_support_assistant.Escalation.{Ticket, find, any}

module _ (p : Ticket → Bool) where
  pub find-append-none :
      (ts : List Ticket) (t : Ticket)
      → find p ts ≡ none
      → p t ≡ true
      → find p (ts ++ t ∷ []) ≡ some t
  find-append-none [] t h fits = rw (fits) refl
  find-append-none (x ∷ ts) t h fits = elim (Bool-cases (p x)) [
    | inl e ↦ let absurd : some x ≡ none = rw (e) at h in ground arith
    | inr e ↦ let rest : find p ts ≡ none = rw (e) at h in rw (e) (find-append-none ts t rest fits)
  ]

  pub find-append-some :
      (ts : List Ticket) (u t : Ticket) → find p ts ≡ some u → find p (ts ++ t ∷ []) ≡ some u
  find-append-some [] u t h = ground arith
  find-append-some (x ∷ ts) u t h = elim (Bool-cases (p x)) [
    | inl e ↦ let same : some x ≡ some u = rw (e) at h in rw (e) same
    | inr e ↦ let rest : find p ts ≡ some u = rw (e) at h in rw (e) (find-append-some ts u t rest)
  ]

  pub any-find : (ts : List Ticket) → any p ts ≡ false → find p ts ≡ none
  any-find [] h = refl
  any-find (x ∷ ts) h = elim (Bool-cases (p x)) [
    | inl e ↦ let absurd : true ≡ false = rw (e) at h in ground arith
    | inr e ↦ let rest : any p ts ≡ false = rw (e) at h in rw (e) (any-find ts rest)
  ]

  pub find-any : (ts : List Ticket) (t : Ticket) → find p ts ≡ some t → any p ts ≡ true
  find-any [] t h = ground arith
  find-any (x ∷ ts) t h = elim (Bool-cases (p x)) [
    | inl e ↦ rw (e) refl
    | inr e ↦ let rest : find p ts ≡ some t = rw (e) at h in rw (e) (find-any ts t rest)
  ]

  pub find-holds : (ts : List Ticket) (t : Ticket) → find p ts ≡ some t → p t ≡ true
  find-holds [] t h = ground arith
  find-holds (x ∷ ts) t h = elim (Bool-cases (p x)) [
    | inl e ↦
        let same : some x ≡ some t = rw (e) at h in
        let one : x ≡ t = ground arith in ap p (sym one) ∙ e
    | inr e ↦ let later : find p ts ≡ some t = rw (e) at h in find-holds ts t later
  ]
