-- ===== src/Escalation/Sweeping.antt =====
-- services/escalation.py: what a pass over the tickets with a failed delivery counts and achieves.
use text.Mathlib.Text.{◌==◌ as str_eq}
use rag_support_assistant.Prelude.{
  ◌+◌, ◌≤◌, ◌≡◌, refl, ap, ◌∙◌, inl, inr, String, Bool-cases, List, [], ◌∷◌, length, map, Option,
  none, some, ℤ,
}
use rag_support_assistant.Escalation.{Ticket, InboxRecord, World, delivered, set_delivery, has_id}
use rag_support_assistant.Escalation.Retrying.{Chance, BatchResult, commit_delivery, cap}

abbrev pub ids_of : List Ticket → List String
ids_of ts = map (λ t. t.id) ts

pub set_delivery-ids_of :
    (id state error : String) (ts : List Ticket)
    → ids_of (set_delivery id state error ts) ≡ ids_of ts
set_delivery-ids_of id state error [] = refl
set_delivery-ids_of id state error (t ∷ ts) = elim (Bool-cases (has_id id t)) [
  | inl e ↦ rw (e) refl
  | inr e ↦ rw (e) (ap (λ l. t.id ∷ l) (set_delivery-ids_of id state error ts))
]

abbrev pub HasTotals : BatchResult → Type 0
HasTotals b = (b.attempted ≡ b.delivered + b.failed + b.skipped) × (b.attempted ≡ length b.results)

module _ (uuid : String → Option String) (chance : String → Chance) where
  pub commit_delivery-ids_of :
      (error : Option String) (id : String) (t : Ticket)
      (sent : (String × String) × List InboxRecord) (w : World) (ids : List String)
      → ids_of w.tickets ≡ ids
      → ids_of (commit_delivery error id t sent w).1.tickets ≡ ids
  unfolding commit_delivery
  commit_delivery-ids_of none id t ((state, error), inbox) w ids h =
      set_delivery-ids_of t.id state error w.tickets ∙ h
  commit_delivery-ids_of (some e) id t ((state, error), inbox) w ids h = h

  -- what a pass reports and which rows it leaves
  abbrev pub IsBounded : ℤ → World → BatchResult × World → Type 0
  IsBounded limit w end =
      HasTotals end.0
      × (end.0.attempted ≤ cap limit)
      × (1 ≤ cap limit)
      × (cap limit ≤ 500)
      × (ids_of end.1.tickets ≡ ids_of w.tickets)
