-- ===== src/Escalation/Effective.antt =====
-- services/escalation.py: a pass in which nothing raises.
use rag_support_assistant.Prelude.{
  ℕ, zero, suc, ◌≤◌, ◌≡◌, refl, inl, inr, String, true, false, Bool-cases, List, [], ◌∷◌, ◌++◌, All,
  Option, none, some, ℤ, arith, eq_iff,
}
use rag_support_assistant.Text
use rag_support_assistant.Escalation.{
  Ticket, InboxRecord, World, delivered, pending, retryable, Sink, local, takes, missing, rejects,
  deliver, find, has_id,
}
use rag_support_assistant.Escalation.Rows.{find-holds}
use rag_support_assistant.Escalation.Retrying.{
  Chance, commit_delivery, redeliver, look_up, retry_escalation_delivery, retry_all,
  retry_failed_deliveries, listed, wanted, cap, record_of, state_of, member,
}
use rag_support_assistant.Escalation.Histories.{member-wanted, retry-keeps}
use rag_support_assistant.Escalation.Sweeping.{ids_of, commit_delivery-ids_of}
use rag_support_assistant.Escalation.Due.{
  Distinct, is_due, count_due, Covers, listed-Covers, set_delivery-Covers, found-Covers,
  missing-Covers,
}

-- a retry in which nothing raises, with the answer of the sink
abbrev pub working : Sink → Chance
working sink = record {
  lookup_error = none;
  delivery = record { sink = sink; write_error = none };
  commit_error = none;
}

deliver-working :
    (sink : Sink) (r : InboxRecord) (rs : List InboxRecord)
    → deliver (working sink).delivery r rs ≡ ((delivered, ""), rs ++ r ∷ [])
unfolding deliver
deliver-working local r rs = refl
deliver-working takes r rs = refl
deliver-working missing r rs = refl
deliver-working rejects r rs = refl

module _ (states : List String) (tenant_id : String) where
  -- a row without a state counts as pending, but no pass lists it
  state_of-due :
      (state : String)
      → member "" states ≡ false
      → member (Text.or_else state pending) states ≡ false
      → member state states ≡ false
  state_of-due String.[] none_listed h = none_listed
  state_of-due (String.◌∷◌ c s) none_listed h = h

  module _ (i : String) (ids : List String) (safe : member delivered states ≡ false)
      (none_listed : member "" states ≡ false) where
    redeliver-Covers :
        (sink : Sink) (name : String) (o : Option Ticket) (w : World)
        → find (has_id i) w.tickets ≡ o
        → Distinct (ids_of w.tickets)
        → Covers states tenant_id (i ∷ ids) w.tickets
        → Covers states tenant_id ids (redeliver (working sink) states name o w).1.tickets
    unfolding redeliver commit_delivery
    redeliver-Covers sink name none w h d c =
        missing-Covers states tenant_id i ids safe w.tickets h c
    redeliver-Covers sink name (some t) w h d c = elim (Bool-cases (member (state_of t) states)) [
      | inl e ↦
          let named : t.id ≡ i = (eq_iff t.id i).0 (find-holds (has_id i) w.tickets t h) in
          rw (e, deliver-working sink (record_of t) w.inbox, named)
            (set_delivery-Covers states tenant_id i ids safe w.tickets d c)
      | inr e ↦
          let idle : is_due states tenant_id t ≡ false =
            rw (state_of-due t.delivery_state none_listed e) refl in
          rw (e) (found-Covers states tenant_id i ids safe w.tickets t h idle d c)
    ]

-- `uuid.UUID` reads the identifier of a row back
abbrev pub IsId : (String → Option String) → String → Type 0
IsId uuid i = (Text.is_empty (Text.strip i) ≡ false) × (uuid (Text.strip i) ≡ some i)

module _ (uuid : String → Option String) (sinks : String → Sink) (states : List String)
    (tenant_id : String) (safe : member delivered states ≡ false)
    (none_listed : member "" states ≡ false)
    (sub : (s : String) → member s states ≡ true → member s retryable ≡ true) where
  abbrev chance : String → Chance
  chance i = working (sinks i)

  retry-Covers :
      (i : String) (ids : List String) (w : World)
      → IsId uuid i
      → Distinct (ids_of w.tickets)
      → Covers states tenant_id (i ∷ ids) w.tickets
      → Covers states tenant_id ids
          (retry_escalation_delivery uuid (chance i) (some states) i w).1.tickets
  unfolding retry_escalation_delivery look_up
  retry-Covers i ids w (full, read) d c =
      rw (full, read)
        (redeliver-Covers states tenant_id i ids safe none_listed (sinks i) (Text.strip i)
          (find (has_id i) w.tickets) w refl d c)

  retry-ids_of :
      (i : String) (w : World)
      → ids_of (retry_escalation_delivery uuid (chance i) (some states) i w).1.tickets
        ≡ ids_of w.tickets
  retry-ids_of i w =
      retry-keeps (λ s. s) uuid (λ v. ids_of v.tickets ≡ ids_of w.tickets)
        (λ c id u t v same may h.
          commit_delivery-ids_of uuid chance c.commit_error id t _ v (ids_of w.tickets) h)
        (chance i) (some states) i w sub refl

  retry_all-Covers :
      (ids : List String) (w : World)
      → All (IsId uuid) ids
      → Distinct (ids_of w.tickets)
      → Covers states tenant_id ids w.tickets
      → Covers states tenant_id [] (retry_all uuid chance states ids w).1.tickets
  unfolding retry_all
  retry_all-Covers [] w good d c = c
  retry_all-Covers (i ∷ ids) w (one, good) d c =
      let next = (retry_escalation_delivery uuid (chance i) (some states) i w).1 in
      retry_all-Covers ids next good (rw (retry-ids_of i w) d) (retry-Covers i ids w one d c)

not_due :
    (states : List String) (tenant_id : String) (ts : List Ticket)
    → Covers states tenant_id [] ts
    → All (λ t. is_due states tenant_id t ≡ false) ts
not_due states tenant_id [] c = tt
not_due states tenant_id (t ∷ ts) (inl e, c) = (e, not_due states tenant_id ts c)
not_due states tenant_id (t ∷ ts) (inr e, c) = ground arith

listed-All :
    (P : String → Type 0) (n : ℕ) (states : List String) (tenant_id : String) (ts : List Ticket)
    → All P (ids_of ts)
    → All P (listed n states tenant_id ts)
listed-All P zero states tenant_id ts h = tt
listed-All P (suc n) states tenant_id [] h = tt
listed-All P (suc n) states tenant_id (t ∷ ts) (p, h) =
    elim (Bool-cases (is_due states tenant_id t)) [
      | inl e ↦ rw (e) (p, listed-All P n states tenant_id ts h)
      | inr e ↦ rw (e) (listed-All P (suc n) states tenant_id ts h)
    ]

-- what no pass asks for
not_wanted :
    (states : List String) (s : String)
    → member s retryable ≡ false
    → member s (wanted states) ≡ false
not_wanted states s h = elim (Bool-cases (member s (wanted states))) [
  | inr e ↦ e
  | inl e ↦ let absurd = member-wanted states s e in ground arith
]

-- After a pass in which no lookup, no write to the inbox file and no commit raises, whatever the
-- sinks answer, no ticket of the tenant (of any tenant, without one) is left in a state that the pass
-- is for, if its limit is not below the number of these tickets. The tickets have identifiers that
-- differ and that are read back as they are.
pub pass_delivers :
    (uuid : String → Option String) (sinks : String → Sink) (limit : ℤ) (states : List String)
    (tenant_id : String) (w : World)
    → Distinct (ids_of w.tickets)
    → All (IsId uuid) (ids_of w.tickets)
    → count_due (wanted states) tenant_id w.tickets ≤ cap limit
    → All
        (λ t. is_due (wanted states) tenant_id t ≡ false)
        (retry_failed_deliveries uuid
          (λ i. working (sinks i))
          false
          limit
          states
          tenant_id
          w).1.tickets
unfolding retry_failed_deliveries
pass_delivers uuid sinks limit states tenant_id w d good room =
    let asked = wanted states in
    let ids = listed (cap limit) asked tenant_id w.tickets in
    not_due asked tenant_id (retry_all uuid (λ i. working (sinks i)) asked ids w).1.tickets (
      retry_all-Covers uuid sinks asked tenant_id (not_wanted states delivered refl)
        (not_wanted states "" refl) (member-wanted states) ids w
        (listed-All (IsId uuid) (cap limit) asked tenant_id w.tickets good) d
        (listed-Covers asked tenant_id (cap limit) w.tickets room))
