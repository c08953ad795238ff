-- ===== src/Escalation/Histories.antt =====
-- services/escalation.py: sequences of creations, retries and passes over one table, and what all of
-- them keep. Retries allow the default states, which is what the service's callers do.
use text.Mathlib.Text.{◌==◌ as str_eq}
use rag_support_assistant.Prelude.{
  sym, arith, eq_iff, ◌≡◌, refl, ap, ◌∙◌, String, Bool, true, false, List, [], ◌∷◌, ◌++◌, ℤ, Option,
  none, some, inl, inr, Bool-cases, Option-cases,
}
use rag_support_assistant.Text
use rag_support_assistant.Escalation.{
  Ticket, InboxRecord, World, set_delivery, deliver, find, has_id, retryable, failed,
}
use rag_support_assistant.Escalation.Creating
use rag_support_assistant.Escalation.Creating.{
  Request, new_ticket, violates, updated, deliver_when, deliver_new, insert_when, insert,
  reuse_or_insert, existing, create_escalation,
}
use rag_support_assistant.Escalation.Retrying
use rag_support_assistant.Escalation.Retrying.{
  RetryResult, commit_delivery, redeliver, look_up, retry_escalation_delivery, retry_all, wanted,
  wanted_states, or_failed, states_or_default, listed, cap, retry_failed_deliveries, record_of,
  state_of, member,
}

-- the states of a pass may be retried
member-wanted_states :
    (states : List String) (s : String)
    → member s (wanted_states states) ≡ true
    → member s retryable ≡ true
member-wanted_states [] s h = ground arith
member-wanted_states (x ∷ xs) s h = elim (Bool-cases (member (Text.strip x) retryable)) [
  | inr e ↦
      let rest : member s (wanted_states xs) ≡ true = rw (e) at h in member-wanted_states xs s rest
  | inl e ↦
      let either : member s (Text.strip x ∷ wanted_states xs) ≡ true = rw (e) at h in
      elim (Bool-cases (str_eq (Text.strip x) s)) [
        | inl same ↦ ap (λ z. member z retryable) (sym ((eq_iff (Text.strip x) s).0 same)) ∙ e
        | inr other ↦
            let rest : member s (wanted_states xs) ≡ true = rw (other) at either in
            member-wanted_states xs s rest
      ]
]

member-or_failed :
    (ss : List String) (s : String)
    → ((x : String) → member x ss ≡ true → member x retryable ≡ true)
    → member s (or_failed ss) ≡ true
    → member s retryable ≡ true
member-or_failed [] s sub h = elim (Bool-cases (str_eq failed s)) [
  | inl e ↦ rw (e) refl
  | inr e ↦ let absurd : false ≡ true = rw (e) at h in ground arith
]
member-or_failed (x ∷ xs) s sub h = sub s h

pub member-wanted :
    (states : List String) (s : String)
    → member s (wanted states) ≡ true
    → member s retryable ≡ true
unfolding wanted
member-wanted states s h = member-or_failed (wanted_states states) s (member-wanted_states states) h

-- one call of the service with what it meets
pub data Operation : Type 0 where
  creates : Creating.Chance → Request → Operation
  retries : Retrying.Chance → String → Operation
  passes : (String → Retrying.Chance) → Bool → ℤ → List String → String → Operation

module _ (sha256 : String → String) (uuid : String → Option String) where
  unfoldable pub step : Operation → World → World
  unfolding create_escalation retry_escalation_delivery retry_failed_deliveries
  step (creates c r) w = (create_escalation sha256 c r w).1
  step (retries c id) w = (retry_escalation_delivery uuid c none id w).1
  step (passes chance listing_raises limit states tenant_id) w =
      (retry_failed_deliveries uuid chance listing_raises limit states tenant_id w).1

  abbrev pub run : List Operation → World → World
  run [] w = w
  run (o ∷ os) w = run os (step o w)

  -- a property of the world that a delivery of a row that may be retried keeps
  module _ (P : World → Type 0)
      (redelivered : (c : Retrying.Chance) (id u : String) (t : Ticket) (w : World)
        → find (has_id u) w.tickets ≡ some t
        → member (state_of t) retryable ≡ true
        → P w
        → P
            (commit_delivery c.commit_error id t
              (deliver c.delivery (record_of t) w.inbox)
              w).1) where
    module _ (allowed : List String)
        (sub : (s : String) → member s allowed ≡ true → member s retryable ≡ true) where
      redeliver-keeps :
          (c : Retrying.Chance) (id u : String) (found : Option Ticket) (w : World)
          → find (has_id u) w.tickets ≡ found
          → P w
          → P (redeliver c allowed id found w).1
      unfolding redeliver
      redeliver-keeps c id u none w same h = h
      redeliver-keeps c id u (some t) w same h = elim (Bool-cases (member (state_of t) allowed)) [
        | inl e ↦ rw (e) (redelivered c id u t w same (sub (state_of t) e) h)
        | inr e ↦ rw (e) h
      ]

      look_up-keeps :
          (c : Retrying.Chance) (id : String) (u : Option String) (w : World)
          → P w
          → P (look_up uuid c allowed id u w).1
      unfolding look_up
      look_up-keeps c id none w h = h
      look_up-keeps c id (some u) w h = elim (Option-cases c.lookup_error) [
        | inl e ↦ rw (e) (redeliver-keeps c id u (find (has_id u) w.tickets) w refl h)
        | inr (e, same) ↦ rw (same) h
      ]

    pub retry-keeps :
        (c : Retrying.Chance) (allow : Option (List String)) (id : String) (w : World)
        → ((s : String)
            → member s (states_or_default uuid allow) ≡ true
            → member s retryable ≡ true)
        → P w
        → P (retry_escalation_delivery uuid c allow id w).1
    unfolding retry_escalation_delivery
    retry-keeps c allow id w sub h = elim (Bool-cases (Text.is_empty (Text.strip id))) [
      | inl e ↦ rw (e) h
      | inr e ↦ rw (e) (
          look_up-keeps (states_or_default uuid allow) sub c (Text.strip id) (uuid (Text.strip id))
            w h)
    ]

    pub retry_all-keeps :
        (chance : String → Retrying.Chance) (states ids : List String) (w : World)
        → ((s : String) → member s states ≡ true → member s retryable ≡ true)
        → P w
        → P (retry_all uuid chance states ids w).1
    unfolding retry_all
    retry_all-keeps chance states [] w sub h = h
    retry_all-keeps chance states (id ∷ ids) w sub h =
        retry_all-keeps chance states ids _ sub (retry-keeps (chance id) (some states) id w sub h)

    -- and that an insertion with its delivery keeps
    module _
        (inserted : (c : Creating.Chance) (r : Request) (w : World)
          → violates sha256 (new_ticket sha256 c r) w.tickets ≡ false
          → P w
          → P
              (deliver_new sha256 c r
                (record w { tickets = w.tickets ++ new_ticket sha256 c r ∷ [] })).1) where
      insert_when-keeps :
          (error : Option String) (clash : Bool) (c : Creating.Chance) (r : Request) (w : World)
          → violates sha256 (new_ticket sha256 c r) w.tickets ≡ clash
          → P w
          → P (insert_when sha256 error clash c r w).1
      unfolding insert_when
      insert_when-keeps (some e) clash c r w same h = h
      insert_when-keeps none true c r w same h = h
      insert_when-keeps none false c r w same h = inserted c r w same h

      reuse_or_insert-keeps :
          (c : Creating.Chance) (r : Request) (w : World) (found : Option Ticket)
          → P w
          → P (reuse_or_insert sha256 c r w found).1
      unfolding insert
      reuse_or_insert-keeps c r w (some t) h = h
      reuse_or_insert-keeps c r w none h = insert_when-keeps c.insert_error _ c r w refl h

      step-keeps : (o : Operation) (w : World) → P w → P (step o w)
      unfolding step
      step-keeps (creates c r) w h = reuse_or_insert-keeps c r w _ h
      step-keeps (retries c id) w h = retry-keeps c none id w (λ s e. e) h
      step-keeps (passes chance true limit states tenant_id) w h = h
      step-keeps (passes chance false limit states tenant_id) w h =
          retry_all-keeps chance (wanted states)
            (listed (cap limit) (wanted states) tenant_id w.tickets) w (member-wanted states) h

      pub run-keeps : (os : List Operation) (w : World) → P w → P (run os w)
      run-keeps [] w h = h
      run-keeps (o ∷ os) w h = run-keeps os (step o w) (step-keeps o w h)

  -- a property of the rows that an insertion and the update of a delivery keep
  module _ (P : List Ticket → Type 0)
      (kept : (id state error : String) (ts : List Ticket)
        → P ts
        → P (set_delivery id state error ts))
      (grown : (t : Ticket) (ts : List Ticket)
        → violates sha256 t ts ≡ false
        → P ts
        → P (ts ++ t ∷ [])) where
    deliver_when-keeps :
        (delivers : Bool) (c : Creating.Chance) (r : Request) (w : World)
        → P w.tickets
        → P (deliver_when sha256 delivers c r w).1.tickets
    unfolding deliver_when
    deliver_when-keeps false c r w h = h
    deliver_when-keeps true c r w h = elim (Bool-cases c.update_raises) [
      | inl e ↦ rw (e) h
      | inr e ↦ rw (e) (kept c.drawn_id _ _ w.tickets h)
    ]

    commit_delivery-keeps :
        (error : Option String) (id : String) (t : Ticket)
        (sent : (String × String) × List InboxRecord) (w : World)
        → P w.tickets
        → P (commit_delivery error id t sent w).1.tickets
    unfolding commit_delivery
    commit_delivery-keeps none id t ((state, error), inbox) w h = kept t.id state error w.tickets h
    commit_delivery-keeps (some e) id t ((state, error), inbox) w h = h

    inserted_rows :
        (c : Creating.Chance) (r : Request) (w : World)
        → violates sha256 (new_ticket sha256 c r) w.tickets ≡ false
        → P w.tickets
        → P
            (deliver_new sha256 c r
              (record w { tickets = w.tickets ++ new_ticket sha256 c r ∷ [] })).1.tickets
    unfolding deliver_new
    inserted_rows c r w same h =
        deliver_when-keeps _ c r (record w { tickets = w.tickets ++ new_ticket sha256 c r ∷ [] })
          (grown (new_ticket sha256 c r) w.tickets same h)

    pub run-keeps_rows : (os : List Operation) (w : World) → P w.tickets → P (run os w).tickets
    run-keeps_rows os w h =
        run-keeps (λ v. P v.tickets)
          (λ c id u t v same may k. commit_delivery-keeps c.commit_error id t _ v k) inserted_rows
          os w h
