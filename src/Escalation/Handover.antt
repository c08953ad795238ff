-- ===== src/Escalation/Handover.antt =====
-- services/escalation.py: when a user is told that an operator has the question.
use text.Mathlib.Text.{◌==◌ as str_eq}
use rag_support_assistant.Prelude.{
  ◌≡◌, refl, ap, ◌∙◌, ◌⊎◌, inl, inr, String, Bool, true, false, Bool-cases, List, [], ◌∷◌, ◌++◌,
  Option, none, some, arith, eq_iff, if◌then◌else◌, ◌||◌, ◌&&◌, not,
}
use rag_support_assistant.Text
use rag_support_assistant.Escalation.{
  Ticket, InboxRecord, World, Outcome, pending, delivered, failed, duplicate, Delivery, Sink, local,
  takes, missing, rejects, deliver, registered_already, handed_over, not_delivered, awaits_delivery,
  user_message, registered_message, has_id, any, set_delivery,
}
use rag_support_assistant.Escalation.Creating.{
  Request, Chance, new_ticket, inbox_record, deliver_when, deliver_new, insert_when, insert,
  reuse_or_insert, create_escalation, existing, violates,
}

-- the message says that the question was handed over to an operator
abbrev pub claims_handover : String → Bool
claims_handover message = Text.starts_with message "Ваш вопрос передан оператору"

any-set_delivery :
    (id state error : String) (x : String) (ts : List Ticket)
    → any (has_id x) (set_delivery id state error ts) ≡ any (has_id x) ts
any-set_delivery id state error x [] = refl
any-set_delivery id state error x (t ∷ ts) = elim (Bool-cases (has_id id t)) [
  | inl e ↦ rw (e) refl
  | inr e ↦ rw (e) (ap (λ b. has_id x t || b) (any-set_delivery id state error x ts))
]

any-append :
    (id : String) (ts : List Ticket) (t : Ticket)
    → t.id ≡ id
    → any (has_id id) (ts ++ t ∷ []) ≡ true
any-append id [] t h = rw ((eq_iff t.id id).1 h) refl
any-append id (x ∷ ts) t h = elim (Bool-cases (has_id id x)) [
  | inl e ↦ rw (e) refl
  | inr e ↦ rw (e) (any-append id ts t h)
]

-- only a state that is delivered makes the message claim it
registered_message-delivered :
    (id state : String) (already_existed : Bool)
    → claims_handover (registered_message id state already_existed) ≡ true
    → state ≡ delivered
unfolding registered_message
registered_message-delivered id state already_existed h =
    decide (already_existed || str_eq state duplicate) (str_eq state failed)
      (Bool-cases (str_eq state delivered)) h
  where
    decide :
        (again lost : Bool)
        → (str_eq state delivered ≡ true) ⊎ (str_eq state delivered ≡ false)
        → claims_handover (
            if again
            then registered_already id
            else (if str_eq state delivered
                then handed_over id
                else (if lost then not_delivered id else awaits_delivery id)))
          ≡ true
        → state ≡ delivered
    decide again lost (inl same) h = (eq_iff state delivered).0 same
    decide true lost (inr other) h = ground arith
    decide false true (inr other) h =
        let absurd : claims_handover (not_delivered id) ≡ true = rw (other) at h in ground arith
    decide false false (inr other) h =
        let absurd : claims_handover (awaits_delivery id) ≡ true = rw (other) at h in ground arith

-- a delivery that ends as delivered has put the record into the inbox
deliver-delivered :
    (d : Delivery) (r : InboxRecord) (inbox : List InboxRecord)
    → (deliver d r inbox).0.0 ≡ delivered
    → (deliver d r inbox).1 ≡ inbox ++ r ∷ []
unfolding deliver
deliver-delivered d r inbox h = decide d.sink d.write_error h
  where
    decide :
        (sink : Sink) (write_error : Option String)
        → (deliver (record { sink = sink; write_error = write_error }) r inbox).0.0 ≡ delivered
        → (deliver (record { sink = sink; write_error = write_error }) r inbox).1 ≡ inbox ++ r ∷ []
    decide takes e h = refl
    decide local none h = refl
    decide local (some e) h = ground (arith, eq_iff failed delivered)
    decide missing none h = refl
    decide missing (some e) h = ground (arith, eq_iff failed delivered)
    decide rejects none h = refl
    decide rejects (some e) h = ground (arith, eq_iff failed delivered)

user_message-delivered :
    (id state : String) (already_existed : Bool)
    → claims_handover (user_message true state (some id) already_existed) ≡ true
    → (state ≡ delivered) × (already_existed ≡ false)
unfolding user_message
user_message-delivered String.[] state already_existed h = ground arith
user_message-delivered (String.◌∷◌ c id) state true h = ground arith
user_message-delivered (String.◌∷◌ c id) state false h =
    (registered_message-delivered (String.◌∷◌ c id) state false h, refl)

module _ (sha256 : String → String) (c : Chance) (r : Request) where
  -- what is true when the message claims the handover
  abbrev pub IsHandedOver : World → Outcome × World → Type 0
  IsHandedOver w end =
      (end.0.durable ≡ true)
      × (end.0.ticket_id ≡ some c.drawn_id)
      × (end.0.delivery_state ≡ delivered)
      × (any (has_id c.drawn_id) end.1.tickets ≡ true)
      × (end.1.inbox ≡ w.inbox ++ inbox_record sha256 c r ∷ [])

  deliver_when-IsHandedOver :
      (delivers : Bool) (w : World)
      → any (has_id c.drawn_id) w.tickets ≡ true
      → claims_handover (deliver_when sha256 delivers c r w).0.user_message ≡ true
      → IsHandedOver w (deliver_when sha256 delivers c r w)
  unfolding deliver_when
  deliver_when-IsHandedOver true w there h =
      let run = deliver c.delivery (inbox_record sha256 c r) w.inbox in
      let (done, new) = user_message-delivered c.drawn_id run.0.0 false h in
      (
        refl,
        refl,
        done,
        kept c.update_raises,
        deliver-delivered c.delivery (inbox_record sha256 c r) w.inbox done,
      )
    where
      kept :
          (raises : Bool)
          → any (has_id c.drawn_id) (
              if raises
              then w.tickets
              else set_delivery c.drawn_id
                  (deliver c.delivery (inbox_record sha256 c r) w.inbox).0.0
                  (deliver c.delivery (inbox_record sha256 c r) w.inbox).0.1
                  w.tickets)
            ≡ true
      kept true = there
      kept false = any-set_delivery c.drawn_id _ _ c.drawn_id w.tickets ∙ there
  deliver_when-IsHandedOver false w there h =
      let (done, new) = user_message-delivered c.drawn_id pending false h in
      ground (arith, eq_iff pending delivered)

  insert_when-IsHandedOver :
      (error : Option String) (clash : Bool) (w : World)
      → claims_handover (insert_when sha256 error clash c r w).0.user_message ≡ true
      → IsHandedOver w (insert_when sha256 error clash c r w)
  unfolding insert_when deliver_new user_message
  insert_when-IsHandedOver (some e) clash w h = ground arith
  insert_when-IsHandedOver none true w h = ground arith
  insert_when-IsHandedOver none false w h =
      let next = record w { tickets = w.tickets ++ new_ticket sha256 c r ∷ [] } in
      deliver_when-IsHandedOver (r.deliver_inbox && not (Text.is_empty c.drawn_id)) next
        (any-append c.drawn_id w.tickets (new_ticket sha256 c r) refl) h

  reuse_or_insert-IsHandedOver :
      (found : Option Ticket) (w : World)
      → claims_handover (reuse_or_insert sha256 c r w found).0.user_message ≡ true
      → IsHandedOver w (reuse_or_insert sha256 c r w found)
  unfolding insert
  reuse_or_insert-IsHandedOver none w h =
      insert_when-IsHandedOver c.insert_error (violates sha256 (new_ticket sha256 c r) w.tickets) w
        h
  reuse_or_insert-IsHandedOver (some t) w h =
      let (done, new) = user_message-delivered t.id duplicate true h in ground arith

  -- A message to the user that says that the question was handed over to an operator comes only
  -- with a ticket that this call committed: it is in the table with the identifier that the outcome
  -- has, and its record is the one that the inbox got. A call that found the ticket, could not insert
  -- it, or could not deliver it says something else.
  pub create_escalation-IsHandedOver :
      (w : World)
      → claims_handover (create_escalation sha256 c r w).0.user_message ≡ true
      → IsHandedOver w (create_escalation sha256 c r w)
  unfolding create_escalation
  create_escalation-IsHandedOver w h = reuse_or_insert-IsHandedOver (existing sha256 c r w) w h
