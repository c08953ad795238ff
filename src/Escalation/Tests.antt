-- ===== src/Escalation/Tests.antt =====
-- Runs of the escalation service, and the theorems at these inputs.
use rag_support_assistant.Prelude.{
  ◌≤◌, ◌≡◌, refl, String, true, false, List, [], ◌∷◌, All, Option, none, some, pos, arith,
}
use rag_support_assistant.Text.{strip}
use rag_support_assistant.Escalation.{
  Ticket, World, Outcome, delivered, failed, Delivery, local, takes, rejects, deliver, user_message,
  registered_message,
}
use rag_support_assistant.Escalation.Creating
use rag_support_assistant.Escalation.Creating.{
  Request, create_escalation, make_idempotency_key, key_of, insert, insert_when, deliver_new,
  deliver_when,
}
use rag_support_assistant.Escalation.Retrying.{retry_failed_deliveries, wanted, cap}
use rag_support_assistant.Escalation.Histories.{Operation, creates, retries, passes, run}
use rag_support_assistant.Escalation.Handover.{
  claims_handover, IsHandedOver, create_escalation-IsHandedOver,
}
use rag_support_assistant.Escalation.Keys.{IsKnown, created_once}
use rag_support_assistant.Escalation.Redelivery.{sent, IsDelivered, never_redelivered}
use rag_support_assistant.Escalation.Sweeping.{ids_of}
use rag_support_assistant.Escalation.Due.{is_due, count_due}
use rag_support_assistant.Escalation.Effective.{working, IsId, pass_delivers}

abbrev sha256 : String → String
sha256 s = "4f5c1b"

abbrev uuid : String → Option String
uuid s = some s

abbrev request : Request
request = record {
  tenant_id = " acme ";
  session_id = "s1";
  question = "Где мой заказ?";
  source = "";
  ai_draft = none;
  reason = "";
  trace_id = "";
  deliver_inbox = true;
  idempotency_key = none;
}

abbrev works : Delivery
works = record { sink = local; write_error = none }

abbrev fails : Delivery
fails = record { sink = rejects; write_error = some "disk full" }

abbrev chance : String → Delivery → Creating.Chance
chance id d = record {
  lookup_raises = false;
  insert_error = none;
  delivery = d;
  update_raises = false;
  drawn_id = id;
  drawn_session = "drawn";
}

abbrev empty : World
empty = record { tickets = []; inbox = [] }

handed :
    claims_handover (create_escalation sha256 (chance "a1" works) request empty).0.user_message
    ≡ true
unfolding create_escalation user_message registered_message make_idempotency_key strip deliver
handed = refl

create_escalation-IsHandedOver_example :
    IsHandedOver sha256
      (chance "a1" works)
      request
      empty
      (create_escalation sha256 (chance "a1" works) request empty)
create_escalation-IsHandedOver_example =
    create_escalation-IsHandedOver sha256 (chance "a1" works) request empty handed

abbrev first : Outcome × World
first = create_escalation sha256 (chance "a1" fails) request empty

first_durable : first.0.durable ≡ true
unfolding create_escalation make_idempotency_key strip deliver
first_durable = refl

first_named : first.0.ticket_id ≡ some "a1"
unfolding create_escalation make_idempotency_key strip deliver
first_named = refl

-- the delivery fails at first, a retry sends the ticket, and the same question comes again
abbrev history : List Operation
history =
    retries (record { lookup_error = none; delivery = works; commit_error = none }) "a1"
    ∷ creates (chance "b2" works) (record request { question = "Другое" })
    ∷ []

created_once_example :
    IsKnown sha256 uuid "a1"
      (chance "c3" works)
      (run sha256 uuid history first.1)
      (create_escalation sha256 (chance "c3" works) request (run sha256 uuid history first.1))
created_once_example =
    created_once sha256 uuid (chance "a1" fails) request empty "a1" history (chance "c3" works)
      request first_durable first_named refl

abbrev ticket : String → String → Ticket
ticket id state = record {
  id = id;
  tenant_id = "acme";
  session_id = "s1";
  user_question = "Где мой заказ?";
  ai_draft = none;
  status = "open";
  idempotency_key = some id;
  source = some "manual";
  trace_id = none;
  delivery_state = state;
  delivery_error = none;
}

abbrev three : World
three = record {
  tickets = ticket "a1" failed ∷ ticket "b2" delivered ∷ ticket "c3" failed ∷ [];
  inbox = [];
}

abbrev sweeps : List Operation
sweeps = passes (λ i. working takes) false (pos 0) [] "" ∷ retries (working local) "b2" ∷ []

never_redelivered_example :
    IsDelivered "b2" (run sha256 uuid sweeps three).tickets
    × (sent "b2" (run sha256 uuid sweeps three).inbox ≡ sent "b2" three.inbox)
never_redelivered_example =
    never_redelivered sha256 uuid sweeps "b2" three (ticket "b2" delivered, refl, refl)

room : count_due (wanted ("failed" ∷ [])) "" three.tickets ≤ cap (pos 0)
unfolding cap wanted strip
room = omega arith

ids_good : All (IsId uuid) (ids_of three.tickets)
unfolding strip
ids_good = ((refl, refl), ((refl, refl), ((refl, refl), tt)))

pass_delivers_example :
    All
      (λ t. is_due (wanted ("failed" ∷ [])) "" t ≡ false)
      (retry_failed_deliveries uuid
        (λ i. working takes)
        false
        (pos 0)
        ("failed" ∷ [])
        ""
        three).1.tickets
pass_delivers_example =
    pass_delivers uuid (λ i. takes) (pos 0) ("failed" ∷ []) "" three (refl, (refl, (refl, tt)))
      ids_good room
