-- ===== src/Escalation/Creating.antt =====
-- The creation of a ticket in services/escalation.py. `sha256` gives the hexadecimal digest of a
-- text's UTF-8 form.
use rag_support_assistant.Prelude.{
  String, Bool, true, false, ◌||◌, ◌&&◌, not, List, [], ◌∷◌, ◌++◌, Option, none, some,
  if◌then◌else◌,
}
use rag_support_assistant.Text
use rag_support_assistant.Escalation.{
  Ticket, InboxRecord, World, Outcome, pending, failed, duplicate, Delivery, deliver, user_message,
  has_id, has_key, find, any, set_delivery,
}

-- the arguments of `create_escalation`
pub record Request : Type 0 where
  pub tenant_id : String
  pub session_id : String
  pub question : String
  pub source : String
  pub ai_draft : Option String
  pub reason : String
  pub trace_id : String
  pub deliver_inbox : Bool
  pub idempotency_key : Option String

-- what a call meets: whether the lookup raises; the exception of the session or the insertion, if
-- any; the delivery; whether the update of the row raises; the identifiers that are drawn
pub record Chance : Type 0 where
  pub lookup_raises : Bool
  pub insert_error : Option String
  pub delivery : Delivery
  pub update_raises : Bool
  pub drawn_id : String
  pub drawn_session : String

-- `(s or default).strip() or default`
abbrev pub stripped_or : String → String → String
stripped_or s d = Text.or_else (Text.strip (Text.or_else s d)) d

-- the fields of a request after the defaults
abbrev pub tenant_of : Request → String
tenant_of r = stripped_or r.tenant_id "default"

abbrev pub session_of : Chance → Request → String
session_of c r = Text.or_else (Text.strip r.session_id) c.drawn_session

abbrev pub question_of : Request → String
question_of r = Text.or_else (Text.strip r.question) "(пустое обращение)"

abbrev pub source_of : Request → String
source_of r = stripped_or r.source "manual"

abbrev joined : List String → String
joined [] = ""
joined (s ∷ []) = s
joined (s ∷ t ∷ ts) = Text.append s (Text.append "|" (joined (t ∷ ts)))

module _ (sha256 : String → String) where
  -- `make_idempotency_key`
  unfoldable pub make_idempotency_key : String → String → String → String → String → String → String
  make_idempotency_key tenant_id session_id source question trace_id reason =
      Text.take_append 64
        (sha256 (
          joined (
            Text.strip (Text.or_else tenant_id "default")
            ∷ Text.strip session_id
            ∷ Text.strip (Text.or_else source "manual")
            ∷ Text.strip trace_id
            ∷ Text.strip reason
            ∷ Text.take_append 24 (sha256 question) ""
            ∷ [])))
        ""

  -- `idempotency_key or make_idempotency_key(...)`
  abbrev pub key_of : Chance → Request → String
  key_of c r =
      let made =
        make_idempotency_key (tenant_of r) (session_of c r) (source_of r) (question_of r) r.trace_id
          r.reason in
      elim r.idempotency_key [ none ↦ made | some k ↦ Text.or_else k made ]

  abbrev pub new_ticket : Chance → Request → Ticket
  new_ticket c r = record {
    id = c.drawn_id;
    tenant_id = tenant_of r;
    session_id = session_of c r;
    user_question = question_of r;
    ai_draft = r.ai_draft;
    status = "open";
    idempotency_key = some (key_of c r);
    source = some (source_of r);
    trace_id = Text.or_none r.trace_id;
    delivery_state = pending;
    delivery_error = none;
  }

  abbrev pub inbox_record : Chance → Request → InboxRecord
  inbox_record c r = record {
    entity_id = session_of c r;
    ticket_id = c.drawn_id;
    tenant_id = tenant_of r;
    session_id = session_of c r;
    question = question_of r;
    route = source_of r;
    reason = Text.or_else r.reason (source_of r);
    trace_id = r.trace_id;
    retry = false;
  }

  -- the outcome for a ticket that is in the table
  abbrev pub registered : Request → String → String → Bool → String → Outcome
  registered r id state already_existed error = record {
    ticket_id = some id;
    delivery_state = state;
    durable = true;
    already_existed = already_existed;
    user_message = user_message true state (some id) already_existed;
    source = source_of r;
    delivery_error = error;
  }

  abbrev pub not_inserted : Request → String → Outcome
  not_inserted r error = record {
    ticket_id = none;
    delivery_state = failed;
    durable = false;
    already_existed = false;
    user_message = user_message false failed none false;
    source = source_of r;
    delivery_error = error;
  }

  -- the unique columns of the table: the identifier and the key
  abbrev pub violates : Ticket → List Ticket → Bool
  violates t ts =
      any (has_id t.id) ts || elim t.idempotency_key [ none ↦ false | some k ↦ any (has_key k) ts ]

  -- the update of the new row after a delivery
  abbrev pub updated : Chance → World → String → String → List InboxRecord → World
  updated c w state error inbox = record {
    tickets = if c.update_raises then w.tickets else set_delivery c.drawn_id state error w.tickets;
    inbox = inbox;
  }

  -- the end of `create_escalation`, after the ticket was committed, with a delivery or without
  unfoldable pub deliver_when : Bool → Chance → Request → World → Outcome × World
  unfolding deliver
  deliver_when true c r w =
      let ((state, error), inbox) = deliver c.delivery (inbox_record c r) w.inbox in
      (registered r c.drawn_id state false error, updated c w state error inbox)
  deliver_when false c r w = (registered r c.drawn_id pending false "", w)

  -- `if deliver_inbox and ticket_id`
  unfoldable pub deliver_new : Chance → Request → World → Outcome × World
  unfolding deliver_when
  deliver_new c r w = deliver_when (r.deliver_inbox && not (Text.is_empty c.drawn_id)) c r w

  -- the insertion and what follows, by the exception that it meets and the unique columns
  unfoldable pub insert_when : Option String → Bool → Chance → Request → World → Outcome × World
  unfolding deliver_new
  insert_when (some e) clash c r w = (not_inserted r e, w)
  insert_when none true c r w = (not_inserted r "UNIQUE constraint failed", w)
  insert_when none false c r w =
      deliver_new c r (record w { tickets = w.tickets ++ new_ticket c r ∷ [] })

  unfoldable pub insert : Chance → Request → World → Outcome × World
  unfolding insert_when
  insert c r w = insert_when c.insert_error (violates (new_ticket c r) w.tickets) c r w

  -- the row with the key, unless the lookup raises
  abbrev pub existing : Chance → Request → World → Option Ticket
  existing c r w = if c.lookup_raises then none else find (has_key (key_of c r)) w.tickets

  abbrev pub reuse_or_insert : Chance → Request → World → Option Ticket → Outcome × World
  reuse_or_insert c r w (some t) = (registered r t.id duplicate true "", w)
  reuse_or_insert c r w none = insert c r w

  -- `EscalationService.create_escalation`
  unfoldable pub create_escalation : Chance → Request → World → Outcome × World
  unfolding insert
  create_escalation c r w = reuse_or_insert c r w (existing c r w)
