-- ===== src/Escalation.antt =====
-- services/escalation.py with the table of db/models.py: tickets for a human operator, and the inbox
-- that they are delivered to. A ticket's columns for operators' answers are left out.
mod Tests
pub mod Creating
pub mod Retrying
pub mod Histories
pub mod Rows
pub mod Keys
pub mod Handover
pub mod Redelivery
pub mod Sweeping
pub mod Due
pub mod Effective
use text.Mathlib.Text.{◌==◌ as str_eq}
use rag_support_assistant.Prelude.{
  ℕ, String, Bool, true, false, ◌||◌, not, List, [], ◌∷◌, ◌++◌, Option, none, some, leb,
  if◌then◌else◌,
}
use rag_support_assistant.Text

-- `EscalatedTicket`; rows stand in the order in which they were created
pub record Ticket : Type 0 where
  pub id : String
  pub tenant_id : String
  pub session_id : String
  pub user_question : String
  pub ai_draft : Option String
  pub status : String
  pub idempotency_key : Option String
  pub source : Option String
  pub trace_id : Option String
  pub delivery_state : String
  pub delivery_error : Option String

-- a line of the inbox; `retry` stands in those of the second kind only
pub record InboxRecord : Type 0 where
  pub entity_id : String
  pub ticket_id : String
  pub tenant_id : String
  pub session_id : String
  pub question : String
  pub route : String
  pub reason : String
  pub trace_id : String
  pub retry : Bool

-- the table, and the records that the support sink or the inbox file got
pub record World : Type 0 where
  pub tickets : List Ticket
  pub inbox : List InboxRecord

-- `EscalationOutcome`
pub record Outcome : Type 0 where
  pub ticket_id : Option String
  pub delivery_state : String
  pub durable : Bool
  pub already_existed : Bool
  pub user_message : String
  pub source : String
  pub delivery_error : String

abbrev pub pending : String
pending = "pending"

abbrev pub delivered : String
delivered = "delivered"

abbrev pub failed : String
failed = "failed"

abbrev pub duplicate : String
duplicate = "duplicate"

-- `_RETRYABLE_DELIVERY_STATES`
abbrev pub retryable : List String
retryable = failed ∷ pending ∷ []

-- what a sink other than the local one does with a record: there is no such sink, it takes the
-- record, it cannot be imported, or it raises
pub data Sink : Type 0 where
  local takes missing rejects : Sink

-- how a delivery fares: the sink, and the exception of the append to the inbox file, if any
pub record Delivery : Type 0 where
  pub sink : Sink
  pub write_error : Option String

-- the append to `support_inbox.jsonl`
abbrev pub append_to_file :
    Option String → InboxRecord → List InboxRecord → (String × String) × List InboxRecord
append_to_file none r inbox = ((delivered, ""), inbox ++ r ∷ [])
append_to_file (some e) r inbox = ((failed, e), inbox)

-- `_deliver_inbox`: the state with its error, and the inbox
unfoldable pub deliver :
    Delivery → InboxRecord → List InboxRecord → (String × String) × List InboxRecord
deliver d r inbox = elim d.sink [
  | takes ↦ ((delivered, ""), inbox ++ r ∷ [])
  | local ↦ append_to_file d.write_error r inbox
  | missing ↦ append_to_file d.write_error r inbox
  | rejects ↦ append_to_file d.write_error r inbox
]

abbrev pub short_id : String → String
short_id id = if leb (Text.length id) 12 then id else Text.take_append 8 id ""

-- the texts of `_user_message`
abbrev pub not_registered : String
not_registered =
    "Не удалось зарегистрировать обращение. Повторите попытку или свяжитесь с поддержкой другим каналом."

abbrev pub registered_already : String → String
registered_already id =
    Text.append "Обращение уже зарегистрировано (тикет #"
      (Text.append (short_id id) "). Оператор увидит его в очереди.")

abbrev pub handed_over : String → String
handed_over id =
    Text.append "Ваш вопрос передан оператору (тикет #"
      (Text.append (short_id id) "). Мы ответим в ближайшее время.")

abbrev pub not_delivered : String → String
not_delivered id = Text.append "Обращение зарегистрировано (тикет #" (
    Text.append (short_id id)
      "), но доставка в inbox временно не удалась — оператор получит его после повтора.")

abbrev pub awaits_delivery : String → String
awaits_delivery id =
    Text.append "Обращение зарегистрировано (тикет #"
      (Text.append (short_id id) "). Ожидается доставка оператору.")

-- the texts for a ticket that is registered
unfoldable pub registered_message : String → String → Bool → String
registered_message id state already_existed =
    if already_existed || str_eq state duplicate
    then registered_already id
    else (if str_eq state delivered
        then handed_over id
        else (if str_eq state failed then not_delivered id else awaits_delivery id))

-- `_user_message`
unfoldable pub user_message : Bool → String → Option String → Bool → String
unfolding registered_message
user_message false state id already_existed = not_registered
user_message true state none already_existed = not_registered
user_message true state (some id) already_existed =
    if Text.is_empty id then not_registered else registered_message id state already_existed

abbrev pub has_id : String → Ticket → Bool
has_id id t = str_eq t.id id

-- `idempotency_key == key`, which no row without a key fulfils
abbrev pub has_key : String → Ticket → Bool
has_key key t = elim t.idempotency_key [ none ↦ false | some k ↦ str_eq k key ]

abbrev pub find : (Ticket → Bool) → List Ticket → Option Ticket
find p [] = none
find p (t ∷ ts) = if p t then some t else find p ts

abbrev pub any : (Ticket → Bool) → List Ticket → Bool
any p [] = false
any p (t ∷ ts) = p t || any p ts

-- the columns that a delivery sets, on the row with the identifier
abbrev pub with_delivery : String → String → Ticket → Ticket
with_delivery state error t = record t {
  delivery_state = state;
  delivery_error = Text.or_none error;
}

abbrev pub set_delivery : String → String → String → List Ticket → List Ticket
set_delivery id state error [] = []
set_delivery id state error (t ∷ ts) =
    if has_id id t then with_delivery state error t ∷ ts else t ∷ set_delivery id state error ts
