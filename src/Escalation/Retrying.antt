-- ===== src/Escalation/Retrying.antt =====
-- The retries of services/escalation.py: one ticket's delivery, and the pass of the worker over the
-- tickets whose delivery failed. `uuid` is the text that `uuid.UUID` makes of an identifier, if any.
use text.Mathlib.Text.{◌==◌ as str_eq}
use rag_support_assistant.Prelude.{
  ℕ, zero, suc, ℤ, clip, pos, String, Bool, true, false, ◌&&◌, List, [], ◌∷◌, Option, none, some,
  if◌then◌else◌, min, max,
}
use rag_support_assistant.Text
use rag_support_assistant.Escalation.{
  Ticket, InboxRecord, World, delivered, failed, pending, retryable, Delivery, deliver, has_id,
  find, set_delivery,
}

-- `DeliveryRetryResult`
pub record RetryResult : Type 0 where
  pub ticket_id : String
  pub previous_state : String
  pub delivery_state : String
  pub retried : Bool
  pub skipped : Bool
  pub skip_reason : String
  pub delivery_error : String

-- `DeliveryRetryBatchResult`
pub record BatchResult : Type 0 where
  pub attempted : ℕ
  pub delivered : ℕ
  pub failed : ℕ
  pub skipped : ℕ
  pub results : List RetryResult

-- what a retry of one ticket meets: the exception of the session or the lookup, the delivery, and the
-- exception of the commit after it
pub record Chance : Type 0 where
  pub lookup_error : Option String
  pub delivery : Delivery
  pub commit_error : Option String

-- `_inbox_record_from_ticket`
abbrev pub text_of : Option String → String
text_of none = ""
text_of (some s) = s

abbrev pub record_of : Ticket → InboxRecord
record_of t = record {
  entity_id = Text.or_else t.session_id t.id;
  ticket_id = t.id;
  tenant_id = Text.or_else t.tenant_id "default";
  session_id = Text.or_else t.session_id t.id;
  question = t.user_question;
  route = Text.or_else (text_of t.source) "retry";
  reason = "outbox_retry";
  trace_id = text_of t.trace_id;
  retry = true;
}

abbrev pub skip : String → String → String → String → RetryResult
skip id previous state reason = record {
  ticket_id = id;
  previous_state = previous;
  delivery_state = state;
  retried = false;
  skipped = true;
  skip_reason = reason;
  delivery_error = "";
}

-- the answer of the `except` around a retry
abbrev pub retry_error : String → String → RetryResult
retry_error id e = record (skip id "" failed (Text.append "retry error: " e)) { delivery_error = e }

abbrev pub retried_as : String → String → String → String → RetryResult
retried_as id previous state error = record {
  ticket_id = id;
  previous_state = previous;
  delivery_state = state;
  retried = true;
  skipped = false;
  skip_reason = "";
  delivery_error = error;
}

-- `str(ticket.delivery_state or "pending")`
abbrev pub state_of : Ticket → String
state_of t = Text.or_else t.delivery_state pending

abbrev pub member : String → List String → Bool
member s [] = false
member s (x ∷ xs) = if str_eq x s then true else member s xs

-- the commit after a delivery; without it the record stays in the inbox, the row as it was
unfoldable pub commit_delivery :
    Option String
    → String
    → Ticket
    → (String × String) × List InboxRecord
    → World
    → RetryResult × World
commit_delivery none id t ((state, error), inbox) w = (
  retried_as id (state_of t) state error,
  record { tickets = set_delivery t.id state error w.tickets; inbox = inbox },
)
commit_delivery (some e) id t ((state, error), inbox) w =
    (retry_error id e, record w { inbox = inbox })

-- the rest of a retry, with the row that was found
unfoldable pub redeliver :
    Chance → List String → String → Option Ticket → World → RetryResult × World
unfolding commit_delivery deliver
redeliver c allowed id none w = (skip id "" failed "ticket not found", w)
redeliver c allowed id (some t) w =
    if member (state_of t) allowed
    then commit_delivery c.commit_error id t (deliver c.delivery (record_of t) w.inbox) w
    else (skip id (state_of t) (state_of t) (Text.append "already " (state_of t)), w)

module _ (uuid : String → Option String) where
  -- the lookup of a retry
  unfoldable pub look_up :
      Chance → List String → String → Option String → World → RetryResult × World
  unfolding redeliver
  look_up c allowed id none w = (skip id "" failed "invalid ticket_id", w)
  look_up c allowed id (some u) w = elim c.lookup_error [
    | some e ↦ (retry_error id e, w)
    | none ↦ redeliver c allowed id (find (has_id u) w.tickets) w
  ]

  abbrev pub states_or_default : Option (List String) → List String
  states_or_default none = retryable
  states_or_default (some states) = states

  -- `retry_escalation_delivery`; `none` for the states that are allowed by default
  unfoldable pub retry_escalation_delivery :
      Chance → Option (List String) → String → World → RetryResult × World
  unfolding look_up
  retry_escalation_delivery c allow_states ticket_id w =
      let allowed = states_or_default allow_states in
      let id = Text.strip ticket_id in
      if Text.is_empty id
      then (skip "" "" failed "empty ticket_id", w)
      else look_up c allowed id (uuid id) w

-- `max(1, min(int(limit or 50), 500))`
abbrev pub limit_or_default : ℤ → ℤ
limit_or_default (pos zero) = pos 50
limit_or_default z = z

unfoldable pub cap : ℤ → ℕ
cap limit = max 1 (min (clip (limit_or_default limit)) 500)

abbrev pub wanted_states : List String → List String
wanted_states [] = []
wanted_states (s ∷ ss) =
    if member (Text.strip s) retryable then Text.strip s ∷ wanted_states ss else wanted_states ss

-- the states of a pass, with the default where none of the given ones is retryable
abbrev pub or_failed : List String → List String
or_failed [] = failed ∷ []
or_failed (s ∷ ss) = s ∷ ss

unfoldable pub wanted : List String → List String
wanted states = or_failed (wanted_states states)

-- `if tenant_id: ... where(tenant_id == tenant_id.strip())`
abbrev pub of_tenant : String → Ticket → Bool
of_tenant tenant_id t =
    if Text.is_empty tenant_id then true else str_eq t.tenant_id (Text.strip tenant_id)

-- the rows of the listing, oldest first, up to the limit
abbrev pub listed : ℕ → List String → String → List Ticket → List String
listed zero states tenant_id ts = []
listed (suc n) states tenant_id [] = []
listed (suc n) states tenant_id (t ∷ ts) =
    if member t.delivery_state states && of_tenant tenant_id t
    then t.id ∷ listed n states tenant_id ts
    else listed (suc n) states tenant_id ts

abbrev empty_batch : BatchResult
empty_batch = record { attempted = 0; delivered = 0; failed = 0; skipped = 0; results = [] }

-- the counters, with one more result at the front of the pass
abbrev pub counted : RetryResult → BatchResult → BatchResult
counted r b = record {
  attempted = suc b.attempted;
  delivered =
      if r.skipped
      then b.delivered
      else (if str_eq r.delivery_state delivered then suc b.delivered else b.delivered);
  failed =
      if r.skipped
      then b.failed
      else (if str_eq r.delivery_state delivered then b.failed else suc b.failed);
  skipped = if r.skipped then suc b.skipped else b.skipped;
  results = r ∷ b.results;
}

module _ (uuid : String → Option String) where
  -- the loop of `retry_failed_deliveries`; what the retry of a ticket meets is given by its identifier
  unfoldable pub retry_all :
      (String → Chance) → List String → List String → World → BatchResult × World
  unfolding retry_escalation_delivery
  retry_all chance states [] w = (empty_batch, w)
  retry_all chance states (id ∷ ids) w =
      let (r, next) = retry_escalation_delivery uuid (chance id) (some states) id w in
      let (b, last) = retry_all chance states ids next in (counted r b, last)

  -- `retry_failed_deliveries`, and whether its listing raises
  unfoldable pub retry_failed_deliveries :
      (String → Chance) → Bool → ℤ → List String → String → World → BatchResult × World
  unfolding retry_all cap wanted
  retry_failed_deliveries chance listing_raises limit states tenant_id w =
      if listing_raises
      then (empty_batch, w)
      else retry_all chance (wanted states) (listed (cap limit) (wanted states) tenant_id w.tickets)
          w
