-- ===== src/Escalation/Redelivery.antt =====
-- services/escalation.py: what later calls do to a ticket that was delivered.
use text.Mathlib.Text.{◌==◌ as str_eq}
use rag_support_assistant.Prelude.{
  ℕ, ◌+◌, ◌≡◌, refl, sym, ap, ◌∙◌, inl, inr, String, Bool, true, false, ◌&&◌, not, Bool-cases, List,
  [], ◌∷◌, ◌++◌, Option, none, some, arith, eq_iff, if◌then◌else◌,
}
use rag_support_assistant.Text
use rag_support_assistant.Escalation.{
  Ticket, InboxRecord, World, delivered, pending, retryable, Delivery, Sink, local, takes, missing,
  rejects, deliver, set_delivery, find, any, has_id,
}
use rag_support_assistant.Escalation.Creating
use rag_support_assistant.Escalation.Creating.{
  Request, new_ticket, inbox_record, violates, deliver_when, deliver_new,
}
use rag_support_assistant.Escalation.Retrying
use rag_support_assistant.Escalation.Retrying.{commit_delivery, record_of, state_of, member}
use rag_support_assistant.Escalation.Histories.{Operation, run, run-keeps}
use rag_support_assistant.Escalation.Rows.{find-append-some, find-any, find-holds}

-- the records of a ticket in the inbox
abbrev pub sent : String → List InboxRecord → ℕ
sent id [] = 0
sent id (r ∷ rs) = (if str_eq r.ticket_id id then 1 else 0) + sent id rs

-- the row with the identifier is delivered
abbrev pub IsDelivered : String → List Ticket → Type 0
IsDelivered id ts = (t : Ticket) × (find (has_id id) ts ≡ some t) × (t.delivery_state ≡ delivered)

sent-append :
    (id : String) (rs : List InboxRecord) (r : InboxRecord)
    → str_eq r.ticket_id id ≡ false
    → sent id (rs ++ r ∷ []) ≡ sent id rs
sent-append id [] r h = rw (h) refl
sent-append id (x ∷ rs) r h =
    ap (λ n. (if str_eq x.ticket_id id then 1 else 0) + n) (sent-append id rs r h)

-- a delivery for another ticket
sent-deliver :
    (id : String) (d : Delivery) (r : InboxRecord) (rs : List InboxRecord)
    → str_eq r.ticket_id id ≡ false
    → sent id (deliver d r rs).1 ≡ sent id rs
unfolding deliver
sent-deliver id d r rs h = decide d.sink d.write_error
  where
    decide :
        (sink : Sink) (e : Option String)
        → sent id (deliver (record { sink = sink; write_error = e }) r rs).1 ≡ sent id rs
    decide takes e = sent-append id rs r h
    decide local none = sent-append id rs r h
    decide missing none = sent-append id rs r h
    decide rejects none = sent-append id rs r h
    decide local (some e) = refl
    decide missing (some e) = refl
    decide rejects (some e) = refl

-- the update of another row
set_delivery-IsDelivered :
    (id x state error : String) (ts : List Ticket)
    → str_eq x id ≡ false
    → IsDelivered id ts
    → IsDelivered id (set_delivery x state error ts)
set_delivery-IsDelivered id x state error [] other h = h
set_delivery-IsDelivered id x state error (t ∷ ts) other (u, found, done) =
    elim (Bool-cases (has_id x t)) [
      | inl hit ↦
          let named : t.id ≡ x = (eq_iff t.id x).0 hit in
          let miss : str_eq t.id id ≡ false = ap (λ z. str_eq z id) named ∙ other in
          let later : find (has_id id) ts ≡ some u = rw (miss) at found in
          rw (hit) (u, rw (miss) later, done)
      | inr miss ↦ elim (Bool-cases (has_id id t)) [
        | inl e ↦ let same : some t ≡ some u = rw (e) at found in rw (miss) (u, rw (e) same, done)
        | inr e ↦
            let later : find (has_id id) ts ≡ some u = rw (e) at found in
            let (v, there, is) =
              set_delivery-IsDelivered id x state error ts other (u, later, done) in
            rw (miss) (v, rw (e) there, is)
      ]
    ]

module _ (sha256 : String → String) (uuid : String → Option String) (id : String) (n : ℕ) where
  -- delivered, with as many records
  abbrev Stays : World → Type 0
  Stays w = IsDelivered id w.tickets × (sent id w.inbox ≡ n)

  deliver_when-Stays :
      (delivers : Bool) (c : Creating.Chance) (r : Request) (w : World)
      → str_eq c.drawn_id id ≡ false
      → Stays w
      → Stays (deliver_when sha256 delivers c r w).1
  unfolding deliver_when
  deliver_when-Stays false c r w other h = h
  deliver_when-Stays true c r w other (row, count) =
      let counts = sent-deliver id c.delivery (inbox_record sha256 c r) w.inbox other ∙ count in
      elim (Bool-cases c.update_raises) [
        | inl e ↦ rw (e) (row, counts)
        | inr e ↦ rw (e) (set_delivery-IsDelivered id c.drawn_id _ _ w.tickets other row, counts)
      ]

  inserted-Stays :
      (c : Creating.Chance) (r : Request) (w : World)
      → violates sha256 (new_ticket sha256 c r) w.tickets ≡ false
      → Stays w
      → Stays
          (deliver_new sha256 c r
            (record w { tickets = w.tickets ++ new_ticket sha256 c r ∷ [] })).1
  unfolding deliver_new
  inserted-Stays c r w fits ((u, found, done), count) =
      let free : any (has_id c.drawn_id) w.tickets ≡ false = ground arith in
      let there = find-any (has_id id) w.tickets u found in
      let other : str_eq c.drawn_id id ≡ false = elim (Bool-cases (str_eq c.drawn_id id)) [
        | inr e ↦ e
        | inl e ↦
            let same = (eq_iff c.drawn_id id).0 e in
            let clash : any (has_id c.drawn_id) w.tickets ≡ true =
              ap (λ z. any (has_id z) w.tickets) same ∙ there in
            ground arith
      ] in
      deliver_when-Stays (r.deliver_inbox && not (Text.is_empty c.drawn_id)) c r
        (record w { tickets = w.tickets ++ new_ticket sha256 c r ∷ [] }) other
        ((u, find-append-some (has_id id) w.tickets u (new_ticket sha256 c r) found, done), count)

  commit_delivery-Stays :
      (error : Option String) (name : String) (t : Ticket) (d : Delivery) (w : World)
      → str_eq t.id id ≡ false
      → Stays w
      → Stays (commit_delivery error name t (deliver d (record_of t) w.inbox) w).1
  unfolding commit_delivery
  commit_delivery-Stays none name t d w other (row, count) = (
    set_delivery-IsDelivered id t.id _ _ w.tickets other row,
    sent-deliver id d (record_of t) w.inbox other ∙ count,
  )
  commit_delivery-Stays (some e) name t d w other (row, count) =
      (row, sent-deliver id d (record_of t) w.inbox other ∙ count)

  redelivered-Stays :
      (c : Retrying.Chance) (name u : String) (t : Ticket) (w : World)
      → find (has_id u) w.tickets ≡ some t
      → member (state_of t) retryable ≡ true
      → Stays w
      → Stays (commit_delivery c.commit_error name t (deliver c.delivery (record_of t) w.inbox) w).1
  redelivered-Stays c name u t w found may ((v, there, done), count) =
      let named : t.id ≡ u = (eq_iff t.id u).0 (find-holds (has_id u) w.tickets t found) in
      let other : str_eq t.id id ≡ false = elim (Bool-cases (str_eq t.id id)) [
        | inr e ↦ e
        | inl e ↦
            let one : id ≡ u = sym ((eq_iff t.id id).0 e) ∙ named in
            let both : some v ≡ some t =
              sym there ∙ ap (λ z. find (has_id z) w.tickets) one ∙ found in
            let row : v ≡ t = ground arith in
            let settled : t.delivery_state ≡ delivered =
              ap (λ z. z.delivery_state) (sym row) ∙ done in
            let not_again : member (state_of t) retryable ≡ false =
              ap (λ z. member (Text.or_else z pending) retryable) settled in
            ground arith
      ] in
      commit_delivery-Stays c.commit_error name t c.delivery w other ((v, there, done), count)

-- A ticket that is delivered stays delivered, and no further record of it reaches the inbox: neither
-- creations, nor retries with the default states, nor passes send it again, whatever they meet.
pub never_redelivered :
    (sha256 : String → String) (uuid : String → Option String) (os : List Operation) (id : String)
    (w : World)
    → IsDelivered id w.tickets
    → IsDelivered id (run sha256 uuid os w).tickets
      × (sent id (run sha256 uuid os w).inbox ≡ sent id w.inbox)
never_redelivered sha256 uuid os id w h =
    run-keeps sha256 uuid (Stays sha256 uuid id (sent id w.inbox))
      (redelivered-Stays sha256 uuid id (sent id w.inbox))
      (inserted-Stays sha256 uuid id (sent id w.inbox)) os w (h, refl)
