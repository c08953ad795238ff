-- ===== src/Escalation/Keys.antt =====
-- services/escalation.py: what becomes of later requests with the key of a ticket.
use rag_support_assistant.Prelude.{
  ◌≡◌, refl, ap, ◌⊎◌, inl, inr, String, Bool, true, false, ◌||◌, ◌&&◌, not, Bool-cases, List, [],
  ◌∷◌, ◌++◌, Option, none, some, arith, eq_iff,
}
use rag_support_assistant.Text
use rag_support_assistant.Escalation.{
  Ticket, World, Outcome, set_delivery, with_delivery, find, any, has_id, has_key,
}
use rag_support_assistant.Escalation.Creating.{
  Request, Chance, key_of, new_ticket, violates, deliver_when, deliver_new, insert_when, insert,
  reuse_or_insert, existing, create_escalation,
}
use rag_support_assistant.Escalation.Rows.{find-append-none, find-append-some, any-find, find-any}
use rag_support_assistant.Escalation.Histories.{Operation, run, run-keeps_rows}

or_false : (a b : Bool) → (a || b) ≡ false → b ≡ false
or_false true b h = ground arith
or_false false b h = h

or_true : (a b : Bool) → b ≡ true → (a || b) ≡ true
or_true true b h = refl
or_true false b h = h

-- the first row with the key has the identifier
abbrev pub HasRow : String → String → List Ticket → Type 0
HasRow key id ts = (t : Ticket) × (find (has_key key) ts ≡ some t) × (t.id ≡ id)

set_delivery-HasRow :
    (key id x state error : String) (ts : List Ticket)
    → HasRow key id ts
    → HasRow key id (set_delivery x state error ts)
set_delivery-HasRow key id x state error [] h = h
set_delivery-HasRow key id x state error (t ∷ ts) (u, found, named) =
    elim (Bool-cases (has_key key t)) [
      | inl e ↦
          let same : some t ≡ some u = rw (e) at found in
          let first : t.id ≡ id = ground arith in
          elim (Bool-cases (has_id x t)) [
            | inl hit ↦ rw (hit) (with_delivery state error t, rw (e) refl, first)
            | inr miss ↦ rw (miss) (t, rw (e) refl, first)
          ]
      | inr e ↦
          let later : find (has_key key) ts ≡ some u = rw (e) at found in
          elim (Bool-cases (has_id x t)) [
            | inl hit ↦ rw (hit) (u, rw (e) later, named)
            | inr miss ↦
                let (v, there, name) =
                  set_delivery-HasRow key id x state error ts (u, later, named) in
                rw (miss) (v, rw (e) there, name)
          ]
    ]

append-HasRow :
    (key id : String) (t : Ticket) (ts : List Ticket)
    → HasRow key id ts
    → HasRow key id (ts ++ t ∷ [])
append-HasRow key id t ts (u, found, named) =
    (u, find-append-some (has_key key) ts u t found, named)

module _ (sha256 : String → String) (uuid : String → Option String) where
  -- a call that ends with a ticket that is in the table leaves its row there
  deliver_when-HasRow :
      (key id : String) (delivers : Bool) (c : Chance) (r : Request) (w : World)
      → HasRow key id w.tickets
      → HasRow key id (deliver_when sha256 delivers c r w).1.tickets
  unfolding deliver_when
  deliver_when-HasRow key id false c r w h = h
  deliver_when-HasRow key id true c r w h = elim (Bool-cases c.update_raises) [
    | inl e ↦ rw (e) h
    | inr e ↦ rw (e) (set_delivery-HasRow key id c.drawn_id _ _ w.tickets h)
  ]

  deliver_when-ticket_id :
      (delivers : Bool) (c : Chance) (r : Request) (w : World)
      → (deliver_when sha256 delivers c r w).0.ticket_id ≡ some c.drawn_id
  unfolding deliver_when
  deliver_when-ticket_id true c r w = refl
  deliver_when-ticket_id false c r w = refl

  insert_when-HasRow :
      (error : Option String) (clash : Bool) (id : String) (c : Chance) (r : Request) (w : World)
      → violates sha256 (new_ticket sha256 c r) w.tickets ≡ clash
      → (insert_when sha256 error clash c r w).0.durable ≡ true
      → (insert_when sha256 error clash c r w).0.ticket_id ≡ some id
      → HasRow (key_of sha256 c r) id (insert_when sha256 error clash c r w).1.tickets
  unfolding insert_when deliver_new
  insert_when-HasRow (some e) clash id c r w same durable named = ground arith
  insert_when-HasRow none true id c r w same durable named = ground arith
  insert_when-HasRow none false id c r w same durable named =
      let t = new_ticket sha256 c r in
      let key = key_of sha256 c r in
      let no_key : any (has_key key) w.tickets ≡ false =
        or_false (any (has_id t.id) w.tickets) (any (has_key key) w.tickets) same in
      let given =
        deliver_when-ticket_id (r.deliver_inbox && not (Text.is_empty c.drawn_id)) c r
          (record w { tickets = w.tickets ++ t ∷ [] }) in
      deliver_when-HasRow key id _ c r (record w { tickets = w.tickets ++ t ∷ [] })
        (
          t,
          find-append-none (has_key key) w.tickets t (any-find (has_key key) w.tickets no_key)
              ((eq_iff key key).1 refl),
          ground (arith, given),
        )

  reuse_or_insert-HasRow :
      (found : Option Ticket) (id : String) (c : Chance) (r : Request) (w : World)
      → existing sha256 c r w ≡ found
      → (reuse_or_insert sha256 c r w found).0.durable ≡ true
      → (reuse_or_insert sha256 c r w found).0.ticket_id ≡ some id
      → HasRow (key_of sha256 c r) id (reuse_or_insert sha256 c r w found).1.tickets
  unfolding insert
  reuse_or_insert-HasRow none id c r w same durable named =
      insert_when-HasRow c.insert_error _ id c r w refl durable named
  reuse_or_insert-HasRow (some t) id c r w same durable named = elim (Bool-cases c.lookup_raises) [
    | inl e ↦ let absurd : none ≡ some t = rw (e) at same in ground arith
    | inr e ↦
        let found : find (has_key (key_of sha256 c r)) w.tickets ≡ some t = rw (e) at same in
        (t, found, ground arith)
  ]

  -- how a call with the key of a row ends
  abbrev pub IsKnown : String → Chance → World → Outcome × World → Type 0
  IsKnown id c w end =
      (end.1 ≡ w)
      × (((end.0.ticket_id ≡ some id) × (end.0.durable ≡ true) × (end.0.already_existed ≡ true))
          ⊎ ((c.lookup_raises ≡ true) × (end.0.ticket_id ≡ none) × (end.0.durable ≡ false)))

  insert_when-IsKnown :
      (error : Option String) (id : String) (c : Chance) (r : Request) (w : World)
      → c.lookup_raises ≡ true
      → IsKnown id c w (insert_when sha256 error true c r w)
  unfolding insert_when
  insert_when-IsKnown (some e) id c r w raises = (refl, inr (raises, refl, refl))
  insert_when-IsKnown none id c r w raises = (refl, inr (raises, refl, refl))

  insert-IsKnown :
      (id : String) (c : Chance) (r : Request) (w : World)
      → HasRow (key_of sha256 c r) id w.tickets
      → c.lookup_raises ≡ true
      → IsKnown id c w (insert sha256 c r w)
  unfolding insert
  insert-IsKnown id c r w (t, found, named) raises =
      let present = find-any (has_key (key_of sha256 c r)) w.tickets t found in
      let clash : violates sha256 (new_ticket sha256 c r) w.tickets ≡ true =
        or_true (any (has_id c.drawn_id) w.tickets) (any (has_key (key_of sha256 c r)) w.tickets)
          present in
      rw (clash) (insert_when-IsKnown c.insert_error id c r w raises)

  reuse_or_insert-IsKnown :
      (o : Option Ticket) (id : String) (c : Chance) (r : Request) (w : World)
      → existing sha256 c r w ≡ o
      → HasRow (key_of sha256 c r) id w.tickets
      → IsKnown id c w (reuse_or_insert sha256 c r w o)
  reuse_or_insert-IsKnown none id c r w same (t, found, named) = elim (Bool-cases c.lookup_raises) [
    | inl e ↦ insert-IsKnown id c r w (t, found, named) e
    | inr e ↦
        let absent : find (has_key (key_of sha256 c r)) w.tickets ≡ none = rw (e) at same in
        ground arith
  ]
  reuse_or_insert-IsKnown (some u) id c r w same (t, found, named) =
      elim (Bool-cases c.lookup_raises) [
        | inl e ↦ let absurd : none ≡ some u = rw (e) at same in ground arith
        | inr e ↦
            let there : find (has_key (key_of sha256 c r)) w.tickets ≡ some u = rw (e) at same in
            let one : u.id ≡ id = ground arith in (refl, inl (ap (λ i. some i) one, refl, refl))
      ]

  create-IsKnown :
      (id : String) (c : Chance) (r : Request) (w : World)
      → HasRow (key_of sha256 c r) id w.tickets
      → IsKnown id c w (create_escalation sha256 c r w)
  unfolding create_escalation
  create-IsKnown id c r w h = reuse_or_insert-IsKnown (existing sha256 c r w) id c r w refl h

  create-HasRow :
      (id : String) (c : Chance) (r : Request) (w : World)
      → (create_escalation sha256 c r w).0.durable ≡ true
      → (create_escalation sha256 c r w).0.ticket_id ≡ some id
      → HasRow (key_of sha256 c r) id (create_escalation sha256 c r w).1.tickets
  unfolding create_escalation
  create-HasRow id c r w durable named =
      reuse_or_insert-HasRow (existing sha256 c r w) id c r w refl durable named

  -- After a creation that ended with a durable ticket, and after any further creations, retries and
  -- passes, a creation with the same key changes neither the table nor the inbox. It ends with that
  -- ticket as an existing one, or, where its lookup raises, as not durable and without a ticket.
  pub created_once :
      (c : Chance) (r : Request) (w : World) (id : String) (os : List Operation) (c' : Chance)
      (r' : Request)
      → (create_escalation sha256 c r w).0.durable ≡ true
      → (create_escalation sha256 c r w).0.ticket_id ≡ some id
      → key_of sha256 c' r' ≡ key_of sha256 c r
      → IsKnown id c'
          (run sha256 uuid os (create_escalation sha256 c r w).1)
          (create_escalation sha256 c' r' (run sha256 uuid os (create_escalation sha256 c r w).1))
  created_once c r w id os c' r' durable named same =
      let key = key_of sha256 c r in
      let later =
        run-keeps_rows sha256 uuid (HasRow key id) (set_delivery-HasRow key id)
          (λ t ts fits. append-HasRow key id t ts) os (create_escalation sha256 c r w).1
          (create-HasRow id c r w durable named) in
      create-IsKnown id c' r' _ (rw (same) later)
