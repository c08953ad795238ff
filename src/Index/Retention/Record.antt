-- ===== src/Index/Retention/Record.antt =====
-- vectordb/index_retention.py: what is recorded of a new collection.
use package.text.Mathlib.Text.{◌==◌ as str_eq}
use rag_support_assistant.Prelude.{
  ℕ, suc, ◌+◌, ◌≡◌, refl, ap, ◌∙◌, inl, inr, String, Bool, true, false, Bool-cases, List, [], ◌∷◌,
  ◌++◌, length, Option, none, some, arith, eq_iff,
}
use rag_support_assistant.Index.{ok, contains}
use rag_support_assistant.Index.Lock.{LockToken, require_lock}
use rag_support_assistant.Index.Files.{decoded, Disk, Fault, no_fault}
use rag_support_assistant.Index.Retention.{
  Entry, Document, Inventory, inventory_payload, names, last_time, validate_versioned,
  read_inventory, recorded, extended, keep_or_append, record_collection,
}
use rag_support_assistant.Index.Retention.WellFormed.{IsRecorded, IsInventory, read_back}

last_time-append :
    (t : String) (es : List Entry) (e : Entry) → last_time t (es ++ e ∷ []) ≡ e.recorded_at
last_time-append t [] e = refl
last_time-append t (x ∷ es) e = last_time-append x.recorded_at es e

names-append :
    (es : List Entry) (e : Entry) → names (es ++ e ∷ []) ≡ names es ++ e.collection_name ∷ []
names-append [] e = refl
names-append (x ∷ es) e = ap (λ l. x.collection_name ∷ l) (names-append es e)

contains-last : (n : String) (ns : List String) → contains n (ns ++ n ∷ []) ≡ true
contains-last n [] = rw ((eq_iff n n).1 refl) refl
contains-last n (x ∷ ns) = elim (Bool-cases (str_eq x n)) [
  | inl e ↦ rw (e) refl
  | inr e ↦ rw (e) (contains-last n ns)
]

module _ (digest hash : String → String) (prefix : String) (zoned : String → Bool)
    (tenant_id : String) where
  IsRecorded-append :
      (n : ℕ) (seen : List String) (es : List Entry) (e : Entry)
      → IsRecorded digest hash prefix zoned tenant_id n seen es
      → e.sequence ≡ n + length es
      → validate_versioned digest hash prefix zoned tenant_id e.collection_name
        ≡ ok e.collection_name
      → contains e.collection_name seen ≡ false
      → contains e.collection_name (names es) ≡ false
      → zoned e.recorded_at ≡ true
      → IsRecorded digest hash prefix zoned tenant_id n seen (es ++ e ∷ [])
  IsRecorded-append n seen [] e h number named new fresh dated =
      (omega arith, named, new, dated, tt)
  IsRecorded-append n seen (x ∷ es) e (number_x, named_x, new_x, dated_x, rest) number named new
        fresh dated =
      let other : str_eq x.collection_name e.collection_name ≡ false = ground arith in
      (
        number_x,
        named_x,
        new_x,
        dated_x,
        IsRecorded-append (suc n) (x.collection_name ∷ seen) es e rest (omega arith) named
            (rw (other) new) (ground arith) dated,
      )

  abbrev pub IsInventoryOption : Option Inventory → Type 0
  IsInventoryOption none = Unit
  IsInventoryOption (some i) = IsInventory digest hash prefix zoned tenant_id i

  recorded-IsRecorded :
      (o : Option Inventory)
      → IsInventoryOption o
      → IsRecorded digest hash prefix zoned tenant_id 1 []
          (recorded digest hash prefix zoned tenant_id o)
  recorded-IsRecorded none h = tt
  recorded-IsRecorded (some i) h = h.ordered

  extended-IsInventory :
      (now name : String) (current : Option Inventory)
      → IsInventoryOption current
      → validate_versioned digest hash prefix zoned tenant_id name ≡ ok name
      → contains name (names (recorded digest hash prefix zoned tenant_id current)) ≡ false
      → zoned now ≡ true
      → IsInventory digest hash prefix zoned tenant_id
          (extended digest hash prefix zoned tenant_id now name current)
  extended-IsInventory now name current h named fresh dated = record {
    version_known = refl;
    bound = refl;
    ordered =
        IsRecorded-append 1 [] (recorded digest hash prefix zoned tenant_id current) _
          (recorded-IsRecorded current h) (omega arith) named refl fresh dated;
    dated = dated;
    latest = last_time-append now (recorded digest hash prefix zoned tenant_id current) _;
  }

  keep_or_append-fresh :
      (now name : String) (d : Disk Document) (current : Option Inventory)
      → contains name (names (recorded digest hash prefix zoned tenant_id current)) ≡ false
      → keep_or_append digest hash prefix zoned tenant_id now no_fault name d current ≡ (
        ok (extended digest hash prefix zoned tenant_id now name current),
        record {
          file =
              decoded
                (inventory_payload (extended digest hash prefix zoned tenant_id now name current));
          temporary = none;
        },
      )
  unfolding keep_or_append
  keep_or_append-fresh now name d none h = refl
  keep_or_append-fresh now name d (some i) h = rw (h) refl

  record_collection_lem :
      (token : Option LockToken) (now : String) (fault : Fault) (name : String) (d : Disk Document)
      (current : Option Inventory)
      → require_lock token tenant_id ≡ ok tt
      → validate_versioned digest hash prefix zoned tenant_id name ≡ ok name
      → read_inventory digest hash prefix zoned tenant_id d.file ≡ ok current
      → record_collection digest hash prefix zoned tenant_id token now fault name d
        ≡ keep_or_append digest hash prefix zoned tenant_id now fault name d current
  unfolding record_collection
  record_collection_lem token now fault name d current held named reads =
      rw (record_collection, held, named, reads) refl

  keep_or_append-kept :
      (now : String) (fault : Fault) (name : String) (d : Disk Document) (i : Inventory)
      → contains name (names i.collections) ≡ true
      → keep_or_append digest hash prefix zoned tenant_id now fault name d (some i) ≡ (ok i, d)
  unfolding keep_or_append
  keep_or_append-kept now fault name d i h = rw (h) refl

  abbrev pub Records :
      Option LockToken
      → String
      → String
      → Fault
      → String
      → Disk Document
      → Option Inventory
      → Type 0
  Records token now later fault name d current =
      (i : Inventory) × (after : Disk Document) × (record_collection digest hash prefix zoned
          tenant_id token now no_fault name d
        ≡ (ok i, after))
      × IsInventory digest hash prefix zoned tenant_id i
      × (names i.collections
          ≡ names (recorded digest hash prefix zoned tenant_id current) ++ name ∷ [])
      × (read_inventory digest hash prefix zoned tenant_id after.file ≡ ok (some i))
      × (record_collection digest hash prefix zoned tenant_id token later fault name after
          ≡ (ok i, after))

  -- Under the lock, recording a versioned name of the tenant that is not yet recorded, beside a
  -- well-formed inventory or none and with a write that does not fail, appends the name to those
  -- recorded before. The inventory it leaves is well-formed: its sequence numbers count from 1, its
  -- names are versioned and different, its times are the entries'. Reading the file gives that
  -- inventory, and recording the name again, at any time, changes nothing.
  pub record_collection-IsInventory :
      (token : Option LockToken) (now later : String) (fault : Fault) (name : String)
      → (d : Disk Document) (current : Option Inventory) → require_lock token tenant_id ≡ ok tt
      → validate_versioned digest hash prefix zoned tenant_id name ≡ ok name
      → read_inventory digest hash prefix zoned tenant_id d.file ≡ ok current
      → IsInventoryOption current
      → contains name (names (recorded digest hash prefix zoned tenant_id current)) ≡ false
      → zoned now ≡ true
      → Records token now later fault name d current
  record_collection-IsInventory token now later fault name d current held named reads h fresh
        dated =
      let i = extended digest hash prefix zoned tenant_id now name current in
      let good = extended-IsInventory now name current h named fresh dated in
      let added = names-append (recorded digest hash prefix zoned tenant_id current) _ in
      let listed : contains name (names i.collections) ≡ true =
        ap (contains name) added ∙ contains-last name _ in
      let after : Disk Document = record {
        file = decoded (inventory_payload i);
        temporary = none;
      } in
      (
        i,
        after,
        record_collection_lem token now no_fault name d current held named reads
            ∙ keep_or_append-fresh now name d current fresh,
        good,
        added,
        read_back digest hash prefix zoned tenant_id i good,
        record_collection_lem token later fault name after (some i) held named
              (read_back digest hash prefix zoned tenant_id i good)
            ∙ keep_or_append-kept later fault name after i listed,
      )
