-- ===== src/Index/Retention.antt =====
-- vectordb/index_retention.py: the inventory of a tenant's versioned collections, in the order they
-- were made. `digest` is as in Names, `hash` is the SHA-256 digest of a text after the domain of
-- tenant keys, `zoned` says whether a text is read as a time with a zone.
pub mod Bounded
pub mod Budget
pub mod Spared
pub mod Orphans
pub mod WellFormed
pub mod Record
pub mod Versioned
use package.text.Mathlib.Text.{◌==◌ as str_eq}
use rag_support_assistant.Prelude.{
  ℕ, zero, suc, ◌+◌, ◌-◌, ◌==◌, pos, String, Bool, true, false, ◌&&◌, List, [], ◌∷◌, ◌++◌, length,
  map, Option, none, some, if◌then◌else◌,
}
use rag_support_assistant.Text
use rag_support_assistant.Index.{
  Result, ok, raise, ◌>>=◌, ◌>>◌, IndexError, retention_corrupt, retention_invalid, Scalar, integer,
  text, Object, get, has_keys, no_duplicates, contains,
}
use rag_support_assistant.Index.Lock.{canonical, LockToken, require_lock}
use rag_support_assistant.Index.Names.{staged_name}
use rag_support_assistant.Index.Files.{
  Stored, absent, undecodable, decoded, Disk, Fault, atomic_write,
}

-- `RetentionCollectionMetadata`
pub record Entry : Type 0 where
  pub collection_name : String
  pub sequence : ℕ
  pub recorded_at : String

-- `IndexRetentionInventory`
pub record Inventory : Type 0 where
  pub schema_version : ℕ
  pub tenant_key : String
  pub collections : List Entry
  pub updated_at : String

-- a decoded JSON document with its pairs as they stand in the file: an object whose values are
-- scalars or lists, or something else
pub data Item : Type 0 where
  item : Object → Item
  no_item : Item

pub data Value : Type 0 where
  scalar : Scalar → Value
  items : List Item → Value

pub data Document : Type 0 where
  document : List (String × Value) → Document
  no_document : Document

abbrev pub schema : ℕ
schema = 1

-- `_INVENTORY_KEYS` and `_COLLECTION_KEYS`
abbrev pub inventory_keys : List String
inventory_keys = "schema_version" ∷ "tenant_key" ∷ "collections" ∷ "updated_at" ∷ []

abbrev pub collection_keys : List String
collection_keys = "collection_name" ∷ "sequence" ∷ "recorded_at" ∷ []

-- `_inventory_payload`
abbrev pub entry_payload : Entry → Item
entry_payload e = item (
    ("collection_name", text e.collection_name)
    ∷ ("sequence", integer (pos e.sequence))
    ∷ ("recorded_at", text e.recorded_at)
    ∷ [])

abbrev pub inventory_payload : Inventory → Document
inventory_payload i = document (
    ("schema_version", scalar (integer (pos i.schema_version)))
    ∷ ("tenant_key", scalar (text i.tenant_key))
    ∷ ("collections", items (map entry_payload i.collections))
    ∷ ("updated_at", scalar (text i.updated_at))
    ∷ [])

-- an integer, not a Boolean, that is the expected number
abbrev pub as_number : ℕ → Scalar → Result ℕ
as_number n (integer (pos m)) = if m == n then ok m else raise retention_corrupt
as_number n _ = raise retention_corrupt

abbrev pub corrupt {ℓ} : {A : Type ℓ} → Result A → Result A
corrupt (ok a) = ok a
corrupt (raise e) = raise retention_corrupt

abbrev pub field {ℓ} : {A : Type ℓ} → String → List (String × A) → Result A
field k o = elim (get k o) [ none ↦ raise retention_corrupt | some v ↦ ok v ]

abbrev pub as_scalar : Value → Result Scalar
as_scalar (scalar s) = ok s
as_scalar (items is) = raise retention_corrupt

abbrev pub as_items : Value → Result (List Item)
as_items (scalar s) = raise retention_corrupt
as_items (items is) = ok is

-- `_strict_json_object` accepts the pairs of each object
abbrev pub strict_items : List Item → Bool
strict_items [] = true
strict_items (item o ∷ is) = no_duplicates o && strict_items is
strict_items (no_item ∷ is) = strict_items is

abbrev pub strict_values : List (String × Value) → Bool
strict_values [] = true
strict_values ((k, scalar s) ∷ o) = strict_values o
strict_values ((k, items is) ∷ o) = strict_items is && strict_values o

abbrev pub is_strict : Document → Bool
is_strict no_document = true
is_strict (document o) = no_duplicates o && strict_values o

-- `updated_at != collections[-1].recorded_at`, where there is one
abbrev pub last_time : String → List Entry → String
last_time t [] = t
last_time t (e ∷ es) = last_time e.recorded_at es

abbrev pub names : List Entry → List String
names es = map (λ e. e.collection_name) es

module _ (digest hash : String → String) (prefix : String) (zoned : String → Bool)
    (tenant_id : String) where
  -- `_tenant_key`
  abbrev pub tenant_key : String
  tenant_key = hash (canonical tenant_id)

  -- `_parse_timestamp`
  abbrev pub as_time : Scalar → Result String
  as_time (text s) = if zoned s then ok s else raise retention_corrupt
  as_time _ = raise retention_corrupt

  -- `_validate_versioned_collection_name`: the name is the one that a candidate with its last 16
  -- characters gets
  unfoldable pub validate_versioned : String → Result String
  validate_versioned name =
      elim (staged_name digest prefix tenant_id (Text.drop (Text.length name - 16) name)) [
        | raise e ↦ raise retention_invalid
        | ok expected ↦ if str_eq name expected then ok name else raise retention_invalid
      ]

  abbrev pub as_versioned : Scalar → Result String
  as_versioned (text s) = corrupt (validate_versioned s)
  as_versioned _ = raise retention_corrupt

  abbrev pub as_key : Scalar → Result String
  as_key (text s) = if str_eq s tenant_key then ok s else raise retention_corrupt
  as_key _ = raise retention_corrupt

  -- one turn of the loop of `_parse_inventory`
  abbrev pub parse_entry : ℕ → List String → Item → Result Entry
  parse_entry expected seen no_item = raise retention_corrupt
  parse_entry expected seen (item o) =
      if has_keys collection_keys o
      then ((field "sequence" o >>= as_number expected) >>= λ number.
          (field "collection_name" o >>= as_versioned) >>= λ name.
          if contains name seen
          then raise retention_corrupt
          else ((field "recorded_at" o >>= as_time) >>= λ time.
              ok record { collection_name = name; sequence = number; recorded_at = time }))
      else raise retention_corrupt

  abbrev pub parse_entries : ℕ → List String → List Item → Result (List Entry)
  parse_entries expected seen [] = ok []
  parse_entries expected seen (i ∷ is) = parse_entry expected seen i >>= λ e.
      parse_entries (suc expected) (e.collection_name ∷ seen) is >>= λ es. ok (e ∷ es)

  -- `_parse_inventory`
  unfoldable pub parse_inventory : Document → Result Inventory
  parse_inventory no_document = raise retention_corrupt
  parse_inventory (document o) =
      if has_keys inventory_keys o
      then ((field "schema_version" o >>= as_scalar >>= as_number schema) >>= λ version.
          (field "tenant_key" o >>= as_scalar >>= as_key) >>= λ key.
          (field "collections" o >>= as_items >>= parse_entries 1 []) >>= λ entries.
          (field "updated_at" o >>= as_scalar >>= as_time) >>= λ time.
          if str_eq time (last_time time entries)
          then ok record {
            schema_version = version;
            tenant_key = key;
            collections = entries;
            updated_at = time;
          }
          else raise retention_corrupt)
      else raise retention_corrupt

  -- `read_retention_inventory`
  unfoldable pub read_inventory : Stored Document → Result (Option Inventory)
  read_inventory absent = ok none
  read_inventory undecodable = raise retention_corrupt
  read_inventory (decoded p) =
      if is_strict p then (parse_inventory p >>= λ i. ok (some i)) else raise retention_corrupt

  abbrev pub recorded : Option Inventory → List Entry
  recorded none = []
  recorded (some i) = i.collections

  -- the inventory with one more collection
  abbrev pub extended : String → String → Option Inventory → Inventory
  extended now name current = record {
    schema_version = schema;
    tenant_key = tenant_key;
    collections =
        recorded current
        ++ record {
          collection_name = name;
          sequence = length (recorded current) + 1;
          recorded_at = now;
        }
          ∷ [];
    updated_at = now;
  }

  -- what `record_retention_collection` does with the inventory it read
  abbrev pub append_collection :
      String → Fault → String → Disk Document → Option Inventory → Result Inventory × Disk Document
  append_collection now fault name d current =
      let next = extended now name current in
      let (done, after) = atomic_write fault (inventory_payload next) d in (done >> ok next, after)

  unfoldable pub keep_or_append :
      String → Fault → String → Disk Document → Option Inventory → Result Inventory × Disk Document
  unfolding atomic_write
  keep_or_append now fault name d none = append_collection now fault name d none
  keep_or_append now fault name d (some i) =
      if contains name (names i.collections)
      then (ok i, d)
      else append_collection now fault name d (some i)

  -- `record_retention_collection`
  unfoldable pub record_collection :
      Option LockToken → String → Fault → String → Disk Document → Result Inventory × Disk Document
  record_collection token now fault name d =
      elim (require_lock token tenant_id
        >> (validate_versioned name >>= λ good. read_inventory d.file)) [
          | raise e ↦ (raise e, d)
          | ok current ↦ keep_or_append now fault name d current
        ]
