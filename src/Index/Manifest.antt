-- ===== src/Index/Manifest.antt =====
-- vectordb/index_manifest.py: the durable pointer to a tenant's active collection. `digest` is as
-- in Names, `zoned` says whether `datetime.fromisoformat` reads a text as a time with a zone, and
-- `now` is `datetime.now(timezone.utc).isoformat()`. Reading an existing file does not fail.
pub mod Publish
pub mod Trust
pub mod Rollback
use package.text.Mathlib.Text.{◌==◌ as str_eq}
use rag_support_assistant.Prelude.{
  ℕ, zero, suc, ◌+◌, ◌==◌, ℤ, pos, negsuc, String, Bool, true, false, List, [], ◌∷◌, Option, none,
  some, if◌then◌else◌,
}
use rag_support_assistant.Index.{
  Result, ok, raise, ◌>>=◌, ◌>>◌, IndexError, manifest_corrupt, rollback_unavailable, name_invalid,
  Scalar, null, integer, text, Object, get, has_keys,
}
use rag_support_assistant.Index.Lock.{LockToken, require_lock}
use rag_support_assistant.Index.Names.{validate_name, legacy_name}
use rag_support_assistant.Index.Files.{
  Stored, absent, undecodable, decoded, Disk, Fault, atomic_write,
}

-- `IndexVersionManifest`
pub record Manifest : Type 0 where
  pub schema_version : ℕ
  pub active_collection : String
  pub previous_collection : Option String
  pub generation : ℕ
  pub updated_at : String

-- `_SCHEMA_VERSION` and `_MANIFEST_KEYS`
abbrev pub schema : ℕ
schema = 1

abbrev pub manifest_keys : List String
manifest_keys =
    "schema_version" ∷ "active_collection" ∷ "previous_collection" ∷ "generation" ∷ "updated_at"
    ∷ []

-- a decoded JSON document: an object, or none
pub data Payload : Type 0 where
  object : Object → Payload
  other : Payload

-- `payload[key]`; a `KeyError` makes the manifest corrupt
abbrev pub field : String → Object → Result Scalar
field k o = elim (get k o) [ none ↦ raise manifest_corrupt | some v ↦ ok v ]

-- an integer, not a Boolean, that is the schema's number
abbrev pub as_schema : Scalar → Result ℕ
as_schema (integer (pos n)) = if n == schema then ok n else raise manifest_corrupt
as_schema _ = raise manifest_corrupt

-- an integer, not a Boolean, of at least 1
abbrev pub as_generation : Scalar → Result ℕ
as_generation (integer (pos (suc n))) = ok (suc n)
as_generation _ = raise manifest_corrupt

-- the errors of a field's check, as `_parse_manifest` reports them
abbrev pub corrupt : Result String → Result String
corrupt (ok s) = ok s
corrupt (raise e) = raise manifest_corrupt

abbrev pub as_name : Scalar → Result String
as_name (text s) = corrupt (validate_name s)
as_name _ = raise manifest_corrupt

abbrev pub as_optional_name : Scalar → Result (Option String)
as_optional_name null = ok none
as_optional_name v = as_name v >>= λ s. ok (some s)

-- `_manifest_payload`
abbrev optional_text : Option String → Scalar
optional_text none = null
optional_text (some s) = text s

unfoldable pub manifest_payload : Manifest → Payload
manifest_payload m = object (
    ("schema_version", integer (pos m.schema_version))
    ∷ ("active_collection", text m.active_collection)
    ∷ ("previous_collection", optional_text m.previous_collection)
    ∷ ("generation", integer (pos m.generation))
    ∷ ("updated_at", text m.updated_at)
    ∷ [])

module _ (zoned : String → Bool) where
  -- `_parse_updated_at`
  abbrev pub as_updated_at : Scalar → Result String
  as_updated_at (text s) = if zoned s then ok s else raise manifest_corrupt
  as_updated_at _ = raise manifest_corrupt

  -- the manifest of the fields that were checked, if all are right
  abbrev pub assemble :
      Result ℕ → Result ℕ → Result (Option String) → Result String → Result String → Result Manifest
  assemble (ok version) (ok count) (ok before) (ok active) (ok time) = ok record {
    schema_version = version;
    active_collection = active;
    previous_collection = before;
    generation = count;
    updated_at = time;
  }
  assemble _ _ _ _ _ = raise manifest_corrupt

  -- `_parse_manifest`
  unfoldable pub parse_manifest : Payload → Result Manifest
  parse_manifest other = raise manifest_corrupt
  parse_manifest (object o) =
      if has_keys manifest_keys o
      then assemble (field "schema_version" o >>= as_schema)
          (field "generation" o >>= as_generation)
          (field "previous_collection" o >>= as_optional_name)
          (field "active_collection" o >>= as_name) (field "updated_at" o >>= as_updated_at)
      else raise manifest_corrupt

  -- `read_index_manifest`
  unfoldable pub read_manifest : Stored Payload → Result (Option Manifest)
  unfolding parse_manifest
  read_manifest absent = ok none
  read_manifest undecodable = raise manifest_corrupt
  read_manifest (decoded p) = parse_manifest p >>= λ m. ok (some m)

  module _ (digest : String → String) (prefix tenant_id : String) where
    -- the active collection, or the legacy one where there is no manifest
    abbrev pub active_or_legacy : Option Manifest → Result String
    active_or_legacy none = legacy_name digest prefix tenant_id
    active_or_legacy (some m) = ok m.active_collection

    -- `resolve_active_collection`
    unfoldable pub resolve_active : Stored Payload → Result String
    unfolding read_manifest
    resolve_active file = read_manifest file >>= active_or_legacy

    abbrev pub next_generation : Option Manifest → ℕ
    next_generation none = 1
    next_generation (some m) = m.generation + 1

    -- the manifest that a publication writes, where `before` is the collection it replaces
    abbrev pub succeed : String → String → Option Manifest → String → Manifest
    succeed now active current before = record {
      schema_version = schema;
      active_collection = active;
      previous_collection = if str_eq before active then none else some before;
      generation = next_generation current;
      updated_at = now;
    }

    unfoldable pub next_manifest : String → String → Option Manifest → Result Manifest
    next_manifest now active current =
        active_or_legacy current >>= λ before. ok (succeed now active current before)

    -- the checks of `publish_active_collection` before it writes
    unfoldable pub prepare : Option LockToken → String → String → Stored Payload → Result Manifest
    unfolding next_manifest
    prepare token now collection file =
        require_lock token tenant_id
        >> (validate_name collection >>= λ active. read_manifest file >>= next_manifest now active)

    -- the write of `publish_active_collection`, after its checks
    unfoldable pub commit : Fault → Disk Payload → Result Manifest → Result Manifest × Disk Payload
    unfolding atomic_write
    commit fault d (raise e) = (raise e, d)
    commit fault d (ok m) =
        let (done, after) = atomic_write fault (manifest_payload m) d in (done >> ok m, after)

    -- `publish_active_collection`
    unfoldable pub publish :
        Option LockToken → String → Fault → String → Disk Payload → Result Manifest × Disk Payload
    unfolding commit
    publish token now fault collection d = commit fault d (prepare token now collection d.file)

    -- the collection that `rollback_active_collection` makes active again
    unfoldable pub rollback_target : Option LockToken → Stored Payload → Result String
    rollback_target token file =
        require_lock token tenant_id
        >> (read_manifest file >>= λ current. elim current [
          | none ↦ raise rollback_unavailable
          | some m ↦ elim m.previous_collection [
            | none ↦ raise rollback_unavailable
            | some before ↦ ok before
          ]
        ])

    -- `rollback_active_collection`
    unfoldable pub rollback :
        Option LockToken → String → Fault → Disk Payload → Result Manifest × Disk Payload
    rollback token now fault d = elim (rollback_target token d.file) [
      | raise e ↦ (raise e, d)
      | ok before ↦ publish token now fault before d
    ]
