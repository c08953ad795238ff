-- ===== src/Index/Operator/Tests.antt =====
-- Runs of the operator's commands on a tenant `acme`, and the theorems at these inputs.
use rag_support_assistant.Prelude.{
  ℕ, ◌≡◌, refl, pos, String, Bool, true, not, List, [], ◌∷◌, map, none, some,
}
use rag_support_assistant.Text
use rag_support_assistant.Index.{Result, ok, raise, execution_conflict, integer, text}
use rag_support_assistant.Index.Lock.{require_lock, not_owner}
use rag_support_assistant.Index.Names.{
  validate_name, staged_name, physical_tenant_component, is_safe,
}
use rag_support_assistant.Index.Files.{decoded, Disk, no_fault, at_replace, at_commit}
use rag_support_assistant.Index.Manifest.{
  Manifest, Payload, manifest_payload, parse_manifest, read_manifest,
}
use rag_support_assistant.Index.Retention.{
  Entry, Inventory, inventory_payload, validate_versioned, read_inventory, parse_inventory,
}
use rag_support_assistant.Index.Retention.Bounded.{Store, choose}
use rag_support_assistant.Index.Operator.{
  execute_index_retention, preview_index_retention, RetentionExecution,
}
use rag_support_assistant.Index.Operator.Once.{
  Attempt, after_all, IsOnce, rollback_index_version-IsOnce,
}
use rag_support_assistant.Index.Operator.Retry.{
  free_lock, Acknowledges, rollback_index_version-Acknowledges,
}
use rag_support_assistant.Index.Operator.Confirmed.{IsCareful, execute_index_retention-IsCareful}

abbrev digest : String → String
digest s = "0123456789abcdef"

abbrev hash : String → String
hash s = Text.append "key of " s

abbrev zoned : String → Bool
zoned s = not (Text.is_empty s)

abbrev old : String
old = "rag_docs-v-acme-0000000000000000"

abbrev one : String
one = "rag_docs-v-acme-00000000000000aa"

abbrev two : String
two = "rag_docs-v-acme-00000000000000bb"

abbrev noon : String
noon = "2026-01-01T12:00:00+00:00"

abbrev both : Manifest
both = record {
  schema_version = 1;
  active_collection = two;
  previous_collection = some one;
  generation = 5;
  updated_at = noon;
}

abbrev start : Disk Payload
start = record { file = decoded (manifest_payload both); temporary = none }

-- the first call fails in its write, the second loses its lock after it applied the rollback
abbrev attempts : List Attempt
attempts =
    record { locking = free_lock; validator = none; now = noon; fault = at_replace }
    ∷ record {
      locking = record { opens = true; got = ok tt; release = not_owner };
      validator = none;
      now = noon;
      fault = no_fault;
    }
    ∷ record { locking = free_lock; validator = none; now = noon; fault = no_fault }
    ∷ []

rollback_index_version-IsOnce_example :
    IsOnce digest "rag_docs" zoned "acme" 5 one start
      (after_all digest "rag_docs" zoned "acme" 5 one start attempts start)
rollback_index_version-IsOnce_example =
    rollback_index_version-IsOnce digest "rag_docs" zoned "acme" 5 one start attempts refl
      (refl, (refl, (refl, tt)))

both_read : read_manifest zoned start.file ≡ ok (some both)
unfolding read_manifest parse_manifest manifest_payload validate_name
both_read = refl

rollback_index_version-Acknowledges_example :
    Acknowledges digest "rag_docs" zoned "acme" one both start none noon none noon at_commit
rollback_index_version-Acknowledges_example =
    rollback_index_version-Acknowledges digest "rag_docs" zoned "acme" one both start none noon none
      noon at_commit both_read refl refl refl refl

abbrev entry : String → ℕ → Entry
entry name n = record { collection_name = name; sequence = n; recorded_at = noon }

abbrev three : Inventory
three = record {
  schema_version = 1;
  tenant_key = "key of acme";
  collections = entry old 1 ∷ entry one 2 ∷ entry two 3 ∷ [];
  updated_at = noon;
}

abbrev store : Store
store = record {
  inventory = record { file = decoded (inventory_payload three); temporary = none };
  manifest = decoded (manifest_payload both);
  collections = old ∷ one ∷ two ∷ [];
}

-- an execution with the previewed candidates deletes them, one with an old generation nothing
previewed :
    (preview_index_retention digest "rag_docs" zoned "acme"
      (λ n. true)
      (λ n. no_fault)
      hash
      free_lock
      2
      store).0
    ≡ ok record {
      tenant_id = "acme";
      max_versions = 2;
      manifest_generation = some 5;
      active_collection = some two;
      previous_collection = some one;
      inventory_collections = old ∷ one ∷ two ∷ [];
      deletion_candidates = old ∷ [];
    }
unfolding preview_index_retention read_inventory parse_inventory validate_versioned staged_name
    physical_tenant_component read_manifest parse_manifest manifest_payload validate_name is_safe
    choose
previewed = refl

abbrev run : ℕ → List String → Result RetentionExecution × Store
run expected candidates =
    execute_index_retention digest "rag_docs" zoned "acme" (λ n. true) (λ n. no_fault) hash
      free_lock 2 (integer (pos expected)) (some (map (λ c. text c) candidates)) store

executed : (run 5 (old ∷ [])).1.collections ≡ one ∷ two ∷ []
unfolding execute_index_retention read_inventory parse_inventory validate_versioned staged_name
    physical_tenant_component read_manifest parse_manifest manifest_payload validate_name is_safe
    choose require_lock
executed = refl

stale : run 4 (old ∷ []) ≡ (raise execution_conflict, store)
unfolding execute_index_retention read_inventory parse_inventory validate_versioned staged_name
    physical_tenant_component read_manifest parse_manifest manifest_payload validate_name is_safe
    choose
stale = refl

execute_index_retention-IsCareful_example :
    IsCareful
      (λ n. true)
      (λ n. no_fault)
      digest
      hash
      "rag_docs"
      zoned
      "acme"
      2
      5
      (old ∷ [])
      store
      two
      (run 5 (old ∷ [])).1
execute_index_retention-IsCareful_example =
    execute_index_retention-IsCareful (λ n. true) (λ n. no_fault) digest hash "rag_docs" zoned
      "acme" 2 5 (old ∷ []) store free_lock two refl
