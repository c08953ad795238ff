-- ===== src/Index/Rebuild/Tests.antt =====
-- Rebuilds of the index of a tenant `acme`, and the theorem at these inputs.
use rag_support_assistant.Prelude.{
  ℕ, ◌≡◌, refl, ap, sym, String, Bool, true, false, not, [], ◌∷◌, none, some, arith,
}
use rag_support_assistant.Text
use rag_support_assistant.Index.{ok, contains}
use rag_support_assistant.Index.Lock.{require_lock}
use rag_support_assistant.Index.Names.{
  validate_name, staged_name, physical_tenant_component, is_safe,
}
use rag_support_assistant.Index.Files.{decoded, Fault, no_fault, at_commit}
use rag_support_assistant.Index.Manifest.{
  Manifest, manifest_payload, parse_manifest, read_manifest, publish, prepare,
}
use rag_support_assistant.Index.Retention.{
  Entry, Inventory, inventory_payload, validate_versioned, read_inventory, parse_inventory,
  record_collection, keep_or_append,
}
use rag_support_assistant.Index.Retention.Bounded.{choose, execute_retention}
use rag_support_assistant.Index.Operator.Retry.{free_lock}
use rag_support_assistant.Index.Staging.{
  made, deletes, Chroma, build_staged_collection, validate_candidate, cleanup_candidate,
  validate_known_query, discard_staged_collection,
}
use rag_support_assistant.Index.Rebuild.{IndexState, Chance, rebuild}
use rag_support_assistant.Index.Rebuild.Served.{IsServed, new_name, rebuild-IsServed}

abbrev digest : String → String
digest s = "0123456789abcdef"

abbrev hash : String → String
hash s = Text.append "key of " s

abbrev zoned : String → Bool
zoned s = not (Text.is_empty s)

abbrev old : String
old = "rag_docs-v-acme-0000000000000000"

abbrev one : String
one = "rag_docs-v-acme-00000000000000aa"

abbrev two : String
two = "rag_docs-v-acme-00000000000000bb"

abbrev noon : String
noon = "2026-01-01T12:00:00+00:00"

abbrev published : Manifest
published = record {
  schema_version = 1;
  active_collection = one;
  previous_collection = some old;
  generation = 5;
  updated_at = noon;
}

abbrev entry : String → ℕ → Entry
entry name n = record { collection_name = name; sequence = n; recorded_at = noon }

abbrev recorded : Inventory
recorded = record {
  schema_version = 1;
  tenant_key = "key of acme";
  collections = entry old 1 ∷ entry one 2 ∷ [];
  updated_at = noon;
}

abbrev start : IndexState
start = record {
  inventory = record { file = decoded (inventory_payload recorded); temporary = none };
  manifest = record { file = decoded (manifest_payload published); temporary = none };
  collections = old ∷ one ∷ [];
}

abbrev chroma : Chroma
chroma = record {
  creation = made;
  persist_error = none;
  has_probes = true;
  count = some 2;
  embeddings_fault = false;
  has_embed_query = true;
  probe = some 384;
  query_works = true;
  removal = deletes;
}

-- the write of the manifest meets the fault
abbrev chance : Fault → Chance
chance fault = record {
  build = chroma;
  candidate_id = "00000000000000bb";
  query_fault = false;
  has_search = true;
  search = λ q. some (q ∷ []);
  recorded_at = noon;
  record_fault = no_fault;
  published_at = noon;
  publish_fault = fault;
  discard = deletes;
  deletes = λ n. true;
  prune_fault = λ n. no_fault;
}

abbrev after : Fault → IndexState
after fault =
    (rebuild digest hash "rag_docs" zoned "acme" 2 (chance fault) free_lock ("a" ∷ "b" ∷ [])
      start).1

-- a rebuild keeps the two newest versions; one whose publication fails leaves the collections
replaced : (after no_fault).collections ≡ two ∷ one ∷ []
unfolding rebuild build_staged_collection staged_name physical_tenant_component is_safe require_lock
    validate_candidate validate_known_query record_collection read_inventory parse_inventory
    validate_versioned publish read_manifest parse_manifest manifest_payload validate_name
    execute_retention choose Text.strip keep_or_append prepare
replaced = refl

kept : (after at_commit).collections ≡ old ∷ one ∷ []
unfolding rebuild build_staged_collection staged_name physical_tenant_component is_safe require_lock
    validate_candidate validate_known_query record_collection read_inventory parse_inventory
    validate_versioned publish read_manifest parse_manifest manifest_payload validate_name
    cleanup_candidate discard_staged_collection Text.strip keep_or_append prepare
kept = refl

fresh :
    (name : String)
    → new_name digest hash "rag_docs" zoned "acme" 2 (chance at_commit) ("a" ∷ "b" ∷ []) ≡ ok name
    → contains name start.collections ≡ false
unfolding staged_name physical_tenant_component is_safe require_lock
fresh name h =
    let same : two ≡ name = ground arith in ap (λ n. contains n start.collections) (sym same)

served : IsServed digest hash "rag_docs" zoned "acme" 2 (chance at_commit) start
unfolding read_manifest parse_manifest manifest_payload validate_name
served = refl

rebuild-IsServed_example :
    IsServed digest hash "rag_docs" zoned "acme" 2 (chance at_commit) (after at_commit)
rebuild-IsServed_example =
    rebuild-IsServed digest hash "rag_docs" zoned "acme" 2 (chance at_commit) free_lock
      ("a" ∷ "b" ∷ []) start fresh served
