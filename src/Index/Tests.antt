-- ===== src/Index/Tests.antt =====
-- Runs of the index's modules on a tenant `acme`, and the theorems at these inputs.
use rag_support_assistant.Prelude.{
  inl, ℕ, ◌==◌, ◌≤◌, ◌≡◌, ◌≢◌, refl, String, Bool, true, not, [], ◌∷◌, Option, none, some,
  if◌then◌else◌, arith, eq_iff,
}
use rag_support_assistant.Text
use rag_support_assistant.Index.{ok, raise, write_failed, contains}
use rag_support_assistant.Index.Lock.{LockToken, new_token, require_lock, granted, busy}
use rag_support_assistant.Index.Lock.Waiting.{HasEnded, acquire_ends}
use rag_support_assistant.Index.Names.{
  validate_name, legacy_name, staged_name, physical_tenant_component, is_safe, is_alnum,
}
use rag_support_assistant.Index.Files.{absent, decoded, Disk, at_commit, at_replace}
use rag_support_assistant.Index.Manifest.{
  Manifest, Payload, manifest_payload, parse_manifest, read_manifest, prepare, publish,
}
use rag_support_assistant.Index.Manifest.Publish.{
  IsTrusted, Activates, publish-Activates, publish_failure,
}
use rag_support_assistant.Index.Manifest.Rollback.{Restores, rollback_twice}
use rag_support_assistant.Index.Retention.{
  Entry, Inventory, Document, inventory_payload, validate_versioned, read_inventory,
  parse_inventory,
}
use rag_support_assistant.Index.Retention.Bounded.{
  choose, bounded_of, Store, prune, execute_retention,
}
use rag_support_assistant.Index.Retention.Budget.{HasBudget, bounded_within_budget}
use rag_support_assistant.Index.Retention.Spared.{active_collections_spared}
use rag_support_assistant.Index.Retention.Orphans.{HasNoOrphan, prune-HasNoOrphan}
use rag_support_assistant.Index.Retention.WellFormed.{
  IsInventory, parse_inventory-inventory_payload,
}
use rag_support_assistant.Index.Retention.Record.{Records, record_collection-IsInventory}
use rag_support_assistant.Index.Retention.Versioned.{staged_name-accepted}

-- a hash that is the same for all, times that are not empty, the tenant's lock
abbrev digest : String → String
digest s = "0123456789abcdef"

abbrev hash : String → String
hash s = Text.append "key of " s

abbrev zoned : String → Bool
zoned s = not (Text.is_empty s)

abbrev held : Option LockToken
held = some (new_token "acme")

abbrev held_now : require_lock held "acme" ≡ ok tt
unfolding require_lock
held_now = refl

abbrev one : String
one = "rag_docs-v-acme-00000000000000aa"

abbrev two : String
two = "rag_docs-v-acme-00000000000000bb"

abbrev noon : String
noon = "2026-01-01T12:00:00+00:00"

abbrev evening : String
evening = "2026-01-01T18:00:00+00:00"

-- the names
staged_two : staged_name digest "rag_docs" "acme" "00000000000000bb" ≡ ok two
unfolding staged_name physical_tenant_component is_safe
staged_two = refl

hashed_name : physical_tenant_component digest "Acme GmbH" 40 ≡ ok "Acme_GmbH--0123456789abcdef"
unfolding physical_tenant_component is_safe
hashed_name = refl

legacy_acme : legacy_name digest "rag_docs" "acme" ≡ ok "rag_docs_acme"
unfolding legacy_name physical_tenant_component
legacy_acme = refl

valid_two : validate_name two ≡ ok two
unfolding validate_name
valid_two = refl

valid_legacy : validate_name "rag_docs_acme" ≡ ok "rag_docs_acme"
unfolding validate_name
valid_legacy = refl

-- the lock: the third query is granted
acquire_ends_example : HasEnded (λ n. if n == 2 then granted else busy) (λ n. 5) 0 250000
acquire_ends_example = acquire_ends (λ n. if n == 2 then granted else busy) (λ n. 5) 0 250000

-- the manifest
abbrev both : Manifest
both = record {
  schema_version = 1;
  active_collection = two;
  previous_collection = some one;
  generation = 5;
  updated_at = noon;
}

valid_one : validate_name one ≡ ok one
unfolding validate_name
valid_one = refl

abbrev both-IsTrusted : IsTrusted zoned both
both-IsTrusted = record {
  version_known = refl;
  active_named = valid_two;
  previous_named = valid_one;
  counted = omega arith;
  dated = refl;
}

abbrev new_disk : Disk Payload
new_disk = record { file = absent; temporary = none }

abbrev full_disk : Disk Payload
full_disk = record { file = decoded (manifest_payload both); temporary = none }

nothing_read : read_manifest zoned absent ≡ ok none
unfolding read_manifest
nothing_read = refl

both_read : read_manifest zoned (decoded (manifest_payload both)) ≡ ok (some both)
unfolding read_manifest parse_manifest manifest_payload validate_name
both_read = refl

publish-Activates_example :
    Activates zoned digest "rag_docs" "acme" held noon two "rag_docs_acme" none new_disk
publish-Activates_example =
    publish-Activates zoned digest "rag_docs" "acme" held noon two "rag_docs_acme" none new_disk
      held_now valid_two nothing_read legacy_acme valid_legacy refl

publish_fails :
    (publish zoned digest "rag_docs" "acme" held noon at_commit one full_disk).0
    ≡ raise write_failed
unfolding publish read_manifest parse_manifest manifest_payload validate_name require_lock prepare
publish_fails = refl

publish_failure_example :
    (publish zoned digest "rag_docs" "acme" held noon at_commit one full_disk).1 ≡ full_disk
publish_failure_example =
    publish_failure zoned digest "rag_docs" "acme" held noon one at_commit full_disk write_failed
      refl publish_fails

two_differs : two ≢ one
two_differs = ground (arith, eq_iff two one)

rollback_twice_example :
    Restores zoned digest "rag_docs" "acme" held noon evening one both full_disk
rollback_twice_example =
    rollback_twice zoned digest "rag_docs" "acme" held noon evening one both full_disk held_now
      both_read refl two_differs refl refl

both_parsed : parse_manifest zoned (manifest_payload both) ≡ ok both
unfolding parse_manifest manifest_payload validate_name
both_parsed = refl

-- the inventory
abbrev old : String
old = "rag_docs-v-acme-0000000000000000"

abbrev entry : String → ℕ → Entry
entry name n = record { collection_name = name; sequence = n; recorded_at = noon }

abbrev three : Inventory
three = record {
  schema_version = 1;
  tenant_key = "key of acme";
  collections = entry old 1 ∷ entry one 2 ∷ entry two 3 ∷ [];
  updated_at = noon;
}

oldest_first : bounded_of 2 (some three) (some both) ≡ old ∷ []
unfolding bounded_of
oldest_first = refl

bounded_within_budget_example : HasBudget 2 three both
bounded_within_budget_example = bounded_within_budget 2 three both (omega arith)

abbrev store : Store
store = record {
  inventory = record { file = decoded (inventory_payload three); temporary = none };
  manifest = decoded (manifest_payload both);
  collections = old ∷ one ∷ two ∷ [];
}

-- all deletions succeed, and no write does
abbrev after_retention : Store
after_retention =
    (execute_retention (λ n. true) (λ n. at_replace) digest hash "rag_docs" zoned "acme" held 2
      store).1

old_gone : after_retention.collections ≡ one ∷ two ∷ []
unfolding execute_retention read_inventory parse_inventory validate_versioned staged_name
    physical_tenant_component read_manifest parse_manifest manifest_payload validate_name
    require_lock is_safe choose
old_gone = refl

active_collections_spared_example :
    contains two after_retention.collections ≡ contains two store.collections
active_collections_spared_example =
    active_collections_spared (λ n. true) (λ n. at_replace) digest hash "rag_docs" zoned "acme" held
      2 store both two both_read (inl refl)

prune-HasNoOrphan_example :
    HasNoOrphan three (prune (λ n. true) (λ n. at_replace) (old ∷ one ∷ []) three [] store).1
prune-HasNoOrphan_example =
    prune-HasNoOrphan (λ n. true) (λ n. at_replace) (old ∷ one ∷ []) three [] store refl

versioned_two : validate_versioned digest hash "rag_docs" zoned "acme" two ≡ ok two
unfolding validate_versioned staged_name physical_tenant_component is_safe
versioned_two = refl

no_inventory : read_inventory digest hash "rag_docs" zoned "acme" absent ≡ ok none
unfolding read_inventory
no_inventory = refl

abbrev empty_disk : Disk Document
empty_disk = record { file = absent; temporary = none }

record_collection-IsInventory_example :
    Records digest hash "rag_docs" zoned "acme" held noon evening at_commit two empty_disk none
record_collection-IsInventory_example =
    record_collection-IsInventory digest hash "rag_docs" zoned "acme" held noon evening at_commit
      two empty_disk none held_now versioned_two no_inventory tt refl refl

staged_name-accepted_example :
    (validate_versioned digest hash "rag_docs" zoned "acme" two ≡ ok two)
    × (validate_name two ≡ ok two)
    × (Text.length two ≤ 63)
    × (is_safe is_alnum two ≡ true)
staged_name-accepted_example =
    staged_name-accepted digest hash "rag_docs" zoned "acme" "00000000000000bb" two staged_two

versioned_one : validate_versioned digest hash "rag_docs" zoned "acme" one ≡ ok one
unfolding validate_versioned staged_name physical_tenant_component is_safe
versioned_one = refl

versioned_old : validate_versioned digest hash "rag_docs" zoned "acme" old ≡ ok old
unfolding validate_versioned staged_name physical_tenant_component is_safe
versioned_old = refl

abbrev three-IsInventory : IsInventory digest hash "rag_docs" zoned "acme" three
three-IsInventory = record {
  version_known = refl;
  bound = refl;
  ordered = (
    refl,
    versioned_old,
    refl,
    refl,
    (refl, versioned_one, refl, refl, (refl, versioned_two, refl, refl, tt)),
  );
  dated = refl;
  latest = refl;
}

parse_inventory-inventory_payload_example :
    parse_inventory digest hash "rag_docs" zoned "acme" (inventory_payload three) ≡ ok three
parse_inventory-inventory_payload_example =
    parse_inventory-inventory_payload digest hash "rag_docs" zoned "acme" three three-IsInventory
