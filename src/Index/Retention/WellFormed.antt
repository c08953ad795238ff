-- ===== src/Index/Retention/WellFormed.antt =====
-- vectordb/index_retention.py: well-formed inventories, and reading what was written.
use rag_support_assistant.Prelude.{
  ℕ, suc, ◌==◌, ◌≡◌, refl, String, Bool, true, false, List, [], ◌∷◌, map, some, arith, eq_iff,
}
use rag_support_assistant.Index.{ok, contains}
use rag_support_assistant.Index.Files.{decoded}
use rag_support_assistant.Index.Retention.{
  Entry, Inventory, entry_payload, inventory_payload, strict_items, last_time, schema, tenant_key,
  validate_versioned, parse_entries, parse_inventory, read_inventory,
}

strict_items-map : (es : List Entry) → strict_items (map entry_payload es) ≡ true
strict_items-map [] = refl
strict_items-map (e ∷ es) = strict_items-map es

module _ (digest hash : String → String) (prefix : String) (zoned : String → Bool)
    (tenant_id : String) where
  -- entries with the sequence numbers from `n` on, versioned names that are new, and times
  abbrev pub IsRecorded : ℕ → List String → List Entry → Type 0
  IsRecorded n seen [] = Unit
  IsRecorded n seen (e ∷ es) =
      (e.sequence ≡ n)
      × (validate_versioned digest hash prefix zoned tenant_id e.collection_name
          ≡ ok e.collection_name)
      × (contains e.collection_name seen ≡ false)
      × (zoned e.recorded_at ≡ true)
      × IsRecorded (suc n) (e.collection_name ∷ seen) es

  pub record IsInventory (i : Inventory) : Type 0 where
    pub version_known : i.schema_version ≡ schema
    pub bound : i.tenant_key ≡ tenant_key digest hash prefix zoned tenant_id
    pub ordered : IsRecorded 1 [] i.collections
    pub dated : zoned i.updated_at ≡ true
    pub latest : last_time i.updated_at i.collections ≡ i.updated_at

  parse_entries-map :
      (n : ℕ) (seen : List String) (es : List Entry)
      → IsRecorded n seen es
      → parse_entries digest hash prefix zoned tenant_id n seen (map entry_payload es) ≡ ok es
  parse_entries-map n seen [] h = refl
  parse_entries-map n seen (e ∷ es) (number, named, new, dated, rest) =
      let same : (n == n) ≡ true = ground arith in
      rw
        (
          number,
          same,
          named,
          new,
          dated,
          parse_entries-map (suc n) (e.collection_name ∷ seen) es rest,
        )
        refl

  -- A well-formed inventory of a tenant is read back, from the document that is written for it, as
  -- itself: entries numbered from 1, with different versioned names of the tenant, times with a
  -- zone, and the last of these as the time of the inventory.
  pub parse_inventory-inventory_payload :
      (i : Inventory)
      → IsInventory i
      → parse_inventory digest hash prefix zoned tenant_id (inventory_payload i) ≡ ok i
  unfolding parse_inventory
  parse_inventory-inventory_payload i h =
      let key_same =
        (eq_iff (tenant_key digest hash prefix zoned tenant_id)
            (tenant_key digest hash prefix zoned tenant_id)).1
          refl in
      let time_same = (eq_iff i.updated_at i.updated_at).1 refl in
      rw
        (
          h.version_known,
          h.bound,
          key_same,
          parse_entries-map 1 [] i.collections h.ordered,
          h.dated,
          h.latest,
          time_same,
        )
        refl

  pub read_back :
      (i : Inventory)
      → IsInventory i
      → read_inventory digest hash prefix zoned tenant_id (decoded (inventory_payload i))
        ≡ ok (some i)
  unfolding read_inventory
  read_back i h = rw (strict_items-map i.collections, parse_inventory-inventory_payload i h) refl
