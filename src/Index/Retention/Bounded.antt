-- ===== src/Index/Retention/Bounded.antt =====
-- The candidates for deletion of vectordb/index_retention.py, and their deletion. `deletes` says for
-- which collections the callback succeeds, `fault` at which step the write after it fails, if any.
use package.text.Mathlib.Text.{◌==◌ as str_eq}
use rag_support_assistant.Prelude.{
  ℕ, zero, suc, ◌-◌, ◌==◌, String, Bool, List, [], ◌∷◌, ◌++◌, length, Option, none, some,
  if◌then◌else◌, leb,
}
use rag_support_assistant.Index.{
  Result, ok, raise, ◌>>◌, demand, retention_corrupt, retention_invalid, deletion_failed,
  metadata_update_failed, contains,
}
use rag_support_assistant.Index.Lock.{LockToken, require_lock}
use rag_support_assistant.Index.Files.{Stored, Disk, Fault, atomic_write}
use rag_support_assistant.Index.Manifest.{Manifest, Payload, read_manifest}
use rag_support_assistant.Index.Retention.{
  Entry, Inventory, Document, inventory_payload, read_inventory, last_time, names,
}

-- the collections that are active or previous
abbrev pub protected : Manifest → List String
protected m = m.active_collection ∷ elim m.previous_collection [ none ↦ [] | some p ↦ p ∷ [] ]

-- `len(protected)`, of a set
abbrev pub protected_count : Manifest → ℕ
protected_count m = elim m.previous_collection [
  | none ↦ 1
  | some p ↦ if str_eq m.active_collection p then 1 else 2
]

abbrev pub unprotected : List String → List String → List String
unprotected kept [] = []
unprotected kept (n ∷ ns) = if contains n kept then unprotected kept ns else n ∷ unprotected kept ns

abbrev pub first : ℕ → List String → List String
first zero ns = []
first (suc k) [] = []
first (suc k) (n ∷ ns) = n ∷ first k ns

abbrev pub without : String → List String → List String
without n [] = []
without n (k ∷ ks) = if str_eq k n then without n ks else k ∷ without n ks

-- the entries of `_without_collection`
abbrev pub remaining : String → List Entry → List Entry
remaining name [] = []
remaining name (e ∷ es) =
    if str_eq e.collection_name name then remaining name es else e ∷ remaining name es

abbrev pub reindexed : ℕ → List Entry → List Entry
reindexed n [] = []
reindexed n (e ∷ es) = record e { sequence = n } ∷ reindexed (suc n) es

-- `_without_collection`
unfoldable pub without_collection : Inventory → String → Result Inventory
without_collection i name =
    let rest = remaining name i.collections in
    if length rest == length i.collections
    then raise retention_corrupt
    else ok record i {
      collections = reindexed 1 rest;
      updated_at = last_time i.updated_at (reindexed 1 rest);
    }

-- `trusted_retention_candidates`, of the inventory and the manifest that were read
abbrev pub trusted_of : Option Inventory → Option Manifest → List String
trusted_of none m = []
trusted_of (some i) none = []
trusted_of (some i) (some m) = unprotected (protected m) (names i.collections)

-- `bounded_retention_candidates`, of the inventory and the manifest that were read
unfoldable pub bounded_of : ℕ → Option Inventory → Option Manifest → List String
bounded_of max_versions none m = []
bounded_of max_versions (some i) none = []
bounded_of max_versions (some i) (some m) =
    let spare = unprotected (protected m) (names i.collections) in
    first (length spare - (max_versions - protected_count m)) spare

-- the candidates, of what reading the inventory and the manifest gave; without an inventory the
-- manifest does not matter
unfoldable pub choose :
    ℕ → Result (Option Inventory) → Result (Option Manifest) → Result (List String)
choose max_versions (raise e) m = raise e
choose max_versions (ok none) m = ok []
choose max_versions (ok (some i)) (raise e) = raise e
choose max_versions (ok (some i)) (ok m) = ok (bounded_of max_versions (some i) m)

-- the files of a tenant's index, and the collections that the vector store has
pub record Store : Type 0 where
  pub inventory : Disk Document
  pub manifest : Stored Payload
  pub collections : List String

module _ (deletes : String → Bool) (fault : String → Fault) where
  -- the loop of `execute_bounded_retention`: the candidates left, the inventory, those deleted so
  -- far, and the store
  unfoldable pub prune :
      List String → Inventory → List String → Store → Result (List String) × Store
  unfolding without_collection atomic_write
  prune [] i deleted s = (ok deleted, s)
  prune (c ∷ cs) i deleted s =
      let gone = record s { collections = without c s.collections } in
      let lost = raise (metadata_update_failed c (deleted ++ c ∷ [])) in
      if deletes c
      then elim (without_collection i c) [
        | raise e ↦ (lost, gone)
        | ok left ↦
            let written = atomic_write (fault c) (inventory_payload left) s.inventory in
            let next = record gone { inventory = written.1 } in
            let rest = prune cs left (deleted ++ c ∷ []) next in
            elim written.0 [ raise e ↦ (lost, next) | ok _ ↦ rest ]
      ]
      else (raise (deletion_failed c deleted), s)

  -- the deletion of the candidates, once there are any, with the inventory that is read again
  abbrev pub prune_read :
      List String → Store → Result (Option Inventory) → Result (List String) × Store
  prune_read [] s again = (ok [], s)
  prune_read (c ∷ cs) s (raise e) = (raise e, s)
  prune_read (c ∷ cs) s (ok none) = (raise retention_corrupt, s)
  prune_read (c ∷ cs) s (ok (some i)) = prune (c ∷ cs) i [] s

  module _ (digest hash : String → String) (prefix : String) (zoned : String → Bool)
      (tenant_id : String) where
    -- `bounded_retention_candidates`
    unfoldable pub bounded_candidates : ℕ → Store → Result (List String)
    unfolding bounded_of
    bounded_candidates max_versions s =
        demand (leb 2 max_versions) retention_invalid
        >> choose max_versions (read_inventory digest hash prefix zoned tenant_id s.inventory.file)
            (read_manifest zoned s.manifest)

    -- `execute_bounded_retention`
    unfoldable pub execute_retention : Option LockToken → ℕ → Store → Result (List String) × Store
    unfolding bounded_candidates prune
    execute_retention token max_versions s =
        elim (require_lock token tenant_id >> bounded_candidates max_versions s) [
          | raise e ↦ (raise e, s)
          | ok candidates ↦
              prune_read candidates s
                (read_inventory digest hash prefix zoned tenant_id s.inventory.file)
        ]
