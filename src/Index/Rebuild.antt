-- ===== src/Index/Rebuild.antt =====
-- vectordb/manager.py: a rebuild of a tenant's index in Chroma, which composes the lock, the staged
-- collection, the inventory, the manifest and the retention. Loading, splitting and the caches of the
-- process are left out.
pub mod Built
pub mod Publication
pub mod Served
mod Tests
use rag_support_assistant.Prelude.{ℕ, String, Bool, List, Option, some}
use rag_support_assistant.Index.{Result, ok, raise, ◌>>=◌, ◌>>◌}
use rag_support_assistant.Index.Lock.{canonical, LockToken}
use rag_support_assistant.Index.Files.{Disk, Fault}
use rag_support_assistant.Index.Manifest.{Manifest, Payload, publish}
use rag_support_assistant.Index.Retention.{Document, Inventory, record_collection}
use rag_support_assistant.Index.Retention.Bounded.{Store, execute_retention}
use rag_support_assistant.Index.Staging.{
  Chroma, Candidate, Removal, build_staged_collection, discard_staged_collection,
  validate_known_query,
}
use rag_support_assistant.Index.Operator.{Locking, under_lock}

-- the files of a tenant's index and the collections in the vector store
pub record IndexState : Type 0 where
  pub inventory : Disk Document
  pub manifest : Disk Payload
  pub collections : List String

-- what a rebuild meets: the build, the query with known content, the two writes with their times, the
-- removal of a candidate that was not published, and the retention
pub record Chance : Type 0 where
  pub build : Chroma
  pub candidate_id : String
  pub query_fault : Bool
  pub has_search : Bool
  pub search : String → Option (List String)
  pub recorded_at : String
  pub record_fault : Fault
  pub published_at : String
  pub publish_fault : Fault
  pub discard : Removal
  pub deletes : String → Bool
  pub prune_fault : String → Fault

abbrev pub store_of : IndexState → Store
store_of s = record {
  inventory = s.inventory;
  manifest = s.manifest.file;
  collections = s.collections;
}

module _ (digest hash : String → String) (prefix : String) (zoned : String → Bool)
    (tenant_id : String) (max_versions : ℕ) (c : Chance) where
  -- the publication, after the candidate was recorded
  unfoldable pub publish_recorded :
      LockToken
      → String
      → IndexState
      → Result Inventory × Disk Document
      → Result Manifest × IndexState
  publish_recorded token name s (raise e, inventory) = (raise e, record s { inventory = inventory })
  publish_recorded token name s (ok i, inventory) =
      let (published, manifest) =
        publish zoned digest prefix tenant_id (some token) c.published_at c.publish_fault name
          s.manifest in
      (published, record s { inventory = inventory; manifest = manifest })

  -- the recording, after the query with known content
  unfoldable pub record_checked :
      LockToken → String → IndexState → Result (Unit {0}) → Result Manifest × IndexState
  unfolding publish_recorded
  record_checked token name s (raise e) = (raise e, s)
  record_checked token name s (ok _) = publish_recorded token name s (
      record_collection digest hash prefix zoned tenant_id (some token) c.recorded_at c.record_fault
        name s.inventory)

  -- the `except` around these: the candidate is discarded
  unfoldable pub discard_failed :
      LockToken → String → Result Manifest × IndexState → Result Manifest × IndexState
  discard_failed token name (ok m, s) = (ok m, s)
  discard_failed token name (raise e, s) =
      let (done, left) =
        discard_staged_collection digest prefix tenant_id c.discard (some token) name
          s.collections in
      (done >> raise e, record s { collections = left })

  -- the retention, after a publication
  unfoldable pub retain : LockToken → Result Manifest × IndexState → Result Manifest × IndexState
  retain token (raise e, s) = (raise e, s)
  retain token (ok m, s) =
      let run =
        execute_retention c.deletes c.prune_fault digest hash prefix zoned tenant_id (some token)
          max_versions (store_of s) in
      (
        run.0 >>= λ deleted. ok m,
        record s { inventory = run.1.inventory; collections = run.1.collections },
      )

  -- the rebuild under the lock, by the end of the build of the candidate
  unfoldable pub publish_candidate :
      LockToken
      → List String
      → IndexState
      → Result Candidate × List String
      → Result Manifest × IndexState
  unfolding record_checked discard_failed retain
  publish_candidate token chunks s (raise e, cs) = (raise e, record s { collections = cs })
  publish_candidate token chunks s (ok a, cs) =
      let built = record s { collections = cs } in
      retain token (
        discard_failed token a.collection_name (
          record_checked token a.collection_name built (
            validate_known_query digest prefix tenant_id (some token) c.query_fault c.has_search
              c.search chunks)))

  unfoldable pub rebuild_held : LockToken → List String → IndexState → Result Manifest × IndexState
  unfolding publish_candidate
  rebuild_held token chunks s = publish_candidate token chunks s (
      build_staged_collection digest prefix tenant_id c.build (some token) c.candidate_id chunks
        s.collections)

  -- the part of `_build_vector_store_result` under the lock, with the chunks' contents
  unfoldable pub rebuild : Locking → List String → IndexState → Result Manifest × IndexState
  unfolding rebuild_held under_lock
  rebuild l chunks s = under_lock l tenant_id (λ token. rebuild_held token chunks s) s
