-- ===== src/Index/Rebuild/Served.antt =====
-- vectordb/manager.py: the active collection of an index that is rebuilt.
use rag_support_assistant.Prelude.{
  ℕ, ◌≡◌, refl, ◌∙◌, inl, String, Bool, true, false, List, length, some, arith,
}
use rag_support_assistant.Index.{Result, ok, raise, IndexError, contains, write_failed}
use rag_support_assistant.Index.Lock.{LockToken, new_token}
use rag_support_assistant.Index.Files.{Stored, Disk}
use rag_support_assistant.Index.Manifest.{Manifest, Payload, read_manifest}
use rag_support_assistant.Index.Retention.{Document, Inventory}
use rag_support_assistant.Index.Retention.Bounded.{without}
use rag_support_assistant.Index.Retention.Spared.{active_collections_spared}
use rag_support_assistant.Index.Operator.{Locking}
use rag_support_assistant.Index.Operator.Commands.{under_lock-either}
use rag_support_assistant.Index.Staging.{
  Removal, deletes, fails, injected, stops, Candidate, candidate_name, build_staged_collection,
  discard_staged_collection, discard_named, cleanup_candidate, validate_known_query,
}
use rag_support_assistant.Index.Staging.Leftovers.{build_staged_collection-IsTidy}
use rag_support_assistant.Index.Rebuild.{
  IndexState, Chance, store_of, publish_recorded, record_checked, discard_failed, retain,
  publish_candidate, rebuild_held, rebuild,
}
use rag_support_assistant.Index.Rebuild.Publication.{Served, Served-keep, apart, Kept, publish-Kept}
use rag_support_assistant.Index.Rebuild.Built.{tidy-Served}

module _ (digest hash : String → String) (prefix : String) (zoned : String → Bool)
    (tenant_id : String) (max_versions : ℕ) (c : Chance) where
  -- the active collection of the manifest in the state, if any, is in its store
  abbrev pub IsServed : IndexState → Type 0
  IsServed s = Served (read_manifest zoned s.manifest.file) s.collections

  -- a state in which the candidate is not published yet, or is served
  abbrev IsKept : String → Result Manifest × IndexState → Type 0
  IsKept name run = Kept zoned name run.1.collections run.0 run.1.manifest.file

  module _ (token : LockToken) (name : String) (s : IndexState)
      (there : contains name s.collections ≡ true)
      (before : IsKept name (raise write_failed, s)) where
    publish_recorded-IsKept :
        (r : Result Inventory × Disk Document)
        → IsKept name
            (publish_recorded digest hash prefix zoned tenant_id max_versions c token name s r)
    unfolding publish_recorded
    publish_recorded-IsKept (raise e, inventory) = before
    publish_recorded-IsKept (ok i, inventory) =
        publish-Kept zoned digest prefix tenant_id name s.collections there (some token)
          c.published_at c.publish_fault s.manifest before

    record_checked-IsKept :
        (r : Result (Unit {0}))
        → IsKept name
            (record_checked digest hash prefix zoned tenant_id max_versions c token name s r)
    unfolding record_checked
    record_checked-IsKept (raise e) = before
    record_checked-IsKept (ok u) = publish_recorded-IsKept _

  discard_named-Kept :
      (name : String) (r : Removal) (cs : List String) (file : Stored Payload)
      (q : Result (Unit {0}))
      → Kept zoned name cs (raise write_failed) file
      → Served (read_manifest zoned file) (discard_named digest prefix tenant_id r name cs q).1
  unfolding cleanup_candidate
  discard_named-Kept name r cs file (raise e) (same, apart) = same
  discard_named-Kept name deletes cs file (ok u) (same, apart) = apart
  discard_named-Kept name fails cs file (ok u) (same, apart) = same
  discard_named-Kept name injected cs file (ok u) (same, apart) = same
  discard_named-Kept name stops cs file (ok u) (same, apart) = same

  discard_failed-IsServed :
      (token : LockToken) (name : String) (run : Result Manifest × IndexState)
      → IsKept name run
      → IsServed (discard_failed digest hash prefix zoned tenant_id max_versions c token name run).1
  unfolding discard_failed discard_staged_collection
  discard_failed-IsServed token name (ok m, s) kept = kept
  discard_failed-IsServed token name (raise e, s) kept =
      discard_named-Kept name c.discard s.collections s.manifest.file _ kept

  retain-IsServed :
      (token : LockToken) (run : Result Manifest × IndexState)
      → IsServed run.1
      → IsServed (retain digest hash prefix zoned tenant_id max_versions c token run).1
  unfolding retain
  retain-IsServed token (raise e, s) served = served
  retain-IsServed token (ok p, s) served =
      Served-keep (read_manifest zoned s.manifest.file) s.collections _ served (λ m reads there.
        active_collections_spared c.deletes c.prune_fault digest hash prefix zoned tenant_id
          (some token) max_versions (store_of s) m m.active_collection reads (inl refl)
        ∙ there)

  -- the store after the build of a candidate, by what it gives
  publish_candidate-IsServed :
      (token : LockToken) (chunks : List String) (s : IndexState) (r : Result Candidate)
      (cs : List String)
      → Served (read_manifest zoned s.manifest.file) cs
      → ((a : Candidate)
          → r ≡ ok a
          → (contains a.collection_name cs ≡ true)
            × Served (read_manifest zoned s.manifest.file) (without a.collection_name cs))
      → IsServed
          (publish_candidate digest hash prefix zoned tenant_id max_versions c token chunks s
            (r, cs)).1
  unfolding publish_candidate
  publish_candidate-IsServed token chunks s (raise e) cs served made = served
  publish_candidate-IsServed token chunks s (ok a) cs served made =
      let (there, spared) = made a refl in
      let name = a.collection_name in
      let built = record s { collections = cs } in
      let known =
        validate_known_query digest prefix tenant_id (some token) c.query_fault c.has_search
          c.search chunks in
      let checked =
        record_checked digest hash prefix zoned tenant_id max_versions c token name built known in
      let finished =
        discard_failed digest hash prefix zoned tenant_id max_versions c token name checked in
      retain-IsServed token finished (
        discard_failed-IsServed token name checked
          (record_checked-IsKept token name built there (served, spared) known))

  abbrev pub new_name : List String → Result String
  new_name chunks =
      candidate_name digest prefix tenant_id (some (new_token tenant_id)) c.candidate_id chunks

  unnamed :
      (chunks cs : List String) (e : IndexError)
      → new_name chunks ≡ raise e
      → build_staged_collection digest prefix tenant_id c.build
          (some (new_token tenant_id))
          c.candidate_id
          chunks
          cs
        ≡ (raise e, cs)
  unfolding build_staged_collection
  unnamed chunks cs e named = rw (named) refl

  rebuild_held-IsServed :
      (chunks : List String) (s : IndexState) (r : Result String)
      → new_name chunks ≡ r
      → ((name : String) → r ≡ ok name → contains name s.collections ≡ false)
      → IsServed s
      → IsServed
          (rebuild_held digest hash prefix zoned tenant_id max_versions c
            (new_token tenant_id)
            chunks
            s).1
  unfolding rebuild_held
  rebuild_held-IsServed chunks s (raise e) named fresh served =
      rw (unnamed chunks s.collections e named) (
        publish_candidate-IsServed (new_token tenant_id) chunks s (raise e) s.collections served
          (λ a h. ground arith))
  rebuild_held-IsServed chunks s (ok name) named fresh served =
      let run =
        build_staged_collection digest prefix tenant_id c.build (some (new_token tenant_id))
          c.candidate_id chunks s.collections in
      let (after, made) =
        tidy-Served c.build name (length chunks) s.collections run.1 run.0
          (read_manifest zoned s.manifest.file) (fresh name refl) served
          (λ other differs.
            build_staged_collection-IsTidy digest prefix tenant_id c.build
              (some (new_token tenant_id)) c.candidate_id name other chunks s.collections named
              differs) in
      publish_candidate-IsServed (new_token tenant_id) chunks s run.0 run.1 after made

  -- A rebuild whose candidate gets a name that the store does not have yet leaves the active
  -- collection of the tenant's manifest in the store if it was there before: whatever fails or
  -- interrupts the build, the query, the record, the publication, the removal or the retention, and
  -- whether the lock is got or not, the manifest that is read afterwards names a collection that is
  -- there.
  pub rebuild-IsServed :
      (l : Locking) (chunks : List String) (s : IndexState)
      → ((name : String) → new_name chunks ≡ ok name → contains name s.collections ≡ false)
      → IsServed s
      → IsServed (rebuild digest hash prefix zoned tenant_id max_versions c l chunks s).1
  unfolding rebuild
  rebuild-IsServed l chunks s fresh served =
      under_lock-either IsServed l tenant_id
        (λ token. rebuild_held digest hash prefix zoned tenant_id max_versions c token chunks s) s
        served (rebuild_held-IsServed chunks s (new_name chunks) refl fresh served)
