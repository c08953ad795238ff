-- ===== src/Index/Staging.antt =====
-- vectordb/index_staging.py: the building of a candidate collection that is not active yet, its
-- validation and its removal. `Chroma` says what the vector store and the embeddings answer; `digest`
-- is as in Names.
pub mod Leftovers
mod Tests
use package.text.Mathlib.Text.{◌==◌ as str_eq}
use rag_support_assistant.Prelude.{
  ℕ, zero, suc, ◌==◌, String, Bool, true, false, not, List, [], ◌∷◌, length, Option, none, some,
  if◌then◌else◌,
}
use rag_support_assistant.Text
use rag_support_assistant.Index.{
  Result, ok, raise, ◌>>=◌, ◌>>◌, demand, IndexError, staging_invalid, staging_build_failed,
  staging_cleanup_failed, lifecycle_fault, interrupted, contains,
}
use rag_support_assistant.Index.Lock.{LockToken, require_lock}
use rag_support_assistant.Index.Names.{staged_name}
use rag_support_assistant.Index.Retention.Bounded.{without}

-- an exception of a call: an `Exception`, or another `BaseException`
pub data Raised : Type 0 where
  error interrupt : Raised

-- `from_documents`: the collection is made, or an exception comes, before or after it was made
pub data Creation : Type 0 where
  made : Creation
  stopped : Raised → Bool → Creation

-- how the removal of a candidate ends: done, refused by the store, an injected fault, or interrupted
pub data Removal : Type 0 where
  deletes fails injected stops : Removal

-- what a build meets: the creation, the exception of `persist`; whether the store has the calls for the
-- count and the query, the count, the injected fault after it; the length of the vector that the
-- embeddings give, whether the query with it works; the removal after a failure. `none` is a call
-- that raises an `Exception`.
pub record Chroma : Type 0 where
  pub creation : Creation
  pub persist_error : Option Raised
  pub has_probes : Bool
  pub count : Option ℕ
  pub embeddings_fault : Bool
  pub has_embed_query : Bool
  pub probe : Option ℕ
  pub query_works : Bool
  pub removal : Removal

-- `StagedIndexCandidate`, without the store
pub record Candidate : Type 0 where
  pub collection_name : String
  pub chunk_count : ℕ
  pub embedding_dimension : ℕ

-- the dimension of the probe, which must not be empty
abbrev pub dimension : Option ℕ → Result ℕ
dimension none = raise staging_invalid
dimension (some zero) = raise staging_invalid
dimension (some (suc n)) = ok (suc n)

abbrev pub counted : ℕ → Option ℕ → Result ℕ
counted expected none = raise staging_invalid
counted expected (some n) = if n == expected then ok n else raise staging_invalid

-- `_validate_candidate`: the count and the dimension
unfoldable pub validate_candidate : Chroma → ℕ → Result (ℕ × ℕ)
validate_candidate c expected =
    demand c.has_probes staging_invalid
    >> (counted expected c.count >>= λ n.
        demand (not c.embeddings_fault) lifecycle_fault
        >> (demand c.has_embed_query staging_invalid
            >> (dimension c.probe >>= λ d. demand c.query_works staging_invalid >> ok (n, d))))

-- `_cleanup_candidate`, on the collections of the store
unfoldable pub cleanup_candidate : Removal → String → List String → Result (Unit {0}) × List String
cleanup_candidate deletes name cs = (ok tt, without name cs)
cleanup_candidate fails name cs = (raise staging_cleanup_failed, cs)
cleanup_candidate injected name cs = (raise lifecycle_fault, cs)
cleanup_candidate stops name cs = (raise interrupted, cs)

-- the error that a build raises for an exception of the store
abbrev pub as_build_error : Raised → IndexError
as_build_error error = staging_build_failed
as_build_error interrupt = interrupted

-- the validation after the collection was made and kept by `persist`
abbrev pub validated : Chroma → ℕ → Option Raised → Result (ℕ × ℕ)
validated c expected none = validate_candidate c expected
validated c expected (some x) = raise (as_build_error x)

-- the `try` of a build: what it gives, and the collections at its end
unfoldable pub try_build : Chroma → String → ℕ → List String → Result (ℕ × ℕ) × List String
unfolding validate_candidate
try_build c name expected cs = elim c.creation [
  | made ↦ (validated c expected c.persist_error, name ∷ cs)
  | stopped x leaves ↦ (raise (as_build_error x), if leaves then name ∷ cs else cs)
]

-- its `except`: the candidate is removed, and the exception of the build raised again, or that of the
-- removal
unfoldable pub finish_build :
    Removal → String → Result (ℕ × ℕ) × List String → Result Candidate × List String
unfolding cleanup_candidate
finish_build r name (ok (n, d), cs) =
    (ok record { collection_name = name; chunk_count = n; embedding_dimension = d }, cs)
finish_build r name (raise e, cs) =
    let (removed, left) = cleanup_candidate r name cs in (removed >> raise e, left)

module _ (digest : String → String) (prefix tenant_id : String) where
  -- the name of the candidate, once the lock is held and there are documents
  abbrev pub candidate_name : Option LockToken → String → List String → Result String
  candidate_name token candidate_id [] = require_lock token tenant_id >> raise staging_invalid
  candidate_name token candidate_id (d ∷ ds) =
      require_lock token tenant_id >> staged_name digest prefix tenant_id candidate_id

  abbrev pub build_named :
      Chroma → List String → List String → Result String → Result Candidate × List String
  build_named c documents cs (raise e) = (raise e, cs)
  build_named c documents cs (ok name) =
      finish_build c.removal name (try_build c name (length documents) cs)

  -- `build_staged_collection`, on the collections of the store; the identifier is given or drawn
  unfoldable pub build_staged_collection :
      Chroma
      → Option LockToken
      → String
      → List String
      → List String
      → Result Candidate × List String
  unfolding finish_build try_build
  build_staged_collection c token candidate_id documents cs =
      build_named c documents cs (candidate_name token candidate_id documents)

  -- `discard_staged_collection`
  abbrev pub discard_named :
      Removal → String → List String → Result (Unit {0}) → Result (Unit {0}) × List String
  discard_named r name cs (raise e) = (raise e, cs)
  discard_named r name cs (ok _) = cleanup_candidate r name cs

  unfoldable pub discard_staged_collection :
      Removal → Option LockToken → String → List String → Result (Unit {0}) × List String
  unfolding cleanup_candidate
  discard_staged_collection r token name cs = discard_named r name cs (require_lock token tenant_id)

  -- the contents that are not blank
  abbrev pub known_contents : List String → List String
  known_contents [] = []
  known_contents (d ∷ ds) =
      if Text.is_empty (Text.strip d) then known_contents ds else d ∷ known_contents ds

  abbrev pub any_known : List String → List String → Bool
  any_known known [] = false
  any_known known (r ∷ rs) = if contains r known then true else any_known known rs

  -- the answer to the query with the first content, cut to 512 characters; `none` where it raises
  abbrev pub known_answer : List String → Option (List String) → Result (Unit {0})
  known_answer known none = raise staging_invalid
  known_answer known (some []) = raise staging_invalid
  known_answer known (some (r ∷ rs)) = demand (any_known known (r ∷ rs)) staging_invalid

  abbrev pub search_known : Bool → (String → Option (List String)) → List String → Result (Unit {0})
  search_known has_search search [] = raise staging_invalid
  search_known has_search search (d ∷ ds) =
      demand has_search staging_invalid
      >> known_answer (d ∷ ds) (search (Text.take_append 512 d ""))

  -- `validate_staged_known_query`, with its injected fault
  unfoldable pub validate_known_query :
      Option LockToken
      → Bool
      → Bool
      → (String → Option (List String))
      → List String
      → Result (Unit {0})
  validate_known_query token fault has_search search documents =
      require_lock token tenant_id
      >> (demand (not fault) lifecycle_fault
          >> search_known has_search search (known_contents documents))

  abbrev pub existing_candidate : String → ℕ × ℕ → Candidate
  existing_candidate name (n, d) = record {
    collection_name = name;
    chunk_count = n;
    embedding_dimension = d;
  }

  -- `validate_existing_collection`
  unfoldable pub validate_existing :
      Chroma
      → Option LockToken
      → Bool
      → Bool
      → (String → Option (List String))
      → String
      → List String
      → Result Candidate
  unfolding validate_candidate validate_known_query
  validate_existing c token fault has_search search name [] =
      require_lock token tenant_id >> raise staging_invalid
  validate_existing c token fault has_search search name (d ∷ ds) =
      require_lock token tenant_id
      >> (validate_candidate c (length (d ∷ ds)) >>= λ found.
          validate_known_query token fault has_search search (d ∷ ds)
          >> ok (existing_candidate name found))
