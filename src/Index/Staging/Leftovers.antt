-- ===== src/Index/Staging/Leftovers.antt =====
-- vectordb/index_staging.py: what a build leaves in the vector store.
use package.text.Mathlib.Text.{◌==◌ as str_eq}
use rag_support_assistant.Prelude.{
  ℕ, zero, suc, ◌==◌, ◌≤◌, ◌≡◌, ◌≢◌, refl, sym, ◌∙◌, ◌⊎◌, inl, inr, String, true, false, not,
  Bool-cases, List, [], ◌∷◌, length, Option, none, some, arith, eq_iff,
}
use rag_support_assistant.Index.{
  Result, ok, raise, demand, IndexError, staging_invalid, lifecycle_fault, staging_cleanup_failed,
  interrupted, contains,
}
use rag_support_assistant.Index.Lock.{LockToken}
use rag_support_assistant.Index.Manifest.Trust.{bind-ok}
use rag_support_assistant.Index.Retention.Bounded.{without}
use rag_support_assistant.Index.Retention.Spared.{contains-without, then_ok}
use rag_support_assistant.Index.Staging.{
  Raised, Creation, made, stopped, Removal, deletes, fails, injected, stops, Chroma, Candidate,
  dimension, counted, validate_candidate, cleanup_candidate, validated, try_build, finish_build,
  candidate_name, build_staged_collection,
}

contains-without_itself : (n : String) (ks : List String) → contains n (without n ks) ≡ false
contains-without_itself n [] = refl
contains-without_itself n (k ∷ ks) = elim (Bool-cases (str_eq k n)) [
  | inl e ↦ rw (e) (contains-without_itself n ks)
  | inr e ↦ rw (e, contains, e) (contains-without_itself n ks)
]

counted_lem : (expected : ℕ) (o : Option ℕ) (n : ℕ) → counted expected o ≡ ok n → n ≡ expected
counted_lem expected none n h = ground arith
counted_lem expected (some k) n h = elim (Bool-cases (k == expected)) [
  | inl e ↦ let same : ok k ≡ ok n = rw (e) at h in ground arith
  | inr e ↦ let absurd : raise staging_invalid ≡ ok n = rw (e) at h in ground arith
]

dimension_lem : (o : Option ℕ) (d : ℕ) → dimension o ≡ ok d → 1 ≤ d
dimension_lem none d h = ground arith
dimension_lem (some zero) d h = ground arith
dimension_lem (some (suc k)) d h = ground arith

-- a candidate that passes has the expected count and a vector that is not empty
validate_candidate_lem :
    (c : Chroma) (expected n d : ℕ)
    → validate_candidate c expected ≡ ok (n, d)
    → (n ≡ expected) × (1 ≤ d)
unfolding validate_candidate
validate_candidate_lem c expected n d h =
    let counts = then_ok (demand c.has_probes staging_invalid) _ (n, d) h in
    let (k, counted_as, rest) = bind-ok (counted expected c.count) _ (n, d) counts in
    let probes =
      then_ok (demand c.has_embed_query staging_invalid) _ (n, d)
        (then_ok (demand (not c.embeddings_fault) lifecycle_fault) _ (n, d) rest) in
    let (b, measured, last) = bind-ok (dimension c.probe) _ (n, d) probes in
    let both : ◌≡◌ {A = Result (ℕ × ℕ)} (ok (k, b)) (ok (n, d)) =
      then_ok (demand c.query_works staging_invalid) (ok (k, b)) (n, d) last in
    let low = dimension_lem c.probe b measured in
    let right = counted_lem expected c.count k counted_as in
    let first : k ≡ n = ground arith in
    let second : b ≡ d = ground arith in (sym first ∙ right, omega arith)

module _ (c : Chroma) (name other : String) (expected : ℕ) (cs : List String) where
  -- how a build ends: with a candidate that has all documents, or with an error; then nothing of the
  -- name is in the store, unless the removal itself did not succeed
  abbrev pub IsTidy : Result Candidate × List String → Type 0
  IsTidy run =
      (contains other run.1 ≡ contains other cs)
      × (((a : Candidate) × (run.0 ≡ ok a)
            × (a.collection_name ≡ name)
            × (a.chunk_count ≡ expected)
            × (1 ≤ a.embedding_dimension)
            × (contains name run.1 ≡ true))
          ⊎ ((e : IndexError) × (run.0 ≡ raise e)
              × ((contains name run.1 ≡ false) ⊎ (c.removal ≢ deletes))))

  -- what a `try` leaves: other collections as they were, and the candidate where it succeeds
  abbrev HasCandidate : Result (ℕ × ℕ) → List String → Type 0
  HasCandidate (ok (n, d)) left = (n ≡ expected) × (1 ≤ d) × (contains name left ≡ true)
  HasCandidate (raise e) left = Unit

  abbrev IsTried : Result (ℕ × ℕ) × List String → Type 0
  IsTried run = (contains other run.1 ≡ contains other cs) × HasCandidate run.0 run.1

  module _ (apart : str_eq name other ≡ false) where
    added : contains other (name ∷ cs) ≡ contains other cs
    added = rw (apart) refl

    validated-IsTried :
        (p : Option Raised) (r : Result (ℕ × ℕ))
        → validated c expected p ≡ r
        → IsTried (r, name ∷ cs)
    validated-IsTried p (raise e) h = (added, tt)
    validated-IsTried none (ok (n, d)) h =
        let (count, long) = validate_candidate_lem c expected n d h in
        (added, (count, long, rw ((eq_iff name name).1 refl) refl))
    validated-IsTried (some x) (ok (n, d)) h = ground arith

    try_build-IsTried : IsTried (try_build c name expected cs)
    unfolding try_build
    try_build-IsTried = by_creation c.creation
      where
        by_creation :
            (k : Creation) → IsTried (try_build (record c { creation = k }) name expected cs)
        by_creation made = validated-IsTried c.persist_error _ refl
        by_creation (stopped x true) = (added, tt)
        by_creation (stopped x false) = (refl, tt)

    finish_build-IsTidy :
        (r : Removal) (r' : Result (ℕ × ℕ)) (left : List String)
        → c.removal ≡ r
        → IsTried (r', left)
        → IsTidy (finish_build r name (r', left))
    unfolding finish_build cleanup_candidate
    finish_build-IsTidy r (ok (n, d)) left same (kept, (count, long, there)) = (
      kept,
      inl (
        record { collection_name = name; chunk_count = n; embedding_dimension = d },
        refl,
        refl,
        count,
        long,
        there,
      ),
    )
    finish_build-IsTidy deletes (raise e) left same (kept, none_made) = (
      contains-without other name left apart ∙ kept,
      inr (e, refl, inl (contains-without_itself name left)),
    )
    finish_build-IsTidy fails (raise e) left same (kept, none_made) =
        (kept, inr (staging_cleanup_failed, refl, inr (λ h. ground arith)))
    finish_build-IsTidy injected (raise e) left same (kept, none_made) =
        (kept, inr (lifecycle_fault, refl, inr (λ h. ground arith)))
    finish_build-IsTidy stops (raise e) left same (kept, none_made) =
        (kept, inr (interrupted, refl, inr (λ h. ground arith)))

-- A build with the lock, with documents and with a good identifier leaves every collection but its
-- candidate as it was. It ends with the candidate in the store, whose count is that of the documents
-- and whose dimension is at least 1, or with an error; after an error no collection of the name is in
-- the store, whatever failed or interrupted the build, unless the removal itself did not succeed.
pub build_staged_collection-IsTidy :
    (digest : String → String) (prefix tenant_id : String) (c : Chroma) (token : Option LockToken)
    (candidate_id name other : String) (documents cs : List String)
    → candidate_name digest prefix tenant_id token candidate_id documents ≡ ok name
    → str_eq name other ≡ false
    → IsTidy c name other
        (length documents)
        cs
        (build_staged_collection digest prefix tenant_id c token candidate_id documents cs)
unfolding build_staged_collection
build_staged_collection-IsTidy digest prefix tenant_id c token candidate_id name other documents cs
      named apart =
    rw (named) (
      finish_build-IsTidy c name other (length documents) cs apart c.removal
        (try_build c name (length documents) cs).0 (try_build c name (length documents) cs).1 refl
        (try_build-IsTried c name other (length documents) cs apart))
