-- ===== src/Index/Staging/Tests.antt =====
-- Builds of a candidate for a tenant `acme`, and the theorem at these inputs.
use rag_support_assistant.Prelude.{◌≡◌, refl, String, true, false, [], ◌∷◌, Option, none, some}
use rag_support_assistant.Index.{ok, raise, staging_invalid, staging_build_failed}
use rag_support_assistant.Index.Lock.{LockToken, new_token, require_lock}
use rag_support_assistant.Index.Names.{staged_name, physical_tenant_component, is_safe}
use rag_support_assistant.Index.Staging.{
  error, made, stopped, deletes, Chroma, candidate_name, build_staged_collection,
  validate_candidate, cleanup_candidate,
}
use rag_support_assistant.Index.Staging.Leftovers.{IsTidy, build_staged_collection-IsTidy}

abbrev digest : String → String
digest s = "0123456789abcdef"

abbrev held : Option LockToken
held = some (new_token "acme")

abbrev id : String
id = "00000000000000cc"

abbrev name : String
name = "rag_docs-v-acme-00000000000000cc"

abbrev old : String
old = "rag_docs-v-acme-0000000000000000"

-- the store counts one chunk less than it was given
abbrev lossy : Chroma
lossy = record {
  creation = made;
  persist_error = none;
  has_probes = true;
  count = some 1;
  embeddings_fault = false;
  has_embed_query = true;
  probe = some 384;
  query_works = true;
  removal = deletes;
}

named : candidate_name digest "rag_docs" "acme" held id ("a" ∷ "b" ∷ []) ≡ ok name
unfolding staged_name physical_tenant_component is_safe require_lock
named = refl

removed :
    build_staged_collection digest "rag_docs" "acme" lossy held id ("a" ∷ "b" ∷ []) (old ∷ [])
    ≡ (raise staging_invalid, old ∷ [])
unfolding build_staged_collection staged_name physical_tenant_component is_safe require_lock
    validate_candidate cleanup_candidate
removed = refl

half_made :
    build_staged_collection digest "rag_docs" "acme"
      (record lossy { creation = stopped error true })
      held
      id
      ("a" ∷ [])
      (old ∷ [])
    ≡ (raise staging_build_failed, old ∷ [])
unfolding build_staged_collection staged_name physical_tenant_component is_safe require_lock
    cleanup_candidate
half_made = refl

build_staged_collection-IsTidy_example :
    IsTidy lossy name old 2
      (old ∷ [])
      (build_staged_collection digest "rag_docs" "acme" lossy held id ("a" ∷ "b" ∷ []) (old ∷ []))
build_staged_collection-IsTidy_example =
    build_staged_collection-IsTidy digest "rag_docs" "acme" lossy held id name old ("a" ∷ "b" ∷ [])
      (old ∷ []) named refl
