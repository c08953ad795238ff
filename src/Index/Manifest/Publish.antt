-- ===== src/Index/Manifest/Publish.antt =====
-- vectordb/index_manifest.py: what a publication leaves on the disk, and what is read after it.
use package.text.Mathlib.Text.{◌==◌ as str_eq}
use rag_support_assistant.Prelude.{
  ℕ, zero, suc, ◌≤◌, ◌≡◌, refl, inl, inr, String, Bool, true, Bool-cases, Option, none, some,
  if◌then◌else◌, arith,
}
use rag_support_assistant.Index.{Result, ok, raise, IndexError}
use rag_support_assistant.Index.Lock.{LockToken, require_lock}
use rag_support_assistant.Index.Names.{validate_name}
use rag_support_assistant.Index.Files.{
  Stored, decoded, Disk, Fault, no_fault, at_directory, at_temporary, at_writing, at_commit,
  at_replace,
}
use rag_support_assistant.Index.Manifest.{
  Manifest, schema, Payload, manifest_payload, parse_manifest, read_manifest, resolve_active,
  succeed, active_or_legacy, next_generation, prepare, commit, publish,
}

abbrev pub IsName : String → Type 0
IsName s = validate_name s ≡ ok s

abbrev pub IsOptionalName : Option String → Type 0
IsOptionalName none = Unit
IsOptionalName (some s) = IsName s

-- what a trusted manifest promises
pub record IsTrusted (zoned : String → Bool) (m : Manifest) : Type 0 where
  pub version_known : m.schema_version ≡ schema
  pub active_named : IsName m.active_collection
  pub previous_named : IsOptionalName m.previous_collection
  pub counted : 1 ≤ m.generation
  pub dated : zoned m.updated_at ≡ true

module _ (zoned : String → Bool) where
  parse_fields :
      (v : ℕ) (a : String) (b : Option String) (g : ℕ) (t : String)
      → IsTrusted zoned (record {
        schema_version = v;
        active_collection = a;
        previous_collection = b;
        generation = g;
        updated_at = t;
      })
      → parse_manifest zoned (
          manifest_payload (record {
            schema_version = v;
            active_collection = a;
            previous_collection = b;
            generation = g;
            updated_at = t;
          }))
        ≡ ok (record {
          schema_version = v;
          active_collection = a;
          previous_collection = b;
          generation = g;
          updated_at = t;
        })
  unfolding parse_manifest manifest_payload
  parse_fields v a b zero t h = let none_yet : 1 ≤ zero = h.counted in ground arith
  parse_fields v a none (suc g) t h = rw (h.version_known, h.active_named, h.dated) refl
  parse_fields v a (some s) (suc g) t h =
      rw (h.version_known, h.previous_named, h.active_named, h.dated) refl

  -- A manifest with the known schema version, safe names, a generation of at least 1 and a time with
  -- a zone is read back, from the document that is written for it, as itself.
  pub parse_manifest-manifest_payload :
      (m : Manifest) → IsTrusted zoned m → parse_manifest zoned (manifest_payload m) ≡ ok m
  parse_manifest-manifest_payload m h =
      parse_fields m.schema_version m.active_collection m.previous_collection m.generation
        m.updated_at h

module _ (zoned : String → Bool) (digest : String → String) (prefix tenant_id : String) where
  next_generation_positive :
      (current : Option Manifest) → 1 ≤ next_generation zoned digest prefix tenant_id current
  next_generation_positive none = omega arith
  next_generation_positive (some m) = omega arith

  -- the manifest that replaces a trusted collection is trusted
  succeed-IsTrusted :
      (now active before : String) (current : Option Manifest)
      → IsName before
      → IsName active
      → zoned now ≡ true
      → IsTrusted zoned (succeed zoned digest prefix tenant_id now active current before)
  succeed-IsTrusted now active before current safe good dated = record {
    version_known = refl;
    active_named = good;
    previous_named = elim (Bool-cases (str_eq before active)) [
      | inl e ↦ rw (e) tt
      | inr e ↦ rw (e) safe
    ];
    counted = next_generation_positive current;
    dated = dated;
  }

  -- the steps of a publication that succeeds, up to its write
  pub prepare_lem :
      (token : Option LockToken) (now collection before : String) (current : Option Manifest)
      (file : Stored Payload)
      → require_lock token tenant_id ≡ ok tt
      → validate_name collection ≡ ok collection
      → read_manifest zoned file ≡ ok current
      → active_or_legacy zoned digest prefix tenant_id current ≡ ok before
      → prepare zoned digest prefix tenant_id token now collection file
        ≡ ok (succeed zoned digest prefix tenant_id now collection current before)
  unfolding prepare
  prepare_lem token now collection before current file held good reads replaces =
      rw (held, good, reads, replaces) refl

  pub read_back :
      (m : Manifest)
      → IsTrusted zoned m
      → read_manifest zoned (decoded (manifest_payload m)) ≡ ok (some m)
  unfolding read_manifest
  read_back m h = rw (parse_manifest-manifest_payload zoned m h) refl

  resolve_back :
      (m : Manifest)
      → IsTrusted zoned m
      → resolve_active zoned digest prefix tenant_id (decoded (manifest_payload m))
        ≡ ok m.active_collection
  unfolding resolve_active
  resolve_back m h = rw (read_back m h) refl

  abbrev pub Activates :
      Option LockToken → String → String → String → Option Manifest → Disk Payload → Type 0
  Activates token now collection before current d =
      (m : Manifest) × (after : Disk Payload) × (publish zoned digest prefix tenant_id token now
          no_fault collection d
        ≡ (ok m, after))
      × (read_manifest zoned after.file ≡ ok (some m))
      × (resolve_active zoned digest prefix tenant_id after.file ≡ ok collection)
      × (after.temporary ≡ none)
      × (m.active_collection ≡ collection)
      × (m.previous_collection ≡ (if str_eq before collection then none else some before))
      × (m.generation ≡ next_generation zoned digest prefix tenant_id current)

  -- Under the lock, publishing a safe name beside a readable manifest file succeeds where no write
  -- fails, if the collection that is replaced has a safe name. The manifest that is read
  -- afterwards is the one that was returned: its active collection is the published one, its
  -- previous one is the replaced one unless they are the same, its generation is the next one. The
  -- active collection then resolves to the published name, and no temporary file is left.
  pub publish-Activates :
      (token : Option LockToken) (now collection before : String)
      → (current : Option Manifest) (d : Disk Payload) → require_lock token tenant_id ≡ ok tt
      → IsName collection
      → read_manifest zoned d.file ≡ ok current
      → active_or_legacy zoned digest prefix tenant_id current ≡ ok before
      → IsName before
      → zoned now ≡ true
      → Activates token now collection before current d
  unfolding publish
  publish-Activates token now collection before current d held good reads replaces safe dated =
      let m = succeed zoned digest prefix tenant_id now collection current before in
      let trusted = succeed-IsTrusted now collection before current safe good dated in
      (
        m,
        record { file = decoded (manifest_payload m); temporary = none },
        rw (prepare_lem token now collection before current d.file held good reads replaces) refl,
        read_back m trusted,
        resolve_back m trusted,
        refl,
        refl,
        refl,
        refl,
      )

  commit_failure :
      (fault : Fault) (d : Disk Payload) (r : Result Manifest) (e : IndexError)
      → d.temporary ≡ none
      → (commit zoned digest prefix tenant_id fault d r).0 ≡ raise e
      → (commit zoned digest prefix tenant_id fault d r).1 ≡ d
  unfolding commit
  commit_failure fault d (raise x) e clean fails = refl
  commit_failure no_fault d (ok m) e clean fails = ground arith
  commit_failure at_directory d (ok m) e clean fails = refl
  commit_failure at_temporary d (ok m) e clean fails = refl
  commit_failure at_writing d (ok m) e clean fails = rw (clean) refl
  commit_failure at_commit d (ok m) e clean fails = rw (clean) refl
  commit_failure at_replace d (ok m) e clean fails = rw (clean) refl

  -- A publication that fails, in its checks or at any step of its write, leaves the manifest file
  -- as it was and no temporary file.
  pub publish_failure :
      (token : Option LockToken) (now collection : String) (fault : Fault) (d : Disk Payload)
      (e : IndexError)
      → d.temporary ≡ none
      → (publish zoned digest prefix tenant_id token now fault collection d).0 ≡ raise e
      → (publish zoned digest prefix tenant_id token now fault collection d).1 ≡ d
  unfolding publish
  publish_failure token now collection fault d e clean fails =
      commit_failure fault d (prepare zoned digest prefix tenant_id token now collection d.file) e
        clean fails
