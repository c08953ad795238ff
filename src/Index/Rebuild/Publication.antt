-- ===== src/Index/Rebuild/Publication.antt =====
-- vectordb/manager.py: what a publication makes active, and which collections the store must keep.
use package.text.Mathlib.Text.{◌==◌ as str_eq}
use rag_support_assistant.Prelude.{
  ℕ, ◌≡◌, refl, sym, ap, ◌∙◌, inl, inr, String, Bool, true, false, Bool-cases, List, Option, none,
  some, arith, eq_iff,
}
use rag_support_assistant.Index.{Result, ok, raise, ◌>>=◌, ◌>>◌, contains, text, write_failed}
use rag_support_assistant.Index.Lock.{LockToken, require_lock}
use rag_support_assistant.Index.Names.{validate_name}
use rag_support_assistant.Index.Files.{
  Stored, decoded, Disk, Fault, no_fault, at_directory, at_temporary, at_writing, at_commit,
  at_replace,
}
use rag_support_assistant.Index.Manifest.{
  Manifest, Payload, manifest_payload, parse_manifest, read_manifest, as_name, assemble, prepare,
  commit, publish, next_manifest, active_or_legacy, succeed,
}
use rag_support_assistant.Index.Manifest.Trust.{bind-ok, corrupt_lem}
use rag_support_assistant.Index.Retention.Bounded.{without}
use rag_support_assistant.Index.Retention.Spared.{then_ok}

-- the active collection of the manifest that was read, if any, is in the store
abbrev pub Served : Result (Option Manifest) → List String → Type 0
Served (ok (some m)) cs = contains m.active_collection cs ≡ true
Served (ok none) cs = Unit
Served (raise e) cs = Unit

-- the manifest that was read, if any, has the active collection
abbrev ActiveIs : String → Result (Option Manifest) → Type 0
ActiveIs name (ok (some m)) = m.active_collection ≡ name
ActiveIs name (ok none) = Unit
ActiveIs name (raise e) = Unit

pub Served-keep :
    (r : Result (Option Manifest)) (cs ds : List String)
    → Served r cs
    → ((m : Manifest)
        → r ≡ ok (some m)
        → contains m.active_collection cs ≡ true
        → contains m.active_collection ds ≡ true)
    → Served r ds
Served-keep (ok (some m)) cs ds h keep = keep m refl h
Served-keep (ok none) cs ds h keep = tt
Served-keep (raise e) cs ds h keep = tt

pub ActiveIs-Served :
    (name : String) (r : Result (Option Manifest)) (cs : List String)
    → ActiveIs name r
    → contains name cs ≡ true
    → Served r cs
ActiveIs-Served name (ok (some m)) cs h there = ap (λ n. contains n cs) h ∙ there
ActiveIs-Served name (ok none) cs h there = tt
ActiveIs-Served name (raise e) cs h there = tt

-- a name that is not in the store is none that is
pub apart :
    (name other : String) (cs : List String)
    → contains name cs ≡ false
    → contains other cs ≡ true
    → str_eq name other ≡ false
apart name other cs fresh there = elim (Bool-cases (str_eq name other)) [
  | inr e ↦ e
  | inl e ↦
      let same : contains name cs ≡ true =
        ap (λ n. contains n cs) ((eq_iff name other).0 e) ∙ there in
      ground arith
]

module _ (zoned : String → Bool) where
  assembled-ActiveIs :
      (version generation : Result ℕ) (previous : Result (Option String))
      (active time : Result String) (name : String)
      → ((x : String) → active ≡ ok x → x ≡ name)
      → ActiveIs name (assemble zoned version generation previous active time >>= λ m. ok (some m))
  assembled-ActiveIs (ok v) (ok g) (ok b) (ok a) (ok t) name h = h a refl
  assembled-ActiveIs (raise e) g b a t name h = tt
  assembled-ActiveIs (ok v) (raise e) b a t name h = tt
  assembled-ActiveIs (ok v) (ok g) (raise e) a t name h = tt
  assembled-ActiveIs (ok v) (ok g) (ok b) (raise e) t name h = tt
  assembled-ActiveIs (ok v) (ok g) (ok b) (ok a) (raise e) name h = tt

validate_name_same : (name active : String) → validate_name name ≡ ok active → active ≡ name
unfolding validate_name
validate_name_same name active h = ground arith

as_name_same : (name active : String) → as_name (text name) ≡ ok active → active ≡ name
as_name_same name active h =
    validate_name_same name active (corrupt_lem (validate_name name) active h)

require_name :
    (name : String) (r : Result (Unit {0})) (f : String → Result Manifest) (m : Manifest)
    → (r >> (validate_name name >>= f)) ≡ ok m
    → (active : String) × (validate_name name ≡ ok active) × (f active ≡ ok m)
require_name name r f m h = bind-ok (validate_name name) f m (then_ok r _ m h)

module _ (zoned : String → Bool) where
  payload_active :
      (m : Manifest)
      → ActiveIs m.active_collection (read_manifest zoned (decoded (manifest_payload m)))
  unfolding read_manifest parse_manifest manifest_payload
  payload_active m =
      assembled-ActiveIs zoned _ _ _ (as_name (text m.active_collection)) _ m.active_collection
        (λ x h. as_name_same m.active_collection x h)

  next_active :
      (digest : String → String) (prefix tenant_id now active : String)
      (r : Result (Option Manifest)) (m : Manifest)
      → (r >>= next_manifest zoned digest prefix tenant_id now active) ≡ ok m
      → m.active_collection ≡ active
  unfolding next_manifest
  next_active digest prefix tenant_id now active r m h =
      let (current, reads, next) = bind-ok r _ m h in
      let (before, replaces, done) =
        bind-ok (active_or_legacy zoned digest prefix tenant_id current) _ m next in
      let same : succeed zoned digest prefix tenant_id now active current before ≡ m =
        ground arith in
      ap (λ x. x.active_collection) (sym same)

  prepare_active :
      (digest : String → String) (prefix tenant_id : String) (token : Option LockToken)
      (now name : String) (file : Stored Payload) (m : Manifest)
      → prepare zoned digest prefix tenant_id token now name file ≡ ok m
      → m.active_collection ≡ name
  unfolding prepare
  prepare_active digest prefix tenant_id token now name file m h =
      let (active, good, rest) = require_name name (require_lock token tenant_id) _ m h in
      next_active digest prefix tenant_id now active (read_manifest zoned file) m rest
      ∙ validate_name_same name active good

  -- what is served after a publication, and if it failed, also without its candidate
  abbrev pub Kept : String → List String → Result Manifest → Stored Payload → Type 0
  Kept name cs (ok m) file = Served (read_manifest zoned file) cs
  Kept name cs (raise e) file =
      Served (read_manifest zoned file) cs × Served (read_manifest zoned file) (without name cs)

  module _ (digest : String → String) (prefix tenant_id : String) (name : String) (cs : List String)
      (there : contains name cs ≡ true) where
    commit-Kept :
        (fault : Fault) (d : Disk Payload) (r : Result Manifest)
        → ((m : Manifest) → r ≡ ok m → m.active_collection ≡ name)
        → Kept name cs (raise write_failed) d.file
        → Kept name cs
            (commit zoned digest prefix tenant_id fault d r).0
            (commit zoned digest prefix tenant_id fault d r).1.file
    unfolding commit
    commit-Kept fault d (raise e) active before = before
    commit-Kept no_fault d (ok m) active before =
        ActiveIs-Served m.active_collection (read_manifest zoned (decoded (manifest_payload m))) cs
          (payload_active m) (ap (λ n. contains n cs) (active m refl) ∙ there)
    commit-Kept at_directory d (ok m) active before = before
    commit-Kept at_temporary d (ok m) active before = before
    commit-Kept at_writing d (ok m) active before = before
    commit-Kept at_commit d (ok m) active before = before
    commit-Kept at_replace d (ok m) active before = before

    pub publish-Kept :
        (token : Option LockToken) (now : String) (fault : Fault) (d : Disk Payload)
        → Kept name cs (raise write_failed) d.file
        → Kept name cs
            (publish zoned digest prefix tenant_id token now fault name d).0
            (publish zoned digest prefix tenant_id token now fault name d).1.file
    unfolding publish
    publish-Kept token now fault d before =
        commit-Kept fault d (prepare zoned digest prefix tenant_id token now name d.file)
          (λ m h. prepare_active digest prefix tenant_id token now name d.file m h) before
