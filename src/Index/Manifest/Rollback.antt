-- ===== src/Index/Manifest/Rollback.antt =====
-- vectordb/index_manifest.py: what a rollback restores.
use package.text.Mathlib.Text.{◌==◌ as str_eq}
use rag_support_assistant.Prelude.{
  ◌+◌, ◌≡◌, ◌≢◌, refl, ap, sym, ◌∙◌, inl, inr, String, Bool, true, false, Bool-cases, Option, some,
  arith, eq_iff,
}
use rag_support_assistant.Index.{ok}
use rag_support_assistant.Index.Lock.{LockToken, require_lock}
use rag_support_assistant.Index.Files.{Stored, Disk, Fault, no_fault}
use rag_support_assistant.Index.Manifest.{
  Manifest, Payload, read_manifest, rollback_target, rollback, publish,
}
use rag_support_assistant.Index.Manifest.Publish.{IsName, publish-Activates}
use rag_support_assistant.Index.Manifest.Trust.{read_manifest-IsTrusted}

str_eq-false : (s t : String) → s ≢ t → str_eq s t ≡ false
str_eq-false s t differs = elim (Bool-cases (str_eq s t)) [
  | inl e ↦ elim (differs ((eq_iff s t).0 e)) [ ]
  | inr e ↦ e
]

module _ (zoned : String → Bool) (digest : String → String) (prefix tenant_id : String) where
  -- what a rollback of a manifest that has another previous collection leaves
  abbrev pub RollsBack : Option LockToken → String → Disk Payload → Manifest → String → Type 0
  RollsBack token now d m before =
      (m' : Manifest) × (after : Disk Payload) × (rollback zoned digest prefix tenant_id token now
          no_fault d
        ≡ (ok m', after))
      × (read_manifest zoned after.file ≡ ok (some m'))
      × (m'.active_collection ≡ before)
      × (m'.previous_collection ≡ some m.active_collection)
      × (m'.generation ≡ m.generation + 1)

  pub rollback_target_lem :
      (token : Option LockToken) (before : String) (m : Manifest) (file : Stored Payload)
      → require_lock token tenant_id ≡ ok tt
      → read_manifest zoned file ≡ ok (some m)
      → m.previous_collection ≡ some before
      → rollback_target zoned digest prefix tenant_id token file ≡ ok before
  unfolding rollback_target
  rollback_target_lem token before m file held reads has = rw (held, reads, has) refl

  pub rollback_lem :
      (token : Option LockToken) (now before : String) (fault : Fault) (d : Disk Payload)
      → rollback_target zoned digest prefix tenant_id token d.file ≡ ok before
      → rollback zoned digest prefix tenant_id token now fault d
        ≡ publish zoned digest prefix tenant_id token now fault before d
  unfolding rollback
  rollback_lem token now before fault d target = rw (target, rollback) refl

  rollback_swaps :
      (token : Option LockToken) (now before : String) (m : Manifest) (d : Disk Payload)
      → require_lock token tenant_id ≡ ok tt
      → read_manifest zoned d.file ≡ ok (some m)
      → m.previous_collection ≡ some before
      → m.active_collection ≢ before
      → zoned now ≡ true
      → RollsBack token now d m before
  rollback_swaps token now before m d held reads has differs dated =
      let trusted = read_manifest-IsTrusted zoned d.file m reads in
      let good : IsName before = rw (has) at trusted.previous_named in
      let (m', after, publishes, again, resolves, clean, active, previous, generation) =
        publish-Activates zoned digest prefix tenant_id token now before m.active_collection
          (some m) d held good reads refl trusted.active_named dated in
      (
        m',
        after,
        rollback_lem token now before no_fault d
              (rollback_target_lem token before m d.file held reads has)
            ∙ publishes,
        again,
        active,
        rw (previous, str_eq-false m.active_collection before differs) refl,
        generation,
      )

  abbrev pub Restores :
      Option LockToken → String → String → String → Manifest → Disk Payload → Type 0
  Restores token first second before m d =
      (m₁ : Manifest) × (d₁ : Disk Payload) × (m₂ : Manifest) × (d₂ : Disk Payload) × (rollback
          zoned digest prefix tenant_id token first no_fault d
        ≡ (ok m₁, d₁))
      × (m₁.active_collection ≡ before)
      × (m₁.previous_collection ≡ some m.active_collection)
      × (rollback zoned digest prefix tenant_id token second no_fault d₁ ≡ (ok m₂, d₂))
      × (read_manifest zoned d₂.file ≡ ok (some m₂))
      × (m₂.active_collection ≡ m.active_collection)
      × (m₂.previous_collection ≡ m.previous_collection)
      × (m₂.generation ≡ m.generation + 2)

  -- Two rollbacks in a row, under the lock and with writes that do not fail, bring back the active
  -- and the previous collection of the manifest that was there, where these two differ. In between
  -- they are swapped; each rollback makes the next generation, and both manifests can be read.
  pub rollback_twice :
      (token : Option LockToken) (first second before : String) (m : Manifest) (d : Disk Payload)
      → require_lock token tenant_id ≡ ok tt
      → read_manifest zoned d.file ≡ ok (some m)
      → m.previous_collection ≡ some before
      → m.active_collection ≢ before
      → zoned first ≡ true
      → zoned second ≡ true
      → Restores token first second before m d
  rollback_twice token first second before m d held reads has differs dated₁ dated₂ =
      let (m₁, d₁, ran₁, reads₁, active₁, previous₁, count₁) =
        rollback_swaps token first before m d held reads has differs dated₁ in
      let (m₂, d₂, ran₂, reads₂, active₂, previous₂, count₂) =
        rollback_swaps token second m.active_collection m₁ d₁ held reads₁ previous₁
          (λ e. differs (sym (sym active₁ ∙ e))) dated₂ in
      (
        m₁,
        d₁,
        m₂,
        d₂,
        ran₁,
        active₁,
        previous₁,
        ran₂,
        reads₂,
        active₂,
        previous₂ ∙ ap some active₁ ∙ sym has,
        omega arith,
      )
