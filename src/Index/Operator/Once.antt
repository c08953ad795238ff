-- ===== src/Index/Operator/Once.antt =====
-- vectordb/index_operator.py: what retries of the rollback command do.
use package.text.Mathlib.Text.{◌==◌ as str_eq}
use rag_support_assistant.Prelude.{
  ℕ, suc, pos, ◌≡◌, refl, ap, ◌∙◌, ◌⊎◌, inl, inr, String, Bool, true, List, [], ◌∷◌, All, Option,
  none, some, if◌then◌else◌, arith,
}
use rag_support_assistant.Index.{
  Result, ok, raise, IndexError, Scalar, rollback_invalid, integer, text,
}
use rag_support_assistant.Index.Lock.{canonical, LockToken, new_token}
use rag_support_assistant.Index.Files.{Disk, Fault}
use rag_support_assistant.Index.Manifest.{
  Manifest, Payload, read_manifest, rollback, publish, prepare,
}
use rag_support_assistant.Index.Manifest.Publish.{IsName, publish-Activates}
use rag_support_assistant.Index.Manifest.Rollback.{rollback_target_lem, rollback_lem}
use rag_support_assistant.Index.Manifest.Trust.{read_manifest-IsTrusted}
use rag_support_assistant.Index.Operator.{
  Locking, Validator, validate, Command, again, fresh, refused, classify, apply_validated, perform,
  respond, rollback_index_version, checked_rollback, positive, non_empty, RollbackResult,
}
use rag_support_assistant.Index.Operator.Commands.{
  under_lock-either, require_new, classify-fresh, classify-again, commit_changes, as_positive,
  as_non_empty,
}

-- one call of the command: what it meets at the lock, its validator, its time, where its write fails
pub record Attempt : Type 0 where
  pub locking : Locking
  pub validator : Validator
  pub now : String
  pub fault : Fault

module _ (digest : String → String) (prefix : String) (zoned : String → Bool)
    (tenant_id : String) where
  abbrev normal : String
  normal = canonical tenant_id

  module _ (expected : ℕ) (target : String) (start : Disk Payload) where
    -- one rollback to the target was applied to the manifest of the start, which had the generation
    abbrev pub RolledBack : Disk Payload → Type 0
    RolledBack d =
        (m : Manifest) × (m' : Manifest) × (read_manifest zoned start.file ≡ ok (some m))
        × (read_manifest zoned d.file ≡ ok (some m'))
        × (m.generation ≡ expected)
        × (m.previous_collection ≡ some target)
        × (m'.active_collection ≡ target)
        × (m'.generation ≡ suc expected)
        × (m'.previous_collection
            ≡ (if str_eq m.active_collection target then none else some m.active_collection))

    abbrev pub IsOnce : Disk Payload → Type 0
    IsOnce d = (d ≡ start) ⊎ RolledBack d

    rollback-IsOnce :
        (now : String) (fault : Fault) (m : Manifest)
        → start.temporary ≡ none
        → zoned now ≡ true
        → read_manifest zoned start.file ≡ ok (some m)
        → (m.generation ≡ expected) × (m.previous_collection ≡ some target)
        → IsOnce (rollback zoned digest prefix normal (some (new_token normal)) now fault start).1
    unfolding publish
    rollback-IsOnce now fault m clean dated reads (counted, has) =
        let token = some (new_token normal) in
        let held = require_new normal in
        let trusted = read_manifest-IsTrusted zoned start.file m reads in
        let good : IsName target = rw (has) at trusted.previous_named in
        let publishes = rollback_lem zoned digest prefix normal token now target fault start (
          rollback_target_lem zoned digest prefix normal token target m start.file held reads
            has) in
        let same = ap (λ r. r.1) publishes in
        elim (commit_changes digest prefix zoned normal fault start
          (prepare zoned digest prefix normal token now target start.file) clean) [
            | inl kept ↦ inl (same ∙ kept)
            | inr whole ↦
                let (m', after, done, again_read, resolves, gone, active, previous, generation) =
                  publish-Activates zoned digest prefix normal token now target m.active_collection
                    (some m) start held good reads refl trusted.active_named dated in
                let to_after =
                  same
                  ∙ ap (λ f. (publish zoned digest prefix normal token now f target start).1) whole
                  ∙ ap (λ r. r.1) done in
                inr (
                  m,
                  m',
                  reads,
                  ap (λ d. read_manifest zoned d.file) to_after ∙ again_read,
                  counted,
                  has,
                  active,
                  omega arith,
                  previous,
                )
          ]

    module _ (a : Attempt) (clean : start.temporary ≡ none) (dated : zoned a.now ≡ true) where
      abbrev answer : LockToken → Disk Payload → Result (Option Manifest) → Disk Payload
      answer token d r =
          (respond digest prefix zoned tenant_id a.validator a.now a.fault token expected target d
            r).1

      apply_validated-IsOnce :
          (m : Manifest) (v : Result (Unit {0}))
          → read_manifest zoned start.file ≡ ok (some m)
          → (m.generation ≡ expected) × (m.previous_collection ≡ some target)
          → IsOnce
              (apply_validated digest prefix zoned tenant_id a.validator a.now a.fault
                (new_token normal)
                expected
                target
                start
                v).1
      unfolding apply_validated
      apply_validated-IsOnce m (raise e) reads found = inl refl
      apply_validated-IsOnce m (ok _) reads found =
          rollback-IsOnce a.now a.fault m clean dated reads found

      perform-IsOnce :
          (m : Manifest) (c : Command)
          → read_manifest zoned start.file ≡ ok (some m)
          → classify expected target m ≡ c
          → IsOnce
              (perform digest prefix zoned tenant_id a.validator a.now a.fault
                (new_token normal)
                expected
                target
                m
                start
                c).1
      unfolding perform
      perform-IsOnce m again reads h = inl refl
      perform-IsOnce m (refused e) reads h = inl refl
      perform-IsOnce m fresh reads h =
          apply_validated-IsOnce m (validate a.validator target (new_token normal)) reads
            (classify-fresh expected target m h)

      first_answer :
          (r : Result (Option Manifest))
          → read_manifest zoned start.file ≡ r
          → IsOnce (answer (new_token normal) start r)
      first_answer (raise e) reads = inl refl
      first_answer (ok none) reads = inl refl
      first_answer (ok (some m)) reads = perform-IsOnce m (classify expected target m) reads refl

      later_answer :
          (d : Disk Payload)
          → RolledBack d
          → answer (new_token normal) d (read_manifest zoned d.file) ≡ d
      unfolding perform
      later_answer d (m, m', read_first, read_now, counted, has, active, generation, previous) =
          ap (λ r. answer (new_token normal) d r) read_now
          ∙ ap
              (λ c.
                (perform digest prefix zoned tenant_id a.validator a.now a.fault (new_token normal)
                  expected target m' d c).1)
              (classify-again expected target m' generation active)

      answer-IsOnce :
          (d : Disk Payload)
          → IsOnce d
          → IsOnce (answer (new_token normal) d (read_manifest zoned d.file))
      answer-IsOnce d (inl same) = rw (same) (first_answer (read_manifest zoned start.file) refl)
      answer-IsOnce d (inr done) = rw (later_answer d done) (inr done)

    module _ (a : Attempt) where
      abbrev run : Scalar → Scalar → Disk Payload → Result RollbackResult × Disk Payload
      run count name d =
          rollback_index_version digest prefix zoned tenant_id a.validator a.now a.fault a.locking
            count name d

      checked-IsOnce :
          (count : Result ℕ) (name : Result String) (d : Disk Payload)
          → start.temporary ≡ none
          → zoned a.now ≡ true
          → (count ≡ ok expected) ⊎ ((e : IndexError) × (count ≡ raise e))
          → (name ≡ ok target) ⊎ ((e : IndexError) × (name ≡ raise e))
          → IsOnce d
          → IsOnce
              (checked_rollback digest prefix zoned tenant_id a.validator a.now a.fault a.locking d
                count name).1
      checked-IsOnce count name d clean dated (inr (e, bad)) named once = rw (bad) once
      checked-IsOnce count name d clean dated (inl good) (inr (e, bad)) once = rw (good, bad) once
      checked-IsOnce count name d clean dated (inl good) (inl right) once =
          rw (good, right)
            (under_lock-either IsOnce a.locking normal
              (λ token.
                respond digest prefix zoned tenant_id a.validator a.now a.fault token expected
                  target d (read_manifest zoned d.file))
              d once (answer-IsOnce a clean dated d once))

      run-IsOnce :
          (d : Disk Payload)
          → start.temporary ≡ none
          → zoned a.now ≡ true
          → IsOnce d
          → IsOnce (run (integer (pos expected)) (text target) d).1
      unfolding rollback_index_version
      run-IsOnce d clean dated once =
          checked-IsOnce (positive rollback_invalid (integer (pos expected)))
            (non_empty rollback_invalid (text target)) d clean dated (as_positive expected)
            (as_non_empty target) once

    -- the disk after calls of the command with the same arguments
    abbrev pub after_all : List Attempt → Disk Payload → Disk Payload
    after_all [] d = d
    after_all (a ∷ later) d = after_all later (run a (integer (pos expected)) (text target) d).1

    after_all-IsOnce :
        (calls : List Attempt) (d : Disk Payload)
        → start.temporary ≡ none
        → All (λ a. zoned a.now ≡ true) calls
        → IsOnce d
        → IsOnce (after_all calls d)
    after_all-IsOnce [] d clean dated once = once
    after_all-IsOnce (a ∷ rest) d clean (now, later) once =
        after_all-IsOnce rest (run a (integer (pos expected)) (text target) d).1 clean later
          (run-IsOnce a d clean now once)

    -- However often the rollback command is called with one expected generation and one target, and
    -- whatever each call meets at the lock, in its validator, in its write and in its release, the
    -- disk is as it was at the start, or the manifest of the start, whose generation was the
    -- expected one and whose previous collection the target, was rolled back once: the target is
    -- active, the generation is the next one, and the collection that was active is the previous
    -- one. No temporary file was there at the start, and the times of the calls have a zone.
    pub rollback_index_version-IsOnce :
        (calls : List Attempt)
        → start.temporary ≡ none
        → All (λ a. zoned a.now ≡ true) calls
        → IsOnce (after_all calls start)
    rollback_index_version-IsOnce calls clean dated =
        after_all-IsOnce calls start clean dated (inl refl)
