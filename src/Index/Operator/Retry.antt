-- ===== src/Index/Operator/Retry.antt =====
-- vectordb/index_operator.py: what the rollback command answers when it is applied and called again.
use package.text.Mathlib.Text.{◌==◌ as str_eq}
use rag_support_assistant.Prelude.{
  ℕ, zero, suc, ◌+◌, pos, ◌≤◌, ◌≡◌, refl, ap, ◌∙◌, String, Bool, true, false, none, some,
  if◌then◌else◌, arith, eq_iff, ◌==◌,
}
use rag_support_assistant.Index.{Result, ok, raise, ◌>>=◌, integer, text, rollback_invalid}
use rag_support_assistant.Index.Lock.{canonical, LockToken, new_token, released, finish, with_lock}
use rag_support_assistant.Index.Names.{validate_name}
use rag_support_assistant.Index.Files.{Disk, Fault, no_fault}
use rag_support_assistant.Index.Manifest.{Manifest, Payload, read_manifest, rollback}
use rag_support_assistant.Index.Manifest.Publish.{IsName, publish-Activates}
use rag_support_assistant.Index.Manifest.Rollback.{rollback_target_lem, rollback_lem}
use rag_support_assistant.Index.Manifest.Trust.{read_manifest-IsTrusted}
use rag_support_assistant.Index.Operator.Commands.{require_new, classify-again}
use rag_support_assistant.Index.Operator.{
  Locking, under_lock, Validator, validate, fresh, classify, perform, respond, apply_validated,
  rollback_result, rollback_index_version, RollbackResult, positive, non_empty,
}

-- a lock that is granted and released
abbrev pub free_lock : Locking
free_lock = record { opens = true; got = ok tt; release = released }

module _ {A S : Type 0} where
  -- the body's end is the end of the run
  under_lock-free_lock :
      (tenant_id : String) (body : LockToken → Result A × S) (s : S) (r : Result A × S)
      → body (new_token tenant_id) ≡ r
      → under_lock free_lock tenant_id body s ≡ r
  unfolding under_lock with_lock finish
  under_lock-free_lock tenant_id body s (ok a, t) h = rw (h) refl
  under_lock-free_lock tenant_id body s (raise e, t) h = rw (h) refl

module _ (target : String) where
  classify-fresh :
      (m : Manifest) → m.previous_collection ≡ some target → classify m.generation target m ≡ fresh
  unfolding classify
  classify-fresh m has =
      let earlier : (m.generation == suc m.generation) ≡ false = ground arith in
      let same : (m.generation == m.generation) ≡ true = ground arith in
      let found = (eq_iff target target).1 refl in rw (earlier, same, has, found) refl

positive-pos : (n : ℕ) → 1 ≤ n → positive rollback_invalid (integer (pos n)) ≡ ok n
positive-pos zero h = ground arith
positive-pos (suc n) h = refl

non_empty-text : (s : String) → IsName s → non_empty rollback_invalid (text s) ≡ ok s
unfolding validate_name
non_empty-text String.[] h = ground arith
non_empty-text (String.◌∷◌ c s) h = refl

module _ (digest : String → String) (prefix : String) (zoned : String → Bool)
    (tenant_id : String) where
  abbrev normal : String
  normal = canonical tenant_id

  module _ (target : String) (m : Manifest) (start : Disk Payload) where
    -- a call of the command with the generation of the manifest, under a lock that is granted
    abbrev pub call :
        Validator → String → Fault → Disk Payload → Result RollbackResult × Disk Payload
    call v now fault d =
        rollback_index_version digest prefix zoned tenant_id v now fault free_lock
          (integer (pos m.generation)) (text target) d

    abbrev pub Acknowledges : Validator → String → Validator → String → Fault → Type 0
    Acknowledges v now v' now' fault =
        (m' : Manifest) × (after : Disk Payload) × (call v now no_fault start
          ≡ (ok (rollback_result normal m.generation target true m'), after))
        × (call v' now' fault after
            ≡ (ok (rollback_result normal m.generation target false m'), after))
        × (m'.active_collection ≡ target)
        × (m'.previous_collection
            ≡ (if str_eq m.active_collection target then none else some m.active_collection))
        × (m'.generation ≡ m.generation + 1)

    call-under_lock :
        (v : Validator) (now : String) (fault : Fault) (d : Disk Payload)
        (r : Result RollbackResult × Disk Payload)
        → 1 ≤ m.generation
        → IsName target
        → respond digest prefix zoned tenant_id v now fault
            (new_token normal)
            m.generation
            target
            d
            (read_manifest zoned d.file)
          ≡ r
        → call v now fault d ≡ r
    unfolding rollback_index_version
    call-under_lock v now fault d r counted named responds =
        rw (positive-pos m.generation counted, non_empty-text target named)
          (under_lock-free_lock normal
            (λ token.
              respond digest prefix zoned tenant_id v now fault token m.generation target d
                (read_manifest zoned d.file))
            d r responds)

    respond_first :
        (v : Validator) (now : String) (m' : Manifest) (after : Disk Payload)
        → m.previous_collection ≡ some target
        → validate v target (new_token normal) ≡ ok tt
        → rollback zoned digest prefix normal (some (new_token normal)) now no_fault start
          ≡ (ok m', after)
        → respond digest prefix zoned tenant_id v now no_fault
            (new_token normal)
            m.generation
            target
            start
            (ok (some m))
          ≡ (ok (rollback_result normal m.generation target true m'), after)
    unfolding perform apply_validated
    respond_first v now m' after has accepts rolled =
        ap
          (perform digest prefix zoned tenant_id v now no_fault (new_token normal) m.generation
            target m start)
          (classify-fresh target m has)
        ∙ ap
            (λ w.
              (apply_validated digest prefix zoned tenant_id v now no_fault (new_token normal)
                m.generation target start w))
            accepts
        ∙ ap (λ r. (r.0 >>= λ x. ok (rollback_result normal m.generation target true x), r.1))
            rolled

    respond_again :
        (v : Validator) (now : String) (fault : Fault) (m' : Manifest) (after : Disk Payload)
        → m'.active_collection ≡ target
        → m'.generation ≡ suc m.generation
        → validate v target (new_token normal) ≡ ok tt
        → respond digest prefix zoned tenant_id v now fault
            (new_token normal)
            m.generation
            target
            after
            (ok (some m'))
          ≡ (ok (rollback_result normal m.generation target false m'), after)
    unfolding perform
    respond_again v now fault m' after active generation accepts =
        ap
          (perform digest prefix zoned tenant_id v now fault (new_token normal) m.generation target
            m' after)
          (classify-again m.generation target m' generation active)
        ∙ rw (accepts) refl

    -- Where the manifest has a previous collection and that is the target, a call of the rollback
    -- command with the manifest's generation, under a granted lock, with a validator that accepts
    -- and a write that succeeds, applies the rollback and answers with the manifest it wrote. A
    -- second call with the same arguments changes nothing and answers with the same manifest, marked
    -- as not applied, whatever its time is and wherever a write would fail.
    pub rollback_index_version-Acknowledges :
        (v : Validator) (now : String) (v' : Validator) (now' : String) (fault : Fault)
        → read_manifest zoned start.file ≡ ok (some m)
        → m.previous_collection ≡ some target
        → zoned now ≡ true
        → validate v target (new_token normal) ≡ ok tt
        → validate v' target (new_token normal) ≡ ok tt
        → Acknowledges v now v' now' fault
    rollback_index_version-Acknowledges v now v' now' fault reads has dated accepts accepts' =
        let token = some (new_token normal) in
        let held = require_new normal in
        let trusted = read_manifest-IsTrusted zoned start.file m reads in
        let good : IsName target = rw (has) at trusted.previous_named in
        let target_found =
          rollback_target_lem zoned digest prefix normal token target m start.file held reads has in
        let (m', after, done, read_after, resolves, gone, active, previous, generation) =
          publish-Activates zoned digest prefix normal token now target m.active_collection (some m)
            start held good reads refl trusted.active_named dated in
        let rolled =
          rollback_lem zoned digest prefix normal token now target no_fault start target_found
          ∙ done in
        (
          m',
          after,
          call-under_lock v now no_fault start _ trusted.counted good (
              ap
                (λ r.
                  respond digest prefix zoned tenant_id v now no_fault (new_token normal)
                    m.generation target start r)
                reads
              ∙ respond_first v now m' after has accepts rolled),
          call-under_lock v' now' fault after _ trusted.counted good (
              ap
                (λ r.
                  respond digest prefix zoned tenant_id v' now' fault (new_token normal)
                    m.generation target after r)
                read_after
              ∙ respond_again v' now' fault m' after active (omega arith) accepts'),
          active,
          previous,
          generation,
        )
