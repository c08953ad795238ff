-- ===== src/Index/Operator.antt =====
-- vectordb/index_operator.py: the operator's preview and execution of the retention, and the rollback
-- command, each under the tenant's lock. `Locking` is what the lock of Lock meets in a run.
pub mod Commands
pub mod Once
pub mod Retry
pub mod Confirmed
mod Tests
use package.text.Mathlib.Text.{◌==◌ as str_eq}
use rag_support_assistant.Prelude.{
  ℕ, zero, suc, ◌==◌, pos, String, Bool, true, false, List, [], ◌∷◌, map, Option, none, some, ◌&&◌,
  if◌then◌else◌,
}
use rag_support_assistant.Text
use rag_support_assistant.Index.{
  Result, ok, raise, ◌>>=◌, ◌>>◌, IndexError, rollback_unavailable, rollback_invalid,
  rollback_conflict, execution_invalid, execution_conflict, Scalar, integer, text, contains,
}
use rag_support_assistant.Index.Lock.{
  canonical, LockToken, new_token, Release, Body, returns, raises, Ending, value, raised,
  lock_error, with_lock,
}
use rag_support_assistant.Index.Files.{Disk, Fault}
use rag_support_assistant.Index.Manifest.{Manifest, Payload, read_manifest, rollback}
use rag_support_assistant.Index.Retention.{Inventory, names, read_inventory}
use rag_support_assistant.Index.Retention.Bounded.{Store, bounded_candidates, execute_retention}

-- what a run meets at the lock: whether the connection opens, what the wait gives, the release
pub record Locking : Type 0 where
  pub opens : Bool
  pub got : Result (Unit {0})
  pub release : Release

module _ {A : Type 0} where
  abbrev as_body : Result A → Body A IndexError
  as_body (ok a) = returns a
  as_body (raise e) = raises e

  abbrev ended : Ending A IndexError → Result A
  ended (value a) = ok a
  ended (raised e) = raise e
  ended (lock_error e) = raise e

  -- `with tenant_index_lock(tenant_id) as lock_token`, around a body that keeps a state; the body's
  -- changes stay where the release fails
  unfoldable pub under_lock :
      {S : Type 0} → Locking → String → (LockToken → Result A × S) → S → Result A × S
  unfolding with_lock
  under_lock l tenant_id body s =
      let run = with_lock tenant_id l.opens l.got (λ token. as_body (body token).0) l.release in
      let after = (body (new_token tenant_id)).1 in
      (ended run.0, if l.opens then elim l.got [ raise e ↦ s | ok _ ↦ after ] else s)

-- an `int`, not a `bool`, of at least 1
abbrev pub positive : IndexError → Scalar → Result ℕ
positive failure (integer (pos (suc n))) = ok (suc n)
positive failure _ = raise failure

-- a `str` that is not empty
abbrev pub non_empty : IndexError → Scalar → Result String
non_empty failure (text s) = if Text.is_empty s then raise failure else ok s
non_empty failure _ = raise failure

-- the elements of a tuple, in order: each a `str` that is not empty and no earlier one
abbrev pub unique_names : IndexError → List String → List Scalar → Result (List String)
unique_names failure seen [] = ok []
unique_names failure seen (v ∷ vs) = non_empty failure v >>= λ name.
    if contains name seen
    then raise failure
    else (unique_names failure (name ∷ seen) vs >>= λ rest. ok (name ∷ rest))

abbrev pub same_names : List String → List String → Bool
same_names [] [] = true
same_names (x ∷ xs) (y ∷ ys) = str_eq x y && same_names xs ys
same_names _ _ = false

-- `IndexRetentionPreview`
pub record RetentionPreview : Type 0 where
  pub tenant_id : String
  pub max_versions : ℕ
  pub manifest_generation : Option ℕ
  pub active_collection : Option String
  pub previous_collection : Option String
  pub inventory_collections : List String
  pub deletion_candidates : List String

-- `IndexRetentionExecutionResult`
pub record RetentionExecution : Type 0 where
  pub tenant_id : String
  pub max_versions : ℕ
  pub expected_generation : ℕ
  pub expected_candidates : List String
  pub deleted_collections : List String

-- `IndexRollbackResult`
pub record RollbackResult : Type 0 where
  pub tenant_id : String
  pub expected_generation : ℕ
  pub target_collection : String
  pub applied : Bool
  pub manifest_generation : ℕ
  pub active_collection : String
  pub previous_collection : Option String

abbrev pub inventory_names : Option Inventory → List String
inventory_names none = []
inventory_names (some i) = names i.collections

-- the end of `preview_index_retention`, of what it read under the lock
abbrev pub preview_of :
    String → ℕ → List String → Option Manifest → Option Inventory → RetentionPreview
preview_of tenant_id max_versions candidates m i = record {
  tenant_id = tenant_id;
  max_versions = max_versions;
  manifest_generation = elim m [ none ↦ none | some a ↦ some a.generation ];
  active_collection = elim m [ none ↦ none | some a ↦ some a.active_collection ];
  previous_collection = elim m [ none ↦ none | some a ↦ a.previous_collection ];
  inventory_collections = inventory_names i;
  deletion_candidates = candidates;
}

-- how `rollback_index_version` sees the durable state: the command was applied already, it can be
-- applied, or it is refused
pub data Command : Type 0 where
  again fresh : Command
  refused : IndexError → Command

-- the branch for the expected generation
abbrev pub first_apply : String → Option String → Command
first_apply target none = refused rollback_unavailable
first_apply target (some p) = if str_eq p target then fresh else refused rollback_conflict

unfoldable pub classify : ℕ → String → Manifest → Command
classify expected target m =
    if m.generation == suc expected && str_eq m.active_collection target
    then again
    else (if m.generation == expected
        then first_apply target m.previous_collection
        else refused rollback_conflict)

abbrev pub rollback_result : String → ℕ → String → Bool → Manifest → RollbackResult
rollback_result tenant_id expected target applied m = record {
  tenant_id = tenant_id;
  expected_generation = expected;
  target_collection = target;
  applied = applied;
  manifest_generation = m.generation;
  active_collection = m.active_collection;
  previous_collection = m.previous_collection;
}

-- `target_validator`, where there is one
abbrev pub Validator : Type 0
Validator = Option (String → LockToken → Result (Unit {0}))

abbrev pub validate : Validator → String → LockToken → Result (Unit {0})
validate none target token = ok tt
validate (some check) target token = check target token

module _ (digest : String → String) (prefix : String) (zoned : String → Bool)
    (tenant_id : String) where
  -- the names of the command are those of the tenant after the default
  abbrev normal : String
  normal = canonical tenant_id

  module _ (validator : Validator) (now : String) (fault : Fault) where
    -- the first application, of what the validator said
    unfoldable pub apply_validated :
        LockToken
        → ℕ
        → String
        → Disk Payload
        → Result (Unit {0})
        → Result RollbackResult × Disk Payload
    unfolding rollback
    apply_validated token expected target d (raise e) = (raise e, d)
    apply_validated token expected target d (ok _) =
        let rolled = rollback zoned digest prefix normal (some token) now fault d in
        (rolled.0 >>= λ m. ok (rollback_result normal expected target true m), rolled.1)

    -- the branches of `rollback_index_version` under the lock
    unfoldable pub perform :
        LockToken
        → ℕ
        → String
        → Manifest
        → Disk Payload
        → Command
        → Result RollbackResult × Disk Payload
    unfolding apply_validated
    perform token expected target m d again =
        (validate validator target token >> ok (rollback_result normal expected target false m), d)
    perform token expected target m d fresh =
        apply_validated token expected target d (validate validator target token)
    perform token expected target m d (refused e) = (raise e, d)

    abbrev pub respond :
        LockToken
        → ℕ
        → String
        → Disk Payload
        → Result (Option Manifest)
        → Result RollbackResult × Disk Payload
    respond token expected target d (raise e) = (raise e, d)
    respond token expected target d (ok none) = (raise rollback_unavailable, d)
    respond token expected target d (ok (some m)) =
        perform token expected target m d (classify expected target m)

    abbrev pub checked_rollback :
        Locking → Disk Payload → Result ℕ → Result String → Result RollbackResult × Disk Payload
    checked_rollback l d (raise e) target = (raise e, d)
    checked_rollback l d (ok expected) (raise e) = (raise e, d)
    checked_rollback l d (ok expected) (ok target) =
        under_lock l normal (λ token. respond token expected target d (read_manifest zoned d.file))
          d

    -- `rollback_index_version`
    unfoldable pub rollback_index_version :
        Locking → Scalar → Scalar → Disk Payload → Result RollbackResult × Disk Payload
    unfolding perform under_lock
    rollback_index_version l expected target d =
        checked_rollback l d (positive rollback_invalid expected)
          (non_empty rollback_invalid target)

  module _ (deletes : String → Bool) (fault : String → Fault) (hash : String → String) where
    -- `preview_index_retention`
    unfoldable pub preview_index_retention : Locking → ℕ → Store → Result RetentionPreview × Store
    unfolding under_lock bounded_candidates
    preview_index_retention l max_versions s =
        under_lock l normal
          (λ token. (
            bounded_candidates deletes fault digest hash prefix zoned normal max_versions s
                >>= λ candidates. read_manifest zoned s.manifest >>= λ m.
                    read_inventory digest hash prefix zoned normal s.inventory.file >>= λ i.
                    ok (preview_of normal max_versions candidates m i),
            s,
          ))
          s

    -- the comparisons of `execute_index_retention` with the durable state
    abbrev pub confirm : ℕ → List String → List String → Option Manifest → Result (Unit {0})
    confirm expected candidates current none = raise execution_conflict
    confirm expected candidates current (some m) =
        if m.generation == expected
        then (if same_names current candidates then ok tt else raise execution_conflict)
        else raise execution_conflict

    -- all that `execute_index_retention` checks under the lock
    unfoldable pub confirmed : ℕ → ℕ → List String → Store → Result (Unit {0})
    unfolding bounded_candidates
    confirmed max_versions expected candidates s =
        bounded_candidates deletes fault digest hash prefix zoned normal max_versions s
        >>= λ current. read_manifest zoned s.manifest >>= confirm expected candidates current

    -- the deletion, once the checks are done
    unfoldable pub execute_confirmed :
        LockToken
        → ℕ
        → ℕ
        → List String
        → Store
        → Result (Unit {0})
        → Result RetentionExecution × Store
    unfolding execute_retention
    execute_confirmed token max_versions expected candidates s (raise e) = (raise e, s)
    execute_confirmed token max_versions expected candidates s (ok _) =
        let run =
          execute_retention deletes fault digest hash prefix zoned normal (some token) max_versions
            s in
        (
          run.0 >>= λ deleted. ok record {
            tenant_id = normal;
            max_versions = max_versions;
            expected_generation = expected;
            expected_candidates = candidates;
            deleted_collections = deleted;
          },
          run.1,
        )

    abbrev pub checked_execution :
        Locking → ℕ → Store → Result ℕ → Result (List String) → Result RetentionExecution × Store
    checked_execution l max_versions s (raise e) candidates = (raise e, s)
    checked_execution l max_versions s (ok expected) (raise e) = (raise e, s)
    checked_execution l max_versions s (ok expected) (ok candidates) =
        under_lock l normal
          (λ token.
            execute_confirmed token max_versions expected candidates s
              (confirmed max_versions expected candidates s))
          s

    -- `execute_index_retention`; `none` for candidates that are no tuple
    unfoldable pub execute_index_retention :
        Locking → ℕ → Scalar → Option (List Scalar) → Store → Result RetentionExecution × Store
    unfolding execute_confirmed confirmed under_lock
    execute_index_retention l max_versions expected candidates s =
        checked_execution l max_versions s (positive execution_invalid expected) (elim candidates [
          | none ↦ raise execution_invalid
          | some vs ↦ unique_names execution_invalid [] vs
        ])
