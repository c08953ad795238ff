-- ===== src/Index.antt =====
-- vectordb/: the versioned search index of a tenant. Here are the errors of its modules and the
-- files that they keep; the modules below have the lock, the names, the manifest of the active
-- version, the retention of old versions and the operator's commands.
mod Tests
pub mod Lock
pub mod Names
pub mod Files
pub mod Manifest
pub mod Retention
pub mod Operator
pub mod Staging
pub mod Rebuild
use rag_support_assistant.Prelude.{
  ℤ, String, Bool, true, false, List, [], ◌∷◌, Option, none, some, if◌then◌else◌, ◌&&◌, not,
  is_some,
}
use package.text.Mathlib.Text.{◌==◌ as str_eq}

pub data IndexError : Type 0 where
  lock_required lock_of_other_tenant lock_timeout lock_unavailable : IndexError
  name_invalid staging_invalid max_length_invalid : IndexError
  manifest_corrupt rollback_unavailable : IndexError
  retention_corrupt retention_invalid : IndexError
  write_failed : IndexError
  rollback_invalid rollback_conflict execution_invalid execution_conflict : IndexError
  staging_build_failed staging_cleanup_failed lifecycle_fault interrupted : IndexError
  -- the collection that could not be deleted, and those that were deleted before
  deletion_failed : String → List String → IndexError
  -- the collection that was deleted although its metadata was not written, and all deleted ones
  metadata_update_failed : String → List String → IndexError

-- the end of a call: an exception of the modules, or a value
pub data Result {ℓ} (Value : Type ℓ) : Type ℓ where
  raise : IndexError → Result Value
  ok : Value → Result Value

infixl 5 ◌>>=◌
abbrev pub ◌>>=◌ {ℓ κ} : {A : Type ℓ} {B : Type κ} → Result A → (A → Result B) → Result B
raise failure >>= continue = raise failure
ok answer >>= continue = continue answer

infixl 5 ◌>>◌
abbrev pub ◌>>◌ {ℓ} : {Value : Type ℓ} → Result (Unit {0}) → Result Value → Result Value
raise failure >> second = raise failure
ok done >> second = second

-- `if not condition: raise failure`
abbrev pub demand : Bool → IndexError → Result (Unit {0})
demand condition failure = if condition then ok tt else raise failure

-- a value in a JSON object; `compound` is a list or an object, `decimal` a number with a fraction
pub data Scalar : Type 0 where
  null decimal compound : Scalar
  boolean : Bool → Scalar
  integer : ℤ → Scalar
  text : String → Scalar

abbrev pub Object : Type 0
Object = List (String × Scalar)

abbrev pub contains : String → List String → Bool
contains k [] = false
contains k (j ∷ js) = if str_eq j k then true else contains k js

-- objects, as lists of pairs
module _ {ℓ} {A : Type ℓ} where
  abbrev pub get : String → List (String × A) → Option A
  get k [] = none
  get k ((j, v) ∷ o) = if str_eq j k then some v else get k o

  abbrev pub has_all : List String → List (String × A) → Bool
  has_all [] o = true
  has_all (k ∷ ks) o = is_some (get k o) && has_all ks o

  abbrev pub only_known : List (String × A) → List String → Bool
  only_known [] ks = true
  only_known ((k, v) ∷ o) ks = contains k ks && only_known o ks

  -- `set(payload) == KEYS`
  abbrev pub has_keys : List String → List (String × A) → Bool
  has_keys ks o = has_all ks o && only_known o ks

  -- no key stands twice
  abbrev pub no_duplicates : List (String × A) → Bool
  no_duplicates [] = true
  no_duplicates ((k, v) ∷ o) = not (is_some (get k o)) && no_duplicates o
