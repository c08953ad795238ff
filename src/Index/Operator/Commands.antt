-- ===== src/Index/Operator/Commands.antt =====
-- vectordb/index_operator.py: the steps of a command: the lock, the arguments, the classification of a
-- rollback and its write.
use package.text.Mathlib.Text.{◌==◌ as str_eq}
use rag_support_assistant.Prelude.{
  ℕ, zero, suc, pos, ◌==◌, ◌&&◌, ◌≡◌, refl, ap, ◌⊎◌, inl, inr, String, Bool, true, false,
  Bool-cases, Option, none, some, if◌then◌else◌, arith, eq_iff,
}
use rag_support_assistant.Text
use rag_support_assistant.Index.{
  Result, ok, raise, IndexError, rollback_conflict, rollback_invalid, integer, text,
}
use rag_support_assistant.Index.Lock.{canonical, LockToken, new_token, require_lock}
use rag_support_assistant.Index.Files.{
  Disk, Fault, no_fault, at_directory, at_temporary, at_writing, at_commit, at_replace,
}
use rag_support_assistant.Index.Manifest.{Manifest, Payload, commit}
use rag_support_assistant.Index.Operator.{
  Locking, under_lock, again, fresh, refused, classify, first_apply, positive, non_empty,
}

module _ {A S : Type 0} where
  -- the state after a body under the lock is the state before, or the one that the body leaves
  pub under_lock-either :
      (P : S → Type 0) (l : Locking) (tenant_id : String) (body : LockToken → Result A × S) (s : S)
      → P s
      → P (body (new_token tenant_id)).1
      → P (under_lock l tenant_id body s).1
  unfolding under_lock
  under_lock-either P l tenant_id body s before after = decide l.opens l.got
    where
      decide :
          (opens : Bool) (got : Result (Unit {0}))
          → P (
              if opens then elim got [ raise e ↦ s | ok _ ↦ (body (new_token tenant_id)).1 ] else s)
      decide false got = before
      decide true (raise e) = before
      decide true (ok _) = after

and_true : (a b : Bool) → (a && b) ≡ true → (a ≡ true) × (b ≡ true)
and_true true true h = (refl, refl)
and_true true false h = ground arith
and_true false b h = ground arith

pub require_new : (tenant_id : String) → require_lock (some (new_token tenant_id)) tenant_id ≡ ok tt
unfolding require_lock
require_new tenant_id = rw ((eq_iff (canonical tenant_id) (canonical tenant_id)).1 refl) refl

module _ (expected : ℕ) (target : String) where
  branch_fresh :
      (applied first : Bool) (previous : Option String)
      → (if applied
          then again
          else (if first then first_apply target previous else refused rollback_conflict))
        ≡ fresh
      → (first ≡ true) × (previous ≡ some target)
  branch_fresh true first previous h = ground arith
  branch_fresh false false previous h = ground arith
  branch_fresh false true none h = ground arith
  branch_fresh false true (some p) h = elim (Bool-cases (str_eq p target)) [
    | inl e ↦ (refl, ap (λ s. some s) ((eq_iff p target).0 e))
    | inr e ↦ ground arith
  ]

  -- what a fresh command found
  pub classify-fresh :
      (m : Manifest)
      → classify expected target m ≡ fresh
      → (m.generation ≡ expected) × (m.previous_collection ≡ some target)
  unfolding classify
  classify-fresh m h =
      let (counted, has) =
        branch_fresh (m.generation == suc expected && str_eq m.active_collection target)
          (m.generation == expected) m.previous_collection h in
      (ground arith, has)

  -- a command that was applied is seen as such
  pub classify-again :
      (m : Manifest)
      → m.generation ≡ suc expected
      → m.active_collection ≡ target
      → classify expected target m ≡ again
  unfolding classify
  classify-again m count active =
      let counted : (m.generation == suc expected) ≡ true = ground arith in
      let same = (eq_iff m.active_collection target).1 active in rw (counted, same) refl

pub as_positive :
    (n : ℕ)
    → (positive rollback_invalid (integer (pos n)) ≡ ok n)
      ⊎ ((e : IndexError) × (positive rollback_invalid (integer (pos n)) ≡ raise e))
as_positive zero = inr (rollback_invalid, refl)
as_positive (suc n) = inl refl

pub as_non_empty :
    (s : String)
    → (non_empty rollback_invalid (text s) ≡ ok s)
      ⊎ ((e : IndexError) × (non_empty rollback_invalid (text s) ≡ raise e))
as_non_empty s = elim (Bool-cases (Text.is_empty s)) [
  | inl e ↦ inr (rollback_invalid, rw (e) refl)
  | inr e ↦ inl (rw (e) refl)
]

module _ (digest : String → String) (prefix : String) (zoned : String → Bool)
    (tenant_id : String) where
  pub commit_changes :
      (fault : Fault) (d : Disk Payload) (r : Result Manifest)
      → d.temporary ≡ none
      → ((commit zoned digest prefix tenant_id fault d r).1 ≡ d) ⊎ (fault ≡ no_fault)
  unfolding commit
  commit_changes fault d (raise e) clean = inl refl
  commit_changes no_fault d (ok m) clean = inr refl
  commit_changes at_directory d (ok m) clean = inl refl
  commit_changes at_temporary d (ok m) clean = inl refl
  commit_changes at_writing d (ok m) clean = inl (rw (clean) refl)
  commit_changes at_commit d (ok m) clean = inl (rw (clean) refl)
  commit_changes at_replace d (ok m) clean = inl (rw (clean) refl)
