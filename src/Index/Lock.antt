-- ===== src/Index/Lock.antt =====
-- vectordb/tenant_lock.py: the PostgreSQL advisory lock of a tenant's index, the proof of holding
-- it, and the context manager around a mutation. Times are microseconds of the monotonic clock.
pub mod Waiting
pub mod Bracket
use text.Mathlib.Text.{◌==◌ as str_eq}
use rag_support_assistant.Prelude.{
  ℕ, zero, suc, ◌+◌, ◌-◌, ◌/◌, String, Bool, true, false, Option, none, some, List, [], ◌∷◌, ◌++◌,
  leb, min, if◌then◌else◌,
}
use rag_support_assistant.Text
use rag_support_assistant.Index.{
  Result, ok, raise, IndexError, lock_required, lock_of_other_tenant, lock_timeout,
  lock_unavailable,
}

-- `str(tenant_id or "default")`
abbrev pub canonical : String → String
canonical tenant_id = Text.or_else tenant_id "default"

-- `TenantIndexLockToken`; only `tenant_index_lock` makes one
pub record LockToken : Type 0 where
  pub tenant_id : String
  pub active : Bool

abbrev pub new_token : String → LockToken
new_token tenant_id = record { tenant_id = canonical tenant_id; active = true }

-- `_invalidate`
abbrev pub invalidate : LockToken → LockToken
invalidate token = record token { active = false }

-- `require_tenant_index_lock`
unfoldable pub require_lock : Option LockToken → String → Result (Unit {0})
require_lock none tenant_id = raise lock_required
require_lock (some token) tenant_id =
    if token.active
    then (if str_eq token.tenant_id (canonical tenant_id)
        then ok tt
        else raise lock_of_other_tenant)
    else raise lock_required

-- the answer of `pg_try_advisory_lock`: the lock, no lock, or an exception
pub data Answer : Type 0 where
  granted busy broken : Answer

abbrev pub poll_interval : ℕ
poll_interval = 100000

-- The loop of `_acquire`. The `n`-th query is answered `answer n` and takes `lag n`; `now` is the
-- clock before it. The sleep takes exactly its time, or `lag` of the next query is longer. `none`
-- is the end of the fuel.
unfoldable pub acquire_loop : (ℕ → Answer) → (ℕ → ℕ) → ℕ → ℕ → ℕ → ℕ → Option (Result ℕ)
acquire_loop answer lag deadline zero n now = none
acquire_loop answer lag deadline (suc fuel) n now =
    let later = now + lag n in
    let rest =
      acquire_loop answer lag deadline fuel (suc n)
        (later + min poll_interval (deadline - later)) in
    elim (answer n) [
      | granted ↦ some (ok n)
      | broken ↦ some (raise lock_unavailable)
      | busy ↦ if leb deadline later then some (raise lock_timeout) else rest
    ]

-- `_acquire`, with the fuel that the waiting time needs
unfoldable pub acquire : (ℕ → Answer) → (ℕ → ℕ) → ℕ → ℕ → Option (Result ℕ)
acquire answer lag start wait =
    acquire_loop answer lag (start + wait) (wait / poll_interval + 2) 0 start

-- the answer of `pg_advisory_unlock`, as `_release` takes it
pub data Release : Type 0 where
  released not_owner unreachable : Release

abbrev pub release : Release → Result (Unit {0})
release released = ok tt
release not_owner = raise lock_unavailable
release unreachable = raise lock_unavailable

-- what happens on the connection, in order
pub data LockEvent : Type 0 where
  opened acquired ran unlocked invalidated closed : LockEvent

-- how a run of the context manager ends: the body's value, the body's exception, or the lock's
pub data Ending {ℓ} (A E : Type ℓ) : Type ℓ where
  value : A → Ending A E
  raised : E → Ending A E
  lock_error : IndexError → Ending A E

-- the body under the lock
pub data Body {ℓ} (A E : Type ℓ) : Type ℓ where
  returns : A → Body A E
  raises : E → Body A E

-- the `finally` around the body: the release runs always, and its failure is raised only where the
-- body did not fail; the token is invalidated after it in any case
unfoldable pub finish {ℓ} : {A E : Type ℓ} → Body A E → Result (Unit {0}) → Ending A E
finish (returns a) (ok _) = value a
finish (returns a) (raise e) = lock_error e
finish (raises x) r = raised x

-- `tenant_index_lock`: whether the connection opens, what `_wait_timeout_sec` and `_acquire` give,
-- the body, which gets the token, and the release
unfoldable pub with_lock {ℓ} :
    {A E : Type ℓ}
    → String
    → Bool
    → Result (Unit {0})
    → (LockToken → Body A E)
    → Release
    → Ending A E × LockToken × List LockEvent
unfolding finish
with_lock tenant_id opens got body rel =
    let held = new_token tenant_id in
    let dead = invalidate held in
    if opens
    then elim got [
      | raise e ↦ (lock_error e, dead, opened ∷ closed ∷ [])
      | ok _ ↦ (
        finish (body held) (release rel),
        dead,
        opened ∷ acquired ∷ ran ∷ unlocked ∷ invalidated ∷ closed ∷ [],
      )
    ]
    else (lock_error lock_unavailable, dead, [])
