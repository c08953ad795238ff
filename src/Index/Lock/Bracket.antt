-- ===== src/Index/Lock/Bracket.antt =====
-- vectordb/tenant_lock.py: what the context manager of the lock allows, and when.
use rag_support_assistant.Prelude.{◌≡◌, refl, ◌↔◌, String, Bool, true, false, some, arith, eq_iff}
use rag_support_assistant.Index.{Result, ok, raise, lock_required}
use rag_support_assistant.Index.Lock.{
  canonical, LockToken, new_token, invalidate, require_lock, Release, Body, with_lock,
}

-- the token that is left, whatever happened
with_lock_token {ℓ} :
    {A E : Type ℓ} (tenant_id : String) (opens : Bool) (got : Result (Unit {0}))
    (body : LockToken → Body A E) (rel : Release)
    → (with_lock tenant_id opens got body rel).1 ≡ invalidate (new_token tenant_id)
unfolding with_lock
with_lock_token tenant_id false got body rel = refl
with_lock_token tenant_id true (ok _) body rel = refl
with_lock_token tenant_id true (raise e) body rel = refl

require_lock-new_token :
    (tenant_id other : String)
    → (require_lock (some (new_token tenant_id)) other ≡ ok tt)
      ↔ (canonical tenant_id ≡ canonical other)
unfolding require_lock
require_lock-new_token tenant_id other = (
  (λ h. (eq_iff (canonical tenant_id) (canonical other)).0 (ground arith)),
  (λ e. rw ((eq_iff (canonical tenant_id) (canonical other)).1 e) refl),
)

-- The token that the context manager gives its body proves the lock for the tenant it was made for
-- and for no other, where identifiers are compared with the default in place of an empty one. After
-- the run the token proves nothing, for any tenant, however the run ended.
pub token_scope {ℓ} :
    {A E : Type ℓ} (tenant_id other : String) (opens : Bool) (got : Result (Unit {0}))
    (body : LockToken → Body A E) (rel : Release)
    → ((require_lock (some (new_token tenant_id)) other ≡ ok tt)
        ↔ (canonical tenant_id ≡ canonical other))
      × (require_lock (some (with_lock tenant_id opens got body rel).1) other ≡ raise lock_required)
unfolding require_lock
token_scope tenant_id other opens got body rel =
    (require_lock-new_token tenant_id other, rw (with_lock_token tenant_id opens got body rel) refl)
