-- ===== src/Jobs/Worker.antt =====
-- ingestion/jobs.py: the synchronous side, used by the Celery worker; and the lease heartbeat of
-- ingestion/liveness.py. Each statement is a compare-and-set: it is committed when exactly one row
-- met its WHERE, and rolled back otherwise.
use text.Mathlib.Text.{◌==◌ as str_eq}
use rag_support_assistant.Prelude.{
  ℕ, ◌+◌, String, Bool, true, false, ◌&&◌, not, Option, none, some, List, [], ◌∷◌, ◌==◌,
  if◌then◌else◌,
}
use rag_support_assistant.Text
use rag_support_assistant.Jobs.{
  Job, JobResult, Result, Table, ok, err, running, completed, failed, is_queued, is_running, opt_eq,
  select, update, rowcount, has_id, has_owner, index_publication_bind_values, safe_error_message,
  max_error_len, is_blank, sec, ownership_error, identity_error,
}
use rag_support_assistant.Jobs.Settings.{Config, lease_duration_sec}

-- execute, test the row count, commit or roll back
unfoldable pub compare_and_set {ℓ} :
    {A : Type ℓ} → (Job → Bool) → (Job → Job) → A → Result A → Table → Result A × Table
unfolding update rowcount
compare_and_set p f done lost rows =
    if rowcount p rows == 1 then (ok done, update p f rows) else (lost, rows)

-- `session.get`: the row with the primary key
abbrev pub first : List Job → Option Job
first [] = none
first (j ∷ rows) = some j

unfoldable pub sync_require_job : ℕ → String → Table → Result Job
unfolding select
sync_require_job job_id tenant_id rows = elim (first (select (has_id job_id) rows)) [
  | none ↦ err identity_error
  | some j ↦ if str_eq j.tenant_id tenant_id then ok j else err identity_error
]

abbrev pub is_claimable : ℕ → String → Job → Bool
is_claimable job_id tenant_id j = has_owner job_id tenant_id j && is_queued j.status

abbrev pub claimed : String → ℕ → ℕ → Job → Job
claimed token now expires j = record j {
  status = running;
  lease_token = some token;
  heartbeat_at = some now;
  lease_expires_at = some expires;
  started_at = some now;
  error = none;
}

-- `_sync_claim_running_impl`; `token` is the new lease token
unfoldable pub claim_running : Config → String → ℕ → ℕ → String → Table → Result String × Table
claim_running config token now job_id tenant_id rows =
    if is_blank tenant_id then (err ownership_error, rows) else elim (lease_duration_sec config) [
      | err e ↦ (err e, rows)
      | ok lease_sec ↦
          compare_and_set (is_claimable job_id tenant_id) (claimed token now (now + sec lease_sec))
            token (err ownership_error) rows
    ]

-- the WHERE of the statements that need the lease
abbrev pub holds_lease : ℕ → String → String → Job → Bool
holds_lease job_id tenant_id token j =
    has_owner job_id tenant_id j && is_running j.status && opt_eq j.lease_token (some token)

abbrev pub extended : ℕ → ℕ → Job → Job
extended now expires j = record j { heartbeat_at = some now; lease_expires_at = some expires }

-- `_sync_extend_lease_impl`
unfoldable pub extend_lease : Config → ℕ → ℕ → String → String → Table → Result Bool × Table
extend_lease config now job_id tenant_id token rows =
    if Text.is_empty token then (ok false, rows) else elim (lease_duration_sec config) [
      | err e ↦ (err e, rows)
      | ok lease_sec ↦
          compare_and_set (holds_lease job_id tenant_id token) (extended now (now + sec lease_sec))
            true (ok false) rows
    ]

abbrev pub finished : Option JobResult → ℕ → Job → Job
finished result now j = record j {
  status = completed;
  result = result;
  error = none;
  finished_at = some now;
  lease_token = none;
  lease_expires_at = none;
  index_bind = index_publication_bind_values result;
}

-- `_sync_mark_completed_impl`
unfoldable pub mark_completed :
    ℕ → ℕ → String → String → Option JobResult → Table → Result (Unit {0}) × Table
mark_completed now job_id tenant_id token result =
    compare_and_set (holds_lease job_id tenant_id token) (finished result now) tt
      (err ownership_error)

abbrev pub given_up : String → ℕ → Job → Job
given_up message now j = record j {
  status = failed;
  error = some message;
  finished_at = some now;
  lease_token = none;
  lease_expires_at = none;
}

module _ (redact : String → String) where
  -- `_sync_mark_failed_impl`
  unfoldable pub mark_failed : ℕ → ℕ → String → String → String → Table → Result (Unit {0}) × Table
  mark_failed now job_id tenant_id token error =
      compare_and_set (holds_lease job_id tenant_id token)
        (given_up (safe_error_message redact error max_error_len) now) tt (err ownership_error)

-- `JobLeaseHeartbeat.tick_once`: the flag `ownership_lost`, the answer, and the table; `reached` is
-- false where the call of the database raises
unfoldable pub tick_once :
    Config → Bool → ℕ → ℕ → String → String → Bool → Table → Bool × Bool × Table
unfolding extend_lease
tick_once config reached now job_id tenant_id token ownership_lost rows =
    if ownership_lost
    then (true, false, rows)
    else if not reached
    then (true, false, rows)
    else let (r, rows') = extend_lease config now job_id tenant_id token rows in
      elim r [
        | err e ↦ (true, false, rows')
        | ok extended_ok ↦ if extended_ok then (false, true, rows') else (true, false, rows')
      ]
