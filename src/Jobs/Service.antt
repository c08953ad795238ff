-- ===== src/Jobs/Service.antt =====
-- ingestion/jobs.py: the asynchronous side, used by the API. The session of each operation sees and
-- changes the table at one point of time.
use text.Mathlib.Text.{◌==◌ as str_eq}
use rag_support_assistant.Prelude.{
  ℕ, String, Bool, true, false, ◌&&◌, ◌||◌, not, Option, none, some, [], ◌∷◌, ◌++◌, ltb, ◌==◌,
  is_some, if◌then◌else◌,
}
use rag_support_assistant.Text
use rag_support_assistant.Jobs.{
  Job, JobResult, Result, Table, ok, err, queued, running, completed, failed, is_queued, opt_eq,
  select, update, rowcount, scalar_one_or_none, has_id, has_owner, save, no_binding,
  index_publication_bind_values, safe_error_message, max_error_len, is_blank, tenant_id_required,
  filename_required, source_path_required, fingerprint_required, integrity_error,
  idempotency_conflict,
}

pub record JobRequest : Type 0 where
  pub tenant_id : String
  pub filename : String
  pub source_path : String
  pub job_id : ℕ  -- the caller's, or a new `uuid4`
  pub celery_task_id : Option String
  pub idempotency_key_hash : Option String
  pub payload_fingerprint : Option String

pub record CreateJobOutcome : Type 0 where
  pub job : Job
  pub created : Bool

-- the row that `_create_or_reuse_ingestion_job_impl` adds
abbrev pub new_job : JobRequest → ℕ → Job
new_job r now = record {
  id = r.job_id;
  tenant_id = r.tenant_id;
  filename = r.filename;
  source_path = r.source_path;
  status = queued;
  error = none;
  result = none;
  celery_task_id = r.celery_task_id;
  lease_token = none;
  heartbeat_at = none;
  lease_expires_at = none;
  idempotency_key_hash = r.idempotency_key_hash;
  payload_fingerprint = r.payload_fingerprint;
  source_ready_at = none;
  index_bind = no_binding;
  created_at = now;
  started_at = none;
  finished_at = none;
}

-- `IngestionJob.idempotency_key_hash == key` of one tenant; a null column equals nothing
unfoldable pub has_key : String → Option String → Job → Bool
has_key tenant_id none j = false
has_key tenant_id (some key) j =
    str_eq j.tenant_id tenant_id && opt_eq j.idempotency_key_hash (some key)

-- the primary key, and the unique index on the tenant and the key hash
unfoldable pub violates_unique : Job → Table → Bool
unfolding rowcount has_key
violates_unique j rows =
    ltb 0 (rowcount (has_id j.id) rows)
    || ltb 0 (rowcount (has_key j.tenant_id j.idempotency_key_hash) rows)

abbrev pub is_missing : Option String → Bool
is_missing none = true
is_missing (some s) = Text.is_empty s

-- what the `except IntegrityError` branch makes of the row with the same key
unfoldable pub reuse : JobRequest → Result (Option Job) → Result CreateJobOutcome
reuse r (err e) = err e
reuse r (ok none) = err integrity_error
reuse r (ok (some existing)) =
    if opt_eq existing.payload_fingerprint r.payload_fingerprint
    then ok (record { job = existing; created = false })
    else err idempotency_conflict

-- the INSERT and its two ends; `not idempotency_key_hash` holds of an empty text too
unfoldable pub insert_or_reuse : JobRequest → ℕ → Table → Result CreateJobOutcome × Table
insert_or_reuse r now rows =
    if violates_unique (new_job r now) rows
    then (
      if is_missing r.idempotency_key_hash
          then err integrity_error
          else reuse r
              (scalar_one_or_none (select (has_key r.tenant_id r.idempotency_key_hash) rows)),
      rows,
    )
    else (ok (record { job = new_job r now; created = true }), rows ++ new_job r now ∷ [])

-- `_create_or_reuse_ingestion_job_impl`
unfoldable pub create_or_reuse : JobRequest → ℕ → Table → Result CreateJobOutcome × Table
create_or_reuse r now rows =
    if is_blank r.tenant_id
    then (err tenant_id_required, rows)
    else if Text.is_empty r.filename
    then (err filename_required, rows)
    else if Text.is_empty r.source_path
    then (err source_path_required, rows)
    else if is_some r.idempotency_key_hash && is_missing r.payload_fingerprint
    then (err fingerprint_required, rows)
    else insert_or_reuse r now rows

-- `get_job_for_tenant`
unfoldable pub get_job_for_tenant : ℕ → String → Table → Result (Option Job)
unfolding select
get_job_for_tenant job_id tenant_id rows =
    scalar_one_or_none (select (has_owner job_id tenant_id) rows)

-- `get_job_for_tenant_by_identifier`; `job_uuid` is what `uuid.UUID(identifier)` gives
unfoldable pub get_job_by_identifier : String → Option ℕ → String → Table → Result (Option Job)
unfolding select get_job_for_tenant
get_job_by_identifier identifier job_uuid tenant_id rows =
    let by_task : Result (Option Job) = scalar_one_or_none (
      select (λ j. opt_eq j.celery_task_id (some identifier) && str_eq j.tenant_id tenant_id)
        rows) in
    elim job_uuid [
      | none ↦ by_task
      | some job_id ↦ elim (get_job_for_tenant job_id tenant_id rows) [
        | err e ↦ err e
        | ok none ↦ by_task
        | ok (some j) ↦ ok (some j)
      ]
    ]

-- the WHERE of `_mark_source_ready_impl`
abbrev pub awaits_source : ℕ → String → Job → Bool
awaits_source job_id tenant_id j =
    has_owner job_id tenant_id j && is_queued j.status && not (is_some j.source_ready_at)

-- the answer to an UPDATE that found no row: a row that is queued and ready already
abbrev pub already_ready : Result (Option Job) → Result (Option Job)
already_ready (err e) = err e
already_ready (ok none) = ok none
already_ready (ok (some j)) =
    if is_queued j.status && is_some j.source_ready_at then ok (some j) else ok none

-- `mark_source_ready`
unfoldable pub mark_source_ready : ℕ → String → ℕ → Table → Result (Option Job) × Table
unfolding select update rowcount get_job_for_tenant
mark_source_ready job_id tenant_id now rows =
    let rows' =
      update (awaits_source job_id tenant_id) (λ j. record j { source_ready_at = some now }) rows in
    if rowcount (awaits_source job_id tenant_id) rows == 1
    then (get_job_for_tenant job_id tenant_id rows', rows')
    else (already_ready (get_job_for_tenant job_id tenant_id rows), rows)

-- SELECT one row, change its object, commit
unfoldable pub change_job : ℕ → String → (Job → Job) → Table → Result (Option Job) × Table
unfolding get_job_for_tenant update
change_job job_id tenant_id f rows = elim (get_job_for_tenant job_id tenant_id rows) [
  | err e ↦ (err e, rows)
  | ok none ↦ (ok none, rows)
  | ok (some j) ↦ (ok (some (f j)), save (f j) rows)
]

unfoldable pub set_celery_task_id : ℕ → String → String → Table → Result (Option Job) × Table
unfolding change_job
set_celery_task_id job_id tenant_id celery_task_id =
    change_job job_id tenant_id (λ j. record j { celery_task_id = some celery_task_id })

-- `job.started_at or _utc_now()`
abbrev pub or_now : Option ℕ → ℕ → Option ℕ
or_now none now = some now
or_now (some t) now = some t

unfoldable pub mark_job_running : ℕ → String → ℕ → Table → Result (Option Job) × Table
unfolding change_job
mark_job_running job_id tenant_id now =
    change_job job_id tenant_id
      λ j. record j { status = running; started_at = or_now j.started_at now; error = none }

unfoldable pub mark_job_completed :
    ℕ → String → Option JobResult → ℕ → Table → Result (Option Job) × Table
unfolding change_job index_publication_bind_values
mark_job_completed job_id tenant_id result now = change_job job_id tenant_id λ j. record j {
  started_at = or_now j.started_at now;
  status = completed;
  result = result;
  error = none;
  finished_at = some now;
  index_bind = index_publication_bind_values result;
}

module _ (redact : String → String) where
  unfoldable pub mark_job_failed : ℕ → String → String → ℕ → Table → Result (Option Job) × Table
  unfolding change_job
  mark_job_failed job_id tenant_id error now = change_job job_id tenant_id λ j. record j {
    started_at = or_now j.started_at now;
    status = failed;
    error = some (safe_error_message redact error max_error_len);
    finished_at = some now;
  }
