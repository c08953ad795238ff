-- ===== src/Jobs/Reaper.antt =====
-- ingestion/liveness.py: the reaper of stale asynchronous jobs.
use rag_support_assistant.Prelude.{
  ℕ, ◌+◌, String, Bool, false, ◌&&◌, ◌||◌, not, Option, none, some, leb, is_some,
}
use rag_support_assistant.Jobs.{
  Job, Result, Table, ok, err, failed, is_queued, is_running, update, rowcount, sec,
}
use rag_support_assistant.Jobs.Settings.{Config, queued_stale_sec, legacy_running_stale_sec, ◌>>=◌}

abbrev pub msg_queued_stale : String
msg_queued_stale = "Ingestion job timed out while queued"

abbrev pub msg_lease_expired : String
msg_lease_expired = "Ingestion job lease expired"

abbrev pub msg_legacy_running : String
msg_legacy_running = "Ingestion job abandoned (stale running without lease)"

-- `_clear_lease_values`
abbrev pub clear_lease : ℕ → String → Job → Job
clear_lease now message j = record j {
  status = failed;
  error = some message;
  finished_at = some now;
  lease_token = none;
  lease_expires_at = none;
  result = none;
}

-- `t <= cutoff` with `cutoff = now - stale`: both sides moved, since a number has no sign here
abbrev pub is_older : ℕ → ℕ → ℕ → Bool
is_older t stale now = leb (t + stale) now

-- a comparison with a null column holds for no row
abbrev pub opt_older : Option ℕ → ℕ → ℕ → Bool
opt_older none stale now = false
opt_older (some t) stale now = is_older t stale now

-- 1) queued, with a Celery task, and created long ago
abbrev pub queued_stale : ℕ → ℕ → Job → Bool
queued_stale stale now j =
    is_queued j.status && is_some j.celery_task_id && is_older j.created_at stale now

-- 2) running, with a Celery task and a lease that is over
abbrev pub lease_expired : ℕ → Job → Bool
lease_expired now j =
    is_running j.status
    && is_some j.celery_task_id
    && is_some j.lease_token
    && opt_older j.lease_expires_at 0 now

-- 3) running, with a Celery task and no lease, and started (or else created) long ago
abbrev pub legacy_running : ℕ → ℕ → Job → Bool
legacy_running stale now j =
    is_running j.status
    && is_some j.celery_task_id
    && not (is_some j.lease_token)
    && (opt_older j.started_at stale now
        || (not (is_some j.started_at) && is_older j.created_at stale now))

pub record Counts : Type 0 where
  pub queued_stale : ℕ
  pub lease_expired : ℕ
  pub legacy_running : ℕ

-- the three UPDATE statements, each on the rows that the one before it left
unfoldable pub sweep : ℕ → ℕ → ℕ → Table → Counts × Table
unfolding update rowcount
sweep q_stale legacy_stale now rows =
    let p = queued_stale q_stale now in
    let rows₁ = update p (clear_lease now msg_queued_stale) rows in
    let rows₂ = update (lease_expired now) (clear_lease now msg_lease_expired) rows₁ in
    let q = legacy_running legacy_stale now in
    let rows₃ = update q (clear_lease now msg_legacy_running) rows₂ in
    (
      record {
        queued_stale = rowcount p rows;
        lease_expired = rowcount (lease_expired now) rows₁;
        legacy_running = rowcount q rows₂;
      },
      rows₃,
    )

-- `reap_stale_jobs`
unfoldable pub reap_stale_jobs : Config → ℕ → Table → Result Counts × Table
reap_stale_jobs config now rows =
    elim (do
      q_stale ← queued_stale_sec config
      legacy_stale ← legacy_running_stale_sec config
      ok (sweep (sec q_stale) (sec legacy_stale) now rows)) [
        | err e ↦ (err e, rows)
        | ok (counts, rows') ↦ (ok counts, rows')
      ]
