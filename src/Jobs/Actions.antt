-- ===== src/Jobs/Actions.antt =====
-- Every operation on the table of jobs as one action, so that a history is a list of actions; and
-- for each action the test and the change of a row that its statement makes.
use rag_support_assistant.Prelude.{
  ℕ, ◌+◌, String, Bool, false, ◌||◌, Option, none, some, List, [], ◌∷◌, if◌then◌else◌,
}
use rag_support_assistant.Jobs.{
  Job, JobResult, Result, Table, ok, err, running, completed, failed, has_owner, sec,
  safe_error_message, max_error_len, index_publication_bind_values,
}
use rag_support_assistant.Jobs.Settings.{
  Config, lease_duration_sec, queued_stale_sec, legacy_running_stale_sec,
}
use rag_support_assistant.Jobs.Service.{
  JobRequest, create_or_reuse, awaits_source, or_now, mark_source_ready, set_celery_task_id,
  mark_job_running, mark_job_completed, mark_job_failed,
}
use rag_support_assistant.Jobs.Worker.{
  claim_running, extend_lease, mark_completed, mark_failed, is_claimable, claimed, holds_lease,
  extended, finished, given_up,
}
use rag_support_assistant.Jobs.Reaper.{
  reap_stale_jobs, queued_stale, lease_expired, legacy_running, clear_lease, msg_queued_stale,
  msg_lease_expired, msg_legacy_running,
}

pub data Action : Type 0 where
  create : JobRequest → ℕ → Action
  source_ready : ℕ → String → ℕ → Action
  set_task : ℕ → String → String → Action
  api_running : ℕ → String → ℕ → Action
  api_completed : ℕ → String → Option JobResult → ℕ → Action
  api_failed : ℕ → String → String → ℕ → Action
  claim : String → ℕ → ℕ → String → Action
  extend : ℕ → ℕ → String → String → Action
  complete : ℕ → ℕ → String → String → Option JobResult → Action
  fail : ℕ → ℕ → String → String → String → Action
  reap : ℕ → Action

-- a row that one of the reaper's statements takes, and what it makes of it
abbrev pub is_stale : ℕ → ℕ → ℕ → Job → Bool
is_stale q_stale legacy_stale now j =
    queued_stale q_stale now j || lease_expired now j || legacy_running legacy_stale now j

abbrev pub reaped : ℕ → ℕ → ℕ → Job → Job
reaped q_stale legacy_stale now j =
    if queued_stale q_stale now j
    then clear_lease now msg_queued_stale j
    else if lease_expired now j
    then clear_lease now msg_lease_expired j
    else clear_lease now msg_legacy_running j

abbrev pub or_zero : Result ℕ → ℕ
or_zero (ok n) = n
or_zero (err e) = 0

module _ (redact : String → String) (config : Config) where
  unfoldable pub step : Action → Table → Table
  step (create r now) rows = (create_or_reuse r now rows).1
  step (source_ready i t now) rows = (mark_source_ready i t now rows).1
  step (set_task i t task) rows = (set_celery_task_id i t task rows).1
  step (api_running i t now) rows = (mark_job_running i t now rows).1
  step (api_completed i t result now) rows = (mark_job_completed i t result now rows).1
  step (api_failed i t error now) rows = (mark_job_failed redact i t error now rows).1
  step (claim token now i t) rows = (claim_running config token now i t rows).1
  step (extend now i t token) rows = (extend_lease config now i t token rows).1
  step (complete now i t token result) rows = (mark_completed now i t token result rows).1
  step (fail now i t token error) rows = (mark_failed redact now i t token error rows).1
  step (reap now) rows = (reap_stale_jobs config now rows).1

  unfoldable pub run : List Action → Table → Table
  unfolding step
  run [] rows = rows
  run (a ∷ as') rows = run as' (step a rows)

  abbrev pub lease : ℕ
  lease = sec (or_zero (lease_duration_sec config))

  abbrev pub q_stale : ℕ
  q_stale = sec (or_zero (queued_stale_sec config))

  abbrev pub l_stale : ℕ
  l_stale = sec (or_zero (legacy_running_stale_sec config))

  -- the rows that an action may change
  abbrev pub concerns : Action → Job → Bool
  concerns (create r now) j = false
  concerns (source_ready i t now) j = awaits_source i t j
  concerns (set_task i t task) j = has_owner i t j
  concerns (api_running i t now) j = has_owner i t j
  concerns (api_completed i t result now) j = has_owner i t j
  concerns (api_failed i t error now) j = has_owner i t j
  concerns (claim token now i t) j = is_claimable i t j
  concerns (extend now i t token) j = holds_lease i t token j
  concerns (complete now i t token result) j = holds_lease i t token j
  concerns (fail now i t token error) j = holds_lease i t token j
  concerns (reap now) j = is_stale q_stale l_stale now j

  -- what it makes of such a row
  abbrev pub change : Action → Job → Job
  change (create r now) j = j
  change (source_ready i t now) j = record j { source_ready_at = some now }
  change (set_task i t task) j = record j { celery_task_id = some task }
  change (api_running i t now) j = record j {
    status = running;
    started_at = or_now j.started_at now;
    error = none;
  }
  change (api_completed i t result now) j = record j {
    started_at = or_now j.started_at now;
    status = completed;
    result = result;
    error = none;
    finished_at = some now;
    index_bind = index_publication_bind_values result;
  }
  change (api_failed i t error now) j = record j {
    started_at = or_now j.started_at now;
    status = failed;
    error = some (safe_error_message redact error max_error_len);
    finished_at = some now;
  }
  change (claim token now i t) j = claimed token now (now + lease) j
  change (extend now i t token) j = extended now (now + lease) j
  change (complete now i t token result) j = finished result now j
  change (fail now i t token error) j =
      given_up (safe_error_message redact error max_error_len) now j
  change (reap now) j = reaped q_stale l_stale now j
