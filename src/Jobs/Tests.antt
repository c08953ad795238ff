-- ===== src/Jobs/Tests.antt =====
-- Runs of the job service, and its theorems at concrete tables.
use rag_support_assistant.Prelude.{
  ℕ, ◌+◌, ◌≡◌, ◌≢◌, refl, String, true, false, none, some, [], ◌∷◌, ◌&&◌, arith, pos, eq_iff,
}
use rag_support_assistant.Text
use rag_support_assistant.Jobs.{
  Job, Table, ok, rowcount, select, publication, null, value, index_publication_bind_values, has_id,
  sec,
}
use rag_support_assistant.Jobs.Settings.{
  Config, Source, lease_duration_sec, queued_stale_sec, legacy_running_stale_sec,
}
use rag_support_assistant.Jobs.Service.{
  JobRequest, create_or_reuse, insert_or_reuse, violates_unique, reuse, new_job,
}
use rag_support_assistant.Jobs.Worker.{
  claimed, claim_running, compare_and_set, mark_completed, extend_lease, tick_once,
}
use rag_support_assistant.Jobs.Reaper.{reap_stale_jobs, sweep}
use rag_support_assistant.Jobs.Actions.{claim, reap, run, create, is_stale, q_stale, l_stale}
use rag_support_assistant.Jobs.Keys.{HasUniqueIds}
use rag_support_assistant.Jobs.Claims.{claimed_once}
use rag_support_assistant.Jobs.Fencing.{Rejects, completed_job_fenced, reaped_job_fenced}
use rag_support_assistant.Jobs.Tenants.{view, foreign_history-view}
use rag_support_assistant.Jobs.Identity.{HasUniqueKeys, IsWellFormed}
use rag_support_assistant.Jobs.Replay.{create-replay, replay}
use rag_support_assistant.Jobs.Stale.{IsReaped, sweep_exact}
use rag_support_assistant.Jobs.Alive.{beat, sweeping, other, live, timely_worker_completes}
use rag_support_assistant.Jobs.Tables.{Evolves}

abbrev unset : Source
unset = record { env = none; configured = none }

abbrev defaults : Config
defaults = record {
  lease = unset;
  heartbeat = unset;
  queued_stale = unset;
  legacy_running_stale = unset;
}

abbrev as_is : String → String
as_is s = s

abbrev upload : JobRequest
upload = record {
  tenant_id = "acme";
  filename = "a.md";
  source_path = "data/uploads/a.md";
  job_id = 7;
  celery_task_id = some "ingest-7";
  idempotency_key_hash = some "k1";
  payload_fingerprint = some "f1";
}

abbrev second_upload : JobRequest
second_upload = record upload { job_id = 8 }

abbrev waiting : Table
waiting = new_job upload 1000 ∷ []

upload_creates : (create_or_reuse upload 1000 []).1 ≡ waiting
unfolding create_or_reuse insert_or_reuse violates_unique Text.strip
upload_creates = refl

second_upload_replays :
    (create_or_reuse second_upload 2000 waiting).0
    ≡ ok (record { job = new_job upload 1000; created = false })
unfolding create_or_reuse insert_or_reuse violates_unique reuse select Text.strip
second_upload_replays = refl

binding :
    index_publication_bind_values (
      some (record {
        index_publication = publication (value " c1 " none) null (value "4" (some (pos 4)));
        other = "";
      }))
    ≡ record {
      active_collection = some "c1";
      previous_collection = none;
      manifest_generation = some (pos 4);
    }
unfolding index_publication_bind_values Text.strip
binding = refl

waiting_unique : HasUniqueIds waiting
unfolding rowcount
waiting_unique i = ground arith

claim_ok : (claim_running defaults "tok" 2000 7 "acme" waiting).0 ≡ ok "tok"
unfolding claim_running compare_and_set lease_duration_sec Text.strip
claim_ok = refl

claimed_once_example :
    (claim_running defaults "tok2" 9000 7 "acme" (
      run as_is defaults (reap 5000 ∷ []) (claim_running defaults "tok" 2000 7 "acme" waiting).1)).0
    ≢ ok "tok2"
claimed_once_example =
    claimed_once as_is defaults 7 "tok" "tok" 2000 "acme" waiting waiting_unique claim_ok
      (reap 5000 ∷ []) "tok2" "tok2" 9000 "acme"

abbrev leased : Table
leased = claimed "tok" 2000 (2000 + sec 120) (new_job upload 1000) ∷ []

leased_unique : HasUniqueIds leased
unfolding rowcount
leased_unique i = ground arith

complete_ok : (mark_completed 3000 7 "acme" "tok" none leased).0 ≡ ok tt
unfolding mark_completed compare_and_set
complete_ok = refl

completed_job_fenced_example :
    Rejects as_is defaults 7
      (run as_is defaults (reap 5000 ∷ []) (mark_completed 3000 7 "acme" "tok" none leased).1)
completed_job_fenced_example =
    completed_job_fenced as_is defaults 7 3000 "acme" "tok" none leased leased_unique complete_ok
      (reap 5000 ∷ [])

-- the lease is over at this time, inclusive
abbrev too_late : ℕ
too_late = 120002000

reap_ok :
    (reap_stale_jobs defaults too_late leased).0
    ≡ ok (record { queued_stale = 0; lease_expired = 1; legacy_running = 0 })
unfolding reap_stale_jobs sweep queued_stale_sec legacy_running_stale_sec
reap_ok = refl

one_stale :
    rowcount
      (λ j. has_id 7 j && is_stale (q_stale as_is defaults) (l_stale as_is defaults) too_late j)
      leased
    ≡ 1
unfolding rowcount queued_stale_sec legacy_running_stale_sec
one_stale = refl

reaped_job_fenced_example :
    Rejects as_is defaults 7
      (run as_is defaults (reap 130000000 ∷ []) (reap_stale_jobs defaults too_late leased).1)
reaped_job_fenced_example =
    reaped_job_fenced as_is defaults 7 too_late
      (record { queued_stale = 0; lease_expired = 1; legacy_running = 0 }) leased leased_unique
      one_stale reap_ok (reap 130000000 ∷ [])

acme_not_other : ◌≢◌ {A = String} "acme" "other"
acme_not_other = ground (arith, eq_iff "acme" "other")

foreign_history-view_example :
    view "other" (run as_is defaults (claim "tok" 2000 7 "acme" ∷ create upload 4000 ∷ []) waiting)
    ≡ view "other" waiting
foreign_history-view_example =
    foreign_history-view as_is defaults "other"
      (claim "tok" 2000 7 "acme" ∷ create upload 4000 ∷ []) waiting waiting_unique
      (acme_not_other, (acme_not_other, tt))

no_rows_ids : HasUniqueIds []
unfolding rowcount
no_rows_ids i = omega arith

no_rows_keys : HasUniqueKeys []
unfolding rowcount
no_rows_keys t k = omega arith

created_ok :
    (create_or_reuse upload 1000 []).0 ≡ ok (record { job = new_job upload 1000; created = true })
unfolding create_or_reuse insert_or_reuse violates_unique Text.strip
created_ok = refl

well_formed : IsWellFormed second_upload
unfolding Text.strip
well_formed = (refl, refl, refl, refl)

create-replay_example :
    let after =
      run as_is defaults (claim "tok" 2000 7 "acme" ∷ []) (create_or_reuse upload 1000 []).1 in
    (j : Job) × (j.id ≡ 7)
    × (create_or_reuse second_upload 9000 after ≡ (replay (some "f1") second_upload j, after))
create-replay_example =
    create-replay as_is defaults upload second_upload 1000 9000 "k1" []
      (record { job = new_job upload 1000; created = true }) no_rows_ids no_rows_keys refl refl
      created_ok refl refl refl well_formed (claim "tok" 2000 7 "acme" ∷ [])

sweep_exact_example :
    Evolves (IsReaped 900 1800 too_late) (λ k. ⊥) leased (sweep 900 1800 too_late leased).1
sweep_exact_example = sweep_exact 900 1800 too_late leased

lease_default : lease_duration_sec defaults ≡ ok 120
unfolding lease_duration_sec
lease_default = refl

timely_worker_completes_example :
    (mark_completed 250000000 7 "acme" "tok" none (
      live as_is defaults 7 "acme" "tok"
        (sweeping 100000000
          ∷ beat 110000000
          ∷ sweeping 200000000
          ∷ other (create second_upload 5)
          ∷ [])
        (claim_running defaults "tok" 2000 7 "acme" waiting).1)).0
    ≡ ok tt
timely_worker_completes_example =
    timely_worker_completes as_is defaults 7 "acme" "tok" "tok" 2000 120 250000000 none waiting
      (sweeping 100000000
        ∷ beat 110000000
        ∷ sweeping 200000000
        ∷ other (create second_upload 5)
        ∷ [])
      waiting_unique refl lease_default claim_ok (omega arith)

heartbeat_keeps : (tick_once defaults true 5000 7 "acme" "tok" false leased).1 ≡ true
unfolding tick_once extend_lease compare_and_set lease_duration_sec
heartbeat_keeps = refl

heartbeat_of_another : (tick_once defaults true 5000 7 "acme" "tok2" false leased).0 ≡ true
unfolding tick_once extend_lease compare_and_set lease_duration_sec
heartbeat_of_another = refl
