-- ===== src/Jobs/Fencing.antt =====
-- ingestion/jobs.py and ingestion/liveness.py: a worker that has lost its lease, or has finished.
use rag_support_assistant.Prelude.{
  ℕ, ◌<◌, ◌≡◌, ◌≢◌, refl, inl, inr, String, Bool, true, false, Option, List, [], ◌∷◌, ◌&&◌, All,
  arith, is_some, if◌then◌else◌, Bool-cases,
}
use rag_support_assistant.Jobs.{
  Job, JobResult, Table, Result, ok, err, update, rowcount, has_id, is_queued, ownership_error, sec,
}
use rag_support_assistant.Jobs.Settings.{Config, queued_stale_sec, legacy_running_stale_sec, ◌>>=◌}
use rag_support_assistant.Jobs.Worker.{
  compare_and_set, extend_lease, mark_completed, mark_failed, holds_lease, finished,
}
use rag_support_assistant.Jobs.Reaper.{Counts, reap_stale_jobs, sweep}
use rag_support_assistant.Jobs.Actions.{
  Action, create, source_ready, set_task, api_running, api_completed, api_failed, claim, extend,
  complete, fail, reap, step, run, concerns, change, is_stale, reaped, q_stale, l_stale, or_zero,
}
use rag_support_assistant.Jobs.Tables.{rowcount_mono}
use rag_support_assistant.Jobs.Keys.{HasUniqueIds, update_one-All, update-All, unique_meets}
use rag_support_assistant.Jobs.Moves.{Moves}
use rag_support_assistant.Jobs.Pass.{sweep-eq-update}
use rag_support_assistant.Jobs.Histories.{step_unique, step_present, run-All}

-- no worker may claim the row, and none holds a lease of it
abbrev pub IsOver : Job → Type 0
IsOver j = (is_queued j.status ≡ false) × (is_some j.lease_token ≡ false)

abbrev pub IsFenced : ℕ → Job → Type 0
IsFenced i j = has_id i j ≡ true → IsOver j

fenced_none :
    (i : ℕ) (t token : String) (rows : Table)
    → All (IsFenced i) rows
    → rowcount (holds_lease i t token) rows ≡ 0
unfolding rowcount
fenced_none i t token [] h = refl
fenced_none i t token (j ∷ rows) h = ground (arith, fenced_none i t token rows h.1, no_lease j h.0)
  where
    no_lease : (j : Job) → IsFenced i j → holds_lease i t token j ≡ false
    no_lease j h = ground arith

lost {ℓ} :
    {A : Type ℓ} (p : Job → Bool) (f : Job → Job) (done : A) (refused : Result A) (rows : Table)
    → rowcount p rows ≡ 0
    → compare_and_set p f done refused rows ≡ (refused, rows)
unfolding compare_and_set
lost p f done refused rows h = rw h refl

extend_none :
    (config : Config) (now i : ℕ) (t token : String) (rows : Table)
    → rowcount (holds_lease i t token) rows ≡ 0
    → ((extend_lease config now i t token rows).0 ≢ ok true)
      × ((extend_lease config now i t token rows).1 ≡ rows)
unfolding extend_lease compare_and_set
extend_none config now i t token rows h = ground arith

completed_one :
    (now i : ℕ) (t token : String) (result : Option JobResult) (rows : Table)
    → (mark_completed now i t token result rows).0 ≡ ok tt
    → (rowcount (holds_lease i t token) rows ≡ 1)
      × ((mark_completed now i t token result rows).1
          ≡ update (holds_lease i t token) (finished result now) rows)
unfolding mark_completed compare_and_set
completed_one now i t token result rows h = ground arith

reaped_rows :
    (config : Config) (now : ℕ) (counts : Counts) (rows : Table)
    → (reap_stale_jobs config now rows).0 ≡ ok counts
    → (reap_stale_jobs config now rows).1
      ≡ update
          (is_stale
            (sec (or_zero (queued_stale_sec config)))
            (sec (or_zero (legacy_running_stale_sec config)))
            now)
          (reaped
            (sec (or_zero (queued_stale_sec config)))
            (sec (or_zero (legacy_running_stale_sec config)))
            now)
          rows
unfolding reap_stale_jobs
reaped_rows config now counts rows =
    both (queued_stale_sec config) (legacy_running_stale_sec config)
  where
    both :
        (q l : Result ℕ)
        → let swept : Result Counts × Table =
            elim (do
              q_stale ← q
              legacy_stale ← l
              ok (sweep (sec q_stale) (sec legacy_stale) now rows)) [
                | err e ↦ (err e, rows)
                | ok (counts', rows') ↦ (ok counts', rows')
              ] in
          swept.0 ≡ ok counts
          → swept.1
            ≡ update
                (is_stale (sec (or_zero q)) (sec (or_zero l)) now)
                (reaped (sec (or_zero q)) (sec (or_zero l)) now)
                rows
    both (err e) l h = absurd (cc)
    both (ok q) (err e) h = absurd (cc)
    both (ok q) (ok l) h = sweep-eq-update (sec q) (sec l) now rows

lease_id : (i : ℕ) (t token : String) (j : Job) → holds_lease i t token j ≡ true → has_id i j ≡ true
lease_id i t token j h = ground arith

module _ (redact : String → String) (config : Config) (i : ℕ) where
  Moves-IsFenced :
      (a : Action) (j k : Job) → Moves redact config a j k → IsFenced i j → IsFenced i k
  Moves-IsFenced a j k (inl same) h = rw same h
  Moves-IsFenced a j k (inr (met, moved)) h = rw moved (changed a j met h)
    where
      changed :
          (a : Action) (j : Job)
          → concerns redact config a j ≡ true
          → IsFenced i j
          → IsFenced i (change redact config a j)
      changed (create r now) j met h = h
      changed (source_ready k t now) j met h = h
      changed (set_task k t task) j met h = h
      changed (api_running k t now) j met h = λ this. (refl, (h this).1)
      changed (api_completed k t result now) j met h = λ this. (refl, (h this).1)
      changed (api_failed k t error now) j met h = λ this. (refl, (h this).1)
      changed (claim token now k t) j met h = λ this. absurd (ground (arith, h this))
      changed (extend now k t token) j met h = h
      changed (complete now k t token result) j met h = λ _. (refl, refl)
      changed (fail now k t token error) j met h = λ _. (refl, refl)
      changed (reap now) j met h = ground arith

  -- what every worker is told of a job that is over
  abbrev pub Rejects : Table → Type 0
  Rejects rows =
      (now : ℕ) (t token : String)
      → ((extend_lease config now i t token rows).0 ≢ ok true)
        × ((extend_lease config now i t token rows).1 ≡ rows)
        × ((result : Option JobResult)
            → mark_completed now i t token result rows ≡ (err ownership_error, rows))
        × ((error : String)
            → mark_failed redact now i t token error rows ≡ (err ownership_error, rows))

  fenced-Rejects : (rows : Table) → All (IsFenced i) rows → Rejects rows
  unfolding mark_completed mark_failed
  fenced-Rejects rows h now t token =
      let none_left = fenced_none i t token rows h in
      let (refused, same) = extend_none config now i t token rows none_left in
      (
        refused,
        same,
        (λ result. lost _ _ _ _ rows none_left),
        (λ error. lost _ _ _ _ rows none_left),
      )

  over_forever :
      (history : List Action) (rows : Table)
      → HasUniqueIds rows
      → 0 < rowcount (has_id i) rows
      → All (IsFenced i) rows
      → Rejects (run redact config history rows)
  over_forever history rows u here h = fenced-Rejects (run redact config history rows) (
      run-All redact config (IsFenced i) i Moves-IsFenced (λ r at other this. absurd (cc)) history
        rows u here h)

  -- After a worker's completion of a job has been committed, every later heartbeat, completion and
  -- failure report for that job, with whatever token, is refused and leaves the table as it was,
  -- whatever operations come in between.
  pub completed_job_fenced :
      (now : ℕ) (t token : String) (result : Option JobResult) (rows : Table)
      → HasUniqueIds rows
      → (mark_completed now i t token result rows).0 ≡ ok tt
      → (history : List Action)
      → Rejects (run redact config history (mark_completed now i t token result rows).1)
  unfolding step
  completed_job_fenced now t token result rows u is_ok history =
      let (one, moved) = completed_one now i t token result rows is_ok in
      over_forever history (mark_completed now i t token result rows).1
        (step_unique redact config (complete now i t token result) rows u)
        (step_present redact config (complete now i t token result) rows i u (
          omega
            (arith, rowcount_mono (holds_lease i t token) (has_id i) rows (lease_id i t token))))
        (rw moved (
          update_one-All (holds_lease i t token) (has_id i) (lease_id i t token)
            (finished result now) IsOver (λ j met. (refl, refl)) rows (u i) one))

  abbrev stale : ℕ → Job → Bool
  stale now = is_stale (q_stale redact config) (l_stale redact config) now

  abbrev made : ℕ → Job → Job
  made now = reaped (q_stale redact config) (l_stale redact config) now

  made-IsOver : (now : ℕ) (j : Job) → IsOver (made now j)
  made-IsOver now j = ground arith

  reaped_over :
      (now : ℕ) (j : Job)
      → (has_id i j ≡ true → stale now j ≡ true)
      → IsFenced i (if stale now j then made now j else j)
  reaped_over now j h = elim (Bool-cases (stale now j)) [
    | inl met ↦ rw met (λ _. made-IsOver now j)
    | inr unmet ↦ rw unmet (λ this. absurd (cc (h this)))
  ]

  stale_id :
      (now : ℕ) (j : Job)
      → (has_id i j && is_stale (q_stale redact config) (l_stale redact config) now j) ≡ true
      → has_id i j ≡ true
  stale_id now j h = ground arith

  -- Once the reaper has taken a job (its lease was over, or it waited too long), a worker that
  -- still runs it is refused every heartbeat, completion and failure report, with whatever token
  -- and whatever operations come in between, and writes nothing.
  pub reaped_job_fenced :
      (now : ℕ) (counts : Counts) (rows : Table)
      → HasUniqueIds rows
      → rowcount
          (λ j. has_id i j && is_stale (q_stale redact config) (l_stale redact config) now j)
          rows
        ≡ 1
      → (reap_stale_jobs config now rows).0 ≡ ok counts
      → (history : List Action)
      → Rejects (run redact config history (reap_stale_jobs config now rows).1)
  unfolding step
  reaped_job_fenced now counts rows u one is_ok history =
      over_forever history (reap_stale_jobs config now rows).1
        (step_unique redact config (reap now) rows u)
        (step_present redact config (reap now) rows i u (
          omega (
            arith,
            rowcount_mono
                (λ j. has_id i j && is_stale (q_stale redact config) (l_stale redact config) now j)
                (has_id i) rows (stale_id now),
          )))
        (rw (reaped_rows config now counts rows is_ok) (
          update-All (stale now) (made now) (λ j. has_id i j ≡ true → stale now j ≡ true)
            (IsFenced i) (reaped_over now) rows
            (unique_meets (has_id i) (stale now) rows (u i) one)))
