-- ===== src/Jobs/Moves.antt =====
-- ingestion/jobs.py and ingestion/liveness.py: what an action does to each row.
use rag_support_assistant.Prelude.{
  ℕ, ◌+◌, ◌≡◌, refl, ◌∙◌, ◌⊎◌, inl, inr, String, Bool, true, false, [], ◌∷◌, ◌++◌, if◌then◌else◌,
  Bool-cases, ◌==◌, some, is_some, ◌&&◌,
}
use rag_support_assistant.Jobs.{
  Job, Result, Table, ok, err, update, rowcount, sec, safe_error_message, max_error_len,
  ownership_error, is_blank, tenant_id_required, filename_required, source_path_required,
  fingerprint_required,
}
use rag_support_assistant.Text
use rag_support_assistant.Jobs.Settings.{
  Config, lease_duration_sec, queued_stale_sec, legacy_running_stale_sec, ◌>>=◌,
}
use rag_support_assistant.Jobs.Service.{
  JobRequest, new_job, create_or_reuse, violates_unique, mark_source_ready, insert_or_reuse,
  awaits_source, is_missing, set_celery_task_id, mark_job_running, mark_job_completed,
  mark_job_failed,
}
use rag_support_assistant.Jobs.Worker.{
  is_claimable, claimed, holds_lease, extended, finished, given_up, compare_and_set, claim_running,
  extend_lease, mark_completed, mark_failed,
}
use rag_support_assistant.Jobs.Reaper.{Counts, sweep, reap_stale_jobs}
use rag_support_assistant.Jobs.Actions.{
  Action, create, source_ready, set_task, api_running, api_completed, api_failed, claim, extend,
  complete, fail, reap, step, concerns, change, q_stale, l_stale, or_zero,
}
use rag_support_assistant.Jobs.Keys.{HasUniqueIds, change_job-eq-update}
use rag_support_assistant.Jobs.Pass.{sweep-eq-update}

-- a statement that is rolled back, or committed
compare_and_set-cases {ℓ} :
    {A : Type ℓ} (p : Job → Bool) (f : Job → Job) (done : A) (lost : Result A) (rows : Table)
    → ((compare_and_set p f done lost rows).1 ≡ rows)
      ⊎ ((compare_and_set p f done lost rows).1 ≡ update p f rows)
unfolding compare_and_set
compare_and_set-cases p f done lost rows = elim (Bool-cases (rowcount p rows == 1)) [
  | inl one ↦ inr (rw one refl)
  | inr other ↦ inl (rw other refl)
]

source_ready-cases :
    (i : ℕ) (t : String) (now : ℕ) (rows : Table)
    → ((mark_source_ready i t now rows).1 ≡ rows)
      ⊎ ((mark_source_ready i t now rows).1
          ≡ update (awaits_source i t) (λ j. record j { source_ready_at = some now }) rows)
unfolding mark_source_ready
source_ready-cases i t now rows = elim (Bool-cases (rowcount (awaits_source i t) rows == 1)) [
  | inl one ↦ inr (rw one refl)
  | inr other ↦ inl (rw other refl)
]

insert-cases :
    (r : JobRequest) (now : ℕ) (rows : Table)
    → ((insert_or_reuse r now rows).1 ≡ rows)
      ⊎ ((violates_unique (new_job r now) rows ≡ false)
          × ((insert_or_reuse r now rows).1 ≡ rows ++ new_job r now ∷ []))
unfolding insert_or_reuse
insert-cases r now rows = elim (Bool-cases (violates_unique (new_job r now) rows)) [
  | inl clash ↦ inl (rw (clash, insert_or_reuse) refl)
  | inr fresh ↦ inr (fresh, rw (fresh, insert_or_reuse) refl)
]

-- a row is added only where no unique index has it
create-cases :
    (r : JobRequest) (now : ℕ) (rows : Table)
    → ((create_or_reuse r now rows).1 ≡ rows)
      ⊎ ((violates_unique (new_job r now) rows ≡ false)
          × ((create_or_reuse r now rows).1 ≡ rows ++ new_job r now ∷ []))
unfolding create_or_reuse
create-cases r now rows =
    guarded (is_blank r.tenant_id) (Text.is_empty r.filename) (Text.is_empty r.source_path)
      (is_some r.idempotency_key_hash && is_missing r.payload_fingerprint)
  where
    guarded :
        (a b c d : Bool)
        → let result =
            if a
            then (err tenant_id_required, rows)
            else if b
            then (err filename_required, rows)
            else if c
            then (err source_path_required, rows)
            else if d
            then (err fingerprint_required, rows)
            else insert_or_reuse r now rows in
          (result.1 ≡ rows)
          ⊎ ((violates_unique (new_job r now) rows ≡ false)
              × (result.1 ≡ rows ++ new_job r now ∷ []))
    guarded true b c d = inl refl
    guarded false true c d = inl refl
    guarded false false true d = inl refl
    guarded false false false true = inl refl
    guarded false false false false = insert-cases r now rows

-- a statement that wants a lease time first
lease-cases {ℓ} :
    {A : Type ℓ} (stop : Bool) (early : Result A) (lease_sec : Result ℕ) (p : Job → Bool)
    (f : ℕ → Job → Job) (done : A) (lost : Result A) (rows : Table)
    → let otherwise : Result A × Table = elim lease_sec [
      | err e ↦ (err e, rows)
      | ok n ↦ compare_and_set p (f n) done lost rows
    ] in
      ((if stop then (early, rows) else otherwise).1 ≡ rows)
      ⊎ ((if stop then (early, rows) else otherwise).1 ≡ update p (f (or_zero lease_sec)) rows)
lease-cases true early lease_sec p f done lost rows = inl refl
lease-cases false early (err e) p f done lost rows = inl refl
lease-cases false early (ok n) p f done lost rows = compare_and_set-cases p (f n) done lost rows

reap-cases :
    (config : Config) (now : ℕ) (rows : Table)
    → ((reap_stale_jobs config now rows).1 ≡ rows)
      ⊎ ((reap_stale_jobs config now rows).1
          ≡ (sweep
              (sec (or_zero (queued_stale_sec config)))
              (sec (or_zero (legacy_running_stale_sec config)))
              now
              rows).1)
unfolding reap_stale_jobs
reap-cases config now rows = both (queued_stale_sec config) (legacy_running_stale_sec config)
  where
    both :
        (q l : Result ℕ)
        → let swept : Result Counts × Table =
            elim (do
              q_stale ← q
              legacy_stale ← l
              ok (sweep (sec q_stale) (sec legacy_stale) now rows)) [
                | err e ↦ (err e, rows)
                | ok (counts, rows') ↦ (ok counts, rows')
              ] in
          (swept.1 ≡ rows) ⊎ (swept.1 ≡ (sweep (sec (or_zero q)) (sec (or_zero l)) now rows).1)
    both (err e) l = inl refl
    both (ok q) (err e) = inl refl
    both (ok q) (ok l) = inr refl

module _ (redact : String → String) (config : Config) where
  abbrev pub Moves : Action → Job → Job → Type 0
  Moves a j k = (k ≡ j) ⊎ ((concerns redact config a j ≡ true) × (k ≡ change redact config a j))

  -- the three ends of an action
  abbrev pub Effect : Action → Table → Table → Type 0
  Effect a rows rows' =
      (rows' ≡ rows)
      ⊎ (rows' ≡ update (concerns redact config a) (change redact config a) rows)
      ⊎ ((r : JobRequest) × (now : ℕ) × (a ≡ create r now)
          × (violates_unique (new_job r now) rows ≡ false)
          × (rows' ≡ rows ++ new_job r now ∷ []))

  create-Effect :
      (r : JobRequest) (now : ℕ) (rows : Table)
      → Effect (create r now) rows (create_or_reuse r now rows).1
  create-Effect r now rows = elim (create-cases r now rows) [
    | inl same ↦ inl same
    | inr (fresh, added) ↦ inr (inr (r, now, refl, fresh, added))
  ]

  updated :
      (a : Action) (rows : Table) {rows' : Table}
      → (rows' ≡ rows) ⊎ (rows' ≡ update (concerns redact config a) (change redact config a) rows)
      → Effect a rows rows'
  updated a rows (inl same) = inl same
  updated a rows (inr moved) = inr (inl moved)

  pub step-Effect :
      (a : Action) (rows : Table) → HasUniqueIds rows → Effect a rows (step redact config a rows)
  unfolding step set_celery_task_id mark_job_running mark_job_completed mark_job_failed
      mark_completed mark_failed
  step-Effect (create r now) rows u = create-Effect r now rows
  step-Effect (source_ready i t now) rows u = elim (source_ready-cases i t now rows) [
    | inl same ↦ inl same
    | inr moved ↦ inr (inl moved)
  ]
  step-Effect (set_task i t task) rows u = inr (
      inl (
        change_job-eq-update i t (λ j. record j { celery_task_id = some task }) rows (λ j. refl)
          (u i)))
  step-Effect (api_running i t now) rows u = inr (
      inl (
        change_job-eq-update i t (change redact config (api_running i t now)) rows (λ j. refl)
          (u i)))
  step-Effect (api_completed i t result now) rows u = inr (
      inl (
        change_job-eq-update i t (change redact config (api_completed i t result now)) rows
          (λ j. refl) (u i)))
  step-Effect (api_failed i t error now) rows u = inr (
      inl (
        change_job-eq-update i t (change redact config (api_failed i t error now)) rows (λ j. refl)
          (u i)))
  step-Effect (claim token now i t) rows u = updated (claim token now i t) rows (
      unfold claim_running in
      lease-cases (is_blank t) (err ownership_error) (lease_duration_sec config) (is_claimable i t)
        (λ n. claimed token now (now + sec n)) token (err ownership_error) rows)
  step-Effect (extend now i t token) rows u = updated (extend now i t token) rows (
      unfold extend_lease in
      lease-cases (Text.is_empty token) (ok false) (lease_duration_sec config)
        (holds_lease i t token) (λ n. extended now (now + sec n)) true (ok false) rows)
  step-Effect (complete now i t token result) rows u =
      updated (complete now i t token result) rows (
        compare_and_set-cases (holds_lease i t token) (finished result now) tt (err ownership_error)
          rows)
  step-Effect (fail now i t token error) rows u = updated (fail now i t token error) rows (
      compare_and_set-cases (holds_lease i t token)
        (given_up (safe_error_message redact error max_error_len) now) tt (err ownership_error)
        rows)
  step-Effect (reap now) rows u = elim (reap-cases config now rows) [
    | inl same ↦ inl same
    | inr swept ↦
        inr (inl (swept ∙ sweep-eq-update (q_stale redact config) (l_stale redact config) now rows))
  ]
