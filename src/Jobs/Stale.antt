-- ===== src/Jobs/Stale.antt =====
-- ingestion/liveness.py: which jobs the reaper takes.
use rag_support_assistant.Prelude.{
  ℕ, ◌+◌, ◌≤◌, ◌≡◌, refl, ◌∙◌, ◌⊎◌, inl, inr, String, Bool, true, false, none, some, [], ◌∷◌, All,
  arith, Bool-cases, Option-cases, if◌then◌else◌, is_some,
}
use rag_support_assistant.Jobs.{Job, Table, queued, running, failed, update, rowcount}
use rag_support_assistant.Jobs.Reaper.{
  sweep, queued_stale, lease_expired, legacy_running, clear_lease, msg_queued_stale,
  msg_lease_expired, msg_legacy_running,
}
use rag_support_assistant.Jobs.Actions.{is_stale, reaped}
use rag_support_assistant.Jobs.Tables.{Evolves, Evolves-update, rowcount-update, update_none}
use rag_support_assistant.Jobs.Keys.{update-All}
use rag_support_assistant.Jobs.Pass.{sweep-eq-update}

-- an abandoned asynchronous job, as the documentation of the reaper says it: waiting too long, or
-- running past its lease, or running with no lease since too long; each limit is inclusive
pub data IsAbandoned (q l now : ℕ) (j : Job) : Type 0 where
  waiting :
      j.status ≡ queued
      → is_some j.celery_task_id ≡ true
      → j.created_at + q ≤ now
      → IsAbandoned q l now j
  lease_over :
      (token : String) (expires : ℕ)
      → j.status ≡ running
      → is_some j.celery_task_id ≡ true
      → j.lease_token ≡ some token
      → j.lease_expires_at ≡ some expires
      → expires ≤ now
      → IsAbandoned q l now j
  no_lease_started :
      (started : ℕ)
      → j.status ≡ running
      → is_some j.celery_task_id ≡ true
      → j.lease_token ≡ none
      → j.started_at ≡ some started
      → started + l ≤ now
      → IsAbandoned q l now j
  no_lease_created :
      j.status ≡ running
      → is_some j.celery_task_id ≡ true
      → j.lease_token ≡ none
      → j.started_at ≡ none
      → j.created_at + l ≤ now
      → IsAbandoned q l now j

module _ (q l now : ℕ) where
  abandoned_stale : (j : Job) → IsAbandoned q l now j → is_stale q l now j ≡ true
  abandoned_stale j (waiting s c d) = ground arith
  abandoned_stale j (lease_over token expires s c t e d) = ground arith
  abandoned_stale j (no_lease_started started s c t b d) = ground arith
  abandoned_stale j (no_lease_created s c t b d) = ground arith

  expired_abandoned : (j : Job) → lease_expired now j ≡ true → IsAbandoned q l now j
  expired_abandoned j h = elim (Option-cases j.lease_token) [
    | inl no_token ↦ absurd (ground arith)
    | inr (token, has_token) ↦ elim (Option-cases j.lease_expires_at) [
      | inl no_end ↦ absurd (ground arith)
      | inr (expires, ends) ↦
          lease_over token expires (ground arith) (ground arith) has_token ends (ground arith)
    ]
  ]

  legacy_abandoned : (j : Job) → legacy_running l now j ≡ true → IsAbandoned q l now j
  legacy_abandoned j h = elim (Option-cases j.started_at) [
    | inl not_started ↦
        no_lease_created (ground arith) (ground arith) (ground arith) not_started (ground arith)
    | inr (started, starts) ↦
        no_lease_started started (ground arith) (ground arith) (ground arith) starts (ground arith)
  ]

  stale_abandoned : (j : Job) → is_stale q l now j ≡ true → IsAbandoned q l now j
  stale_abandoned j h = elim (Bool-cases (queued_stale q now j)) [
    | inl met ↦ waiting (ground arith) (ground arith) (ground arith)
    | inr unmet ↦ elim (Bool-cases (lease_expired now j)) [
      | inl over ↦ expired_abandoned j over
      | inr live ↦ legacy_abandoned j (ground arith)
    ]
  ]

  -- what the reaper does to one row
  abbrev pub IsReaped : Job → Job → Type 0
  IsReaped j k =
      (IsAbandoned q l now j
        × (k.status ≡ failed)
        × (k.lease_token ≡ none)
        × (k.lease_expires_at ≡ none)
        × (k.result ≡ none)
        × (k.finished_at ≡ some now)
        × (k.heartbeat_at ≡ j.heartbeat_at)
        × (k.id ≡ j.id)
        × (k.tenant_id ≡ j.tenant_id)
        × (¬ IsAbandoned q l now k))
      ⊎ ((¬ IsAbandoned q l now j) × (k ≡ j))

  reaped_unstale : (j : Job) → is_stale q l now (reaped q l now j) ≡ false
  reaped_unstale j = ground arith

  unstale :
      (j : Job) → is_stale q l now (if is_stale q l now j then reaped q l now j else j) ≡ false
  unstale j = elim (Bool-cases (is_stale q l now j)) [
    | inl met ↦ rw met (reaped_unstale j)
    | inr unmet ↦ rw unmet unmet
  ]

  reaped_row : (j : Job) → IsReaped j (if is_stale q l now j then reaped q l now j else j)
  reaped_row j = elim (Bool-cases (is_stale q l now j)) [
    | inl met ↦ rw met (
        inl (
          stale_abandoned j met,
          ground arith,
          ground arith,
          ground arith,
          ground arith,
          ground arith,
          ground arith,
          ground arith,
          ground arith,
          λ a. cc (abandoned_stale (reaped q l now j) a, reaped_unstale j),
        ))
    | inr unmet ↦ rw unmet (inr ((λ a. cc (abandoned_stale j a)), refl))
  ]

  -- A sweep of the reaper fails exactly the abandoned jobs: it clears their lease and result and
  -- keeps their last heartbeat and owner, leaves every other row as it was, adds and removes no row,
  -- and leaves no abandoned row behind.
  pub sweep_exact : (rows : Table) → Evolves IsReaped (λ k. ⊥) rows (sweep q l now rows).1
  sweep_exact rows =
      rw (sweep-eq-update q l now rows)
        (Evolves-update IsReaped (λ k. ⊥) (is_stale q l now) (reaped q l now) rows reaped_row)

  unstale_count :
      (p : Job → Bool)
      → ((j : Job) → p j ≡ true → is_stale q l now j ≡ true)
      → (rows : Table) → All (λ j. is_stale q l now j ≡ false) rows
      → rowcount p rows ≡ 0
  unfolding rowcount
  unstale_count p h [] a = refl
  unstale_count p h (j ∷ rows) a = ground (arith, h j, unstale_count p h rows a.1)

  unstale_sweep :
      (rows : Table)
      → All (λ j. is_stale q l now j ≡ false) rows
      → sweep q l now rows
        ≡ (record { queued_stale = 0; lease_expired = 0; legacy_running = 0 }, rows)
  unfolding sweep
  unstale_sweep rows a =
      let none_waiting = unstale_count (queued_stale q now) (λ j h. ground arith) rows a in
      let none_over = unstale_count (lease_expired now) (λ j h. ground arith) rows a in
      let none_legacy = unstale_count (legacy_running l now) (λ j h. ground arith) rows a in
      rw (update_none (queued_stale q now) (clear_lease now msg_queued_stale) rows none_waiting) (
        rw (update_none (lease_expired now) (clear_lease now msg_lease_expired) rows none_over) (
          rw
            (
              update_none (legacy_running l now) (clear_lease now msg_legacy_running) rows
                  none_legacy,
              none_waiting,
              none_over,
              none_legacy,
            )
            refl))

  swept_unstale :
      (rows : Table)
      → All (λ j. is_stale q l now j ≡ false) (update (is_stale q l now) (reaped q l now) rows)
  swept_unstale rows =
      update-All (is_stale q l now) (reaped q l now) (λ _. Unit) (λ j. is_stale q l now j ≡ false)
        (λ j _. unstale j) rows (anything rows)
    where
      anything : (rows : Table) → All (λ _. Unit {0}) rows
      anything [] = tt
      anything (j ∷ rows) = (tt, anything rows)

  counts_found :
      (rows : Table)
      → ((sweep q l now rows).0.queued_stale ≡ rowcount (queued_stale q now) rows)
        × ((sweep q l now rows).0.lease_expired ≡ rowcount (lease_expired now) rows)
        × ((sweep q l now rows).0.legacy_running ≡ rowcount (legacy_running l now) rows)
  unfolding sweep
  counts_found rows = (
    refl,
    rowcount-update (lease_expired now) (lease_expired now) (queued_stale q now)
        (clear_lease now msg_queued_stale) rows (λ j. ground arith),
    rowcount-update (legacy_running l now) (legacy_running l now) (lease_expired now)
          (clear_lease now msg_lease_expired)
          (update (queued_stale q now) (clear_lease now msg_queued_stale) rows) (λ j. ground arith)
        ∙ rowcount-update (legacy_running l now) (legacy_running l now) (queued_stale q now)
            (clear_lease now msg_queued_stale) rows (λ j. ground arith),
  )

  -- The counts of a sweep are those of the three kinds of abandoned rows in the table that it
  -- found, although the statements run one after the other; and a second sweep at the same time
  -- finds nothing more and changes nothing.
  pub sweep_counts :
      (rows : Table)
      → ((sweep q l now rows).0.queued_stale ≡ rowcount (queued_stale q now) rows)
        × ((sweep q l now rows).0.lease_expired ≡ rowcount (lease_expired now) rows)
        × ((sweep q l now rows).0.legacy_running ≡ rowcount (legacy_running l now) rows)
        × (sweep q l now (sweep q l now rows).1 ≡ (
          record { queued_stale = 0; lease_expired = 0; legacy_running = 0 },
          (sweep q l now rows).1,
        ))
  sweep_counts rows =
      let (waiting_count, over_count, legacy_count) = counts_found rows in
      (
        waiting_count,
        over_count,
        legacy_count,
        unstale_sweep (sweep q l now rows).1
            (rw (sweep-eq-update q l now rows) (swept_unstale rows)),
      )
