-- ===== src/Jobs/Pass.antt =====
-- ingestion/jobs.py: the statements of the reaper as one pass over the rows.
use rag_support_assistant.Prelude.{ℕ, ◌≡◌, refl, ◌∙◌, ap, inl, inr, if◌then◌else◌, Bool-cases, ◌||◌}
use rag_support_assistant.Jobs.{Job, Table, update}
use rag_support_assistant.Jobs.Reaper.{
  sweep, clear_lease, queued_stale, lease_expired, legacy_running, msg_queued_stale,
  msg_lease_expired, msg_legacy_running,
}
use rag_support_assistant.Jobs.Actions.{is_stale, reaped}
use rag_support_assistant.Jobs.Tables.{update-update}

module _ (q l now : ℕ) where
  -- what a row is after the first statement, and after the second
  abbrev after_queued : Job → Job
  after_queued j = if queued_stale q now j then clear_lease now msg_queued_stale j else j

  first_two :
      (j : Job)
      → (if lease_expired now (after_queued j)
          then clear_lease now msg_lease_expired (after_queued j)
          else after_queued j)
        ≡ (if queued_stale q now j || lease_expired now j
            then (if queued_stale q now j
                then clear_lease now msg_queued_stale j
                else clear_lease now msg_lease_expired j)
            else j)
  first_two j = elim (Bool-cases (queued_stale q now j)) [
    | inl met ↦ rw met refl
    | inr unmet ↦ rw unmet refl
  ]

  abbrev after_lease : Job → Job
  after_lease j =
      if queued_stale q now j || lease_expired now j
      then (if queued_stale q now j
          then clear_lease now msg_queued_stale j
          else clear_lease now msg_lease_expired j)
      else j

  all_three :
      (j : Job)
      → (if legacy_running l now (after_lease j)
          then clear_lease now msg_legacy_running (after_lease j)
          else after_lease j)
        ≡ (if is_stale q l now j then reaped q l now j else j)
  all_three j = elim (Bool-cases (queued_stale q now j)) [
    | inl met ↦ rw met refl
    | inr unmet ↦ rw unmet (elim (Bool-cases (lease_expired now j)) [
      | inl over ↦ rw over refl
      | inr live ↦ rw live refl
    ])
  ]

-- the reaper's three statements are one pass: a row that one of them takes meets no other
pub sweep-eq-update :
    (q l now : ℕ) (rows : Table)
    → (sweep q l now rows).1 ≡ update (is_stale q l now) (reaped q l now) rows
unfolding sweep
sweep-eq-update q l now rows =
    ap (update (legacy_running l now) (clear_lease now msg_legacy_running)) (
      update-update (queued_stale q now) (lease_expired now)
        (λ j. queued_stale q now j || lease_expired now j) (clear_lease now msg_queued_stale)
        (clear_lease now msg_lease_expired)
        (λ j.
          if queued_stale q now j
          then clear_lease now msg_queued_stale j
          else clear_lease now msg_lease_expired j)
        rows (first_two q l now))
    ∙ update-update (λ j. queued_stale q now j || lease_expired now j) (legacy_running l now)
        (is_stale q l now)
        (λ j.
          if queued_stale q now j
          then clear_lease now msg_queued_stale j
          else clear_lease now msg_lease_expired j)
        (clear_lease now msg_legacy_running) (reaped q l now) rows (all_three q l now)
