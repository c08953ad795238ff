-- ===== src/Jobs/Alive.antt =====
-- ingestion/jobs.py and ingestion/liveness.py: a worker that renews its lease in time.
use text.Mathlib.TextPositions.{eq_refl}
use rag_support_assistant.Prelude.{
  ℕ, ◌+◌, ◌<◌, ◌≡◌, ◌≢◌, refl, sym, ap, ◌∙◌, inl, inr, String, Bool, true, false, Option, none,
  some, List, [], ◌∷◌, arith, Bool-cases, if◌then◌else◌, ◌&&◌, ◌==◌,
}
use rag_support_assistant.Text
use rag_support_assistant.Jobs.{Job, JobResult, Table, ok, update, rowcount, has_id, sec}
use rag_support_assistant.Jobs.Settings.{Config, lease_duration_sec}
use rag_support_assistant.Jobs.Service.{JobRequest, new_job}
use rag_support_assistant.Jobs.Worker.{
  claim_running, compare_and_set, extend_lease, mark_completed, holds_lease, extended, claimed,
  is_claimable,
}
use rag_support_assistant.Jobs.Actions.{
  Action, create, source_ready, set_task, api_running, api_completed, api_failed, claim, extend,
  complete, fail, reap, step, concerns, change,
}
use rag_support_assistant.Jobs.Tables.{
  rowcount-update, rowcount-append, rowcount_mono, rowcount-update_le,
}
use rag_support_assistant.Jobs.Keys.{HasUniqueIds}
use rag_support_assistant.Jobs.Moves.{step-Effect}
use rag_support_assistant.Jobs.Histories.{step_unique, change-id}
use rag_support_assistant.Jobs.Claims.{claim_running-ok}

abbrev ends_at : ℕ → Option ℕ → Bool
ends_at e none = false
ends_at e (some x) = x == e

-- the row is leased by the token until `e`
abbrev pub leased_until : ℕ → String → String → ℕ → Job → Bool
leased_until i t token e j = holds_lease i t token j && ends_at e j.lease_expires_at

-- the action names another job than `i`
abbrev pub IsElsewhere : ℕ → Action → Type 0
IsElsewhere i (create r now) = Unit
IsElsewhere i (source_ready k t now) = k ≢ i
IsElsewhere i (set_task k t task) = k ≢ i
IsElsewhere i (api_running k t now) = k ≢ i
IsElsewhere i (api_completed k t result now) = k ≢ i
IsElsewhere i (api_failed k t error now) = k ≢ i
IsElsewhere i (claim token now k t) = k ≢ i
IsElsewhere i (extend now k t token) = k ≢ i
IsElsewhere i (complete now k t token result) = k ≢ i
IsElsewhere i (fail now k t token error) = k ≢ i
IsElsewhere i (reap now) = ⊥

-- what happens while a worker runs its job: its own heartbeats, sweeps, and work on other jobs
pub data Event : Type 0 where
  beat : ℕ → Event
  sweeping : ℕ → Event
  other : Action → Event

-- every sweep comes before the end of the lease that the last heartbeat set
abbrev pub IsTimely : ℕ → ℕ → ℕ → List Event → Type 0
IsTimely lease i e [] = Unit
IsTimely lease i e (beat now ∷ es) = IsTimely lease i (now + lease) es
IsTimely lease i e (sweeping now ∷ es) = (now < e) × IsTimely lease i e es
IsTimely lease i e (other a ∷ es) = IsElsewhere i a × IsTimely lease i e es

one_unmet :
    (p : Job → Bool) (j : Job) (rows : Table)
    → p j ≡ false
    → rowcount p rows + rowcount p (j ∷ []) ≡ rowcount p rows
unfolding rowcount
one_unmet p j rows h = rw h (omega arith)

module _ (redact : String → String) (config : Config) (i : ℕ) (t token : String) where
  abbrev pub action : Event → Action
  action (beat now) = extend now i t token
  action (sweeping now) = reap now
  action (other a) = a

  pub live : List Event → Table → Table
  live [] rows = rows
  live (e ∷ es) rows = live es (step redact config (action e) rows)

  dead_after :
      (now e : ℕ) (j : Job) → leased_until i t token e (change redact config (reap now) j) ≡ false
  dead_after now e j = ground arith

  dead_before :
      (now e : ℕ) (j : Job)
      → now < e
      → concerns redact config (reap now) j ≡ true
      → leased_until i t token e j ≡ false
  dead_before now e j early met = ground arith

  elsewhere_false : (e : ℕ) (j : Job) → has_id i j ≡ false → leased_until i t token e j ≡ false
  elsewhere_false e j h = rw h refl

  elsewhere_id :
      (a : Action) (j : Job)
      → IsElsewhere i a
      → concerns redact config a j ≡ true
      → has_id i j ≡ false
  elsewhere_id (create r now) j away met = absurd (cc)
  elsewhere_id (source_ready k u now) j away met = ground arith
  elsewhere_id (set_task k u task) j away met = ground arith
  elsewhere_id (api_running k u now) j away met = ground arith
  elsewhere_id (api_completed k u result now) j away met = ground arith
  elsewhere_id (api_failed k u error now) j away met = ground arith
  elsewhere_id (claim token' now k u) j away met = ground arith
  elsewhere_id (extend now k u token') j away met = ground arith
  elsewhere_id (complete now k u token' result) j away met = ground arith
  elsewhere_id (fail now k u token' error) j away met = ground arith
  elsewhere_id (reap now) j away met = absurd away

  sweep_keeps :
      (now e : ℕ) (j : Job)
      → now < e
      → leased_until i t token e
          (if concerns redact config (reap now) j then change redact config (reap now) j else j)
        ≡ leased_until i t token e j
  sweep_keeps now e j early = elim (Bool-cases (concerns redact config (reap now) j)) [
    | inl met ↦ rw met (dead_after now e j ∙ sym (dead_before now e j early met))
    | inr unmet ↦ rw unmet refl
  ]

  other_keeps :
      (a : Action) (e : ℕ) (j : Job)
      → IsElsewhere i a
      → leased_until i t token e
          (if concerns redact config a j then change redact config a j else j)
        ≡ leased_until i t token e j
  other_keeps a e j away = elim (Bool-cases (concerns redact config a j)) [
    | inl met ↦ rw met (
        elsewhere_false e (change redact config a j)
          (ap (λ n. n == i) (change-id redact config a j) ∙ elsewhere_id a j away met)
        ∙ sym (elsewhere_false e j (elsewhere_id a j away met)))
    | inr unmet ↦ rw unmet refl
  ]

  extend_renews :
      (now n e : ℕ) (rows : Table)
      → lease_duration_sec config ≡ ok n
      → Text.is_empty token ≡ false
      → rowcount (holds_lease i t token) rows ≡ 1
      → (extend_lease config now i t token rows).1
        ≡ update (holds_lease i t token) (extended now (now + sec n)) rows
  unfolding extend_lease compare_and_set
  extend_renews now n e rows cfg nonempty one = ground arith

  -- the row is leased by the token until `e`
  abbrev pub IsHeld : ℕ → Table → Type 0
  IsHeld e rows = HasUniqueIds rows × (0 < rowcount (leased_until i t token e) rows)

  kept_count :
      (p : Job → Bool) (a : Action) (rows : Table)
      → HasUniqueIds rows
      → ((j : Job) → p (if concerns redact config a j then change redact config a j else j) ≡ p j)
      → ((r : JobRequest) (now : ℕ) → p (new_job r now) ≡ false)
      → rowcount p (step redact config a rows) ≡ rowcount p rows
  kept_count p a rows u keep fresh = elim (step-Effect redact config a rows u) [
    | inl same ↦ rw same refl
    | inr (inl moved) ↦
        rw moved (rowcount-update p p (concerns redact config a) (change redact config a) rows keep)
    | inr (inr (r, now, is_create, new, added)) ↦
        rw (added, rowcount-append p rows (new_job r now ∷ []))
          (one_unmet p (new_job r now) rows (fresh r now))
  ]

  unleased : (e : ℕ) (r : JobRequest) (now : ℕ) → leased_until i t token e (new_job r now) ≡ false
  unleased e r now = ground arith

  leased_id : (e : ℕ) (j : Job) → leased_until i t token e j ≡ true → holds_lease i t token j ≡ true
  leased_id e j h = ground arith

  held_id : (j : Job) → holds_lease i t token j ≡ true → has_id i j ≡ true
  held_id j h = ground arith

  held_one : (e : ℕ) (rows : Table) → IsHeld e rows → rowcount (holds_lease i t token) rows ≡ 1
  held_one e rows (u, some_held) = omega (
    arith,
    u i,
    rowcount_mono (leased_until i t token e) (holds_lease i t token) rows (leased_id e),
    rowcount_mono (holds_lease i t token) (has_id i) rows held_id,
  )

  renewed :
      (now expires : ℕ) (j : Job)
      → holds_lease i t token j ≡ true
      → leased_until i t token expires
          (if holds_lease i t token j then extended now expires j else j)
        ≡ true
  renewed now expires j h = rw h (ground arith)

  beat-IsHeld :
      (now n e : ℕ) (rows : Table)
      → lease_duration_sec config ≡ ok n
      → Text.is_empty token ≡ false
      → IsHeld e rows
      → IsHeld (now + sec n) (step redact config (extend now i t token) rows)
  unfolding step
  beat-IsHeld now n e rows cfg nonempty h = (
    step_unique redact config (extend now i t token) rows h.0,
    rw (extend_renews now n e rows cfg nonempty (held_one e rows h)) (
        omega (
          arith,
          held_one e rows h,
          rowcount-update_le (holds_lease i t token) (leased_until i t token (now + sec n))
              (holds_lease i t token) (extended now (now + sec n)) rows (renewed now (now + sec n)),
        )),
  )

  live-IsHeld :
      (n : ℕ) (es : List Event) (e : ℕ) (rows : Table)
      → lease_duration_sec config ≡ ok n
      → Text.is_empty token ≡ false
      → IsTimely (sec n) i e es
      → IsHeld e rows
      → (last : ℕ) × IsHeld last (live es rows)
  unfolding live
  live-IsHeld n [] e rows cfg nonempty timely h = (e, h)
  live-IsHeld n (beat now ∷ es) e rows cfg nonempty timely h =
      live-IsHeld n es (now + sec n) (step redact config (extend now i t token) rows) cfg nonempty
        timely (beat-IsHeld now n e rows cfg nonempty h)
  live-IsHeld n (sweeping now ∷ es) e rows cfg nonempty timely h =
      live-IsHeld n es e (step redact config (reap now) rows) cfg nonempty timely.1 (
        step_unique redact config (reap now) rows h.0,
        rw
            (kept_count (leased_until i t token e) (reap now) rows h.0
              (λ j. sweep_keeps now e j timely.0) (λ r at. unleased e r at))
            h.1,
      )
  live-IsHeld n (other a ∷ es) e rows cfg nonempty timely h =
      live-IsHeld n es e (step redact config a rows) cfg nonempty timely.1 (
        step_unique redact config a rows h.0,
        rw
            (kept_count (leased_until i t token e) a rows h.0 (λ j. other_keeps a e j timely.0)
              (λ r at. unleased e r at))
            h.1,
      )

  completes :
      (later : ℕ) (result : Option JobResult) (rows : Table)
      → rowcount (holds_lease i t token) rows ≡ 1
      → (mark_completed later i t token result rows).0 ≡ ok tt
  unfolding mark_completed compare_and_set
  completes later result rows one = rw one refl

  newly_claimed :
      (now expires : ℕ) (j : Job)
      → is_claimable i t j ≡ true
      → leased_until i t token expires
          (if is_claimable i t j then claimed token now expires j else j)
        ≡ true
  newly_claimed now expires j h = rw h (ground (arith, eq_refl token))

  claim-IsHeld :
      (got : String) (now n : ℕ) (rows : Table)
      → HasUniqueIds rows
      → lease_duration_sec config ≡ ok n
      → (claim_running config token now i t rows).0 ≡ ok got
      → IsHeld (now + sec n) (claim_running config token now i t rows).1
  unfolding step
  claim-IsHeld got now n rows u cfg is_ok =
      let (m, cfg', same, one, moved) = claim_running-ok config token got now i t rows is_ok in
      let same_lease : m ≡ n = cc in
      (
        step_unique redact config (claim token now i t) rows u,
        rw (moved, same_lease)
            (omega (
              arith,
              one,
              rowcount-update_le (is_claimable i t) (leased_until i t token (now + sec n))
                  (is_claimable i t) (claimed token now (now + sec n)) rows
                  (newly_claimed now (now + sec n)),
            )),
      )

  -- A worker that has claimed a job completes it, if its heartbeats renew the lease ahead of the
  -- reaper: whatever other workers, tenants and uploads do to other jobs in between, its lease is
  -- never taken, and its completion is committed.
  pub timely_worker_completes :
      (got : String) (now n later : ℕ) (result : Option JobResult) (rows : Table) (es : List Event)
      → HasUniqueIds rows
      → Text.is_empty token ≡ false
      → lease_duration_sec config ≡ ok n
      → (claim_running config token now i t rows).0 ≡ ok got
      → IsTimely (sec n) i (now + sec n) es
      → (mark_completed later i t token result
          (live es (claim_running config token now i t rows).1)).0
        ≡ ok tt
  timely_worker_completes got now n later result rows es u nonempty cfg is_ok timely =
      let rows' = (claim_running config token now i t rows).1 in
      let (last, still) =
        live-IsHeld n es (now + sec n) rows' cfg nonempty timely
          (claim-IsHeld got now n rows u cfg is_ok) in
      completes later result (live es rows') (held_one last (live es rows') still)
