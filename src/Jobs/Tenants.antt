-- ===== src/Jobs/Tenants.antt =====
-- ingestion/jobs.py: what one tenant's operations do to another tenant's jobs.
use text.Mathlib.Text.{◌==◌ as str_eq}
use rag_support_assistant.Prelude.{
  ◌≡◌, ◌≢◌, refl, ◌∙◌, inl, inr, String, Bool, true, false, List, [], ◌∷◌, ◌++◌, All, arith, eq_iff,
  Bool-cases,
}
use rag_support_assistant.Jobs.{Job, Table, select, update}
use rag_support_assistant.Jobs.Settings.{Config}
use rag_support_assistant.Jobs.Service.{new_job}
use rag_support_assistant.Jobs.Actions.{
  Action, create, source_ready, set_task, api_running, api_completed, api_failed, claim, extend,
  complete, fail, reap, step, run, concerns, change,
}
use rag_support_assistant.Jobs.Keys.{HasUniqueIds}
use rag_support_assistant.Jobs.Moves.{step-Effect}
use rag_support_assistant.Jobs.Histories.{step_unique}

-- the rows of one tenant
abbrev pub view : String → Table → List Job
view t rows = select (λ j. str_eq j.tenant_id t) rows

-- the action is on behalf of another tenant than `t`; the reaper acts for none
abbrev pub IsForeign : String → Action → Type 0
IsForeign t (create r now) = r.tenant_id ≢ t
IsForeign t (source_ready i u now) = u ≢ t
IsForeign t (set_task i u task) = u ≢ t
IsForeign t (api_running i u now) = u ≢ t
IsForeign t (api_completed i u result now) = u ≢ t
IsForeign t (api_failed i u error now) = u ≢ t
IsForeign t (claim token now i u) = u ≢ t
IsForeign t (extend now i u token) = u ≢ t
IsForeign t (complete now i u token result) = u ≢ t
IsForeign t (fail now i u token error) = u ≢ t
IsForeign t (reap now) = ⊥

select-update :
    (p q : Job → Bool) (f : Job → Job) (rows : Table)
    → ((j : Job) → p j ≡ true → (q j ≡ false) × (q (f j) ≡ false))
    → select q (update p f rows) ≡ select q rows
unfolding select update
select-update p q f [] h = refl
select-update p q f (j ∷ rows) h = elim (Bool-cases (p j)) [
  | inl met ↦ let (before, after) = h j met in rw (met, before, after) (select-update p q f rows h)
  | inr unmet ↦ rw (unmet, select-update p q f rows h) refl
]

select-append :
    (q : Job → Bool) (rows : Table) (k : Job)
    → q k ≡ false
    → select q (rows ++ k ∷ []) ≡ select q rows
unfolding select
select-append q [] k h = rw h refl
select-append q (j ∷ rows) k h = rw (select-append q rows k h) refl

ne_test : (s t : String) → s ≢ t → str_eq s t ≡ false
ne_test s t h = elim (Bool-cases (str_eq s t)) [
  | inl same ↦ absurd (h ((eq_iff s t).0 same))
  | inr other ↦ other
]

module _ (redact : String → String) (config : Config) (t : String) where
  change-tenant :
      (a : Action) (j : Job) → IsForeign t a → (change redact config a j).tenant_id ≡ j.tenant_id
  change-tenant (create r now) j h = refl
  change-tenant (source_ready i u now) j h = refl
  change-tenant (set_task i u task) j h = refl
  change-tenant (api_running i u now) j h = refl
  change-tenant (api_completed i u result now) j h = refl
  change-tenant (api_failed i u error now) j h = refl
  change-tenant (claim token now i u) j h = refl
  change-tenant (extend now i u token) j h = refl
  change-tenant (complete now i u token result) j h = refl
  change-tenant (fail now i u token error) j h = refl
  change-tenant (reap now) j h = absurd h

  concerned_tenant :
      (a : Action) (j : Job)
      → IsForeign t a
      → concerns redact config a j ≡ true
      → str_eq j.tenant_id t ≡ false
  concerned_tenant a j h met = ne_test j.tenant_id t (owner a h met)
    where
      owner : (a : Action) → IsForeign t a → concerns redact config a j ≡ true → j.tenant_id ≢ t
      owner (create r now) h met = absurd (cc)
      owner (source_ready i u now) h met = ground (arith, eq_iff j.tenant_id u)
      owner (set_task i u task) h met = ground (arith, eq_iff j.tenant_id u)
      owner (api_running i u now) h met = ground (arith, eq_iff j.tenant_id u)
      owner (api_completed i u result now) h met = ground (arith, eq_iff j.tenant_id u)
      owner (api_failed i u error now) h met = ground (arith, eq_iff j.tenant_id u)
      owner (claim token now i u) h met = ground (arith, eq_iff j.tenant_id u)
      owner (extend now i u token) h met = ground (arith, eq_iff j.tenant_id u)
      owner (complete now i u token result) h met = ground (arith, eq_iff j.tenant_id u)
      owner (fail now i u token error) h met = ground (arith, eq_iff j.tenant_id u)
      owner (reap now) h met = absurd h

  step-view :
      (a : Action) (rows : Table)
      → HasUniqueIds rows
      → IsForeign t a
      → view t (step redact config a rows) ≡ view t rows
  step-view a rows u h = elim (step-Effect redact config a rows u) [
    | inl same ↦ rw same refl
    | inr (inl moved) ↦ rw moved (
        select-update (concerns redact config a) (λ j. str_eq j.tenant_id t)
          (change redact config a) rows
          (λ j met.
            (concerned_tenant a j h met, rw (change-tenant a j h) (concerned_tenant a j h met))))
    | inr (inr (r, now, is_create, fresh, added)) ↦ rw added (
        select-append (λ j. str_eq j.tenant_id t) rows (new_job r now)
          (ne_test r.tenant_id t (rw is_create at h)))
  ]

  -- Whatever operations the API and the workers run for other tenants, each tenant sees exactly
  -- the rows that it saw before, in the same order and with the same contents.
  pub foreign_history-view :
      (history : List Action) (rows : Table)
      → HasUniqueIds rows
      → All (IsForeign t) history
      → view t (run redact config history rows) ≡ view t rows
  unfolding run
  foreign_history-view [] rows u h = refl
  foreign_history-view (a ∷ history) rows u h =
      foreign_history-view history (step redact config a rows) (step_unique redact config a rows u)
        h.1
      ∙ step-view a rows u h.0
