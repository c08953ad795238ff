-- ===== src/Jobs/Histories.antt =====
-- ingestion/jobs.py and ingestion/liveness.py: lists of actions.
use rag_support_assistant.Prelude.{
  ℕ, ◌+◌, ◌<◌, ◌≡◌, refl, sym, ◌∙◌, ap, ◌⊎◌, inl, inr, String, false, List, [], ◌∷◌, All, arith,
  if◌then◌else◌, Bool-cases, ◌==◌,
}
use rag_support_assistant.Jobs.{Job, Table, rowcount, has_id}
use rag_support_assistant.Jobs.Settings.{Config}
use rag_support_assistant.Jobs.Service.{JobRequest, new_job, violates_unique}
use rag_support_assistant.Jobs.Actions.{
  Action, create, source_ready, set_task, api_running, api_completed, api_failed, claim, extend,
  complete, fail, reap, step, run, concerns, change,
}
use rag_support_assistant.Jobs.Tables.{
  rowcount-update, rowcount-append, Evolves, Evolves-refl, Evolves-append, Evolves-update,
  Evolves-All,
}
use rag_support_assistant.Jobs.Keys.{HasUniqueIds}
use rag_support_assistant.Jobs.Moves.{Moves, step-Effect}

-- a row that an action adds to a table: a queued one, whose id no row has
abbrev pub IsNew : Action → Table → Job → Type 0
IsNew (create r now) rows k = (k ≡ new_job r now) × (violates_unique (new_job r now) rows ≡ false)
IsNew _ rows k = ⊥

fresh_id :
    (j : Job) (rows : Table) → violates_unique j rows ≡ false → rowcount (has_id j.id) rows ≡ 0
unfolding violates_unique
fresh_id j rows h = ground arith

one_more :
    (j : Job) (rows : Table) (i : ℕ)
    → rowcount (has_id j.id) rows ≡ 0
    → (rowcount (has_id i) rows + rowcount (has_id i) (j ∷ []) ≡ rowcount (has_id i) rows)
      ⊎ ((rowcount (has_id i) rows ≡ 0)
          × (rowcount (has_id i) rows + rowcount (has_id i) (j ∷ []) ≡ 1))
unfolding rowcount
one_more j rows i none_here = elim (Bool-cases (j.id == i)) [
  | inl same ↦
      let e : j.id ≡ i = ground arith in
      let z : rowcount (has_id i) rows ≡ 0 =
        ap (λ n. rowcount (has_id n) rows) (sym e) ∙ none_here in
      inr (z, rw same (omega arith))
  | inr other ↦ inl (rw other (omega arith))
]

other_id :
    (j : Job) (rows : Table) (i : ℕ)
    → rowcount (has_id j.id) rows ≡ 0
    → 0 < rowcount (has_id i) rows
    → has_id i j ≡ false
other_id j rows i none_here here = elim (Bool-cases (has_id i j)) [
  | inr other ↦ other
  | inl same ↦
      let e : j.id ≡ i = ground arith in
      let z : rowcount (has_id i) rows ≡ 0 =
        ap (λ n. rowcount (has_id n) rows) (sym e) ∙ none_here in
      absurd (omega arith)
]

module _ (redact : String → String) (config : Config) where
  pub change-id : (a : Action) (j : Job) → (change redact config a j).id ≡ j.id
  change-id (reap now) j = ground arith
  change-id (create r now) j = refl
  change-id (source_ready i t now) j = refl
  change-id (set_task i t task) j = refl
  change-id (api_running i t now) j = refl
  change-id (api_completed i t result now) j = refl
  change-id (api_failed i t error now) j = refl
  change-id (claim token now i t) j = refl
  change-id (extend now i t token) j = refl
  change-id (complete now i t token result) j = refl
  change-id (fail now i t token error) j = refl

  moved_id :
      (i : ℕ) (a : Action) (j : Job)
      → has_id i (if concerns redact config a j then change redact config a j else j) ≡ has_id i j
  moved_id i a j = elim (Bool-cases (concerns redact config a j)) [
    | inl met ↦ rw met (ap (λ n. n == i) (change-id a j))
    | inr unmet ↦ rw unmet refl
  ]

  -- an action keeps every row where it is, moved as it may be, and adds a fresh row at most
  pub step-Moves :
      (a : Action) (rows : Table)
      → HasUniqueIds rows
      → Evolves (Moves redact config a) (IsNew a rows) rows (step redact config a rows)
  step-Moves a rows u = elim (step-Effect redact config a rows u) [
    | inl same ↦ rw same (Evolves-refl (Moves redact config a) (IsNew a rows) (λ j. inl refl) rows)
    | inr (inl moved) ↦ rw moved (
        Evolves-update (Moves redact config a) (IsNew a rows) (concerns redact config a)
          (change redact config a) rows
          (λ j. elim (Bool-cases (concerns redact config a j)) [
            | inl met ↦ rw met (inr (refl, refl))
            | inr unmet ↦ rw unmet (inl refl)
          ]))
    | inr (inr (r, now, is_create, fresh, added)) ↦
        rw (added, is_create)
          (Evolves-append (Moves redact config (create r now)) (IsNew (create r now) rows)
            (λ j. inl refl) rows (new_job r now) (refl, fresh))
  ]

  -- the number of rows with an id: an action adds to it only where it was 0
  step_ids :
      (a : Action) (rows : Table) (i : ℕ)
      → HasUniqueIds rows
      → (rowcount (has_id i) (step redact config a rows) ≡ rowcount (has_id i) rows)
        ⊎ ((rowcount (has_id i) rows ≡ 0) × (rowcount (has_id i) (step redact config a rows) ≡ 1))
  step_ids a rows i u = elim (step-Effect redact config a rows u) [
    | inl same ↦ inl (rw same refl)
    | inr (inl moved) ↦ inl (
        rw moved (
          rowcount-update (has_id i) (has_id i) (concerns redact config a) (change redact config a)
            rows (moved_id i a)))
    | inr (inr (r, now, is_create, fresh, added)) ↦
        rw (added, rowcount-append (has_id i) rows (new_job r now ∷ []))
          (one_more (new_job r now) rows i (fresh_id (new_job r now) rows fresh))
  ]

  pub step_unique :
      (a : Action) (rows : Table) → HasUniqueIds rows → HasUniqueIds (step redact config a rows)
  step_unique a rows u i = ground (arith, step_ids a rows i u, u i)

  pub step_present :
      (a : Action) (rows : Table) (i : ℕ)
      → HasUniqueIds rows
      → 0 < rowcount (has_id i) rows
      → 0 < rowcount (has_id i) (step redact config a rows)
  step_present a rows i u here = ground (arith, step_ids a rows i u)

  pub run_unique :
      (as' : List Action) (rows : Table)
      → HasUniqueIds rows
      → HasUniqueIds (run redact config as' rows)
  unfolding run
  run_unique [] rows u = u
  run_unique (a ∷ as') rows u = run_unique as' (step redact config a rows) (step_unique a rows u)

  -- In a history that starts with the row `i`, a property of rows that the moves keep is kept, if
  -- it holds of all rows with another id.
  pub run-All :
      (P : Job → Type 0) (i : ℕ)
      → ((a : Action) (j k : Job) → Moves redact config a j k → P j → P k)
      → ((r : JobRequest) (now : ℕ) → (has_id i (new_job r now) ≡ false) → P (new_job r now))
      → (as' : List Action) (rows : Table) → HasUniqueIds rows
      → 0 < rowcount (has_id i) rows
      → All P rows
      → All P (run redact config as' rows)
  unfolding run
  run-All P i keep new_row [] rows u here h = h
  run-All P i keep new_row (a ∷ as') rows u here h =
      run-All P i keep new_row as' (step redact config a rows) (step_unique a rows u)
        (step_present a rows i u here)
        (Evolves-All rows (step redact config a rows) (keep a) (added a) (step-Moves a rows u) h)
    where
      added : (a : Action) (k : Job) → IsNew a rows k → P k
      added (create r now) k n =
          rw (n.0) (
            new_row r now
              (other_id (new_job r now) rows i (fresh_id (new_job r now) rows n.1) here))
      added (source_ready j t now) k n = absurd n
      added (set_task j t task) k n = absurd n
      added (api_running j t now) k n = absurd n
      added (api_completed j t result now) k n = absurd n
      added (api_failed j t error now) k n = absurd n
      added (claim token now j t) k n = absurd n
      added (extend now j t token) k n = absurd n
      added (complete now j t token result) k n = absurd n
      added (fail now j t token error) k n = absurd n
      added (reap now) k n = absurd n
