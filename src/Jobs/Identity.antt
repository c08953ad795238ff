-- ===== src/Jobs/Identity.antt =====
-- ingestion/jobs.py: what a key of a tenant names.
use text.Mathlib.TextPositions.{eq_refl}
use rag_support_assistant.Prelude.{
  ℕ, ◌+◌, ◌≤◌, ◌<◌, ◌≡◌, refl, ap, inl, inr, String, Bool, true, false, Option, none, some, List,
  [], ◌∷◌, arith, eq_iff, Bool-cases, if◌then◌else◌, ◌&&◌,
}
use rag_support_assistant.Text
use rag_support_assistant.Jobs.{Job, Table, rowcount, has_id, opt_eq, is_blank}
use rag_support_assistant.Jobs.Settings.{Config}
use rag_support_assistant.Jobs.Service.{JobRequest, new_job, has_key, violates_unique, is_missing}
use rag_support_assistant.Jobs.Actions.{
  Action, create, source_ready, set_task, api_running, api_completed, api_failed, claim, extend,
  complete, fail, reap, step, run, concerns, change,
}
use rag_support_assistant.Jobs.Tables.{rowcount-update, rowcount-append}
use rag_support_assistant.Jobs.Keys.{HasUniqueIds}
use rag_support_assistant.Jobs.Moves.{step-Effect}
use rag_support_assistant.Jobs.Histories.{step_unique, change-id}

-- at most one row of a tenant has a key
abbrev pub HasUniqueKeys : Table → Type 0
HasUniqueKeys rows = (t k : String) → rowcount (has_key t (some k)) rows ≤ 1

-- the request passes the tests of its fields
abbrev pub IsWellFormed : JobRequest → Type 0
IsWellFormed r =
    (is_blank r.tenant_id ≡ false)
    × (Text.is_empty r.filename ≡ false)
    × (Text.is_empty r.source_path ≡ false)
    × (is_missing r.payload_fingerprint ≡ false)

-- the row that a reservation stands for
abbrev pub reserves : String → String → ℕ → Option String → Job → Bool
reserves t k i fingerprint j =
    has_key t (some k) j && (has_id i j && opt_eq j.payload_fingerprint fingerprint)

pub opt_eq_sound : (o : Option String) (k : String) → opt_eq o (some k) ≡ true → o ≡ some k
opt_eq_sound none k h = absurd (cc)
opt_eq_sound (some s) k h = ap some ((eq_iff s k).0 h)

pub opt_eq_refl : (o : Option String) → opt_eq o o ≡ true
opt_eq_refl none = refl
opt_eq_refl (some s) = eq_refl s

key_of :
    (t k : String) (j : Job)
    → has_key t (some k) j ≡ true
    → (j.tenant_id ≡ t) × (j.idempotency_key_hash ≡ some k)
unfolding has_key
key_of t k j h =
    ((eq_iff j.tenant_id t).0 (ground arith), opt_eq_sound j.idempotency_key_hash k (ground arith))

-- a row that is added brings no second row with its key
one_more_key :
    (j : Job) (rows : Table) (t k : String)
    → violates_unique j rows ≡ false
    → rowcount (has_key t (some k)) rows ≤ 1
    → rowcount (has_key t (some k)) rows + rowcount (has_key t (some k)) (j ∷ []) ≤ 1
unfolding violates_unique
one_more_key j rows t k fresh v = elim (Bool-cases (has_key t (some k) j)) [
  | inl same ↦
      let (tenant, key) = key_of t k j same in
      let none_here : rowcount (has_key j.tenant_id j.idempotency_key_hash) rows ≡ 0 =
        ground arith in
      let z : rowcount (has_key t (some k)) rows ≡ 0 = rw (← tenant, ← key) none_here in
      rw z (ground arith)
  | inr other ↦ ground arith
]

module _ (redact : String → String) (config : Config) (t k : String) where
  change-has_key :
      (a : Action) (j : Job) → has_key t (some k) (change redact config a j) ≡ has_key t (some k) j
  unfolding has_key
  change-has_key (reap now) j = ground arith
  change-has_key (create r now) j = refl
  change-has_key (source_ready i u now) j = refl
  change-has_key (set_task i u task) j = refl
  change-has_key (api_running i u now) j = refl
  change-has_key (api_completed i u result now) j = refl
  change-has_key (api_failed i u error now) j = refl
  change-has_key (claim token now i u) j = refl
  change-has_key (extend now i u token) j = refl
  change-has_key (complete now i u token result) j = refl
  change-has_key (fail now i u token error) j = refl

  change-fingerprint :
      (a : Action) (j : Job)
      → (change redact config a j).payload_fingerprint ≡ j.payload_fingerprint
  change-fingerprint (reap now) j = ground arith
  change-fingerprint (create r now) j = refl
  change-fingerprint (source_ready i u now) j = refl
  change-fingerprint (set_task i u task) j = refl
  change-fingerprint (api_running i u now) j = refl
  change-fingerprint (api_completed i u result now) j = refl
  change-fingerprint (api_failed i u error now) j = refl
  change-fingerprint (claim token now i u) j = refl
  change-fingerprint (extend now i u token) j = refl
  change-fingerprint (complete now i u token result) j = refl
  change-fingerprint (fail now i u token error) j = refl

  moved-has_key :
      (a : Action) (j : Job)
      → has_key t (some k) (if concerns redact config a j then change redact config a j else j)
        ≡ has_key t (some k) j
  moved-has_key a j = elim (Bool-cases (concerns redact config a j)) [
    | inl met ↦ rw met (change-has_key a j)
    | inr unmet ↦ rw unmet refl
  ]

  pub step_keys :
      (a : Action) (rows : Table)
      → HasUniqueIds rows
      → rowcount (has_key t (some k)) rows ≤ 1
      → rowcount (has_key t (some k)) (step redact config a rows) ≤ 1
  step_keys a rows u v = elim (step-Effect redact config a rows u) [
    | inl same ↦ rw same v
    | inr (inl moved) ↦ rw moved (
        rw
          (rowcount-update (has_key t (some k)) (has_key t (some k)) (concerns redact config a)
            (change redact config a) rows (moved-has_key a))
          v)
    | inr (inr (r, now, is_create, fresh, added)) ↦
        rw (added, rowcount-append (has_key t (some k)) rows (new_job r now ∷ []))
          (one_more_key (new_job r now) rows t k fresh v)
  ]

  -- a reservation is kept
  moved-reserves :
      (i : ℕ) (fp : Option String) (a : Action) (j : Job)
      → reserves t k i fp (if concerns redact config a j then change redact config a j else j)
        ≡ reserves t k i fp j
  moved-reserves i fp a j = elim (Bool-cases (concerns redact config a j)) [
    | inl met ↦
        rw met (cc (change-has_key a j, change-id redact config a j, change-fingerprint a j))
    | inr unmet ↦ rw unmet refl
  ]

  step-reserves :
      (i : ℕ) (fp : Option String) (a : Action) (rows : Table)
      → HasUniqueIds rows
      → 0 < rowcount (reserves t k i fp) rows
      → 0 < rowcount (reserves t k i fp) (step redact config a rows)
  step-reserves i fp a rows u h = elim (step-Effect redact config a rows u) [
    | inl same ↦ rw same h
    | inr (inl moved) ↦ rw moved (
        rw
          (rowcount-update (reserves t k i fp) (reserves t k i fp) (concerns redact config a)
            (change redact config a) rows (moved-reserves i fp a))
          h)
    | inr (inr (r, now, is_create, fresh, added)) ↦
        rw (added, rowcount-append (reserves t k i fp) rows (new_job r now ∷ [])) (omega arith)
  ]

  pub run-reserves :
      (i : ℕ) (fp : Option String) (history : List Action) (rows : Table)
      → HasUniqueIds rows
      → rowcount (has_key t (some k)) rows ≤ 1
      → 0 < rowcount (reserves t k i fp) rows
      → (rowcount (has_key t (some k)) (run redact config history rows) ≤ 1)
        × (0 < rowcount (reserves t k i fp) (run redact config history rows))
  unfolding run
  run-reserves i fp [] rows u v h = (v, h)
  run-reserves i fp (a ∷ history) rows u v h =
      run-reserves i fp history (step redact config a rows) (step_unique redact config a rows u)
        (step_keys a rows u v) (step-reserves i fp a rows u h)
