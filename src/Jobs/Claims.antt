-- ===== src/Jobs/Claims.antt =====
-- ingestion/jobs.py: how often a job is claimed.
use rag_support_assistant.Prelude.{
  ℕ, ◌+◌, ◌<◌, ◌≡◌, ◌≢◌, refl, inl, inr, String, true, false, List, [], ◌∷◌, All, arith,
}
use rag_support_assistant.Jobs.{Job, Table, ok, update, rowcount, has_id, is_queued, sec}
use rag_support_assistant.Jobs.Settings.{Config, lease_duration_sec}
use rag_support_assistant.Jobs.Worker.{claim_running, compare_and_set, is_claimable, claimed}
use rag_support_assistant.Jobs.Actions.{
  Action, create, source_ready, set_task, api_running, api_completed, api_failed, claim, extend,
  complete, fail, reap, step, run, change,
}
use rag_support_assistant.Jobs.Tables.{rowcount_mono}
use rag_support_assistant.Jobs.Keys.{HasUniqueIds, update_one-All}
use rag_support_assistant.Jobs.Moves.{Moves}
use rag_support_assistant.Jobs.Histories.{step_unique, step_present, run-All}

-- the row `i` is not queued
abbrev pub IsTaken : ℕ → Job → Type 0
IsTaken i j = has_id i j ≡ true → is_queued j.status ≡ false

-- what a successful claim tells
pub claim_running-ok :
    (config : Config) (token got : String) (now i : ℕ) (t : String) (rows : Table)
    → (claim_running config token now i t rows).0 ≡ ok got
    → (n : ℕ) × (lease_duration_sec config ≡ ok n)
      × (got ≡ token)
      × (rowcount (is_claimable i t) rows ≡ 1)
      × ((claim_running config token now i t rows).1
          ≡ update (is_claimable i t) (claimed token now (now + sec n)) rows)
unfolding claim_running compare_and_set
claim_running-ok config token got now i t rows h = ground arith

claimable_id : (i : ℕ) (t : String) (j : Job) → is_claimable i t j ≡ true → has_id i j ≡ true
claimable_id i t j h = ground arith

taken_none :
    (i : ℕ) (t : String) (rows : Table)
    → All (IsTaken i) rows
    → rowcount (is_claimable i t) rows ≡ 0
unfolding rowcount
taken_none i t [] h = refl
taken_none i t (j ∷ rows) h = ground (arith, taken_none i t rows h.1)

taken_claim :
    (config : Config) (token : String) (now i : ℕ) (t : String) (rows : Table)
    → All (IsTaken i) rows
    → (got : String) → (claim_running config token now i t rows).0 ≢ ok got
taken_claim config token now i t rows h got is_ok =
    let (n, cfg, same, one, moved) = claim_running-ok config token got now i t rows is_ok in
    absurd (omega (arith, taken_none i t rows h))

module _ (redact : String → String) (config : Config) (i : ℕ) where
  change-IsTaken : (a : Action) (j : Job) → IsTaken i j → IsTaken i (change redact config a j)
  change-IsTaken (create r now) j h = h
  change-IsTaken (source_ready k t now) j h = h
  change-IsTaken (set_task k t task) j h = h
  change-IsTaken (api_running k t now) j h = λ _. refl
  change-IsTaken (api_completed k t result now) j h = λ _. refl
  change-IsTaken (api_failed k t error now) j h = λ _. refl
  change-IsTaken (claim token now k t) j h = λ _. refl
  change-IsTaken (extend now k t token) j h = h
  change-IsTaken (complete now k t token result) j h = λ _. refl
  change-IsTaken (fail now k t token error) j h = λ _. refl
  change-IsTaken (reap now) j h = ground arith

  Moves-IsTaken : (a : Action) (j k : Job) → Moves redact config a j k → IsTaken i j → IsTaken i k
  Moves-IsTaken a j k (inl same) h = rw same h
  Moves-IsTaken a j k (inr (met, moved)) h = rw moved (change-IsTaken a j h)

  -- After a claim of a job has succeeded, no claim of that job succeeds ever again, for any tenant
  -- and any worker, whatever operations of the API, of workers and of the reaper come in between.
  pub claimed_once :
      (token got : String) (now : ℕ) (t : String) (rows : Table)
      → HasUniqueIds rows
      → (claim_running config token now i t rows).0 ≡ ok got
      → (history : List Action) (token' got' : String) (now' : ℕ) (t' : String)
      → (claim_running config token' now' i t'
          (run redact config history (claim_running config token now i t rows).1)).0
        ≢ ok got'
  unfolding step
  claimed_once token got now t rows u is_ok history token' got' now' t' =
      let rows' = (claim_running config token now i t rows).1 in
      let (n, cfg, same, one, moved) = claim_running-ok config token got now i t rows is_ok in
      let unique : HasUniqueIds rows' = step_unique redact config (claim token now i t) rows u in
      let here : 0 < rowcount (has_id i) rows' =
        step_present redact config (claim token now i t) rows i u
          (omega (arith, rowcount_mono (is_claimable i t) (has_id i) rows (claimable_id i t))) in
      taken_claim config token' now' i t' (run redact config history rows')
        (run-All redact config (IsTaken i) i Moves-IsTaken (λ r at other this. cc) history rows'
          unique here
          (rw moved (
            update_one-All (is_claimable i t) (has_id i) (claimable_id i t)
              (claimed token now (now + sec n)) (λ j. is_queued j.status ≡ false) (λ j met. refl)
              rows (u i) one)))
        got'
