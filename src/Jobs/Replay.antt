-- ===== src/Jobs/Replay.antt =====
-- ingestion/jobs.py: a second upload with the same key.
use text.Mathlib.TextPositions.{eq_refl}
use rag_support_assistant.Prelude.{
  ℕ, ◌≤◌, ◌<◌, ◌≡◌, refl, ap, ◌∙◌, inl, inr, String, Bool, true, false, Option, none, some, List,
  [], ◌∷◌, ◌++◌, arith, if◌then◌else◌, ◌&&◌, is_some,
}
use rag_support_assistant.Text
use rag_support_assistant.Jobs.{
  Job, Table, Result, ok, err, select, rowcount, has_id, opt_eq, scalar_one_or_none,
  fingerprint_required, idempotency_conflict,
}
use rag_support_assistant.Jobs.Settings.{Config}
use rag_support_assistant.Jobs.Service.{
  JobRequest, CreateJobOutcome, new_job, has_key, violates_unique, reuse, insert_or_reuse,
  create_or_reuse,
}
use rag_support_assistant.Jobs.Actions.{Action, create, step, run}
use rag_support_assistant.Jobs.Tables.{rowcount-append, rowcount_mono}
use rag_support_assistant.Jobs.Keys.{HasUniqueIds, select_single, select_none}
use rag_support_assistant.Jobs.Histories.{step_unique}
use rag_support_assistant.Jobs.Identity.{
  HasUniqueKeys, IsWellFormed, reserves, opt_eq_refl, opt_eq_sound, step_keys, run-reserves,
}

opt_eq_path : (a b : Option String) → opt_eq a b ≡ true → a ≡ b
opt_eq_path none none h = refl
opt_eq_path none (some s) h = absurd (cc)
opt_eq_path (some s) none h = absurd (cc)
opt_eq_path (some s) (some r) h = opt_eq_sound (some s) r h

rowcount-select :
    (p s : Job → Bool) (rows : Table) → rowcount s (select p rows) ≡ rowcount (λ j. p j && s j) rows
unfolding rowcount select
rowcount-select p s [] = refl
rowcount-select p s (j ∷ rows) = ground (arith, rowcount-select p s rows)

single_row :
    (i : ℕ) (fp : Option String) (j : Job)
    → 0 < rowcount (λ j. has_id i j && opt_eq j.payload_fingerprint fp) (j ∷ [])
    → (j.id ≡ i) × (opt_eq j.payload_fingerprint fp ≡ true)
unfolding rowcount
single_row i fp j h = (ground arith, ground arith)

reserves_key :
    (t k : String) (i : ℕ) (fp : Option String) (j : Job)
    → reserves t k i fp j ≡ true
    → has_key t (some k) j ≡ true
reserves_key t k i fp j h = ground arith

-- the one row with a key
reserved_row :
    (t k : String) (i : ℕ) (fp : Option String) (rows : Table)
    → rowcount (has_key t (some k)) rows ≤ 1
    → 0 < rowcount (reserves t k i fp) rows
    → (j : Job) × (select (has_key t (some k)) rows ≡ j ∷ [])
      × (j.id ≡ i)
      × (j.payload_fingerprint ≡ fp)
reserved_row t k i fp rows v here =
    elim (select_single (has_key t (some k)) (has_key t (some k)) (λ j h. h) rows v) [
      | inl none_met ↦
          let z = select_none (has_key t (some k)) (has_key t (some k)) (λ j h. h) rows none_met in
          absurd (
            omega (
              arith,
              rowcount_mono (reserves t k i fp) (has_key t (some k)) rows (reserves_key t k i fp),
            ))
      | inr (j, met) ↦
          let more : 0 < rowcount (λ j. has_id i j && opt_eq j.payload_fingerprint fp) (j ∷ []) =
            rw (← met, rowcount-select (has_key t (some k))) here in
          let (same_id, same_fp) = single_row i fp j more in
          (j, met, same_id, opt_eq_path j.payload_fingerprint fp same_fp)
    ]

passes :
    (r : JobRequest) (now : ℕ) (rows : Table)
    → IsWellFormed r
    → create_or_reuse r now rows ≡ insert_or_reuse r now rows
unfolding create_or_reuse
passes r now rows (a, b, c, d) =
    rw (a, b, c, d)
      (no_fingerprint_error (is_some r.idempotency_key_hash) (insert_or_reuse r now rows))
  where
    no_fingerprint_error :
        (b : Bool) (x : Result CreateJobOutcome × Table)
        → (if b && false then (err fingerprint_required, rows) else x) ≡ x
    no_fingerprint_error true x = refl
    no_fingerprint_error false x = refl

clash :
    (r : JobRequest) (now : ℕ) (k : String) (rows : Table)
    → r.idempotency_key_hash ≡ some k
    → 0 < rowcount (has_key r.tenant_id (some k)) rows
    → violates_unique (new_job r now) rows ≡ true
unfolding violates_unique
clash r now k rows key here = rw key (ground arith)

-- what the second request is answered
abbrev pub replay : Option String → JobRequest → Job → Result CreateJobOutcome
replay fp r j =
    if opt_eq fp r.payload_fingerprint
    then ok (record { job = j; created = false })
    else err idempotency_conflict

insert_clash :
    (r : JobRequest) (now : ℕ) (k : String) (rows : Table) (j : Job)
    → r.idempotency_key_hash ≡ some k
    → Text.is_empty k ≡ false
    → violates_unique (new_job r now) rows ≡ true
    → select (has_key r.tenant_id (some k)) rows ≡ j ∷ []
    → insert_or_reuse r now rows ≡ (replay j.payload_fingerprint r j, rows)
unfolding insert_or_reuse reuse
insert_clash r now k rows j key nonempty taken met = rw taken (rw key (rw (nonempty, met) refl))

reserved_answer :
    (r : JobRequest) (now : ℕ) (k : String) (i : ℕ) (fp : Option String) (rows : Table)
    → IsWellFormed r
    → r.idempotency_key_hash ≡ some k
    → Text.is_empty k ≡ false
    → rowcount (has_key r.tenant_id (some k)) rows ≤ 1
    → 0 < rowcount (reserves r.tenant_id k i fp) rows
    → (j : Job) × (j.id ≡ i) × (create_or_reuse r now rows ≡ (replay fp r j, rows))
reserved_answer r now k i fp rows good key nonempty v here =
    let (j, met, same_id, same_fp) = reserved_row r.tenant_id k i fp rows v here in
    (j, same_id, passes r now rows good ∙ answer j met same_fp)
  where
    answer :
        (j : Job)
        → select (has_key r.tenant_id (some k)) rows ≡ j ∷ []
        → j.payload_fingerprint ≡ fp
        → insert_or_reuse r now rows ≡ (replay fp r j, rows)
    answer j met same_fp =
        insert_clash r now k rows j key nonempty (clash r now k rows key keyed) met
        ∙ ap (λ f. (replay f r j, rows)) same_fp
      where
        keyed : 0 < rowcount (has_key r.tenant_id (some k)) rows
        keyed = omega (
          arith,
          rowcount_mono (reserves r.tenant_id k i fp) (has_key r.tenant_id (some k)) rows
              (reserves_key r.tenant_id k i fp),
        )

reuse_created :
    (r : JobRequest) (o : Result (Option Job)) (out : CreateJobOutcome)
    → reuse r o ≡ ok out
    → out.created ≡ false
unfolding reuse
reuse_created r o out h = ground arith

inserted :
    (r : JobRequest) (now : ℕ) (rows : Table) (out : CreateJobOutcome)
    → (insert_or_reuse r now rows).0 ≡ ok out
    → out.created ≡ true
    → (insert_or_reuse r now rows).1 ≡ rows ++ new_job r now ∷ []
unfolding insert_or_reuse
inserted r now rows out h made = ground (
  arith,
  reuse_created r (scalar_one_or_none (select (has_key r.tenant_id r.idempotency_key_hash) rows))
      out,
)

created :
    (r : JobRequest) (now : ℕ) (rows : Table) (out : CreateJobOutcome)
    → (create_or_reuse r now rows).0 ≡ ok out
    → out.created ≡ true
    → (create_or_reuse r now rows).1 ≡ rows ++ new_job r now ∷ []
unfolding create_or_reuse
created r now rows out h made = ground (arith, inserted r now rows out)

new_reserves :
    (r : JobRequest) (now : ℕ) (k : String)
    → r.idempotency_key_hash ≡ some k
    → 0 < rowcount (reserves r.tenant_id k r.job_id r.payload_fingerprint) (new_job r now ∷ [])
unfolding rowcount has_key
new_reserves r now k key =
    rw (key, eq_refl r.tenant_id, eq_refl k, opt_eq_refl r.payload_fingerprint) (ground arith)

module _ (redact : String → String) (config : Config) where
  -- Once an upload with an idempotency key has created a job, a later upload of the same tenant with
  -- that key never creates another, whatever operations come in between: with the same payload
  -- fingerprint it is answered with the job of the first upload, marked as not created; with
  -- another fingerprint it is a conflict; and the table stays as it was.
  pub create-replay :
      (r r' : JobRequest) (now now' : ℕ) (k : String) (rows : Table) (out : CreateJobOutcome)
      → HasUniqueIds rows
      → HasUniqueKeys rows
      → r.idempotency_key_hash ≡ some k
      → Text.is_empty k ≡ false
      → (create_or_reuse r now rows).0 ≡ ok out
      → out.created ≡ true
      → r'.tenant_id ≡ r.tenant_id
      → r'.idempotency_key_hash ≡ some k
      → IsWellFormed r'
      → (history : List Action)
      → let after = run redact config history (create_or_reuse r now rows).1 in
        (j : Job) × (j.id ≡ r.job_id)
        × (create_or_reuse r' now' after ≡ (replay r.payload_fingerprint r' j, after))
  unfolding step
  create-replay r r' now now' k rows out u v key nonempty is_ok made same_tenant key' good history =
      let rows' = (create_or_reuse r now rows).1 in
      let here : 0 < rowcount (reserves r.tenant_id k r.job_id r.payload_fingerprint) rows' =
        rw
          (
            created r now rows out is_ok made,
            rowcount-append (reserves r.tenant_id k r.job_id r.payload_fingerprint) rows
                (new_job r now ∷ []),
          )
          (omega (arith, new_reserves r now k key)) in
      let (v', here') =
        run-reserves redact config r.tenant_id k r.job_id r.payload_fingerprint history rows'
          (step_unique redact config (create r now) rows u)
          (step_keys redact config r.tenant_id k (create r now) rows u (v r.tenant_id k)) here in
      reserved_answer r' now' k r.job_id r.payload_fingerprint (run redact config history rows')
        good key' nonempty (rw same_tenant v') (rw same_tenant here')
