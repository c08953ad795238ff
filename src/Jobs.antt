-- ===== src/Jobs.antt =====
-- ingestion/jobs.py and ingestion/liveness.py: the durable ingestion jobs. This file has the row
-- of `db/models.py`, the table, and the statements that the services run on it. An operation takes
-- the table and returns its result beside the table that it leaves; a raised exception is an `err`.
pub mod Settings
pub mod Service
pub mod Worker
pub mod Reaper
pub mod Actions
pub mod Tables
pub mod Keys
pub mod Pass
pub mod Moves
pub mod Histories
pub mod Claims
pub mod Fencing
pub mod Tenants
pub mod Identity
pub mod Replay
pub mod Messages
pub mod Stale
pub mod Alive
mod Tests
use text.Mathlib.Text.{◌==◌ as str_eq}
use rag_support_assistant.Prelude.{
  ℕ, suc, ℤ, ◌-◌, ◌*◌, ltb, String, Bool, true, false, ◌&&◌, Option, none, some, List, [], ◌∷◌,
  ◌==◌, if◌then◌else◌,
}
use rag_support_assistant.Text

pub data Status : Type 0 where
  queued running completed failed : Status

abbrev pub is_queued : Status → Bool
is_queued queued = true
is_queued _ = false

abbrev pub is_running : Status → Bool
is_running running = true
is_running _ = false

-- a value of a JSON document: `null`, or what `str()` makes of it and what `int()` makes of it
-- (`none` where `int()` raises a `TypeError` or a `ValueError`)
pub data Value : Type 0 where
  null : Value
  value : String → Option ℤ → Value

-- the entry `index_publication` of a completion result: missing or null, not a dict, or a dict
-- with its three entries
pub data Publication : Type 0 where
  no_publication not_a_dict : Publication
  publication : Value → Value → Value → Publication

-- a completion result: what the program reads of it, and the rest of its JSON
pub record JobResult : Type 0 where
  pub index_publication : Publication
  pub other : String

-- the index lifecycle columns
pub record Binding : Type 0 where
  pub active_collection : Option String
  pub previous_collection : Option String
  pub manifest_generation : Option ℤ

-- `IngestionJob`
pub record Job : Type 0 where
  pub id : ℕ
  pub tenant_id : String
  pub filename : String
  pub source_path : String
  pub status : Status
  pub error : Option String
  pub result : Option JobResult
  pub celery_task_id : Option String
  pub lease_token : Option String
  pub heartbeat_at : Option ℕ
  pub lease_expires_at : Option ℕ
  pub idempotency_key_hash : Option String
  pub payload_fingerprint : Option String
  pub source_ready_at : Option ℕ
  pub index_bind : Binding
  pub created_at : ℕ
  pub started_at : Option ℕ
  pub finished_at : Option ℕ

-- Times are microseconds since a fixed past date, the resolution of a `datetime`; settings are in
-- seconds.
abbrev pub sec : ℕ → ℕ
sec n = n * 1000000

pub data JobError : Type 0 where
  tenant_id_required filename_required source_path_required fingerprint_required : JobError
  integrity_error idempotency_conflict multiple_results_found : JobError
  ownership_error identity_error invalid_config : JobError

pub data Result {ℓ} (A : Type ℓ) : Type ℓ where
  ok : A → Result A
  err : JobError → Result A

abbrev pub Table : Type 0
Table = List Job

-- `a == b` on a column that may be null
abbrev pub opt_eq : Option String → Option String → Bool
opt_eq none none = true
opt_eq (some a) (some b) = str_eq a b
opt_eq _ _ = false

-- SELECT: the rows that meet the test, in the order of the table
unfoldable pub select : (Job → Bool) → Table → List Job
select p [] = []
select p (j ∷ rows) = let rest = select p rows in if p j then j ∷ rest else rest

-- UPDATE: the rows that meet the test are changed
unfoldable pub update : (Job → Bool) → (Job → Job) → Table → Table
update p f [] = []
update p f (j ∷ rows) = (if p j then f j else j) ∷ update p f rows

-- the `rowcount` of that UPDATE
unfoldable pub rowcount : (Job → Bool) → Table → ℕ
rowcount p [] = 0
rowcount p (j ∷ rows) = let rest = rowcount p rows in if p j then suc rest else rest

abbrev pub scalar_one_or_none : List Job → Result (Option Job)
scalar_one_or_none [] = ok none
scalar_one_or_none (j ∷ []) = ok (some j)
scalar_one_or_none (j ∷ k ∷ rows) = err multiple_results_found

-- `IngestionJob.id == job_id` and `IngestionJob.tenant_id == tenant_id`
abbrev pub has_id : ℕ → Job → Bool
has_id job_id j = j.id == job_id

abbrev pub has_owner : ℕ → String → Job → Bool
has_owner job_id tenant_id j = j.id == job_id && str_eq j.tenant_id tenant_id

-- the session writes a changed row back by its primary key
abbrev pub save : Job → Table → Table
save j rows = update (has_id j.id) (λ _. j) rows

-- `str(v).strip()`, or nothing for `None` and for a blank text
abbrev pub collection_of : Value → Option String
collection_of null = none
collection_of (value s _) = Text.or_none (Text.strip s)

abbrev pub generation_of : Value → Option ℤ
generation_of null = none
generation_of (value _ n) = n

abbrev pub no_binding : Binding
no_binding = record {
  active_collection = none;
  previous_collection = none;
  manifest_generation = none;
}

unfoldable pub index_publication_bind_values : Option JobResult → Binding
index_publication_bind_values none = no_binding
index_publication_bind_values (some r) = elim r.index_publication [
  | no_publication ↦ no_binding
  | not_a_dict ↦ no_binding
  | publication active previous generation ↦ record {
    active_collection = collection_of active;
    previous_collection = collection_of previous;
    manifest_generation = generation_of generation;
  }
]

-- `safe_error_message`; `redact` is what `redact_pii` and the two substitutions make of a text
module _ (redact : String → String) where
  unfoldable pub safe_error_message : String → ℕ → String
  safe_error_message exc limit =
      let text = redact (Text.or_else (Text.strip exc) "unknown error") in
      if ltb limit (Text.length text) then Text.take_append (limit - 3) text "..." else text

abbrev pub max_error_len : ℕ
max_error_len = 500

-- `tenant_id is None or blank`
abbrev pub is_blank : String → Bool
is_blank s = Text.is_empty (Text.strip s)
