-- ===== src/Lib.antt =====
-- A model of the core of the RAG support assistant, a service that answers support questions from
-- the documents of its tenants, and the theorems that make this core correct.
--
-- The parts and how they interact. An upload becomes a row of the table of ingestion jobs; the API
-- creates it, a Celery worker claims it under a lease, renews the lease and reports the end, and a
-- reaper fails the jobs that were left behind. A finished ingestion publishes a new version of the
-- tenant's search index: under the tenant's lock the version is recorded in an inventory, becomes
-- the active collection of a manifest, and old versions are deleted within a budget. A question runs
-- through a graph of nodes that call models and the retriever; a gate decides whether the answer is
-- sent without review, tried again or left to a human, and a last check looks for personal data and
-- injected instructions. Calls to providers are paid from a budget of the request and go through a
-- circuit breaker. An answer that is left to a human becomes a ticket in a table and a record in an
-- inbox, which a worker tries to deliver until it succeeds.
--
-- The files, and the code that they are about:
--   Breaker           utils/circuit_breaker.py. `CircuitBreaker` is the object, `enter`,
--                     `record_success` and `record_failure` its locked sections, `call` composes
--                     them; `step` interleaves the sections of several threads (Breaker/Trace), and
--                     Breaker/Trip runs whole calls; `calls_run` interleaves the
--                     beginnings and ends of calls.
--   Jobs              ingestion/jobs.py, ingestion/liveness.py and the table of db/models.py. `Job` is
--                     a row and `Table` the table; Jobs/Service has the operations of the API,
--                     Jobs/Worker those of the worker and its heartbeat, Jobs/Reaper the sweep,
--                     Jobs/Settings the checked settings. `Action` and `step` of Jobs/Actions are one
--                     committed transaction, so a list of actions is an interleaving. Tables, Keys,
--                     Pass, Moves and Histories carry the proofs about updates, rows and lists of
--                     actions; Claims, Fencing, Alive, Replay, Tenants, Stale, Identity and Messages
--                     have the properties.
--   Index             vectordb/: Index/Lock is tenant_lock.py, Index/Manifest index_manifest.py,
--                     Index/Retention and Index/Retention/Bounded index_retention.py, Index/Names
--                     utils/tenant_naming.py with the names of index_staging.py, and Index/Files the
--                     atomic write that the manifest and the inventory share. Index/Operator is
--                     index_operator.py, which runs these under the lock; Once, Retry and Confirmed
--                     have its properties. Index/Staging is index_staging.py, and
--                     Staging/Leftovers what a build leaves. Index/Rebuild composes these as
--                     manager.py does in a rebuild; Built, Publication and Served prove what stays.
--   Agent             agent/graph.py and agent/grounding.py: the state, the grounding gate and the
--                     routing node; Agent/Safety is agent/response_safety.py, Agent/Graph the nodes,
--                     the edges and the steps of a run. Agent/Verify and Agent/Citations are
--                     the node that verifies facts with agent/grounding.py; Agent/Evaluate and
--                     Agent/JudgePolicy the node that lets a model judge the answer with
--                     agent/judge_policy.py. Grounded and Judged have their properties, with
--                     the lemmas of Sources, Words, Found, Backed, Bound and Independent.
--   Budget            llm/request_budget.py: `check` and `charge` are the two locked sections, and `run`
--                     interleaves those of several threads, with the calls that end without
--                     a charge.
--   Escalation        services/escalation.py: Escalation/Creating is `create_escalation`,
--                     Escalation/Retrying the retries. `Chance` is what a call meets, and a list of
--                     operations of Histories is an order of calls. Keys, Redelivery, Handover,
--                     Sweeping and Effective have the properties, Rows and Due their lemmas.
--   Retry             utils/retry.py: the retries of a call, by what it gives at each attempt;
--                     Retry/Decisive proves which attempt decides.
--   Text, Prelude     what these use of Python's texts, and the shared names of the libraries.
--   .../Tests         runs of the definitions, and each theorem at a concrete input.
--
-- Numbers. Times of jobs and of the lock are microseconds, those of the breaker are numbers of a
-- clock that only grows; scores of relevance are thousandths; the waits of retries are written in
-- millionths of a second, so that their jitter is exact. A subtraction that could pass below
-- zero is written with both sides moved.
--
-- Bounds and fuel. The wait for the tenant's lock is a loop on fuel; its fuel is the number of poll
-- intervals that fit into the waiting time and two more, one for the query at the start and one for
-- the query when the deadline is over. The runs of the graph are a relation, so they need no fuel.
-- All other functions are recursive on their data.
--
-- Parameters. The regular expressions that redact messages, find personal data and find injected
-- instructions are functions that the definitions take; so are the SHA-256 digests of names and
-- keys, the test that a text is a time with a zone, and the reading of an identifier by `uuid.UUID`.
-- What a call of the database, the network or a sink does is drawn from outside, and so are random
-- numbers.
--
-- What is not modelled. Sessions, commits and rollbacks of the database appear as one transaction
-- per operation; threads as orders of their locked sections; files as their decoded content, so JSON
-- text is not printed or parsed, and no file is read that the system refuses to open. The nodes
-- that call models or the retriever are steps that leave any state with the same iteration counters,
-- in which the route is the one before, a human or an error; the nodes that verify and evaluate are
-- also written out, with the replies of the models as parameters and the measured relevance as an
-- argument. A factuality score is always there, as it is from the first
-- state of a run on, and no interrupt comes inside the count and the queries of a staged collection.
-- Logging, metrics, tracing, prompts, the
-- HTTP layer, authentication, caches, channels, providers, the loading and splitting of documents
-- and the scripts are left out: they are input and output, or calls
-- of other packages.
pub mod Prelude
pub mod Text
pub mod Index
pub mod Jobs
pub mod Agent
pub mod Breaker
pub mod Budget
pub mod Escalation
pub mod Retry
