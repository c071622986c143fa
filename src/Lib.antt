-- ===== src/Lib.antt =====
-- A model of the core of Mathews, a control plane and host agent that turn an engineering request
-- into a validated draft pull request, and what is proved of it.
--
-- A task is a row of the control plane's database. services/control-plane moves it through its states
-- by audited transitions (task_state_machine.py). Work on the macOS host goes through
-- services/host-agent, whose journal (journal.py) fences the requests of a job by the token of its
-- lease and makes every operation idempotent. The messages are those of
-- libraries/configuration (host_protocol.py).
--
-- The files, and what they model:
-- - Common, Common/*: names shared by all; Python's exceptions as `Result`, a `str` as the list of its
--   code points (`Text`), a table with a numeric key (`Dict`).
-- - Errors: the exceptions of a task transition. GitObject: `_normalized_git_sha`.
-- - TaskMachine: the states, kinds, gate facts and guards of task_state_machine.py, with
--   `_verified_draft_head`, `_readiness_head` and `_plan`; TaskMachine/Engine:
--   `evaluate_task_transition`. TaskMachine/Edges writes the transition diagram apart from the code;
--   Gates, Diagram and Plans prove the engine against it.
-- - TaskService: the tables that `_transition_task` reads; Apply and Transition: its parts and the
--   whole, from the checks of the command to the update of the task. Outcome, Tasks, Replay, Log,
--   Audit, Acknowledged and Lifecycle are about its effect on the audit log, Calls about
--   sequences of calls.
-- - Journal: the tables of `HostOperationJournal`; Fencing: `_apply_fence` and
--   `_assert_current_fence`; Operations and Calls: `begin`, `finish` and `assert_authorized`. FenceLaws,
--   Trace, Superseded, Once, Received and Replay are about sequences of calls.
-- - BackgroundJobs: the tables of `BackgroundJobService` (background_jobs.py of the control plane), which
--   leases the jobs of a task to workers; Claim, Claim/Schedule and
--   Claim/Eligible: `claim_next` and `schedule`; Recovery:
--   `reconcile_expired_leases`; Retry: the retry policy and delay; Progress, Effects and Lease: the
--   calls of a worker under its lease. Calls puts calls in sequence; Steps writes the life of a job
--   apart from the code; Rows, Held, Released, Recorded, Claimed, Requeued and Runs show that the calls take
--   such steps only, from which Budget and Fenced follow; Delay is about the retry
--   delay, Repeated about a checkpoint that is sent again. Worker is `LeasedJobContext.perform_effect`;
--   Untouched, Executed and Performed are about how often an effect is executed, Returns about the end of
--   `claim_next`; Polls is `LeasedJobContext` and `DurableJobWorker.run_once` without dependency outages,
--   which only tests are about.
-- - Dispatch: `HostRequestDispatcher` (dispatch.py of the host agent), which journals the requests that
--   handlers carry out; Context: `HostOperationContext` and the run of a handler; Dispatcher: `dispatch`
--   and `verify_request` (host_protocol.py). Reaching follows a handler's effects
--   apart from what its context notes; Promises says what an answer's status means for them. Reached, Runs
--   and Again are about sequences of dispatches.
-- - Decisioning: the documents of a validation run (validation_decisioning.py of the control plane);
--   Operations, Statuses and Assess: `_operation_status`, `_assertion_status`,
--   `_criterion_status`, `_combined_status` and `_assess`. Covered, Passes, Passed and Order are about
--   them.
-- - Authentication: the tables of `AuthenticationService` (authentication.py of the control plane);
--   Tokens: the forms of tokens and passwords; Sessions and Service: its calls, and Calls
--   sequences of them. Rows and Kept carry a predicate of sessions through every call, from which
--   Revoked and Lifetime follow; Issued is about a login, Throttle and Reopened about failed ones.
-- - Retrieval: `_chunks` and the span checks of `_verify_chunk_payload` (retrieval_index.py of the control
--   plane); Slices and Chunks are about them.
-- - Tests: concrete runs, and the theorems at concrete inputs.
--
-- How the code is read. A function that raises returns `err`; a call whose transaction rolls back
-- leaves the database as it was. Values that the code only compares (UUIDs, owners, digests, worker
-- names, JSON documents) are numbers. Loops are structural recursion; the `while` of
-- `claim_next` runs over the list of what the clock shows in each round, and says so where the list
-- is too short; one reading more than jobs run is enough, since a round that goes on fails one of them. The `while` of `_chunks` has one round of fuel for each character and one more, which is
-- enough, since a round moves its start by 900 characters or ends the loop.
-- What other parts decide enters as a parameter: the gate evaluator, the hash of a command and the
-- loading of evidence (`Externals`, `Texts`), argon2 and SHA-256 (`Crypto`), what the random generator gives,
-- what a handler does on the host (`Handler`), the hashes and the JSON text of the journal (`Encoding`), and the
-- clock, which is a number of each call.
--
-- Not modelled: the SQL engines, HTTP and sockets, processes and Git on the host, the web
-- application, the migrations, and the control-plane services that only assemble records for these.
-- `_required_actor` and `_required_reason_code` run before a transition reads the database and are left
-- out; so is the retry of `TaskTransitionService.transition` after a uniqueness conflict of two
-- concurrent transactions. Of `BackgroundJobService`, tool grants,
-- owned processes, ignored results, dependency outages and the task transitions of a job are left out.
-- The HTTP middleware, cookies and routes of the authentication, the second process that may create the
-- state of the authentication at the same time, `decide` of the validation decisions, which stores what
-- `_assess` gives, and the search over the retrieval index are left out.
-- `HostOperationJournal.status` and the file checks of the journal are left
-- out.
pub mod Authentication
pub mod BackgroundJobs
pub mod Decisioning
pub mod Common
pub mod Dispatch
pub mod Errors
pub mod GitObject
pub mod Retrieval
pub mod TaskMachine
pub mod TaskService
pub mod Journal
pub mod Tests
