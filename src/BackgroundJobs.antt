-- ===== src/BackgroundJobs.antt =====
-- services/control-plane/src/mathews_control_plane/background_jobs.py: the tables of
-- `BackgroundJobService`, with the columns that scheduling, leasing and progress read or write.
--
-- UUIDs, workers, job types, keys, digests and JSON documents are only compared, so they are
-- numbers; times and durations count milliseconds.
pub mod Retry
pub mod Claim
pub mod Recovery
pub mod Progress
pub mod Effects
pub mod Lease
pub mod Calls
pub mod Steps
pub mod Rows
pub mod Held
pub mod Released
pub mod Recorded
pub mod Claimed
pub mod Requeued
pub mod Runs
pub mod Budget
pub mod Fenced
pub mod Delay
pub mod Repeated
pub mod Untouched
pub mod Executed
pub mod Worker
pub mod Performed
pub mod Returns
pub mod Polls
unfoldable pub use mathews.Common.Queries.{any, find, filter, insert_by, sort_by, first}
use mathews.TaskMachine.{TaskState}
use mathews.Common.{
  ℕ, Bool, true, false, not, ◌&&◌, ◌||◌, Option, none, some, List, [], ◌∷◌, Result, ok, err, ◌>>=◌,
  ◌==◌, ltb, if◌then◌else◌,
}

-- The exceptions of the module.
pub data JobError : Type 0 where
  invalid not_found job_conflict lease_lost ambiguous_effect integrity_error : JobError

-- `BackgroundJobStatus`
pub data JobStatus : Type 0 where
  queued running job_succeeded job_failed job_cancelled : JobStatus

abbrev pub is_running : JobStatus → Bool
is_running running = true
is_running _ = false

abbrev pub is_queued : JobStatus → Bool
is_queued queued = true
is_queued _ = false

-- The error codes that the module writes, and those of a handler.
pub data FailureCode : Type 0 where
  code_lease_expired code_attempts_exhausted code_cancellation : FailureCode
  code_of_handler : ℕ → FailureCode

pub record BackgroundJob : Type 0 where
  pub id : ℕ
  pub task_id : Option ℕ
  pub job_type : ℕ
  pub input_payload : ℕ
  pub input_fingerprint : ℕ
  pub status : JobStatus
  pub idempotency_key : ℕ
  pub attempt_count : ℕ
  pub max_attempts : ℕ
  pub retry_base_seconds : ℕ
  pub retry_max_seconds : ℕ
  pub available_at : ℕ
  pub created_at : ℕ
  pub checkpoint : Option ℕ
  pub checkpoint_version : ℕ
  pub current_lease_id : Option ℕ
  pub current_fencing_token : Option ℕ
  pub lease_owner : Option ℕ
  pub lease_expires_at : Option ℕ
  pub last_fencing_token : Option ℕ
  pub last_error_code : Option FailureCode
  pub cancellation_requested_at : Option ℕ
  pub completed_at : Option ℕ

pub data ReleaseReason : Type 0 where
  reason_superseded reason_expired reason_retry : ReleaseReason
  reason_succeeded reason_failed reason_cancelled : ReleaseReason

pub record BackgroundJobLease : Type 0 where
  pub id : ℕ
  pub job_id : ℕ
  pub lease_owner : ℕ
  pub attempt : ℕ
  pub fencing_token : ℕ
  pub heartbeat_at : ℕ
  pub expires_at : ℕ
  pub checkpoint : Option ℕ
  pub checkpoint_version : ℕ
  pub released_at : Option ℕ
  pub release_reason : Option ReleaseReason
  pub retry_at : Option ℕ
  pub failure_code : Option FailureCode
  pub cancellation_acknowledged_at : Option ℕ

pub record BackgroundJobCheckpoint : Type 0 where
  pub id : ℕ
  pub job_id : ℕ
  pub lease_id : ℕ
  pub fencing_token : ℕ
  pub sequence : ℕ
  pub idempotency_key : ℕ
  pub payload_fingerprint : ℕ
  pub payload : ℕ
  pub recorded_at : ℕ

-- `BackgroundJobEffectStatus`
pub data EffectStatus : Type 0 where
  effect_pending effect_succeeded effect_failed : EffectStatus

pub record BackgroundJobEffect : Type 0 where
  pub id : ℕ
  pub job_id : ℕ
  pub effect_type : ℕ
  pub idempotency_key : ℕ × ℕ
  pub request_fingerprint : ℕ
  pub request_payload : ℕ
  pub status : EffectStatus
  pub started_lease_id : ℕ
  pub started_fencing_token : ℕ
  pub completion_lease_id : Option ℕ
  pub completion_fencing_token : Option ℕ
  pub result_payload : Option ℕ
  pub started_at : ℕ
  pub completed_at : Option ℕ

-- The columns of a `Task` that the scheduler reads.
pub record TaskRow : Type 0 where
  pub id : ℕ
  pub state : TaskState

-- `DependencyOutageAttempt`
pub record Outage : Type 0 where
  pub job_id : ℕ
  pub exhausted : Bool
  pub resolved_at : Option ℕ

-- `ReconciliationStatus`
pub data ReconciliationStatus : Type 0 where
  target_pending target_current target_updated : ReconciliationStatus
  target_quarantined target_retry_required target_cancelled : ReconciliationStatus

pub record ReconciliationTarget : Type 0 where
  pub job_id : Option ℕ
  pub task_id : Option ℕ
  pub status : ReconciliationStatus

-- The tables. `next_token` is `BackgroundJobFencingCounter`, 1 where the row is not there yet.
pub record Queue : Type 0 where
  pub jobs : List BackgroundJob
  pub leases : List BackgroundJobLease
  pub checkpoints : List BackgroundJobCheckpoint
  pub effects : List BackgroundJobEffect
  pub tasks : List TaskRow
  pub outages : List Outage
  pub targets : List ReconciliationTarget
  pub next_token : ℕ

pub record JobLeaseGrant : Type 0 where
  pub job_id : ℕ
  pub task_id : ℕ
  pub lease_id : ℕ
  pub worker_id : ℕ
  pub attempt : ℕ
  pub fencing_token : ℕ
  pub expires_at : ℕ
  pub job_type : ℕ
  pub input_payload : ℕ
  pub checkpoint : Option ℕ
  pub checkpoint_version : ℕ
  pub recovered : Bool

-- A row that a query must find.
abbrev pub require : {A : Type 0} → Option A → JobError → Result JobError A
require none e = err e
require (some a) e = ok a

-- The order of three columns.
abbrev pub before3 : ℕ × ℕ × ℕ → ℕ × ℕ × ℕ → Bool
before3 (a, b, c) (d, e, f) = ltb a d || a == d && (ltb b e || b == e && ltb c f)

-- `UPDATE … WHERE id = …` of the row's columns.
unfoldable pub update_job : BackgroundJob → List BackgroundJob → List BackgroundJob
update_job job [] = []
update_job job (row ∷ rows) = (if row.id == job.id then job else row) ∷ update_job job rows

unfoldable pub update_lease : BackgroundJobLease → List BackgroundJobLease → List BackgroundJobLease
update_lease lease [] = []
update_lease lease (row ∷ rows) =
    (if row.id == lease.id then lease else row) ∷ update_lease lease rows

unfoldable pub update_effect :
    BackgroundJobEffect → List BackgroundJobEffect → List BackgroundJobEffect
update_effect effect [] = []
update_effect effect (row ∷ rows) =
    (if row.id == effect.id then effect else row) ∷ update_effect effect rows

unfoldable pub find_job : ℕ → List BackgroundJob → Option BackgroundJob
find_job id [] = none
find_job id (row ∷ rows) = if row.id == id then some row else find_job id rows

-- `_finish_job`
unfoldable pub finish_job : JobStatus → Option FailureCode → ℕ → ℕ → BackgroundJob → BackgroundJob
finish_job status error_code token completed_at job = record job {
  status = status;
  current_lease_id = none;
  current_fencing_token = none;
  lease_owner = none;
  lease_expires_at = none;
  last_fencing_token = some token;
  last_error_code = error_code;
  completed_at = some completed_at;
}

-- `_grant`
unfoldable pub grant_of : BackgroundJob → BackgroundJobLease → Bool → Result JobError JobLeaseGrant
grant_of job lease recovered = do
  task_id ← require job.task_id job_conflict
  ok (record {
    job_id = job.id;
    task_id = task_id;
    lease_id = lease.id;
    worker_id = lease.lease_owner;
    attempt = lease.attempt;
    fencing_token = lease.fencing_token;
    expires_at = lease.expires_at;
    job_type = job.job_type;
    input_payload = job.input_payload;
    checkpoint = job.checkpoint;
    checkpoint_version = job.checkpoint_version;
    recovered = recovered;
  })
