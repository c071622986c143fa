-- ===== src/BackgroundJobs/Claim/Schedule.antt =====
-- services/control-plane/src/mathews_control_plane/background_jobs.py: `schedule`. The `uuid4` of a new
-- row is an argument, and so is the clock.
use mathews.TaskMachine.{
  TaskState, brief_pending_approval, escalated, handed_off, failed, cancelled,
}
use mathews.BackgroundJobs.{
  JobError, not_found, job_conflict, integrity_error, queued, BackgroundJob, TaskRow, Outage, Queue,
  require, any, find, find_job,
}
use mathews.BackgroundJobs.Retry.{RetryPolicy}
use mathews.Common.{
  ℕ, Bool, true, false, not, ◌&&◌, Option, none, some, ◌∷◌, Result, ok, ◌>>=◌, ◌>>◌, guard, ◌==◌,
  leb, is_some, opt_eq,
}

-- The states whose task runs no job.
abbrev pub is_blocked : TaskState → Bool
is_blocked brief_pending_approval = true
is_blocked escalated = true
is_blocked handed_off = true
is_blocked failed = true
is_blocked cancelled = true
is_blocked _ = false

-- A time that is set and has come.
abbrev pub is_due : ℕ → Option ℕ → Bool
is_due now none = false
is_due now (some time) = leb time now

-- The job of the id belongs to the task.
unfoldable pub is_job_of : Queue → ℕ → Option ℕ → Bool
is_job_of q job_id task_id =
    any (λ (row : BackgroundJob). row.id == job_id && is_some task_id && opt_eq row.task_id task_id)
      q.jobs

-- An exhausted outage of the task that nobody resolved.
unfoldable pub has_unresolved_outage : Queue → Option ℕ → Bool
has_unresolved_outage q task_id =
    any (λ (o : Outage). o.exhausted && not (is_some o.resolved_at) && is_job_of q o.job_id task_id)
      q.outages

-- What `schedule` is asked for.
pub record ScheduleCommand : Type 0 where
  pub task_id : ℕ
  pub job_type : ℕ
  pub idempotency_key : ℕ
  pub input_payload : ℕ
  pub fingerprint : ℕ
  pub available_at : Option ℕ

pub record ScheduledJob : Type 0 where
  pub job_id : ℕ
  pub replayed : Bool

-- `_matching_schedule`
unfoldable pub matching_schedule : BackgroundJob → ScheduleCommand → Result JobError ScheduledJob
matching_schedule job c = do
  guard
      (opt_eq job.task_id (some c.task_id)
        && job.job_type == c.job_type
        && job.input_fingerprint == c.fingerprint)
      job_conflict
  ok (record { job_id = job.id; replayed = true })

-- `requested_available or now`
abbrev pub due_at : ℕ → Option ℕ → ℕ
due_at now none = now
due_at now (some time) = time

-- The row that a schedule adds.
unfoldable pub new_job : ℕ → ℕ → RetryPolicy → ScheduleCommand → BackgroundJob
new_job now id policy c = record {
  id = id;
  task_id = some c.task_id;
  job_type = c.job_type;
  input_payload = c.input_payload;
  input_fingerprint = c.fingerprint;
  status = queued;
  idempotency_key = c.idempotency_key;
  attempt_count = 0;
  max_attempts = policy.max_attempts;
  retry_base_seconds = policy.base_delay_seconds;
  retry_max_seconds = policy.max_delay_seconds;
  available_at = due_at now c.available_at;
  created_at = now;
  checkpoint = none;
  checkpoint_version = 0;
  current_lease_id = none;
  current_fencing_token = none;
  lease_owner = none;
  lease_expires_at = none;
  last_fencing_token = none;
  last_error_code = none;
  cancellation_requested_at = none;
  completed_at = none;
}

unfoldable pub schedule_new :
    ℕ → ℕ → RetryPolicy → ScheduleCommand → TaskRow → Queue → Result JobError (Queue × ScheduledJob)
schedule_new now id policy c task q = do
  guard (not (is_blocked task.state)) job_conflict
  guard (not (has_unresolved_outage q (some task.id))) job_conflict
  guard (not (is_some (find_job id q.jobs))) integrity_error
  ok (
    record q { jobs = new_job now id policy c ∷ q.jobs },
    record { job_id = id; replayed = false },
  )

unfoldable pub schedule_or_replay :
    ℕ
    → ℕ
    → RetryPolicy
    → ScheduleCommand
    → TaskRow
    → Queue
    → Option BackgroundJob
    → Result JobError (Queue × ScheduledJob)
schedule_or_replay now id policy c task q none = schedule_new now id policy c task q
schedule_or_replay now id policy c task q (some existing) = do
  scheduled ← matching_schedule existing c
  ok (q, scheduled)

-- `schedule`, without a `task_validator`.
unfoldable pub schedule :
    ℕ → ℕ → RetryPolicy → ScheduleCommand → Queue → Result JobError (Queue × ScheduledJob)
schedule now id policy c q = do
  task ← require (find (λ (t : TaskRow). t.id == c.task_id) q.tasks) not_found
  schedule_or_replay now id policy c task q
      (find (λ (j : BackgroundJob). j.idempotency_key == c.idempotency_key) q.jobs)
