-- ===== src/BackgroundJobs/Lease.antt =====
-- services/control-plane/src/mathews_control_plane/background_jobs.py: the calls of a worker that
-- extend or give up its lease.
use mathews.BackgroundJobs.{
  JobError, job_conflict, queued, job_succeeded, job_failed, FailureCode, code_of_handler,
  BackgroundJob, reason_retry, reason_succeeded, reason_failed, BackgroundJobLease, Queue,
  JobLeaseGrant, JobStatus, update_job, update_lease, finish_job, grant_of,
}
use mathews.BackgroundJobs.Retry.{
  RetryPolicy, retry_policy, deterministic_retry_delay, lease_duration,
}
use mathews.BackgroundJobs.Progress.{Digests, current_lease, CheckpointCommand, append_checkpoint}
use mathews.BackgroundJobs.Effects.{require_no_pending_effects}
use mathews.Common.{
  ℕ, ◌+◌, ◌-◌, Bool, false, ◌&&◌, Option, none, some, Result, ok, ◌>>=◌, ◌>>◌, guard, ◌==◌, ltb,
  if◌then◌else◌, max,
}

unfoldable pub extended_job : ℕ → ℕ → BackgroundJob → BackgroundJob
extended_job expires_at token job = record job {
  lease_expires_at = some expires_at;
  last_fencing_token = some token;
}

-- `heartbeat`: the expiry moves forward only.
unfoldable pub heartbeat : ℕ → JobLeaseGrant → ℕ → Queue → Result JobError (Queue × JobLeaseGrant)
heartbeat now g duration q = do
  duration ← lease_duration duration
  (job, lease) ← current_lease now g q
  let expires_at = max lease.expires_at (now + duration)
  let lease' = record lease { heartbeat_at = now; expires_at = expires_at }
  let job' = extended_job expires_at g.fencing_token job
  grant ← grant_of job' lease' g.recovered
  ok (record q { jobs = update_job job' q.jobs; leases = update_lease lease' q.leases }, grant)

abbrev pub succeeded_lease : ℕ → BackgroundJobLease → BackgroundJobLease
succeeded_lease now lease = record lease {
  released_at = some now;
  release_reason = some reason_succeeded;
}

-- The final checkpoint, or the check of the version where there is none.
unfoldable pub last_progress :
    Digests
    → ℕ
    → ℕ
    → Option CheckpointCommand
    → BackgroundJob
    → BackgroundJobLease
    → Queue
    → Result JobError (Queue × BackgroundJob × BackgroundJobLease)
last_progress x now expected none job lease q = do
  guard (job.checkpoint_version == expected) job_conflict
  ok (q, job, lease)
last_progress x now expected (some c) job lease q = do
  out ← append_checkpoint x now (record c { expected_version = expected }) job lease q
  ok (out.queue, out.job, out.lease)

-- `complete`. The key and the payload of the final checkpoint come together.
unfoldable pub complete :
    Digests → ℕ → JobLeaseGrant → ℕ → Option CheckpointCommand → Queue → Result JobError Queue
complete x now g expected final q = do
  (job, lease) ← current_lease now g q
  require_no_pending_effects job.id q
  (q', job', lease') ← last_progress x now expected final job lease q
  ok (record q' {
    jobs = update_job (finish_job job_succeeded none g.fencing_token now job') q'.jobs;
    leases = update_lease (succeeded_lease now lease') q'.leases;
  })

pub record JobFailureDisposition : Type 0 where
  pub status : JobStatus
  pub next_attempt_at : Option ℕ
  pub exhausted : Bool
  pub retry_delay : Option ℕ

unfoldable pub retried_job : ℕ → FailureCode → ℕ → BackgroundJob → BackgroundJob
retried_job retry_at code token job = record (finish_job queued (some code) token retry_at job) {
  available_at = retry_at;
  completed_at = none;
}

-- The branch `can_retry` of `_release_failed_attempt`.
unfoldable pub release_for_retry :
    Digests
    → ℕ
    → JobLeaseGrant
    → FailureCode
    → RetryPolicy
    → BackgroundJob
    → BackgroundJobLease
    → Queue
    → Result JobError (Queue × JobFailureDisposition)
release_for_retry x now g code policy job lease q = do
  delay ← deterministic_retry_delay x.jitter job.id job.attempt_count policy
  ok (
    record q {
      jobs = update_job (retried_job (now + delay) code g.fencing_token job) q.jobs;
      leases =
          update_lease
            (record lease {
              released_at = some now;
              release_reason = some reason_retry;
              retry_at = some (now + delay);
              failure_code = some code;
            })
            q.leases;
    },
    record {
      status = queued;
      next_attempt_at = some (now + delay);
      exhausted = false;
      retry_delay = some delay;
    },
  )

-- Its other branch.
unfoldable pub release_failed :
    ℕ
    → JobLeaseGrant
    → FailureCode
    → Bool
    → BackgroundJob
    → BackgroundJobLease
    → Queue
    → Queue × JobFailureDisposition
release_failed now g code retryable job lease q = (
  record q {
    jobs = update_job (finish_job job_failed (some code) g.fencing_token now job) q.jobs;
    leases =
        update_lease
          (record lease {
            released_at = some now;
            release_reason = some reason_failed;
            retry_at = none;
            failure_code = some code;
          })
          q.leases;
  },
  record { status = job_failed; next_attempt_at = none; exhausted = retryable; retry_delay = none },
)

-- `_release_failed_attempt`
unfoldable pub release_failed_attempt :
    Digests
    → ℕ
    → JobLeaseGrant
    → FailureCode
    → Bool
    → BackgroundJob
    → BackgroundJobLease
    → Queue
    → Result JobError (Queue × JobFailureDisposition)
release_failed_attempt x now g code retryable job lease q = do
  policy ← retry_policy job.max_attempts job.retry_base_seconds job.retry_max_seconds
  if retryable && ltb job.attempt_count job.max_attempts
      then release_for_retry x now g code policy job lease q
      else ok (release_failed now g code retryable job lease q)

-- `fail_attempt`
unfoldable pub fail_attempt :
    Digests → ℕ → JobLeaseGrant → ℕ → Bool → Queue → Result JobError (Queue × JobFailureDisposition)
fail_attempt x now g error_code retryable q = do
  (job, lease) ← current_lease now g q
  release_failed_attempt x now g (code_of_handler error_code) retryable job lease q

unfoldable pub paused_job : ℕ → FailureCode → ℕ → BackgroundJob → BackgroundJob
paused_job now code token job = record job {
  status = queued;
  attempt_count = job.attempt_count - 1;
  available_at = now;
  current_lease_id = none;
  current_fencing_token = none;
  lease_owner = none;
  lease_expires_at = none;
  last_fencing_token = some token;
  last_error_code = some code;
}

-- `pause_attempt`
unfoldable pub pause_attempt : ℕ → JobLeaseGrant → ℕ → Queue → Result JobError Queue
pause_attempt now g error_code q = do
  (job, lease) ← current_lease now g q
  ok (record q {
    jobs = update_job (paused_job now (code_of_handler error_code) g.fencing_token job) q.jobs;
    leases =
        update_lease (record lease { released_at = some now; release_reason = some reason_retry })
          q.leases;
  })
