-- ===== src/BackgroundJobs/Claim.antt =====
-- services/control-plane/src/mathews_control_plane/background_jobs.py: `claim_next`, with the names
-- of `schedule` and of the query passed on. The `uuid4` of a new row is an argument, and so is the clock.
mod Schedule
mod Eligible
unfoldable pub use Schedule.*
unfoldable pub use Eligible.*
use mathews.TaskMachine.{
  TaskState, brief_pending_approval, escalated, handed_off, failed, cancelled,
}
use mathews.BackgroundJobs.{
  JobError, not_found, job_conflict, integrity_error, queued, running, job_failed, is_running,
  is_queued, code_attempts_exhausted, BackgroundJob, reason_superseded, reason_expired,
  BackgroundJobLease, TaskRow, Outage, ReconciliationStatus, target_pending, target_updated,
  target_quarantined, target_retry_required, ReconciliationTarget, Queue, JobLeaseGrant, require,
  any, find, filter, sort_by, first, before3, update_job, update_lease, find_job, finish_job,
  grant_of,
}
use mathews.BackgroundJobs.Retry.{RetryPolicy, lease_duration}
use mathews.Common.{
  ℕ, ◌+◌, Bool, true, false, not, ◌&&◌, ◌||◌, Option, none, some, List, [], ◌∷◌, Result, ok, err,
  ◌>>=◌, ◌>>◌, guard, ◌==◌, ltb, leb, if◌then◌else◌, is_some, opt_eq, max,
}

-- `max(attempt) or 0` of the job's leases.
unfoldable pub max_attempt : ℕ → List BackgroundJobLease → ℕ
max_attempt job_id [] = 0
max_attempt job_id (l ∷ ls) =
    if l.job_id == job_id then max l.attempt (max_attempt job_id ls) else max_attempt job_id ls

-- Who claims: the worker, the duration of its lease, its job types, and the lease's new id.
pub record ClaimCommand : Type 0 where
  pub worker_id : ℕ
  pub duration : ℕ
  pub job_types : List ℕ
  pub lease_id : ℕ

unfoldable pub new_lease : ℕ → ClaimCommand → Queue → BackgroundJob → BackgroundJobLease
new_lease now c q job = record {
  id = c.lease_id;
  job_id = job.id;
  lease_owner = c.worker_id;
  attempt = max_attempt job.id q.leases + 1;
  fencing_token = q.next_token;
  heartbeat_at = now;
  expires_at = now + c.duration;
  checkpoint = job.checkpoint;
  checkpoint_version = job.checkpoint_version;
  released_at = none;
  release_reason = none;
  retry_at = none;
  failure_code = none;
  cancellation_acknowledged_at = none;
}

-- The job under its new lease.
unfoldable pub claimed_job : BackgroundJobLease → BackgroundJob → BackgroundJob
claimed_job lease job = record job {
  status = running;
  attempt_count = job.attempt_count + 1;
  current_lease_id = some lease.id;
  current_fencing_token = some lease.fencing_token;
  lease_owner = some lease.lease_owner;
  lease_expires_at = some lease.expires_at;
  last_fencing_token = some lease.fencing_token;
  last_error_code = none;
}

-- From the allocation of the token on.
unfoldable pub issue_lease :
    ℕ → ClaimCommand → Queue → BackgroundJob → Bool → Result JobError (Queue × Option JobLeaseGrant)
issue_lease now c q job recovered = do
  let lease = new_lease now c q job
  let claimed = claimed_job lease job
  guard (not (any (λ (l : BackgroundJobLease). l.id == lease.id) q.leases)) integrity_error
  grant ← grant_of claimed lease recovered
  ok (
    record q {
      jobs = update_job claimed q.jobs;
      leases = lease ∷ q.leases;
      next_token = q.next_token + 1;
    },
    some grant,
  )

abbrev pub expire_lease : ℕ → BackgroundJobLease → BackgroundJobLease
expire_lease now lease = record lease {
  released_at = some now;
  release_reason = some reason_expired;
  failure_code = some code_attempts_exhausted;
}

abbrev pub supersede_lease : ℕ → BackgroundJobLease → BackgroundJobLease
supersede_lease now lease = record lease {
  released_at = some now;
  release_reason = some reason_superseded;
}

-- A job whose last attempt expired fails.
unfoldable pub fail_exhausted : ℕ → BackgroundJob → BackgroundJobLease → Queue → Queue
fail_exhausted now job previous q = record q {
  jobs =
      update_job
        (finish_job job_failed (some code_attempts_exhausted) previous.fencing_token now job)
        q.jobs;
  leases = update_lease (expire_lease now previous) q.leases;
}

-- What the loop of `claim_next` reads of the clock in one round.
pub record Readings : Type 0 where
  pub scan_time : ℕ
  pub release_time : ℕ
  pub lease_time : ℕ

-- `job.lease_expires_at is not None and job.lease_expires_at > now`
abbrev pub still_held : ℕ → Option ℕ → Bool
still_held now none = false
still_held now (some expires) = ltb now expires

-- What a scan gives: `none` where the readings ran out, else the tables and the grant, if any.
abbrev pub Scan : Type 0
Scan = Result JobError (Option (Queue × Option JobLeaseGrant))

abbrev pub returned : Result JobError (Queue × Option JobLeaseGrant) → Scan
returned (ok out) = ok (some out)
returned (err e) = err e

-- The branch `recovered`. `rest` is the loop's next round.
unfoldable pub claim_expired :
    (Queue → Scan)
    → Readings
    → ClaimCommand
    → Queue
    → BackgroundJob
    → Option BackgroundJobLease
    → Scan
claim_expired rest r c q job none = err job_conflict
claim_expired rest r c q job (some previous) =
    let next = rest (fail_exhausted r.release_time job previous q) in
    if still_held r.release_time job.lease_expires_at
    then ok (some (q, none))
    else if leb job.max_attempts job.attempt_count
    then next
    else returned (
        issue_lease r.lease_time c
          (record q { leases = update_lease (supersede_lease r.release_time previous) q.leases })
          job true)

unfoldable pub claim_round :
    (Queue → Scan) → Readings → ClaimCommand → Queue → Option BackgroundJob → Scan
claim_round rest r c q none = ok (some (q, none))
claim_round rest r c q (some job) =
    if is_running job.status
    then claim_expired rest r c q job (held_lease q job)
    else returned (issue_lease r.lease_time c q job false)

-- The `while True` of `claim_next`, one round for each reading of the clock.
unfoldable pub claim_loop : List Readings → ClaimCommand → Queue → Scan
claim_loop [] c q = ok none
claim_loop (r ∷ rs) c q = claim_round (claim_loop rs c) r c q (candidate q r.scan_time c.job_types)

-- `claim_next`
unfoldable pub claim_next : List Readings → ClaimCommand → Queue → Scan
claim_next rs c q = do
  duration ← lease_duration c.duration
  claim_loop rs (record c { duration = duration }) q
