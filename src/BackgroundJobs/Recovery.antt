-- ===== src/BackgroundJobs/Recovery.antt =====
-- services/control-plane/src/mathews_control_plane/background_jobs.py: `reconcile_expired_leases`.
use mathews.BackgroundJobs.{
  JobError, invalid, job_conflict, queued, job_failed, job_cancelled, code_lease_expired,
  code_attempts_exhausted, code_cancellation, BackgroundJob, reason_expired, reason_cancelled,
  BackgroundJobLease, Queue, require, filter, sort_by, before3, update_job, update_lease,
  finish_job,
}
use mathews.BackgroundJobs.Claim.{is_expired_lease, held_lease}
use mathews.Common.{
  ℕ, Bool, not, ◌&&◌, Option, none, some, List, [], ◌∷◌, Result, ok, ◌>>=◌, ◌>>◌, guard, leb,
  if◌then◌else◌, is_some, take, map,
}

-- A time as the key of an order; the rows that are ordered have one.
abbrev time_or_zero : Option ℕ → ℕ
time_or_zero none = 0
time_or_zero (some time) = time

abbrev expiry_order : BackgroundJob → BackgroundJob → Bool
expiry_order a b =
    before3 (time_or_zero a.lease_expires_at, a.created_at, a.id)
      (time_or_zero b.lease_expires_at, b.created_at, b.id)

-- The query of the rows.
unfoldable pub expired_jobs : ℕ → ℕ → Queue → List BackgroundJob
expired_jobs now limit q = take limit (sort_by expiry_order (filter (is_expired_lease now) q.jobs))

-- The job that lost its lease: cancelled, failed, or queued again.
unfoldable pub recovered_job : ℕ → BackgroundJobLease → BackgroundJob → BackgroundJob
recovered_job now lease job =
    if is_some job.cancellation_requested_at
    then finish_job job_cancelled (some code_cancellation) lease.fencing_token now job
    else if leb job.max_attempts job.attempt_count
    then finish_job job_failed (some code_attempts_exhausted) lease.fencing_token now job
    else record (finish_job queued (some code_lease_expired) lease.fencing_token now job) {
      available_at = now;
      completed_at = none;
    }

unfoldable pub recovered_lease : ℕ → BackgroundJob → BackgroundJobLease → BackgroundJobLease
recovered_lease now job lease =
    if is_some job.cancellation_requested_at
    then record lease {
      released_at = some now;
      release_reason = some reason_cancelled;
      failure_code = some code_cancellation;
      cancellation_acknowledged_at = some now;
    }
    else record lease {
      released_at = some now;
      release_reason = some reason_expired;
      failure_code = some (
          if leb job.max_attempts job.attempt_count
          then code_attempts_exhausted
          else code_lease_expired);
      cancellation_acknowledged_at = none;
    }

-- One row of the loop.
unfoldable pub reconcile_job : ℕ → BackgroundJob → Queue → Result JobError Queue
reconcile_job now job q = do
  lease ← require (held_lease q job) job_conflict
  guard (not (is_some lease.released_at)) job_conflict
  ok (record q {
    jobs = update_job (recovered_job now lease job) q.jobs;
    leases = update_lease (recovered_lease now job lease) q.leases;
  })

unfoldable pub reconcile_jobs : ℕ → List BackgroundJob → Queue → Result JobError Queue
reconcile_jobs now [] q = ok q
reconcile_jobs now (job ∷ jobs) q = do q' ← reconcile_job now job q; reconcile_jobs now jobs q'

-- `reconcile_expired_leases`
unfoldable pub reconcile_expired_leases : ℕ → ℕ → Queue → Result JobError (Queue × List ℕ)
reconcile_expired_leases now limit q = do
  guard (leb 1 limit && leb limit 1000) invalid
  q' ← reconcile_jobs now (expired_jobs now limit q) q
  ok (q', map (λ (job : BackgroundJob). job.id) (expired_jobs now limit q))
