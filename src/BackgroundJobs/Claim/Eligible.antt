-- ===== src/BackgroundJobs/Claim/Eligible.antt =====
-- services/control-plane/src/mathews_control_plane/background_jobs.py: the query of
-- `claim_next`.
use mathews.BackgroundJobs.{
  is_running, is_queued, BackgroundJob, BackgroundJobLease, TaskRow, ReconciliationStatus,
  target_pending, target_updated, target_quarantined, target_retry_required, ReconciliationTarget,
  Queue, any, find, filter, sort_by, first, before3,
}
use mathews.Common.{
  ℕ, Bool, true, false, not, ◌&&◌, ◌||◌, Option, some, List, [], ◌∷◌, ◌==◌, ltb, leb, is_some,
  opt_eq,
}
use mathews.BackgroundJobs.Claim.Schedule.{is_blocked, is_due, has_unresolved_outage}

-- The task of the job exists and runs jobs.
unfoldable pub has_runnable_task : Queue → BackgroundJob → Bool
has_runnable_task q job =
    any (λ (t : TaskRow). opt_eq job.task_id (some t.id) && not (is_blocked t.state)) q.tasks

abbrev pub blocks_claim : ReconciliationStatus → Bool
blocks_claim target_updated = true
blocks_claim target_retry_required = true
blocks_claim target_quarantined = true
blocks_claim _ = false

abbrev pub is_pending_target : ReconciliationStatus → Bool
is_pending_target target_pending = true
is_pending_target _ = false

-- A target of the job or of its task with a blocking status.
unfoldable pub has_blocking_target : Queue → BackgroundJob → Bool
has_blocking_target q job =
    any
      (λ (t : ReconciliationTarget).
        (opt_eq t.job_id (some job.id) || is_some t.task_id && opt_eq job.task_id t.task_id)
        && blocks_claim t.status)
      q.targets

-- A running job of the same task whose lease expired and which has a pending target.
unfoldable pub is_expired_owner : ℕ → BackgroundJob → Option ℕ → BackgroundJob → Bool
is_expired_owner scan_time job job_id row =
    opt_eq job_id (some row.id)
    && is_some job.task_id
    && opt_eq row.task_id job.task_id
    && is_running row.status
    && is_due scan_time row.lease_expires_at

unfoldable pub has_restart_fence : Queue → ℕ → BackgroundJob → Bool
has_restart_fence q scan_time job =
    any
      (λ (t : ReconciliationTarget).
        is_pending_target t.status && any (is_expired_owner scan_time job t.job_id) q.jobs)
      q.targets

unfoldable pub is_expired_lease : ℕ → BackgroundJob → Bool
is_expired_lease now job = is_running job.status && is_due now job.lease_expires_at

-- A queued job that is due and has an attempt left.
unfoldable pub is_ready : ℕ → BackgroundJob → Bool
is_ready now job =
    is_queued job.status && ltb job.attempt_count job.max_attempts && leb job.available_at now

-- No type is given, or the job's is among them.
abbrev pub accepts_type : List ℕ → BackgroundJob → Bool
accepts_type [] job = true
accepts_type (t ∷ ts) job = any (λ type. job.job_type == type) (t ∷ ts)

-- The condition `eligible` of `claim_next`, with the one on the job types.
unfoldable pub is_eligible : Queue → ℕ → List ℕ → BackgroundJob → Bool
is_eligible q scan_time job_types job =
    (is_ready scan_time job || is_expired_lease scan_time job)
    && is_some job.task_id
    && not (is_some job.cancellation_requested_at)
    && has_runnable_task q job
    && not (has_unresolved_outage q job.task_id)
    && not (has_blocking_target q job)
    && not (has_restart_fence q scan_time job)
    && accepts_type job_types job

abbrev pub claim_order : BackgroundJob → BackgroundJob → Bool
claim_order a b = before3 (a.available_at, a.created_at, a.id) (b.available_at, b.created_at, b.id)

unfoldable pub candidate : Queue → ℕ → List ℕ → Option BackgroundJob
candidate q scan_time job_types =
    first (sort_by claim_order (filter (is_eligible q scan_time job_types) q.jobs))

-- The lease that the job's row names.
unfoldable pub is_lease_of : BackgroundJob → BackgroundJobLease → Bool
is_lease_of job lease =
    opt_eq job.current_lease_id (some lease.id)
    && lease.job_id == job.id
    && opt_eq job.current_fencing_token (some lease.fencing_token)

abbrev pub held_lease : Queue → BackgroundJob → Option BackgroundJobLease
held_lease q job = find (is_lease_of job) q.leases
