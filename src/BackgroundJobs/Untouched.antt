-- ===== src/BackgroundJobs/Untouched.antt =====
-- The calls that leave the table of effects as it is.
use mathews.BackgroundJobs.{
  JobError, BackgroundJob, BackgroundJobLease, TaskRow, Queue, JobLeaseGrant, require, find,
  is_running, grant_of, update_lease,
}
use mathews.BackgroundJobs.Retry.{RetryPolicy, lease_duration}
use mathews.BackgroundJobs.Claim.{
  ScheduleCommand, ScheduledJob, schedule_new, schedule_or_replay, schedule, ClaimCommand, Readings,
  Scan, returned, issue_lease, fail_exhausted, supersede_lease, still_held, claim_expired,
  claim_round, claim_loop, claim_next, candidate, held_lease,
}
use mathews.BackgroundJobs.Recovery.{
  reconcile_job, reconcile_jobs, reconcile_expired_leases, expired_jobs,
}
use mathews.BackgroundJobs.Progress.{
  Digests, current_lease, CheckpointCommand, JobCheckpointResult, Progress, append_new,
  append_or_replay, append_checkpoint, checkpoint, find_checkpoint,
}
use mathews.BackgroundJobs.Effects.{require_no_pending_effects}
use mathews.BackgroundJobs.Lease.{
  heartbeat, last_progress, complete, release_for_retry, release_failed, release_failed_attempt,
  fail_attempt, pause_attempt, JobFailureDisposition,
}
use mathews.Common.{
  ℕ, ◌≡◌, sym, ap, ◌∙◌, Bool, true, false, Option, none, some, List, [], ◌∷◌, ok, arith, inl, inr,
  Bool-cases, Option-cases, Result-cases, >>=-eq-ok, leb, ◌==◌,
}

pub append_checkpoint-effects :
    (x : Digests) (now : ℕ) (c : CheckpointCommand) (job : BackgroundJob)
    (lease : BackgroundJobLease) (q : Queue) (out : Progress)
    → append_checkpoint x now c job lease q ≡ ok out
    → out.queue.effects ≡ q.effects
unfolding append_checkpoint append_or_replay append_new
append_checkpoint-effects x now c job lease q out h =
    elim (Option-cases (find_checkpoint c.idempotency_key q.checkpoints)) [
      | inl e ↦ ground arith
      | inr (row, e) ↦ ground arith
    ]

pub checkpoint-effects :
    (x : Digests) (now : ℕ) (g : JobLeaseGrant) (c : CheckpointCommand) (q q' : Queue)
    (r : JobCheckpointResult)
    → checkpoint x now g c q ≡ ok (q', r)
    → q'.effects ≡ q.effects
unfolding checkpoint
checkpoint-effects x now g c q q' r h =
    let ((job, lease), e, h1) = >>=-eq-ok (current_lease now g q) _ h in
    let (out, f, h2) = >>=-eq-ok (append_checkpoint x now c job lease q) _ h1 in
    let same : out.queue ≡ q' = cc in
    ap (λ (q : Queue). q.effects) (sym same) ∙ append_checkpoint-effects x now c job lease q out f

schedule_or_replay-effects :
    (now id : ℕ) (policy : RetryPolicy) (c : ScheduleCommand) (task : TaskRow) (q q' : Queue)
    (r : ScheduledJob) (o : Option BackgroundJob)
    → schedule_or_replay now id policy c task q o ≡ ok (q', r)
    → q'.effects ≡ q.effects
unfolding schedule_or_replay schedule_new
schedule_or_replay-effects now id policy c task q q' r none h = ground arith
schedule_or_replay-effects now id policy c task q q' r (some existing) h = ground arith

pub schedule-effects :
    (now id : ℕ) (policy : RetryPolicy) (c : ScheduleCommand) (q q' : Queue) (r : ScheduledJob)
    → schedule now id policy c q ≡ ok (q', r)
    → q'.effects ≡ q.effects
unfolding schedule
schedule-effects now id policy c q q' r h =
    let (task, e, h1) =
      >>=-eq-ok (require (find (λ (t : TaskRow). t.id == c.task_id) q.tasks) JobError.not_found) _
        h in
    schedule_or_replay-effects now id policy c task q q' r _ h1

-- A scan that gives tables gives these effects.
abbrev Keeps : Queue → Scan → Type 0
Keeps q s = (q' : Queue) (g : Option JobLeaseGrant) → s ≡ ok (some (q', g)) → q'.effects ≡ q.effects

issue_lease-effects :
    (now : ℕ) (c : ClaimCommand) (q : Queue) (job : BackgroundJob) (recovered : Bool)
    → Keeps q (returned (issue_lease now c q job recovered))
unfolding issue_lease grant_of
issue_lease-effects now c q job recovered q' g h = ground arith

claim_expired-effects :
    (rest : Queue → Scan) (r : Readings) (c : ClaimCommand) (q : Queue) (job : BackgroundJob)
    (o : Option BackgroundJobLease)
    → ((p : Queue) → Keeps p (rest p))
    → Keeps q (claim_expired rest r c q job o)
unfolding claim_expired fail_exhausted
claim_expired-effects rest r c q job none again q' g h = cc
claim_expired-effects rest r c q job (some previous) again q' g h =
    elim (Bool-cases (still_held r.release_time job.lease_expires_at)) [
      | inl t ↦ ground arith
      | inr t ↦ elim (Bool-cases (leb job.max_attempts job.attempt_count)) [
        | inl u ↦ again (fail_exhausted r.release_time job previous q) q' g (ground arith)
        | inr u ↦
            issue_lease-effects r.lease_time c
              (record q {
                leases = update_lease (supersede_lease r.release_time previous) q.leases;
              })
              job true q' g (ground arith)
      ]
    ]

claim_round-effects :
    (rest : Queue → Scan) (r : Readings) (c : ClaimCommand) (q : Queue) (o : Option BackgroundJob)
    → ((p : Queue) → Keeps p (rest p))
    → Keeps q (claim_round rest r c q o)
unfolding claim_round
claim_round-effects rest r c q none again q' g h = ground arith
claim_round-effects rest r c q (some job) again q' g h = elim (Bool-cases (is_running job.status)) [
  | inl t ↦ claim_expired-effects rest r c q job (held_lease q job) again q' g (ground arith)
  | inr t ↦ issue_lease-effects r.lease_time c q job false q' g (ground arith)
]

claim_loop-effects :
    (rs : List Readings) (c : ClaimCommand) (q : Queue) → Keeps q (claim_loop rs c q)
unfolding claim_loop
claim_loop-effects [] c q q' g h = cc
claim_loop-effects (r ∷ rs) c q q' g h =
    claim_round-effects (claim_loop rs c) r c q (candidate q r.scan_time c.job_types)
      (claim_loop-effects rs c) q' g h

pub claim_next-effects :
    (rs : List Readings) (c : ClaimCommand) (q : Queue) → Keeps q (claim_next rs c q)
unfolding claim_next
claim_next-effects rs c q q' g h =
    let (duration, e, h1) = >>=-eq-ok (lease_duration c.duration) _ h in
    claim_loop-effects rs (record c { duration = duration }) q q' g h1

reconcile_jobs-effects :
    (now : ℕ) (jobs : List BackgroundJob) (q q' : Queue)
    → reconcile_jobs now jobs q ≡ ok q'
    → q'.effects ≡ q.effects
unfolding reconcile_jobs reconcile_job
reconcile_jobs-effects now [] q q' h = ground arith
reconcile_jobs-effects now (job ∷ jobs) q q' h =
    let (p, e, h1) = >>=-eq-ok (reconcile_job now job q) _ h in
    reconcile_jobs-effects now jobs p q' h1 ∙ ground arith

pub reconcile_expired_leases-effects :
    (now limit : ℕ) (q q' : Queue) (ids : List ℕ)
    → reconcile_expired_leases now limit q ≡ ok (q', ids)
    → q'.effects ≡ q.effects
unfolding reconcile_expired_leases
reconcile_expired_leases-effects now limit q q' ids h =
    elim (Result-cases (reconcile_jobs now (expired_jobs now limit q) q)) [
      | inr (raised, e) ↦ ground arith
      | inl (p, e) ↦
          let same : p ≡ q' = ground arith in
          ap (λ (q : Queue). q.effects) (sym same)
          ∙ reconcile_jobs-effects now (expired_jobs now limit q) q p e
    ]

pub heartbeat-effects :
    (now : ℕ) (g : JobLeaseGrant) (duration : ℕ) (q q' : Queue) (r : JobLeaseGrant)
    → heartbeat now g duration q ≡ ok (q', r)
    → q'.effects ≡ q.effects
unfolding heartbeat
heartbeat-effects now g duration q q' r h =
    let (d, e, h1) = >>=-eq-ok (lease_duration duration) _ h in
    let ((job, lease), f, h2) = >>=-eq-ok (current_lease now g q) _ h1 in
    let (grant, k, h3) = >>=-eq-ok (grant_of _ _ _) _ h2 in ground arith

last_progress-effects :
    (x : Digests) (now expected : ℕ) (final : Option CheckpointCommand) (job job' : BackgroundJob)
    (lease lease' : BackgroundJobLease) (q q' : Queue)
    → last_progress x now expected final job lease q ≡ ok (q', job', lease')
    → q'.effects ≡ q.effects
unfolding last_progress
last_progress-effects x now expected none job job' lease lease' q q' h = ground arith
last_progress-effects x now expected (some c) job job' lease lease' q q' h =
    let (out, f, h1) =
      >>=-eq-ok (append_checkpoint x now (record c { expected_version = expected }) job lease q) _
        h in
    let same : out.queue ≡ q' = ground arith in
    ap (λ (q : Queue). q.effects) (sym same)
    ∙ append_checkpoint-effects x now (record c { expected_version = expected }) job lease q out f

pub complete-effects :
    (x : Digests) (now : ℕ) (g : JobLeaseGrant) (expected : ℕ) (final : Option CheckpointCommand)
    (q q' : Queue)
    → complete x now g expected final q ≡ ok q'
    → q'.effects ≡ q.effects
unfolding complete
complete-effects x now g expected final q q' h =
    let ((job, lease), e, h1) = >>=-eq-ok (current_lease now g q) _ h in
    let (_, _, h2) = >>=-eq-ok (require_no_pending_effects job.id q) _ h1 in
    let ((r, j, l), f, h3) = >>=-eq-ok (last_progress x now expected final job lease q) _ h2 in
    let kept = last_progress-effects x now expected final job j lease l q r f in ground arith

pub fail_attempt-effects :
    (x : Digests) (now : ℕ) (g : JobLeaseGrant) (code : ℕ) (retryable : Bool) (q q' : Queue)
    (r : JobFailureDisposition)
    → fail_attempt x now g code retryable q ≡ ok (q', r)
    → q'.effects ≡ q.effects
unfolding fail_attempt release_failed_attempt release_for_retry release_failed
fail_attempt-effects x now g code retryable q q' r h =
    let ((job, lease), e, h1) = >>=-eq-ok (current_lease now g q) _ h in ground arith

pub pause_attempt-effects :
    (now : ℕ) (g : JobLeaseGrant) (code : ℕ) (q q' : Queue)
    → pause_attempt now g code q ≡ ok q'
    → q'.effects ≡ q.effects
unfolding pause_attempt
pause_attempt-effects now g code q q' h =
    let ((job, lease), e, h1) = >>=-eq-ok (current_lease now g q) _ h in ground arith
