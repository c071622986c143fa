-- ===== src/BackgroundJobs/Released.antt =====
-- The calls of a worker as steps of the job that it holds.
use mathews.BackgroundJobs.{
  JobStatus, is_running, BackgroundJob, BackgroundJobLease, Queue, JobLeaseGrant, FailureCode,
  code_of_handler, update_job, finish_job, job_failed, JobLeaseGrant, grant_of,
}
use mathews.BackgroundJobs.Retry.{lease_duration, retry_policy, deterministic_retry_delay}
use mathews.BackgroundJobs.Progress.{Digests, current_lease}
use mathews.BackgroundJobs.Lease.{
  heartbeat, extended_job, fail_attempt, release_failed_attempt, release_for_retry, release_failed,
  retried_job, pause_attempt, paused_job, JobFailureDisposition,
}
use mathews.BackgroundJobs.Steps.{Kept, Released, kept, released}
use mathews.BackgroundJobs.Held.{
  Changed, changed, current_lease-Holds, is_granted-is_running, is_granted-is_some,
}
use mathews.Common.{
  Result-cases, ℕ, ◌+◌, ◌≡◌, refl, Bool, true, false, some, ok, arith, is_some, max, ◌⊎◌, inl, inr,
  sym, Bool-cases, ltb, ◌&&◌,
}

-- The job stands without a lease, and not running.
pub finish_job-Released :
    (status : JobStatus) (code : _) (token at : ℕ) (job : BackgroundJob)
    → is_running status ≡ false
    → is_running job.status ≡ true
    → Released job (finish_job status code token at job)
unfolding finish_job
finish_job-Released status code token at job stops runs = record {
  id = refl;
  was_running = runs;
  status = stops;
  attempt_count = omega arith;
  max_attempts = refl;
  lease_id = refl;
  token = refl;
  owner = refl;
  expires = refl;
}

retried_job-Released :
    (at : ℕ) (code : FailureCode) (token : ℕ) (job : BackgroundJob)
    → is_running job.status ≡ true
    → Released job (retried_job at code token job)
unfolding finish_job retried_job
retried_job-Released at code token job runs = record {
  id = refl;
  was_running = runs;
  status = refl;
  attempt_count = omega arith;
  max_attempts = refl;
  lease_id = refl;
  token = refl;
  owner = refl;
  expires = refl;
}

paused_job-Released :
    (now : ℕ) (code : FailureCode) (token : ℕ) (job : BackgroundJob)
    → is_running job.status ≡ true
    → Released job (paused_job now code token job)
unfolding paused_job
paused_job-Released now code token job runs = record {
  id = refl;
  was_running = runs;
  status = refl;
  attempt_count = omega arith;
  max_attempts = refl;
  lease_id = refl;
  token = refl;
  owner = refl;
  expires = refl;
}

extended_job-Kept :
    (at token : ℕ) (job : BackgroundJob)
    → is_some job.lease_expires_at ≡ true
    → Kept job (extended_job at token job)
unfolding extended_job
extended_job-Kept at token job held = record {
  id = refl;
  status = refl;
  attempt_count = refl;
  max_attempts = refl;
  lease_id = refl;
  token = refl;
  owner = refl;
  expires = sym held;
}

pub heartbeat-Changed :
    (now : ℕ) (g : JobLeaseGrant) (duration : ℕ) (q q' : Queue) (g' : JobLeaseGrant)
    → heartbeat now g duration q ≡ ok (q', g')
    → Changed g q q'
unfolding heartbeat lease_duration grant_of
heartbeat-Changed now g duration q q' g' h = elim (Result-cases (current_lease now g q)) [
  | inl ((job, lease), e) ↦
      let held = current_lease-Holds now g q job lease e in
      changed job (extended_job (max lease.expires_at (now + duration)) g.fencing_token job) held
        (ground arith) (ground arith)
        (kept (extended_job-Kept _ _ job (is_granted-is_some g job held.fits)))
  | inr (x, e) ↦ ground arith
]

pub pause_attempt-Changed :
    (now : ℕ) (g : JobLeaseGrant) (code : ℕ) (q q' : Queue)
    → pause_attempt now g code q ≡ ok q'
    → Changed g q q'
unfolding pause_attempt
pause_attempt-Changed now g code q q' h = elim (Result-cases (current_lease now g q)) [
  | inl ((job, lease), e) ↦
      let held = current_lease-Holds now g q job lease e in
      changed job (paused_job now (code_of_handler code) g.fencing_token job) held (ground arith)
        (ground arith)
        (released (paused_job-Released now _ _ job (is_granted-is_running g job held.fits)))
  | inr (x, e) ↦ ground arith
]

-- The two ends of a failed attempt.
release_failed_attempt-rows :
    (x : Digests) (now : ℕ) (g : JobLeaseGrant) (code : FailureCode) (retryable : Bool)
    (job : BackgroundJob) (lease : BackgroundJobLease) (q q' : Queue) (d : JobFailureDisposition)
    → release_failed_attempt x now g code retryable job lease q ≡ ok (q', d)
    → (q'.next_token ≡ q.next_token)
      × ((q'.jobs ≡ update_job (finish_job job_failed (some code) g.fencing_token now job) q.jobs)
          ⊎ ((at : ℕ) × (q'.jobs ≡ update_job (retried_job at code g.fencing_token job) q.jobs)))
unfolding release_failed_attempt release_for_retry release_failed
release_failed_attempt-rows x now g code retryable job lease q q' d h =
    elim (Result-cases
      (retry_policy job.max_attempts job.retry_base_seconds job.retry_max_seconds)) [
        | inl (policy, p) ↦
            elim (Bool-cases (retryable && ltb job.attempt_count job.max_attempts)) [
              | inl t ↦
                  elim (Result-cases
                    (deterministic_retry_delay x.jitter job.id job.attempt_count policy)) [
                      | inl (delay, e) ↦ (ground arith, inr (now + delay, ground arith))
                      | inr (f, e) ↦ ground arith
                    ]
              | inr t ↦ (ground arith, inl (ground arith))
            ]
        | inr (f, p) ↦ ground arith
      ]

pub fail_attempt-Changed :
    (x : Digests) (now : ℕ) (g : JobLeaseGrant) (code : ℕ) (retryable : Bool) (q q' : Queue)
    (d : JobFailureDisposition)
    → fail_attempt x now g code retryable q ≡ ok (q', d)
    → Changed g q q'
unfolding fail_attempt
fail_attempt-Changed x now g code retryable q q' d h = elim (Result-cases (current_lease now g q)) [
  | inl ((job, lease), e) ↦
      let held = current_lease-Holds now g q job lease e in
      let runs = is_granted-is_running g job held.fits in
      let (counter, ends) =
        release_failed_attempt-rows x now g (code_of_handler code) retryable job lease q q' d
          (ground arith) in
      elim ends [
        | inl rows ↦
            changed job _ held counter rows (released (finish_job-Released _ _ _ _ job refl runs))
        | inr (at, rows) ↦
            changed job _ held counter rows (released (retried_job-Released _ _ _ job runs))
      ]
  | inr (f, e) ↦ ground arith
]
