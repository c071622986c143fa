-- ===== src/BackgroundJobs/Returns.antt =====
-- The loop of `claim_next` ends.
use mathews.BackgroundJobs.{
  JobError, is_running, job_failed, code_attempts_exhausted, BackgroundJob, BackgroundJobLease,
  Queue, JobLeaseGrant, update_job, update_lease, finish_job,
}
use mathews.BackgroundJobs.Rows.{
  AllJobs, AllJobs-first, AllJobs-sort_by, AllJobs-filter, AllJobs-map, Selected,
}
use mathews.BackgroundJobs.Retry.{lease_duration}
use mathews.BackgroundJobs.Claim.{
  ClaimCommand, Readings, returned, is_eligible, claim_order, candidate, held_lease, issue_lease,
  fail_exhausted, supersede_lease, still_held, claim_expired, claim_round, claim_loop, claim_next,
}
use mathews.Common.{
  ℕ, ◌+◌, ◌≤◌, ◌<◌, arith, ◌≡◌, ◌≢◌, refl, true, false, Option, none, some, List, [], ◌∷◌, length,
  Result, ok, err, inl, inr, Bool-cases, Option-cases, Result-cases, if◌then◌else◌, ◌==◌, leb,
}

-- How many jobs run.
abbrev pub running_jobs : List BackgroundJob → ℕ
running_jobs [] = 0
running_jobs (j ∷ js) = (if is_running j.status then 1 else 0) + running_jobs js

update_job-running_jobs :
    (k : BackgroundJob) (js : List BackgroundJob)
    → is_running k.status ≡ false
    → running_jobs (update_job k js) ≤ running_jobs js
unfolding update_job
update_job-running_jobs k [] idle = omega arith
update_job-running_jobs k (j ∷ js) idle =
    let rest = update_job-running_jobs k js idle in
    elim (Bool-cases (j.id == k.id)) [
      | inl t ↦ rw t (rw idle (omega arith))
      | inr t ↦ rw t (omega arith)
    ]

-- The end of a job that runs leaves fewer that run.
abbrev Ends : List BackgroundJob → BackgroundJob → Type 0
Ends js j =
    (k : BackgroundJob)
    → j.id ≡ k.id
    → is_running k.status ≡ false
    → is_running j.status ≡ true
    → running_jobs (update_job k js) + 1 ≤ running_jobs js

Ends-cons :
    (i : BackgroundJob) (js : List BackgroundJob) (j : BackgroundJob) → Ends js j → Ends (i ∷ js) j
unfolding update_job
Ends-cons i js j ends k same idle runs =
    let fewer = ends k same idle runs in
    elim (Bool-cases (i.id == k.id)) [
      | inl t ↦ rw t (rw idle (omega arith))
      | inr t ↦ rw t (omega arith)
    ]

AllJobs-Ends : (js : List BackgroundJob) → AllJobs (Ends js) js
unfolding update_job
AllJobs-Ends [] = tt
AllJobs-Ends (j ∷ js) = (
  (λ k same idle runs.
      let found : (j.id == k.id) ≡ true = ground arith in
      let rest = update_job-running_jobs k js idle in rw found (rw idle (rw runs (omega arith)))),
  AllJobs-map (Ends js) (Ends (j ∷ js)) js (Ends-cons j js) (AllJobs-Ends js),
)

candidate-Ends :
    (q : Queue) (scan_time : ℕ) (job_types : List ℕ) (job : BackgroundJob)
    → candidate q scan_time job_types ≡ some job
    → Ends q.jobs job
unfolding candidate
candidate-Ends q scan_time job_types job h =
    (AllJobs-first (Selected (Ends q.jobs) (is_eligible q scan_time job_types)) _
      (AllJobs-sort_by _ claim_order _ (
        AllJobs-filter (Ends q.jobs) (is_eligible q scan_time job_types) q.jobs
          (AllJobs-Ends q.jobs)))
      h).0

fail_exhausted-running_jobs :
    (now : ℕ) (job : BackgroundJob) (previous : BackgroundJobLease) (q : Queue)
    → Ends q.jobs job
    → is_running job.status ≡ true
    → running_jobs (fail_exhausted now job previous q).jobs + 1 ≤ running_jobs q.jobs
unfolding fail_exhausted finish_job
fail_exhausted-running_jobs now job previous q ends runs =
    ends (finish_job job_failed (some code_attempts_exhausted) previous.fencing_token now job) refl
      refl runs

returned-some : (r : Result JobError (Queue × Option JobLeaseGrant)) → returned r ≢ ok none
returned-some (ok out) h = cc
returned-some (err e) h = cc

claim_loop-returns :
    (rs : List Readings) (c : ClaimCommand) (q : Queue)
    → running_jobs q.jobs < length rs
    → claim_loop rs c q ≢ ok none
unfolding claim_loop claim_round claim_expired
claim_loop-returns [] c q enough h = omega arith
claim_loop-returns (r ∷ rs) c q enough h =
    elim (Option-cases (candidate q r.scan_time c.job_types)) [
      | inl e ↦ ground arith
      | inr (job, e) ↦ elim (Bool-cases (is_running job.status)) [
        | inr t ↦ returned-some (issue_lease r.lease_time c q job false) (ground arith)
        | inl t ↦ elim (Option-cases (held_lease q job)) [
          | inl f ↦ ground arith
          | inr (previous, f) ↦ elim (Bool-cases (still_held r.release_time job.lease_expires_at)) [
            | inl u ↦ ground arith
            | inr u ↦ elim (Bool-cases (leb job.max_attempts job.attempt_count)) [
              | inr v ↦
                  returned-some
                    (issue_lease r.lease_time c
                      (record q {
                        leases = update_lease (supersede_lease r.release_time previous) q.leases;
                      })
                      job true)
                    (ground arith)
              | inl v ↦
                  let ended = fail_exhausted r.release_time job previous q in
                  let fewer =
                    fail_exhausted-running_jobs r.release_time job previous q
                      (candidate-Ends q r.scan_time c.job_types job e) t in
                  claim_loop-returns rs c ended (omega arith) (ground arith)
            ]
          ]
        ]
      ]
    ]

-- Where the clock is read once more than jobs run, the loop of `claim_next` ends: each round that goes on
-- has failed a job that ran.
pub claim_next-returns :
    (rs : List Readings) (c : ClaimCommand) (q : Queue)
    → running_jobs q.jobs < length rs
    → claim_next rs c q ≢ ok none
unfolding claim_next
claim_next-returns rs c q enough h = elim (Result-cases (lease_duration c.duration)) [
  | inr (raised, e) ↦ ground arith
  | inl (duration, e) ↦
      claim_loop-returns rs (record c { duration = duration }) q enough (ground arith)
]
