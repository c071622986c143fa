-- ===== src/BackgroundJobs/Requeued.antt =====
-- `schedule` and `reconcile_expired_leases` as steps of the jobs.
use mathlib.Core.Path.{subst}
use mathews.BackgroundJobs.{
  is_running, BackgroundJob, BackgroundJobLease, Queue, update_job, update_lease, finish_job,
  job_failed, job_cancelled, find, TaskRow,
}
use mathews.BackgroundJobs.Retry.{RetryPolicy}
use mathews.BackgroundJobs.Claim.{
  ScheduleCommand, ScheduledJob, matching_schedule, new_job, schedule_new, schedule_or_replay,
  schedule, is_expired_lease, held_lease,
}
use mathews.BackgroundJobs.Recovery.{
  expired_jobs, recovered_job, recovered_lease, reconcile_job, reconcile_jobs,
  reconcile_expired_leases,
}
use mathews.BackgroundJobs.Steps.{Released, Fresh, released, IsStepClosed}
use mathews.BackgroundJobs.Rows.{AllJobs, AllJobs-sort_by, AllJobs-filter, AllJobs-take, Selected}
use mathews.BackgroundJobs.Held.{All, Rows-update_job}
use mathews.BackgroundJobs.Released.{finish_job-Released}
use mathews.Common.{
  Result-cases, ℕ, ◌≡◌, refl, true, List, [], ◌∷◌, ok, arith, inl, inr, ◌==◌, Bool-cases, leb,
  is_some, Option-cases,
}

new_job-Fresh :
    (now id : ℕ) (policy : RetryPolicy) (c : ScheduleCommand) → Fresh (new_job now id policy c)
unfolding new_job
new_job-Fresh now id policy c = record {
  status = refl;
  attempt_count = refl;
  lease_id = refl;
  token = refl;
  owner = refl;
  expires = refl;
}

recovered_job-Released :
    (now : ℕ) (lease : BackgroundJobLease) (job : BackgroundJob)
    → is_running job.status ≡ true
    → Released job (recovered_job now lease job)
unfolding recovered_job finish_job
recovered_job-Released now lease job runs =
    elim (Bool-cases (is_some job.cancellation_requested_at)) [
      | inl t ↦ rw t (finish_job-Released job_cancelled _ lease.fencing_token now job refl runs)
      | inr f ↦ elim (Bool-cases (leb job.max_attempts job.attempt_count)) [
        | inl t ↦ rw (f, t) (finish_job-Released job_failed _ lease.fencing_token now job refl runs)
        | inr e ↦
            rw (f, e)
              (record {
                id = refl;
                was_running = runs;
                status = refl;
                attempt_count = omega arith;
                max_attempts = refl;
                lease_id = refl;
                token = refl;
                owner = refl;
                expires = refl;
              })
      ]
    ]

is_expired_lease-is_running :
    (now : ℕ) (job : BackgroundJob) → is_expired_lease now job ≡ true → is_running job.status ≡ true
unfolding is_expired_lease
is_expired_lease-is_running now job h = ground arith

module _ (P : ℕ → BackgroundJob → Type 0) (closed : IsStepClosed P) where
  reconcile_jobs-All :
      (now : ℕ) (jobs : List BackgroundJob) (q q' : Queue)
      → AllJobs (Selected (P q.next_token) (is_expired_lease now)) jobs
      → All P closed q
      → reconcile_jobs now jobs q ≡ ok q'
      → All P closed q'
  unfolding reconcile_jobs reconcile_job
  reconcile_jobs-All now [] q q' rows all h =
      let same : q ≡ q' = cc in subst (All P closed) same all
  reconcile_jobs-All now (job ∷ jobs) q q' ((row, due), rows) all h =
      elim (Option-cases (held_lease q job)) [
        | inl e ↦ ground arith
        | inr (lease, e) ↦
            let s = record q {
              jobs = update_job (recovered_job now lease job) q.jobs;
              leases = update_lease (recovered_lease now job lease) q.leases;
            } in
            reconcile_jobs-All now jobs s q' rows
              (Rows-update_job P closed q.next_token _ q.jobs
                (closed.step all.0
                  (released (
                    recovered_job-Released now lease job (is_expired_lease-is_running now job due)))
                  row)
                all)
              (ground arith)
      ]

  pub reconcile_expired_leases-All :
      (now limit : ℕ) (q q' : Queue) (ids : List ℕ)
      → All P closed q
      → reconcile_expired_leases now limit q ≡ ok (q', ids)
      → All P closed q'
  unfolding reconcile_expired_leases expired_jobs
  reconcile_expired_leases-All now limit q q' ids all h =
      elim (Result-cases (reconcile_jobs now (expired_jobs now limit q) q)) [
        | inl (s, e) ↦
            let same : s ≡ q' = ground arith in
            subst (All P closed) same (
              reconcile_jobs-All now (expired_jobs now limit q) q s
                (AllJobs-take _ limit _ (
                  AllJobs-sort_by _ _ _
                    (AllJobs-filter (P q.next_token) (is_expired_lease now) q.jobs all.1)))
                all e)
        | inr (f, e) ↦ ground arith
      ]

  pub schedule-All :
      (now id : ℕ) (policy : RetryPolicy) (c : ScheduleCommand) (q q' : Queue) (r : ScheduledJob)
      → All P closed q
      → schedule now id policy c q ≡ ok (q', r)
      → All P closed q'
  unfolding schedule schedule_or_replay schedule_new matching_schedule
  schedule-All now id policy c q q' r all h =
      elim (Option-cases (find (λ (t : TaskRow). t.id == c.task_id) q.tasks)) [
        | inl e ↦ ground arith
        | inr (task, e) ↦
            elim (Option-cases
              (find (λ (j : BackgroundJob). j.idempotency_key == c.idempotency_key) q.jobs)) [
                | inl f ↦
                    let same : record q { jobs = new_job now id policy c ∷ q.jobs } ≡ q' =
                      ground arith in
                    subst (All P closed) same
                      (all.0, (closed.fresh all.0 (new_job-Fresh now id policy c), all.1))
                | inr (job, f) ↦ let same : q ≡ q' = ground arith in subst (All P closed) same all
              ]
      ]
