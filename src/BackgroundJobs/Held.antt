-- ===== src/BackgroundJobs/Held.antt =====
-- What a worker's calls do to the rows of the jobs: each is a step of the job that it holds.
use mathlib.Core.Path.{subst}
use mathews.BackgroundJobs.{
  JobError, is_running, BackgroundJob, BackgroundJobLease, Queue, JobLeaseGrant, require, find,
  find_job, update_job,
}
use mathews.BackgroundJobs.Progress.{
  Digests, is_granted, is_granted_lease, is_live, current_lease, CheckpointCommand, Progress,
  advanced_job, append_new, append_or_replay, append_checkpoint,
}
use mathews.BackgroundJobs.Steps.{JobStep, kept, IsStepClosed}
use mathews.BackgroundJobs.Rows.{AllJobs, AllJobs-update_job, AllJobs-find_job}
use mathews.Common.{
  ℕ, ◌≤◌, ◌≡◌, refl, true, Option, none, some, List, Result, ok, guard, >>=-eq-ok, ◌⊎◌, inl, inr,
  sym, arith, is_some,
}

pub ok-inj : {A : Type 0} {r : Result JobError A} {a b : A} → r ≡ ok a → r ≡ ok b → a ≡ b
ok-inj g h = cc

pub require-eq-ok :
    {A : Type 0} (o : Option A) (e : JobError) {a : A} → require o e ≡ ok a → o ≡ some a
require-eq-ok none e h = cc
require-eq-ok (some a) e h = cc

-- The holder of a lease: its job is the row of its id, fits the grant, and runs.
pub record Holds (g : JobLeaseGrant) (q : Queue) (job : BackgroundJob) : Type 0 where
  pub found : find_job g.job_id q.jobs ≡ some job
  pub fits : is_granted g job ≡ true

pub current_lease-Holds :
    (now : ℕ) (g : JobLeaseGrant) (q : Queue) (job : BackgroundJob) (lease : BackgroundJobLease)
    → current_lease now g q ≡ ok (job, lease)
    → Holds g q job
unfolding current_lease
current_lease-Holds now g q job lease h =
    let (row, found, h1) = >>=-eq-ok (require (find_job g.job_id q.jobs) JobError.lease_lost) _ h in
    let (_, fits, h2) = >>=-eq-ok (guard (is_granted g row) JobError.lease_lost) _ h1 in
    let (held, _, h3) =
      >>=-eq-ok (require (find (is_granted_lease g) q.leases) JobError.lease_lost) _ h2 in
    let (_, _, h4) = >>=-eq-ok (guard (is_live now row held) JobError.lease_lost) _ h3 in
    let same : row ≡ job = cc in
    subst (Holds g q) same (record { found = require-eq-ok _ _ found; fits = ground arith })

pub is_granted-is_running :
    (g : JobLeaseGrant) (job : BackgroundJob)
    → is_granted g job ≡ true
    → is_running job.status ≡ true
unfolding is_granted
is_granted-is_running g job h = ground arith

pub is_granted-is_some :
    (g : JobLeaseGrant) (job : BackgroundJob)
    → is_granted g job ≡ true
    → is_some job.lease_expires_at ≡ true
unfolding is_granted
is_granted-is_some g job h = ground arith

-- What recording progress does to the rows of the jobs.
pub append_checkpoint-rows :
    (x : Digests) (now : ℕ) (c : CheckpointCommand) (job : BackgroundJob)
    (lease : BackgroundJobLease) (q : Queue) {out : Progress}
    → append_checkpoint x now c job lease q ≡ ok out
    → (out.queue.next_token ≡ q.next_token)
      × (((out.queue.jobs ≡ q.jobs) × (out.job ≡ job))
          ⊎ ((out.queue.jobs ≡ update_job (advanced_job c lease job) q.jobs)
              × (out.job ≡ advanced_job c lease job)))
unfolding append_checkpoint append_or_replay append_new
append_checkpoint-rows x now c job lease q h = ground arith

advanced_job-JobStep :
    (n : ℕ) (c : CheckpointCommand) (lease : BackgroundJobLease) (job : BackgroundJob)
    → JobStep n job n (advanced_job c lease job)
unfolding advanced_job
advanced_job-JobStep n c lease job = kept (record {
  id = refl;
  status = refl;
  attempt_count = refl;
  max_attempts = refl;
  lease_id = refl;
  token = refl;
  owner = refl;
  expires = refl;
})

advanced_job-is_running :
    (c : CheckpointCommand) (lease : BackgroundJobLease) (job : BackgroundJob)
    → is_running job.status ≡ true
    → is_running (advanced_job c lease job).status ≡ true
unfolding advanced_job
advanced_job-is_running c lease job h = h

-- A call that changes the row of the job that it holds, or no row.
pub data Changed (g : JobLeaseGrant) (q q' : Queue) : Type 0 where
  unchanged : q'.next_token ≡ q.next_token → q'.jobs ≡ q.jobs → Changed g q q'
  changed :
      (job k : BackgroundJob)
      → Holds g q job
      → q'.next_token ≡ q.next_token
      → q'.jobs ≡ update_job k q.jobs
      → JobStep q.next_token job q.next_token k
      → Changed g q q'

module _ (P : ℕ → BackgroundJob → Type 0) (closed : IsStepClosed P) where
  abbrev pub Rows : ℕ → List BackgroundJob → Type 0
  Rows n jobs = (closed.start ≤ n) × AllJobs (P n) jobs

  abbrev pub All : Queue → Type 0
  All q = Rows q.next_token q.jobs

  pub Rows-update_job :
      (n : ℕ) (k : BackgroundJob) (jobs : List BackgroundJob)
      → P n k
      → Rows n jobs
      → Rows n (update_job k jobs)
  Rows-update_job n k jobs row (bound, all) = (bound, AllJobs-update_job (P n) k jobs row all)

  pub All-Holds :
      (g : JobLeaseGrant) (q : Queue) (job : BackgroundJob)
      → All q
      → Holds g q job
      → P q.next_token job
  All-Holds g q job all held = AllJobs-find_job (P q.next_token) g.job_id q.jobs all.1 held.found

  -- What recording progress keeps, with the job as it is then.
  pub record Progressed (q : Queue) (out : Progress) : Type 0 where
    pub rows : Rows q.next_token out.queue.jobs
    pub counter : out.queue.next_token ≡ q.next_token
    pub row : P q.next_token out.job
    pub runs : is_running out.job.status ≡ true

  pub append_checkpoint-Progressed :
      (x : Digests) (now : ℕ) (c : CheckpointCommand) (job : BackgroundJob)
      (lease : BackgroundJobLease) (q : Queue) {out : Progress}
      → All q
      → P q.next_token job
      → is_running job.status ≡ true
      → append_checkpoint x now c job lease q ≡ ok out
      → Progressed q out
  append_checkpoint-Progressed x now c job lease q all row runs h =
      let (counter, changes) = append_checkpoint-rows x now c job lease q h in
      let next = closed.step all.0 (advanced_job-JobStep q.next_token c lease job) row in
      elim changes [
        | inl (rows, same) ↦ record {
          rows = subst (Rows q.next_token) (sym rows) all;
          counter = counter;
          row = subst (P q.next_token) (sym same) row;
          runs = subst (λ j. is_running j.status ≡ true) (sym same) runs;
        }
        | inr (rows, same) ↦ record {
          rows =
              subst (Rows q.next_token) (sym rows)
                (Rows-update_job q.next_token (advanced_job c lease job) q.jobs next all);
          counter = counter;
          row = subst (P q.next_token) (sym same) next;
          runs =
              subst (λ j. is_running j.status ≡ true) (sym same)
                (advanced_job-is_running c lease job runs);
        }
      ]

  pub Changed-All : (g : JobLeaseGrant) (q q' : Queue) → Changed g q q' → All q → All q'
  Changed-All g q q' (unchanged counter rows) all =
      subst (λ n. Rows n q'.jobs) (sym counter) (subst (Rows q.next_token) (sym rows) all)
  Changed-All g q q' (changed job k held counter rows next) all =
      subst (λ n. Rows n q'.jobs) (sym counter)
        (subst (Rows q.next_token) (sym rows) (
          Rows-update_job q.next_token k q.jobs
            (closed.step all.0 next (All-Holds g q job all held)) all))
