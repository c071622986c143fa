-- ===== src/BackgroundJobs/Budget.antt =====
-- The budget of attempts and the lease projection of every job.
use mathews.BackgroundJobs.{BackgroundJob, is_running, Queue}
use mathews.BackgroundJobs.Progress.{Digests}
use mathews.BackgroundJobs.Calls.{JobCall, run}
use mathews.BackgroundJobs.Steps.{
  Kept, Claimed, Released, Fresh, JobStep, kept, claimed, released, IsStepClosed,
}
use mathews.BackgroundJobs.Rows.{AllJobs}
use mathews.BackgroundJobs.Runs.{run-All}
use mathews.Common.{ℕ, ◌+◌, ◌≤◌, ◌<◌, ◌≡◌, sym, ◌∙◌, some, List, is_some, arith}

-- No more attempts than the budget; the four columns of the lease are set exactly while the job
-- runs, and the token is one that the counter has given out.
pub record WellFormed (n : ℕ) (job : BackgroundJob) : Type 0 where
  pub budget : job.attempt_count ≤ job.max_attempts
  pub lease_id : is_some job.current_lease_id ≡ is_running job.status
  pub token : is_some job.current_fencing_token ≡ is_running job.status
  pub owner : is_some job.lease_owner ≡ is_running job.status
  pub expires : is_some job.lease_expires_at ≡ is_running job.status
  pub allocated : (t : ℕ) → job.current_fencing_token ≡ some t → t < n

kept-WellFormed : (n : ℕ) (j k : BackgroundJob) → Kept j k → WellFormed n j → WellFormed n k
kept-WellFormed n j k s w = record {
  budget = ground (arith, s.attempt_count, s.max_attempts, w.budget);
  lease_id = ground (arith, s.lease_id, s.status, w.lease_id);
  token = ground (arith, s.token, s.status, w.token);
  owner = ground (arith, s.owner, s.status, w.owner);
  expires = ground (arith, s.expires, s.status, w.expires);
  allocated = λ t e. w.allocated t (sym s.token ∙ e);
}

claimed-WellFormed : (n : ℕ) (j k : BackgroundJob) → Claimed n j k → WellFormed (n + 1) k
claimed-WellFormed n j k s = record {
  budget = ground (arith, s.attempt_count, s.max_attempts, s.left);
  lease_id = ground (arith, s.lease_id, s.status);
  token = ground (arith, s.token, s.status);
  owner = ground (arith, s.owner, s.status);
  expires = ground (arith, s.expires, s.status);
  allocated = λ t e. ground (arith, s.token);
}

released-WellFormed : (n : ℕ) (j k : BackgroundJob) → Released j k → WellFormed n j → WellFormed n k
released-WellFormed n j k s w = record {
  budget = ground (arith, s.attempt_count, s.max_attempts, w.budget);
  lease_id = ground (arith, s.lease_id, s.status);
  token = ground (arith, s.token, s.status);
  owner = ground (arith, s.owner, s.status);
  expires = ground (arith, s.expires, s.status);
  allocated = λ t e. ground (arith, s.token);
}

fresh-WellFormed : (n : ℕ) (k : BackgroundJob) → Fresh k → WellFormed n k
fresh-WellFormed n k s = record {
  budget = ground (arith, s.attempt_count);
  lease_id = ground (arith, s.lease_id, s.status);
  token = ground (arith, s.token, s.status);
  owner = ground (arith, s.owner, s.status);
  expires = ground (arith, s.expires, s.status);
  allocated = λ t e. ground (arith, s.token);
}

step-WellFormed :
    {n m : ℕ} {j k : BackgroundJob} → JobStep n j m k → WellFormed n j → WellFormed m k
step-WellFormed (kept s) w = kept-WellFormed _ _ _ s w
step-WellFormed (claimed s) w = claimed-WellFormed _ _ _ s
step-WellFormed (released s) w = released-WellFormed _ _ _ s w

grow-WellFormed : (n : ℕ) (j : BackgroundJob) → WellFormed n j → WellFormed (n + 1) j
grow-WellFormed n j w = record {
  budget = w.budget;
  lease_id = w.lease_id;
  token = w.token;
  owner = w.owner;
  expires = w.expires;
  allocated = λ t e. ground (arith, w.allocated t e);
}

abbrev well_formed_closure : IsStepClosed WellFormed
well_formed_closure = record {
  start = 0;
  step = λ _ s w. step-WellFormed s w;
  fresh = λ {n} {k} _ s. fresh-WellFormed n k s;
  grow = λ {n} {j} w. grow-WellFormed n j w;
}

abbrev pub AllWellFormed : Queue → Type 0
AllWellFormed q = AllJobs (WellFormed q.next_token) q.jobs

-- Where every job is well formed - no more attempts than its budget, the four columns of a lease set
-- exactly while the status is RUNNING, and a token below the counter - every job is so after any
-- sequence of calls.
pub run-AllWellFormed :
    (x : Digests) (cs : List JobCall) (q : Queue) → AllWellFormed q → AllWellFormed (run x cs q)
run-AllWellFormed x cs q w =
    let (_, all) = run-All WellFormed well_formed_closure x cs q (omega arith, w) in all
