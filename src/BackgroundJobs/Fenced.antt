-- ===== src/BackgroundJobs/Fenced.antt =====
-- A grant that a later claim of its job replaced is refused for good.
use mathlib.Core.Path.{subst}
use mathews.BackgroundJobs.Claim.{
  ClaimCommand, Readings, Scan, returned, claim_next, claim_loop, claim_round, claim_expired,
  candidate, held_lease, issue_lease, claimed_job, new_lease, fail_exhausted, still_held,
  supersede_lease,
}
use mathews.BackgroundJobs.Retry.{lease_duration}
use mathews.BackgroundJobs.{
  grant_of, update_job, update_lease, is_running, lease_lost, BackgroundJob, BackgroundJobLease,
  Queue, JobLeaseGrant, find_job,
}
use mathews.BackgroundJobs.Progress.{Digests, current_lease, is_granted}
use mathews.BackgroundJobs.Calls.{JobCall, run}
use mathews.BackgroundJobs.Steps.{JobStep, kept, claimed, released, IsStepClosed}
use mathews.BackgroundJobs.Rows.{AllJobs, AllJobs-find_job, AllJobs-map}
use mathews.BackgroundJobs.Runs.{run-All}
use mathews.Common.{
  ℕ, ◌+◌, ◌≤◌, ◌<◌, ◌≡◌, ◌≢◌, refl, Bool, true, false, Option, none, some, List, [], ◌∷◌, ok, err,
  arith, sym, ◌∙◌, ◌==◌, leb, Option-cases, Bool-cases, inl, inr,
}

-- No row of the grant's job holds its token.
abbrev Revoked : JobLeaseGrant → ℕ → BackgroundJob → Type 0
Revoked g n job = job.id ≡ g.job_id → job.current_fencing_token ≢ some g.fencing_token

none-other : (t : ℕ) (o : Option ℕ) → o ≡ none → o ≢ some t
none-other t o e h = cc

new-other : (t n : ℕ) (o : Option ℕ) → t < n → o ≡ some n → o ≢ some t
new-other t n o below e h = ground arith

step-Revoked :
    (g : JobLeaseGrant) {n m : ℕ} {j k : BackgroundJob}
    → g.fencing_token + 1 ≤ n
    → JobStep n j m k
    → Revoked g n j
    → Revoked g m k
step-Revoked g below (kept s) r same = λ h. r (sym s.id ∙ same) (sym s.token ∙ h)
step-Revoked g {n} below (claimed s) r same = new-other g.fencing_token n _ (omega arith) s.token
step-Revoked g below (released s) r same = none-other _ _ s.token

abbrev revoked_closure : (g : JobLeaseGrant) → IsStepClosed (Revoked g)
revoked_closure g = record {
  start = g.fencing_token + 1;
  step = λ below s r. step-Revoked g below s r;
  fresh = λ _ s same. none-other _ _ s.token;
  grow = λ r. r;
}

pub find_job-id :
    (id : ℕ) (jobs : List BackgroundJob) (j : BackgroundJob) → find_job id jobs ≡ some j → j.id ≡ id
unfolding find_job
find_job-id id [] j h = cc
find_job-id id (k ∷ jobs) j h = elim (Bool-cases (k.id == id)) [
  | inl t ↦ ground arith
  | inr f ↦ find_job-id id jobs j (ground arith)
]

is_granted-token :
    (g : JobLeaseGrant) (job : BackgroundJob)
    → is_granted g job ≡ true
    → job.current_fencing_token ≡ some g.fencing_token
unfolding is_granted
is_granted-token g job h = ground arith

-- A grant that no row holds is refused.
current_lease-Revoked :
    (now : ℕ) (g : JobLeaseGrant) (q : Queue)
    → AllJobs (Revoked g q.next_token) q.jobs
    → current_lease now g q ≡ err lease_lost
unfolding current_lease
current_lease-Revoked now g q all = elim (Option-cases (find_job g.job_id q.jobs)) [
  | inl e ↦ ground arith
  | inr (job, e) ↦ elim (Bool-cases (is_granted g job)) [
    | inl t ↦ absurd (
        AllJobs-find_job (Revoked g q.next_token) g.job_id q.jobs all e
          (find_job-id g.job_id q.jobs job e) (is_granted-token g job t))
    | inr f ↦ ground arith
  ]
]

-- What a scan that grants a lease leaves, from a value of the counter.
abbrev Granted : ℕ → Scan → Type 0
Granted n s =
    (q' : Queue) (g : JobLeaseGrant)
    → s ≡ ok (some (q', some g))
    → (g.fencing_token ≡ n)
      × (q'.next_token ≡ n + 1)
      × AllJobs (λ j. j.id ≡ g.job_id → j.current_fencing_token ≡ some n) q'.jobs

holds-update_job :
    (k : BackgroundJob) (n : ℕ) (jobs : List BackgroundJob)
    → k.current_fencing_token ≡ some n
    → AllJobs (λ j. j.id ≡ k.id → j.current_fencing_token ≡ some n) (update_job k jobs)
unfolding update_job
holds-update_job k n [] h = tt
holds-update_job k n (j ∷ jobs) h = elim (Bool-cases (j.id == k.id)) [
  | inl t ↦ rw t ((λ _. h), holds-update_job k n jobs h)
  | inr f ↦ rw f ((λ e. ground arith), holds-update_job k n jobs h)
]

issue_lease-Granted :
    (now : ℕ) (c : ClaimCommand) (q : Queue) (job : BackgroundJob) (recovered : Bool)
    → Granted q.next_token (returned (issue_lease now c q job recovered))
unfolding issue_lease grant_of claimed_job new_lease
issue_lease-Granted now c q job recovered q' g h = (
  ground arith,
  ground arith,
  let k = claimed_job (new_lease now c q job) job in
      let rows : update_job k q.jobs ≡ q'.jobs = ground arith in
      let same : k.id ≡ g.job_id = ground arith in
      subst (λ i. AllJobs (λ j. j.id ≡ i → j.current_fencing_token ≡ some q.next_token) q'.jobs)
        same
        (subst (AllJobs (λ j. j.id ≡ k.id → j.current_fencing_token ≡ some q.next_token)) rows
          (holds-update_job k q.next_token q.jobs refl)),
)

fail_exhausted-next_token :
    (now : ℕ) (job : BackgroundJob) (previous : BackgroundJobLease) (q : Queue)
    → (fail_exhausted now job previous q).next_token ≡ q.next_token
unfolding fail_exhausted
fail_exhausted-next_token now job previous q = refl

claim_expired-Granted :
    (rest : Queue → Scan) (r : Readings) (c : ClaimCommand) (q : Queue) (job : BackgroundJob)
    (o : Option BackgroundJobLease)
    → ((p : Queue) → Granted p.next_token (rest p))
    → Granted q.next_token (claim_expired rest r c q job o)
unfolding claim_expired
claim_expired-Granted rest r c q job none again q' g h = cc
claim_expired-Granted rest r c q job (some previous) again q' g h =
    elim (Bool-cases (still_held r.release_time job.lease_expires_at)) [
      | inl t ↦ ground arith
      | inr f ↦ elim (Bool-cases (leb job.max_attempts job.attempt_count)) [
        | inl t ↦
            subst (λ n. Granted n (rest (fail_exhausted r.release_time job previous q)))
              (fail_exhausted-next_token r.release_time job previous q)
              (again (fail_exhausted r.release_time job previous q)) q' g (ground arith)
        | inr e ↦
            issue_lease-Granted r.lease_time c
              (record q {
                leases = update_lease (supersede_lease r.release_time previous) q.leases;
              })
              job true q' g (ground arith)
      ]
    ]

claim_loop-Granted :
    (rs : List Readings) (c : ClaimCommand) (q : Queue) → Granted q.next_token (claim_loop rs c q)
unfolding claim_loop claim_round
claim_loop-Granted [] c q q' g h = cc
claim_loop-Granted (r ∷ rs) c q q' g h = elim (Option-cases (candidate q r.scan_time c.job_types)) [
  | inl e ↦ ground arith
  | inr (job, e) ↦ elim (Bool-cases (is_running job.status)) [
    | inl t ↦
        claim_expired-Granted (claim_loop rs c) r c q job (held_lease q job)
          (λ p. claim_loop-Granted rs c p) q' g (ground arith)
    | inr f ↦ issue_lease-Granted r.lease_time c q job false q' g (ground arith)
  ]
]

claim_next-Granted :
    (rs : List Readings) (c : ClaimCommand) (q : Queue) → Granted q.next_token (claim_next rs c q)
unfolding claim_next lease_duration
claim_next-Granted rs c q q' g h = claim_loop-Granted rs c q q' g (ground arith)

-- Once claim_next has granted a lease of a job, a grant of the same job with a token below the
-- counter before the claim is refused, whatever calls follow and at whatever time: _current_lease,
-- which every call of a worker starts with, raises.
pub superseded_grant_refused :
    (x : Digests) (rs : List Readings) (c : ClaimCommand) (q q' : Queue) (g new : JobLeaseGrant)
    (cs : List JobCall) (now : ℕ)
    → claim_next rs c q ≡ ok (some (q', some new))
    → g.job_id ≡ new.job_id
    → g.fencing_token < q.next_token
    → current_lease now g (run x cs q') ≡ err lease_lost
superseded_grant_refused x rs c q q' g new cs now h same below =
    let (_, counter, rows) = claim_next-Granted rs c q q' new h in
    let revoked : AllJobs (Revoked g q'.next_token) q'.jobs =
      AllJobs-map _ _ q'.jobs
        (λ j holds e. new-other g.fencing_token q.next_token _ below (holds (e ∙ same))) rows in
    let (_, after) = run-All (Revoked g) (revoked_closure g) x cs q' (omega arith, revoked) in
    current_lease-Revoked now g (run x cs q') after
