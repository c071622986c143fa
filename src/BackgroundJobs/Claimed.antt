-- ===== src/BackgroundJobs/Claimed.antt =====
-- `claim_next` as steps of the jobs.
use mathlib.Core.Path.{subst}
use mathews.BackgroundJobs.{
  JobError, is_running, BackgroundJob, BackgroundJobLease, Queue, JobLeaseGrant, update_job,
  update_lease, job_failed, filter, sort_by, grant_of,
}
use mathews.BackgroundJobs.Retry.{lease_duration}
use mathews.BackgroundJobs.Claim.{
  is_ready, is_expired_lease, is_eligible, claim_order, candidate, held_lease, ClaimCommand,
  new_lease, claimed_job, issue_lease, supersede_lease, fail_exhausted, Readings, still_held, Scan,
  returned, claim_expired, claim_round, claim_loop, claim_next,
}
use mathews.BackgroundJobs.Steps.{Claimed, claimed, released, IsStepClosed}
use mathews.BackgroundJobs.Rows.{
  AllJobs-first, AllJobs-sort_by, AllJobs-filter, AllJobs-map, Selected,
}
use mathews.BackgroundJobs.Held.{All, Rows, Rows-update_job}
use mathews.BackgroundJobs.Released.{finish_job-Released}
use mathews.Common.{
  Result-cases, ℕ, ◌+◌, ◌<◌, ◌≡◌, refl, Bool, true, false, Option, none, some, List, [], ◌∷◌,
  Result, ok, err, arith, ◌⊎◌, inl, inr, sym, Bool-cases, leb,
}

-- A claim takes a job that has an attempt left.
claimed_job-Claimed :
    (now : ℕ) (c : ClaimCommand) (q : Queue) (job : BackgroundJob)
    → job.attempt_count < job.max_attempts
    → Claimed q.next_token job (claimed_job (new_lease now c q job) job)
unfolding claimed_job new_lease
claimed_job-Claimed now c q job left = record {
  id = refl;
  left = left;
  attempt_count = refl;
  max_attempts = refl;
  status = refl;
  lease_id = refl;
  token = refl;
  owner = refl;
  expires = refl;
}

-- What the claim's query selects is queued with an attempt left, or running.
is_eligible-cases :
    (q : Queue) (scan : ℕ) (types : List ℕ) (job : BackgroundJob)
    → is_eligible q scan types job ≡ true
    → (job.attempt_count < job.max_attempts) ⊎ (is_running job.status ≡ true)
unfolding is_eligible is_ready is_expired_lease
is_eligible-cases q scan types job h = ground arith

issue_lease-rows :
    (now : ℕ) (c : ClaimCommand) (q : Queue) (job : BackgroundJob) (recovered : Bool) (q' : Queue)
    (g : Option JobLeaseGrant)
    → issue_lease now c q job recovered ≡ ok (q', g)
    → (q'.next_token ≡ q.next_token + 1)
      × (q'.jobs ≡ update_job (claimed_job (new_lease now c q job) job) q.jobs)
unfolding issue_lease
issue_lease-rows now c q job recovered q' g h =
    elim (Result-cases
      (grant_of (claimed_job (new_lease now c q job) job) (new_lease now c q job) recovered)) [
        | inl (k, e) ↦ (ground arith, ground arith)
        | inr (f, e) ↦ ground arith
      ]

Rows-grow :
    (P : ℕ → BackgroundJob → Type 0) (closed : IsStepClosed P) (n : ℕ) (js : List BackgroundJob)
    → Rows P closed n js
    → Rows P closed (n + 1) js
Rows-grow P closed n js (bound, all) =
    (omega arith, AllJobs-map (P n) (P (n + 1)) js (λ j p. closed.grow p) all)

module _ (P : ℕ → BackgroundJob → Type 0) (closed : IsStepClosed P) where
  issue_lease-All :
      (now : ℕ) (c : ClaimCommand) (q : Queue) (job : BackgroundJob) (recovered : Bool) (q' : Queue)
      (g : Option JobLeaseGrant)
      → All P closed q
      → P q.next_token job
      → job.attempt_count < job.max_attempts
      → issue_lease now c q job recovered ≡ ok (q', g)
      → All P closed q'
  issue_lease-All now c q job recovered q' g all row left h =
      let (counter, rows) = issue_lease-rows now c q job recovered q' g h in
      let k = claimed_job (new_lease now c q job) job in
      subst (λ n. Rows P closed n q'.jobs) (sym counter)
        (subst (Rows P closed (q.next_token + 1)) (sym rows) (
          Rows-update_job P closed (q.next_token + 1) k q.jobs
            (closed.step all.0 (claimed (claimed_job-Claimed now c q job left)) row)
            (Rows-grow P closed q.next_token q.jobs all)))

  fail_exhausted-All :
      (now : ℕ) (job : BackgroundJob) (previous : BackgroundJobLease) (q : Queue)
      → All P closed q
      → P q.next_token job
      → is_running job.status ≡ true
      → All P closed (fail_exhausted now job previous q)
  unfolding fail_exhausted
  fail_exhausted-All now job previous q all row runs =
      Rows-update_job P closed q.next_token _ q.jobs
        (closed.step all.0 (released (finish_job-Released job_failed _ _ now job refl runs)) row)
        all

  -- What a scan leaves, where it returns.
  abbrev pub Scanned : Scan → Type 0
  Scanned s = (q' : Queue) (g : Option JobLeaseGrant) → s ≡ ok (some (q', g)) → All P closed q'

  returned-Scanned :
      (r : Result JobError (Queue × Option JobLeaseGrant))
      → ((q' : Queue) (g : Option JobLeaseGrant) → r ≡ ok (q', g) → All P closed q')
      → Scanned (returned r)
  returned-Scanned (ok (q₁, g₁)) f q' g h = f q' g cc
  returned-Scanned (err e) f q' g h = cc

  claim_expired-Scanned :
      (rest : Queue → Scan) (r : Readings) (c : ClaimCommand) (q : Queue) (job : BackgroundJob)
      (o : Option BackgroundJobLease)
      → ((q₁ : Queue) → All P closed q₁ → Scanned (rest q₁))
      → All P closed q
      → P q.next_token job
      → is_running job.status ≡ true
      → Scanned (claim_expired rest r c q job o)
  unfolding claim_expired
  claim_expired-Scanned rest r c q job none again all row runs q' g h = cc
  claim_expired-Scanned rest r c q job (some previous) again all row runs q' g h =
      elim (Bool-cases (still_held r.release_time job.lease_expires_at)) [
        | inl held ↦ let same : q ≡ q' = ground arith in subst (All P closed) same all
        | inr over ↦ elim (Bool-cases (leb job.max_attempts job.attempt_count)) [
          | inl exhausted ↦
              again (fail_exhausted r.release_time job previous q)
                (fail_exhausted-All r.release_time job previous q all row runs) q' g (ground arith)
          | inr left ↦
              let s = record q {
                leases = update_lease (supersede_lease r.release_time previous) q.leases;
              } in
              returned-Scanned (issue_lease r.lease_time c s job true)
                (λ q₁ g₁. issue_lease-All r.lease_time c s job true q₁ g₁ all row (ground arith)) q'
                g (ground arith)
        ]
      ]

  claim_round-Scanned :
      (rest : Queue → Scan) (r : Readings) (c : ClaimCommand) (q : Queue) (o : Option BackgroundJob)
      → ((q₁ : Queue) → All P closed q₁ → Scanned (rest q₁))
      → All P closed q
      → ((job : BackgroundJob)
          → o ≡ some job
          → P q.next_token job
            × ((job.attempt_count < job.max_attempts) ⊎ (is_running job.status ≡ true)))
      → Scanned (claim_round rest r c q o)
  unfolding claim_round
  claim_round-Scanned rest r c q none again all picked q' g h =
      let same : q ≡ q' = cc in subst (All P closed) same all
  claim_round-Scanned rest r c q (some job) again all picked q' g h =
      let (row, cases) = picked job refl in
      elim (Bool-cases (is_running job.status)) [
        | inl runs ↦
            claim_expired-Scanned rest r c q job (held_lease q job) again all row runs q' g
              (ground arith)
        | inr idle ↦
            returned-Scanned (issue_lease r.lease_time c q job false)
              (λ q₁ g₁. issue_lease-All r.lease_time c q job false q₁ g₁ all row (ground arith)) q'
              g (ground arith)
      ]

  candidate-picked :
      (q : Queue) (scan : ℕ) (types : List ℕ) (job : BackgroundJob)
      → All P closed q
      → candidate q scan types ≡ some job
      → P q.next_token job
        × ((job.attempt_count < job.max_attempts) ⊎ (is_running job.status ≡ true))
  unfolding candidate
  candidate-picked q scan types job all h =
      let test = is_eligible q scan types in
      let (row, passes) =
        AllJobs-first (Selected (P q.next_token) test) (sort_by claim_order (filter test q.jobs))
          (AllJobs-sort_by (Selected (P q.next_token) test) claim_order (filter test q.jobs)
            (AllJobs-filter (P q.next_token) test q.jobs all.1))
          h in
      (row, is_eligible-cases q scan types job passes)

  claim_loop-Scanned :
      (rs : List Readings) (c : ClaimCommand) (q : Queue)
      → All P closed q
      → Scanned (claim_loop rs c q)
  unfolding claim_loop
  claim_loop-Scanned [] c q all q' g h = cc
  claim_loop-Scanned (r ∷ rs) c q all q' g h =
      claim_round-Scanned (claim_loop rs c) r c q (candidate q r.scan_time c.job_types)
        (λ q₁ all₁. claim_loop-Scanned rs c q₁ all₁) all
        (λ job e. candidate-picked q r.scan_time c.job_types job all e) q' g h

  pub claim_next-Scanned :
      (rs : List Readings) (c : ClaimCommand) (q : Queue)
      → All P closed q
      → Scanned (claim_next rs c q)
  unfolding claim_next lease_duration
  claim_next-Scanned rs c q all q' g h = claim_loop-Scanned rs c q all q' g (ground arith)
