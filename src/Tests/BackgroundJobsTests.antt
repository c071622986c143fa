-- ===== src/Tests/BackgroundJobsTests.antt =====
-- The job queue on concrete tables: two claims, the second after the first lease expired.
use mathews.TaskMachine.{implementing}
use mathews.Common.{
  ◌≢◌, ◌≤◌, ℕ, ◌+◌, ◌-◌, ◌*◌, ◌^◌, ◌≡◌, refl, true, false, none, some, List, [], ◌∷◌, ok, err,
  arith, min, map,
}
use mathews.BackgroundJobs.{
  lease_lost, BackgroundJob, BackgroundJobLease, BackgroundJobEffect, reason_superseded, Queue,
  JobLeaseGrant, any, find, filter, insert_by, sort_by, update_job, update_lease, update_effect,
  find_job, finish_job, grant_of,
}
use mathews.BackgroundJobs.Retry.{
  RetryPolicy, retry_policy, cap_milliseconds, deterministic_retry_delay, lease_duration,
}
use mathews.BackgroundJobs.Claim.{
  ScheduleCommand, ClaimCommand, Readings, is_job_of, has_unresolved_outage, matching_schedule,
  new_job, schedule_new, schedule_or_replay, schedule, has_runnable_task, has_blocking_target,
  is_expired_owner, has_restart_fence, is_expired_lease, is_ready, is_eligible, candidate,
  is_lease_of, max_attempt, new_lease, claimed_job, issue_lease, fail_exhausted, claim_expired,
  claim_round, claim_loop, claim_next,
}
use mathews.BackgroundJobs.Recovery.{
  expired_jobs, recovered_job, recovered_lease, reconcile_job, reconcile_jobs,
  reconcile_expired_leases,
}
use mathews.BackgroundJobs.Progress.{
  Digests, is_granted, is_granted_lease, is_live, current_lease, CheckpointCommand, find_checkpoint,
  is_same_progress, new_checkpoint, violates_key, advanced_job, advanced_lease, append_new,
  append_or_replay, append_checkpoint, checkpoint,
}
use mathews.BackgroundJobs.Effects.{
  is_pending_of, pending_effect, require_no_pending_effects, request_fingerprint, is_same_request,
  new_effect, with_effect, existing_effect, prepare_effect, completed_effect, settle_effect,
  record_effect_result,
}
use mathews.BackgroundJobs.Lease.{
  extended_job, heartbeat, last_progress, complete, retried_job, release_for_retry, release_failed,
  release_failed_attempt, fail_attempt, paused_job, pause_attempt,
}
use mathews.BackgroundJobs.Calls.{
  JobCall, call_claim, call_heartbeat, call_checkpoint, call_complete, perform, run,
}
use mathews.BackgroundJobs.Budget.{WellFormed, AllWellFormed, run-AllWellFormed}
use mathews.BackgroundJobs.Fenced.{superseded_grant_refused}
use mathews.BackgroundJobs.Repeated.{checkpoint_repeated}
use mathews.BackgroundJobs.Executed.{is_prepared}
use mathews.BackgroundJobs.Worker.{Executor, observe, record_observation, perform_effect}
use mathews.BackgroundJobs.Returns.{claim_next-returns}
use mathews.BackgroundJobs.Performed.{Performing, performed, all_performed, effect_executed_once}
use mathews.BackgroundJobs.Delay.{deterministic_retry_delay_bounded}

abbrev pub digests : Digests
digests = record {
  payload = λ p. p + 1;
  effect_request = λ a b c. a * 10000 + b * 100 + c;
  jitter = λ id attempt policy. id * 7919 + attempt * 104729;
}

abbrev empty : Queue
empty = record {
  jobs = [];
  leases = [];
  checkpoints = [];
  effects = [];
  tasks = record { id = 7; state = implementing } ∷ [];
  outages = [];
  targets = [];
  next_token = 1;
}

abbrev policy : RetryPolicy
policy = record { max_attempts = 3; base_delay_seconds = 2; max_delay_seconds = 60 }

abbrev command : ScheduleCommand
command = record {
  task_id = 7;
  job_type = 4;
  idempotency_key = 55;
  input_payload = 9;
  fingerprint = 99;
  available_at = none;
}

abbrev pub waiting : Queue
waiting = record empty { jobs = new_job 1000 21 policy command ∷ [] }

abbrev pub claim : ℕ → ℕ → ClaimCommand
claim worker lease_id = record {
  worker_id = worker;
  duration = 30000;
  job_types = [];
  lease_id = lease_id;
}

abbrev pub at : ℕ → List Readings
at time = record { scan_time = time; release_time = time; lease_time = time } ∷ []

abbrev grant : ℕ → ℕ → ℕ → ℕ → JobLeaseGrant
grant lease_id worker token expires = record {
  job_id = 21;
  task_id = 7;
  lease_id = lease_id;
  worker_id = worker;
  attempt = token;
  fencing_token = token;
  expires_at = expires;
  job_type = 4;
  input_payload = 9;
  checkpoint = none;
  checkpoint_version = 0;
  recovered = false;
}

-- The queue under the first worker's lease.
abbrev held : Queue
held = record waiting {
  jobs =
      claimed_job (new_lease 2000 (claim 31 41) waiting (new_job 1000 21 policy command))
        (new_job 1000 21 policy command)
      ∷ [];
  leases = new_lease 2000 (claim 31 41) waiting (new_job 1000 21 policy command) ∷ [];
  next_token = 2;
}

unfoldable pub computes : ℕ
unfolding any find filter insert_by sort_by update_job update_lease update_effect find_job
    finish_job grant_of retry_policy cap_milliseconds deterministic_retry_delay lease_duration
    is_job_of has_unresolved_outage matching_schedule new_job schedule_new schedule_or_replay
    schedule has_runnable_task has_blocking_target is_expired_owner has_restart_fence
    is_expired_lease is_ready is_eligible candidate is_lease_of max_attempt new_lease claimed_job
    issue_lease fail_exhausted claim_expired claim_round claim_loop claim_next expired_jobs
    recovered_job recovered_lease reconcile_job reconcile_jobs reconcile_expired_leases is_granted
    is_granted_lease is_live current_lease find_checkpoint is_same_progress new_checkpoint
    violates_key advanced_job advanced_lease append_new append_or_replay append_checkpoint
    checkpoint is_pending_of pending_effect require_no_pending_effects request_fingerprint
    is_same_request new_effect with_effect existing_effect prepare_effect completed_effect
    settle_effect record_effect_result extended_job heartbeat last_progress complete retried_job
    release_for_retry release_failed release_failed_attempt fail_attempt paused_job pause_attempt
    perform run observe record_observation perform_effect is_prepared
computes = 0

scheduled :
    schedule 1000 21 policy command empty ≡ ok (waiting, record { job_id = 21; replayed = false })
unfolding computes
scheduled = refl

schedule_twice :
    schedule 5000 22 policy command waiting ≡ ok (waiting, record { job_id = 21; replayed = true })
unfolding computes
schedule_twice = refl

first_claim :
    claim_next (at 2000) (claim 31 41) waiting ≡ ok (some (held, some (grant 41 31 1 32000)))
unfolding computes
first_claim = refl

-- Nobody else gets the job while the lease lives.
no_second_claim : claim_next (at 31000) (claim 32 42) held ≡ ok (some (held, none))
unfolding computes
no_second_claim = refl

abbrev old_lease : BackgroundJobLease
old_lease = new_lease 2000 (claim 31 41) waiting (new_job 1000 21 policy command)

abbrev old_row : BackgroundJob
old_row = claimed_job old_lease (new_job 1000 21 policy command)

abbrev new_row_lease : BackgroundJobLease
new_row_lease = new_lease 32000 (claim 32 42) held old_row

-- The queue after the second worker took the expired lease over.
abbrev retaken : Queue
retaken = record held {
  jobs = claimed_job new_row_lease old_row ∷ [];
  leases =
      new_row_lease
      ∷ record old_lease { released_at = some 32000; release_reason = some reason_superseded }
      ∷ [];
  next_token = 3;
}

takes_over :
    claim_next (at 32000) (claim 32 42) held
    ≡ ok (some (retaken, some (record (grant 42 32 2 62000) { recovered = true })))
unfolding computes
takes_over = refl

abbrev pub progress : CheckpointCommand
progress = record { expected_version = 0; idempotency_key = 61; payload = 71; new_id = 81 }

abbrev calls : List JobCall
calls =
    call_heartbeat 33000 (grant 42 32 2 62000) 40000
    ∷ call_checkpoint 34000 (grant 42 32 2 62000) progress
    ∷ call_complete 35000 (grant 42 32 2 62000) 1 none
    ∷ []

-- The second worker finishes the job.
finishes :
    map (λ (j : BackgroundJob). j.completed_at) (run digests calls retaken).jobs ≡ some 35000 ∷ []
unfolding computes
finishes = refl

superseded_grant_refused_example :
    current_lease 33000 (grant 41 31 1 32000) (run digests calls retaken) ≡ err lease_lost
superseded_grant_refused_example =
    superseded_grant_refused digests (at 32000) (claim 32 42) held retaken (grant 41 31 1 32000)
      (record (grant 42 32 2 62000) { recovered = true }) calls 33000 takes_over refl
      (unfold computes in omega arith)

waiting-WellFormed : WellFormed 1 (new_job 1000 21 policy command)
unfolding computes
waiting-WellFormed = record {
  budget = omega arith;
  lease_id = refl;
  token = refl;
  owner = refl;
  expires = refl;
  allocated = λ t e. cc;
}

run-AllWellFormed_example :
    AllWellFormed (run digests (call_claim (at 2000) (claim 31 41) ∷ calls) waiting)
run-AllWellFormed_example =
    run-AllWellFormed digests (call_claim (at 2000) (claim 31 41) ∷ calls) waiting
      (waiting-WellFormed, tt)

deterministic_retry_delay_bounded_example :
    (delay : ℕ) × (deterministic_retry_delay digests.jitter 21 2 policy ≡ ok delay)
    × (delay ≤ 60 * 1000)
    × (delay ≤ 86400 * 1000)
    × (delay ≤ 2 * 2 ^ min (2 - 1) 63 * 1000)
unfolding computes
deterministic_retry_delay_bounded_example =
    deterministic_retry_delay_bounded digests.jitter 21 2 3 2 60 policy refl (omega arith)

-- The queue after the second worker's first checkpoint.
abbrev recorded : Queue
recorded = run digests (call_checkpoint 34000 (grant 42 32 2 62000) progress ∷ []) retaken

-- A second checkpoint of the same worker.
abbrev further : CheckpointCommand
further = record { expected_version = 1; idempotency_key = 62; payload = 72; new_id = 82 }

abbrev recorded_twice : Queue
recorded_twice = run digests (call_checkpoint 35000 (grant 42 32 2 62000) further ∷ []) recorded

abbrev row_once : BackgroundJob
row_once = advanced_job progress new_row_lease (claimed_job new_row_lease old_row)

checkpoint_repeated_example :
    checkpoint digests 36000 (grant 42 32 2 62000) progress recorded_twice
    ≡ ok (recorded_twice, record { checkpoint_id = 81; sequence = 1; replayed = true })
unfolding computes
checkpoint_repeated_example =
    checkpoint_repeated digests 34000 36000 (grant 42 32 2 62000) progress retaken recorded
      recorded_twice (record { checkpoint_id = 81; sequence = 1; replayed = false })
      (new_checkpoint digests 35000 further row_once (advanced_lease progress new_row_lease) ∷ [])
      (advanced_job further (advanced_lease progress new_row_lease) row_once)
      (advanced_lease further (advanced_lease progress new_row_lease)) refl
      ((λ h. omega (arith, h)), tt) refl refl

-- An executor that succeeds with the payload 5, and knows of nothing afterwards.
abbrev pub executor : Executor
executor = record {
  execute = λ effect. some (record { succeeded = true; payload = 5 });
  reconcile = λ effect. some none;
}

-- The first worker performs the effect 9.
abbrev performing : ℕ → Performing
performing now = record {
  before = [];
  executor = executor;
  performance = record {
    started = now;
    command = record { effect_key = 9; effect_type = 3; request_payload = 4; new_id = now };
    others = [];
    finished = now + 1;
    checkpoint = progress;
    empty = 0;
  };
  grant = grant 41 31 1 32000;
}

abbrev held_lease : BackgroundJobLease
held_lease = new_lease 2000 (claim 31 41) waiting (new_job 1000 21 policy command)

-- The first worker's effect, as it is created.
abbrev created_effect : BackgroundJobEffect
created_effect =
    new_effect digests 3000 (performing 3000).performance.command
      (claimed_job held_lease (new_job 1000 21 policy command)) held_lease

effect_executed_once_example :
    let r =
      all_performed digests (performing 4000 ∷ []) (performed digests (performing 3000) held) in
    perform_effect digests executor (performing 5000).performance (grant 41 31 1 32000) r
    ≡ perform_effect digests
        (record executor { execute = λ effect. none })
        (performing 5000).performance
        (grant 41 31 1 32000)
        r
unfolding computes
effect_executed_once_example =
    effect_executed_once digests (performing 3000) (performing 4000 ∷ []) (performing 5000)
      (λ effect. none) held (record held { effects = created_effect ∷ [] })
      (record { effect = created_effect; created = true; needs_reconciliation = false }) tt refl
      refl refl refl

-- The second time the stored result is given.
stored_result_is_given :
    let q =
      (perform_effect digests executor
        (performing 3000).performance
        (grant 41 31 1 32000)
        held).0.0 in
    (perform_effect digests executor (performing 4000).performance (grant 41 31 1 32000) q).1
    ≡ ok (record { succeeded = true; payload = 5 })
unfolding computes
stored_result_is_given = refl

-- One job runs, and the clock is read twice.
claim_next-returns_example :
    claim_next
      (record { scan_time = 32000; release_time = 32000; lease_time = 32000 } ∷ at 33000)
      (claim 32 42)
      held
    ≢ ok none
unfolding computes
claim_next-returns_example =
    claim_next-returns
      (record { scan_time = 32000; release_time = 32000; lease_time = 32000 } ∷ at 33000)
      (claim 32 42) held (omega arith)
