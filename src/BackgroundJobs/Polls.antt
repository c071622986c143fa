-- ===== src/BackgroundJobs/Polls.antt =====
-- services/control-plane/src/mathews_control_plane/background_jobs.py: `LeasedJobContext` and
-- `DurableJobWorker`. A job's handler is a tree of what it does through its context, each step with the
-- calls that others make before it. `DependencyOutageError` and its call are left out.
use mathews.BackgroundJobs.{
  JobError, lease_lost, ambiguous_effect, JobStatus, is_queued, Queue, JobLeaseGrant,
}
use mathews.BackgroundJobs.Claim.{ClaimCommand, Readings, Scan, claim_next}
use mathews.BackgroundJobs.Progress.{Digests, CheckpointCommand, JobCheckpointResult, checkpoint}
use mathews.BackgroundJobs.Effects.{EffectExecutionResult}
use mathews.BackgroundJobs.Lease.{
  heartbeat, complete, JobFailureDisposition, fail_attempt, pause_attempt,
}
use mathews.BackgroundJobs.Calls.{JobCall, run}
use mathews.BackgroundJobs.Worker.{
  Executor, WorkerError, Performance, next_checkpoint, perform_effect,
}
use mathews.Common.{
  ℕ, Bool, true, false, Option, none, some, List, [], ◌∷◌, map, Result, ok, err, if◌then◌else◌,
}
use mathews.Common.Dict.{Dict, lookup}

-- What leaves a handler, or `complete`: the exceptions that `run_once` tells apart.
pub data Raised : Type 0 where
  raised_lease_lost raised_ambiguous raised_unexpected : Raised
  raised_retryable raised_paused raised_terminal : ℕ → Raised

pub data JobHandler : Type 0 where
  finishes : Option CheckpointCommand → JobHandler
  stops : Raised → JobHandler
  beats : List JobCall → ℕ → ℕ → (Result JobError JobLeaseGrant → JobHandler) → JobHandler
  checkpoints :
      List JobCall
      → ℕ
      → CheckpointCommand
      → (Result JobError JobCheckpointResult → JobHandler)
      → JobHandler
  performs :
      List JobCall
      → Executor
      → Performance
      → (Result WorkerError EffectExecutionResult → JobHandler)
      → JobHandler

-- The tables and the grant.
pub record LeasedJobContext : Type 0 where
  pub queue : Queue
  pub grant : JobLeaseGrant

module _ (d : Digests) where
  -- `LeasedJobContext.heartbeat`
  unfoldable pub context_heartbeat :
      ℕ → ℕ → LeasedJobContext → LeasedJobContext × Result JobError JobLeaseGrant
  context_heartbeat now duration c = elim (heartbeat now c.grant duration c.queue) [
    | err e ↦ (c, err e)
    | ok (q, grant) ↦ (record { queue = q; grant = grant }, ok grant)
  ]

  -- `LeasedJobContext.checkpoint`
  unfoldable pub context_checkpoint :
      ℕ
      → CheckpointCommand
      → LeasedJobContext
      → LeasedJobContext × Result JobError JobCheckpointResult
  context_checkpoint now command c =
      elim (checkpoint d now c.grant (next_checkpoint c.grant command) c.queue) [
        | err e ↦ (c, err e)
        | ok (q, result) ↦ (
          record {
            queue = q;
            grant = record c.grant {
              checkpoint = some command.payload;
              checkpoint_version = result.sequence;
            };
          },
          ok result,
        )
      ]

  abbrev pub after : List JobCall → LeasedJobContext → LeasedJobContext
  after others c = record c { queue = run d others c.queue }

  -- `LeasedJobContext.perform_effect`
  abbrev pub context_perform_effect :
      Executor
      → Performance
      → LeasedJobContext
      → LeasedJobContext × Result WorkerError EffectExecutionResult
  context_perform_effect x s c =
      let done = perform_effect d x s c.grant c.queue in
      (record { queue = done.0.0; grant = done.0.1 }, done.1)

  -- The handler in its context.
  unfoldable pub run_handler :
      JobHandler → LeasedJobContext → LeasedJobContext × Result Raised (Option CheckpointCommand)
  run_handler (finishes final) c = (c, ok final)
  run_handler (stops raised) c = (c, err raised)
  run_handler (beats others now duration next) c =
      let done = context_heartbeat now duration (after others c) in run_handler (next done.1) done.0
  run_handler (checkpoints others now command next) c =
      let done = context_checkpoint now command (after others c) in run_handler (next done.1) done.0
  run_handler (performs others x s next) c =
      let done = context_perform_effect x s (after others c) in run_handler (next done.1) done.0

-- `WorkerRunOutcome`, without ESCALATED.
pub data WorkerRunOutcome : Type 0 where
  idle succeeded retry_scheduled failed_for_good lease_is_lost : WorkerRunOutcome

-- How a poll ends; the readings of the clock may run out in the claim.
pub data Ended : Type 0 where
  ended : WorkerRunOutcome → Ended
  raises : JobError → Ended
  out_of_readings : Ended

-- The error codes that the worker writes itself.
abbrev pub unsupported_job_type : ℕ
unsupported_job_type = 1

abbrev pub ambiguous_external_effect : ℕ
ambiguous_external_effect = 2

abbrev pub unexpected_handler_failure : ℕ
unexpected_handler_failure = 3

-- A poll: the registered handlers, the claim, and when the outcome is recorded, with the calls that others
-- make before that, and the key of a job's final checkpoint.
pub record Poll : Type 0 where
  pub handlers : Dict (JobLeaseGrant → JobHandler)
  pub readings : List Readings
  pub claim : ClaimCommand
  pub others : List JobCall
  pub finished : ℕ
  pub complete_key : ℕ → ℕ

-- `final_checkpoint_key`, made of the job's id.
abbrev pub with_key : ℕ → Option CheckpointCommand → Option CheckpointCommand
with_key key none = none
with_key key (some c) = some (record c { idempotency_key = key })

abbrev pub scheduled_or_failed : JobStatus → WorkerRunOutcome
scheduled_or_failed status = if is_queued status then retry_scheduled else failed_for_good

-- A lost lease is an outcome; any other exception leaves `run_once`.
abbrev pub or_lost : JobError → Ended
or_lost lease_lost = ended lease_is_lost
or_lost e = raises e

abbrev pub disposed : Bool → JobFailureDisposition → Ended
disposed true disposition = ended (scheduled_or_failed disposition.status)
disposed false disposition = ended failed_for_good

abbrev pub raised_by : JobError → Raised
raised_by lease_lost = raised_lease_lost
raised_by ambiguous_effect = raised_ambiguous
raised_by _ = raised_unexpected

module _ (d : Digests) (now : ℕ) where
  -- `_record_failure`, and the outcome of it.
  unfoldable pub record_failure : JobLeaseGrant → ℕ → Bool → Queue → Queue × Ended
  record_failure g error_code retryable q = elim (fail_attempt d now g error_code retryable q) [
    | err e ↦ (q, or_lost e)
    | ok (q', disposition) ↦ (q', disposed retryable disposition)
  ]

  unfoldable pub record_pause : JobLeaseGrant → ℕ → Queue → Queue × Ended
  record_pause g error_code q = elim (pause_attempt now g error_code q) [
    | err e ↦ (q, or_lost e)
    | ok q' ↦ (q', ended retry_scheduled)
  ]

  -- The `except` branches.
  unfoldable pub handle_raised : JobLeaseGrant → Queue → Raised → Queue × Ended
  handle_raised g q raised_lease_lost = (q, ended lease_is_lost)
  handle_raised g q raised_ambiguous = record_failure g ambiguous_external_effect true q
  handle_raised g q raised_unexpected = record_failure g unexpected_handler_failure true q
  handle_raised g q (raised_retryable code) = record_failure g code true q
  handle_raised g q (raised_paused code) = record_pause g code q
  handle_raised g q (raised_terminal code) = record_failure g code false q

  -- The end of the `try`.
  unfoldable pub finish_job_run :
      (ℕ → ℕ) → JobLeaseGrant → Queue → Result Raised (Option CheckpointCommand) → Queue × Ended
  finish_job_run complete_key g q (err raised) = handle_raised g q raised
  finish_job_run complete_key g q (ok final) =
      elim (complete d now g g.checkpoint_version (with_key (complete_key g.job_id) final) q) [
        | err e ↦ handle_raised g q (raised_by e)
        | ok q' ↦ (q', ended succeeded)
      ]

module _ (d : Digests) (p : Poll) where
  -- With the handler of the job's type.
  unfoldable pub handle_job :
      JobLeaseGrant → Queue → Option (JobLeaseGrant → JobHandler) → Queue × Ended
  handle_job g q none = elim (fail_attempt d p.finished g unsupported_job_type false q) [
    | err e ↦ (q, raises e)
    | ok (q', _) ↦ (q', ended failed_for_good)
  ]
  handle_job g q (some handler) =
      let done = run_handler d (handler g) (record { queue = q; grant = g }) in
      finish_job_run d p.finished p.complete_key done.0.grant (run d p.others done.0.queue) done.1

  unfoldable pub handle_scan : Queue → Scan → Queue × Ended
  handle_scan q (err e) = (q, raises e)
  handle_scan q (ok none) = (q, out_of_readings)
  handle_scan q (ok (some (q', none))) = (q', ended idle)
  handle_scan q (ok (some (q', some g))) = handle_job g q' (lookup g.job_type p.handlers)

  abbrev pub job_types : Dict (JobLeaseGrant → JobHandler) → List ℕ
  job_types handlers = map (λ h. h.0) handlers

  -- `claim_next(job_types=tuple(self._handlers))`
  abbrev pub claim_registered : ClaimCommand
  claim_registered = record p.claim { job_types = job_types p.handlers }

  abbrev pub poll : Dict (JobLeaseGrant → JobHandler) → Queue → Queue × Ended
  poll [] q = (q, ended idle)
  poll (_ ∷ _) q = handle_scan q (claim_next p.readings claim_registered q)

  -- `run_once`
  unfoldable pub run_once : Queue → Queue × Ended
  run_once q = poll p.handlers q
