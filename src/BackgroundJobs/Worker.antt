-- ===== src/BackgroundJobs/Worker.antt =====
-- services/control-plane/src/mathews_control_plane/background_jobs.py: `LeasedJobContext.perform_effect`.
-- What the executor of an effect does is a parameter; so are the calls that other workers make while it
-- runs. The evidence that `record_ignored_result` keeps of a late result is left out.
use mathews.BackgroundJobs.{
  JobError, ambiguous_effect, effect_succeeded, BackgroundJobEffect, Queue, JobLeaseGrant,
}
use mathews.BackgroundJobs.Progress.{Digests, CheckpointCommand}
use mathews.BackgroundJobs.Effects.{
  EffectCommand, PreparedJobEffect, EffectExecutionResult, is_pending, same_status, prepare_effect,
  record_effect_result,
}
use mathews.BackgroundJobs.Calls.{JobCall, run}
use mathews.Common.{ℕ, Option, none, some, List, Result, ok, err, if◌then◌else◌}

-- `BackgroundJobEffectExecutor`: nothing where it raises; `reconcile` may not know either.
pub record Executor : Type 0 where
  pub execute : BackgroundJobEffect → Option EffectExecutionResult
  pub reconcile : BackgroundJobEffect → Option (Option EffectExecutionResult)

pub data WorkerError : Type 0 where
  job_error : JobError → WorkerError
  executor_failed : WorkerError

-- The arguments of a call: the effect and the checkpoint, the two times of the clock, the calls in
-- between, and the empty document.
pub record Performance : Type 0 where
  pub started : ℕ
  pub command : EffectCommand
  pub others : List JobCall
  pub finished : ℕ
  pub checkpoint : CheckpointCommand
  pub empty : ℕ

abbrev pub or_empty : ℕ → Option ℕ → ℕ
or_empty empty none = empty
or_empty empty (some payload) = payload

-- The result of an effect that is not pending any more.
abbrev pub stored_outcome : ℕ → BackgroundJobEffect → EffectExecutionResult
stored_outcome empty effect = record {
  succeeded = same_status effect.status effect_succeeded;
  payload = or_empty empty effect.result_payload;
}

abbrev pub executed : Option EffectExecutionResult → Result WorkerError EffectExecutionResult
executed none = err executor_failed
executed (some observation) = ok observation

abbrev pub reconciled :
    Option (Option EffectExecutionResult) → Result WorkerError EffectExecutionResult
reconciled none = err executor_failed
reconciled (some none) = err (job_error ambiguous_effect)
reconciled (some (some observation)) = ok observation

-- `observation`
unfoldable pub observe : Executor → PreparedJobEffect → Result WorkerError EffectExecutionResult
observe x p = if p.created then executed (x.execute p.effect) else reconciled (x.reconcile p.effect)

-- The tables, the context's grant, and the outcome.
abbrev pub Performed : Type 0
Performed = (Queue × JobLeaseGrant) × Result WorkerError EffectExecutionResult

-- The checkpoint after the version of the grant.
abbrev pub next_checkpoint : JobLeaseGrant → CheckpointCommand → CheckpointCommand
next_checkpoint g c = record c { expected_version = g.checkpoint_version }

unfoldable pub record_observation :
    Digests
    → Performance
    → JobLeaseGrant
    → ℕ
    → Queue
    → Result WorkerError EffectExecutionResult
    → Performed
record_observation d s g effect_id q (err e) = ((q, g), err e)
record_observation d s g effect_id q (ok observation) =
    elim (record_effect_result d s.finished g effect_id observation (next_checkpoint g s.checkpoint)
      q) [
        | err e ↦ ((q, g), err (job_error e))
        | ok (q', checkpoint) ↦ (
          (
            q',
            record g {
              checkpoint = some s.checkpoint.payload;
              checkpoint_version = checkpoint.sequence;
            },
          ),
          ok observation,
        )
      ]

-- `perform_effect`
unfoldable pub perform_effect : Digests → Executor → Performance → JobLeaseGrant → Queue → Performed
perform_effect d x s g q = elim (prepare_effect d s.started g s.command q) [
  | err e ↦ ((q, g), err (job_error e))
  | ok (q', p) ↦
      if is_pending p.effect.status
      then record_observation d s g p.effect.id (run d s.others q') (observe x p)
      else ((q', g), ok (stored_outcome s.empty p.effect))
]
