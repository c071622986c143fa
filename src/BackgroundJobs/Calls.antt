-- ===== src/BackgroundJobs/Calls.antt =====
-- services/control-plane/src/mathews_control_plane/background_jobs.py: sequences of calls of
-- `BackgroundJobService`. Each call is one transaction, with what the clock shows and the new ids as
-- arguments.
use mathews.BackgroundJobs.{JobError, Queue, JobLeaseGrant}
use mathews.BackgroundJobs.Retry.{RetryPolicy, retry_policy}
use mathews.BackgroundJobs.Claim.{ScheduleCommand, ClaimCommand, Readings, schedule, claim_next}
use mathews.BackgroundJobs.Recovery.{reconcile_expired_leases}
use mathews.BackgroundJobs.Progress.{Digests, CheckpointCommand, checkpoint}
use mathews.BackgroundJobs.Effects.{
  EffectCommand, EffectExecutionResult, prepare_effect, record_effect_result,
}
use mathews.BackgroundJobs.Lease.{heartbeat, complete, fail_attempt, pause_attempt}
use mathews.Common.{ℕ, Bool, Option, none, some, List, [], ◌∷◌, Result, ok, err, ◌>>=◌}

pub data JobCall : Type 0 where
  call_schedule : ℕ → ℕ → RetryPolicy → ScheduleCommand → JobCall
  call_claim : List Readings → ClaimCommand → JobCall
  call_reconcile : ℕ → ℕ → JobCall
  call_heartbeat : ℕ → JobLeaseGrant → ℕ → JobCall
  call_checkpoint : ℕ → JobLeaseGrant → CheckpointCommand → JobCall
  call_prepare : ℕ → JobLeaseGrant → EffectCommand → JobCall
  call_result : ℕ → JobLeaseGrant → ℕ → EffectExecutionResult → CheckpointCommand → JobCall
  call_complete : ℕ → JobLeaseGrant → ℕ → Option CheckpointCommand → JobCall
  call_fail : ℕ → JobLeaseGrant → ℕ → Bool → JobCall
  call_pause : ℕ → JobLeaseGrant → ℕ → JobCall

-- The tables that a call leaves, where it raises nothing.
abbrev pub tables {ℓ} : {A : Type ℓ} → Result JobError (Queue × A) → Result JobError Queue
tables (ok (q, _)) = ok q
tables (err e) = err e

-- A scan that ran out of readings leaves the tables.
abbrev pub scanned {ℓ} :
    {A : Type ℓ} → Queue → Result JobError (Option (Queue × A)) → Result JobError Queue
scanned q (ok (some (q', _))) = ok q'
scanned q (ok none) = ok q
scanned q (err e) = err e

unfoldable pub perform : Digests → JobCall → Queue → Result JobError Queue
perform x (call_schedule now id policy c) q = do
  policy ← retry_policy policy.max_attempts policy.base_delay_seconds policy.max_delay_seconds
  tables (schedule now id policy c q)
perform x (call_claim rs c) q = scanned q (claim_next rs c q)
perform x (call_reconcile now limit) q = tables (reconcile_expired_leases now limit q)
perform x (call_heartbeat now g duration) q = tables (heartbeat now g duration q)
perform x (call_checkpoint now g c) q = tables (checkpoint x now g c q)
perform x (call_prepare now g c) q = tables (prepare_effect x now g c q)
perform x (call_result now g id result c) q = tables (record_effect_result x now g id result c q)
perform x (call_complete now g expected final) q = complete x now g expected final q
perform x (call_fail now g code retryable) q = tables (fail_attempt x now g code retryable q)
perform x (call_pause now g code) q = pause_attempt now g code q

-- A call that raises rolls its transaction back.
abbrev pub committed : Queue → Result JobError Queue → Queue
committed q (ok q') = q'
committed q (err e) = q

unfoldable pub run : Digests → List JobCall → Queue → Queue
run x [] q = q
run x (c ∷ cs) q = run x cs (committed q (perform x c q))
