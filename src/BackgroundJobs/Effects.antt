-- ===== src/BackgroundJobs/Effects.antt =====
-- services/control-plane/src/mathews_control_plane/background_jobs.py: `prepare_effect`,
-- `record_effect_result` and `_require_no_pending_effects`. An effect's key is the pair of the job's
-- id and the worker's key, which the code writes as one text.
use mathews.BackgroundJobs.{
  JobError, not_found, job_conflict, ambiguous_effect, integrity_error, BackgroundJob,
  BackgroundJobLease, EffectStatus, effect_pending, effect_succeeded, effect_failed,
  BackgroundJobEffect, Queue, JobLeaseGrant, require, any, find, filter, sort_by, first, before3,
  update_effect,
}
use mathews.BackgroundJobs.Progress.{
  Digests, current_lease, CheckpointCommand, JobCheckpointResult, append_checkpoint,
}
use mathews.Common.{
  ℕ, Bool, true, false, not, ◌&&◌, Option, none, some, List, ◌∷◌, Result, ok, err, ◌>>=◌, ◌>>◌,
  guard, ◌==◌, if◌then◌else◌, opt_eq,
}

abbrev pub is_pending : EffectStatus → Bool
is_pending effect_pending = true
is_pending _ = false

abbrev pub same_key : ℕ × ℕ → ℕ × ℕ → Bool
same_key (a, b) (c, d) = a == c && b == d

unfoldable pub is_pending_of : ℕ → BackgroundJobEffect → Bool
is_pending_of job_id effect = effect.job_id == job_id && is_pending effect.status

abbrev start_order : BackgroundJobEffect → BackgroundJobEffect → Bool
start_order a b = before3 (a.started_at, a.id, 0) (b.started_at, b.id, 0)

-- The job's first pending effect.
unfoldable pub pending_effect : ℕ → List BackgroundJobEffect → Option BackgroundJobEffect
pending_effect job_id effects = first (sort_by start_order (filter (is_pending_of job_id) effects))

-- `_require_no_pending_effects`
unfoldable pub require_no_pending_effects : ℕ → Queue → Result JobError (Unit {0})
require_no_pending_effects job_id q =
    guard (not (any (is_pending_of job_id) q.effects)) ambiguous_effect

-- An effect to prepare, with its row's new id.
pub record EffectCommand : Type 0 where
  pub effect_key : ℕ
  pub effect_type : ℕ
  pub request_payload : ℕ
  pub new_id : ℕ

pub record PreparedJobEffect : Type 0 where
  pub effect : BackgroundJobEffect
  pub created : Bool
  pub needs_reconciliation : Bool

unfoldable pub request_fingerprint : Digests → EffectCommand → ℕ
request_fingerprint x c = x.effect_request c.effect_type c.effect_key c.request_payload

unfoldable pub is_same_request :
    Digests → BackgroundJob → EffectCommand → BackgroundJobEffect → Bool
is_same_request x job c effect =
    effect.job_id == job.id
    && effect.effect_type == c.effect_type
    && effect.request_fingerprint == request_fingerprint x c
    && effect.request_payload == c.request_payload

unfoldable pub new_effect :
    Digests → ℕ → EffectCommand → BackgroundJob → BackgroundJobLease → BackgroundJobEffect
new_effect x now c job lease = record {
  id = c.new_id;
  job_id = job.id;
  effect_type = c.effect_type;
  idempotency_key = (job.id, c.effect_key);
  request_fingerprint = request_fingerprint x c;
  request_payload = c.request_payload;
  status = effect_pending;
  started_lease_id = lease.id;
  started_fencing_token = lease.fencing_token;
  completion_lease_id = none;
  completion_fencing_token = none;
  result_payload = none;
  started_at = now;
  completed_at = none;
}

unfoldable pub with_effect :
    Digests
    → ℕ
    → EffectCommand
    → BackgroundJob
    → BackgroundJobLease
    → Queue
    → Option BackgroundJobEffect
    → Result JobError (Queue × PreparedJobEffect)
with_effect x now c job lease q none = do
  guard (not (any (λ (e : BackgroundJobEffect). e.id == c.new_id) q.effects)) integrity_error
  let effect = new_effect x now c job lease
  ok (
    record q { effects = effect ∷ q.effects },
    record { effect = effect; created = true; needs_reconciliation = false },
  )
with_effect x now c job lease q (some existing) = do
  guard (is_same_request x job c existing) job_conflict
  ok (
    q,
    record {
      effect = existing;
      created = false;
      needs_reconciliation = is_pending existing.status;
    },
  )

abbrev pub has_key : ℕ × ℕ → BackgroundJobEffect → Bool
has_key key effect = same_key effect.idempotency_key key

-- `existing`: the pending effect, or else the one of the key.
unfoldable pub existing_effect :
    ℕ × ℕ
    → List BackgroundJobEffect
    → Option BackgroundJobEffect
    → Result JobError (Option BackgroundJobEffect)
existing_effect key effects none = ok (find (has_key key) effects)
existing_effect key effects (some pending) = do
  guard (has_key key pending) ambiguous_effect
  ok (some pending)

-- `prepare_effect`
unfoldable pub prepare_effect :
    Digests
    → ℕ
    → JobLeaseGrant
    → EffectCommand
    → Queue
    → Result JobError (Queue × PreparedJobEffect)
prepare_effect x now g c q = do
  (job, lease) ← current_lease now g q
  existing ← existing_effect (job.id, c.effect_key) q.effects (pending_effect job.id q.effects)
  with_effect x now c job lease q existing

-- `EffectExecutionResult`
pub record EffectExecutionResult : Type 0 where
  pub succeeded : Bool
  pub payload : ℕ

abbrev pub target_status : Bool → EffectStatus
target_status true = effect_succeeded
target_status false = effect_failed

abbrev pub same_status : EffectStatus → EffectStatus → Bool
same_status effect_pending effect_pending = true
same_status effect_succeeded effect_succeeded = true
same_status effect_failed effect_failed = true
same_status _ _ = false

unfoldable pub completed_effect :
    ℕ → EffectExecutionResult → BackgroundJobLease → BackgroundJobEffect → BackgroundJobEffect
completed_effect now result lease effect = record effect {
  status = target_status result.succeeded;
  completion_lease_id = some lease.id;
  completion_fencing_token = some lease.fencing_token;
  result_payload = some result.payload;
  completed_at = some now;
}

-- The effects after the result of one of them is known.
unfoldable pub settle_effect :
    ℕ
    → EffectExecutionResult
    → BackgroundJobLease
    → BackgroundJobEffect
    → List BackgroundJobEffect
    → Result JobError (List BackgroundJobEffect)
settle_effect now result lease effect effects =
    if is_pending effect.status
    then ok (update_effect (completed_effect now result lease effect) effects)
    else if same_status effect.status (target_status result.succeeded)
        && opt_eq effect.result_payload (some result.payload)
    then ok effects
    else err job_conflict

-- `record_effect_result`
unfoldable pub record_effect_result :
    Digests
    → ℕ
    → JobLeaseGrant
    → ℕ
    → EffectExecutionResult
    → CheckpointCommand
    → Queue
    → Result JobError (Queue × JobCheckpointResult)
record_effect_result x now g effect_id result c q = do
  (job, lease) ← current_lease now g q
  effect ←
      require
        (find (λ (e : BackgroundJobEffect). e.id == effect_id && e.job_id == job.id) q.effects)
        not_found
  effects ← settle_effect now result lease effect q.effects
  out ← append_checkpoint x now c job lease (record q { effects = effects })
  ok (out.queue, out.result)
