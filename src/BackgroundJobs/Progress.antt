-- ===== src/BackgroundJobs/Progress.antt =====
-- services/control-plane/src/mathews_control_plane/background_jobs.py: `_current_lease` and what a
-- worker records under its lease: checkpoints and external effects.
use mathews.BackgroundJobs.{
  JobError, job_conflict, lease_lost, integrity_error, is_running, BackgroundJob,
  BackgroundJobLease, BackgroundJobCheckpoint, Queue, JobLeaseGrant, require, any, find, update_job,
  update_lease, find_job,
}
use mathews.BackgroundJobs.Retry.{RetryPolicy}
use mathews.Common.{
  ℕ, ◌+◌, Bool, true, false, not, ◌&&◌, ◌||◌, Option, none, some, List, [], ◌∷◌, Result, ok, ◌>>=◌,
  ◌>>◌, guard, ◌==◌, ltb, if◌then◌else◌, is_some, opt_eq,
}

-- The digests of the module: `_fingerprint` of a payload and of an effect's request, and the
-- number that the digest of `deterministic_retry_delay` gives.
pub record Digests : Type 0 where
  pub payload : ℕ → ℕ
  pub effect_request : ℕ → ℕ → ℕ → ℕ
  pub jitter : ℕ → ℕ → RetryPolicy → ℕ

-- The columns of the job against the grant.
unfoldable pub is_granted : JobLeaseGrant → BackgroundJob → Bool
is_granted g job =
    is_running job.status
    && opt_eq job.task_id (some g.task_id)
    && opt_eq job.current_lease_id (some g.lease_id)
    && opt_eq job.current_fencing_token (some g.fencing_token)
    && opt_eq job.lease_owner (some g.worker_id)
    && is_some job.lease_expires_at
    && not (is_some job.cancellation_requested_at)

-- The `WHERE` of the lease.
unfoldable pub is_granted_lease : JobLeaseGrant → BackgroundJobLease → Bool
is_granted_lease g lease =
    lease.id == g.lease_id
    && lease.job_id == g.job_id
    && lease.lease_owner == g.worker_id
    && lease.attempt == g.attempt
    && lease.fencing_token == g.fencing_token

abbrev pub is_after : ℕ → Option ℕ → Bool
is_after now none = false
is_after now (some time) = ltb now time

unfoldable pub is_live : ℕ → BackgroundJob → BackgroundJobLease → Bool
is_live now job lease =
    not (is_some lease.released_at) && is_after now job.lease_expires_at && ltb now lease.expires_at

-- `_current_lease`
unfoldable pub current_lease :
    ℕ → JobLeaseGrant → Queue → Result JobError (BackgroundJob × BackgroundJobLease)
current_lease now g q = do
  job ← require (find_job g.job_id q.jobs) lease_lost
  guard (is_granted g job) lease_lost
  lease ← require (find (is_granted_lease g) q.leases) lease_lost
  guard (is_live now job lease) lease_lost
  ok (job, lease)

-- A checkpoint to record: the version it follows, its key, its payload and its row's new id.
pub record CheckpointCommand : Type 0 where
  pub expected_version : ℕ
  pub idempotency_key : ℕ
  pub payload : ℕ
  pub new_id : ℕ

pub record JobCheckpointResult : Type 0 where
  pub checkpoint_id : ℕ
  pub sequence : ℕ
  pub replayed : Bool

unfoldable pub find_checkpoint : ℕ → List BackgroundJobCheckpoint → Option BackgroundJobCheckpoint
find_checkpoint key [] = none
find_checkpoint key (row ∷ rows) =
    if row.idempotency_key == key then some row else find_checkpoint key rows

unfoldable pub is_same_progress :
    Digests → BackgroundJob → CheckpointCommand → BackgroundJobCheckpoint → Bool
is_same_progress x job c existing =
    existing.job_id == job.id
    && existing.sequence == c.expected_version + 1
    && existing.payload_fingerprint == x.payload c.payload
    && existing.payload == c.payload

unfoldable pub new_checkpoint :
    Digests → ℕ → CheckpointCommand → BackgroundJob → BackgroundJobLease → BackgroundJobCheckpoint
new_checkpoint x now c job lease = record {
  id = c.new_id;
  job_id = job.id;
  lease_id = lease.id;
  fencing_token = lease.fencing_token;
  sequence = c.expected_version + 1;
  idempotency_key = c.idempotency_key;
  payload_fingerprint = x.payload c.payload;
  payload = c.payload;
  recorded_at = now;
}

-- The keys of the table: the id, and the job with the sequence.
unfoldable pub violates_key : BackgroundJobCheckpoint → BackgroundJobCheckpoint → Bool
violates_key new row = row.id == new.id || row.job_id == new.job_id && row.sequence == new.sequence

unfoldable pub advanced_job : CheckpointCommand → BackgroundJobLease → BackgroundJob → BackgroundJob
advanced_job c lease job = record job {
  checkpoint = some c.payload;
  checkpoint_version = c.expected_version + 1;
  last_fencing_token = some lease.fencing_token;
}

unfoldable pub advanced_lease : CheckpointCommand → BackgroundJobLease → BackgroundJobLease
advanced_lease c lease = record lease {
  checkpoint = some c.payload;
  checkpoint_version = c.expected_version + 1;
}

-- What a call leaves: the tables, with the job and its lease as they are then, and a result.
pub record Progress : Type 0 where
  pub queue : Queue
  pub job : BackgroundJob
  pub lease : BackgroundJobLease
  pub result : JobCheckpointResult

unfoldable pub append_new :
    Digests
    → ℕ
    → CheckpointCommand
    → BackgroundJob
    → BackgroundJobLease
    → Queue
    → Result JobError Progress
append_new x now c job lease q = do
  guard (job.checkpoint_version == c.expected_version) job_conflict
  let row = new_checkpoint x now c job lease
  guard (not (any (violates_key row) q.checkpoints)) integrity_error
  ok (record {
    queue = record q {
      jobs = update_job (advanced_job c lease job) q.jobs;
      leases = update_lease (advanced_lease c lease) q.leases;
      checkpoints = row ∷ q.checkpoints;
    };
    job = advanced_job c lease job;
    lease = advanced_lease c lease;
    result = record {
      checkpoint_id = c.new_id;
      sequence = c.expected_version + 1;
      replayed = false;
    };
  })

unfoldable pub append_or_replay :
    Digests
    → ℕ
    → CheckpointCommand
    → BackgroundJob
    → BackgroundJobLease
    → Queue
    → Option BackgroundJobCheckpoint
    → Result JobError Progress
append_or_replay x now c job lease q none = append_new x now c job lease q
append_or_replay x now c job lease q (some existing) = do
  guard (is_same_progress x job c existing) job_conflict
  ok (record {
    queue = q;
    job = job;
    lease = lease;
    result = record { checkpoint_id = existing.id; sequence = existing.sequence; replayed = true };
  })

-- `_append_checkpoint`
unfoldable pub append_checkpoint :
    Digests
    → ℕ
    → CheckpointCommand
    → BackgroundJob
    → BackgroundJobLease
    → Queue
    → Result JobError Progress
append_checkpoint x now c job lease q =
    append_or_replay x now c job lease q (find_checkpoint c.idempotency_key q.checkpoints)

-- `checkpoint`
unfoldable pub checkpoint :
    Digests
    → ℕ
    → JobLeaseGrant
    → CheckpointCommand
    → Queue
    → Result JobError (Queue × JobCheckpointResult)
checkpoint x now g c q = do
  (job, lease) ← current_lease now g q
  out ← append_checkpoint x now c job lease q
  ok (out.queue, out.result)
