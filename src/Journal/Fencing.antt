-- ===== src/Journal/Fencing.antt =====
-- services/host-agent/src/mathews_host_agent/journal.py: `_apply_fence` and `_assert_current_fence`.
-- `now` is what the clock shows when the function reads it.
use mathews.Common.{
  ℕ, Bool, not, ◌&&◌, Option, none, some, Result, ok, err, ◌>>=◌, ◌>>◌, guard, ltb, leb, ◌==◌,
  if◌then◌else◌,
}
use mathews.Common.Dict.{Dict, lookup, insert}
use mathews.Journal.{
  TaskLease, Authority, system, repository, task_lease, JournalError, lease_expired, fenced,
  authority_conflict, fencing_token_conflict, Fence,
}

-- The row that a lease writes.
unfoldable pub fence_of : TaskLease → Fence
fence_of a = record {
  task_id = a.task_id;
  lease_id = a.lease_id;
  worker_id = a.worker_id;
  attempt = a.attempt;
  fencing_token = a.fencing_token;
  lease_expires_at_ms = a.lease_expires_at_ms;
  repository_key = a.repository_key;
  configuration_id = a.configuration_id;
  configuration_digest = a.configuration_digest;
}

-- `invariant_binding`
abbrev pub same_binding : Fence → TaskLease → Bool
same_binding row a =
    row.task_id == a.task_id
    && row.repository_key == a.repository_key
    && row.configuration_id == a.configuration_id
    && row.configuration_digest == a.configuration_digest

-- `exact_lease`
abbrev pub same_lease : Fence → TaskLease → Bool
same_lease row a =
    row.lease_id == a.lease_id && row.worker_id == a.worker_id && row.attempt == a.attempt

-- The branch of an equal token: the expiry moves forward only.
unfoldable pub renew_fence : ℕ → TaskLease → Fence → Result JournalError Fence
renew_fence now a row = do
  guard (same_lease row a) fencing_token_conflict
  guard (not (leb row.lease_expires_at_ms now)) lease_expired
  ok (
      if ltb row.lease_expires_at_ms a.lease_expires_at_ms
      then record row { lease_expires_at_ms = a.lease_expires_at_ms }
      else row)

-- The `UPDATE` of a higher token.
unfoldable pub supersede_fence : TaskLease → Fence → Fence
supersede_fence a row = record row {
  lease_id = a.lease_id;
  worker_id = a.worker_id;
  attempt = a.attempt;
  fencing_token = a.fencing_token;
  lease_expires_at_ms = a.lease_expires_at_ms;
}

-- The row of the job after the lease was applied to it.
unfoldable pub next_fence : ℕ → TaskLease → Option Fence → Result JournalError Fence
next_fence now a none = ok (fence_of a)
next_fence now a (some row) = do
  guard (not (ltb a.fencing_token row.fencing_token)) fenced
  guard (same_binding row a) authority_conflict
  if a.fencing_token == row.fencing_token then renew_fence now a row else ok (supersede_fence a row)

-- `_apply_fence`
unfoldable pub apply_fence : ℕ → Authority → Dict Fence → Result JournalError (Dict Fence)
apply_fence now system fences = ok fences
apply_fence now (repository _ _ _) fences = ok fences
apply_fence now (task_lease a) fences = do
  guard (not (leb a.lease_expires_at_ms now)) lease_expired
  row ← next_fence now a (lookup a.job_id fences)
  ok (insert a.job_id row fences)

-- The row of the job is the one that the lease wrote.
abbrev pub holds : TaskLease → Fence → Bool
holds a row =
    row.task_id == a.task_id
    && row.lease_id == a.lease_id
    && row.worker_id == a.worker_id
    && row.attempt == a.attempt
    && row.fencing_token == a.fencing_token

unfoldable pub assert_row : ℕ → TaskLease → Option Fence → Result JournalError (Unit {0})
assert_row now a none = err fenced
assert_row now a (some row) = do
  guard (holds a row) fenced
  guard (not (leb row.lease_expires_at_ms now)) lease_expired

-- `_assert_current_fence`
unfoldable pub assert_current_fence : ℕ → Authority → Dict Fence → Result JournalError (Unit {0})
assert_current_fence now system fences = ok tt
assert_current_fence now (repository _ _ _) fences = ok tt
assert_current_fence now (task_lease a) fences = assert_row now a (lookup a.job_id fences)
