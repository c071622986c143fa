-- ===== src/BackgroundJobs/Steps.antt =====
-- The life of a job, apart from the code: which changes of its row are steps.
use mathews.BackgroundJobs.{BackgroundJob, queued, running, is_running}
use mathews.Common.{ℕ, ◌+◌, ◌≤◌, ◌<◌, ◌≡◌, true, false, none, some, is_some}

-- A step under the lease: nothing of it but the expiry changes.
pub record Kept (j k : BackgroundJob) : Type 0 where
  pub id : k.id ≡ j.id
  pub status : k.status ≡ j.status
  pub attempt_count : k.attempt_count ≡ j.attempt_count
  pub max_attempts : k.max_attempts ≡ j.max_attempts
  pub lease_id : k.current_lease_id ≡ j.current_lease_id
  pub token : k.current_fencing_token ≡ j.current_fencing_token
  pub owner : k.lease_owner ≡ j.lease_owner
  pub expires : is_some k.lease_expires_at ≡ is_some j.lease_expires_at

-- A claim with a new token: one more attempt, where one is left.
pub record Claimed (n : ℕ) (j k : BackgroundJob) : Type 0 where
  pub id : k.id ≡ j.id
  pub left : j.attempt_count < j.max_attempts
  pub attempt_count : k.attempt_count ≡ j.attempt_count + 1
  pub max_attempts : k.max_attempts ≡ j.max_attempts
  pub status : k.status ≡ running
  pub lease_id : is_some k.current_lease_id ≡ true
  pub token : k.current_fencing_token ≡ some n
  pub owner : is_some k.lease_owner ≡ true
  pub expires : is_some k.lease_expires_at ≡ true

-- A running job gives its lease up.
pub record Released (j k : BackgroundJob) : Type 0 where
  pub id : k.id ≡ j.id
  pub was_running : is_running j.status ≡ true
  pub status : is_running k.status ≡ false
  pub attempt_count : k.attempt_count ≤ j.attempt_count
  pub max_attempts : k.max_attempts ≡ j.max_attempts
  pub lease_id : k.current_lease_id ≡ none
  pub token : k.current_fencing_token ≡ none
  pub owner : k.lease_owner ≡ none
  pub expires : k.lease_expires_at ≡ none

-- A new job.
pub record Fresh (k : BackgroundJob) : Type 0 where
  pub status : k.status ≡ queued
  pub attempt_count : k.attempt_count ≡ 0
  pub lease_id : k.current_lease_id ≡ none
  pub token : k.current_fencing_token ≡ none
  pub owner : k.lease_owner ≡ none
  pub expires : k.lease_expires_at ≡ none

-- A step, between two values of the counter of tokens.
pub data JobStep (n : ℕ) (j : BackgroundJob) : ℕ → BackgroundJob → Type 0 where
  kept : {k : BackgroundJob} → Kept j k → JobStep n j n k
  claimed : {k : BackgroundJob} → Claimed n j k → JobStep n j (n + 1) k
  released : {k : BackgroundJob} → Released j k → JobStep n j n k

-- What every row satisfies, at a value of the counter, whatever steps the rows take: the laws that a
-- property of rows has to have, from a value of the counter on.
pub record IsStepClosed (P : ℕ → BackgroundJob → Type 0) : Type 0 where
  pub start : ℕ
  pub step : {n m : ℕ} {j k : BackgroundJob} → start ≤ n → JobStep n j m k → P n j → P m k
  pub fresh : {n : ℕ} {k : BackgroundJob} → start ≤ n → Fresh k → P n k
  pub grow : {n : ℕ} {j : BackgroundJob} → P n j → P (n + 1) j
