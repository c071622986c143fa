-- ===== src/BackgroundJobs/Retry.antt =====
-- services/control-plane/src/mathews_control_plane/background_jobs.py: `RetryPolicy`,
-- `deterministic_retry_delay` and `_lease_duration`. The first eight bytes of the SHA-256 digest are
-- the parameter `jitter`.
use mathews.BackgroundJobs.{JobError, invalid}
use mathews.Common.{ℕ, ◌+◌, ◌-◌, ◌*◌, ◌%◌, ◌^◌, ◌&&◌, Result, ok, ◌>>◌, guard, leb, min}

pub record RetryPolicy : Type 0 where
  pub max_attempts : ℕ
  pub base_delay_seconds : ℕ
  pub max_delay_seconds : ℕ

abbrev pub max_retry_seconds : ℕ
max_retry_seconds = 86400

-- `RetryPolicy.__post_init__`
unfoldable pub retry_policy : ℕ → ℕ → ℕ → Result JobError RetryPolicy
retry_policy max_attempts base_delay max_delay = do
  guard (leb 1 max_attempts && leb max_attempts 100) invalid
  guard (leb 1 base_delay && leb base_delay max_retry_seconds) invalid
  guard (leb base_delay max_delay && leb max_delay max_retry_seconds) invalid
  ok (record {
    max_attempts = max_attempts;
    base_delay_seconds = base_delay;
    max_delay_seconds = max_delay;
  })

-- `cap_milliseconds`
unfoldable pub cap_milliseconds : ℕ → RetryPolicy → ℕ
cap_milliseconds failed_attempt policy =
    min policy.max_delay_seconds (policy.base_delay_seconds * 2 ^ min (failed_attempt - 1) 63)
    * 1000

-- `deterministic_retry_delay`, in milliseconds.
unfoldable pub deterministic_retry_delay :
    (ℕ → ℕ → RetryPolicy → ℕ) → ℕ → ℕ → RetryPolicy → Result JobError ℕ
deterministic_retry_delay jitter job_id failed_attempt policy = do
  guard (leb 1 failed_attempt) invalid
  ok (jitter job_id failed_attempt policy % (cap_milliseconds failed_attempt policy + 1))

-- `_lease_duration`, in milliseconds.
unfoldable pub lease_duration : ℕ → Result JobError ℕ
lease_duration duration = do guard (leb 1000 duration && leb duration 300000) invalid; ok duration
