-- ===== src/BackgroundJobs/Delay.antt =====
-- The bounds of the delay before a retry.
use mathews.BackgroundJobs.Retry.{
  RetryPolicy, retry_policy, cap_milliseconds, deterministic_retry_delay,
}
use mathews.Common.{ℕ, ◌+◌, ◌-◌, ◌*◌, ◌%◌, ◌^◌, ◌≤◌, ◌≡◌, ok, arith, min, ap, leb, true}

leb-true : (a b : ℕ) → a ≤ b → leb a b ≡ true
leb-true a b h = ground arith

mod_le : (a c : ℕ) → a % (c + 1) ≤ c
mod_le a c = omega arith

cap_bounds : (m b e : ℕ) → (min m (b * e) * 1000 ≤ m * 1000) × (min m (b * e) * 1000 ≤ b * e * 1000)
cap_bounds m b e = (omega arith, omega arith)

-- For a policy that RetryPolicy accepts and an attempt from 1 on, deterministic_retry_delay gives a
-- delay, and it is at most the policy's maximum, at most 86,400 seconds, and at most the base delay
-- doubled once for each attempt after the first, 63 times at most; whatever the digest is.
pub deterministic_retry_delay_bounded :
    (jitter : ℕ → ℕ → RetryPolicy → ℕ) (job_id attempt max_attempts base maximum : ℕ)
    (policy : RetryPolicy)
    → retry_policy max_attempts base maximum ≡ ok policy
    → 1 ≤ attempt
    → (delay : ℕ) × (deterministic_retry_delay jitter job_id attempt policy ≡ ok delay)
      × (delay ≤ maximum * 1000)
      × (delay ≤ 86400 * 1000)
      × (delay ≤ base * 2 ^ min (attempt - 1) 63 * 1000)
unfolding retry_policy cap_milliseconds deterministic_retry_delay
deterministic_retry_delay_bounded jitter job_id attempt max_attempts base maximum policy h
      positive =
    let factor = 2 ^ min (attempt - 1) 63 in
    let maximum_same : policy.max_delay_seconds ≡ maximum = ground arith in
    let base_same : policy.base_delay_seconds ≡ base = ground arith in
    let scaled : policy.base_delay_seconds * factor ≡ base * factor =
      ap (λ b. b * factor) base_same in
    let limit : maximum ≤ 86400 = ground arith in
    let (by_maximum, by_base) =
      cap_bounds policy.max_delay_seconds policy.base_delay_seconds factor in
    let below = mod_le (jitter job_id attempt policy) (cap_milliseconds attempt policy) in
    (
      jitter job_id attempt policy % (cap_milliseconds attempt policy + 1),
      rw (leb-true 1 attempt positive),
      omega arith,
      omega arith,
      omega arith,
    )
