-- ===== src/BackgroundJobs/Runs.antt =====
-- A property of rows that the steps keep holds after every sequence of calls.
use mathlib.Core.Path.{subst}
use mathews.BackgroundJobs.{JobError, BackgroundJob, Queue}
use mathews.BackgroundJobs.Retry.{retry_policy}
use mathews.BackgroundJobs.Claim.{schedule, claim_next}
use mathews.BackgroundJobs.Recovery.{reconcile_expired_leases}
use mathews.BackgroundJobs.Progress.{Digests, checkpoint}
use mathews.BackgroundJobs.Effects.{prepare_effect, record_effect_result}
use mathews.BackgroundJobs.Lease.{heartbeat, fail_attempt}
use mathews.BackgroundJobs.Calls.{
  JobCall, call_schedule, call_claim, call_reconcile, call_heartbeat, call_checkpoint, call_prepare,
  call_result, call_complete, call_fail, call_pause, tables, scanned, perform, committed, run,
}
use mathews.BackgroundJobs.Steps.{IsStepClosed}
use mathews.BackgroundJobs.Held.{All, Changed-All}
use mathews.BackgroundJobs.Released.{heartbeat-Changed, pause_attempt-Changed, fail_attempt-Changed}
use mathews.BackgroundJobs.Recorded.{
  prepare_effect-Changed, checkpoint-All, record_effect_result-All, complete-All,
}
use mathews.BackgroundJobs.Claimed.{claim_next-Scanned}
use mathews.BackgroundJobs.Requeued.{reconcile_expired_leases-All, schedule-All}
use mathews.Common.{ℕ, ◌≡◌, refl, Option, none, some, List, [], ◌∷◌, Result, ok, err, >>=-eq-ok}

tables-eq-ok :
    {A : Type 0} (r : Result JobError (Queue × A)) {q : Queue}
    → tables r ≡ ok q
    → (a : A) × (r ≡ ok (q, a))
tables-eq-ok (ok (p, a)) h = (a, cc)
tables-eq-ok (err e) h = cc

-- A scan that returns leaves the tables it returns, and else those before it.
scanned-keeps :
    {A : Type 0} (K : Queue → Type 0) (q : Queue) (r : Result JobError (Option (Queue × A)))
    {q' : Queue}
    → K q
    → ((q₁ : Queue) (a : A) → r ≡ ok (some (q₁, a)) → K q₁)
    → scanned q r ≡ ok q'
    → K q'
scanned-keeps K q (ok (some (p, a))) {q'} k f h =
    let same : p ≡ q' = cc in subst K same (f p a refl)
scanned-keeps K q (ok none) {q'} k f h = let same : q ≡ q' = cc in subst K same k
scanned-keeps K q (err e) k f h = cc

committed-keeps :
    (K : Queue → Type 0) (q : Queue) (r : Result JobError Queue)
    → K q
    → ((q' : Queue) → r ≡ ok q' → K q')
    → K (committed q r)
committed-keeps K q (ok q') k f = f q' refl
committed-keeps K q (err e) k f = k

module _ (P : ℕ → BackgroundJob → Type 0) (closed : IsStepClosed P) where
  pub perform-All :
      (x : Digests) (c : JobCall) (q : Queue) {q' : Queue}
      → All P closed q
      → perform x c q ≡ ok q'
      → All P closed q'
  unfolding perform
  perform-All x (call_schedule now id policy c) q all h =
      let (p, _, h₁) =
        >>=-eq-ok
          (retry_policy policy.max_attempts policy.base_delay_seconds policy.max_delay_seconds) _
          h in
      let (r, e) = tables-eq-ok (schedule now id p c q) h₁ in
      schedule-All P closed now id p c q _ r all e
  perform-All x (call_claim rs c) q all h =
      scanned-keeps (All P closed) q (claim_next rs c q) all
        (claim_next-Scanned P closed rs c q all) h
  perform-All x (call_reconcile now limit) q all h =
      let (r, e) = tables-eq-ok (reconcile_expired_leases now limit q) h in
      reconcile_expired_leases-All P closed now limit q _ r all e
  perform-All x (call_heartbeat now g duration) q {q'} all h =
      let (r, e) = tables-eq-ok (heartbeat now g duration q) h in
      Changed-All P closed g q q' (heartbeat-Changed now g duration q q' r e) all
  perform-All x (call_checkpoint now g c) q all h =
      let (r, e) = tables-eq-ok (checkpoint x now g c q) h in
      checkpoint-All P closed x now g c q _ r all e
  perform-All x (call_prepare now g c) q {q'} all h =
      let (r, e) = tables-eq-ok (prepare_effect x now g c q) h in
      Changed-All P closed g q q' (prepare_effect-Changed x now g c q q' r e) all
  perform-All x (call_result now g id result c) q all h =
      let (r, e) = tables-eq-ok (record_effect_result x now g id result c q) h in
      record_effect_result-All P closed x now g id result c q _ r all e
  perform-All x (call_complete now g expected final) q all h =
      complete-All P closed x now g expected final q _ all h
  perform-All x (call_fail now g code retryable) q {q'} all h =
      let (r, e) = tables-eq-ok (fail_attempt x now g code retryable q) h in
      Changed-All P closed g q q' (fail_attempt-Changed x now g code retryable q q' r e) all
  perform-All x (call_pause now g code) q {q'} all h =
      Changed-All P closed g q q' (pause_attempt-Changed now g code q q' h) all

  pub run-All :
      (x : Digests) (cs : List JobCall) (q : Queue) → All P closed q → All P closed (run x cs q)
  unfolding run
  run-All x [] q all = all
  run-All x (c ∷ cs) q all =
      run-All x cs (committed q (perform x c q))
        (committed-keeps (All P closed) q (perform x c q) all (λ q' h. perform-All x c q all h))
