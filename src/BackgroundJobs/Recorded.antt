-- ===== src/BackgroundJobs/Recorded.antt =====
-- The calls of a worker that record progress: what they keep of the rows of the jobs.
use mathlib.Core.Path.{subst}
use mathews.BackgroundJobs.{
  JobError, is_running, BackgroundJob, BackgroundJobLease, BackgroundJobEffect, Queue,
  JobLeaseGrant, update_job, finish_job, job_succeeded, update_lease, require, find,
}
use mathews.BackgroundJobs.Progress.{
  Digests, current_lease, CheckpointCommand, JobCheckpointResult, Progress, append_checkpoint,
  checkpoint,
}
use mathews.BackgroundJobs.Effects.{
  EffectCommand, PreparedJobEffect, EffectExecutionResult, prepare_effect, existing_effect,
  pending_effect, with_effect, settle_effect, record_effect_result, require_no_pending_effects,
}
use mathews.BackgroundJobs.Lease.{last_progress, complete, succeeded_lease}
use mathews.BackgroundJobs.Steps.{IsStepClosed, released}
use mathews.BackgroundJobs.Held.{
  Rows, Rows-update_job, current_lease-Holds, is_granted-is_running, All, All-Holds, Progressed,
  append_checkpoint-Progressed, Changed, unchanged,
}
use mathews.BackgroundJobs.Released.{finish_job-Released}
use mathews.Common.{
  Result-cases, ℕ, ◌≡◌, refl, true, Option, none, some, ok, >>=-eq-ok, arith, inl, inr, sym, ◌==◌,
  ◌&&◌,
}

with_effect-rows :
    (x : Digests) (now : ℕ) (c : EffectCommand) (job : BackgroundJob) (lease : BackgroundJobLease)
    (q : Queue) (o : Option BackgroundJobEffect) (q' : Queue) (p : PreparedJobEffect)
    → with_effect x now c job lease q o ≡ ok (q', p)
    → (q'.next_token ≡ q.next_token) × (q'.jobs ≡ q.jobs)
unfolding with_effect
with_effect-rows x now c job lease q none q' p h = ground arith
with_effect-rows x now c job lease q (some e) q' p h = ground arith

pub prepare_effect-Changed :
    (x : Digests) (now : ℕ) (g : JobLeaseGrant) (c : EffectCommand) (q q' : Queue)
    (p : PreparedJobEffect)
    → prepare_effect x now g c q ≡ ok (q', p)
    → Changed g q q'
unfolding prepare_effect
prepare_effect-Changed x now g c q q' p h = elim (Result-cases (current_lease now g q)) [
  | inl ((job, lease), e) ↦
      elim (Result-cases
        (existing_effect (job.id, c.effect_key) q.effects (pending_effect job.id q.effects))) [
          | inl (o, f) ↦
              let (counter, rows) = with_effect-rows x now c job lease q o q' p (ground arith) in
              unchanged counter rows
          | inr (f, k) ↦ ground arith
        ]
  | inr (f, e) ↦ ground arith
]

module _ (P : ℕ → BackgroundJob → Type 0) (closed : IsStepClosed P) where
  Progressed-All : (q : Queue) (out : Progress) → Progressed P closed q out → All P closed out.queue
  Progressed-All q out p = subst (λ n. Rows P closed n out.queue.jobs) (sym p.counter) p.rows

  pub checkpoint-All :
      (x : Digests) (now : ℕ) (g : JobLeaseGrant) (c : CheckpointCommand) (q q' : Queue)
      (r : JobCheckpointResult)
      → All P closed q
      → checkpoint x now g c q ≡ ok (q', r)
      → All P closed q'
  unfolding checkpoint
  checkpoint-All x now g c q q' r all h = elim (Result-cases (current_lease now g q)) [
    | inl ((job, lease), e) ↦
        let held = current_lease-Holds now g q job lease e in
        elim (Result-cases (append_checkpoint x now c job lease q)) [
          | inl (out, f) ↦
              let same : out.queue ≡ q' = ground arith in
              subst (All P closed) same (
                Progressed-All q out (
                  append_checkpoint-Progressed P closed x now c job lease q all
                    (All-Holds P closed g q job all held) (is_granted-is_running g job held.fits)
                    f))
          | inr (f, k) ↦ ground arith
        ]
    | inr (f, e) ↦ ground arith
  ]

  pub record_effect_result-All :
      (x : Digests) (now : ℕ) (g : JobLeaseGrant) (id : ℕ) (result : EffectExecutionResult)
      (c : CheckpointCommand) (q q' : Queue) (r : JobCheckpointResult)
      → All P closed q
      → record_effect_result x now g id result c q ≡ ok (q', r)
      → All P closed q'
  unfolding record_effect_result
  record_effect_result-All x now g id result c q q' r all h =
      let ((job, lease), e, h1) = >>=-eq-ok (current_lease now g q) _ h in
      let (effect, _, h2) =
        >>=-eq-ok
          (require (find (λ (e : BackgroundJobEffect). e.id == id && e.job_id == job.id) q.effects)
            JobError.not_found)
          _ h1 in
      let (effects, _, h3) = >>=-eq-ok (settle_effect now result lease effect q.effects) _ h2 in
      let (out, f, h4) =
        >>=-eq-ok (append_checkpoint x now c job lease (record q { effects = effects })) _ h3 in
      let held = current_lease-Holds now g q job lease e in
      let same : out.queue ≡ q' = cc in
      subst (All P closed) same (
        Progressed-All (record q { effects = effects }) out
          (append_checkpoint-Progressed P closed x now c job lease (record q { effects = effects })
            all (All-Holds P closed g q job all held) (is_granted-is_running g job held.fits) f))

  last_progress-All :
      (x : Digests) (now expected : ℕ) (final : Option CheckpointCommand) (job : BackgroundJob)
      (lease : BackgroundJobLease) (q : Queue) (q' : Queue) (job' : BackgroundJob)
      (lease' : BackgroundJobLease)
      → All P closed q
      → P q.next_token job
      → is_running job.status ≡ true
      → last_progress x now expected final job lease q ≡ ok (q', job', lease')
      → All P closed q' × P q'.next_token job' × (is_running job'.status ≡ true)
  unfolding last_progress
  last_progress-All x now expected none job lease q q' job' lease' all row runs h =
      let rows : q ≡ q' = ground arith in
      let same : job ≡ job' = ground arith in
      (
        subst (All P closed) rows all,
        subst (P q'.next_token) same (subst (λ q. P q.next_token job) rows row),
        subst (λ j. is_running j.status ≡ true) same runs,
      )
  last_progress-All x now expected (some c) job lease q q' job' lease' all row runs h =
      let (out, f, h1) =
        >>=-eq-ok (append_checkpoint x now (record c { expected_version = expected }) job lease q) _
          h in
      let p =
        append_checkpoint-Progressed P closed x now (record c { expected_version = expected }) job
          lease q all row runs f in
      let rows : out.queue ≡ q' = ground arith in
      let same : out.job ≡ job' = ground arith in
      (
        subst (All P closed) rows (Progressed-All q out p),
        subst (λ j. P q'.next_token j) same
            (subst (λ q. P q.next_token out.job) rows
              (subst (λ n. P n out.job) (sym p.counter) p.row)),
        subst (λ j. is_running j.status ≡ true) same p.runs,
      )

  pub complete-All :
      (x : Digests) (now : ℕ) (g : JobLeaseGrant) (expected : ℕ) (final : Option CheckpointCommand)
      (q q' : Queue)
      → All P closed q
      → complete x now g expected final q ≡ ok q'
      → All P closed q'
  unfolding complete
  complete-All x now g expected final q q' all h =
      let ((job, lease), e, h1) = >>=-eq-ok (current_lease now g q) _ h in
      let (_, _, h2) = >>=-eq-ok (require_no_pending_effects job.id q) _ h1 in
      let ((r, j, l), f, h3) = >>=-eq-ok (last_progress x now expected final job lease q) _ h2 in
      let held = current_lease-Holds now g q job lease e in
      let (rows, row, runs) =
        last_progress-All x now expected final job lease q r j l all
          (All-Holds P closed g q job all held) (is_granted-is_running g job held.fits) f in
      let done = finish_job job_succeeded none g.fencing_token now j in
      let same : (record r {
        jobs = update_job done r.jobs;
        leases = update_lease (succeeded_lease now l) r.leases;
      })
          ≡ q' =
        cc in
      subst (All P closed) same (
        Rows-update_job P closed r.next_token done r.jobs
          (closed.step rows.0 (released (finish_job-Released _ _ _ _ j refl runs)) row) rows)
