-- ===== src/BackgroundJobs/Performed.antt =====
-- Sequences of calls of `perform_effect`, and the executor of an effect in them.
use mathlib.Core.Path.{subst}
use mathews.BackgroundJobs.{
  Queue, JobLeaseGrant, BackgroundJob, BackgroundJobLease, BackgroundJobEffect, any,
}
use mathews.BackgroundJobs.Progress.{Digests, current_lease}
use mathews.BackgroundJobs.Effects.{
  EffectCommand, PreparedJobEffect, EffectExecutionResult, same_key, is_pending, existing_effect,
  pending_effect, new_effect, with_effect, prepare_effect, record_effect_result,
}
use mathews.BackgroundJobs.Held.{current_lease-Holds}
use mathews.BackgroundJobs.Fenced.{find_job-id}
use mathews.BackgroundJobs.Calls.{
  JobCall, call_prepare, call_result, tables, committed, perform, run,
}
use mathews.BackgroundJobs.Executed.{
  IsKeyed, idents, is_prepared, prepares, prepare_effect-Prepared, committed-Kept,
}
use mathews.BackgroundJobs.Worker.{
  Executor, WorkerError, Performance, observe, next_checkpoint, record_observation, perform_effect,
  stored_outcome,
}
use mathews.Common.{
  ℕ, ◌≡◌, refl, sym, ap, ◌∙◌, true, false, none, some, Option, List, [], ◌∷◌, ◌++◌, Result, ok, err,
  arith, inl, inr, Bool-cases, Result-cases, >>=-eq-ok, ==_refl, ◌==◌, if◌then◌else◌,
}

-- A call of `perform_effect`, after calls of others.
pub record Performing : Type 0 where
  pub before : List JobCall
  pub executor : Executor
  pub performance : Performance
  pub grant : JobLeaseGrant

same_key_refl : (k : ℕ × ℕ) → same_key k k ≡ true
same_key_refl (a, b) = ground (arith, ==_refl a, ==_refl b)

module _ (d : Digests) where
  -- The tables after it.
  abbrev pub performed : Performing → Queue → Queue
  performed s q = (perform_effect d s.executor s.performance s.grant (run d s.before q)).0.0

  -- The tables after several, one after the other.
  abbrev pub all_performed : List Performing → Queue → Queue
  all_performed [] q = q
  all_performed (s ∷ ss) q = all_performed ss (performed s q)

  pub run-append : (cs ds : List JobCall) (q : Queue) → run d (cs ++ ds) q ≡ run d ds (run d cs q)
  unfolding run
  run-append [] ds q = refl
  run-append (c ∷ cs) ds q = run-append cs ds (committed q (perform d c q))

  record_observation-run :
      (s : Performance) (g : JobLeaseGrant) (id : ℕ) (q : Queue)
      (o : Result WorkerError EffectExecutionResult)
      → (rest : List JobCall) × ((record_observation d s g id q o).0.0 ≡ run d rest q)
  unfolding record_observation run perform
  record_observation-run s g id q (err e) = ([], refl)
  record_observation-run s g id q (ok observation) =
      let c = next_checkpoint g s.checkpoint in
      (
        call_result s.finished g id observation c ∷ [],
        elim (Result-cases (record_effect_result d s.finished g id observation c q)) [
          | inl ((q', r), e) ↦ rw (record_observation, e) refl
          | inr (raised, e) ↦ rw (record_observation, e) refl
        ],
      )

  pub perform_effect-run :
      (x : Executor) (s : Performance) (g : JobLeaseGrant) (q : Queue)
      → (rest : List JobCall) × ((perform_effect d x s g q).0.0
          ≡ run d (call_prepare s.started g s.command ∷ rest) q)
  unfolding perform_effect run perform
  perform_effect-run x s g q = elim (Result-cases (prepare_effect d s.started g s.command q)) [
    | inr (raised, e) ↦ ([], rw (perform_effect, e) refl)
    | inl ((q', p), e) ↦ elim (Bool-cases (is_pending p.effect.status)) [
      | inr t ↦ ([], rw (perform_effect, e) (rw t refl))
      | inl t ↦
          let (rest, f) =
            record_observation-run s g p.effect.id (run d s.others q') (observe x p) in
          let calls = s.others ++ rest in
          let whole : (perform_effect d x s g q).0.0 ≡ run d calls q' =
            rw (perform_effect, e) (rw t (f ∙ sym (run-append s.others rest q'))) in
          let after : run d calls (committed q (tables (prepare_effect d s.started g s.command q)))
              ≡ run d calls q' =
            ap (λ r. run d calls (committed q (tables r))) e in
          (calls, whole ∙ sym after)
    ]
  ]

  performed-run :
      (s : Performing) (q : Queue) → (calls : List JobCall) × (performed s q ≡ run d calls q)
  performed-run s q =
      let (rest, e) = perform_effect-run s.executor s.performance s.grant (run d s.before q) in
      (s.before ++ (_ ∷ rest), e ∙ sym (run-append s.before _ q))

  all_performed-run :
      (ss : List Performing) (q : Queue)
      → (calls : List JobCall) × (all_performed ss q ≡ run d calls q)
  unfolding run
  all_performed-run [] q = ([], refl)
  all_performed-run (s ∷ ss) q =
      let (cs, e) = performed-run s q in
      let (ds, f) = all_performed-run ss (performed s q) in
      (cs ++ ds, f ∙ ap (run d ds) e ∙ sym (run-append cs ds q))

  with_effect-key :
      (now : ℕ) (c : EffectCommand) (job : BackgroundJob) (lease : BackgroundJobLease)
      (q q' : Queue) (o : Option BackgroundJobEffect) (p : PreparedJobEffect)
      → with_effect d now c job lease q o ≡ ok (q', p)
      → p.created ≡ true
      → p.effect.idempotency_key ≡ (job.id, c.effect_key)
  unfolding with_effect new_effect
  with_effect-key now c job lease q q' (some existing) p h new = ground arith
  with_effect-key now c job lease q q' none p h new =
      elim (Bool-cases (any (λ (e : BackgroundJobEffect). e.id == c.new_id) q.effects)) [
        | inl t ↦ ground arith
        | inr t ↦
            let same : new_effect d now c job lease ≡ p.effect = ground arith in
            ap (λ (e : BackgroundJobEffect). e.idempotency_key) (sym same)
      ]

  -- An effect that was created has the job of the grant and the key of the command.
  prepare_effect-key :
      (now : ℕ) (g : JobLeaseGrant) (c : EffectCommand) (q q' : Queue) (p : PreparedJobEffect)
      → prepare_effect d now g c q ≡ ok (q', p)
      → p.created ≡ true
      → p.effect.idempotency_key ≡ (g.job_id, c.effect_key)
  unfolding prepare_effect
  prepare_effect-key now g c q q' p h new =
      let ((job, lease), e, h1) = >>=-eq-ok (current_lease now g q) _ h in
      let (o, f, h2) =
        >>=-eq-ok
          (existing_effect (job.id, c.effect_key) q.effects (pending_effect job.id q.effects)) _
          h1 in
      let same : job.id ≡ g.job_id =
        find_job-id g.job_id q.jobs job (current_lease-Holds now g q job lease e).found in
      with_effect-key now c job lease q q' o p h2 new ∙ ap (λ i. (i, c.effect_key)) same

  -- The table has its key, and an effect of `key`.
  record Has (key : ℕ × ℕ) (q : Queue) : Type 0 where
    keyed : IsKeyed q.effects
    there : is_prepared key (idents q.effects) ≡ true

  run-Has : (key : ℕ × ℕ) (calls : List JobCall) (q : Queue) → Has key q → Has key (run d calls q)
  unfolding run
  run-Has key [] q h = h
  run-Has key (c ∷ cs) q h =
      let kept = committed-Kept d key c q h.keyed in
      let counted = kept.counted in
      run-Has key cs (committed q (perform d c q))
        (record { keyed = kept.keyed; there = ground (arith, h.there) })

  run-IsKeyed :
      (calls : List JobCall) (q : Queue) → IsKeyed q.effects → IsKeyed (run d calls q).effects
  unfolding run
  run-IsKeyed [] q keyed = keyed
  run-IsKeyed (c ∷ cs) q keyed =
      run-IsKeyed cs (committed q (perform d c q)) (committed-Kept d (0, 0) c q keyed).keyed

  -- After the effect was created.
  performed-Has :
      (s : Performing) (q q' : Queue) (p : PreparedJobEffect)
      → IsKeyed q.effects
      → prepare_effect d s.performance.started s.grant s.performance.command (run d s.before q)
        ≡ ok (q', p)
      → p.created ≡ true
      → Has (s.grant.job_id, s.performance.command.effect_key) (performed s q)
  unfolding run perform
  performed-Has s q q' p keyed h new =
      let c = s.performance.command in
      let key : ℕ × ℕ = (s.grant.job_id, c.effect_key) in
      let begun = run d s.before q in
      let call = call_prepare s.performance.started s.grant c in
      let kept = committed-Kept d key call begun (run-IsKeyed s.before q keyed) in
      let (rest, e) = perform_effect-run s.executor s.performance s.grant begun in
      let own = prepare_effect-key s.performance.started s.grant c begun q' p h new in
      let prepared : prepares d key call begun ≡ true =
        rw h (rw new (rw own (same_key_refl key))) in
      let counted = kept.counted in
      let first : Has key (committed begun (perform d call begun)) = record {
        keyed = kept.keyed;
        there = ground (arith, prepared);
      } in
      subst (Has key) (sym e) (run-Has key rest (committed begun (perform d call begun)) first)

  observe-same :
      (x : Executor) (execute : BackgroundJobEffect → Option EffectExecutionResult)
      (p : PreparedJobEffect)
      → p.created ≡ false
      → observe x p ≡ observe (record x { execute = execute }) p
  unfolding observe
  observe-same x execute p h = rw h refl

  -- Where the effect is there, `execute` has no part in the outcome.
  perform_effect-same :
      (x : Executor) (execute : BackgroundJobEffect → Option EffectExecutionResult)
      (s : Performance) (g : JobLeaseGrant) (q : Queue)
      → Has (g.job_id, s.command.effect_key) q
      → perform_effect d x s g q ≡ perform_effect d (record x { execute = execute }) s g q
  unfolding perform_effect
  perform_effect-same x execute s g q h =
      elim (Result-cases (prepare_effect d s.started g s.command q)) [
        | inr (raised, e) ↦ rw (perform_effect, e) refl
        | inl ((q', p), e) ↦ elim (prepare_effect-Prepared d s.started g s.command q q' p e) [
          | inl old ↦
              rw (perform_effect, e)
                (ap
                  (λ o.
                    if is_pending p.effect.status
                    then record_observation d s g p.effect.id (run d s.others q') o
                    else ((q', g), ok (stored_outcome s.empty p.effect)))
                  (observe-same x execute p old.0))
          | inr new ↦
              let key = prepare_effect-key s.started g s.command q q' p e new.0 in
              let absent : is_prepared (g.job_id, s.command.effect_key) (idents q.effects) ≡ false =
                subst (λ k. is_prepared k (idents q.effects) ≡ false) key new.1 in
              let there = h.there in absurd (ground arith)
        ]
      ]

-- Once a call of `perform_effect` has created an effect, which is when it executes it, no executor is
-- asked to execute anything by a later call for the same job and key, by whatever worker, with
-- whatever other calls of `perform_effect` and of the service between: with any other `execute` of
-- its executor, the tables, the grant and the outcome of the later call are the same. The ids of the
-- effects in the table are a key of it.
pub effect_executed_once :
    (d : Digests) (first : Performing) (ss : List Performing) (again : Performing)
    (execute : BackgroundJobEffect → Option EffectExecutionResult) (q q' : Queue)
    (p : PreparedJobEffect)
    → IsKeyed q.effects
    → prepare_effect d first.performance.started first.grant first.performance.command
        (run d first.before q)
      ≡ ok (q', p)
    → p.created ≡ true
    → again.grant.job_id ≡ first.grant.job_id
    → again.performance.command.effect_key ≡ first.performance.command.effect_key
    → let r = run d again.before (all_performed d ss (performed d first q)) in
      perform_effect d again.executor again.performance again.grant r
      ≡ perform_effect d
          (record again.executor { execute = execute })
          again.performance
          again.grant
          r
effect_executed_once d first ss again execute q q' p keyed prepared new job key =
    let effect : ℕ × ℕ = (first.grant.job_id, first.performance.command.effect_key) in
    let begun = performed-Has d first q q' p keyed prepared new in
    let (calls, e) = all_performed-run d ss (performed d first q) in
    let held : Has d effect (all_performed d ss (performed d first q)) =
      subst (Has d effect) (sym e) (run-Has d effect calls (performed d first q) begun) in
    perform_effect-same d again.executor execute again.performance again.grant _ (
      subst (λ k. Has d k (run d again.before (all_performed d ss (performed d first q))))
        (sym (
          ap (λ i. (i, again.performance.command.effect_key)) job
          ∙ ap (λ k. (first.grant.job_id, k)) key))
        (run-Has d effect again.before _ held))
