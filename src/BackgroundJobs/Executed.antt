-- ===== src/BackgroundJobs/Executed.antt =====
-- services/control-plane/src/mathews_control_plane/background_jobs.py: the keys of the effects, which
-- `prepare_effect` creates and every other call keeps.
use mathlib.Core.Path.{subst}
use mathews.BackgroundJobs.{
  JobError, BackgroundJob, BackgroundJobLease, BackgroundJobEffect, Queue, JobLeaseGrant, require,
  any, find, update_effect,
}
use mathews.BackgroundJobs.Progress.{
  Digests, current_lease, CheckpointCommand, JobCheckpointResult, append_checkpoint,
}
use mathews.BackgroundJobs.Effects.{
  EffectCommand, PreparedJobEffect, EffectExecutionResult, has_key, same_key, is_pending,
  existing_effect, pending_effect, new_effect, with_effect, prepare_effect, completed_effect,
  settle_effect, record_effect_result,
}
use mathews.BackgroundJobs.Held.{require-eq-ok}
use mathews.BackgroundJobs.Calls.{
  JobCall, call_schedule, call_claim, call_reconcile, call_heartbeat, call_checkpoint, call_prepare,
  call_result, call_complete, call_fail, call_pause, tables, scanned, committed, perform,
}
use mathews.BackgroundJobs.Retry.{retry_policy}
use mathews.BackgroundJobs.Claim.{schedule, claim_next}
use mathews.BackgroundJobs.Recovery.{reconcile_expired_leases}
use mathews.BackgroundJobs.Progress.{checkpoint}
use mathews.BackgroundJobs.Lease.{heartbeat, fail_attempt}
use mathews.BackgroundJobs.Untouched.{
  append_checkpoint-effects, checkpoint-effects, schedule-effects, claim_next-effects,
  reconcile_expired_leases-effects, heartbeat-effects, complete-effects, fail_attempt-effects,
  pause_attempt-effects,
}
use mathews.Common.{
  ℕ, ◌+◌, ◌≤◌, ◌≡◌, refl, sym, ap, ◌∙◌, Bool, true, false, ◌&&◌, Option, none, some, List, [], ◌∷◌,
  Result, ok, err, arith, inl, inr, ◌⊎◌, Bool-cases, Result-cases, >>=-eq-ok, if◌then◌else◌, ◌==◌,
  is_some, map,
}
use mathews.Common.Queries.{All, All-find}

-- The id and the key of an effect.
abbrev pub Ident : Type 0
Ident = ℕ × (ℕ × ℕ)

abbrev ident : BackgroundJobEffect → Ident
ident e = (e.id, e.idempotency_key)

abbrev pub idents : List BackgroundJobEffect → List Ident
idents es = map ident es

-- Two effects of one id have one key.
abbrev SameKeys : Ident → Ident → Type 0
SameKeys e f = f.0 ≡ e.0 → f.1 ≡ e.1

abbrev Consistent : List Ident → Type 0
Consistent [] = Unit
Consistent (i ∷ is) = All (SameKeys i) is × Consistent is

-- The table has its primary key.
abbrev pub IsKeyed : List BackgroundJobEffect → Type 0
IsKeyed es = Consistent (idents es)

-- Some effect has the key.
unfoldable pub is_prepared : ℕ × ℕ → List Ident → Bool
is_prepared key [] = false
is_prepared key (i ∷ is) = if same_key i.1 key then true else is_prepared key is

find-is_prepared :
    (key : ℕ × ℕ) (es : List BackgroundJobEffect)
    → is_some (find (has_key key) es) ≡ is_prepared key (idents es)
unfolding find is_prepared
find-is_prepared key [] = refl
find-is_prepared key (e ∷ es) = ground (arith, find-is_prepared key es)

All-idents :
    (P : Ident → Type 0) (es : List BackgroundJobEffect)
    → All P (idents es)
    → All (λ e. P (ident e)) es
All-idents P [] h = tt
All-idents P (e ∷ es) (p, h) = (p, All-idents P es h)

some-inj : {e f : BackgroundJobEffect} → some e ≡ some f → e ≡ f
some-inj h = cc

-- An effect that is found shares its id with effects of its key only.
find-SameKeys :
    (test : BackgroundJobEffect → Bool) (es : List BackgroundJobEffect) {e : BackgroundJobEffect}
    → IsKeyed es
    → find test es ≡ some e
    → All (λ f. SameKeys (ident e) (ident f)) es
unfolding find
find-SameKeys test [] keyed h = cc
find-SameKeys test (f ∷ es) {e} (first, keyed) h = elim (Bool-cases (test f)) [
  | inl t ↦
      let same : f ≡ e = some-inj (rw t at h) in
      (
        (λ _. ap (λ (k : BackgroundJobEffect). k.idempotency_key) same),
        subst (λ k. All (λ f. SameKeys (ident k) (ident f)) es) same
            (All-idents (SameKeys (ident f)) es first),
      )
  | inr t ↦
      let found = rw t at h in
      let back =
        All-find (λ k. SameKeys (ident f) (ident k)) test es
          (All-idents (SameKeys (ident f)) es first) found in
      ((λ same. sym (back (sym same))), find-SameKeys test es keyed found)
]

-- An update keeps the ids and the keys.
update_effect-idents :
    (k : BackgroundJobEffect) (es : List BackgroundJobEffect)
    → All (λ f. SameKeys (ident k) (ident f)) es
    → idents (update_effect k es) ≡ idents es
unfolding update_effect
update_effect-idents k [] h = refl
update_effect-idents k (e ∷ es) (same, h) = elim (Bool-cases (e.id == k.id)) [
  | inl t ↦
      let id : e.id ≡ k.id = ground arith in
      let key = same id in
      let one : ident k ≡ ident e = ground arith in
      rw t (ap (λ is. ident k ∷ is) (update_effect-idents k es h) ∙ ap (λ i. i ∷ idents es) one)
  | inr t ↦ rw t (ap (λ is. ident e ∷ is) (update_effect-idents k es h))
]

settle_effect-idents :
    (now : ℕ) (result : EffectExecutionResult) (lease : BackgroundJobLease)
    (e : BackgroundJobEffect) (es es' : List BackgroundJobEffect)
    → All (λ f. SameKeys (ident e) (ident f)) es
    → settle_effect now result lease e es ≡ ok es'
    → idents es' ≡ idents es
unfolding settle_effect completed_effect
settle_effect-idents now result lease e es es' same h = elim (Bool-cases (is_pending e.status)) [
  | inl t ↦
      let done : update_effect (completed_effect now result lease e) es ≡ es' = ground arith in
      ap idents (sym done) ∙ update_effect-idents (completed_effect now result lease e) es same
  | inr t ↦ let kept : es ≡ es' = ground arith in ap idents (sym kept)
]

record_effect_result-idents :
    (x : Digests) (now : ℕ) (g : JobLeaseGrant) (id : ℕ) (result : EffectExecutionResult)
    (c : CheckpointCommand) (q q' : Queue) (r : JobCheckpointResult)
    → IsKeyed q.effects
    → record_effect_result x now g id result c q ≡ ok (q', r)
    → idents q'.effects ≡ idents q.effects
unfolding record_effect_result
record_effect_result-idents x now g id result c q q' r keyed h =
    let ((job, lease), e, h1) = >>=-eq-ok (current_lease now g q) _ h in
    let (effect, f, h2) =
      >>=-eq-ok
        (require (find (λ (e : BackgroundJobEffect). e.id == id && e.job_id == job.id) q.effects)
          JobError.not_found)
        _ h1 in
    let (effects, k, h3) = >>=-eq-ok (settle_effect now result lease effect q.effects) _ h2 in
    let (out, l, h4) =
      >>=-eq-ok (append_checkpoint x now c job lease (record q { effects = effects })) _ h3 in
    let same : out.queue ≡ q' = cc in
    ap (λ (q : Queue). idents q.effects) (sym same)
    ∙ ap idents (append_checkpoint-effects x now c job lease (record q { effects = effects }) out l)
    ∙ settle_effect-idents now result lease effect q.effects effects
        (find-SameKeys _ q.effects keyed (require-eq-ok _ _ f)) k

-- What `prepare_effect` does to the effects.
abbrev pub Prepared : Queue → Queue → PreparedJobEffect → Type 0
Prepared q q' p =
    ((p.created ≡ false) × (idents q'.effects ≡ idents q.effects))
    ⊎ ((p.created ≡ true)
        × (is_prepared p.effect.idempotency_key (idents q.effects) ≡ false)
        × All (SameKeys (ident p.effect)) (idents q.effects)
        × (idents q'.effects ≡ ident p.effect ∷ idents q.effects))

unused-SameKeys :
    (id : ℕ) (key : ℕ × ℕ) (es : List BackgroundJobEffect)
    → any (λ (e : BackgroundJobEffect). e.id == id) es ≡ false
    → All (SameKeys (id, key)) (idents es)
unfolding any
unused-SameKeys id key [] h = tt
unused-SameKeys id key (e ∷ es) h =
    ((λ same. absurd (ground arith)), unused-SameKeys id key es (ground arith))

existing_effect-none :
    (key : ℕ × ℕ) (es : List BackgroundJobEffect) (o : Option BackgroundJobEffect)
    → existing_effect key es o ≡ ok none
    → is_prepared key (idents es) ≡ false
unfolding existing_effect
existing_effect-none key es none h =
    let none_found : find (has_key key) es ≡ none = ground arith in
    sym (find-is_prepared key es) ∙ ap (λ o. is_some o) none_found
existing_effect-none key es (some pending) h = ground arith

with_effect-Prepared :
    (x : Digests) (now : ℕ) (c : EffectCommand) (job : BackgroundJob) (lease : BackgroundJobLease)
    (q q' : Queue) (o : Option BackgroundJobEffect) (p : PreparedJobEffect)
    → (o ≡ none → is_prepared (job.id, c.effect_key) (idents q.effects) ≡ false)
    → with_effect x now c job lease q o ≡ ok (q', p)
    → Prepared q q' p
unfolding with_effect new_effect
with_effect-Prepared x now c job lease q q' none p absent h =
    elim (Bool-cases (any (λ (e : BackgroundJobEffect). e.id == c.new_id) q.effects)) [
      | inl t ↦ ground arith
      | inr t ↦
          let new = new_effect x now c job lease in
          let same : new ≡ p.effect = ground arith in
          inr (
            ground arith,
            subst
                (λ (e : BackgroundJobEffect).
                  is_prepared e.idempotency_key (idents q.effects) ≡ false)
                same (absent refl),
            subst (λ (e : BackgroundJobEffect). All (SameKeys (ident e)) (idents q.effects)) same
                (unused-SameKeys c.new_id (job.id, c.effect_key) q.effects t),
            ground arith,
          )
    ]
with_effect-Prepared x now c job lease q q' (some existing) p absent h =
    inl (ground arith, ground arith)

pub prepare_effect-Prepared :
    (x : Digests) (now : ℕ) (g : JobLeaseGrant) (c : EffectCommand) (q q' : Queue)
    (p : PreparedJobEffect)
    → prepare_effect x now g c q ≡ ok (q', p)
    → Prepared q q' p
unfolding prepare_effect
prepare_effect-Prepared x now g c q q' p h =
    let ((job, lease), e, h1) = >>=-eq-ok (current_lease now g q) _ h in
    let key : ℕ × ℕ = (job.id, c.effect_key) in
    let pending = pending_effect job.id q.effects in
    let (o, f, h2) = >>=-eq-ok (existing_effect key q.effects pending) _ h1 in
    with_effect-Prepared x now c job lease q q' o p
      (λ nothing. existing_effect-none key q.effects pending (f ∙ ap (λ o. ok o) nothing)) h2

tables-eq-ok :
    {A : Type 0} (r : Result JobError (Queue × A)) (q : Queue)
    → tables r ≡ ok q
    → (a : A) × (r ≡ ok (q, a))
tables-eq-ok (ok (p, a)) q h = (a, ground arith)
tables-eq-ok (err e) q h = cc

scanned-eq-ok :
    {A : Type 0} (q : Queue) (r : Result JobError (Option (Queue × A))) (q' : Queue)
    → scanned q r ≡ ok q'
    → (q' ≡ q) ⊎ ((a : A) × (r ≡ ok (some (q', a))))
scanned-eq-ok q (ok none) q' h = inl (ground arith)
scanned-eq-ok q (ok (some (p, a))) q' h = inr (a, ground arith)
scanned-eq-ok q (err e) q' h = cc

same_key-eq : (a b : ℕ × ℕ) → same_key a b ≡ true → a ≡ b
same_key-eq (a, b) (c, d) h = ground arith

module _ (x : Digests) (key : ℕ × ℕ) where
  abbrev is_new : Result JobError (Queue × PreparedJobEffect) → Bool
  is_new (ok (_, p)) = p.created && same_key p.effect.idempotency_key key
  is_new (err _) = false

  -- The call prepares an effect of the key anew.
  abbrev pub prepares : JobCall → Queue → Bool
  prepares (call_prepare now g c) q = is_new (prepare_effect x now g c q)
  prepares _ q = false

  -- After a call: the table has its key, and the key was prepared before if it was so after, or by
  -- this call.
  pub record Kept (c : JobCall) (q q' : Queue) : Type 0 where
    pub keyed : IsKeyed q'.effects
    pub counted :
        (if prepares c q then 1 else 0) + (if is_prepared key (idents q.effects) then 1 else 0)
        ≤ (if is_prepared key (idents q'.effects) then 1 else 0)

  Kept-same :
      (c : JobCall) (q q' : Queue)
      → prepares c q ≡ false
      → IsKeyed q.effects
      → idents q'.effects ≡ idents q.effects
      → Kept c q q'
  Kept-same c q q' quiet keyed same = record {
    keyed = subst Consistent (sym same) keyed;
    counted = rw quiet (rw same (omega arith));
  }

  Prepared-Kept :
      (now : ℕ) (g : JobLeaseGrant) (c : EffectCommand) (q q' : Queue) (p : PreparedJobEffect)
      → prepare_effect x now g c q ≡ ok (q', p)
      → IsKeyed q.effects
      → Prepared q q' p
      → Kept (call_prepare now g c) q q'
  unfolding is_prepared
  Prepared-Kept now g c q q' p h keyed (inl (old, same)) =
      Kept-same (call_prepare now g c) q q' (rw h (ground arith)) keyed same
  Prepared-Kept now g c q q' p h keyed (inr (new, absent, fresh, same)) = record {
    keyed = subst Consistent (sym same) (fresh, keyed);
    counted = elim (Bool-cases (same_key p.effect.idempotency_key key)) [
      | inl t ↦
          let unprepared : is_prepared key (idents q.effects) ≡ false =
            subst (λ k. is_prepared k (idents q.effects) ≡ false)
              (same_key-eq p.effect.idempotency_key key t) absent in
          rw h (rw new (rw t (rw unprepared (rw same (rw t (omega arith))))))
      | inr t ↦ rw h (rw new (rw t (rw same (rw t (omega arith)))))
    ];
  }

  perform-Kept :
      (c : JobCall) (q q' : Queue) → IsKeyed q.effects → perform x c q ≡ ok q' → Kept c q q'
  unfolding perform
  perform-Kept (call_schedule now id policy c) q q' keyed h =
      let (p, e, h1) =
        >>=-eq-ok
          (retry_policy policy.max_attempts policy.base_delay_seconds policy.max_delay_seconds) _
          h in
      let (r, f) = tables-eq-ok (schedule now id p c q) q' h1 in
      Kept-same (call_schedule now id policy c) q q' refl keyed
        (ap idents (schedule-effects now id p c q q' r f))
  perform-Kept (call_claim rs c) q q' keyed h = elim (scanned-eq-ok q (claim_next rs c q) q' h) [
    | inl same ↦
        Kept-same (call_claim rs c) q q' refl keyed (ap (λ (q : Queue). idents q.effects) same)
    | inr (g, e) ↦
        Kept-same (call_claim rs c) q q' refl keyed (ap idents (claim_next-effects rs c q q' g e))
  ]
  perform-Kept (call_reconcile now limit) q q' keyed h =
      let (ids, e) = tables-eq-ok (reconcile_expired_leases now limit q) q' h in
      Kept-same (call_reconcile now limit) q q' refl keyed
        (ap idents (reconcile_expired_leases-effects now limit q q' ids e))
  perform-Kept (call_heartbeat now g duration) q q' keyed h =
      let (r, e) = tables-eq-ok (heartbeat now g duration q) q' h in
      Kept-same (call_heartbeat now g duration) q q' refl keyed
        (ap idents (heartbeat-effects now g duration q q' r e))
  perform-Kept (call_checkpoint now g c) q q' keyed h =
      let (r, e) = tables-eq-ok (checkpoint x now g c q) q' h in
      Kept-same (call_checkpoint now g c) q q' refl keyed
        (ap idents (checkpoint-effects x now g c q q' r e))
  perform-Kept (call_prepare now g c) q q' keyed h =
      let (p, e) = tables-eq-ok (prepare_effect x now g c q) q' h in
      Prepared-Kept now g c q q' p e keyed (prepare_effect-Prepared x now g c q q' p e)
  perform-Kept (call_result now g id result c) q q' keyed h =
      let (r, e) = tables-eq-ok (record_effect_result x now g id result c q) q' h in
      Kept-same (call_result now g id result c) q q' refl keyed
        (record_effect_result-idents x now g id result c q q' r keyed e)
  perform-Kept (call_complete now g expected final) q q' keyed h =
      Kept-same (call_complete now g expected final) q q' refl keyed
        (ap idents (complete-effects x now g expected final q q' h))
  perform-Kept (call_fail now g code retryable) q q' keyed h =
      let (r, e) = tables-eq-ok (fail_attempt x now g code retryable q) q' h in
      Kept-same (call_fail now g code retryable) q q' refl keyed
        (ap idents (fail_attempt-effects x now g code retryable q q' r e))
  perform-Kept (call_pause now g code) q q' keyed h =
      Kept-same (call_pause now g code) q q' refl keyed
        (ap idents (pause_attempt-effects now g code q q' h))

  -- A call that raises has prepared nothing.
  prepares-err :
      (c : JobCall) (q : Queue) (e : JobError) → perform x c q ≡ err e → prepares c q ≡ false
  unfolding perform
  prepares-err (call_prepare now g c) q e h = elim (Result-cases (prepare_effect x now g c q)) [
    | inl ((q', p), f) ↦ ground arith
    | inr (raised, f) ↦ ground arith
  ]
  prepares-err (call_schedule now id policy c) q e h = refl
  prepares-err (call_claim rs c) q e h = refl
  prepares-err (call_reconcile now limit) q e h = refl
  prepares-err (call_heartbeat now g duration) q e h = refl
  prepares-err (call_checkpoint now g c) q e h = refl
  prepares-err (call_result now g id result c) q e h = refl
  prepares-err (call_complete now g expected final) q e h = refl
  prepares-err (call_fail now g code retryable) q e h = refl
  prepares-err (call_pause now g code) q e h = refl

  pub committed-Kept :
      (c : JobCall) (q : Queue) → IsKeyed q.effects → Kept c q (committed q (perform x c q))
  committed-Kept c q keyed = elim (Result-cases (perform x c q)) [
    | inl (q', e) ↦ rw e (perform-Kept c q q' keyed e)
    | inr (raised, e) ↦ rw e (Kept-same c q q (prepares-err c q raised e) keyed refl)
  ]
