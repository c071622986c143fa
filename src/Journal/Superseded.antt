-- ===== src/Journal/Superseded.antt =====
-- Over any sequence of calls the fence of a job only moves forward, and a superseded lease stays out.
use mathlib.Core.Path.{subst}
use mathews.Common.{ℕ, ◌<◌, ◌≡◌, sym, some, List, [], ◌∷◌, err, arith, leb, if◌then◌else◌}
use mathews.Common.Dict.{Dict, lookup}
use mathews.Journal.{
  TaskLease, task_lease, HostRequest, JournalResult, lease_expired, fenced, Fence, Journal,
  Encoding,
}
use mathews.Journal.Fencing.{next_fence, apply_fence, assert_row, assert_current_fence}
use mathews.Journal.FenceLaws.{
  Advances, AllAdvance, AllAdvance-refl, Advances-trans, begin-AllAdvance, finish-fences,
}
use mathews.Journal.Trace.{Call, begins, finishes, step, run}
use mathews.Journal.Calls.{begin_transaction, begin, finish_transaction, finish, assert_authorized}

AllAdvance-trans : (f g h : Dict Fence) → AllAdvance f g → AllAdvance g h → AllAdvance f h
AllAdvance-trans f g h p q job row l =
    let (row', l', a) = p job row l in
    let (row'', l'', b) = q job row' l' in (row'', l'', Advances-trans row row' row'' a b)

step-AllAdvance : (x : Encoding) (c : Call) (j : Journal) → AllAdvance j.fences (step x c j).fences
unfolding step
step-AllAdvance x (begins now request) j = begin-AllAdvance x now request j
step-AllAdvance x (finishes now request result) j =
    subst (AllAdvance j.fences) (sym (finish-fences x now request result j))
      (AllAdvance-refl j.fences)

run-AllAdvance :
    (x : Encoding) (calls : List Call) (j : Journal) → AllAdvance j.fences (run x calls j).fences
unfolding run
run-AllAdvance x [] j = AllAdvance-refl j.fences
run-AllAdvance x (c ∷ cs) j =
    AllAdvance-trans j.fences (step x c j).fences (run x cs (step x c j)).fences
      (step-AllAdvance x c j) (run-AllAdvance x cs (step x c j))

-- Whatever calls are made, the fence of a job never goes back: the job keeps a fence with the same
-- task, repository and configuration, and either its token has risen, or it is still the lease of
-- the same worker and attempt, with an expiry that has not moved back.
pub run-Advances :
    (x : Encoding) (calls : List Call) (j : Journal) (job : ℕ) (row : Fence)
    → lookup job j.fences ≡ some row
    → (row' : Fence) × (lookup job (run x calls j).fences ≡ some row') × Advances row row'
run-Advances x calls j job row l = run-AllAdvance x calls j job row l

stale_assert :
    (now : ℕ) (a : TaskLease) (fences : Dict Fence) (row : Fence)
    → lookup a.job_id fences ≡ some row
    → a.fencing_token < row.fencing_token
    → assert_current_fence now (task_lease a) fences ≡ err fenced
unfolding assert_current_fence assert_row
stale_assert now a fences row l lt = ground arith

stale_apply :
    (now : ℕ) (a : TaskLease) (fences : Dict Fence) (row : Fence)
    → lookup a.job_id fences ≡ some row
    → a.fencing_token < row.fencing_token
    → apply_fence now (task_lease a) fences
      ≡ err (if leb a.lease_expires_at_ms now then lease_expired else fenced)
unfolding apply_fence next_fence
stale_apply now a fences row l lt = ground arith

-- Once a job has a fence with a higher token than a lease, then after any further calls a request of
-- that lease can do nothing: its effects are not authorized, its results are not stored, and its
-- new operations are refused, each with the journal left as it is.
pub superseded_stays_out :
    (x : Encoding) (calls : List Call) (j : Journal) (request : HostRequest) (a : TaskLease)
    (row : Fence) (result : JournalResult) (now : ℕ)
    → request.authority ≡ task_lease a
    → lookup a.job_id j.fences ≡ some row
    → a.fencing_token < row.fencing_token
    → let j' = run x calls j in
      (assert_authorized now request j' ≡ err fenced)
      × (finish x now request result j' ≡ (j', err fenced))
      × (begin x now request j'
          ≡ (j', err (if leb a.lease_expires_at_ms now then lease_expired else fenced)))
unfolding assert_authorized finish finish_transaction begin begin_transaction
superseded_stays_out x calls j request a row result now auth l lt =
    let (row', l', adv) = run-AllAdvance x calls j a.job_id row l in
    let j' = run x calls j in
    let lt' : a.fencing_token < row'.fencing_token = ground (arith, adv.rises) in
    (
      rw auth (stale_assert now a j'.fences row' l' lt'),
      rw auth (rw (stale_assert now a j'.fences row' l' lt')),
      rw auth (rw (stale_apply now a j'.fences row' l' lt')),
    )
