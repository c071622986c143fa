-- ===== src/Journal/FenceLaws.antt =====
-- The fence of a job only moves forward, and a superseded lease stays out.
use mathlib.Core.Path.{subst}
use mathews.Common.{
  ℕ, ◌≤◌, ◌<◌, ◌≡◌, ◌⊎◌, refl, sym, ◌∙◌, Option, none, some, Result, ok, err, guard, arith, not,
  leb, ◌==◌, ==_iff, Bool-cases, inl, inr, >>=-eq-ok,
}
use mathews.Common.Dict.{Dict, lookup, insert, lookup-insert}
use mathews.Journal.{
  TaskLease, Authority, system, repository, task_lease, HostRequest, JournalResult, JournalDecision,
  JournalError, lease_expired, Fence, Journal, Encoding, Delivery,
}
use mathews.Journal.Fencing.{renew_fence, supersede_fence, next_fence, apply_fence}
use mathews.Journal.Operations.{check_receipt}
use mathews.Journal.Calls.{
  Outcome, settle, begin_delivered, begin_finished, begin_existing, begin_operation, begin_recorded,
  begin_transaction, begin, finish_transaction, finish,
}

-- The same lease of the same worker, with an expiry that has not moved back.
pub record Renews (old new : Fence) : Type 0 where
  pub token : new.fencing_token ≡ old.fencing_token
  pub lease : new.lease_id ≡ old.lease_id
  pub worker : new.worker_id ≡ old.worker_id
  pub attempt : new.attempt ≡ old.attempt
  pub expiry : old.lease_expires_at_ms ≤ new.lease_expires_at_ms

-- A later row of the same job: the task, repository and configuration are the same, and either the
-- token has risen or the lease is the same.
pub record Advances (old new : Fence) : Type 0 where
  pub task : new.task_id ≡ old.task_id
  pub repository_key : new.repository_key ≡ old.repository_key
  pub configuration : new.configuration_id ≡ old.configuration_id
  pub digest : new.configuration_digest ≡ old.configuration_digest
  pub rises : (old.fencing_token < new.fencing_token) ⊎ Renews old new

Advances-refl : (row : Fence) → Advances row row
Advances-refl row = ground arith

pub Advances-trans : (p q r : Fence) → Advances p q → Advances q r → Advances p r
Advances-trans p q r h k = ground arith

-- Every row of the table has a later row in the other table.
abbrev pub AllAdvance : Dict Fence → Dict Fence → Type 0
AllAdvance fences fences' =
    (job : ℕ) (row : Fence)
    → lookup job fences ≡ some row
    → (row' : Fence) × (lookup job fences' ≡ some row') × Advances row row'

next_fence-Advances :
    (now : ℕ) (a : TaskLease) (row row' : Fence)
    → next_fence now a (some row) ≡ ok row'
    → Advances row row'
unfolding next_fence renew_fence supersede_fence
next_fence-Advances now a row row' h = ground arith

insert-AllAdvance :
    (now : ℕ) (a : TaskLease) (fences : Dict Fence) (row' : Fence)
    → next_fence now a (lookup a.job_id fences) ≡ ok row'
    → AllAdvance fences (insert a.job_id row' fences)
insert-AllAdvance now a fences row' h job row f = elim (Bool-cases (a.job_id == job)) [
  | inl p ↦
      let same : a.job_id ≡ job = (==_iff a.job_id job).0 p in
      (
        row',
        lookup-insert a.job_id job row' fences ∙ rw p refl,
        next_fence-Advances now a row row' (
            subst (λ o. next_fence now a o ≡ ok row')
              (subst (λ i. lookup i fences ≡ some row) (sym same) f) h),
      )
  | inr n ↦ (row, lookup-insert a.job_id job row' fences ∙ rw n f, Advances-refl row)
]

pub AllAdvance-refl : (fences : Dict Fence) → AllAdvance fences fences
AllAdvance-refl fences job row f = (row, f, Advances-refl row)

pub apply_fence-AllAdvance :
    (now : ℕ) (a : Authority) (fences : Dict Fence) {fences' : Dict Fence}
    → apply_fence now a fences ≡ ok fences'
    → AllAdvance fences fences'
unfolding apply_fence
apply_fence-AllAdvance now system fences h =
    subst (AllAdvance fences) (ground arith) (AllAdvance-refl fences)
apply_fence-AllAdvance now (repository _ _ _) fences h =
    subst (AllAdvance fences) (ground arith) (AllAdvance-refl fences)
apply_fence-AllAdvance now (task_lease a) fences h =
    let (u, live, h₁) = >>=-eq-ok (guard (not (leb a.lease_expires_at_ms now)) lease_expired) _ h in
    let (row', n, e) = >>=-eq-ok (next_fence now a (lookup a.job_id fences)) _ h₁ in
    subst (AllAdvance fences) (ground arith) (insert-AllAdvance now a fences row' n)

-- What follows the fence in `begin` leaves the fences alone.
begin_recorded-fences :
    (x : Encoding) (request : HostRequest) (j : Journal) (o : Option Delivery)
    {out : Outcome JournalDecision}
    → begin_recorded x request j o ≡ ok out
    → out.0.fences ≡ j.fences
unfolding begin_recorded begin_delivered begin_operation begin_existing begin_finished
begin_recorded-fences x request j (some d) h = ground arith
begin_recorded-fences x request j none h = ground arith

-- A transaction that raises leaves the journal, and one that commits has its own.
pub settle_ind :
    {A : Type 0} (P : Journal → Type 0) (j : Journal) (m : Result JournalError (Outcome A))
    → P j
    → ((out : Outcome A) → m ≡ ok out → P out.0)
    → P (settle j m).0
settle_ind P j (ok out) p f = f out refl
settle_ind P j (err e) p f = p

pub begin-AllAdvance :
    (x : Encoding) (now : ℕ) (request : HostRequest) (j : Journal)
    → AllAdvance j.fences (begin x now request j).0.fences
unfolding begin begin_transaction
begin-AllAdvance x now request j =
    settle_ind (λ j'. AllAdvance j.fences j'.fences) j (begin_transaction x now request j)
      (AllAdvance-refl j.fences)
      λ out h.
        let (fences, f, h₁) = >>=-eq-ok (apply_fence now request.authority j.fences) _ h in
        let (receipts, r, h₂) =
          >>=-eq-ok
            (check_receipt request.request_id (x.request_digest request)
              (lookup request.request_id j.receipts) j.receipts)
            _ h₁ in
        subst (AllAdvance j.fences)
          (sym (
            begin_recorded-fences x request (record j { fences = fences; receipts = receipts })
              (lookup request.request_id j.deliveries) h₂))
          (apply_fence-AllAdvance now request.authority j.fences f)

pub finish-fences :
    (x : Encoding) (now : ℕ) (request : HostRequest) (result : JournalResult) (j : Journal)
    → (finish x now request result j).0.fences ≡ j.fences
unfolding finish finish_transaction
finish-fences x now request result j =
    settle_ind (λ j'. j'.fences ≡ j.fences) j (finish_transaction x now request result j) refl
      λ out h. ground arith
