-- ===== src/Journal/Once.antt =====
-- How often an operation is executed.
use mathews.Common.{
  ◌⊎◌, ℕ, ◌+◌, ◌≤◌, ◌≡◌, refl, Bool, true, false, ◌&&◌, Option, none, some, List, [], ◌∷◌, Result,
  ok, err, arith, if◌then◌else◌, Bool-cases, Option-cases, inl, inr, >>=-eq-ok, is_some,
}
use mathews.Common.Dict.{lookup}
use mathews.Journal.{
  HostRequest, JournalResult, JournalDecision, execute, JournalError, Scope, system_scope,
  repository_scope, job_scope, Journal, Encoding, Delivery, Operation,
}
use mathews.Journal.Fencing.{apply_fence, assert_current_fence}
use mathews.Journal.Operations.{
  scope_key, scope_eq, is_row_of, find_operation, check_receipt, reservation,
}
use mathews.Journal.Calls.{
  Outcome, settle, begin_delivered, begin_finished, begin_existing, begin_operation, begin_recorded,
  begin_transaction, begin, finish_operation, finish_transaction, finish,
}
use mathews.Journal.FenceLaws.{settle_ind}
use mathews.Journal.Trace.{Call, begins, finishes, step}

-- The operation of the request is in the journal.
abbrev pub is_known : HostRequest → Journal → Bool
is_known r j = is_some (find_operation r j.operations)

abbrev pub is_execute : Result JournalError JournalDecision → Bool
is_execute (ok execute) = true
is_execute _ = false

-- The call is told to execute the operation of `r`.
abbrev pub starts : Encoding → HostRequest → Call → Journal → Bool
starts x r (begins now q) j = is_execute (begin x now q j).1 && is_row_of r (reservation x q)
starts x r (finishes now q result) j = false

-- How often that happens.
abbrev pub executions : Encoding → HostRequest → List Call → Journal → ℕ
executions x r [] j = 0
executions x r (c ∷ cs) j = (if starts x r c j then 1 else 0) + executions x r cs (step x c j)

scope_eq→eq : (s t : Scope) → scope_eq s t ≡ true → s ≡ t
unfolding scope_eq
scope_eq→eq system_scope system_scope h = refl
scope_eq→eq (repository_scope a b c) (repository_scope d e f) h = ground arith
scope_eq→eq (job_scope a) (job_scope b) h = ground arith
scope_eq→eq _ _ h = cc

-- A request whose operation is that of another finds the same rows.
find_operation-same :
    (x : Encoding) (r q : HostRequest) (os : List Operation)
    → is_row_of r (reservation x q) ≡ true
    → find_operation r os ≡ find_operation q os
unfolding find_operation is_row_of reservation
find_operation-same x r q [] h = refl
find_operation-same x r q (o ∷ os) h =
    let s : scope_key q.authority ≡ scope_key r.authority = scope_eq→eq _ _ (ground arith) in
    let n : q.operation_name ≡ r.operation_name = ground arith in
    let k : q.idempotency_key ≡ r.idempotency_key = ground arith in
    rw (s, n, k) (ground (arith, find_operation-same x r q os h))

-- What a call of `begin` with this outcome has done to the operations.
abbrev pub Started : Encoding → HostRequest → Journal → Outcome JournalDecision → Type 0
Started x q j out =
    ((is_execute out.1 ≡ true)
      × (find_operation q j.operations ≡ none)
      × (out.0.operations ≡ reservation x q ∷ j.operations))
    ⊎ ((is_execute out.1 ≡ false) × (out.0.operations ≡ j.operations))

-- `begin` says `execute` only if it found no operation, and then it has added one.
begin_recorded-execute :
    (x : Encoding) (q : HostRequest) (j : Journal) (o : Option Delivery)
    {out : Outcome JournalDecision}
    → begin_recorded x q j o ≡ ok out
    → Started x q j out
unfolding begin_recorded begin_delivered begin_operation begin_existing begin_finished
begin_recorded-execute x q j (some d) h = inr (ground arith)
begin_recorded-execute x q j none h = ground arith

settle-operations :
    (x : Encoding) (q : HostRequest) (j : Journal)
    (m : Result JournalError (Outcome JournalDecision))
    → ((out : Outcome JournalDecision) → m ≡ ok out → Started x q j out)
    → Started x q j (settle j m)
settle-operations x q j (ok out) f = f out refl
settle-operations x q j (err e) f = inr (refl, refl)

pub begin-Started :
    (x : Encoding) (now : ℕ) (q : HostRequest) (j : Journal) → Started x q j (begin x now q j)
unfolding begin begin_transaction
begin-Started x now q j = settle-operations x q j (begin_transaction x now q j) λ out h.
    let (fences, f, h₁) = >>=-eq-ok (apply_fence now q.authority j.fences) _ h in
    let (receipts, r, h₂) =
      >>=-eq-ok
        (check_receipt q.request_id (x.request_digest q) (lookup q.request_id j.receipts)
          j.receipts)
        _ h₁ in
    begin_recorded-execute x q (record j { fences = fences; receipts = receipts })
      (lookup q.request_id j.deliveries) h₂

finish_operation-known :
    (x : Encoding) (r q : HostRequest) (result : JournalResult) (os : List Operation)
    {os' : List Operation}
    → finish_operation x q result os ≡ some os'
    → is_some (find_operation r os') ≡ is_some (find_operation r os)
unfolding finish_operation find_operation is_row_of
finish_operation-known x r q result [] h = cc
finish_operation-known x r q result (o ∷ os) h =
    elim (Option-cases (finish_operation x q result os)) [
      | inl n ↦ ground arith
      | inr (os'', e) ↦ ground (arith, finish_operation-known x r q result os e)
    ]

finish-known :
    (x : Encoding) (r : HostRequest) (now : ℕ) (q : HostRequest) (result : JournalResult)
    (j : Journal)
    → is_known r (finish x now q result j).0 ≡ is_known r j
unfolding finish finish_transaction
finish-known x r now q result j =
    settle_ind (λ j'. is_known r j' ≡ is_known r j) j (finish_transaction x now q result j) refl
      λ out h.
        let (u, a, h₁) = >>=-eq-ok (assert_current_fence now q.authority j.fences) _ h in
        elim (Option-cases (finish_operation x q result j.operations)) [
          | inl n ↦ ground arith
          | inr (os, e) ↦ ground (arith, finish_operation-known x r q result j.operations e)
        ]

pub step-known :
    (x : Encoding) (r : HostRequest) (c : Call) (j : Journal)
    → (if starts x r c j then 1 else 0) + (if is_known r j then 1 else 0)
      ≤ (if is_known r (step x c j) then 1 else 0)
unfolding step find_operation
step-known x r (finishes now q result) j = rw (finish-known x r now q result j) (omega arith)
step-known x r (begins now q) j = elim (begin-Started x now q j) [
  | inr s ↦ ground arith
  | inl s ↦ elim (Bool-cases (is_row_of r (reservation x q))) [
    | inl same ↦ ground (arith, find_operation-same x r q j.operations same)
    | inr other ↦ ground arith
  ]
]

-- Whatever sequence of calls is made, by whatever requests and workers, the operation of a scope, a
-- name and an idempotency key is executed at most once, and not at all if the journal holds it
-- already.
pub executes_once :
    (x : Encoding) (r : HostRequest) (calls : List Call) (j : Journal)
    → executions x r calls j + (if is_known r j then 1 else 0) ≤ 1
executes_once x r [] j = ground arith
executes_once x r (c ∷ cs) j = omega (arith, step-known x r c j, executes_once x r cs (step x c j))
