-- ===== src/Journal/Calls.antt =====
-- services/host-agent/src/mathews_host_agent/journal.py: the calls of `HostOperationJournal`. A call
-- gives the journal as it is afterwards and the outcome; `now` is what the clock shows.
use mathews.Common.{
  ℕ, Bool, ◌&&◌, Option, none, some, List, [], ◌∷◌, Result, ok, err, ◌>>=◌, ◌>>◌, guard, ◌==◌,
  if◌then◌else◌,
}
use mathews.Common.Dict.{lookup}
use mathews.Journal.{
  HostRequest, ResponseStatus, status_ok, JournalResult, JournalDecision, execute, replay,
  ambiguous, JournalError, request_id_conflict, idempotency_conflict, operation_not_reserved,
  OperationState, succeeded, failed_state, Operation, Delivery, Journal, Encoding,
}
use mathews.Journal.Fencing.{apply_fence, assert_current_fence}
use mathews.Journal.Operations.{
  semantic_fingerprint, is_task_scoped, stored_result, stored_of, record_delivery, is_row_of,
  find_operation, is_running, check_receipt, reservation,
}

-- What a transaction commits: a journal and the outcome of the call.
abbrev pub Outcome : Type 0 → Type 0
Outcome A = Journal × Result JournalError A

-- An exception before the commit rolls back to the journal before the call.
abbrev pub settle : {A : Type 0} → Journal → Result JournalError (Outcome A) → Outcome A
settle j (ok out) = out
settle j (err e) = (j, err e)

-- `JournalDecision(JournalAction.REPLAY, _stored_result(…))`
abbrev pub replay_outcome : Result JournalError JournalResult → Result JournalError JournalDecision
replay_outcome (ok result) = ok (replay result)
replay_outcome (err e) = err e

-- A delivered request is committed before its stored result is read.
unfoldable pub begin_delivered :
    Encoding → HostRequest → Journal → Delivery → Result JournalError (Outcome JournalDecision)
begin_delivered x request j delivery = do
  guard (delivery.request_digest == x.request_digest request) request_id_conflict
  ok (j, replay_outcome (stored_result x (is_task_scoped request.authority) (some delivery.stored)))

-- A finished operation is delivered to the request too.
unfoldable pub begin_finished :
    Encoding → HostRequest → Journal → Operation → Result JournalError (Outcome JournalDecision)
begin_finished x request j operation = do
  result ← stored_result x (is_task_scoped request.authority) operation.stored
  deliveries ← record_delivery x request result j.deliveries
  ok (record j { deliveries = deliveries }, ok (replay result))

unfoldable pub begin_existing :
    Encoding → HostRequest → Journal → Operation → Result JournalError (Outcome JournalDecision)
begin_existing x request j operation = do
  guard (operation.semantic_fingerprint == semantic_fingerprint x request) idempotency_conflict
  if is_running operation.state then ok (j, ok ambiguous) else begin_finished x request j operation

-- The reservation of a new operation.
unfoldable pub begin_operation :
    Encoding
    → HostRequest
    → Journal
    → Option Operation
    → Result JournalError (Outcome JournalDecision)
begin_operation x request j none =
    ok (record j { operations = reservation x request ∷ j.operations }, ok execute)
begin_operation x request j (some operation) = begin_existing x request j operation

unfoldable pub begin_recorded :
    Encoding
    → HostRequest
    → Journal
    → Option Delivery
    → Result JournalError (Outcome JournalDecision)
begin_recorded x request j none = begin_operation x request j (find_operation request j.operations)
begin_recorded x request j (some delivery) = begin_delivered x request j delivery

-- The transaction of `_begin`.
unfoldable pub begin_transaction :
    Encoding → ℕ → HostRequest → Journal → Result JournalError (Outcome JournalDecision)
begin_transaction x now request j = do
  fences ← apply_fence now request.authority j.fences
  receipts ←
      check_receipt request.request_id (x.request_digest request)
        (lookup request.request_id j.receipts) j.receipts
  begin_recorded x request (record j { fences = fences; receipts = receipts })
      (lookup request.request_id j.deliveries)

-- `begin`
unfoldable pub begin : Encoding → ℕ → HostRequest → Journal → Outcome JournalDecision
begin x now request j = settle j (begin_transaction x now request j)

-- `"SUCCEEDED" if result.status is HostResponseStatus.OK else "FAILED"`
abbrev pub final_state : ResponseStatus → OperationState
final_state status_ok = succeeded
final_state _ = failed_state

-- The `WHERE` clause of the `UPDATE`.
unfoldable pub is_reserved : Encoding → HostRequest → Operation → Bool
is_reserved x request o =
    is_row_of request o
    && o.semantic_fingerprint == semantic_fingerprint x request
    && is_running o.state

-- The `UPDATE`: nothing where no row fits. The primary key lets one row fit at most.
unfoldable pub finish_operation :
    Encoding → HostRequest → JournalResult → List Operation → Option (List Operation)
finish_operation x request result [] = none
finish_operation x request result (o ∷ os) =
    let rest = finish_operation x request result os in
    if is_reserved x request o
    then some
        (record o { state = final_state result.status; stored = some (stored_of x result) } ∷ os)
    else elim rest [ none ↦ none | some os' ↦ some (o ∷ os') ]

abbrev or_not_reserved : Option (List Operation) → Result JournalError (List Operation)
or_not_reserved none = err operation_not_reserved
or_not_reserved (some os) = ok os

unfoldable pub finish_transaction :
    Encoding → ℕ → HostRequest → JournalResult → Journal → Result JournalError (Outcome (Unit {0}))
finish_transaction x now request result j = do
  assert_current_fence now request.authority j.fences
  operations ← or_not_reserved (finish_operation x request result j.operations)
  deliveries ← record_delivery x request result j.deliveries
  ok (record j { operations = operations; deliveries = deliveries }, ok tt)

-- `finish`
unfoldable pub finish : Encoding → ℕ → HostRequest → JournalResult → Journal → Outcome (Unit {0})
finish x now request result j = settle j (finish_transaction x now request result j)

-- `assert_authorized`
unfoldable pub assert_authorized : ℕ → HostRequest → Journal → Result JournalError (Unit {0})
assert_authorized now request j = assert_current_fence now request.authority j.fences
