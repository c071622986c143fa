-- ===== src/Dispatch/Again.antt =====
-- A request that is dispatched again.
use mathlib.Core.Path.{subst}
use mathews.Common.{
  ℕ, arith, ◌≡◌, ◌≢◌, refl, sym, ap, ◌∙◌, true, false, not, ◌&&◌, some, List, Result, ok, err, inl,
  inr, Bool-cases, Option-cases,
}
use mathews.Common.Dict.{Dict, lookup, lookup-insert}
use mathews.Journal.{
  HostRequest, status_ambiguous, JournalResult, JournalDecision, execute, replay, JournalError,
  Fence, Journal, Encoding,
}
use mathews.Journal.Fencing.{apply_fence}
use mathews.Journal.Operations.{check_receipt}
use mathews.Journal.Calls.{Outcome, settle, begin_transaction, begin, finish}
use mathews.Journal.Trace.{Call, run}
use mathews.Journal.Replay.{IsStorable, begin-finish}
use mathews.Journal.Received.{IsReceived, begin_transaction-receipts, run-IsReceived}
use mathews.Dispatch.{
  Documents, HostOperationDefinition, HostResponse, HostOperationContext, Moments,
}
use mathews.Dispatch.Context.{new_context, run_handler}
use mathews.Dispatch.Dispatcher.{
  plain, signed_response, ambiguous_response, finished_answer, is_ok, conclude, execute_handler,
  dispatch_decided, dispatch_validated,
}
use mathews.Dispatch.Promises.{dispatch_validated-execute, ambiguous_answer-status}
use mathews.Dispatch.Reached.{run_handler-Reached}

check_receipt-recorded :
    (id digest : ℕ) (receipts receipts' : Dict ℕ)
    → check_receipt id digest (lookup id receipts) receipts ≡ ok receipts'
    → lookup id receipts' ≡ some digest
unfolding check_receipt
check_receipt-recorded id digest receipts receipts' h = elim (Option-cases (lookup id receipts)) [
  | inl e ↦ ground (arith, lookup-insert id id digest receipts)
  | inr (d, e) ↦ ground arith
]

settle_returned :
    (j k : Journal) (m : Result JournalError (Outcome JournalDecision))
    → settle j m ≡ (k, ok execute)
    → m ≡ ok (k, ok execute)
settle_returned j k (ok out) h = ap ok h
settle_returned j k (err e) h = ground arith

-- A request that was begun has its receipt.
begin-IsReceived :
    (x : Encoding) (now : ℕ) (q : HostRequest) (j k : Journal)
    → begin x now q j ≡ (k, ok execute)
    → IsReceived q.request_id (x.request_digest q) k
unfolding begin
begin-IsReceived x now q j k h =
    check_receipt-recorded q.request_id (x.request_digest q) j.receipts k.receipts
      (begin_transaction-receipts x now q j (settle_returned j k (begin_transaction x now q j) h))

module _ (x : Encoding) (d : Documents) (request : HostRequest) where
  -- An answer that is not ambiguous was stored.
  finished_answer-stored :
      (now : ℕ) (r : JournalResult) (out : Journal × Result JournalError (Unit {0})) (l : Journal)
      (response : HostResponse)
      → finished_answer x d request now r out ≡ (l, ok response)
      → response.status ≢ status_ambiguous
      → (out ≡ (l, ok tt)) × (response ≡ signed_response now request false r)
  unfolding ambiguous_response signed_response
  finished_answer-stored now r (k, ok tt) l response h definite = (ground arith, ground arith)
  finished_answer-stored now r (k, err e) l response h definite = absurd (definite (ground arith))

  conclude-stored :
      (m : Moments) (c : HostOperationContext) (o : Result ℕ JournalResult) (l : Journal)
      (response : HostResponse)
      → conclude x d request m c o ≡ (l, ok response)
      → response.status ≢ status_ambiguous
      → (r : JournalResult) × (finish x m.finished.now request r (run x m.finished.others c.journal)
          ≡ (l, ok tt))
        × (response ≡ signed_response m.answered request false r)
  unfolding conclude ambiguous_response signed_response
  conclude-stored m c (err result) l response h definite = absurd (
      definite (
        ambiguous_answer-status x d request m.answered (d.normalize result) response
          (ground arith)))
  conclude-stored m c (ok r) l response h definite =
      elim (Bool-cases (c.effect_attempted && not (is_ok r.status))) [
        | inl t ↦ absurd (definite (ground arith))
        | inr t ↦
            let (finished, same) =
              finished_answer-stored m.answered r
                (finish x m.finished.now request r (run x m.finished.others c.journal)) l response
                (ground arith) definite in
            (r, finished, same)
      ]

dispatch_validated-replay :
    (x : Encoding) (d : Documents) (request : HostRequest) (m : Moments)
    (definition : HostOperationDefinition) (arguments : ℕ) (j k : Journal) (r : JournalResult)
    → begin x m.begun request j ≡ (k, ok (replay r))
    → dispatch_validated x d request m definition arguments j
      ≡ (k, ok (signed_response m.answered request true r))
unfolding dispatch_validated dispatch_decided
dispatch_validated-replay x d request m definition arguments j k r h = rw h refl

-- Where `_dispatch_validated` has run the handler of a request and has answered, and not ambiguously,
-- it gives the same answer to the same request after any calls on the journal since, as replayed, where
-- its fence holds then: the handler is not run, and only the fences of the journal change. The
-- answer has a document and a code that the journal can store.
pub dispatch_again :
    (x : Encoding) (d : Documents) (request : HostRequest) (m m' : Moments)
    (definition definition' : HostOperationDefinition) (arguments arguments' : ℕ) (j k l : Journal)
    (calls : List Call) (response : HostResponse) (fences : Dict Fence)
    → begin x m.begun request j ≡ (k, ok execute)
    → dispatch_validated x d request m definition arguments j ≡ (l, ok response)
    → response.status ≢ status_ambiguous
    → IsStorable x request
        (plain response.status response.code response.result response.execution_fencing_token)
    → apply_fence m'.begun request.authority (run x calls l).fences ≡ ok fences
    → dispatch_validated x d request m' definition' arguments' (run x calls l) ≡ (
      record (run x calls l) { fences = fences },
      ok (record response { replayed = true; completed_at_ms = m'.answered }),
    )
unfolding execute_handler signed_response
dispatch_again x d request m m' definition definition' arguments arguments' j k l calls response
      fences begun h definite storable fenced =
    let done = run_handler x request d (definition.handle arguments) (new_context k) in
    let (r, finished, same) =
      conclude-stored x d request m done.0 _ l response
        (sym (dispatch_validated-execute x d request m definition arguments j k begun) ∙ h)
        definite in
    let (before, reached) =
      run_handler-Reached x request d (definition.handle arguments) (new_context k) in
    let received =
      run-IsReceived x request.request_id (x.request_digest request) m.finished.others _ (
        subst (IsReceived request.request_id (x.request_digest request)) (sym reached) (
          run-IsReceived x request.request_id (x.request_digest request) before k
            (begin-IsReceived x m.begun request j k begun))) in
    let stored : IsStorable x request r =
      subst
        (λ (response : HostResponse).
          IsStorable x request
            (plain response.status response.code response.result response.execution_fencing_token))
        same storable in
    let again =
      begin-finish x m.finished.now m'.begun request r _ l calls fences stored received finished
        fenced in
    dispatch_validated-replay x d request m' definition' arguments' (run x calls l) _ r again
    ∙ ap
        (λ (response : HostResponse). (
          record (run x calls l) { fences = fences },
          ok (record response { replayed = true; completed_at_ms = m'.answered }),
        ))
        (sym same)
