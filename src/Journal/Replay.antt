-- ===== src/Journal/Replay.antt =====
-- A finished operation is answered from the journal.
use mathews.Common.{ℕ, ◌≡◌, ap, ◌∙◌, List, true, some, Result, ok, err, arith, ==_refl}
use mathews.Common.Dict.{Dict, lookup}
use mathews.Journal.{HostRequest, JournalResult, replay, JournalError, Fence, Journal, Encoding}
use mathews.Journal.Fencing.{apply_fence}
use mathews.Journal.Operations.{
  is_task_scoped, is_error_code, valid_token, token_fits, stored_result, stored_of, check_receipt,
}
use mathews.Journal.Trace.{Call, run}
use mathews.Journal.Received.{finish_transaction-Delivered, run-IsReceived, run-IsDelivered}
use mathews.Journal.Calls.{
  Outcome, settle, begin_delivered, begin_recorded, begin_transaction, begin, finish_transaction,
  finish,
}

-- A result that the journal can read back: its document survives the encoding, its code has the
-- form of a code, and it has a positive token of 63 bits exactly if the request is of a task.
pub record IsStorable (x : Encoding) (request : HostRequest) (r : JournalResult) : Type 0 where
  pub document : x.load_result (x.encode_result r.result) ≡ some r.result
  pub code : is_error_code r.code ≡ true
  pub token : valid_token r.execution_fencing_token ≡ true
  pub scoped : token_fits (is_task_scoped request.authority) r.execution_fencing_token ≡ true

stored_result-stored_of :
    (x : Encoding) (request : HostRequest) (r : JournalResult)
    → IsStorable x request r
    → stored_result x (is_task_scoped request.authority) (some (stored_of x r)) ≡ ok r
unfolding stored_result stored_of
stored_result-stored_of x request r s = ground arith

settle_ok :
    {A : Type 0} (j : Journal) (m : Result JournalError (Outcome A)) {j' : Journal} {a : A}
    → settle j m ≡ (j', ok a)
    → m ≡ ok (j', ok a)
settle_ok j (ok out) h = ap ok h
settle_ok j (err e) h = ground arith

-- A result that `finish` has stored for a request that was begun is what `begin` answers to the same
-- request after any calls since, where its fence holds then; nothing but the fences of the journal
-- changes.
pub begin-finish :
    (x : Encoding) (now now' : ℕ) (request : HostRequest) (result : JournalResult) (j j' : Journal)
    (calls : List Call) (fences : Dict Fence)
    → IsStorable x request result
    → lookup request.request_id j.receipts ≡ some (x.request_digest request)
    → finish x now request result j ≡ (j', ok tt)
    → apply_fence now' request.authority (run x calls j').fences ≡ ok fences
    → begin x now' request (run x calls j')
      ≡ (record (run x calls j') { fences = fences }, ok (replay result))
unfolding finish begin begin_transaction begin_recorded begin_delivered check_receipt
begin-finish x now now' request result j j' calls fences s begun h f =
    let (receipts, delivery) =
      finish_transaction-Delivered x now request result j
        (settle_ok j (finish_transaction x now request result j) h) in
    let received =
      run-IsReceived x request.request_id (x.request_digest request) calls j'
        (ap (lookup request.request_id) receipts ∙ begun) in
    let delivered = run-IsDelivered x request.request_id _ calls j' delivery in
    ground (arith, stored_result-stored_of x request result s, ==_refl (x.request_digest request))
