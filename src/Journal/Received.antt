-- ===== src/Journal/Received.antt =====
-- What the journal keeps of a request over any calls: its receipt and its delivery.
use mathews.Common.{
  ℕ, ◌≡◌, ap, sym, ◌∙◌, Option, none, some, List, [], ◌∷◌, ok, arith, ==_refl, Option-cases, inl,
  inr, >>=-eq-ok,
}
use mathews.Common.Dict.{Dict, lookup, lookup-insert}
use mathews.Journal.{
  HostRequest, JournalResult, JournalDecision, Journal, Encoding, Delivery, Operation,
}
use mathews.Journal.Fencing.{apply_fence, assert_current_fence}
use mathews.Journal.Operations.{
  stored_result, stored_of, record_delivery, check_receipt, find_operation, is_task_scoped,
}
use mathews.Journal.Calls.{
  Outcome, begin_delivered, begin_finished, begin_existing, begin_operation, begin_recorded,
  begin_transaction, begin, finish_operation, finish_transaction, finish,
}
use mathews.Journal.FenceLaws.{settle_ind}
use mathews.Journal.Trace.{Call, begins, finishes, step, run}

-- What `finish` leaves of a request: the receipts as they were, and its delivery.
abbrev pub Delivered : Encoding → HostRequest → JournalResult → Journal → Journal → Type 0
Delivered x request result j j' =
    (j'.receipts ≡ j.receipts)
    × (lookup request.request_id j'.deliveries
        ≡ some (record { request_digest = x.request_digest request; stored = stored_of x result }))

pub finish_transaction-Delivered :
    (x : Encoding) (now : ℕ) (request : HostRequest) (result : JournalResult) (j : Journal)
    {out : Outcome (Unit {0})}
    → finish_transaction x now request result j ≡ ok out
    → Delivered x request result j out.0
unfolding finish_transaction record_delivery
finish_transaction-Delivered x now request result j h =
    let (u, a, h₁) = >>=-eq-ok (assert_current_fence now request.authority j.fences) _ h in
    elim (Option-cases (finish_operation x request result j.operations)) [
      | inl n ↦ ground arith
      | inr (os, e) ↦ ground (
        arith,
        lookup-insert request.request_id request.request_id
            (record { request_digest = x.request_digest request; stored = stored_of x result })
            j.deliveries,
        ==_refl request.request_id,
      )
    ]

-- The receipt of a request, once it is there.
abbrev pub IsReceived : ℕ → ℕ → Journal → Type 0
IsReceived id digest j = lookup id j.receipts ≡ some digest

check_receipt-kept :
    (id digest q_id q_digest : ℕ) (receipts receipts' : Dict ℕ)
    → check_receipt q_id q_digest (lookup q_id receipts) receipts ≡ ok receipts'
    → lookup id receipts ≡ some digest
    → lookup id receipts' ≡ some digest
unfolding check_receipt
check_receipt-kept id digest q_id q_digest receipts receipts' h known =
    ground (arith, lookup-insert q_id id q_digest receipts)

begin_recorded-receipts :
    (x : Encoding) (q : HostRequest) (j : Journal) (o : Option Delivery)
    {out : Outcome JournalDecision}
    → begin_recorded x q j o ≡ ok out
    → out.0.receipts ≡ j.receipts
unfolding begin_recorded begin_delivered begin_operation begin_existing begin_finished
begin_recorded-receipts x q j (some delivery) h = ground arith
begin_recorded-receipts x q j none h = ground arith

-- What `begin` leaves, where its transaction commits.
pub begin_transaction-receipts :
    (x : Encoding) (now : ℕ) (q : HostRequest) (j : Journal) {out : Outcome JournalDecision}
    → begin_transaction x now q j ≡ ok out
    → check_receipt q.request_id (x.request_digest q) (lookup q.request_id j.receipts) j.receipts
      ≡ ok out.0.receipts
unfolding begin_transaction
begin_transaction-receipts x now q j h =
    let (fences, f, h₁) = >>=-eq-ok (apply_fence now q.authority j.fences) _ h in
    let (receipts, r, h₂) =
      >>=-eq-ok
        (check_receipt q.request_id (x.request_digest q) (lookup q.request_id j.receipts)
          j.receipts)
        _ h₁ in
    let same =
      begin_recorded-receipts x q (record j { fences = fences; receipts = receipts })
        (lookup q.request_id j.deliveries) h₂ in
    r ∙ ap ok (sym same)

step-IsReceived :
    (x : Encoding) (id digest : ℕ) (c : Call) (j : Journal)
    → IsReceived id digest j
    → IsReceived id digest (step x c j)
unfolding step begin finish
step-IsReceived x id digest (begins now q) j known =
    settle_ind (IsReceived id digest) j (begin_transaction x now q j) known λ out h.
      check_receipt-kept id digest q.request_id (x.request_digest q) j.receipts out.0.receipts
        (begin_transaction-receipts x now q j h) known
step-IsReceived x id digest (finishes now q result) j known =
    settle_ind (IsReceived id digest) j (finish_transaction x now q result j) known
      λ out h. ap (lookup id) (finish_transaction-Delivered x now q result j h).0 ∙ known

pub run-IsReceived :
    (x : Encoding) (id digest : ℕ) (calls : List Call) (j : Journal)
    → IsReceived id digest j
    → IsReceived id digest (run x calls j)
unfolding run
run-IsReceived x id digest [] j known = known
run-IsReceived x id digest (c ∷ cs) j known =
    run-IsReceived x id digest cs (step x c j) (step-IsReceived x id digest c j known)

-- The delivery of a request, once it is there.
abbrev pub IsDelivered : ℕ → Delivery → Journal → Type 0
IsDelivered id delivery j = lookup id j.deliveries ≡ some delivery

record_delivery-kept :
    (x : Encoding) (id : ℕ) (delivery : Delivery) (q : HostRequest) (result : JournalResult)
    (ds ds' : Dict Delivery)
    → record_delivery x q result ds ≡ ok ds'
    → lookup id ds ≡ some delivery
    → lookup id ds' ≡ some delivery
unfolding record_delivery
record_delivery-kept x id delivery q result ds ds' h known = ground (
  arith,
  lookup-insert q.request_id id
      (record { request_digest = x.request_digest q; stored = stored_of x result }) ds,
)

begin_finished-IsDelivered :
    (x : Encoding) (id : ℕ) (delivery : Delivery) (q : HostRequest) (j : Journal) (o : Operation)
    {out : Outcome JournalDecision}
    → begin_finished x q j o ≡ ok out
    → IsDelivered id delivery j
    → IsDelivered id delivery out.0
unfolding begin_finished
begin_finished-IsDelivered x id delivery q j o h known =
    let (result, e, h₁) = >>=-eq-ok (stored_result x (is_task_scoped q.authority) o.stored) _ h in
    let (ds, f, h₂) = >>=-eq-ok (record_delivery x q result j.deliveries) _ h₁ in
    let kept = record_delivery-kept x id delivery q result j.deliveries ds f known in ground arith

begin_recorded-IsDelivered :
    (x : Encoding) (id : ℕ) (delivery : Delivery) (q : HostRequest) (j : Journal)
    (o : Option Delivery) {out : Outcome JournalDecision}
    → begin_recorded x q j o ≡ ok out
    → IsDelivered id delivery j
    → IsDelivered id delivery out.0
unfolding begin_recorded begin_delivered begin_operation begin_existing
begin_recorded-IsDelivered x id delivery q j (some d) h known = ground arith
begin_recorded-IsDelivered x id delivery q j none {out} h known =
    elim (Option-cases (find_operation q j.operations)) [
      | inl e ↦ ground arith
      | inr (o, e) ↦
          let kept = begin_finished-IsDelivered x id delivery q j o {out = out} in
          ground (arith, kept)
    ]

step-IsDelivered :
    (x : Encoding) (id : ℕ) (delivery : Delivery) (c : Call) (j : Journal)
    → IsDelivered id delivery j
    → IsDelivered id delivery (step x c j)
unfolding step begin finish begin_transaction finish_transaction
step-IsDelivered x id delivery (begins now q) j known =
    settle_ind (IsDelivered id delivery) j (begin_transaction x now q j) known λ out h.
      let (fences, f, h₁) = >>=-eq-ok (apply_fence now q.authority j.fences) _ h in
      let (receipts, r, h₂) =
        >>=-eq-ok
          (check_receipt q.request_id (x.request_digest q) (lookup q.request_id j.receipts)
            j.receipts)
          _ h₁ in
      begin_recorded-IsDelivered x id delivery q (record j { fences = fences; receipts = receipts })
        (lookup q.request_id j.deliveries) h₂ known
step-IsDelivered x id delivery (finishes now q result) j known =
    settle_ind (IsDelivered id delivery) j (finish_transaction x now q result j) known λ out h.
      let (u, a, h₁) = >>=-eq-ok (assert_current_fence now q.authority j.fences) _ h in
      elim (Option-cases (finish_operation x q result j.operations)) [
        | inl n ↦ ground arith
        | inr (os, e) ↦
            let (ds, f, h₂) = >>=-eq-ok (record_delivery x q result j.deliveries) _ (rw e at h₁) in
            let kept = record_delivery-kept x id delivery q result j.deliveries ds f known in
            ground arith
      ]

pub run-IsDelivered :
    (x : Encoding) (id : ℕ) (delivery : Delivery) (calls : List Call) (j : Journal)
    → IsDelivered id delivery j
    → IsDelivered id delivery (run x calls j)
unfolding run
run-IsDelivered x id delivery [] j known = known
run-IsDelivered x id delivery (c ∷ cs) j known =
    run-IsDelivered x id delivery cs (step x c j) (step-IsDelivered x id delivery c j known)
