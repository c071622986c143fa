-- ===== src/Dispatch/Runs.antt =====
-- Sequences of dispatches, and the handler of an operation in them.
use mathews.Common.{
  ℕ, arith, ◌≡◌, refl, sym, ap, ◌∙◌, true, false, is_some, ==_refl, List, [], ◌∷◌, Result, ok, err,
  inl, inr,
}
use mathews.Journal.{
  HostRequest, JournalDecision, execute, replay, ambiguous, JournalError, Journal, Operation,
  Encoding, Scope, system_scope, repository_scope, job_scope,
}
use mathews.Journal.Calls.{begin}
use mathews.Journal.Operations.{is_row_of, reservation, scope_key, scope_eq, find_operation}
use mathews.Journal.Trace.{Call, step, run}
use mathews.Journal.Once.{is_execute, is_known, begin-Started, step-known}
use mathews.Dispatch.{Handler, HostOperationDefinition, Documents, Moments}
use mathews.Dispatch.Dispatcher.{dispatch_decided, dispatch_validated}
use mathews.Dispatch.Reached.{
  Reached, Reached-trans, dispatch_decided-Reached, dispatch_validated-begins,
}

-- A request that is dispatched, after calls of others on the journal.
pub record Dispatched : Type 0 where
  pub others : List Call
  pub request : HostRequest
  pub moments : Moments
  pub definition : HostOperationDefinition
  pub arguments : ℕ

module _ (x : Encoding) (d : Documents) where
  -- The journal after a dispatch.
  abbrev pub dispatched : Dispatched → Journal → Journal
  dispatched s j =
      (dispatch_validated x d s.request s.moments s.definition s.arguments (run x s.others j)).0

  -- The journal after dispatches, one after the other.
  abbrev pub all_dispatched : List Dispatched → Journal → Journal
  all_dispatched [] j = j
  all_dispatched (s ∷ ss) j = all_dispatched ss (dispatched s j)

scope_eq_refl : (s : Scope) → scope_eq s s ≡ true
unfolding scope_eq
scope_eq_refl system_scope = refl
scope_eq_refl (repository_scope a b c) = ground (arith, ==_refl a, ==_refl b, ==_refl c)
scope_eq_refl (job_scope a) = ==_refl a

module _ (x : Encoding) (d : Documents) where
  all_dispatched-Reached :
      (ss : List Dispatched) (j : Journal) → Reached x j (all_dispatched x d ss j)
  unfolding run
  all_dispatched-Reached [] j = ([], refl)
  all_dispatched-Reached (s ∷ ss) j =
      let (rest, e) =
        dispatch_validated-begins x s.request d s.moments s.definition s.arguments
          (run x s.others j) in
      Reached-trans x s.request d j (run x s.others j) _ (s.others, refl)
        (Reached-trans x s.request d (run x s.others j) (dispatched x d s j) _ (_ ∷ rest, e)
          (all_dispatched-Reached ss (dispatched x d s j)))

  -- An operation that the journal holds stays there.
  run-known :
      (r : HostRequest) (calls : List Call) (j : Journal)
      → is_known r j ≡ true
      → is_known r (run x calls j) ≡ true
  unfolding run
  run-known r [] j known = known
  run-known r (c ∷ cs) j known =
      run-known r cs (step x c j) (ground (arith, step-known x r c j, known))

  -- One that was begun is there.
  begin-known :
      (r : HostRequest) (now : ℕ) (j : Journal)
      → (begin x now r j).1 ≡ ok execute
      → is_known r (begin x now r j).0 ≡ true
  unfolding find_operation is_row_of reservation
  begin-known r now j h = elim (begin-Started x now r j) [
    | inr s ↦ absurd (ground arith)
    | inl s ↦ ground (
      arith,
      s.2,
      scope_eq_refl (scope_key r.authority),
      ==_refl r.operation_name,
      ==_refl r.idempotency_key,
    )
  ]

  dispatched-known :
      (s : Dispatched) (j : Journal)
      → (begin x s.moments.begun s.request (run x s.others j)).1 ≡ ok execute
      → is_known s.request (dispatched x d s j) ≡ true
  unfolding dispatch_validated
  dispatched-known s j h =
      let begun = begin x s.moments.begun s.request (run x s.others j) in
      let (rest, e) =
        dispatch_decided-Reached x s.request d s.moments s.definition s.arguments begun.0 begun.1 in
      ap (is_known s.request) e
      ∙ run-known s.request rest begun.0
          (begin-known s.request s.moments.begun (run x s.others j) h)

  -- Without an order to execute, the handler has no part in the answer.
  dispatch_decided-same :
      (q : HostRequest) (m : Moments) (definition : HostOperationDefinition) (handle : ℕ → Handler)
      (arguments : ℕ) (j : Journal) (decided : Result JournalError JournalDecision)
      → is_execute decided ≡ false
      → dispatch_decided x d q m definition arguments j decided
        ≡ dispatch_decided x d q m (record definition { handle = handle }) arguments j decided
  unfolding dispatch_decided
  dispatch_decided-same q m definition handle arguments j (err e) h = refl
  dispatch_decided-same q m definition handle arguments j (ok ambiguous) h = refl
  dispatch_decided-same q m definition handle arguments j (ok (replay result)) h = refl
  dispatch_decided-same q m definition handle arguments j (ok execute) h = cc

  known-same :
      (q : HostRequest) (m : Moments) (definition : HostOperationDefinition) (handle : ℕ → Handler)
      (arguments : ℕ) (j : Journal)
      → is_known q j ≡ true
      → dispatch_validated x d q m definition arguments j
        ≡ dispatch_validated x d q m (record definition { handle = handle }) arguments j
  unfolding dispatch_validated
  known-same q m definition handle arguments j known = elim (begin-Started x m.begun q j) [
    | inl s ↦ absurd (ground arith)
    | inr s ↦
        dispatch_decided-same q m definition handle arguments (begin x m.begun q j).0
          (begin x m.begun q j).1 s.0
  ]

-- The requests name one operation.
pub record SameOperation (r q : HostRequest) : Type 0 where
  pub scope : scope_key q.authority ≡ scope_key r.authority
  pub name : q.operation_name ≡ r.operation_name
  pub key : q.idempotency_key ≡ r.idempotency_key

find_operation_of :
    (r q : HostRequest) (os : List Operation)
    → SameOperation r q
    → find_operation r os ≡ find_operation q os
unfolding find_operation is_row_of
find_operation_of r q [] same = refl
find_operation_of r q (o ∷ os) same =
    rw (same.scope, same.name, same.key) (ground (arith, find_operation_of r q os same))

SameOperation-known :
    (r q : HostRequest) (j : Journal)
    → SameOperation r q
    → is_known r j ≡ true
    → is_known q j ≡ true
SameOperation-known r q j same known =
    ap (λ o. is_some o) (sym (find_operation_of r q j.operations same)) ∙ known

-- Once a dispatch has run its handler, no handler has any part in a later dispatch of the same
-- operation - the scope, the name and the idempotency key of the first - by whatever workers,
-- whatever is dispatched between, whatever those handlers do, and whatever other calls reach
-- the journal before, between and during the dispatches: with any other handler in its place, the answer
-- and the journal are the same.
pub handler_runs_once :
    (x : Encoding) (d : Documents) (first : Dispatched) (ss : List Dispatched) (again : Dispatched)
    (handle : ℕ → Handler) (j : Journal)
    → (begin x first.moments.begun first.request (run x first.others j)).1 ≡ ok execute
    → SameOperation first.request again.request
    → let l = run x again.others (all_dispatched x d ss (dispatched x d first j)) in
      dispatch_validated x d again.request again.moments again.definition again.arguments l
      ≡ dispatch_validated x d again.request again.moments
          (record again.definition { handle = handle })
          again.arguments
          l
handler_runs_once x d first ss again handle j begun same =
    let r = first.request in
    let (calls, f) = all_dispatched-Reached x d ss (dispatched x d first j) in
    let later =
      run-known x d r calls (dispatched x d first j) (dispatched-known x d first j begun) in
    let l = all_dispatched x d ss (dispatched x d first j) in
    let last = run-known x d r again.others l (ap (is_known r) f ∙ later) in
    known-same x d again.request again.moments again.definition handle again.arguments
      (run x again.others l) (SameOperation-known r again.request (run x again.others l) same last)
