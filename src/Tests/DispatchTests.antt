-- ===== src/Tests/DispatchTests.antt =====
-- Requests that are dispatched.
use mathews.Common.{
  ℕ, zero, suc, ◌+◌, ◌*◌, ◌≡◌, refl, Bool, true, false, none, some, [], ◌∷◌, Result, ok, err, ◌<◌,
  length,
}
use mathews.Common.Dict.{lookup, insert}
use mathews.Journal.{
  TaskLease, task_lease, HostRequest, status_ok, status_rejected, Journal, Encoding,
}
use mathews.Journal.Fencing.{
  fence_of, renew_fence, supersede_fence, next_fence, apply_fence, assert_row, assert_current_fence,
}
use mathews.Journal.Operations.{
  scope_key, scope_eq, semantic_authority, semantic_fingerprint, is_error_code, valid_token,
  stored_result, stored_of, record_delivery, is_row_of, find_operation, check_receipt, reservation,
}
use mathews.Journal.Calls.{
  begin_delivered, begin_finished, begin_existing, begin_operation, begin_recorded,
  begin_transaction, begin, is_reserved, finish_operation, finish_transaction, finish,
  assert_authorized,
}
use mathews.Journal.Trace.{begins, step, run}
use mathews.Dispatch.{
  kind_task_lease, Stop, operation_rejected, Moment, authorized, staged, Effect, Handler, returns,
  raises, performs, HostOperationDefinition, Documents, HostResponse, Moments, request_expired,
}
use mathews.Dispatch.Context.{
  new_context, after_effect, attempt, perform_under_guard, perform, run_handler,
}
use mathews.Dispatch.Dispatcher.{
  verify_request, signed_response, ambiguous_response, journal_result, conclude, execute_handler,
  dispatch_decided, dispatch_validated, dispatch_defined, dispatch,
}
use mathews.Common.Queries.{All}
use mathews.Dispatch.Reaching.{IsUnmarked, started, completed}
use mathews.Dispatch.Promises.{rejected_before_effect, ok_after_effect}
use mathews.Dispatch.Runs.{Dispatched, all_dispatched, handler_runs_once}
use mathews.Dispatch.Again.{dispatch_again}

computes : ℕ
unfolding begin begin_transaction begin_recorded begin_delivered begin_operation begin_existing
    begin_finished finish finish_transaction finish_operation is_reserved assert_authorized
    apply_fence next_fence renew_fence supersede_fence fence_of assert_current_fence assert_row
    scope_key scope_eq semantic_authority semantic_fingerprint is_error_code valid_token
    stored_result stored_of record_delivery is_row_of find_operation check_receipt reservation step
    run lookup insert after_effect attempt perform_under_guard perform run_handler verify_request
    signed_response ambiguous_response journal_result conclude execute_handler dispatch_decided
    dispatch_validated dispatch_defined dispatch
computes = 0

abbrev encoding : Encoding
encoding = record {
  request_digest = λ r. r.request_id * 100 + r.arguments;
  semantic_digest = λ a name key arguments. name * 10000 + key * 100 + arguments;
  encode_result = λ d. d + 1;
  load_result = λ t. elim t [ zero ↦ none | suc d ↦ some d ];
}

-- Every code is the text OK.
abbrev documents : Documents
documents = record {
  literal = λ c. 79 ∷ 75 ∷ [];
  journal_code = λ e. 79 ∷ 75 ∷ [];
  empty = 0;
  normalize = λ d. some d;
}

abbrev lease : ℕ → TaskLease
lease token = record {
  task_id = 7;
  job_id = 1;
  lease_id = 500 + token;
  worker_id = 3;
  attempt = token;
  fencing_token = token;
  lease_expires_at_ms = 300;
  repository_key = 5;
  configuration_id = 6;
  configuration_digest = 8;
}

abbrev request : ℕ → ℕ → HostRequest
request id token = record {
  request_id = id;
  issued_at_ms = 100;
  expires_at_ms = 200;
  authority = task_lease (lease token);
  operation_name = 2;
  idempotency_key = 9;
  arguments = 4;
}

abbrev at : ℕ → Moment
at now = record { now = now; others = [] }

abbrev moments : ℕ → Moments
moments now = record { verified = now; begun = now; finished = at (now + 5); answered = now + 6 }

abbrev effect : ℕ → Effect
effect now = record {
  kind = authorized;
  marks_attempted = false;
  raised = none;
  result = 55;
  before = at (now + 2);
  after = at (now + 4);
}

abbrev result_or_stop : Result Stop ℕ → Handler
result_or_stop (ok result) = returns result
result_or_stop (err stop) = raises stop

abbrev definition : ℕ → HostOperationDefinition
definition now = record {
  authority = kind_task_lease;
  validate = λ arguments. ok arguments;
  handle = λ arguments. performs (effect now) result_or_stop;
  mutates_host = true;
}

-- A staged effect that does not mark its start.
abbrev probe : Effect
probe = record (effect 150) { kind = staged }

-- A handler that rejects after it has looked.
abbrev looks : Handler
looks = performs probe (λ _. raises (operation_rejected (66 ∷ [])))

abbrev careful : HostOperationDefinition
careful = record {
  authority = kind_task_lease;
  validate = λ arguments. ok arguments;
  handle = λ arguments. looks;
  mutates_host = true;
}

abbrev empty : Journal
empty = record { fences = []; receipts = []; deliveries = []; operations = [] }

abbrev answered : Bool → ℕ → HostResponse
answered replayed now = record {
  request_id = 41;
  operation_name = 2;
  idempotency_key = 9;
  status = status_ok;
  code = 79 ∷ 75 ∷ [];
  replayed = replayed;
  completed_at_ms = now;
  execution_fencing_token = some 1;
  result = 55;
}

abbrev begun : Journal
begun = (begin encoding 150 (request 41 1) empty).0

abbrev finished : Journal
finished =
    (dispatch_validated encoding documents (request 41 1) (moments 150) (definition 150) 4 empty).0

dispatched_ok :
    (dispatch encoding documents
      (request 41 1)
      (moments 150)
      ((2, definition 150) ∷ [])
      true
      empty).1
    ≡ ok (answered false 156)
unfolding computes
dispatched_ok = refl

expired_request_raises :
    (dispatch encoding documents
      (request 41 1)
      (moments 200)
      ((2, definition 200) ∷ [])
      true
      empty).1
    ≡ err request_expired
unfolding computes
expired_request_raises = refl

abbrev rejection : HostResponse
rejection = record (answered false 156) { status = status_rejected; code = 66 ∷ []; result = 0 }

rejected_before_effect_example :
    All IsUnmarked (started encoding (request 41 1) documents looks (new_context begun))
unfolding computes
rejected_before_effect_example =
    rejected_before_effect encoding documents (request 41 1) (moments 150) careful 4 empty begun
      (dispatch_validated encoding documents (request 41 1) (moments 150) careful 4 empty).0
      rejection refl refl refl

ok_after_effect_example :
    ((result : ℕ) × ((run_handler encoding
          (request 41 1)
          documents
          (performs (effect 150) result_or_stop)
          (new_context begun)).1
        ≡ ok result))
    × (true ≡ true
        → 0
          < length (
              completed encoding
                (request 41 1)
                documents
                (performs (effect 150) result_or_stop)
                (new_context begun)))
unfolding computes
ok_after_effect_example =
    ok_after_effect encoding documents (request 41 1) (moments 150) (definition 150) 4 empty begun
      finished (answered false 156) refl refl refl

-- A request of another operation.
abbrev other_request : ℕ → HostRequest
other_request token = record (request 60 token) { idempotency_key = 10 }

abbrev looking : HostOperationDefinition
looking = record (definition 170) { handle = λ arguments. looks }

abbrev dispatched : ℕ → ℕ → ℕ → Dispatched
dispatched id token now = record {
  others = begins now (other_request token) ∷ [];
  request = request id token;
  moments = moments now;
  definition = definition now;
  arguments = 4;
}

-- The journal before the third dispatch, of a request with the operation of the first.
abbrev later : Journal
later = run encoding (begins 170 (other_request 2) ∷ []) (
    all_dispatched encoding documents (dispatched 42 1 160 ∷ [])
      (dispatch_validated encoding documents (request 41 1) (moments 150) (definition 150) 4
        (run encoding (begins 150 (other_request 1) ∷ []) empty)).0)

handler_runs_once_example :
    dispatch_validated encoding documents (request 43 2) (moments 170) (definition 170) 4 later
    ≡ dispatch_validated encoding documents (request 43 2) (moments 170) looking 4 later
unfolding computes
handler_runs_once_example =
    handler_runs_once encoding documents
      (record (dispatched 41 1 150) { others = begins 150 (other_request 1) ∷ [] })
      (dispatched 42 1 160 ∷ []) (dispatched 43 2 170) (λ arguments. looks) empty refl
      (record { scope = refl; name = refl; key = refl })

-- The journal after calls of another operation of the job.
abbrev much_later : Journal
much_later = run encoding (begins 160 (other_request 1) ∷ begins 165 (request 44 1) ∷ []) finished

dispatch_again_example :
    dispatch_validated encoding documents (request 41 1) (moments 170) (definition 170) 4 much_later
    ≡ (record much_later { fences = much_later.fences }, ok (answered true 176))
unfolding computes
dispatch_again_example =
    dispatch_again encoding documents (request 41 1) (moments 150) (moments 170) (definition 150)
      (definition 170) 4 4 empty begun finished
      (begins 160 (other_request 1) ∷ begins 165 (request 44 1) ∷ []) (answered false 156)
      much_later.fences refl refl (λ h. cc)
      (record { document = refl; code = refl; token = refl; scoped = refl }) refl
