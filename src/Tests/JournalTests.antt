-- ===== src/Tests/JournalTests.antt =====
-- The journal of host operations on concrete requests.
use mathews.Common.{
  ℕ, zero, suc, ◌+◌, ◌*◌, ◌≤◌, ◌≡◌, refl, none, some, List, [], ◌∷◌, ok, err, arith, leb,
  if◌then◌else◌,
}
use mathews.Common.Dict.{lookup, insert}
use mathews.Journal.{
  TaskLease, task_lease, HostRequest, status_ok, JournalResult, execute, replay, ambiguous,
  idempotency_conflict, operation_not_reserved, lease_expired, fenced, Fence, Journal, Encoding,
}
use mathews.Journal.Fencing.{
  fence_of, renew_fence, supersede_fence, next_fence, apply_fence, assert_row, assert_current_fence,
}
use mathews.Journal.Operations.{
  scope_key, scope_eq, semantic_authority, semantic_fingerprint, is_error_code, valid_token,
  stored_result, stored_of, record_delivery, is_row_of, find_operation, check_receipt, reservation,
}
use mathews.Journal.Calls.{
  begin_delivered, begin_finished, begin_existing, begin_operation, begin_recorded,
  begin_transaction, begin, is_reserved, finish_operation, finish_transaction, finish,
  assert_authorized,
}
use mathews.Journal.FenceLaws.{Advances}
use mathews.Journal.Trace.{Call, begins, finishes, step, run}
use mathews.Journal.Superseded.{run-Advances, superseded_stays_out}
use mathews.Journal.Once.{is_known, executions, executes_once}
use mathews.Journal.Replay.{IsStorable, begin-finish}

abbrev plain : Encoding
plain = record {
  request_digest = λ r. r.request_id * 100 + r.arguments;
  semantic_digest = λ a name key arguments. name * 10000 + key * 100 + arguments;
  encode_result = λ d. d + 1;
  load_result = λ t. elim t [ zero ↦ none | suc d ↦ some d ];
}

abbrev lease : ℕ → ℕ → TaskLease
lease token expires = record {
  task_id = 7;
  job_id = 1;
  lease_id = 500 + token;
  worker_id = 3;
  attempt = token;
  fencing_token = token;
  lease_expires_at_ms = expires;
  repository_key = 5;
  configuration_id = 6;
  configuration_digest = 8;
}

-- Request `id` under a lease, for the operation with idempotency key 9.
abbrev request : ℕ → TaskLease → HostRequest
request id a = record {
  request_id = id;
  issued_at_ms = 100;
  expires_at_ms = 200;
  authority = task_lease a;
  operation_name = 2;
  idempotency_key = 9;
  arguments = 4;
}

abbrev first : HostRequest
first = request 41 (lease 1 300)

abbrev second : HostRequest
second = request 42 (lease 2 400)

abbrev empty : Journal
empty = record { fences = []; receipts = []; deliveries = []; operations = [] }

-- All that a run computes with.
computes : ℕ
unfolding begin begin_transaction begin_recorded begin_delivered begin_operation begin_existing
    begin_finished finish finish_transaction finish_operation is_reserved assert_authorized
    apply_fence next_fence renew_fence supersede_fence fence_of assert_current_fence assert_row
    scope_key scope_eq semantic_authority semantic_fingerprint is_error_code valid_token
    stored_result stored_of record_delivery is_row_of find_operation check_receipt reservation step
    run lookup insert
computes = 0

abbrev done : JournalResult
done = record {
  status = status_ok;
  code = 79 ∷ 75 ∷ [];
  result = 77;
  execution_fencing_token = some 1;
}

abbrev reserved : Journal
reserved = (begin plain 150 first empty).0

abbrev finished : Journal
finished = (finish plain 160 first done reserved).0

first_executes : (begin plain 150 first empty).1 ≡ ok execute
unfolding computes
first_executes = refl

running_is_ambiguous : (begin plain 155 second reserved).1 ≡ ok ambiguous
unfolding computes
running_is_ambiguous = refl

late_finish_refused : (finish plain 300 first done reserved).1 ≡ err lease_expired
unfolding computes
late_finish_refused = refl

second_finish_refused : (finish plain 165 first done finished).1 ≡ err operation_not_reserved
unfolding computes
second_finish_refused = refl

finished_is_replayed : (begin plain 170 second finished).1 ≡ ok (replay done)
unfolding computes
finished_is_replayed = refl

other_arguments_refused :
    (begin plain 170 (record (request 43 (lease 1 300)) { arguments = 5 }) finished).1
    ≡ err idempotency_conflict
unfolding computes
other_arguments_refused = refl

abbrev calls : List Call
calls = begins 150 first ∷ begins 155 second ∷ finishes 160 first done ∷ begins 170 second ∷ []

executes_once_example :
    executions plain first calls empty + (if is_known first empty then 1 else 0) ≤ 1
executes_once_example = executes_once plain first calls empty

one_execution : executions plain first calls empty ≡ 1
unfolding computes
one_execution = refl

abbrev superseded : Journal
superseded = (begin plain 155 second reserved).0

superseded_stays_out_example :
    let j = run plain calls superseded in
    (assert_authorized 180 first j ≡ err fenced)
    × (finish plain 180 first done j ≡ (j, err fenced))
    × (begin plain 180 first j ≡ (j, err (if leb 300 180 then lease_expired else fenced)))
superseded_stays_out_example =
    superseded_stays_out plain calls superseded first (lease 1 300) (fence_of (lease 2 400)) done
      180 refl (unfold computes in refl) (unfold fence_of in omega arith)

run-Advances_example :
    (row : Fence) × (lookup 1 (run plain calls reserved).fences ≡ some row)
    × Advances (fence_of (lease 1 300)) row
unfolding computes
run-Advances_example = run-Advances plain calls reserved 1 (fence_of (lease 1 300)) refl

done-IsStorable : IsStorable plain first done
unfolding computes
done-IsStorable = record { document = refl; code = refl; token = refl; scoped = refl }

-- Another request for the same operation, and the first one again.
abbrev after_finish : List Call
after_finish = begins 165 (request 43 (lease 1 300)) ∷ begins 166 first ∷ []

begin-finish_example : begin plain 170 first (run plain after_finish finished) ≡ (
  record (run plain after_finish finished) { fences = (run plain after_finish finished).fences },
  ok (replay done),
)
unfolding computes
begin-finish_example =
    begin-finish plain 160 170 first done reserved finished after_finish
      (run plain after_finish finished).fences done-IsStorable refl refl refl
