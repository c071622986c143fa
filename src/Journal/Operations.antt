-- ===== src/Journal/Operations.antt =====
-- services/host-agent/src/mathews_host_agent/journal.py: `begin`, `finish`, `status` and what they
-- read and write. A call has the journal and the outcome: what was raised before the commit rolls
-- the journal back.
use mathews.Common.{
  ℕ, ◌^◌, Bool, true, false, not, ◌&&◌, ◌||◌, Option, none, some, List, [], ◌∷◌, Text, Result, ok,
  err, ◌>>=◌, ◌>>◌, guard, ltb, leb, ◌==◌, if◌then◌else◌, is_some, length, all,
}
use mathews.Common.Dict.{Dict, lookup, insert}
use mathews.Journal.{
  Authority, system, repository, task_lease, HostRequest, JournalResult, JournalError,
  request_id_conflict, journal_corrupt, journal_unavailable, Scope, system_scope, repository_scope,
  job_scope, StoredResult, OperationState, running, Operation, Delivery, SemanticAuthority,
  semantic_system, semantic_repository, semantic_task, Encoding,
}

-- `_scope_key`
unfoldable pub scope_key : Authority → Scope
scope_key system = system_scope
scope_key (repository key id digest) = repository_scope key id digest
scope_key (task_lease a) = job_scope a.job_id

unfoldable pub scope_eq : Scope → Scope → Bool
scope_eq system_scope system_scope = true
scope_eq (repository_scope a b c) (repository_scope d e f) = a == d && b == e && c == f
scope_eq (job_scope a) (job_scope b) = a == b
scope_eq _ _ = false

-- `_semantic_authority`
unfoldable pub semantic_authority : Authority → SemanticAuthority
semantic_authority system = semantic_system
semantic_authority (repository key id digest) = semantic_repository key id digest
semantic_authority (task_lease a) =
    semantic_task a.task_id a.job_id a.repository_key a.configuration_id a.configuration_digest

-- `HostRequestMessage.semantic_fingerprint`
unfoldable pub semantic_fingerprint : Encoding → HostRequest → ℕ
semantic_fingerprint x r =
    x.semantic_digest (semantic_authority r.authority) r.operation_name r.idempotency_key
      r.arguments

abbrev is_upper : ℕ → Bool
is_upper c = leb 65 c && leb c 90

abbrev is_code_char : ℕ → Bool
is_code_char c = leb 65 c && leb c 90 || leb 48 c && leb c 57 || c == 95

-- `_ERROR_CODE.fullmatch(value)`, `[A-Z][A-Z0-9_]{0,99}`
unfoldable pub is_error_code : Text → Bool
is_error_code [] = false
is_error_code (c ∷ cs) = is_upper c && all is_code_char cs && leb (length cs) 99

-- `_stored_fencing_token`: NULL, or a positive integer of 63 bits.
unfoldable pub valid_token : Option ℕ → Bool
valid_token none = true
valid_token (some t) = ltb 0 t && ltb t (2 ^ 63)

abbrev pub is_task_scoped : Authority → Bool
is_task_scoped (task_lease a) = true
is_task_scoped _ = false

-- `task_scoped != (token is not None)`, negated.
abbrev pub token_fits : Bool → Option ℕ → Bool
token_fits true (some t) = true
token_fits false none = true
token_fits _ _ = false

abbrev pub with_document : StoredResult → Option ℕ → Result JournalError JournalResult
with_document row none = err journal_corrupt
with_document row (some document) = ok (record {
  status = row.status;
  code = row.code;
  result = document;
  execution_fencing_token = row.execution_fencing_token;
})

-- `_stored_result`; a row whose result columns are NULL has no document to load.
unfoldable pub stored_result :
    Encoding → Bool → Option StoredResult → Result JournalError JournalResult
stored_result x task_scoped none = err journal_corrupt
stored_result x task_scoped (some row) = do
  result ← with_document row (x.load_result row.result_json)
  guard
      (is_error_code row.code
        && valid_token row.execution_fencing_token
        && token_fits task_scoped row.execution_fencing_token)
      journal_corrupt
  ok result

-- The values that `_record_delivery` and the `UPDATE` of `_finish` write.
unfoldable pub stored_of : Encoding → JournalResult → StoredResult
stored_of x r = record {
  status = r.status;
  code = r.code;
  result_json = x.encode_result r.result;
  execution_fencing_token = r.execution_fencing_token;
}

-- `_record_delivery`; a second row for a request breaks the primary key.
unfoldable pub record_delivery :
    Encoding → HostRequest → JournalResult → Dict Delivery → Result JournalError (Dict Delivery)
record_delivery x request result deliveries = do
  guard (not (is_some (lookup request.request_id deliveries))) journal_unavailable
  ok (
      insert request.request_id
        (record { request_digest = x.request_digest request; stored = stored_of x result })
        deliveries)

-- The row is that of the request's scope, operation and idempotency key.
unfoldable pub is_row_of : HostRequest → Operation → Bool
is_row_of request o =
    scope_eq o.scope_key (scope_key request.authority)
    && o.operation_name == request.operation_name
    && o.idempotency_key == request.idempotency_key

unfoldable pub find_operation : HostRequest → List Operation → Option Operation
find_operation request [] = none
find_operation request (o ∷ os) = if is_row_of request o then some o else find_operation request os

abbrev pub is_running : OperationState → Bool
is_running running = true
is_running _ = false

-- The receipt of the request: its digest is recorded once, and compared after.
unfoldable pub check_receipt : ℕ → ℕ → Option ℕ → Dict ℕ → Result JournalError (Dict ℕ)
check_receipt id digest none receipts = ok (insert id digest receipts)
check_receipt id digest (some recorded) receipts = do
  guard (recorded == digest) request_id_conflict
  ok receipts

-- The new row of `operations`.
unfoldable pub reservation : Encoding → HostRequest → Operation
reservation x request = record {
  scope_key = scope_key request.authority;
  operation_name = request.operation_name;
  idempotency_key = request.idempotency_key;
  semantic_fingerprint = semantic_fingerprint x request;
  request_id = request.request_id;
  state = running;
  stored = none;
}
