-- ===== src/Journal.antt =====
-- services/host-agent/src/mathews_host_agent/journal.py: the durable journal of host operations,
-- over the request messages of
-- libraries/configuration/src/mathews_configuration/host_protocol.py.
--
-- A table is a list of rows. UUIDs, worker and repository names, digests, operation names,
-- idempotency keys and JSON documents are only compared, so they are numbers; an operation's code is
-- a text. The columns that hold times of day for the record, which nothing reads back, are left out.
pub mod Fencing
pub mod Operations
pub mod Calls
pub mod FenceLaws
pub mod Trace
pub mod Superseded
pub mod Once
pub mod Received
pub mod Replay
use mathews.Common.Dict.{Dict}
use mathews.Common.{ℕ, Bool, Option, List, Text}

-- `TaskLeaseHostAuthority`
pub record TaskLease : Type 0 where
  pub task_id : ℕ
  pub job_id : ℕ
  pub lease_id : ℕ
  pub worker_id : ℕ
  pub attempt : ℕ
  pub fencing_token : ℕ
  pub lease_expires_at_ms : ℕ
  pub repository_key : ℕ
  pub configuration_id : ℕ
  pub configuration_digest : ℕ

-- `HostAuthority`: `SystemHostAuthority`, `RepositoryHostAuthority` with its key, configuration and
-- digest, and `TaskLeaseHostAuthority`.
pub data Authority : Type 0 where
  system : Authority
  repository : ℕ → ℕ → ℕ → Authority
  task_lease : TaskLease → Authority

-- `HostRequestMessage` with its `HostOperation`.
pub record HostRequest : Type 0 where
  pub request_id : ℕ
  pub issued_at_ms : ℕ
  pub expires_at_ms : ℕ
  pub authority : Authority
  pub operation_name : ℕ
  pub idempotency_key : ℕ
  pub arguments : ℕ

-- `HostResponseStatus`
pub data ResponseStatus : Type 0 where
  status_ok status_rejected status_ambiguous : ResponseStatus

-- `JournalResult`; `result` is a JSON object.
pub record JournalResult : Type 0 where
  pub status : ResponseStatus
  pub code : Text
  pub result : ℕ
  pub execution_fencing_token : Option ℕ

-- `JournalDecision`: only a replay has a stored result.
pub data JournalDecision : Type 0 where
  execute : JournalDecision
  replay : JournalResult → JournalDecision
  ambiguous : JournalDecision

-- The codes of `HostJournalError`.
pub data JournalError : Type 0 where
  request_id_conflict idempotency_conflict lease_expired fenced : JournalError
  authority_conflict fencing_token_conflict operation_not_reserved : JournalError
  journal_corrupt journal_unavailable : JournalError

-- The text that `_scope_key` makes. A repository key holds no colon, so the texts of two scopes
-- differ where the scopes do.
pub data Scope : Type 0 where
  system_scope : Scope
  repository_scope : ℕ → ℕ → ℕ → Scope
  job_scope : ℕ → Scope

-- A row of `job_fences`, whose key is the job.
pub record Fence : Type 0 where
  pub task_id : ℕ
  pub lease_id : ℕ
  pub worker_id : ℕ
  pub attempt : ℕ
  pub fencing_token : ℕ
  pub lease_expires_at_ms : ℕ
  pub repository_key : ℕ
  pub configuration_id : ℕ
  pub configuration_digest : ℕ

-- The columns `status`, `code`, `result_json` and `execution_fencing_token`.
pub record StoredResult : Type 0 where
  pub status : ResponseStatus
  pub code : Text
  pub result_json : ℕ
  pub execution_fencing_token : Option ℕ

pub data OperationState : Type 0 where
  running succeeded failed_state : OperationState

-- A row of `operations`. Its result columns are NULL until it is finished.
pub record Operation : Type 0 where
  pub scope_key : Scope
  pub operation_name : ℕ
  pub idempotency_key : ℕ
  pub semantic_fingerprint : ℕ
  pub request_id : ℕ
  pub state : OperationState
  pub stored : Option StoredResult

-- A row of `deliveries`, whose key is the request.
pub record Delivery : Type 0 where
  pub request_digest : ℕ
  pub stored : StoredResult

pub record Journal : Type 0 where
  pub fences : Dict Fence
  pub receipts : Dict ℕ
  pub deliveries : Dict Delivery
  pub operations : List Operation

-- What `_semantic_authority` leaves of an authority: without the five fields of the lease.
pub data SemanticAuthority : Type 0 where
  semantic_system : SemanticAuthority
  semantic_repository : ℕ → ℕ → ℕ → SemanticAuthority
  semantic_task : ℕ → ℕ → ℕ → ℕ → ℕ → SemanticAuthority

-- JSON text and hashes: `_request_digest`, the hash of `semantic_fingerprint`, `_encode_result`, and
-- `json.loads` with the checks of `_stored_result` on the document, which give nothing where they
-- raise.
pub record Encoding : Type 0 where
  pub request_digest : HostRequest → ℕ
  pub semantic_digest : SemanticAuthority → ℕ → ℕ → ℕ → ℕ
  pub encode_result : ℕ → ℕ
  pub load_result : ℕ → Option ℕ
