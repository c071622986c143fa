-- ===== src/Dispatch/Dispatcher.antt =====
-- services/host-agent/src/mathews_host_agent/dispatch.py: `HostRequestDispatcher`, with
-- `verify_request`.
use mathews.Common.{
  ℕ, ◌+◌, Bool, true, false, not, ◌&&◌, Option, none, some, Text, leb, ltb, Result, ok, err, ◌>>◌,
  guard, if◌then◌else◌,
}
use mathews.Common.Dict.{Dict, lookup}
use mathews.Journal.{
  Authority, system, repository, task_lease, HostRequest, ResponseStatus, status_ok,
  status_rejected, status_ambiguous, JournalResult, JournalDecision, execute, replay, ambiguous,
  JournalError, Journal, Encoding,
}
use mathews.Journal.Calls.{begin, finish}
use mathews.Journal.Trace.{run}
use mathews.Dispatch.{
  AuthorityKind, kind_system, kind_repository, kind_task_lease, Stop, effect_ambiguous,
  operation_rejected, journal_error, operation_failed, HostOperationDefinition, code_ok,
  code_operation_ambiguous, code_operation_not_allowlisted, code_authority_not_allowed,
  code_invalid_arguments, code_authorization_guard_required, code_operation_failed, Documents,
  HostResponse, ProtocolError, unauthenticated, request_expired, lease_has_expired, message_invalid,
  HostOperationContext, Moments,
}
use mathews.Dispatch.Context.{new_context, run_handler, used_authorized_effect}

-- `MAX_HOST_CLOCK_SKEW_MS`
abbrev pub max_host_clock_skew_ms : ℕ
max_host_clock_skew_ms = 5000

abbrev lease_is_current : ℕ → Authority → Bool
lease_is_current now (task_lease a) = ltb now a.lease_expires_at_ms
lease_is_current now _ = true

-- `verify_request`, where the key and the signature are right or not.
unfoldable pub verify_request : ℕ → Bool → HostRequest → Result ProtocolError (Unit {0})
verify_request now signed request = do
  guard signed unauthenticated
  guard (leb request.issued_at_ms (now + max_host_clock_skew_ms)) request_expired
  guard (ltb now request.expires_at_ms) request_expired
  guard (lease_is_current now request.authority) lease_has_expired

abbrev pub kind_of : Authority → AuthorityKind
kind_of system = kind_system
kind_of (repository _ _ _) = kind_repository
kind_of (task_lease _) = kind_task_lease

abbrev same_kind : AuthorityKind → AuthorityKind → Bool
same_kind kind_system kind_system = true
same_kind kind_repository kind_repository = true
same_kind kind_task_lease kind_task_lease = true
same_kind _ _ = false

-- `_fencing_token`
abbrev pub fencing_token_of : Authority → Option ℕ
fencing_token_of (task_lease a) = some a.fencing_token
fencing_token_of _ = none

-- `_signed_response`, before the signature.
unfoldable pub signed_response : ℕ → HostRequest → Bool → JournalResult → HostResponse
signed_response now request replayed r = record {
  request_id = request.request_id;
  operation_name = request.operation_name;
  idempotency_key = request.idempotency_key;
  status = r.status;
  code = r.code;
  replayed = replayed;
  completed_at_ms = now;
  execution_fencing_token = r.execution_fencing_token;
  result = r.result;
}

abbrev pub plain : ResponseStatus → Text → ℕ → Option ℕ → JournalResult
plain status code result token = record {
  status = status;
  code = code;
  result = result;
  execution_fencing_token = token;
}

-- The journal, and the response or the exception that leaves `dispatch`.
abbrev pub Answer : Type 0
Answer = Journal × Result ProtocolError HostResponse

abbrev pub is_ok : ResponseStatus → Bool
is_ok status_ok = true
is_ok _ = false

module _ (x : Encoding) (d : Documents) (request : HostRequest) where
  abbrev pub rejected_result : Text → JournalResult
  rejected_result code = plain status_rejected code d.empty (fencing_token_of request.authority)

  -- `_ambiguous_response`
  unfoldable pub ambiguous_response : ℕ → ℕ → HostResponse
  ambiguous_response now result =
      signed_response now request false
        (plain status_ambiguous (d.literal code_operation_ambiguous) result none)

  abbrev pub or_failed : Option ℕ → JournalResult
  or_failed none = rejected_result (d.literal code_operation_failed)
  or_failed (some result) =
      plain status_ok (d.literal code_ok) result (fencing_token_of request.authority)

  -- The `try` around the handler: the result for the journal, or an ambiguous result.
  unfoldable pub journal_result :
      Bool → HostOperationContext → Result Stop ℕ → Result ℕ JournalResult
  journal_result mutates_host c (ok result) =
      if mutates_host && not (used_authorized_effect c)
      then ok (rejected_result (d.literal code_authorization_guard_required))
      else ok (or_failed (d.normalize result))
  journal_result mutates_host c (err (effect_ambiguous result)) = err result
  journal_result mutates_host c (err (operation_rejected code)) = ok (rejected_result code)
  journal_result mutates_host c (err (journal_error e)) = ok (rejected_result (d.journal_code e))
  journal_result mutates_host c (err operation_failed) =
      ok (rejected_result (d.literal code_operation_failed))

  abbrev pub ambiguous_answer : ℕ → Option ℕ → Result ProtocolError HostResponse
  ambiguous_answer now none = err message_invalid
  ambiguous_answer now (some result) = ok (ambiguous_response now result)

  abbrev pub finished_answer : ℕ → JournalResult → Journal × Result JournalError (Unit {0}) → Answer
  finished_answer now r (j, ok _) = (j, ok (signed_response now request false r))
  finished_answer now r (j, err e) = (j, ok (ambiguous_response now d.empty))

  -- From the handler's result on.
  unfoldable pub conclude : Moments → HostOperationContext → Result ℕ JournalResult → Answer
  conclude m c (err result) = (c.journal, ambiguous_answer m.answered (d.normalize result))
  conclude m c (ok r) =
      if c.effect_attempted && not (is_ok r.status)
      then (c.journal, ok (ambiguous_response m.answered d.empty))
      else finished_answer m.answered r
          (finish x m.finished.now request r (run x m.finished.others c.journal))

  -- The handler runs, and its outcome is journaled.
  unfoldable pub execute_handler : Moments → HostOperationDefinition → ℕ → Journal → Answer
  execute_handler m definition arguments j =
      let done = run_handler x request d (definition.handle arguments) (new_context j) in
      conclude m done.0 (journal_result definition.mutates_host done.0 done.1)

  unfoldable pub dispatch_decided :
      Moments → HostOperationDefinition → ℕ → Journal → Result JournalError JournalDecision → Answer
  dispatch_decided m definition arguments j (err e) = (
    j,
    ok (
        signed_response m.answered request false
          (plain status_rejected (d.journal_code e) d.empty none)),
  )
  dispatch_decided m definition arguments j (ok ambiguous) =
      (j, ok (ambiguous_response m.answered d.empty))
  dispatch_decided m definition arguments j (ok (replay result)) =
      (j, ok (signed_response m.answered request true result))
  dispatch_decided m definition arguments j (ok execute) = execute_handler m definition arguments j

  -- `_dispatch_validated`
  unfoldable pub dispatch_validated : Moments → HostOperationDefinition → ℕ → Journal → Answer
  dispatch_validated m definition arguments j =
      let begun = begin x m.begun request j in
      dispatch_decided m definition arguments begun.0 begun.1

  abbrev pub invalid : Moments → Text → Journal → Answer
  invalid m code j =
      (j, ok (signed_response m.answered request false (plain status_rejected code d.empty none)))

  abbrev pub code_of : Option Text → Text
  code_of none = d.literal code_invalid_arguments
  code_of (some code) = code

  abbrev pub with_arguments :
      Moments → HostOperationDefinition → Journal → Result (Option Text) ℕ → Answer
  with_arguments m definition j (err code) = invalid m (code_of code) j
  with_arguments m definition j (ok arguments) = dispatch_validated m definition arguments j

  -- With the definition of the operation's name.
  unfoldable pub dispatch_defined : Moments → Journal → Option HostOperationDefinition → Answer
  dispatch_defined m j none = invalid m (d.literal code_operation_not_allowlisted) j
  dispatch_defined m j (some definition) =
      if same_kind definition.authority (kind_of request.authority)
      then with_arguments m definition j (definition.validate request.arguments)
      else invalid m (d.literal code_authority_not_allowed) j

  abbrev pub verified :
      Moments → Dict HostOperationDefinition → Journal → Result ProtocolError (Unit {0}) → Answer
  verified m registry j (err e) = (j, err e)
  verified m registry j (ok _) = dispatch_defined m j (lookup request.operation_name registry)

  -- `dispatch`
  unfoldable pub dispatch : Moments → Dict HostOperationDefinition → Bool → Journal → Answer
  dispatch m registry signed j = verified m registry j (verify_request m.verified signed request)
