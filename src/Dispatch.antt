-- ===== src/Dispatch.antt =====
-- services/host-agent/src/mathews_host_agent/dispatch.py: `HostRequestDispatcher` over the journal of
-- host operations, with `verify_request` of
-- libraries/configuration/src/mathews_configuration/host_protocol.py.
--
-- A handler acts on the host through its context only. It is a tree of what it does: an effect, then
-- what it does with the outcome, up to a result or an exception. What it reads is not represented. At each
-- point where the dispatcher reads the clock, `Moment` holds the time and the calls that other
-- requests have made on the journal since the point before. The lock of a job keeps calls of
-- the same job out of some of these points; the model allows them. The host's id and version, which a
-- response repeats, and the checks of a response's form are left out.
pub mod Context
pub mod Dispatcher
pub mod Reaching
pub mod Promises
pub mod Reached
pub mod Runs
pub mod Again
use mathews.Common.{ℕ, Bool, Option, List, Text, Result}
use mathews.Common.Dict.{Dict}
use mathews.Journal.{HostRequest, ResponseStatus, JournalError, Journal}
use mathews.Journal.Trace.{Call}

-- `HostAuthorityKind`
pub data AuthorityKind : Type 0 where
  kind_system kind_repository kind_task_lease : AuthorityKind

-- What a handler can raise: `HostEffectAmbiguous` with a result, `HostOperationRejected` with a code,
-- `HostJournalError`, and any other exception.
pub data Stop : Type 0 where
  effect_ambiguous : ℕ → Stop
  operation_rejected : Text → Stop
  journal_error : JournalError → Stop
  operation_failed : Stop

-- The time, and the calls of others since the moment before.
pub record Moment : Type 0 where
  pub now : ℕ
  pub others : List Call

-- `perform_authorized_effect`, `perform_staged_authorized_effect` and
-- `perform_renewable_authorized_effect`
pub data EffectKind : Type 0 where
  authorized staged renewable : EffectKind

-- An effect on the host: whether it says that it starts, what it raises, and a result.
pub record Effect : Type 0 where
  pub kind : EffectKind
  pub marks_attempted : Bool
  pub raised : Option Stop
  pub result : ℕ
  pub before : Moment
  pub after : Moment

pub data Handler : Type 0 where
  returns : ℕ → Handler
  raises : Stop → Handler
  performs : Effect → (Result Stop ℕ → Handler) → Handler

-- `HostOperationDefinition`. `validate` gives the arguments, `some` code of a rejection, or `none` for
-- another exception.
pub record HostOperationDefinition : Type 0 where
  pub authority : AuthorityKind
  pub validate : ℕ → Result (Option Text) ℕ
  pub handle : ℕ → Handler
  pub mutates_host : Bool

-- The codes that the dispatcher writes itself.
pub data Literal : Type 0 where
  code_ok code_operation_ambiguous code_operation_not_allowlisted : Literal
  code_authority_not_allowed code_invalid_arguments : Literal
  code_authorization_guard_required code_operation_failed : Literal

-- The text of a code and of a journal error, the empty document, and
-- `normalize_host_json_object`, which gives nothing where it raises.
pub record Documents : Type 0 where
  pub literal : Literal → Text
  pub journal_code : JournalError → Text
  pub empty : ℕ
  pub normalize : ℕ → Option ℕ

-- `HostResponseMessage`
pub record HostResponse : Type 0 where
  pub request_id : ℕ
  pub operation_name : ℕ
  pub idempotency_key : ℕ
  pub status : ResponseStatus
  pub code : Text
  pub replayed : Bool
  pub completed_at_ms : ℕ
  pub execution_fencing_token : Option ℕ
  pub result : ℕ

-- `HostProtocolError`: of `verify_request`, and of a result that is no JSON object.
pub data ProtocolError : Type 0 where
  unauthenticated request_expired lease_has_expired message_invalid : ProtocolError

-- `HostOperationContext`, with the journal.
pub record HostOperationContext : Type 0 where
  pub journal : Journal
  pub authorized_effects : ℕ
  pub effect_attempted : Bool

-- The moments of a dispatch: when the request is verified, begun, finished and answered.
pub record Moments : Type 0 where
  pub verified : ℕ
  pub begun : ℕ
  pub finished : Moment
  pub answered : ℕ
