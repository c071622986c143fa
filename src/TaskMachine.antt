-- ===== src/TaskMachine.antt =====
-- services/control-plane/src/mathews_control_plane/task_state_machine.py: the pure engine of task
-- transitions (`evaluate_task_transition`) with its gates, over the states of domain_models.py.
--
-- UUIDs are numbers, since the engine only asks whether one is there. Git object ids are texts.
pub mod Engine
pub mod Gates
pub mod Edges
pub mod Diagram
pub mod Plans
use mathews.Errors.{TransitionError, draft_gate, readiness_gate}
use mathews.GitObject.{normalized_git_sha}
use mathews.Common.{
  ℕ, Bool, true, false, not, ◌&&◌, ◌||◌, Option, none, some, Text, Result, ok, err, ◌>>=◌, ◌>>◌,
  guard, ◌==◌, if◌then◌else◌, is_some, text_eq,
}

-- `TaskState` of domain_models.py.
pub data TaskState : Type 0 where
  intake briefing brief_pending_approval implementing validating repairing : TaskState
  pr_active ready_for_human_merge handed_off escalated failed cancelled : TaskState

-- `TaskTerminalOutcome` of domain_models.py.
pub data TaskTerminalOutcome : Type 0 where
  outcome_handed_off outcome_failed outcome_cancelled : TaskTerminalOutcome

-- `TaskTransitionKind`
pub data TaskTransitionKind : Type 0 where
  start_briefing auto_accept_brief request_brief_approval revise_brief : TaskTransitionKind
  approve_exact_brief begin_validation begin_repair revalidate : TaskTransitionKind
  open_verified_draft_pr mark_merge_ready invalidate_readiness : TaskTransitionKind
  acknowledge_handoff escalate resume cancel fail scope_steer : TaskTransitionKind

-- The order of the members, by which `is` compares them.
abbrev state_rank : TaskState → ℕ
state_rank intake = 0
state_rank briefing = 1
state_rank brief_pending_approval = 2
state_rank implementing = 3
state_rank validating = 4
state_rank repairing = 5
state_rank pr_active = 6
state_rank ready_for_human_merge = 7
state_rank handed_off = 8
state_rank escalated = 9
state_rank failed = 10
state_rank cancelled = 11

-- `a is b` on states.
unfoldable pub is_state : TaskState → TaskState → Bool
is_state a b = state_rank a == state_rank b

-- `state in _TERMINAL_STATES`
unfoldable pub is_terminal : TaskState → Bool
is_terminal handed_off = true
is_terminal failed = true
is_terminal cancelled = true
is_terminal _ = false

-- `state in _SCOPE_STEERING_STATES`: active and not escalated.
unfoldable pub is_steerable : TaskState → Bool
unfolding is_terminal is_state
is_steerable s = not (is_terminal s) && not (is_state s escalated)

pub record DraftPrGateFacts : Type 0 where
  pub current_head_sha : Text
  pub validation_commit_sha : Text
  pub local_branch_sha : Text
  pub remote_branch_sha : Text
  pub pull_request_head_sha : Text
  pub validation_passed : Bool
  pub required_artifacts_present : Bool
  pub branch_clean : Bool
  pub pull_request_is_draft : Bool
  pub no_unresolved_approval : Bool
  pub cancellation_clear : Bool

pub record ReadinessGateFacts : Type 0 where
  pub draft_pr : DraftPrGateFacts
  pub required_ci_green : Bool
  pub no_blocking_review : Bool
  pub repairs_authorized : Bool

pub record TaskTransitionGuards : Type 0 where
  pub brief_policy_bypass_authorized : Bool
  pub brief_approval_required : Bool
  pub brief_revision_request_id : Option ℕ
  pub exact_brief_human_approval : Bool
  pub repair_authorized : Bool
  pub draft_pr : Option DraftPrGateFacts
  pub readiness : Option ReadinessGateFacts
  pub readiness_invalidation_current : Bool
  pub human_handoff_acknowledged : Bool
  pub resume_decision_id : Option ℕ
  pub resume_decision_current : Bool
  pub resume_preconditions_rechecked : Bool
  pub work_fence_verified : Bool
  pub scope_decisions_invalidated : Bool

-- `TaskTransitionGuards()`, which `ClosedTaskTransitionGateEvaluator` returns.
unfoldable pub closed_guards : TaskTransitionGuards
closed_guards = record {
  brief_policy_bypass_authorized = false;
  brief_approval_required = false;
  brief_revision_request_id = none;
  exact_brief_human_approval = false;
  repair_authorized = false;
  draft_pr = none;
  readiness = none;
  readiness_invalidation_current = false;
  human_handoff_acknowledged = false;
  resume_decision_id = none;
  resume_decision_current = false;
  resume_preconditions_rechecked = false;
  work_fence_verified = false;
  scope_decisions_invalidated = false;
}

pub record TaskTransitionSnapshot : Type 0 where
  pub state : TaskState
  pub escalation_resume_state : Option TaskState
  pub verified_pr_head_sha : Option Text

pub record TaskTransitionPlan : Type 0 where
  pub from_state : TaskState
  pub to_state : TaskState
  pub kind : TaskTransitionKind
  pub escalation_resume_state : Option TaskState
  pub terminal_outcome : Option TaskTerminalOutcome
  pub gate_head_sha : Option Text
  pub retry_delta : ℕ
  pub invalidate_scope_bindings : Bool

-- `_verified_draft_head`. The set of the four other heads is `{current_head}` when each is.
unfoldable pub verified_draft_head : DraftPrGateFacts → Result TransitionError Text
verified_draft_head facts = do
  current_head ← normalized_git_sha facts.current_head_sha
  validation ← normalized_git_sha facts.validation_commit_sha
  local ← normalized_git_sha facts.local_branch_sha
  remote ← normalized_git_sha facts.remote_branch_sha
  pull_request ← normalized_git_sha facts.pull_request_head_sha
  guard
      (text_eq validation current_head
        && text_eq local current_head
        && text_eq remote current_head
        && text_eq pull_request current_head)
      draft_gate
  guard
      (facts.validation_passed && facts.required_artifacts_present && facts.branch_clean
        && facts.pull_request_is_draft && facts.no_unresolved_approval && facts.cancellation_clear)
      draft_gate
  ok current_head

-- `snapshot.verified_pr_head_sha is None or _normalized_git_sha(…) != current_head`, negated.
unfoldable pub same_verified_head : Option Text → Text → Result TransitionError Bool
same_verified_head none current_head = ok false
same_verified_head (some head) current_head = do
  verified ← normalized_git_sha head
  ok (text_eq verified current_head)

-- `_readiness_head`
unfoldable pub readiness_head :
    TaskTransitionSnapshot → ReadinessGateFacts → Result TransitionError Text
readiness_head snapshot facts = do
  current_head ← verified_draft_head facts.draft_pr
  same ← same_verified_head snapshot.verified_pr_head_sha current_head
  guard (same && facts.required_ci_green && facts.no_blocking_review && facts.repairs_authorized)
      readiness_gate
  ok current_head

-- `_plan` with its default arguments.
unfoldable pub basic_plan :
    TaskTransitionSnapshot → TaskTransitionKind → TaskState → TaskTransitionPlan
basic_plan snapshot kind target = record {
  from_state = snapshot.state;
  to_state = target;
  kind = kind;
  escalation_resume_state = none;
  terminal_outcome = none;
  gate_head_sha = none;
  retry_delta = 0;
  invalidate_scope_bindings = false;
}
