-- ===== src/TaskMachine/Engine.antt =====
-- services/control-plane/src/mathews_control_plane/task_state_machine.py:
-- `evaluate_task_transition`, with the ladder of its `elif`s as a function by clauses.
use mathews.Errors.{
  TransitionError, terminal_task, already_escalated, resume_refused, steering_refused, not_allowed,
}
use mathews.Common.{
  Bool, true, false, not, ◌&&◌, ◌||◌, Option, none, some, Text, Result, ok, err, ◌>>=◌, ◌>>◌, guard,
  if◌then◌else◌, is_some,
}
use mathews.TaskMachine.{
  TaskState, intake, briefing, brief_pending_approval, implementing, validating, repairing,
  pr_active, ready_for_human_merge, handed_off, escalated, failed, cancelled, is_state, is_terminal,
  is_steerable, TaskTransitionKind, start_briefing, auto_accept_brief, request_brief_approval,
  revise_brief, approve_exact_brief, begin_validation, begin_repair, revalidate,
  open_verified_draft_pr, mark_merge_ready, invalidate_readiness, acknowledge_handoff, escalate,
  resume, cancel, fail, scope_steer, outcome_handed_off, outcome_failed, outcome_cancelled,
  DraftPrGateFacts, ReadinessGateFacts, TaskTransitionGuards, TaskTransitionSnapshot,
  TaskTransitionPlan, verified_draft_head, readiness_head, basic_plan,
}

-- The `elif` ladder from `START_BRIEFING` on: whether the edge is valid, and its target.
unfoldable pub ladder : TaskTransitionKind → TaskState → TaskTransitionGuards → Bool × TaskState
ladder start_briefing current guards = (is_state current intake, briefing)
ladder auto_accept_brief current guards =
    (is_state current briefing && guards.brief_policy_bypass_authorized, implementing)
ladder request_brief_approval current guards =
    (is_state current briefing && guards.brief_approval_required, brief_pending_approval)
ladder revise_brief current guards =
    (is_state current brief_pending_approval && is_some guards.brief_revision_request_id, briefing)
ladder approve_exact_brief current guards =
    (is_state current brief_pending_approval && guards.exact_brief_human_approval, implementing)
ladder begin_validation current guards = (is_state current implementing, validating)
ladder begin_repair current guards = (
  (is_state current validating || is_state current pr_active) && guards.repair_authorized,
  repairing,
)
ladder revalidate current guards = (is_state current repairing, validating)
ladder open_verified_draft_pr current guards =
    (is_state current validating && is_some guards.draft_pr, pr_active)
ladder mark_merge_ready current guards =
    (is_state current pr_active && is_some guards.readiness, ready_for_human_merge)
ladder invalidate_readiness current guards =
    (is_state current ready_for_human_merge && guards.readiness_invalidation_current, pr_active)
ladder acknowledge_handoff current guards = (
  is_state current ready_for_human_merge
      && guards.human_handoff_acknowledged
      && is_some guards.readiness,
  handed_off,
)
ladder _ current guards = (false, current)

unfoldable pub draft_gate_head : Option DraftPrGateFacts → Result TransitionError (Option Text)
draft_gate_head none = err not_allowed
draft_gate_head (some facts) = do head ← verified_draft_head facts; ok (some head)

unfoldable pub readiness_gate_head :
    TaskTransitionSnapshot → Option ReadinessGateFacts → Result TransitionError (Option Text)
readiness_gate_head snapshot none = err not_allowed
readiness_gate_head snapshot (some facts) = do head ← readiness_head snapshot facts; ok (some head)

-- `gate_head`, by the kind.
unfoldable pub gate_head :
    TaskTransitionKind
    → TaskTransitionSnapshot
    → TaskTransitionGuards
    → Result TransitionError (Option Text)
gate_head open_verified_draft_pr snapshot guards = draft_gate_head guards.draft_pr
gate_head mark_merge_ready snapshot guards = readiness_gate_head snapshot guards.readiness
gate_head acknowledge_handoff snapshot guards = readiness_gate_head snapshot guards.readiness
gate_head _ snapshot guards = ok none

-- `1 if kind is BEGIN_REPAIR else 0`
abbrev pub is_repair : TaskTransitionKind → Bool
is_repair begin_repair = true
is_repair _ = false

unfoldable pub ordinary_transition :
    TaskTransitionKind
    → TaskTransitionSnapshot
    → TaskTransitionGuards
    → Result TransitionError TaskTransitionPlan
ordinary_transition kind snapshot guards =
    let (valid, target) = ladder kind snapshot.state guards in
    do
      guard valid not_allowed
      head ← gate_head kind snapshot guards
      ok (record (basic_plan snapshot kind target) {
        terminal_outcome = if is_state target handed_off then some outcome_handed_off else none;
        gate_head_sha = head;
        retry_delta = if is_repair kind then 1 else 0;
      })

-- `target is None or target in _TERMINAL_STATES or target is ESCALATED`, negated.
unfoldable pub resume_plan :
    TaskTransitionSnapshot
    → TaskTransitionGuards
    → Option TaskState
    → Result TransitionError TaskTransitionPlan
resume_plan snapshot guards none = err resume_refused
resume_plan snapshot guards (some target) = do
  guard
      (is_state snapshot.state escalated
        && not (is_terminal target)
        && not (is_state target escalated)
        && is_some guards.resume_decision_id
        && guards.resume_decision_current
        && guards.resume_preconditions_rechecked)
      resume_refused
  ok (basic_plan snapshot resume target)

-- What stands behind the test for a terminal state.
unfoldable pub active_transition :
    TaskTransitionKind
    → TaskTransitionSnapshot
    → TaskTransitionGuards
    → Result TransitionError TaskTransitionPlan
active_transition cancel snapshot guards =
    ok (record (basic_plan snapshot cancel cancelled) { terminal_outcome = some outcome_cancelled })
active_transition fail snapshot guards =
    ok (record (basic_plan snapshot fail failed) { terminal_outcome = some outcome_failed })
active_transition escalate snapshot guards =
    if is_state snapshot.state escalated
    then err already_escalated
    else ok (record (basic_plan snapshot escalate escalated) {
      escalation_resume_state = some snapshot.state;
    })
active_transition resume snapshot guards =
    resume_plan snapshot guards snapshot.escalation_resume_state
active_transition scope_steer snapshot guards = do
  guard
      (is_steerable snapshot.state
        && guards.work_fence_verified
        && guards.scope_decisions_invalidated)
      steering_refused
  ok (record (basic_plan snapshot scope_steer briefing) { invalidate_scope_bindings = true })
active_transition kind snapshot guards = ordinary_transition kind snapshot guards

-- `evaluate_task_transition`
unfoldable pub evaluate_task_transition :
    TaskTransitionSnapshot
    → TaskTransitionKind
    → TaskTransitionGuards
    → Result TransitionError TaskTransitionPlan
evaluate_task_transition snapshot kind guards =
    if is_terminal snapshot.state then err terminal_task else active_transition kind snapshot guards
