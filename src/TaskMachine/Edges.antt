-- ===== src/TaskMachine/Edges.antt =====
-- The transition diagram of a task, written apart from the code: which state each kind of
-- transition leads from and to, and the authority that it needs.
use mathews.Common.{ℕ, ◌≡◌, true, some, Text}
use mathews.TaskMachine.{
  TaskState, intake, briefing, brief_pending_approval, implementing, validating, repairing,
  pr_active, ready_for_human_merge, handed_off, escalated, failed, cancelled, TaskTransitionKind,
  start_briefing, auto_accept_brief, request_brief_approval, revise_brief, approve_exact_brief,
  begin_validation, begin_repair, revalidate, open_verified_draft_pr, mark_merge_ready,
  invalidate_readiness, acknowledge_handoff, escalate, resume, cancel, fail, scope_steer,
  DraftPrGateFacts, ReadinessGateFacts, TaskTransitionGuards, TaskTransitionSnapshot,
}
use mathews.TaskMachine.Gates.{DraftGatePassed, ReadinessGatePassed}

-- A state from which work goes on without a human decision on an escalation.
pub data IsWorking : TaskState → Type 0 where
  at_intake : IsWorking intake
  at_briefing : IsWorking briefing
  at_brief_pending : IsWorking brief_pending_approval
  at_implementing : IsWorking implementing
  at_validating : IsWorking validating
  at_repairing : IsWorking repairing
  at_pr_active : IsWorking pr_active
  at_ready : IsWorking ready_for_human_merge

-- The working states and `escalated`.
pub data IsActive : TaskState → Type 0 where
  working : {s : TaskState} → IsWorking s → IsActive s
  waiting : IsActive escalated

module _ (s : TaskTransitionSnapshot) (g : TaskTransitionGuards) where
  pub data Permits : TaskTransitionKind → TaskState → Type 0 where
    starts : s.state ≡ intake → Permits start_briefing briefing
    bypasses :
        s.state ≡ briefing
        → g.brief_policy_bypass_authorized ≡ true
        → Permits auto_accept_brief implementing
    asks :
        s.state ≡ briefing
        → g.brief_approval_required ≡ true
        → Permits request_brief_approval brief_pending_approval
    revises :
        {id : ℕ}
        → s.state ≡ brief_pending_approval
        → g.brief_revision_request_id ≡ some id
        → Permits revise_brief briefing
    approves :
        s.state ≡ brief_pending_approval
        → g.exact_brief_human_approval ≡ true
        → Permits approve_exact_brief implementing
    validates : s.state ≡ implementing → Permits begin_validation validating
    repairs_run : s.state ≡ validating → g.repair_authorized ≡ true → Permits begin_repair repairing
    repairs_pr : s.state ≡ pr_active → g.repair_authorized ≡ true → Permits begin_repair repairing
    revalidates : s.state ≡ repairing → Permits revalidate validating
    opens :
        {facts : DraftPrGateFacts} {head : Text}
        → s.state ≡ validating
        → g.draft_pr ≡ some facts
        → DraftGatePassed facts head
        → Permits open_verified_draft_pr pr_active
    marks :
        {facts : ReadinessGateFacts} {head : Text}
        → s.state ≡ pr_active
        → g.readiness ≡ some facts
        → ReadinessGatePassed s.verified_pr_head_sha facts head
        → Permits mark_merge_ready ready_for_human_merge
    withdraws :
        s.state ≡ ready_for_human_merge
        → g.readiness_invalidation_current ≡ true
        → Permits invalidate_readiness pr_active
    hands_off :
        {facts : ReadinessGateFacts} {head : Text}
        → s.state ≡ ready_for_human_merge
        → g.human_handoff_acknowledged ≡ true
        → g.readiness ≡ some facts
        → ReadinessGatePassed s.verified_pr_head_sha facts head
        → Permits acknowledge_handoff handed_off
    escalates : IsWorking s.state → Permits escalate escalated
    resumes :
        {t : TaskState} {id : ℕ}
        → s.state ≡ escalated
        → s.escalation_resume_state ≡ some t
        → IsWorking t
        → g.resume_decision_id ≡ some id
        → g.resume_decision_current ≡ true
        → g.resume_preconditions_rechecked ≡ true
        → Permits resume t
    cancels : IsActive s.state → Permits cancel cancelled
    fails : IsActive s.state → Permits fail failed
    steers :
        IsWorking s.state
        → g.work_fence_verified ≡ true
        → g.scope_decisions_invalidated ≡ true
        → Permits scope_steer briefing
