-- ===== src/TaskMachine/Plans.antt =====
-- What an accepted plan says, as a function of the kind and of the state that it leads to.
use mathews.Common.{◌≡◌, refl, Bool, true, false, Option, none, some, ok, arith, if◌then◌else◌}
use mathews.TaskMachine.{
  TaskState, handed_off, escalated, failed, cancelled, is_state, is_terminal, TaskTransitionKind,
  start_briefing, escalate, resume, cancel, fail, scope_steer, TaskTerminalOutcome,
  outcome_handed_off, outcome_failed, outcome_cancelled, TaskTransitionGuards,
  TaskTransitionSnapshot, TaskTransitionPlan, basic_plan,
}
use mathews.TaskMachine.Engine.{
  ladder, ordinary_transition, resume_plan, active_transition, evaluate_task_transition, is_repair,
}

-- The outcome that belongs to a state: none unless it is terminal.
abbrev pub outcome_of : TaskState → Option TaskTerminalOutcome
outcome_of handed_off = some outcome_handed_off
outcome_of failed = some outcome_failed
outcome_of cancelled = some outcome_cancelled
outcome_of _ = none

abbrev is_steering : TaskTransitionKind → Bool
is_steering scope_steer = true
is_steering _ = false

pub record IsPlanFor (s : TaskTransitionSnapshot) (k : TaskTransitionKind) (p : TaskTransitionPlan)
    : Type 0 where
  pub starts_here : p.from_state ≡ s.state
  pub same_kind : p.kind ≡ k
  pub resumes_here :
      p.escalation_resume_state ≡ (if is_state p.to_state escalated then some s.state else none)
  pub outcome : p.terminal_outcome ≡ outcome_of p.to_state
  pub retries : p.retry_delta ≡ (if is_repair k then 1 else 0)
  pub invalidates : p.invalidate_scope_bindings ≡ is_steering k

module _ (s : TaskTransitionSnapshot) (g : TaskTransitionGuards) where
  resume-IsPlanFor :
      (o : Option TaskState) {p : TaskTransitionPlan}
      → resume_plan s g o ≡ ok p
      → IsPlanFor s resume p
  unfolding resume_plan basic_plan is_terminal is_state
  resume-IsPlanFor none h = ground arith
  resume-IsPlanFor (some t) h = ground arith

  ordinary-IsPlanFor :
      (k : TaskTransitionKind) {p : TaskTransitionPlan}
      → ordinary_transition k s g ≡ ok p
      → is_steering k ≡ false
      → IsPlanFor s k p
  unfolding ordinary_transition basic_plan ladder
  ordinary-IsPlanFor start_briefing h n = unfold is_state in ground arith
  ordinary-IsPlanFor _ h n = unfold is_state in ground arith

  active-IsPlanFor :
      (k : TaskTransitionKind) {p : TaskTransitionPlan}
      → active_transition k s g ≡ ok p
      → IsPlanFor s k p
  unfolding active_transition basic_plan
  active-IsPlanFor cancel h = unfold is_state in ground arith
  active-IsPlanFor fail h = unfold is_state in ground arith
  active-IsPlanFor escalate h = unfold is_state in ground arith
  active-IsPlanFor resume h = resume-IsPlanFor s.escalation_resume_state h
  active-IsPlanFor scope_steer h = unfold is_state in ground arith
  active-IsPlanFor k h = ordinary-IsPlanFor k h refl

-- An accepted plan starts at the state of the snapshot, records that state for the resumption exactly
-- if it escalates, has the terminal outcome of the state that it leads to, counts one retry exactly
-- for a repair, and drops the bindings of the scope exactly for scope steering.
pub evaluate_task_transition-IsPlanFor :
    (s : TaskTransitionSnapshot) (k : TaskTransitionKind) (g : TaskTransitionGuards)
    {p : TaskTransitionPlan}
    → evaluate_task_transition s k g ≡ ok p
    → IsPlanFor s k p
unfolding evaluate_task_transition
evaluate_task_transition-IsPlanFor s k g h = active-IsPlanFor s g k (ground arith)
