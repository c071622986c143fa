-- ===== src/Tests/TaskMachineTests.antt =====
-- The transition engine on concrete tasks.
use mathews.Errors.{draft_gate, readiness_gate, terminal_task}
use mathews.GitObject.{
  is_space, strip_left, strip_right, strip, lower_char, lower, is_hex, normalized_git_sha,
}
use mathews.GitObject.Normal.{IsObjectId, normalized_git_sha_canonical}
use mathews.TaskMachine.{
  validating, pr_active, handed_off, repairing, is_state, is_terminal, open_verified_draft_pr,
  begin_repair, cancel, DraftPrGateFacts, ReadinessGateFacts, TaskTransitionGuards,
  TaskTransitionSnapshot, TaskTransitionPlan, closed_guards, verified_draft_head,
  same_verified_head, readiness_head, basic_plan,
}
use mathews.TaskMachine.Engine.{
  ladder, gate_head, ordinary_transition, active_transition, evaluate_task_transition,
}
use mathews.TaskMachine.Edges.{Permits}
use mathews.TaskMachine.Gates.{
  DraftGatePassed, ReadinessGatePassed, verified_draft_head_iff, readiness_head_iff,
}
use mathews.TaskMachine.Diagram.{target_of, evaluate_task_transition_iff}
use mathews.TaskMachine.Plans.{IsPlanFor, evaluate_task_transition-IsPlanFor}
use mathews.Common.{
  ℕ, zero, suc, ◌≡◌, refl, ◌↔◌, true, none, some, [], ◌∷◌, ◌++◌, Text, ok, err, text_eq,
}

abbrev repeat : ℕ → ℕ → Text
repeat zero c = []
repeat (suc n) c = c ∷ repeat n c

-- Forty times `a`, the same in capitals with a blank at each end, and another object id.
abbrev sha : Text
sha = repeat 40 97

abbrev padded_sha : Text
padded_sha = 32 ∷ (repeat 40 65 ++ 10 ∷ [])

abbrev other_sha : Text
other_sha = repeat 40 98

padded_sha_normalizes : normalized_git_sha padded_sha ≡ ok sha
unfolding normalized_git_sha strip strip_left strip_right is_space lower lower_char is_hex
padded_sha_normalizes = refl

normalized_git_sha_canonical_example : IsObjectId sha × (normalized_git_sha sha ≡ ok sha)
normalized_git_sha_canonical_example =
    normalized_git_sha_canonical padded_sha sha padded_sha_normalizes

abbrev draft_facts : DraftPrGateFacts
draft_facts = record {
  current_head_sha = padded_sha;
  validation_commit_sha = sha;
  local_branch_sha = sha;
  remote_branch_sha = sha;
  pull_request_head_sha = sha;
  validation_passed = true;
  required_artifacts_present = true;
  branch_clean = true;
  pull_request_is_draft = true;
  no_unresolved_approval = true;
  cancellation_clear = true;
}

-- The remote branch has moved on.
abbrev moved_facts : DraftPrGateFacts
moved_facts = record draft_facts { remote_branch_sha = other_sha }

abbrev ready_facts : ReadinessGateFacts
ready_facts = record {
  draft_pr = draft_facts;
  required_ci_green = true;
  no_blocking_review = true;
  repairs_authorized = true;
}

abbrev in_validation : TaskTransitionSnapshot
in_validation = record {
  state = validating;
  escalation_resume_state = none;
  verified_pr_head_sha = none;
}

abbrev in_review : TaskTransitionSnapshot
in_review = record {
  state = pr_active;
  escalation_resume_state = none;
  verified_pr_head_sha = some sha;
}

abbrev draft_guards : TaskTransitionGuards
draft_guards = unfold closed_guards in record closed_guards { draft_pr = some draft_facts }

moved_remote_refused : verified_draft_head moved_facts ≡ err draft_gate
unfolding verified_draft_head normalized_git_sha strip strip_left strip_right is_space lower
    lower_char is_hex text_eq
moved_remote_refused = refl

unverified_head_refused : readiness_head in_validation ready_facts ≡ err readiness_gate
unfolding readiness_head same_verified_head verified_draft_head normalized_git_sha strip strip_left
    strip_right is_space lower lower_char is_hex text_eq
unverified_head_refused = refl

verified_draft_head_iff_example :
    (verified_draft_head draft_facts ≡ ok sha) ↔ DraftGatePassed draft_facts sha
verified_draft_head_iff_example = verified_draft_head_iff draft_facts sha

readiness_head_iff_example :
    (readiness_head in_review ready_facts ≡ ok sha) ↔ ReadinessGatePassed (some sha) ready_facts sha
readiness_head_iff_example = readiness_head_iff in_review ready_facts sha

evaluate_task_transition_iff_example :
    (target_of (evaluate_task_transition in_validation open_verified_draft_pr draft_guards)
      ≡ some pr_active)
    ↔ Permits in_validation draft_guards open_verified_draft_pr pr_active
evaluate_task_transition_iff_example =
    evaluate_task_transition_iff in_validation draft_guards open_verified_draft_pr pr_active

abbrev repair_guards : TaskTransitionGuards
repair_guards = unfold closed_guards in record closed_guards { repair_authorized = true }

abbrev repair_plan : TaskTransitionPlan
repair_plan =
    unfold basic_plan in record (basic_plan in_review begin_repair repairing) { retry_delta = 1 }

repair_plan_accepted :
    evaluate_task_transition in_review begin_repair repair_guards ≡ ok repair_plan
unfolding evaluate_task_transition active_transition ordinary_transition ladder gate_head basic_plan
    is_state is_terminal closed_guards
repair_plan_accepted = refl

evaluate_task_transition-IsPlanFor_example : IsPlanFor in_review begin_repair repair_plan
evaluate_task_transition-IsPlanFor_example =
    evaluate_task_transition-IsPlanFor in_review begin_repair repair_guards repair_plan_accepted

handed_off_is_final :
    evaluate_task_transition (record in_review { state = handed_off }) cancel closed_guards
    ≡ err terminal_task
unfolding evaluate_task_transition is_terminal
handed_off_is_final = refl
