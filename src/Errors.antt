-- ===== src/Errors.antt =====
-- services/control-plane/src/mathews_control_plane/task_state_machine.py: the exceptions of a
-- transition. `TaskTransitionNotFoundError` is `not_found` and `TaskTransitionConflictError` is
-- `conflict`; the others are `InvalidTaskTransitionError`, one constructor for each of its messages.
pub data TransitionError : Type 0 where
  bad_git_object terminal_task already_escalated resume_refused steering_refused : TransitionError
  draft_gate readiness_gate not_allowed bad_evidence_list bad_candidate : TransitionError
  not_found conflict : TransitionError
