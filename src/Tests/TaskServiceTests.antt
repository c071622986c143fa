-- ===== src/Tests/TaskServiceTests.antt =====
-- A task from intake to the hand-off, and the theorems about the log along the way.
use mathlib.Core.Path.{subst}
use mathews.Errors.{TransitionError, conflict, bad_candidate}
use mathews.GitObject.{
  is_space, strip_left, strip_right, strip, lower_char, lower, is_hex, normalized_git_sha,
}
use mathews.TaskMachine.{
  TaskState, intake, briefing, implementing, validating, pr_active, ready_for_human_merge,
  handed_off, is_state, is_terminal, TaskTerminalOutcome, TaskTransitionKind, start_briefing,
  auto_accept_brief, begin_validation, open_verified_draft_pr, mark_merge_ready,
  acknowledge_handoff, DraftPrGateFacts, closed_guards, verified_draft_head, same_verified_head,
  readiness_head, basic_plan, outcome_handed_off,
}
use mathews.TaskMachine.Engine.{
  ladder, draft_gate_head, readiness_gate_head, gate_head, ordinary_transition, active_transition,
  evaluate_task_transition,
}
use mathews.TaskService.{
  ValidationCandidate, Task, TaskEvent, Database, Command, TaskTransitionResult, find_task,
  find_transition, max_sequence, max_other_sequence, next_event_sequence, latest_gate_head,
  latest_verified_pr_head, newest_policy,
}
use mathews.TaskService.Apply.{
  Externals, insert_sorted, sorted, member, is_unique, command_fingerprint, replayed_result,
  find_evidence, is_corrected, verified_record, verify_transition_evidence, active_policy,
  apply_plan, update_task,
}
use mathews.TaskService.Transition.{
  valid_command, new_event, commit, first_transition, locked_transition, with_task, transition_task,
}
use mathews.TaskService.Replay.{retry, replay_of, transition_task_replayed}
use mathews.TaskService.Log.{history, IsProjection, IsAudited}
use mathews.TaskService.Audit.{transition_task-IsProjection}
use mathews.TaskService.Calls.{transitions}
use mathews.TaskService.Acknowledged.{Acknowledged, IsNotHandedOff}
use mathews.TaskService.Lifecycle.{Passed, handed_off-Passed}
use mathews.Common.{
  ℕ, zero, suc, ◌+◌, ◌*◌, ◌≡◌, refl, true, false, Option, none, some, List, [], ◌∷◌, Text, Result,
  ok, err, length, text_eq, arith,
}

abbrev repeat : ℕ → ℕ → Text
repeat zero c = []
repeat (suc n) c = c ∷ repeat n c

abbrev sha : Text
sha = repeat 40 97

abbrev draft_facts : DraftPrGateFacts
draft_facts = record {
  current_head_sha = sha;
  validation_commit_sha = sha;
  local_branch_sha = sha;
  remote_branch_sha = sha;
  pull_request_head_sha = sha;
  validation_passed = true;
  required_artifacts_present = true;
  branch_clean = true;
  pull_request_is_draft = true;
  no_unresolved_approval = true;
  cancellation_clear = true;
}

-- Gates that are all open, and a digest that reads the transition id and the reason.
abbrev open_world : Externals
open_world = record {
  digest = λ c. c.transition_id * 1000 + length c.reason_code;
  policy_authorizes_repository = λ policy repository. true;
  loads = λ r. true;
  evaluate = λ db task kind policy now.
      unfold closed_guards in
      record closed_guards {
        brief_policy_bypass_authorized = true;
        draft_pr = some draft_facts;
        readiness = some (record {
          draft_pr = draft_facts;
          required_ci_green = true;
          no_blocking_review = true;
          repairs_authorized = true;
        });
        human_handoff_acknowledged = true;
      };
}

abbrev new_task : Task
new_task = record {
  id = 7;
  owner_id = 1;
  repository = 5;
  root_correlation_id = 70;
  state = intake;
  escalation_resume_state = none;
  terminal_outcome = none;
  retry_count = 0;
  actor_id = [];
  causation_id = none;
  accepted_brief_id = none;
  brief_approval_decision_id = none;
  validation_contract_id = none;
}

abbrev start : Database
start = record {
  tasks = new_task ∷ [];
  events = [];
  other_events = (7, 4) ∷ [];
  policies =
      record { id = 1; lineage_key = 9; owner_id = 1; version = 1; approved_at = 3 }
      ∷ record { id = 2; lineage_key = 9; owner_id = 1; version = 2; approved_at = 90 }
      ∷ [];
  evidence =
      record {
        id = 30;
        task_id = 7;
        owner_id = 1;
        root_correlation_id = 70;
        correction_of_id = none;
      }
      ∷ [];
  deletion_requests = [];
}

abbrev tree : ValidationCandidate
tree = record { commit_sha = sha; tree_sha = sha }

-- The command with transition id and time `n`.
abbrev command : ℕ → TaskState → TaskTransitionKind → Option ValidationCandidate → Command
command n expected kind candidate = record {
  task_id = 7;
  transition_id = n;
  expected_state = expected;
  kind = kind;
  reason_code = 79 ∷ 75 ∷ [];
  actor_id = 99 ∷ [];
  evidence_ids = 30 ∷ [];
  candidate = candidate;
  active_policy_lineage = 9;
  now = 50 + n;
  event_id = 200 + n;
}

-- The event of transition `n`.
abbrev event :
    ℕ
    → TaskState
    → TaskState
    → TaskTransitionKind
    → Option Text
    → Option ValidationCandidate
    → TaskEvent
event n from to kind head candidate = record {
  id = 200 + n;
  task_id = 7;
  sequence = 4 + n;
  occurred_at = 50 + n;
  transition_id = n;
  transition_fingerprint = n * 1000 + 2;
  transition_kind = kind;
  transition_from_state = from;
  transition_to_state = to;
  transition_reason_code = 79 ∷ 75 ∷ [];
  policy_version_id = 1;
  gate_head_sha = head;
  candidate = candidate;
  actor_id = 99 ∷ [];
  evidence_ids = 30 ∷ [];
}

-- The database after transition `n`, with the task in a state.
abbrev stage_at_end : TaskState → Option TaskTerminalOutcome
stage_at_end handed_off = some outcome_handed_off
stage_at_end _ = none

abbrev task_after : ℕ → TaskState → Task
task_after n state = record new_task {
  state = state;
  terminal_outcome = stage_at_end state;
  actor_id = 99 ∷ [];
  causation_id = some (200 + n);
}

abbrev database : ℕ → TaskState → List TaskEvent → Database
database n state events = record start { tasks = task_after n state ∷ []; events = events }

-- All that a run computes with.
transition : Database → Command → Result TransitionError (Database × TaskTransitionResult)
unfolding transitions transition_task valid_command with_task locked_transition first_transition
    commit new_event replayed_result find_task find_transition max_sequence max_other_sequence
    next_event_sequence latest_gate_head latest_verified_pr_head newest_policy insert_sorted sorted
    member is_unique command_fingerprint find_evidence is_corrected verified_record
    verify_transition_evidence active_policy apply_plan update_task evaluate_task_transition
    active_transition ordinary_transition ladder gate_head draft_gate_head readiness_gate_head
    verified_draft_head same_verified_head readiness_head basic_plan closed_guards is_state
    is_terminal normalized_git_sha strip strip_left strip_right is_space lower lower_char is_hex
    text_eq
transition db c = transition_task open_world db c

abbrev result : ℕ → ℕ → TaskState → TaskState → TaskTransitionResult
result n sequence from to = record {
  task_id = 7;
  transition_id = n;
  event_id = 200 + n;
  sequence = sequence;
  from_state = from;
  to_state = to;
  replayed = false;
}

abbrev to_briefing : Command
to_briefing = command 1 intake start_briefing none

abbrev in_briefing : Database
in_briefing = database 1 briefing (event 1 intake briefing start_briefing none none ∷ [])

briefed :
    transition_task open_world start to_briefing ≡ ok (in_briefing, result 1 5 intake briefing)
unfolding transition
briefed = refl

-- A task in intake cannot begin validation, and a candidate belongs to no other kind.
stale_state_refused :
    transition_task open_world in_briefing (command 2 intake start_briefing none) ≡ err conflict
unfolding transition
stale_state_refused = refl

stray_candidate_refused :
    transition_task open_world start (command 2 intake start_briefing (some tree))
    ≡ err bad_candidate
unfolding transition
stray_candidate_refused = refl

reused_id_refused :
    transition_task open_world in_briefing (command 1 briefing auto_accept_brief none)
    ≡ err conflict
unfolding transition
reused_id_refused = refl

start-IsAudited : IsAudited start
unfolding find_task history is_state
start-IsAudited id t h =
    let same : new_task ≡ t = ground arith in
    subst (λ w. IsProjection w []) same
      (record { path = refl; resume_state = refl; outcome = refl; retries = refl; numbered = tt })

transition_task-IsProjection_example :
    IsProjection (task_after 1 briefing) (history 7 in_briefing.events)
unfolding transition
transition_task-IsProjection_example =
    transition_task-IsProjection open_world start to_briefing in_briefing
      (result 1 5 intake briefing) 7 (task_after 1 briefing) start-IsAudited briefed refl

abbrev to_implementation : Command
to_implementation = command 2 briefing auto_accept_brief none

abbrev in_implementation : Database
in_implementation =
    database 2 implementing
      (event 2 briefing implementing auto_accept_brief none none ∷ in_briefing.events)

accepted :
    transition_task open_world in_briefing to_implementation
    ≡ ok (in_implementation, result 2 6 briefing implementing)
unfolding transition
accepted = refl

abbrev to_validation : Command
to_validation = command 3 implementing begin_validation (some tree)

abbrev in_validation : Database
in_validation =
    database 3 validating
      (event 3 implementing validating begin_validation none (some tree) ∷ in_implementation.events)

validation_begun :
    transition_task open_world in_implementation to_validation
    ≡ ok (in_validation, result 3 7 implementing validating)
unfolding transition
validation_begun = refl

abbrev to_review : Command
to_review = command 4 validating open_verified_draft_pr none

abbrev in_review : Database
in_review =
    database 4 pr_active
      (event 4 validating pr_active open_verified_draft_pr (some sha) none ∷ in_validation.events)

opened :
    transition_task open_world in_validation to_review
    ≡ ok (in_review, result 4 8 validating pr_active)
unfolding transition
opened = refl

abbrev to_readiness : Command
to_readiness = command 5 pr_active mark_merge_ready none

abbrev in_readiness : Database
in_readiness =
    database 5 ready_for_human_merge
      (event 5 pr_active ready_for_human_merge mark_merge_ready (some sha) none ∷ in_review.events)

marked :
    transition_task open_world in_review to_readiness
    ≡ ok (in_readiness, result 5 9 pr_active ready_for_human_merge)
unfolding transition
marked = refl

abbrev to_end : Command
to_end = command 6 ready_for_human_merge acknowledge_handoff none

abbrev at_end : Database
at_end = database 6 handed_off (
    event 6 ready_for_human_merge handed_off acknowledge_handoff (some sha) none
    ∷ in_readiness.events)

acknowledged :
    transition_task open_world in_readiness to_end
    ≡ ok (at_end, result 6 10 ready_for_human_merge handed_off)
unfolding transition
acknowledged = refl

abbrev commands : List Command
commands = to_briefing ∷ to_implementation ∷ to_validation ∷ to_review ∷ to_readiness ∷ to_end ∷ []

reached : transitions open_world commands start ≡ at_end
unfolding transition
reached = refl

start-IsNotHandedOff : IsNotHandedOff 7 start
unfolding find_task
start-IsNotHandedOff t f h = ground arith

handed_off-Passed_example :
    let log = history 7 (transitions open_world commands start).events in
    (Passed 1 log × Passed 2 log × Passed 3 log × Passed 4 log)
    × Acknowledged open_world commands 7 start
unfolding transition
handed_off-Passed_example =
    handed_off-Passed open_world commands start 7 (task_after 6 handed_off) start-IsAudited
      start-IsNotHandedOff refl refl

transition_task_replayed_example :
    let later = transitions open_world (to_implementation ∷ to_validation ∷ []) in_briefing in
    transition_task open_world later (retry to_briefing 999 555)
    ≡ ok (later, replay_of (result 1 5 intake briefing))
transition_task_replayed_example =
    transition_task_replayed open_world start to_briefing in_briefing (result 1 5 intake briefing)
      (to_implementation ∷ to_validation ∷ []) 999 555 briefed
