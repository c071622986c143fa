-- ===== src/TaskService/Transition.antt =====
-- services/control-plane/src/mathews_control_plane/task_state_machine.py: `_transition_task`.
--
-- An exception rolls the transaction back, so that only an accepted call has a new database.
use mathews.Errors.{TransitionError, bad_evidence_list, bad_candidate, not_found, conflict}
use mathews.TaskMachine.{is_state, TaskTransitionPlan}
use mathews.TaskMachine.Engine.{evaluate_task_transition}
use mathews.TaskService.{
  Task, TaskEvent, PolicyVersion, Database, Command, TaskTransitionResult, find_task,
  find_transition, next_event_sequence, latest_verified_pr_head, newest_policy,
}
use mathews.TaskService.Apply.{
  Externals, needs_candidate, is_unique, command_fingerprint, replayed_result,
  verify_transition_evidence, active_policy, apply_plan, update_task,
}
use mathews.Common.{
  false, not, ◌&&◌, ◌||◌, Option, none, some, ◌∷◌, Result, ok, err, ◌>>=◌, ◌>>◌, guard, ◌==◌, leb,
  is_some, length,
}

-- The checks of the command alone, before the database is read.
unfoldable pub valid_command : Command → Result TransitionError (Unit {0})
valid_command c = do
  guard
      (not (length c.evidence_ids == 0)
        && is_unique c.evidence_ids
        && leb (length c.evidence_ids) 100)
      bad_evidence_list
  guard
      (needs_candidate c.kind && is_some c.candidate
        || not (needs_candidate c.kind) && not (is_some c.candidate))
      bad_candidate

-- The new audit event.
unfoldable pub new_event :
    Externals → Database → Command → Task → PolicyVersion → TaskTransitionPlan → TaskEvent
new_event x db c task policy plan = record {
  id = c.event_id;
  task_id = task.id;
  sequence = next_event_sequence task.id db;
  occurred_at = c.now;
  transition_id = c.transition_id;
  transition_fingerprint = command_fingerprint x c;
  transition_kind = plan.kind;
  transition_from_state = plan.from_state;
  transition_to_state = plan.to_state;
  transition_reason_code = c.reason_code;
  policy_version_id = policy.id;
  gate_head_sha = plan.gate_head_sha;
  candidate = c.candidate;
  actor_id = c.actor_id;
  evidence_ids = c.evidence_ids;
}

-- The event is added and the task updated.
unfoldable pub commit :
    Externals
    → Database
    → Command
    → Task
    → PolicyVersion
    → TaskTransitionPlan
    → Database × TaskTransitionResult
commit x db c task policy plan =
    let event = new_event x db c task policy plan in
    (
      record db {
        events = event ∷ db.events;
        tasks = update_task (apply_plan plan c.actor_id c.event_id task) db.tasks;
      },
      record {
        task_id = task.id;
        transition_id = c.transition_id;
        event_id = event.id;
        sequence = event.sequence;
        from_state = plan.from_state;
        to_state = plan.to_state;
        replayed = false;
      },
    )

-- A transition id that the log does not hold.
unfoldable pub first_transition :
    Externals → Database → Command → Task → Result TransitionError (Database × TaskTransitionResult)
first_transition x db c task = do
  guard (is_state task.state c.expected_state) conflict
  policy ←
      active_policy x task (newest_policy c.active_policy_lineage task.owner_id c.now db.policies)
  verify_transition_evidence x db task c.evidence_ids
  head ← latest_verified_pr_head task.id db.events
  plan ←
      evaluate_task_transition
        (record {
          state = task.state;
          escalation_resume_state = task.escalation_resume_state;
          verified_pr_head_sha = head;
        })
        c.kind (x.evaluate db task c.kind policy c.now)
  ok (commit x db c task policy plan)

-- With the task at hand: replay, or make the transition.
unfoldable pub locked_transition :
    Externals
    → Database
    → Command
    → Task
    → Option TaskEvent
    → Result TransitionError (Database × TaskTransitionResult)
locked_transition x db c task (some event) = do result ← replayed_result x c event; ok (db, result)
locked_transition x db c task none = first_transition x db c task

unfoldable pub with_task :
    Externals
    → Database
    → Command
    → Option Task
    → Result TransitionError (Database × TaskTransitionResult)
with_task x db c none = err not_found
with_task x db c (some task) =
    locked_transition x db c task (find_transition c.transition_id db.events)

-- `_transition_task`
unfoldable pub transition_task :
    Externals → Database → Command → Result TransitionError (Database × TaskTransitionResult)
transition_task x db c = do valid_command c; with_task x db c (find_task c.task_id db.tasks)
