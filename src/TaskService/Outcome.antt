-- ===== src/TaskService/Outcome.antt =====
-- The two ways in which a call of `_transition_task` that raises nothing ends.
use mathews.Errors.{conflict}
use mathews.TaskMachine.{TaskTransitionPlan, TaskTransitionGuards, TaskTransitionSnapshot, is_state}
use mathews.TaskMachine.Engine.{evaluate_task_transition}
use mathews.TaskService.{
  Task, TaskEvent, PolicyVersion, Database, Command, TaskTransitionResult, find_task,
  find_transition, latest_verified_pr_head, newest_policy,
}
use mathews.TaskService.Apply.{
  Externals, replayed_result, verify_transition_evidence, active_policy,
}
use mathews.TaskService.Transition.{
  valid_command, commit, first_transition, locked_transition, with_task, transition_task,
}
use mathews.Common.{◌≡◌, refl, true, Option, none, some, Text, ok, guard, arith, >>=-eq-ok}

-- What the engine is given.
abbrev pub snapshot_of : Task → Option Text → TaskTransitionSnapshot
snapshot_of task head = record {
  state = task.state;
  escalation_resume_state = task.escalation_resume_state;
  verified_pr_head_sha = head;
}

module _ (x : Externals) (db : Database) (c : Command) where
  pub data Outcome (out : Database × TaskTransitionResult) : Type 0 where
    -- The transition id is in the log already: nothing is written.
    replays :
        (task : Task) (event : TaskEvent) (result : TaskTransitionResult)
        → find_task c.task_id db.tasks ≡ some task
        → find_transition c.transition_id db.events ≡ some event
        → replayed_result x c event ≡ ok result
        → out ≡ (db, result)
        → Outcome out
    -- The engine accepted the transition of the task as it is stored.
    commits :
        (task : Task) (policy : PolicyVersion) (head : Option Text) (guards : TaskTransitionGuards)
        (plan : TaskTransitionPlan)
        → find_task c.task_id db.tasks ≡ some task
        → find_transition c.transition_id db.events ≡ none
        → is_state task.state c.expected_state ≡ true
        → evaluate_task_transition (snapshot_of task head) c.kind guards ≡ ok plan
        → guards ≡ x.evaluate db task c.kind policy c.now
        → out ≡ commit x db c task policy plan
        → Outcome out

module _ (x : Externals) (db : Database) (c : Command) {out : Database × TaskTransitionResult} where
  first-Outcome :
      (task : Task)
      → find_task c.task_id db.tasks ≡ some task
      → find_transition c.transition_id db.events ≡ none
      → first_transition x db c task ≡ ok out
      → Outcome x db c out
  unfolding first_transition
  first-Outcome task found new h =
      let (u, expected, h₁) =
        >>=-eq-ok (guard (is_state task.state c.expected_state) conflict) _ h in
      let (policy, p, h₂) =
        >>=-eq-ok
          (active_policy x task
            (newest_policy c.active_policy_lineage task.owner_id c.now db.policies))
          _ h₁ in
      let (v, e, h₃) = >>=-eq-ok (verify_transition_evidence x db task c.evidence_ids) _ h₂ in
      let (head, l, h₄) = >>=-eq-ok (latest_verified_pr_head task.id db.events) _ h₃ in
      let (plan, q, h₅) =
        >>=-eq-ok
          (evaluate_task_transition (snapshot_of task head) c.kind
            (x.evaluate db task c.kind policy c.now))
          _ h₄ in
      commits task policy head (x.evaluate db task c.kind policy c.now) plan found new
        (ground arith) q refl (ground arith)

  locked-Outcome :
      (task : Task) (o : Option TaskEvent)
      → find_task c.task_id db.tasks ≡ some task
      → find_transition c.transition_id db.events ≡ o
      → locked_transition x db c task o ≡ ok out
      → Outcome x db c out
  unfolding locked_transition
  locked-Outcome task (some event) found old h =
      let (result, e, t) = >>=-eq-ok (replayed_result x c event) (λ result. ok (db, result)) h in
      replays task event result found old e (ground arith)
  locked-Outcome task none found new h = first-Outcome task found new h

  found-Outcome :
      (o : Option Task)
      → find_task c.task_id db.tasks ≡ o
      → with_task x db c o ≡ ok out
      → Outcome x db c out
  unfolding with_task
  found-Outcome none found h = cc
  found-Outcome (some task) found h =
      locked-Outcome task (find_transition c.transition_id db.events) found refl h

  -- Every call that raises nothing has one of the two outcomes.
  pub transition_task-Outcome : transition_task x db c ≡ ok out → Outcome x db c out
  unfolding transition_task
  transition_task-Outcome h =
      let (u, e, t) =
        >>=-eq-ok (valid_command c) (λ _. with_task x db c (find_task c.task_id db.tasks)) h in
      found-Outcome (find_task c.task_id db.tasks) refl t
