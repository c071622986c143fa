-- ===== src/TaskService/Audit.antt =====
-- Every accepted call of `_transition_task` keeps the columns of each task the projection of its log.
use mathlib.Core.Path.{subst}
use mathews.TaskMachine.{escalated, TaskTransitionPlan, TaskTransitionGuards, is_state}
use mathews.TaskMachine.Engine.{evaluate_task_transition}
use mathews.TaskMachine.Plans.{IsPlanFor, evaluate_task_transition-IsPlanFor}
use mathews.TaskMachine.Edges.{Permits}
use mathews.TaskMachine.Diagram.{evaluate_task_transition_iff}
use mathews.TaskService.{
  Task, TaskEvent, PolicyVersion, Database, Command, TaskTransitionResult, find_task, max_sequence,
  next_event_sequence,
}
use mathews.TaskService.Apply.{Externals, apply_plan}
use mathews.TaskService.Transition.{new_event, commit, transition_task}
use mathews.TaskService.Outcome.{replays, commits, transition_task-Outcome, snapshot_of}
use mathews.TaskService.Tasks.{find_task_self, find_task-update}
use mathews.TaskService.Log.{history, IsPath, AllBelow, IsProjection, IsAudited}
use mathews.Common.{
  ℕ, ◌+◌, ◌≤◌, ◌≡◌, refl, sym, ◌∙◌, ap, Option, none, some, List, [], ◌∷◌, Text, ok, arith, ◌==◌,
  ==_iff, if◌then◌else◌, Bool-cases, inl, inr,
}

AllBelow-mono : (m n : ℕ) (es : List TaskEvent) → m ≤ n → AllBelow m es → AllBelow n es
AllBelow-mono m n [] h a = tt
AllBelow-mono m n (e ∷ es) h a = (omega arith, AllBelow-mono m n es h a.1)

-- The highest sequence number of the table bounds the history of the task.
history-AllBelow :
    (id : ℕ) (es : List TaskEvent) → AllBelow (max_sequence id es + 1) (history id es)
unfolding history max_sequence
history-AllBelow id [] = tt
history-AllBelow id (e ∷ es) = elim (Bool-cases (e.task_id == id)) [
  | inl p ↦ rw p (
    omega arith,
    AllBelow-mono (max_sequence id es + 1) _ (history id es) (omega arith) (history-AllBelow id es),
  )
  | inr n ↦ rw n (
      AllBelow-mono (max_sequence id es + 1) _ (history id es) (omega arith)
        (history-AllBelow id es))
]

module _ (x : Externals) (db : Database) (c : Command) (task : Task) (policy : PolicyVersion)
    (head : Option Text) (guards : TaskTransitionGuards) (plan : TaskTransitionPlan)
    (accepted : evaluate_task_transition (snapshot_of task head) c.kind guards ≡ ok plan)
    (before : IsProjection task (history task.id db.events)) where
  shape : IsPlanFor (snapshot_of task head) c.kind plan
  shape = evaluate_task_transition-IsPlanFor (snapshot_of task head) c.kind guards accepted

  permitted : Permits (snapshot_of task head) guards c.kind plan.to_state
  permitted =
      (evaluate_task_transition_iff (snapshot_of task head) guards c.kind plan.to_state).0
        (rw accepted)

  next-IsPath : IsPath plan.to_state (new_event x db c task policy plan ∷ history task.id db.events)
  unfolding new_event
  next-IsPath = (
    refl,
    (
      snapshot_of task head,
      guards,
      (
        sym shape.starts_here,
        rw shape.starts_here before.resume_state,
        rw shape.same_kind permitted,
      ),
    ),
    rw shape.starts_here before.path,
  )

  commit-IsProjection :
      IsProjection
        (apply_plan plan c.actor_id c.event_id task)
        (new_event x db c task policy plan ∷ history task.id db.events)
  unfolding apply_plan new_event next_event_sequence
  commit-IsProjection = record {
    path = next-IsPath;
    resume_state =
        shape.resumes_here
        ∙ ap (λ s. if is_state plan.to_state escalated then some s else none)
            (sym shape.starts_here);
    outcome = shape.outcome;
    retries = ground (arith, shape.retries, shape.same_kind, before.retries);
    numbered = (
      AllBelow-mono (max_sequence task.id db.events + 1) _ (history task.id db.events) (omega arith)
          (history-AllBelow task.id db.events),
      before.numbered,
    );
  }

module _ (x : Externals) (db : Database) (c : Command) (task : Task) (policy : PolicyVersion)
    (head : Option Text) (guards : TaskTransitionGuards) (plan : TaskTransitionPlan)
    (accepted : evaluate_task_transition (snapshot_of task head) c.kind guards ≡ ok plan)
    (found : find_task c.task_id db.tasks ≡ some task) (audited : IsAudited db) where
  updated : Task
  updated = apply_plan plan c.actor_id c.event_id task

  updated-id : find_task updated.id db.tasks ≡ some task
  unfolding updated apply_plan
  updated-id = find_task_self c.task_id db.tasks task found

  commit-IsProjection_of :
      (id : ℕ) (t : Task)
      → (if task.id == id then some updated else find_task id db.tasks) ≡ some t
      → IsProjection t (
          if task.id == id
          then new_event x db c task policy plan ∷ history id db.events
          else history id db.events)
  unfolding updated
  commit-IsProjection_of id t f = elim (Bool-cases (task.id == id)) [
    | inl p ↦
        let same : task.id ≡ id = (==_iff task.id id).0 p in
        let u : apply_plan plan c.actor_id c.event_id task ≡ t = ground arith in
        rw p (
          subst (λ w. IsProjection w (new_event x db c task policy plan ∷ history id db.events)) u
            (subst
              (λ i.
                IsProjection (apply_plan plan c.actor_id c.event_id task)
                  (new_event x db c task policy plan ∷ history i db.events))
              same
              (commit-IsProjection x db c task policy head guards plan accepted
                (audited task.id task (find_task_self c.task_id db.tasks task found)))))
    | inr n ↦ rw n (audited id t (ground arith))
  ]

  commit-IsAudited : IsAudited (commit x db c task policy plan).0
  unfolding commit history new_event updated apply_plan
  commit-IsAudited id t f =
      commit-IsProjection_of id t (sym (find_task-update id db.tasks updated task updated-id) ∙ f)

pub transition_task-IsAudited :
    (x : Externals) (db : Database) (c : Command) (db' : Database) (r : TaskTransitionResult)
    → IsAudited db
    → transition_task x db c ≡ ok (db', r)
    → IsAudited db'
transition_task-IsAudited x db c db' r audited h = elim (transition_task-Outcome x db c h) [
  | replays task event result t e q o ↦ subst (λ w. IsAudited w.0) (sym o) audited
  | commits task policy head guards plan t e s p g o ↦
      subst (λ w. IsAudited w.0) (sym o)
        (commit-IsAudited x db c task policy head guards plan p t audited)
]

-- If the columns of every task are the projection of its log, then after any call that raises
-- nothing those of each task are so too: the log is a path of permitted transitions from `INTAKE`
-- to the state of the task, with sequence numbers in order, and it determines the state to resume,
-- the terminal outcome and the retry count.
pub transition_task-IsProjection :
    (x : Externals) (db : Database) (c : Command) (db' : Database) (r : TaskTransitionResult)
    (id : ℕ) (t : Task)
    → IsAudited db
    → transition_task x db c ≡ ok (db', r)
    → find_task id db'.tasks ≡ some t
    → IsProjection t (history id db'.events)
transition_task-IsProjection x db c db' r id t audited h f =
    transition_task-IsAudited x db c db' r audited h id t f
