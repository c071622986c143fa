-- ===== src/TaskService/Acknowledged.antt =====
-- The acknowledgement of a human, in a sequence of calls that hands a task off.
use mathews.TaskMachine.{
  TaskState, ready_for_human_merge, handed_off, TaskTransitionGuards, TaskTransitionSnapshot,
  TaskTransitionPlan, is_state, TaskTransitionKind,
}
use mathews.TaskMachine.Edges.{Permits, hands_off, resumes, at_intake}
use mathews.TaskMachine.Engine.{evaluate_task_transition}
use mathews.TaskMachine.Diagram.{evaluate_task_transition_iff}
use mathews.TaskService.{Task, PolicyVersion, Database, Command, find_task}
use mathews.TaskService.Apply.{Externals, apply_plan}
use mathews.TaskService.Transition.{commit, transition_task}
use mathews.TaskService.Outcome.{replays, commits, transition_task-Outcome, snapshot_of}
use mathews.TaskService.Tasks.{find_task-id, find_task_self, find_task-update}
use mathews.TaskService.Calls.{committed, transitions}
use mathews.Common.{
  ℕ, ◌≡◌, refl, ap, sym, ◌∙◌, some, List, [], ◌∷◌, ◌++◌, arith, ◌≢◌, true, Option, Text, ok, inl,
  inr, Bool-cases, Option-cases, Result-cases, ◌==◌,
}

-- A transition into HANDED_OFF has the acknowledgement of a human.
Permits-handed_off :
    (s : TaskTransitionSnapshot) (g : TaskTransitionGuards) {k : TaskTransitionKind} {b : TaskState}
    → Permits s g k b
    → b ≡ handed_off
    → (s.state ≡ ready_for_human_merge) × (g.human_handoff_acknowledged ≡ true)
Permits-handed_off s g (hands_off f acknowledged _ _) h = (f, acknowledged)
Permits-handed_off s g (resumes _ _ at_intake _ _ _) h = cc
Permits-handed_off s g (resumes _ _ _ _ _ _) h = cc
Permits-handed_off s g _ h = cc

-- One of the calls found the task ready, and the guards of its transition held the acknowledgement of a
-- human.
pub record Acknowledged (x : Externals) (cs : List Command) (id : ℕ) (db : Database) : Type 0 where
  pub before : List Command
  pub command : Command
  pub after : List Command
  pub task : Task
  pub policy : PolicyVersion
  pub called : cs ≡ before ++ (command ∷ after)
  pub of_task : command.task_id ≡ id
  pub found : find_task id (transitions x before db).tasks ≡ some task
  pub ready : task.state ≡ ready_for_human_merge
  pub acknowledged :
      (x.evaluate
        (transitions x before db)
        task
        command.kind
        policy
        command.now).human_handoff_acknowledged
      ≡ true

abbrev pub IsNotHandedOff : ℕ → Database → Type 0
IsNotHandedOff id db = (t : Task) → find_task id db.tasks ≡ some t → t.state ≢ handed_off

commit-acknowledged :
    (x : Externals) (db : Database) (c : Command) (task : Task) (policy : PolicyVersion)
    (head : Option Text) (guards : TaskTransitionGuards) (plan : TaskTransitionPlan) (id : ℕ)
    (t : Task)
    → IsNotHandedOff id db
    → find_task c.task_id db.tasks ≡ some task
    → evaluate_task_transition (snapshot_of task head) c.kind guards ≡ ok plan
    → find_task id (commit x db c task policy plan).0.tasks ≡ some t
    → t.state ≡ handed_off
    → (c.task_id ≡ id)
      × (task.state ≡ ready_for_human_merge)
      × (guards.human_handoff_acknowledged ≡ true)
unfolding commit apply_plan
commit-acknowledged x db c task policy head guards plan id t fresh found p after h =
    let updated = apply_plan plan c.actor_id c.event_id task in
    let row =
      find_task-update id db.tasks updated task (find_task_self c.task_id db.tasks task found) in
    let same : task.id ≡ c.task_id = find_task-id c.task_id db.tasks found in
    elim (Bool-cases (task.id == id)) [
      | inr other ↦ absurd (fresh t (ground arith) h)
      | inl this ↦
          let new : updated ≡ t = ground arith in
          let to : plan.to_state ≡ handed_off = ap (λ (u : Task). u.state) new ∙ h in
          let permitted : Permits (snapshot_of task head) guards c.kind plan.to_state =
            (evaluate_task_transition_iff (snapshot_of task head) guards c.kind plan.to_state).0
              (rw p) in
          let (ready, acknowledged) =
            Permits-handed_off (snapshot_of task head) guards permitted to in
          (ground arith, ready, acknowledged)
    ]

module _ (x : Externals) (db : Database) (c : Command) (id : ℕ) (t : Task)
    (fresh : IsNotHandedOff id db) where
  -- A call after which the task is handed off.
  step-Acknowledged :
      (cs : List Command)
      → find_task id (committed db (transition_task x db c)).tasks ≡ some t
      → t.state ≡ handed_off
      → Acknowledged x (c ∷ cs) id db
  unfolding transitions
  step-Acknowledged cs after h = elim (Result-cases (transition_task x db c)) [
    | inr (raised, e) ↦ absurd (fresh t (rw e at after) h)
    | inl (out, e) ↦
        let there : find_task id out.0.tasks ≡ some t = rw e at after in
        elim (transition_task-Outcome x db c e) [
          | replays task event result f k q o ↦
              absurd (fresh t (ap (λ w. find_task id w.0.tasks) (sym o) ∙ there) h)
          | commits task policy head guards plan f k s p g o ↦
              let (of_task, ready, acknowledged) =
                commit-acknowledged x db c task policy head guards plan id t fresh f p
                  (ap (λ w. find_task id w.0.tasks) (sym o) ∙ there) h in
              record {
                before = [];
                command = c;
                after = cs;
                task = task;
                policy = policy;
                called = refl;
                of_task = of_task;
                found = ap (λ i. find_task i db.tasks) (sym of_task) ∙ f;
                ready = ready;
                acknowledged =
                    ap (λ (g : TaskTransitionGuards). g.human_handoff_acknowledged) (sym g)
                    ∙ acknowledged;
              }
        ]
  ]

later-Acknowledged :
    (x : Externals) (db : Database) (c : Command) (cs : List Command) (id : ℕ)
    → Acknowledged x cs id (committed db (transition_task x db c))
    → Acknowledged x (c ∷ cs) id db
unfolding transitions
later-Acknowledged x db c cs id a = record {
  before = c ∷ a.before;
  command = a.command;
  after = a.after;
  task = a.task;
  policy = a.policy;
  called = ap (λ cs. c ∷ cs) a.called;
  of_task = a.of_task;
  found = a.found;
  ready = a.ready;
  acknowledged = a.acknowledged;
}

pub transitions-Acknowledged :
    (x : Externals) (cs : List Command) (db : Database) (id : ℕ) (t : Task)
    → IsNotHandedOff id db
    → find_task id (transitions x cs db).tasks ≡ some t
    → t.state ≡ handed_off
    → Acknowledged x cs id db
unfolding transitions
transitions-Acknowledged x [] db id t fresh found h = absurd (fresh t found h)
transitions-Acknowledged x (c ∷ cs) db id t fresh found h =
    let next = committed db (transition_task x db c) in
    let later : IsNotHandedOff id next → Acknowledged x (c ∷ cs) id db = λ still.
      later-Acknowledged x db c cs id (transitions-Acknowledged x cs next id t still found h) in
    elim (Option-cases (find_task id next.tasks)) [
      | inl e ↦ later (λ u f. absurd (ground arith))
      | inr (u, e) ↦ elim (Bool-cases (is_state u.state handed_off)) [
        | inl yet ↦ step-Acknowledged x db c id u fresh cs e (unfold is_state in ground arith)
        | inr not_yet ↦ later (λ v f g.
            let same : u ≡ v = ground arith in absurd (unfold is_state in ground (arith, same)))
      ]
    ]
