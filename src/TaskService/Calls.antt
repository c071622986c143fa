-- ===== src/TaskService/Calls.antt =====
-- services/control-plane/src/mathews_control_plane/task_service.py: sequences of calls of
-- `_transition_task`. A call that raises rolls its transaction back.
use mathews.Errors.{TransitionError}
use mathews.TaskMachine.{TaskTransitionPlan}
use mathews.TaskService.{
  Task, TaskEvent, PolicyVersion, Database, Command, TaskTransitionResult, find_task,
  find_transition,
}
use mathews.TaskService.Apply.{Externals, apply_plan}
use mathews.TaskService.Transition.{commit, new_event, transition_task}
use mathews.TaskService.Outcome.{replays, commits, transition_task-Outcome}
use mathews.TaskService.Tasks.{find_task-update, find_task_self}
use mathews.TaskService.Log.{IsAudited}
use mathews.TaskService.Audit.{transition_task-IsAudited}
use mathlib.Core.Path.{subst}
use mathews.Common.{
  ℕ, ◌≡◌, sym, true, is_some, none, some, List, [], ◌∷◌, Result, ok, err, arith, ◌==◌, inl, inr,
  Bool-cases, Result-cases,
}

abbrev pub committed :
    Database → Result TransitionError (Database × TaskTransitionResult) → Database
committed db (ok (db', _)) = db'
committed db (err _) = db

unfoldable pub transitions : Externals → List Command → Database → Database
transitions x [] db = db
transitions x (c ∷ cs) db = transitions x cs (committed db (transition_task x db c))

committed-IsAudited :
    (x : Externals) (c : Command) (db : Database)
    → IsAudited db
    → IsAudited (committed db (transition_task x db c))
committed-IsAudited x c db a = elim (Result-cases (transition_task x db c)) [
  | inl ((db', r), e) ↦ rw e (transition_task-IsAudited x db c db' r a e)
  | inr (raised, e) ↦ rw e a
]

pub transitions-IsAudited :
    (x : Externals) (cs : List Command) (db : Database)
    → IsAudited db
    → IsAudited (transitions x cs db)
unfolding transitions
transitions-IsAudited x [] db a = a
transitions-IsAudited x (c ∷ cs) db a =
    transitions-IsAudited x cs (committed db (transition_task x db c))
      (committed-IsAudited x c db a)

-- The task and the transition are there.
pub record Holds (task_id transition_id : ℕ) (held : TaskEvent) (db : Database) : Type 0 where
  pub task : is_some (find_task task_id db.tasks) ≡ true
  pub event : find_transition transition_id db.events ≡ some held

commit-Holds :
    (x : Externals) (db : Database) (c : Command) (task : Task) (policy : PolicyVersion)
    (plan : TaskTransitionPlan) (id n : ℕ) (event : TaskEvent)
    → find_task c.task_id db.tasks ≡ some task
    → find_transition c.transition_id db.events ≡ none
    → Holds id n event db
    → Holds id n event (commit x db c task policy plan).0
unfolding commit new_event find_transition apply_plan
commit-Holds x db c task policy plan id n event t e held = record {
  task = ground (
    arith,
    find_task-update id db.tasks (apply_plan plan c.actor_id c.event_id task) task
        (find_task_self c.task_id db.tasks task t),
    held.task,
  );
  event = elim (Bool-cases (c.transition_id == n)) [
    | inl same ↦
        let id_same : c.transition_id ≡ n = ground arith in
        let there = held.event in absurd (ground arith)
    | inr other ↦ rw other held.event
  ];
}

committed-Holds :
    (x : Externals) (c : Command) (db : Database) (id n : ℕ) (event : TaskEvent)
    → Holds id n event db
    → Holds id n event (committed db (transition_task x db c))
committed-Holds x c db id n event held = elim (Result-cases (transition_task x db c)) [
  | inr (raised, e) ↦ rw e held
  | inl (out, e) ↦ rw e (elim (transition_task-Outcome x db c e) [
    | replays task old result t k q o ↦ subst (λ w. Holds id n event w.0) (sym o) held
    | commits task policy head guards plan t k s p g o ↦
        subst (λ w. Holds id n event w.0) (sym o)
          (commit-Holds x db c task policy plan id n event t k held)
  ])
]

pub transitions-Holds :
    (x : Externals) (cs : List Command) (db : Database) (id n : ℕ) (event : TaskEvent)
    → Holds id n event db
    → Holds id n event (transitions x cs db)
unfolding transitions
transitions-Holds x [] db id n event held = held
transitions-Holds x (c ∷ cs) db id n event held =
    transitions-Holds x cs (committed db (transition_task x db c)) id n event
      (committed-Holds x c db id n event held)
