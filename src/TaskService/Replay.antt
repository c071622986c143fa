-- ===== src/TaskService/Replay.antt =====
-- A transition id is applied once: the same command again is answered from the log.
use mathews.TaskMachine.{TaskTransitionPlan}
use mathews.TaskService.{
  Task, TaskEvent, PolicyVersion, Database, Command, TaskTransitionResult, find_task,
  find_transition, ValidationCandidate,
}
use mathews.TaskService.Apply.{
  Externals, replayed_result, kind_rank, needs_candidate, same_candidate, command_fingerprint,
  apply_plan,
}
use mathews.TaskService.Transition.{
  valid_command, commit, new_event, locked_transition, with_task, transition_task,
}
use mathews.TaskService.Calls.{transitions, Holds, transitions-Holds}
use mathews.TaskService.Outcome.{replays, commits, transition_task-Outcome, snapshot_of}
use mathews.TaskService.Tasks.{find_task-id, find_task-update}
use mathlib.Core.Path.{subst}
use mathews.TaskMachine.Plans.{evaluate_task_transition-IsPlanFor}
use mathews.Common.{
  sym, ℕ, ◌≡◌, refl, true, Option, none, some, ok, arith, ==_refl, text_eq_refl, is_some, List, ap,
}

-- The same command at another time: a new event would get another identifier.
abbrev pub retry : Command → ℕ → ℕ → Command
retry c now event_id = record c { now = now; event_id = event_id }

valid-candidate :
    (c : Command)
    → valid_command c ≡ ok tt
    → needs_candidate c.kind ≡ true
    → is_some c.candidate ≡ true
unfolding valid_command
valid-candidate c h n = ground arith

same_candidate_refl :
    (o : Option ValidationCandidate) → is_some o ≡ true → same_candidate o o ≡ true
same_candidate_refl none h = cc
same_candidate_refl (some c) h = ground (arith, text_eq_refl c.commit_sha, text_eq_refl c.tree_sha)

-- What the log answers to the command of an event that it holds.
abbrev pub replay_of : TaskTransitionResult → TaskTransitionResult
replay_of r = record r { replayed = true }

module _ (x : Externals) (db : Database) (c : Command) (task : Task) (policy : PolicyVersion)
    (plan : TaskTransitionPlan) where
  commit-replayed :
      (now event_id : ℕ)
      → valid_command c ≡ ok tt
      → task.id ≡ c.task_id
      → plan.kind ≡ c.kind
      → replayed_result x (retry c now event_id) (new_event x db c task policy plan)
        ≡ ok (replay_of (commit x db c task policy plan).1)
  unfolding replayed_result new_event commit command_fingerprint
  commit-replayed now event_id v t k =
      rw (k, t)
        (ground (
          arith,
          ==_refl (kind_rank c.kind),
          ==_refl c.task_id,
          valid-candidate c v,
          same_candidate_refl c.candidate,
          ==_refl (command_fingerprint x c),
        ))

valid_command_ok :
    (x : Externals) (db : Database) (c : Command) {out : Database × TaskTransitionResult}
    → transition_task x db c ≡ ok out
    → valid_command c ≡ ok tt
unfolding transition_task
valid_command_ok x db c h = ground arith

replayed_result-replay_of :
    (x : Externals) (c : Command) (event : TaskEvent) (now event_id : ℕ) {r : TaskTransitionResult}
    → replayed_result x c event ≡ ok r
    → replayed_result x (retry c now event_id) event ≡ ok (replay_of r)
unfolding replayed_result command_fingerprint
replayed_result-replay_of x c event now event_id h = ground arith

is_some-eq-some : {A : Type 0} (o : Option A) → is_some o ≡ true → (a : A) × (o ≡ some a)
is_some-eq-some none h = cc
is_some-eq-some (some a) h = (a, refl)

-- A command is answered from the log when the log holds its transition id.
answered :
    (x : Externals) (db : Database) (c : Command) (task : Task) (event : TaskEvent)
    {r : TaskTransitionResult}
    → valid_command c ≡ ok tt
    → find_task c.task_id db.tasks ≡ some task
    → find_transition c.transition_id db.events ≡ some event
    → replayed_result x c event ≡ ok r
    → transition_task x db c ≡ ok (db, r)
unfolding transition_task with_task locked_transition
answered x db c task event v t e h = ground arith

-- The log holds an event that answers the command with the result.
record IsRecorded (x : Externals) (c : Command) (r : TaskTransitionResult) (db : Database)
    : Type 0 where
  event : TaskEvent
  valid : valid_command c ≡ ok tt
  there : Holds c.task_id c.transition_id event db
  answer : (now event_id : ℕ) → replayed_result x (retry c now event_id) event ≡ ok (replay_of r)

commit-IsRecorded :
    (x : Externals) (db : Database) (c : Command) (task : Task) (policy : PolicyVersion)
    (plan : TaskTransitionPlan)
    → valid_command c ≡ ok tt
    → find_task c.task_id db.tasks ≡ some task
    → plan.kind ≡ c.kind
    → IsRecorded x c (commit x db c task policy plan).1 (commit x db c task policy plan).0
unfolding commit find_transition new_event apply_plan
commit-IsRecorded x db c task policy plan v t k =
    let i : task.id ≡ c.task_id = find_task-id c.task_id db.tasks t in
    let updated = apply_plan plan c.actor_id c.event_id task in
    record {
      event = new_event x db c task policy plan;
      valid = v;
      there = record {
        task = ground (arith, find_task-update c.task_id db.tasks updated task, ==_refl c.task_id);
        event = ground (arith, ==_refl c.transition_id);
      };
      answer = λ now event_id. commit-replayed x db c task policy plan now event_id v i k;
    }

transition_task-IsRecorded :
    (x : Externals) (db : Database) (c : Command) {out : Database × TaskTransitionResult}
    → transition_task x db c ≡ ok out
    → IsRecorded x c out.1 out.0
transition_task-IsRecorded x db c h = elim (transition_task-Outcome x db c h) [
  | replays task event result t e q o ↦
      subst (λ w. IsRecorded x c w.1 w.0) (sym o)
        (record {
          event = event;
          valid = valid_command_ok x db c h;
          there = record { task = ap (λ o. is_some o) t; event = e };
          answer = λ now event_id. replayed_result-replay_of x c event now event_id q;
        })
  | commits task policy head guards plan t e s p g o ↦
      let k : plan.kind ≡ c.kind =
        (evaluate_task_transition-IsPlanFor (snapshot_of task head) c.kind guards p).same_kind in
      subst (λ w. IsRecorded x c w.1 w.0) (sym o)
        (commit-IsRecorded x db c task policy plan (valid_command_ok x db c h) t k)
]

-- After a command has succeeded, the same command succeeds after any later calls of
-- `_transition_task`, of whatever commands: it changes nothing in the database, and returns the event,
-- the sequence number and the states of the first call, marked as replayed.
pub transition_task_replayed :
    (x : Externals) (db : Database) (c : Command) (db' : Database) (r : TaskTransitionResult)
    (calls : List Command) (now event_id : ℕ)
    → transition_task x db c ≡ ok (db', r)
    → transition_task x (transitions x calls db') (retry c now event_id)
      ≡ ok (transitions x calls db', replay_of r)
transition_task_replayed x db c db' r calls now event_id h =
    let recorded = transition_task-IsRecorded x db c {out = (db', r)} h in
    let later =
      transitions-Holds x calls db' c.task_id c.transition_id recorded.event recorded.there in
    let (task, found) =
      is_some-eq-some (find_task c.task_id (transitions x calls db').tasks) later.task in
    answered x (transitions x calls db') (retry c now event_id) task recorded.event
      (unfold valid_command in recorded.valid) found later.event (recorded.answer now event_id)
