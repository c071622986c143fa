-- ===== src/TaskService/Log.antt =====
-- The audit log of a task as a path in the transition diagram.
use mathews.TaskMachine.{
  TaskState, intake, escalated, TaskTransitionKind, TaskTransitionGuards, TaskTransitionSnapshot,
  is_state,
}
use mathews.TaskMachine.Edges.{Permits}
use mathews.TaskMachine.Engine.{is_repair}
use mathews.TaskMachine.Plans.{outcome_of}
use mathews.TaskService.{Task, TaskEvent, Database, find_task}
use mathews.Common.{ℕ, ◌+◌, ◌<◌, ◌≡◌, Option, none, some, List, [], ◌∷◌, ◌==◌, if◌then◌else◌}

-- The events of one task, the newest first.
unfoldable pub history : ℕ → List TaskEvent → List TaskEvent
history id [] = []
history id (e ∷ es) = if e.task_id == id then e ∷ history id es else history id es

-- The state in which a task stood when its newest event happened.
abbrev pub last_from : List TaskEvent → Option TaskState
last_from [] = none
last_from (e ∷ es) = some e.transition_from_state

-- The state to which an escalated task may resume, by the log.
abbrev pub resumable : TaskState → List TaskEvent → Option TaskState
resumable s h = if is_state s escalated then last_from h else none

-- The diagram permits a transition of the kind, for some snapshot of the state and some guards.
abbrev pub Edge : Option TaskState → TaskState → TaskTransitionKind → TaskState → Type 0
Edge recorded a k b =
    (s : TaskTransitionSnapshot) × (g : TaskTransitionGuards) × ((s.state ≡ a)
      × (s.escalation_resume_state ≡ recorded)
      × Permits s g k b)

-- From `INTAKE` to `s` by permitted transitions, each from the state to which the last one led.
abbrev pub IsPath : TaskState → List TaskEvent → Type 0
IsPath s [] = s ≡ intake
IsPath s (e ∷ es) =
    (e.transition_to_state ≡ s)
    × Edge (resumable e.transition_from_state es) e.transition_from_state e.transition_kind
        e.transition_to_state
    × IsPath e.transition_from_state es

-- Every sequence number in the list lies below `n`.
abbrev pub AllBelow : ℕ → List TaskEvent → Type 0
AllBelow n [] = Unit
AllBelow n (e ∷ es) = (e.sequence < n) × AllBelow n es

-- The newest event has the highest sequence number, and so on down.
abbrev pub IsDescending : List TaskEvent → Type 0
IsDescending [] = Unit
IsDescending (e ∷ es) = AllBelow e.sequence es × IsDescending es

abbrev pub repairs : List TaskEvent → ℕ
repairs [] = 0
repairs (e ∷ es) = (if is_repair e.transition_kind then 1 else 0) + repairs es

-- The columns of a task are the projection of its log.
pub record IsProjection (t : Task) (h : List TaskEvent) : Type 0 where
  pub path : IsPath t.state h
  pub resume_state : t.escalation_resume_state ≡ resumable t.state h
  pub outcome : t.terminal_outcome ≡ outcome_of t.state
  pub retries : t.retry_count ≡ repairs h
  pub numbered : IsDescending h

abbrev pub IsAudited : Database → Type 0
IsAudited db =
    (id : ℕ) (t : Task) → find_task id db.tasks ≡ some t → IsProjection t (history id db.events)
