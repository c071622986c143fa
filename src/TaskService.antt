-- ===== src/TaskService.antt =====
-- services/control-plane/src/mathews_control_plane/task_state_machine.py: `_transition_task`, the
-- transaction that audits and applies one transition, and what it reads of the database.
--
-- UUIDs, owners, lineages and repositories are only compared, so they are numbers. The actor and
-- the reason code are the texts that `_required_actor` and `_required_reason_code` return; both
-- functions run before the database is read. Column values that nothing reads back, such as the
-- payload's copy of the gate facts, are left out of an event.
pub mod Apply
pub mod Transition
pub mod Outcome
pub mod Tasks
pub mod Replay
pub mod Log
pub mod Audit
pub mod Calls
pub mod Acknowledged
pub mod Lifecycle
use mathews.Errors.{TransitionError, bad_evidence_list, bad_candidate, not_found, conflict}
use mathews.GitObject.{normalized_git_sha}
use mathews.TaskMachine.{
  TaskState, TaskTerminalOutcome, TaskTransitionKind, begin_validation, revalidate,
  TaskTransitionGuards, TaskTransitionSnapshot, TaskTransitionPlan, is_state,
}
use mathews.Common.{
  ℕ, ◌+◌, ◌≡◌, Bool, true, false, not, ◌&&◌, ◌||◌, Option, none, some, List, [], ◌∷◌, Text, Result,
  ok, err, ◌>>=◌, ◌>>◌, guard, ◌==◌, leb, ltb, if◌then◌else◌, is_some, text_eq, length, max,
}

-- `ValidationCandidate`, with the object ids normalized by `__post_init__`.
pub record ValidationCandidate : Type 0 where
  pub commit_sha : Text
  pub tree_sha : Text

unfoldable pub validation_candidate : Text → Text → Result TransitionError ValidationCandidate
validation_candidate commit tree = do
  commit_sha ← normalized_git_sha commit
  tree_sha ← normalized_git_sha tree
  ok (record { commit_sha = commit_sha; tree_sha = tree_sha })

-- The columns of `Task` that a transition reads or writes.
pub record Task : Type 0 where
  pub id : ℕ
  pub owner_id : ℕ
  pub repository : ℕ
  pub root_correlation_id : ℕ
  pub state : TaskState
  pub escalation_resume_state : Option TaskState
  pub terminal_outcome : Option TaskTerminalOutcome
  pub retry_count : ℕ
  pub actor_id : Text
  pub causation_id : Option ℕ
  pub accepted_brief_id : Option ℕ
  pub brief_approval_decision_id : Option ℕ
  pub validation_contract_id : Option ℕ

-- A `TaskEvent` of the type `TASK_STATE_TRANSITION`.
pub record TaskEvent : Type 0 where
  pub id : ℕ
  pub task_id : ℕ
  pub sequence : ℕ
  pub occurred_at : ℕ
  pub transition_id : ℕ
  pub transition_fingerprint : ℕ
  pub transition_kind : TaskTransitionKind
  pub transition_from_state : TaskState
  pub transition_to_state : TaskState
  pub transition_reason_code : Text
  pub policy_version_id : ℕ
  pub gate_head_sha : Option Text
  pub candidate : Option ValidationCandidate
  pub actor_id : Text
  pub evidence_ids : List ℕ

pub record PolicyVersion : Type 0 where
  pub id : ℕ
  pub lineage_key : ℕ
  pub owner_id : ℕ
  pub version : ℕ
  pub approved_at : ℕ

pub record EvidenceRecord : Type 0 where
  pub id : ℕ
  pub task_id : ℕ
  pub owner_id : ℕ
  pub root_correlation_id : ℕ
  pub correction_of_id : Option ℕ

pub record Database : Type 0 where
  pub tasks : List Task
  -- The events of the type `TASK_STATE_TRANSITION`, the newest first.
  pub events : List TaskEvent
  -- Task and sequence number of the events of every other type.
  pub other_events : List (ℕ × ℕ)
  pub policies : List PolicyVersion
  pub evidence : List EvidenceRecord
  pub deletion_requests : List ℕ

-- The arguments of `_transition_task`. `event_id` is the identifier that the new event is given.
pub record Command : Type 0 where
  pub task_id : ℕ
  pub transition_id : ℕ
  pub expected_state : TaskState
  pub kind : TaskTransitionKind
  pub reason_code : Text
  pub actor_id : Text
  pub evidence_ids : List ℕ
  pub candidate : Option ValidationCandidate
  pub active_policy_lineage : ℕ
  pub now : ℕ
  pub event_id : ℕ

-- `TaskTransitionResult`
pub record TaskTransitionResult : Type 0 where
  pub task_id : ℕ
  pub transition_id : ℕ
  pub event_id : ℕ
  pub sequence : ℕ
  pub from_state : TaskState
  pub to_state : TaskState
  pub replayed : Bool

-- `select(Task).where(Task.id == task_id)`
unfoldable pub find_task : ℕ → List Task → Option Task
find_task id [] = none
find_task id (t ∷ ts) = if t.id == id then some t else find_task id ts

-- `select(TaskEvent).where(TaskEvent.transition_id == transition_id)`
unfoldable pub find_transition : ℕ → List TaskEvent → Option TaskEvent
find_transition id [] = none
find_transition id (e ∷ es) = if e.transition_id == id then some e else find_transition id es

-- `select(func.max(TaskEvent.sequence)).where(TaskEvent.task_id == task_id)`, 0 where there is none,
-- over the events of either kind.
unfoldable pub max_sequence : ℕ → List TaskEvent → ℕ
max_sequence id [] = 0
max_sequence id (e ∷ es) = max (if e.task_id == id then e.sequence else 0) (max_sequence id es)

unfoldable pub max_other_sequence : ℕ → List (ℕ × ℕ) → ℕ
max_other_sequence id [] = 0
max_other_sequence id ((task_id, sequence) ∷ es) =
    max (if task_id == id then sequence else 0) (max_other_sequence id es)

-- `_next_event_sequence`
unfoldable pub next_event_sequence : ℕ → Database → ℕ
next_event_sequence id db =
    max (max_sequence id db.events) (max_other_sequence id db.other_events) + 1

-- The later of an event's gate head and the latest one of the events behind it.
abbrev newer_gate_head : ℕ → Option Text → Option (ℕ × Text) → Option (ℕ × Text)
newer_gate_head sequence none rest = rest
newer_gate_head sequence (some head) none = some (sequence, head)
newer_gate_head sequence (some head) (some (other, head')) =
    if ltb sequence other then some (other, head') else some (sequence, head)

-- The gate head of the event with the highest sequence among those of the task that have one.
unfoldable pub latest_gate_head : ℕ → List TaskEvent → Option (ℕ × Text)
latest_gate_head id [] = none
latest_gate_head id (e ∷ es) =
    let rest = latest_gate_head id es in
    if e.task_id == id then newer_gate_head e.sequence e.gate_head_sha rest else rest

-- A stored head that does not normalize is a conflict.
abbrev stored_head : Option (ℕ × Text) → Result TransitionError (Option Text)
stored_head none = ok none
stored_head (some (sequence, head)) = elim (normalized_git_sha head) [
  | ok normalized ↦ ok (some normalized)
  | err e ↦ err conflict
]

-- `_latest_verified_pr_head`
unfoldable pub latest_verified_pr_head : ℕ → List TaskEvent → Result TransitionError (Option Text)
latest_verified_pr_head id events = stored_head (latest_gate_head id events)

abbrev newer_policy : PolicyVersion → Option PolicyVersion → Option PolicyVersion
newer_policy p none = some p
newer_policy p (some q) = if ltb p.version q.version then some q else some p

-- The query of `_active_policy`: the approved policy version of the lineage and owner with the highest version.
unfoldable pub newest_policy : ℕ → ℕ → ℕ → List PolicyVersion → Option PolicyVersion
newest_policy lineage owner now [] = none
newest_policy lineage owner now (p ∷ ps) =
    let rest = newest_policy lineage owner now ps in
    if p.lineage_key == lineage && p.owner_id == owner && leb p.approved_at now
    then newer_policy p rest
    else rest
