-- ===== src/TaskService/Apply.antt =====
-- services/control-plane/src/mathews_control_plane/task_state_machine.py: `_transition_task`.
--
-- What other modules of the program decide enters as `Externals`: the gate evaluator, the hash of a
-- command, whether a policy authorizes a repository, and whether stored evidence can be loaded.
use mathews.Errors.{TransitionError, not_found, conflict}
unfoldable pub use mathews.Common.Queries.{member}
use mathews.TaskMachine.{
  TaskState, TaskTransitionKind, start_briefing, auto_accept_brief, request_brief_approval,
  revise_brief, approve_exact_brief, begin_validation, begin_repair, revalidate,
  open_verified_draft_pr, mark_merge_ready, invalidate_readiness, acknowledge_handoff, escalate,
  resume, cancel, fail, scope_steer, TaskTransitionGuards, TaskTransitionPlan,
}
use mathews.TaskService.{
  ValidationCandidate, Task, TaskEvent, PolicyVersion, EvidenceRecord, Database, Command,
  TaskTransitionResult,
}
use mathews.Common.{
  ℕ, ◌+◌, Bool, true, false, not, ◌&&◌, ◌||◌, Option, none, some, List, [], ◌∷◌, Text, Result, ok,
  err, ◌>>◌, guard, ◌==◌, leb, if◌then◌else◌, text_eq, opt_eq,
}

-- What `_command_fingerprint` hashes.
pub record FingerprintInput : Type 0 where
  pub actor_id : Text
  pub evidence_ids : List ℕ
  pub expected_state : TaskState
  pub kind : TaskTransitionKind
  pub reason_code : Text
  pub task_id : ℕ
  pub transition_id : ℕ
  pub candidate : Option ValidationCandidate

pub record Externals : Type 0 where
  pub digest : FingerprintInput → ℕ
  pub policy_authorizes_repository : PolicyVersion → ℕ → Bool
  pub loads : EvidenceRecord → Bool
  pub evaluate : Database → Task → TaskTransitionKind → PolicyVersion → ℕ → TaskTransitionGuards

-- The order of the members, by which kinds are compared.
abbrev pub kind_rank : TaskTransitionKind → ℕ
kind_rank start_briefing = 0
kind_rank auto_accept_brief = 1
kind_rank request_brief_approval = 2
kind_rank revise_brief = 3
kind_rank approve_exact_brief = 4
kind_rank begin_validation = 5
kind_rank begin_repair = 6
kind_rank revalidate = 7
kind_rank open_verified_draft_pr = 8
kind_rank mark_merge_ready = 9
kind_rank invalidate_readiness = 10
kind_rank acknowledge_handoff = 11
kind_rank escalate = 12
kind_rank resume = 13
kind_rank cancel = 14
kind_rank fail = 15
kind_rank scope_steer = 16

-- `kind in {BEGIN_VALIDATION, REVALIDATE}`
abbrev pub needs_candidate : TaskTransitionKind → Bool
needs_candidate begin_validation = true
needs_candidate revalidate = true
needs_candidate _ = false

-- Identifiers in order, as `sorted` gives them.
unfoldable pub insert_sorted : ℕ → List ℕ → List ℕ
insert_sorted x [] = x ∷ []
insert_sorted x (y ∷ ys) = if leb x y then x ∷ y ∷ ys else y ∷ insert_sorted x ys

unfoldable pub sorted : List ℕ → List ℕ
sorted [] = []
sorted (x ∷ xs) = insert_sorted x (sorted xs)

-- `len(dict.fromkeys(ids)) == len(ids)`
unfoldable pub is_unique : List ℕ → Bool
is_unique [] = true
is_unique (x ∷ xs) = not (member x xs) && is_unique xs

-- `_command_fingerprint`
unfoldable pub command_fingerprint : Externals → Command → ℕ
command_fingerprint x c = x.digest (record {
  actor_id = c.actor_id;
  evidence_ids = sorted c.evidence_ids;
  expected_state = c.expected_state;
  kind = c.kind;
  reason_code = c.reason_code;
  task_id = c.task_id;
  transition_id = c.transition_id;
  candidate = c.candidate;
})

abbrev pub same_candidate : Option ValidationCandidate → Option ValidationCandidate → Bool
same_candidate (some c) (some d) =
    text_eq c.commit_sha d.commit_sha && text_eq c.tree_sha d.tree_sha
same_candidate _ _ = false

-- `_replayed_result`
unfoldable pub replayed_result :
    Externals → Command → TaskEvent → Result TransitionError TaskTransitionResult
replayed_result x c event = do
  guard
      (event.task_id == c.task_id
        && kind_rank event.transition_kind == kind_rank c.kind
        && (not (needs_candidate c.kind) || same_candidate event.candidate c.candidate)
        && event.transition_fingerprint == command_fingerprint x c)
      conflict
  ok (record {
    task_id = c.task_id;
    transition_id = c.transition_id;
    event_id = event.id;
    sequence = event.sequence;
    from_state = event.transition_from_state;
    to_state = event.transition_to_state;
    replayed = true;
  })

unfoldable pub find_evidence : ℕ → List EvidenceRecord → Option EvidenceRecord
find_evidence id [] = none
find_evidence id (e ∷ es) = if e.id == id then some e else find_evidence id es

-- `evidence_id in correction_source_ids`
unfoldable pub is_corrected : ℕ → List EvidenceRecord → Bool
is_corrected id [] = false
is_corrected id (e ∷ es) = opt_eq e.correction_of_id (some id) || is_corrected id es

-- One reference of `_verify_transition_evidence`.
unfoldable pub verified_record : Externals → Database → Task → Option EvidenceRecord → Bool
verified_record x db task none = false
verified_record x db task (some r) =
    r.task_id == task.id
    && r.owner_id == task.owner_id
    && r.root_correlation_id == task.root_correlation_id
    && not (is_corrected r.id db.evidence)
    && not (member r.id db.deletion_requests)
    && x.loads r

-- `_verify_transition_evidence`
unfoldable pub verify_transition_evidence :
    Externals → Database → Task → List ℕ → Result TransitionError (Unit {0})
verify_transition_evidence x db task [] = ok tt
verify_transition_evidence x db task (id ∷ ids) = do
  guard (verified_record x db task (find_evidence id db.evidence)) not_found
  verify_transition_evidence x db task ids

-- `_active_policy`
unfoldable pub active_policy :
    Externals → Task → Option PolicyVersion → Result TransitionError PolicyVersion
active_policy x task none = err not_found
active_policy x task (some policy) = do
  guard (x.policy_authorizes_repository policy task.repository) not_found
  ok policy

-- The projection of an accepted plan on the task.
unfoldable pub apply_plan : TaskTransitionPlan → Text → ℕ → Task → Task
apply_plan plan actor event_id task = record task {
  state = plan.to_state;
  escalation_resume_state = plan.escalation_resume_state;
  terminal_outcome = plan.terminal_outcome;
  retry_count = task.retry_count + plan.retry_delta;
  actor_id = actor;
  causation_id = some event_id;
  accepted_brief_id = if plan.invalidate_scope_bindings then none else task.accepted_brief_id;
  brief_approval_decision_id =
      if plan.invalidate_scope_bindings then none else task.brief_approval_decision_id;
  validation_contract_id =
      if plan.invalidate_scope_bindings then none else task.validation_contract_id;
}

unfoldable pub update_task : Task → List Task → List Task
update_task t [] = []
update_task t (u ∷ us) = if u.id == t.id then t ∷ us else u ∷ update_task t us
