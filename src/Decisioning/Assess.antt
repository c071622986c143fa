-- ===== src/Decisioning/Assess.antt =====
-- services/control-plane/src/mathews_control_plane/validation_decisioning.py: `_assess` and what it
-- calls, on the tables of the model.
use mathews.TaskMachine.{TaskState, validating, escalated, cancelled, is_state}
use mathews.Common.{
  ℕ, Bool, true, false, not, ◌&&◌, ◌||◌, Option, none, some, List, [], ◌∷◌, ◌++◌, map, is_some, all,
  length, ltb, opt_eq, if◌then◌else◌, ◌==◌, Result, ok, err, ◌>>=◌, ◌>>◌, guard,
}
use mathews.Common.Json.{
  pos, Json, bool, Items, nil, cons, arr, obj, get, has_field, size, as_str, is_str, equals_int,
  same_json, field, end,
}
use mathews.Common.Queries.{any, find, filter, sort_by, first, member, is_subset, same_set}
use mathews.Decisioning.{
  ValidationOutcome, outcome_passed, outcome_failed, outcome_blocked, outcome_escalated,
  outcome_cancelled, Verdict, is_invalid, is_failed, is_blocked, is_pending, Reason, task_cancelled,
  binding_stale, rules_unsupported, evidence_unavailable, evidence_corrected,
  required_evidence_missing, manifest_invalid, result_evidence_invalid, results_invalid,
  validation_failed, requires_decision, all_passed, DecisionError, attempt_unavailable,
  validation_paused, binding_unavailable, ValidationRun, ValidationContract,
  RepositoryConfiguration, Brief, AssessedTask, Attempt, RunEvidence, Tables, Texts,
  key_evidence_type, key_evidence_ids, key_validation_run_id, key_validation_contract_id,
  key_validation_contract_version, key_repository_configuration_id,
  key_repository_configuration_version, key_commit_sha, key_tree_sha, key_all_required,
  text_evidence_manifest,
}
use mathews.Decisioning.Operations.{operation_status}
use mathews.Decisioning.Statuses.{is_in, assertion_status, criterion_status}

-- `_required_evidence_types`, with the types known. `none` where a requirement is unfit.
unfoldable pub evidence_types : Texts → List ℕ → List Json → Option (List ℕ)
evidence_types x known [] = some known
evidence_types x known (value ∷ values) = elim (as_str (get key_evidence_type value)) [
  | none ↦ none
  | some type ↦
      if member (x.required_type type) known
      then none
      else evidence_types x (x.required_type type ∷ known) values
]

abbrev or_none : List ℕ → Option (List ℕ)
or_none [] = none
or_none (y ∷ ys) = some (y ∷ ys)

unfoldable pub required_evidence_types : Texts → List Json → Option (List ℕ)
required_evidence_types x values = elim (evidence_types x [] values) [
  | none ↦ none
  | some types ↦ or_none types
]

-- The UUIDs of a list of texts; `none` where an item is no text or no UUID.
unfoldable pub parse_ids : Texts → Items → Option (List ℕ)
parse_ids x nil = some []
parse_ids x (cons value values) = elim (as_str value) [
  | none ↦ none
  | some text ↦ elim (x.parse_uuid text) [
    | none ↦ none
    | some id ↦ elim (parse_ids x values) [ none ↦ none | some ids ↦ some (id ∷ ids) ]
  ]
]

abbrev pub evidence_ids_of : Texts → Json → Option (List ℕ)
evidence_ids_of x (arr items) = parse_ids x items
evidence_ids_of x _ = none

-- `_result_evidence_ids`
unfoldable pub result_evidence_ids : Texts → List Json → Option (List ℕ)
result_evidence_ids x [] = some []
result_evidence_ids x (value ∷ values) = elim (evidence_ids_of x (get key_evidence_ids value)) [
  | none ↦ none
  | some ids ↦ elim (result_evidence_ids x values) [ none ↦ none | some rest ↦ some (ids ++ rest) ]
]

abbrev pub lists_ids : List ℕ → Option (List ℕ) → Bool
lists_ids ids none = false
lists_ids ids (some listed) = same_set listed ids

-- `_valid_manifest`
unfoldable pub valid_manifest :
    Texts → ValidationRun → ValidationContract → RepositoryConfiguration → List ℕ → Json → Bool
valid_manifest x run contract configuration ids value =
    is_str (x.uuid_text run.id) (get key_validation_run_id value)
    && is_str (x.uuid_text contract.id) (get key_validation_contract_id value)
    && equals_int (pos contract.version) (get key_validation_contract_version value)
    && is_str (x.uuid_text configuration.id) (get key_repository_configuration_id value)
    && equals_int (pos configuration.version) (get key_repository_configuration_version value)
    && is_str run.commit_sha (get key_commit_sha value)
    && is_str run.tree_sha (get key_tree_sha value)
    && lists_ids ids (evidence_ids_of x (get key_evidence_ids value))

-- The evidence of the run that corrects no other, in the order of its capture.
abbrev captured_order : RunEvidence → RunEvidence → Bool
captured_order a b =
    ltb a.captured_at b.captured_at || a.captured_at == b.captured_at && ltb a.id b.id

unfoldable pub run_records : Tables → ValidationRun → List RunEvidence
run_records t run = sort_by captured_order (
    filter
      (λ (e : RunEvidence).
        opt_eq e.validation_run_id (some run.id) && not (is_some e.correction_of_id))
      t.evidence)

abbrev pub is_manifest : RunEvidence → Bool
is_manifest e = e.evidence_type == text_evidence_manifest

abbrev corrects : List ℕ → RunEvidence → Bool
corrects ids e = elim e.correction_of_id [ none ↦ false | some id ↦ member id ids ]

abbrev evidence_id : RunEvidence → ℕ
evidence_id e = e.id

abbrev type_of : RunEvidence → ℕ
type_of e = e.evidence_type

-- `isinstance(candidate, Mapping)` and `set(candidate) == {"commit_sha", "tree_sha"}`
abbrev pub has_candidate_keys : Json → Bool
has_candidate_keys (obj fields) =
    size fields == 2 && has_field key_commit_sha fields && has_field key_tree_sha fields
has_candidate_keys _ = false

-- What an assessment concludes.
pub record Assessed : Type 0 where
  pub outcome : ValidationOutcome
  pub reason : Reason
  pub source_evidence_ids : List ℕ

abbrev pub conclude : ValidationOutcome → Reason → List ℕ → Assessed
conclude outcome reason ids = record {
  outcome = outcome;
  reason = reason;
  source_evidence_ids = ids;
}

module _ (x : Texts) (t : Tables) (task : AssessedTask) (run : ValidationRun)
    (contract : ValidationContract) (configuration : RepositoryConfiguration) where
  -- One manifest, and one record for each required type, all of the task and its owner.
  unfoldable pub has_required_evidence : Option (List ℕ) → List RunEvidence → Bool
  has_required_evidence none records = false
  has_required_evidence (some types) records =
      let sources = filter (λ e. not (is_manifest e)) records in
      length (filter is_manifest records) == 1
      && same_set (map type_of sources) types
      && length sources == length types
      && all (λ (e : RunEvidence). e.owner_id == task.owner_id && opt_eq e.task_id (some task.id))
          records

  -- The manifest is valid for the records beside it.
  unfoldable pub has_valid_manifest : Option RunEvidence → List RunEvidence → Bool
  has_valid_manifest none records = false
  has_valid_manifest (some manifest) records = elim (x.loads manifest.id) [
    | none ↦ false
    | some value ↦
        valid_manifest x run contract configuration
          (map evidence_id (filter (λ e. not (is_manifest e)) records)) value
  ]

  abbrev pub within : List ℕ → Option (List ℕ) → Bool
  within ids none = false
  within ids (some referenced) = is_subset referenced ids

  -- The evidence that the results name is among the records beside the manifest.
  unfoldable pub has_result_evidence : List RunEvidence → Bool
  has_result_evidence records =
      within (map evidence_id (filter (λ e. not (is_manifest e)) records)) (
        result_evidence_ids x
          (run.operation_results ++ run.assertion_results ++ run.acceptance_criterion_results))

  -- From the three statuses.
  unfoldable pub conclude_statuses : List ℕ → List Verdict → Assessed
  conclude_statuses ids statuses =
      if is_in is_invalid statuses
      then conclude outcome_escalated results_invalid ids
      else if is_in is_failed statuses
      then conclude outcome_failed validation_failed ids
      else if is_in is_blocked statuses || is_in is_pending statuses
      then conclude outcome_escalated requires_decision ids
      else conclude outcome_passed all_passed ids

  -- `_assess_complete_run`
  unfoldable pub assess_complete_run : Result DecisionError Assessed
  assess_complete_run =
      let records = run_records t run in
      let ids = map evidence_id records in
      if not (all (λ (e : RunEvidence). is_some (x.loads e.id)) records)
      then ok (conclude outcome_escalated evidence_unavailable ids)
      else if any (corrects ids) t.evidence
      then ok (conclude outcome_escalated evidence_corrected ids)
      else if not
          (has_required_evidence (required_evidence_types x contract.evidence_requirements) records)
      then ok (conclude outcome_escalated required_evidence_missing ids)
      else if not (has_valid_manifest (first (filter is_manifest records)) records)
      then ok (conclude outcome_escalated manifest_invalid ids)
      else if not (has_result_evidence records)
      then ok (conclude outcome_escalated result_evidence_invalid ids)
      else (assertion_status run contract >>= λ assertion.
          criterion_status run contract task
            (find (λ (b : Brief). b.id == contract.brief_id) t.briefs)
          >>= λ criterion. ok (
              conclude_statuses ids
                (operation_status x run contract configuration ∷ assertion ∷ criterion ∷ [])))

  -- The run is the one that the task waits for, on the commit and tree of the attempt.
  unfoldable pub is_bound : Json → Bool
  is_bound candidate =
      is_state task.state validating
      && opt_eq task.validation_contract_id (some run.validation_contract_id)
      && opt_eq task.repository_configuration_id (some run.repository_configuration_id)
      && contract.task_id == task.id
      && contract.repository_configuration_id == configuration.id
      && has_candidate_keys candidate
      && is_str run.commit_sha (get key_commit_sha candidate)
      && is_str run.tree_sha (get key_tree_sha candidate)

  -- From the load of the contract and the configuration on.
  unfoldable pub assess_bound : Json → Result DecisionError Assessed
  assess_bound candidate =
      if is_state task.state cancelled
      then ok (conclude outcome_cancelled task_cancelled [])
      else if not (is_bound candidate)
      then ok (conclude outcome_blocked binding_stale [])
      else if not (same_json contract.outcome_rules (obj (field key_all_required (bool true) end)))
      then ok (conclude outcome_escalated rules_unsupported [])
      else assess_complete_run

-- `_latest_validation_attempt`
unfoldable pub latest_attempt : ℕ → List Attempt → Option Attempt
latest_attempt task_id attempts = first (
    sort_by (λ (a : Attempt) (b : Attempt). ltb b.sequence a.sequence)
      (filter (λ (a : Attempt). a.task_id == task_id) attempts))

-- A row that must be there.
abbrev found : {A : Type 0} → Option A → DecisionError → Result DecisionError A
found none e = err e
found (some a) e = ok a

abbrev resumes_validating : Option TaskState → Bool
resumes_validating none = false
resumes_validating (some state) = is_state state validating

-- A task that waits in ESCALATED to validate again.
unfoldable pub is_paused : AssessedTask → Bool
is_paused task = is_state task.state escalated && resumes_validating task.escalation_resume_state

-- `_assess`: the attempt's transition and the conclusion.
unfoldable pub assess :
    Texts → Tables → AssessedTask → ValidationRun → Result DecisionError (ℕ × Assessed)
assess x t task run = do
  attempt ← found (latest_attempt task.id t.attempts) attempt_unavailable
  transition_id ← found attempt.transition_id attempt_unavailable
  guard (not (is_paused task)) validation_paused
  contract ←
      found (find (λ (c : ValidationContract). c.id == run.validation_contract_id) t.contracts)
        binding_unavailable
  configuration ←
      found
        (find (λ (c : RepositoryConfiguration). c.id == run.repository_configuration_id)
          t.configurations)
        binding_unavailable
  assessed ← assess_bound x t task run contract configuration attempt.candidate
  ok (transition_id, assessed)
