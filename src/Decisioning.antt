-- ===== src/Decisioning.antt =====
-- services/control-plane/src/mathews_control_plane/validation_decisioning.py: what a decision on a
-- validation run reads, and the keys of the documents in it.
--
-- UUIDs, commits, trees and texts are only compared, so they are numbers. `Texts` holds what the
-- standard library does with a text: the text of a UUID, the UUID of a text, and the evidence type
-- that a requirement names. `loads` is the content that `load_evidence` gives, if it gives one.
pub mod Operations
pub mod Statuses
pub mod Assess
pub mod Covered
pub mod Passes
pub mod Passed
pub mod Order
use mathews.TaskMachine.{TaskState}
use mathews.Common.{ℕ, Option, List, Text}
use mathews.Common.Json.{Json}

-- `ValidationOutcome`
pub data ValidationOutcome : Type 0 where
  outcome_pending outcome_passed outcome_failed : ValidationOutcome
  outcome_blocked outcome_escalated outcome_cancelled : ValidationOutcome

-- The statuses of results, with "INVALID".
pub data Verdict : Type 0 where
  is_invalid is_failed is_blocked is_pending is_passed : Verdict

-- The reason codes of an assessment.
pub data Reason : Type 0 where
  task_cancelled binding_stale rules_unsupported : Reason
  evidence_unavailable evidence_corrected required_evidence_missing : Reason
  manifest_invalid result_evidence_invalid results_invalid : Reason
  validation_failed requires_decision all_passed : Reason

pub data DecisionError : Type 0 where
  attempt_unavailable validation_paused binding_unavailable type_error : DecisionError

pub record ValidationRun : Type 0 where
  pub id : ℕ
  pub task_id : ℕ
  pub validation_contract_id : ℕ
  pub repository_configuration_id : ℕ
  pub commit_sha : ℕ
  pub tree_sha : ℕ
  pub operation_results : List Json
  pub assertion_results : List Json
  pub acceptance_criterion_results : List Json

pub record ValidationContract : Type 0 where
  pub id : ℕ
  pub task_id : ℕ
  pub brief_id : ℕ
  pub repository_configuration_id : ℕ
  pub version : ℕ
  pub required_operations : List Json
  pub typed_assertions : List Json
  pub evidence_requirements : List Json
  pub outcome_rules : Json

pub record RepositoryConfiguration : Type 0 where
  pub id : ℕ
  pub version : ℕ
  pub operations : List Json

pub record Brief : Type 0 where
  pub id : ℕ
  pub task_id : ℕ
  pub acceptance_criteria : List Json

-- The columns of `Task` that an assessment reads.
pub record AssessedTask : Type 0 where
  pub id : ℕ
  pub owner_id : ℕ
  pub state : TaskState
  pub escalation_resume_state : Option TaskState
  pub validation_contract_id : Option ℕ
  pub repository_configuration_id : Option ℕ

-- A `TaskEvent` that moved a task to VALIDATING by BEGIN_VALIDATION or REVALIDATE, with the
-- `validation_candidate` of its payload.
pub record Attempt : Type 0 where
  pub task_id : ℕ
  pub sequence : ℕ
  pub transition_id : Option ℕ
  pub candidate : Json

-- `EvidenceRecord`
pub record RunEvidence : Type 0 where
  pub id : ℕ
  pub owner_id : ℕ
  pub task_id : Option ℕ
  pub validation_run_id : Option ℕ
  pub evidence_type : ℕ
  pub correction_of_id : Option ℕ
  pub captured_at : ℕ

pub record Tables : Type 0 where
  pub attempts : List Attempt
  pub contracts : List ValidationContract
  pub configurations : List RepositoryConfiguration
  pub briefs : List Brief
  pub evidence : List RunEvidence

pub record Texts : Type 0 where
  pub uuid_text : ℕ → ℕ
  pub parse_uuid : ℕ → Option ℕ
  pub required_type : ℕ → ℕ
  pub loads : ℕ → Option Json

-- The keys, and the texts that are compared with a value.
abbrev pub key_operation_id : ℕ
key_operation_id = 1

abbrev pub key_kind : ℕ
key_kind = 2

abbrev pub key_schema_version : ℕ
key_schema_version = 3

abbrev pub key_operation_kind : ℕ
key_operation_kind = 4

abbrev pub key_head_sha : ℕ
key_head_sha = 5

abbrev pub key_tree_sha : ℕ
key_tree_sha = 6

abbrev pub key_configuration_id : ℕ
key_configuration_id = 7

abbrev pub key_configuration_version : ℕ
key_configuration_version = 8

abbrev pub key_validation_contract_version : ℕ
key_validation_contract_version = 9

abbrev pub key_passed : ℕ
key_passed = 10

abbrev pub key_repository_state_valid : ℕ
key_repository_state_valid = 11

abbrev pub key_exit_status : ℕ
key_exit_status = 12

abbrev pub key_output_limited : ℕ
key_output_limited = 13

abbrev pub key_cancellation_status : ℕ
key_cancellation_status = 14

abbrev pub text_not_requested : ℕ
text_not_requested = 15

abbrev pub key_assertion_id : ℕ
key_assertion_id = 16

abbrev pub key_verifier_catalog_key : ℕ
key_verifier_catalog_key = 17

abbrev pub key_status : ℕ
key_status = 18

abbrev pub text_pending : ℕ
text_pending = 19

abbrev pub text_passed : ℕ
text_passed = 20

abbrev pub text_failed : ℕ
text_failed = 21

abbrev pub text_blocked : ℕ
text_blocked = 22

abbrev pub key_criterion_id : ℕ
key_criterion_id = 23

abbrev pub key_commit_sha : ℕ
key_commit_sha = 24

abbrev pub key_evidence_type : ℕ
key_evidence_type = 25

abbrev pub key_evidence_ids : ℕ
key_evidence_ids = 26

abbrev pub key_validation_run_id : ℕ
key_validation_run_id = 27

abbrev pub key_validation_contract_id : ℕ
key_validation_contract_id = 28

abbrev pub key_repository_configuration_id : ℕ
key_repository_configuration_id = 29

abbrev pub key_repository_configuration_version : ℕ
key_repository_configuration_version = 30

abbrev pub key_all_required : ℕ
key_all_required = 31

abbrev pub text_evidence_manifest : ℕ
text_evidence_manifest = 32
