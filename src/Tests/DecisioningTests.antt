-- ===== src/Tests/DecisioningTests.antt =====
-- A validation run on concrete documents.
use mathews.TaskMachine.{is_state, validating}
use mathews.Common.{
  ℕ, ◌+◌, ◌-◌, ◌≡◌, refl, true, false, none, some, [], ◌∷◌, ok, err, ◌==◌, if◌then◌else◌,
}
use mathews.Common.Dict.{lookup}
use mathews.Common.Json.{
  pos, Json, null, bool, int, str, arr, obj, nil, cons, end, field, get_field, has_field, size,
  same_json,
}
use mathews.Common.Queries.{any, find, filter, insert_by, sort_by, member, is_subset, same_set}
use mathews.Decisioning.{
  outcome_passed, outcome_failed, all_passed, validation_failed, type_error, ValidationRun,
  ValidationContract, RepositoryConfiguration, AssessedTask, Attempt, RunEvidence, Tables, Texts,
  key_operation_id, key_kind, key_schema_version, key_operation_kind, key_head_sha, key_tree_sha,
  key_configuration_id, key_configuration_version, key_validation_contract_version, key_passed,
  key_repository_state_valid, key_exit_status, key_output_limited, key_cancellation_status,
  text_not_requested, key_assertion_id, key_verifier_catalog_key, key_status, text_passed,
  key_criterion_id, key_commit_sha, key_evidence_type, key_evidence_ids, key_validation_run_id,
  key_validation_contract_id, key_repository_configuration_id, key_repository_configuration_version,
  key_all_required, text_evidence_manifest,
}
use mathews.Decisioning.Operations.{
  configured_operations, required_ids, is_operation_result, expected_passed, check_operations,
  operation_status,
}
use mathews.Decisioning.Statuses.{
  combined_status, status_of, check_statuses, required_assertions, is_assertion_result,
  assertion_status, is_criterion_result, criterion_status,
}
use mathews.Decisioning.Assess.{
  evidence_types, required_evidence_types, parse_ids, result_evidence_ids, valid_manifest,
  run_records, conclude, has_required_evidence, has_valid_manifest, has_result_evidence,
  conclude_statuses, assess_complete_run, is_bound, assess_bound, latest_attempt, is_paused, assess,
}
use mathews.Decisioning.Passes.{IsBound}
use mathews.Decisioning.Passed.{Covered, assess-Covered}

computes : ℕ
unfolding lookup get_field has_field size same_json any find filter insert_by sort_by member
    is_subset same_set configured_operations required_ids is_operation_result expected_passed
    check_operations operation_status combined_status status_of check_statuses required_assertions
    is_assertion_result assertion_status is_criterion_result criterion_status evidence_types
    required_evidence_types parse_ids result_evidence_ids valid_manifest run_records
    has_required_evidence has_valid_manifest has_result_evidence conclude_statuses
    assess_complete_run is_bound assess_bound latest_attempt is_paused assess is_state
computes = 0

-- The evidence 91 is the log, and 92 the manifest that names it.
abbrev manifest : Json
manifest = obj (
    field key_validation_run_id (str 1011) (
      field key_validation_contract_id (str 1012) (
        field key_validation_contract_version (int (pos 3)) (
          field key_repository_configuration_id (str 1013) (
            field key_repository_configuration_version (int (pos 2)) (
              field key_commit_sha (str 700) (
                field key_tree_sha (str 800)
                  (field key_evidence_ids (arr (cons (str 1091) nil)) end))))))))

abbrev texts : Texts
texts = record {
  uuid_text = λ id. id + 1000;
  parse_uuid = λ text. some (text - 1000);
  required_type = λ type. type + 500;
  loads = λ id. if id == 92 then some manifest else some null;
}

abbrev run : ℕ → ValidationRun
run exit_status = record {
  id = 11;
  task_id = 7;
  validation_contract_id = 12;
  repository_configuration_id = 13;
  commit_sha = 700;
  tree_sha = 800;
  operation_results =
      obj (
        field key_operation_id (str 41) (
          field key_schema_version (int (pos 1)) (
            field key_operation_kind (str 42) (
              field key_head_sha (str 700) (
                field key_tree_sha (str 800) (
                  field key_configuration_id (str 1013) (
                    field key_configuration_version (int (pos 2)) (
                      field key_validation_contract_version (int (pos 3)) (
                        field key_passed (bool (exit_status == 0)) (
                          field key_repository_state_valid (bool true) (
                            field key_exit_status (int (pos exit_status)) (
                              field key_output_limited (bool false) (
                                field key_cancellation_status (str text_not_requested) (
                                  field key_evidence_ids (arr (cons (str 1091) nil))
                                    end))))))))))))))
      ∷ [];
  assertion_results =
      obj (
        field key_assertion_id (str 51) (
          field key_kind (str 52) (
            field key_verifier_catalog_key (str 53) (
              field key_status (str text_passed)
                (field key_evidence_ids (arr (cons (str 1091) nil)) end)))))
      ∷ [];
  acceptance_criterion_results =
      obj (
        field key_criterion_id (str 61) (
          field key_validation_contract_version (int (pos 3)) (
            field key_commit_sha (str 700) (
              field key_tree_sha (str 800)
                (field key_status (str text_passed) (field key_evidence_ids (arr nil) end))))))
      ∷ [];
}

abbrev contract : ValidationContract
contract = record {
  id = 12;
  task_id = 7;
  brief_id = 14;
  repository_configuration_id = 13;
  version = 3;
  required_operations = obj (field key_operation_id (str 41) end) ∷ [];
  typed_assertions =
      obj (
        field key_assertion_id (str 51)
          (field key_kind (str 52) (field key_verifier_catalog_key (str 53) end)))
      ∷ [];
  evidence_requirements = obj (field key_evidence_type (str 33) end) ∷ [];
  outcome_rules = obj (field key_all_required (bool true) end);
}

abbrev evidence : ℕ → ℕ → RunEvidence
evidence id type = record {
  id = id;
  owner_id = 5;
  task_id = some 7;
  validation_run_id = some 11;
  evidence_type = type;
  correction_of_id = none;
  captured_at = id;
}

abbrev tables : Tables
tables = record {
  attempts =
      record {
        task_id = 7;
        sequence = 4;
        transition_id = some 77;
        candidate = obj (field key_commit_sha (str 700) (field key_tree_sha (str 800) end));
      }
      ∷ [];
  contracts = contract ∷ [];
  configurations =
      record {
        id = 13;
        version = 2;
        operations =
            obj (field key_operation_id (str 41) (field key_kind (str 42) end))
            ∷ obj (field key_operation_id (str 43) (field key_kind (str 44) end))
            ∷ [];
      }
      ∷ [];
  briefs =
      record {
        id = 14;
        task_id = 7;
        acceptance_criteria = obj (field key_criterion_id (str 61) end) ∷ [];
      }
      ∷ [];
  evidence = evidence 91 533 ∷ evidence 92 text_evidence_manifest ∷ [];
}

abbrev task : AssessedTask
task = record {
  id = 7;
  owner_id = 5;
  state = validating;
  escalation_resume_state = none;
  validation_contract_id = some 12;
  repository_configuration_id = some 13;
}

passes :
    assess texts tables task (run 0) ≡ ok (77, conclude outcome_passed all_passed (91 ∷ 92 ∷ []))
unfolding computes
passes = refl

fails :
    assess texts tables task (run 2)
    ≡ ok (77, conclude outcome_failed validation_failed (91 ∷ 92 ∷ []))
unfolding computes
fails = refl

-- A status that is a list has no hash.
list_status_raises : status_of (arr nil) ≡ err type_error
unfolding computes
list_status_raises = refl

assess-Covered_example :
    (attempt : Attempt) × (k : ValidationContract) × (configuration : RepositoryConfiguration)
    × (latest_attempt 7 tables.attempts ≡ some attempt)
    × (attempt.transition_id ≡ some 77)
    × (find (λ (k : ValidationContract). k.id == 12) tables.contracts ≡ some k)
    × (find (λ (k : RepositoryConfiguration). k.id == 13) tables.configurations
        ≡ some configuration)
    × IsBound task (run 0) k configuration attempt.candidate
    × Covered texts tables task (run 0) k configuration
assess-Covered_example =
    assess-Covered texts tables task (run 0) 77 (conclude outcome_passed all_passed (91 ∷ 92 ∷ []))
      passes refl
