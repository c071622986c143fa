-- ===== src/Decisioning/Operations.antt =====
-- services/control-plane/src/mathews_control_plane/validation_decisioning.py: `_operation_status`.
use mathews.Common.{
  ℕ, Bool, false, not, ◌&&◌, ◌||◌, Option, none, some, List, [], ◌∷◌, is_some, if◌then◌else◌,
}
use mathews.Common.Dict.{Dict, lookup}
use mathews.Common.Json.{
  pos, Json, null, bool, get, as_str, as_bool, as_int, is_str, equals_int, same_json, same_bool,
}
use mathews.Common.Queries.{member, same_set}
use mathews.Decisioning.{
  Verdict, is_invalid, is_failed, is_passed, ValidationRun, ValidationContract,
  RepositoryConfiguration, Texts, key_operation_id, key_kind, key_schema_version,
  key_operation_kind, key_head_sha, key_tree_sha, key_configuration_id, key_configuration_version,
  key_validation_contract_version, key_passed, key_repository_state_valid, key_exit_status,
  key_output_limited, key_cancellation_status, text_not_requested,
}

abbrev pub or_null : Option Json → Json
or_null none = null
or_null (some value) = value

abbrev pub is_true : Json → Bool
is_true (bool b) = b
is_true _ = false

-- `configured`: the kind of each operation of the configuration. `none` is "INVALID".
unfoldable pub configured_operations : Dict Json → List Json → Option (Dict Json)
configured_operations known [] = some known
configured_operations known (value ∷ values) = elim (as_str (get key_operation_id value)) [
  | none ↦ none
  | some id ↦
      if is_some (lookup id known)
      then none
      else configured_operations ((id, get key_kind value) ∷ known) values
]

-- The identifiers under a key, each a text and none twice. `none` is "INVALID".
unfoldable pub required_ids : ℕ → List ℕ → List Json → Option (List ℕ)
required_ids key known [] = some known
required_ids key known (value ∷ values) = elim (as_str (get key value)) [
  | none ↦ none
  | some id ↦ if member id known then none else required_ids key (id ∷ known) values
]

module _ (x : Texts) (run : ValidationRun) (contract : ValidationContract)
    (configuration : RepositoryConfiguration) where
  -- The result is one of the operation, for the run's commit and tree.
  unfoldable pub is_operation_result : Dict Json → ℕ → Json → Bool
  is_operation_result configured id value =
      equals_int (pos 1) (get key_schema_version value)
      && same_json (get key_operation_kind value) (or_null (lookup id configured))
      && is_str run.commit_sha (get key_head_sha value)
      && is_str run.tree_sha (get key_tree_sha value)
      && is_str (x.uuid_text configuration.id) (get key_configuration_id value)
      && equals_int (pos configuration.version) (get key_configuration_version value)
      && equals_int (pos contract.version) (get key_validation_contract_version value)
      && is_some (as_bool (get key_passed value))
      && is_some (as_bool (get key_repository_state_valid value))
      && is_some (as_int (get key_exit_status value))
      && is_some (as_bool (get key_output_limited value))

  -- `expected_passed`
  unfoldable pub expected_passed : Json → Bool
  expected_passed value =
      equals_int (pos 0) (get key_exit_status value)
      && is_str text_not_requested (get key_cancellation_status value)
      && not (is_true (get key_output_limited value))
      && is_true (get key_repository_state_valid value)

  -- The loop over the results, with the identifiers seen and whether one failed.
  unfoldable pub check_operations : Dict Json → List ℕ → List ℕ → Bool → List Json → Verdict
  check_operations configured required seen failed [] =
      if same_set seen required then (if failed then is_failed else is_passed) else is_invalid
  check_operations configured required seen failed (value ∷ values) =
      elim (as_str (get key_operation_id value)) [
        | none ↦ is_invalid
        | some id ↦
            if member id seen
              || not (member id required)
              || not (is_operation_result configured id value)
              || not (same_bool (is_true (get key_passed value)) (expected_passed value))
            then is_invalid
            else check_operations configured required (id ∷ seen)
                (failed || not (is_true (get key_passed value))) values
      ]

  abbrev pub check_configured : Option (Dict Json) → Option (List ℕ) → Verdict
  check_configured (some configured) (some required) =
      check_operations configured required [] false run.operation_results
  check_configured _ _ = is_invalid

  -- `_operation_status`
  unfoldable pub operation_status : Verdict
  operation_status =
      check_configured (configured_operations [] configuration.operations)
        (required_ids key_operation_id [] contract.required_operations)
