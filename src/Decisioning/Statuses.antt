-- ===== src/Decisioning/Statuses.antt =====
-- services/control-plane/src/mathews_control_plane/validation_decisioning.py: `_assertion_status`,
-- `_criterion_status` and `_combined_status`.
use mathews.Common.{
  ℕ, Bool, true, false, not, ◌&&◌, ◌||◌, Option, none, some, List, [], ◌∷◌, is_some, all, map,
  if◌then◌else◌, ◌==◌, Result, ok, err, ◌>>=◌,
}
use mathews.Common.Dict.{Dict, lookup}
use mathews.Common.Json.{pos, Json, arr, obj, get, as_str, is_str, equals_int, same_json}
use mathews.Common.Queries.{any, member, same_set}
use mathews.Decisioning.{
  DecisionError, type_error, Verdict, is_invalid, is_failed, is_blocked, is_pending, is_passed,
  ValidationRun, ValidationContract, Brief, AssessedTask, key_kind, key_tree_sha, key_commit_sha,
  key_validation_contract_version, key_assertion_id, key_verifier_catalog_key, key_status,
  key_criterion_id, text_pending, text_passed, text_failed, text_blocked,
}
use mathews.Decisioning.Operations.{required_ids}

abbrev pub same_verdict : Verdict → Verdict → Bool
same_verdict is_invalid is_invalid = true
same_verdict is_failed is_failed = true
same_verdict is_blocked is_blocked = true
same_verdict is_pending is_pending = true
same_verdict is_passed is_passed = true
same_verdict _ _ = false

abbrev pub is_in : Verdict → List Verdict → Bool
is_in v vs = any (same_verdict v) vs

abbrev pub is_nonempty : List Verdict → Bool
is_nonempty [] = false
is_nonempty (_ ∷ _) = true

-- `_combined_status`
unfoldable pub combined_status : List Verdict → Verdict
combined_status statuses =
    if is_in is_failed statuses
    then is_failed
    else if is_in is_blocked statuses
    then is_blocked
    else if is_in is_pending statuses
    then is_pending
    else if is_nonempty statuses && all (same_verdict is_passed) statuses
    then is_passed
    else is_invalid

-- `status in {"PENDING", "PASSED", "FAILED", "BLOCKED"}`. A list or a mapping has no hash, and the test
-- raises `TypeError`.
unfoldable pub status_of : Json → Result DecisionError (Option Verdict)
status_of (arr _) = err type_error
status_of (obj _) = err type_error
status_of value = ok (
    if is_str text_pending value
    then some is_pending
    else if is_str text_passed value
    then some is_passed
    else if is_str text_failed value
    then some is_failed
    else if is_str text_blocked value
    then some is_blocked
    else none)

abbrev append_status : Verdict → Option (List Verdict) → Option (List Verdict)
append_status status none = none
append_status status (some statuses) = some (status ∷ statuses)

-- The loop over results, with the identifiers seen: the statuses, or `none` for "INVALID".
unfoldable pub check_statuses :
    ℕ
    → (ℕ → Json → Bool)
    → List ℕ
    → List ℕ
    → List Json
    → Result DecisionError (Option (List Verdict))
check_statuses key fits required seen [] = ok (if same_set seen required then some [] else none)
check_statuses key fits required seen (value ∷ values) = elim (as_str (get key value)) [
  | none ↦ ok none
  | some id ↦
      if member id seen || not (fits id value)
      then ok none
      else (status_of (get key_status value) >>= elim [
        | none ↦ ok none
        | some status ↦ check_statuses key fits required (id ∷ seen) values >>= λ rest.
            ok (append_status status rest)
      ])
]

abbrev pub combined : Option (List Verdict) → Result DecisionError Verdict
combined none = ok is_invalid
combined (some statuses) = ok (combined_status statuses)

-- `required` of `_assertion_status`
unfoldable pub required_assertions : Dict (Json × Json) → List Json → Option (Dict (Json × Json))
required_assertions known [] = some known
required_assertions known (value ∷ values) = elim (as_str (get key_assertion_id value)) [
  | none ↦ none
  | some id ↦
      if is_some (lookup id known)
      then none
      else required_assertions
          ((id, (get key_kind value, get key_verifier_catalog_key value)) ∷ known) values
]

abbrev matches_pair : Json → Option (Json × Json) → Bool
matches_pair value none = false
matches_pair value (some (kind, catalog_key)) =
    same_json (get key_kind value) kind
    && same_json (get key_verifier_catalog_key value) catalog_key

unfoldable pub is_assertion_result : Dict (Json × Json) → ℕ → Json → Bool
is_assertion_result required id value = matches_pair value (lookup id required)

abbrev pub keys {ℓ} : {V : Type ℓ} → Dict V → List ℕ
keys d = map (λ e. e.0) d

abbrev pub assertions_of :
    ValidationRun → Option (Dict (Json × Json)) → Result DecisionError Verdict
assertions_of run none = ok is_invalid
assertions_of run (some required) =
    (check_statuses key_assertion_id (is_assertion_result required) (keys required) []
        run.assertion_results
      >>= combined)

-- `_assertion_status`
unfoldable pub assertion_status : ValidationRun → ValidationContract → Result DecisionError Verdict
assertion_status run contract = assertions_of run (required_assertions [] contract.typed_assertions)

unfoldable pub is_criterion_result : ValidationRun → ValidationContract → ℕ → Json → Bool
is_criterion_result run contract id value =
    equals_int (pos contract.version) (get key_validation_contract_version value)
    && is_str run.commit_sha (get key_commit_sha value)
    && is_str run.tree_sha (get key_tree_sha value)

abbrev pub criteria_of :
    ValidationRun → ValidationContract → Option (List ℕ) → Result DecisionError Verdict
criteria_of run contract none = ok is_invalid
criteria_of run contract (some required) =
    check_statuses key_criterion_id (is_criterion_result run contract) required []
      run.acceptance_criterion_results
    >>= combined

-- `_criterion_status`, with the brief of the contract if there is one.
unfoldable pub criterion_status :
    ValidationRun → ValidationContract → AssessedTask → Option Brief → Result DecisionError Verdict
criterion_status run contract task none = ok is_invalid
criterion_status run contract task (some brief) =
    if brief.task_id == task.id
    then criteria_of run contract (required_ids key_criterion_id [] brief.acceptance_criteria)
    else ok is_invalid
