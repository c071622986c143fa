-- ===== src/Decisioning/Covered.antt =====
-- What a run that passed is known to hold: a passing result for all that its contract requires.
use mathlib.Core.Path.{subst}
use mathews.Common.{
  ℕ, ◌≡◌, Bool, is_some, true, false, not, ◌&&◌, none, some, List, [], ◌∷◌, ok, arith, ◌⊎◌, inl,
  inr, Bool-cases, Option-cases, ap, ◌∙◌, all, ◌==◌, Result-cases,
}
use mathews.Common.Dict.{Dict, lookup}
use mathews.Common.Json.{same_json, as_bool, as_int, pos, equals_int, Json, get, as_str, is_str}
use mathews.Common.Queries.{member, same_set, is_subset-member, Has}
use mathews.Decisioning.{
  Verdict, is_passed, ValidationRun, ValidationContract, RepositoryConfiguration, Texts,
  key_operation_kind, key_configuration_id, key_configuration_version,
  key_validation_contract_version, key_operation_id, key_status, key_passed, text_passed,
  key_head_sha, key_tree_sha, key_exit_status, key_cancellation_status, key_output_limited,
  key_repository_state_valid, text_not_requested,
}
use mathews.Decisioning.Operations.{
  or_null, is_operation_result, expected_passed, check_operations, is_true,
}
use mathews.Decisioning.Statuses.{combined_status, status_of, check_statuses, same_verdict}

of_candidate :
    (a b c d e f g h i j : Bool)
    → (a && b && c && d && e && f && g && h && i && j) ≡ true
    → (a ≡ true) × (b ≡ true) × (c ≡ true) × (d ≡ true) × (e ≡ true) × (f ≡ true)
of_candidate a b c d e f g h i j t =
    (ground arith, ground arith, ground arith, ground arith, ground arith, ground arith)

of_pass :
    (a b c d : Bool)
    → (a && b && not c && d) ≡ true
    → (a ≡ true) × (b ≡ true) × (c ≡ false) × (d ≡ true)
of_pass a b c d h = (ground arith, ground arith, ground arith, ground arith)

module _ (x : Texts) (run : ValidationRun) (contract : ValidationContract)
    (configuration : RepositoryConfiguration) (configured : Dict Json) where
  -- A result of the operation, of its configured kind, under the run's configuration and contract, for the
  -- run's commit and tree, that exited with 0, was not cancelled and not cut off, and left a valid
  -- repository.
  pub record IsOperationPass (id : ℕ) (value : Json) : Type 0 where
    pub named : as_str (get key_operation_id value) ≡ some id
    pub kind : same_json (get key_operation_kind value) (or_null (lookup id configured)) ≡ true
    pub of_configuration :
        is_str (x.uuid_text configuration.id) (get key_configuration_id value) ≡ true
    pub configuration_version :
        equals_int (pos configuration.version) (get key_configuration_version value) ≡ true
    pub contract_version :
        equals_int (pos contract.version) (get key_validation_contract_version value) ≡ true
    pub of_commit : is_str run.commit_sha (get key_head_sha value) ≡ true
    pub of_tree : is_str run.tree_sha (get key_tree_sha value) ≡ true
    pub exited : equals_int (pos 0) (get key_exit_status value) ≡ true
    pub not_cancelled : is_str text_not_requested (get key_cancellation_status value) ≡ true
    pub complete : is_true (get key_output_limited value) ≡ false
    pub repository_valid : is_true (get key_repository_state_valid value) ≡ true

  is_operation_result-candidate :
      (id : ℕ) (value : Json)
      → is_operation_result x run contract configuration configured id value ≡ true
      → (same_json (get key_operation_kind value) (or_null (lookup id configured)) ≡ true)
        × (is_str run.commit_sha (get key_head_sha value) ≡ true)
        × (is_str run.tree_sha (get key_tree_sha value) ≡ true)
        × (is_str (x.uuid_text configuration.id) (get key_configuration_id value) ≡ true)
        × (equals_int (pos configuration.version) (get key_configuration_version value) ≡ true)
        × (equals_int (pos contract.version) (get key_validation_contract_version value) ≡ true)
  unfolding is_operation_result
  is_operation_result-candidate id value h =
      of_candidate (same_json (get key_operation_kind value) (or_null (lookup id configured)))
        (is_str run.commit_sha (get key_head_sha value))
        (is_str run.tree_sha (get key_tree_sha value))
        (is_str (x.uuid_text configuration.id) (get key_configuration_id value))
        (equals_int (pos configuration.version) (get key_configuration_version value))
        (equals_int (pos contract.version) (get key_validation_contract_version value))
        (is_some (as_bool (get key_passed value)))
        (is_some (as_bool (get key_repository_state_valid value)))
        (is_some (as_int (get key_exit_status value)))
        (is_some (as_bool (get key_output_limited value))) (ground arith)

  expected_passed-exits :
      (value : Json)
      → expected_passed x run contract configuration value ≡ true
      → (equals_int (pos 0) (get key_exit_status value) ≡ true)
        × (is_str text_not_requested (get key_cancellation_status value) ≡ true)
        × (is_true (get key_output_limited value) ≡ false)
        × (is_true (get key_repository_state_valid value) ≡ true)
  unfolding expected_passed
  expected_passed-exits value h =
      of_pass (equals_int (pos 0) (get key_exit_status value))
        (is_str text_not_requested (get key_cancellation_status value))
        (is_true (get key_output_limited value)) (is_true (get key_repository_state_valid value)) h

  to_IsOperationPass :
      (id : ℕ) (value : Json)
      → as_str (get key_operation_id value) ≡ some id
      → is_operation_result x run contract configuration configured id value ≡ true
      → expected_passed x run contract configuration value ≡ true
      → IsOperationPass id value
  to_IsOperationPass id value named fits passed =
      let of = is_operation_result-candidate id value fits in
      record {
        named = named;
        kind = of.0;
        of_commit = of.1;
        of_tree = of.2;
        of_configuration = of.3;
        configuration_version = of.4;
        contract_version = of.5;
        exited = (expected_passed-exits value passed).0;
        not_cancelled = (expected_passed-exits value passed).1;
        complete = (expected_passed-exits value passed).2;
        repository_valid = (expected_passed-exits value passed).3;
      }

  -- One failure is kept to the end.
  check_operations-failed :
      (required seen : List ℕ) (values : List Json)
      → check_operations x run contract configuration configured required seen true values
        ≡ is_passed
      → ⊥
  unfolding check_operations
  check_operations-failed required seen [] h = ground arith
  check_operations-failed required seen (value ∷ values) h =
      elim (Option-cases (as_str (get key_operation_id value))) [
        | inl e ↦ ground arith
        | inr (name, e) ↦ check_operations-failed required (name ∷ seen) values (ground arith)
      ]

  -- A result that lets the run pass.
  check_operations-step :
      (required seen : List ℕ) (failed : Bool) (value : Json) (values : List Json)
      → check_operations x run contract configuration configured required seen failed
          (value ∷ values)
        ≡ is_passed
      → (name : ℕ) × IsOperationPass name value
        × (check_operations x run contract configuration configured required
              (name ∷ seen)
              failed
              values
            ≡ is_passed)
  unfolding check_operations
  check_operations-step required seen failed value values h =
      elim (Option-cases (as_str (get key_operation_id value))) [
        | inl e ↦ ground arith
        | inr (name, e) ↦ elim (Bool-cases (is_true (get key_passed value))) [
          | inl p ↦
              (name, to_IsOperationPass name value e (ground arith) (ground arith), ground arith)
          | inr p ↦ absurd (check_operations-failed required (name ∷ seen) values (ground arith))
        ]
      ]

  pub check_operations-passed :
      (required seen : List ℕ) (failed : Bool) (values : List Json) (id : ℕ)
      → check_operations x run contract configuration configured required seen failed values
        ≡ is_passed
      → member id required ≡ true
      → (member id seen ≡ true) ⊎ Has (IsOperationPass id) values
  unfolding check_operations same_set member
  check_operations-passed required seen failed [] id h m =
      inl (is_subset-member id required seen (ground arith) m)
  check_operations-passed required seen failed (value ∷ values) id h m =
      let (name, pass, rest) = check_operations-step required seen failed value values h in
      elim (check_operations-passed required (name ∷ seen) failed values id rest m) [
        | inr later ↦ inr (inr later)
        | inl known ↦ elim (Bool-cases (id == name)) [
          | inl e ↦ inr (
              inl (
                let same : name ≡ id = ground arith in
                subst (λ n. IsOperationPass n value) same pass))
          | inr e ↦ inl (ground arith)
        ]
      ]

-- A result under the identifier that fits and has the status PASSED.
abbrev pub IsStatusPass : ℕ → (ℕ → Json → Bool) → ℕ → Json → Type 0
IsStatusPass key fits id value =
    (as_str (get key value) ≡ some id)
    × (fits id value ≡ true)
    × (is_str text_passed (get key_status value) ≡ true)

status_of-passed :
    (value : Json) → status_of value ≡ ok (some is_passed) → is_str text_passed value ≡ true
unfolding status_of
status_of-passed value h = ground arith

check_statuses-step :
    (key : ℕ) (fits : ℕ → Json → Bool) (required seen : List ℕ) (value : Json) (values : List Json)
    (statuses : List Verdict)
    → check_statuses key fits required seen (value ∷ values) ≡ ok (some statuses)
    → (name : ℕ) × (status : Verdict) × (rest : List Verdict) × (as_str (get key value) ≡ some name)
      × (fits name value ≡ true)
      × (status_of (get key_status value) ≡ ok (some status))
      × (check_statuses key fits required (name ∷ seen) values ≡ ok (some rest))
      × (statuses ≡ status ∷ rest)
unfolding check_statuses
check_statuses-step key fits required seen value values statuses h =
    elim (Option-cases (as_str (get key value))) [
      | inl e ↦ ground arith
      | inr (name, e) ↦ elim (Result-cases (status_of (get key_status value))) [
        | inr (raised, f) ↦ ground arith
        | inl (none, f) ↦ ground arith
        | inl (some status, f) ↦
            elim (Result-cases (check_statuses key fits required (name ∷ seen) values)) [
              | inr (raised, g) ↦ ground arith
              | inl (none, g) ↦ ground arith
              | inl (some rest, g) ↦ (name, status, rest, e, ground arith, f, g, ground arith)
            ]
      ]
    ]

pub combined_status-passed :
    (statuses : List Verdict)
    → combined_status statuses ≡ is_passed
    → all (same_verdict is_passed) statuses ≡ true
unfolding combined_status
combined_status-passed statuses h = ground arith

pub check_statuses-passed :
    (key : ℕ) (fits : ℕ → Json → Bool) (required seen : List ℕ) (values : List Json)
    (statuses : List Verdict) (id : ℕ)
    → check_statuses key fits required seen values ≡ ok (some statuses)
    → all (same_verdict is_passed) statuses ≡ true
    → member id required ≡ true
    → (member id seen ≡ true) ⊎ Has (IsStatusPass key fits id) values
unfolding same_set member
check_statuses-passed key fits required seen [] statuses id h passed m =
    inl (is_subset-member id required seen (unfold check_statuses in ground arith) m)
check_statuses-passed key fits required seen (value ∷ values) statuses id h passed m =
    let (name, status, rest, e, fit, f, g, same) =
      check_statuses-step key fits required seen value values statuses h in
    let split : (status ≡ is_passed) × (all (same_verdict is_passed) rest ≡ true) =
      (ground arith, ground arith) in
    elim (check_statuses-passed key fits required (name ∷ seen) values rest id g split.1 m) [
      | inr later ↦ inr (inr later)
      | inl known ↦ elim (Bool-cases (id == name)) [
        | inl t ↦
            let same_name : name ≡ id = ground arith in
            inr (
              inl (
                subst (λ n. IsStatusPass key fits n value) same_name
                  (
                    e,
                    fit,
                    status_of-passed (get key_status value) (f ∙ ap (λ s. ok (some s)) split.0),
                  )))
        | inr t ↦ inl (ground arith)
      ]
    ]
