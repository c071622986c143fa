-- ===== src/Decisioning/Passes.antt =====
-- What the checks of a result and of a binding come to, field by field.
use mathews.Common.{
  ℕ, ◌≡◌, true, Option, none, some, List, [], ◌∷◌, arith, inl, inr, Option-cases, opt_eq,
}
use mathews.Common.Dict.{Dict, lookup}
use mathews.TaskMachine.{TaskState, validating, is_state}
use mathews.Common.Json.{
  Json, null, bool, int, str, arr, obj, get, is_str, as_str, equals_int, same_json, pos,
}
use mathews.Common.Queries.{Has}
use mathews.Decisioning.{
  ValidationRun, ValidationContract, RepositoryConfiguration, AssessedTask, Tables, Texts,
  key_assertion_id, key_criterion_id, key_kind, key_verifier_catalog_key, key_status,
  key_validation_contract_version, key_commit_sha, key_tree_sha, text_passed,
}
use mathews.Decisioning.Statuses.{is_assertion_result, is_criterion_result}
use mathews.Decisioning.Assess.{is_bound}
use mathews.Decisioning.Covered.{IsStatusPass}

-- A result of the typed assertion, of the kind and under the catalogue key that the contract gives it,
-- with the status PASSED.
pub record IsAssertionPass (required : Dict (Json × Json)) (id : ℕ) (value : Json) : Type 0 where
  pub named : get key_assertion_id value ≡ str id
  pub kind : Json
  pub catalog_key : Json
  pub typed : lookup id required ≡ some (kind, catalog_key)
  pub same_kind : same_json (get key_kind value) kind ≡ true
  pub same_key : same_json (get key_verifier_catalog_key value) catalog_key ≡ true
  pub status : get key_status value ≡ str text_passed

-- A result of the criterion, under the contract's version and for the run's commit and tree, with the
-- status PASSED.
pub record IsCriterionPass (run : ValidationRun) (contract : ValidationContract) (id : ℕ)
    (value : Json) : Type 0 where
  pub named : get key_criterion_id value ≡ str id
  pub version : equals_int (pos contract.version) (get key_validation_contract_version value) ≡ true
  pub of_commit : get key_commit_sha value ≡ str run.commit_sha
  pub of_tree : get key_tree_sha value ≡ str run.tree_sha
  pub status : get key_status value ≡ str text_passed

-- The run is the one that the task waits for, on the commit and tree of the candidate.
pub record IsBound (task : AssessedTask) (run : ValidationRun) (contract : ValidationContract)
    (configuration : RepositoryConfiguration) (candidate : Json) : Type 0 where
  pub state : task.state ≡ validating
  pub contract_id : task.validation_contract_id ≡ some run.validation_contract_id
  pub configuration_id : task.repository_configuration_id ≡ some run.repository_configuration_id
  pub of_task : contract.task_id ≡ task.id
  pub of_configuration : contract.repository_configuration_id ≡ configuration.id
  pub of_commit : get key_commit_sha candidate ≡ str run.commit_sha
  pub of_tree : get key_tree_sha candidate ≡ str run.tree_sha

is_str-str : (s : ℕ) (value : Json) → is_str s value ≡ true → value ≡ str s
is_str-str s (str t) h = ground arith
is_str-str s null h = cc
is_str-str s (bool b) h = cc
is_str-str s (int n) h = cc
is_str-str s (arr items) h = cc
is_str-str s (obj fields) h = cc

as_str-str : (s : ℕ) (value : Json) → as_str value ≡ some s → value ≡ str s
as_str-str s (str t) h = ground arith
as_str-str s null h = cc
as_str-str s (bool b) h = cc
as_str-str s (int n) h = cc
as_str-str s (arr items) h = cc
as_str-str s (obj fields) h = cc

opt_eq-some : (o : Option ℕ) (n : ℕ) → opt_eq o (some n) ≡ true → o ≡ some n
opt_eq-some none n h = cc
opt_eq-some (some m) n h = ground arith

pub Has-map :
    (P Q : Json → Type 0) (imply : (value : Json) → P value → Q value) (values : List Json)
    → Has P values
    → Has Q values
Has-map P Q imply [] h = h
Has-map P Q imply (v ∷ vs) (inl p) = inl (imply v p)
Has-map P Q imply (v ∷ vs) (inr h) = inr (Has-map P Q imply vs h)

pub to_IsAssertionPass :
    (required : Dict (Json × Json)) (id : ℕ) (value : Json)
    → IsStatusPass key_assertion_id (is_assertion_result required) id value
    → IsAssertionPass required id value
unfolding is_assertion_result
to_IsAssertionPass required id value (named, fits, passed) =
    elim (Option-cases (lookup id required)) [
      | inl e ↦ ground arith
      | inr ((kind, key), e) ↦ record {
        named = as_str-str id (get key_assertion_id value) named;
        kind = kind;
        catalog_key = key;
        typed = e;
        same_kind = ground arith;
        same_key = ground arith;
        status = is_str-str text_passed (get key_status value) passed;
      }
    ]

pub to_IsCriterionPass :
    (run : ValidationRun) (contract : ValidationContract) (id : ℕ) (value : Json)
    → IsStatusPass key_criterion_id (is_criterion_result run contract) id value
    → IsCriterionPass run contract id value
unfolding is_criterion_result
to_IsCriterionPass run contract id value (named, fits, passed) = record {
  named = as_str-str id (get key_criterion_id value) named;
  version = ground arith;
  of_commit = is_str-str run.commit_sha (get key_commit_sha value) (ground arith);
  of_tree = is_str-str run.tree_sha (get key_tree_sha value) (ground arith);
  status = is_str-str text_passed (get key_status value) passed;
}

is_validating : (s : TaskState) → is_state s validating ≡ true → s ≡ validating
unfolding is_state
is_validating s h = ground arith

pub to_IsBound :
    (x : Texts) (t : Tables) (task : AssessedTask) (run : ValidationRun)
    (contract : ValidationContract) (configuration : RepositoryConfiguration) (candidate : Json)
    → is_bound x t task run contract configuration candidate ≡ true
    → IsBound task run contract configuration candidate
unfolding is_bound
to_IsBound x t task run contract configuration candidate h = record {
  state = is_validating task.state (ground arith);
  contract_id = opt_eq-some task.validation_contract_id run.validation_contract_id (ground arith);
  configuration_id =
      opt_eq-some task.repository_configuration_id run.repository_configuration_id (ground arith);
  of_task = ground arith;
  of_configuration = ground arith;
  of_commit = is_str-str run.commit_sha (get key_commit_sha candidate) (ground arith);
  of_tree = is_str-str run.tree_sha (get key_tree_sha candidate) (ground arith);
}
