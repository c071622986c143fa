-- ===== src/Decisioning/Passed.antt =====
-- A run that is assessed as passed.
use mathews.Common.{
  map, ◌>>=◌, ℕ, ◌≡◌, refl, Bool, true, false, Option, none, some, List, [], ◌∷◌, ok, arith, ◌⊎◌,
  inl, inr, Option-cases, Result-cases, ◌==◌, ◌∙◌, ap,
}
use mathews.Common.Dict.{Dict}
use mathews.Common.Json.{Json}
use mathews.Common.Queries.{member, Has, find, any}
use mathews.Decisioning.{
  Verdict, is_passed, outcome_passed, ValidationRun, ValidationContract, RepositoryConfiguration,
  Brief, AssessedTask, Tables, Texts, Attempt, RunEvidence, key_operation_id, key_assertion_id,
  key_criterion_id,
}
use mathews.Decisioning.Operations.{configured_operations, required_ids, operation_status}
use mathews.Decisioning.Statuses.{
  combined, check_statuses, required_assertions, is_assertion_result, keys, assertion_status,
  is_criterion_result, criterion_status,
}
use mathews.Decisioning.Assess.{
  run_records, Assessed, conclude_statuses, assess_complete_run, assess_bound, assess,
  latest_attempt,
}
use mathews.Decisioning.Covered.{
  IsOperationPass, check_operations-passed, IsStatusPass, check_statuses-passed,
  combined_status-passed,
}
use mathews.Decisioning.Passes.{
  IsAssertionPass, IsCriterionPass, IsBound, Has-map, to_IsAssertionPass, to_IsCriterionPass,
  to_IsBound,
}

module _ (x : Texts) (t : Tables) (task : AssessedTask) (run : ValidationRun)
    (contract : ValidationContract) (configuration : RepositoryConfiguration) where
  -- A passing result for each required operation, for each typed assertion of the contract, and for
  -- each acceptance criterion of its brief.
  pub record Covered : Type 0 where
    pub operations :
        (configured : Dict Json) × (ids : List ℕ) × (configured_operations []
            configuration.operations
          ≡ some configured)
        × (required_ids key_operation_id [] contract.required_operations ≡ some ids)
        × ((id : ℕ)
            → member id ids ≡ true
            → Has
                (IsOperationPass x run contract configuration configured id)
                run.operation_results)
    pub assertions :
        (required : Dict (Json × Json)) × (required_assertions [] contract.typed_assertions
          ≡ some required)
        × ((id : ℕ)
            → member id (keys required) ≡ true
            → Has (IsAssertionPass required id) run.assertion_results)
    pub criteria :
        (brief : Brief) × (ids : List ℕ) × (find (λ (b : Brief). b.id == contract.brief_id) t.briefs
          ≡ some brief)
        × (brief.task_id ≡ task.id)
        × (required_ids key_criterion_id [] brief.acceptance_criteria ≡ some ids)
        × ((id : ℕ)
            → member id ids ≡ true
            → Has (IsCriterionPass run contract id) run.acceptance_criterion_results)

  not_seen : (P : Type 0) (id : ℕ) → (member id [] ≡ true) ⊎ P → P
  unfolding member
  not_seen P id (inl h) = cc
  not_seen P id (inr p) = p

  operations-Covered :
      operation_status x run contract configuration ≡ is_passed
      → (configured : Dict Json) × (ids : List ℕ) × (configured_operations []
            configuration.operations
          ≡ some configured)
        × (required_ids key_operation_id [] contract.required_operations ≡ some ids)
        × ((id : ℕ)
            → member id ids ≡ true
            → Has
                (IsOperationPass x run contract configuration configured id)
                run.operation_results)
  unfolding operation_status
  operations-Covered h = elim (Option-cases (configured_operations [] configuration.operations)) [
    | inl e ↦ ground arith
    | inr (configured, e) ↦
        elim (Option-cases (required_ids key_operation_id [] contract.required_operations)) [
          | inl f ↦ ground arith
          | inr (ids, f) ↦ (
            configured,
            ids,
            e,
            f,
            λ id m. not_seen _ id (
                check_operations-passed x run contract configuration configured ids [] false
                  run.operation_results id (ground arith) m),
          )
        ]
  ]

  -- The statuses of a loop that combine to PASSED.
  combined-passed :
      (key : ℕ) (fits : ℕ → Json → Bool) (ids : List ℕ) (values : List Json)
      → (check_statuses key fits ids [] values >>= combined) ≡ ok is_passed
      → (id : ℕ) → member id ids ≡ true
      → Has (IsStatusPass key fits id) values
  combined-passed key fits ids values h id m =
      elim (Result-cases (check_statuses key fits ids [] values)) [
        | inr (raised, e) ↦ ground arith
        | inl (none, e) ↦ ground arith
        | inl (some statuses, e) ↦ not_seen _ id (
            check_statuses-passed key fits ids [] values statuses id e
              (combined_status-passed statuses (ground arith)) m)
      ]

  assertions-Covered :
      assertion_status run contract ≡ ok is_passed
      → (required : Dict (Json × Json)) × (required_assertions [] contract.typed_assertions
          ≡ some required)
        × ((id : ℕ)
            → member id (keys required) ≡ true
            → Has (IsAssertionPass required id) run.assertion_results)
  unfolding assertion_status
  assertions-Covered h = elim (Option-cases (required_assertions [] contract.typed_assertions)) [
    | inl e ↦ ground arith
    | inr (required, e) ↦ (
      required,
      e,
      λ id m. Has-map _ _ (to_IsAssertionPass required id) run.assertion_results (
          combined-passed key_assertion_id (is_assertion_result required) (keys required)
            run.assertion_results (ground arith) id m),
    )
  ]

  criteria-Covered :
      (o : Option Brief)
      → criterion_status run contract task o ≡ ok is_passed
      → (brief : Brief) × (ids : List ℕ) × (o ≡ some brief)
        × (brief.task_id ≡ task.id)
        × (required_ids key_criterion_id [] brief.acceptance_criteria ≡ some ids)
        × ((id : ℕ)
            → member id ids ≡ true
            → Has (IsCriterionPass run contract id) run.acceptance_criterion_results)
  unfolding criterion_status
  criteria-Covered none h = cc
  criteria-Covered (some brief) h =
      elim (Option-cases (required_ids key_criterion_id [] brief.acceptance_criteria)) [
        | inl e ↦ ground arith
        | inr (ids, e) ↦ (
          brief,
          ids,
          refl,
          ground arith,
          e,
          λ id m.
              Has-map _ _ (to_IsCriterionPass run contract id) run.acceptance_criterion_results (
                combined-passed key_criterion_id (is_criterion_result run contract) ids
                  run.acceptance_criterion_results (ground arith) id m),
        )
      ]

  conclude_statuses-passed :
      (ids : List ℕ) (a b c : Verdict)
      → (conclude_statuses x t task run contract configuration ids (a ∷ b ∷ c ∷ [])).outcome
        ≡ outcome_passed
      → (a ≡ is_passed) × (b ≡ is_passed) × (c ≡ is_passed)
  unfolding conclude_statuses any
  conclude_statuses-passed ids a b c h = ground arith

  assess_complete_run-statuses :
      (c : Assessed)
      → assess_complete_run x t task run contract configuration ≡ ok c
      → c.outcome ≡ outcome_passed
      → (operation_status x run contract configuration ≡ is_passed)
        × (assertion_status run contract ≡ ok is_passed)
        × (criterion_status run contract task
              (find (λ (b : Brief). b.id == contract.brief_id) t.briefs)
            ≡ ok is_passed)
  unfolding assess_complete_run
  assess_complete_run-statuses c h passed = elim (Result-cases (assertion_status run contract)) [
    | inr (raised, e) ↦ ground arith
    | inl (a, e) ↦
        elim (Result-cases (
          criterion_status run contract task
            (find (λ (b : Brief). b.id == contract.brief_id) t.briefs))) [
              | inr (raised, f) ↦ ground arith
              | inl (b, f) ↦
                  let ids = map (λ (r : RunEvidence). r.id) (run_records t run) in
                  let verdicts = operation_status x run contract configuration ∷ a ∷ b ∷ [] in
                  let same : conclude_statuses x t task run contract configuration ids verdicts
                      ≡ c =
                    ground arith in
                  let (va, vb, vc) =
                    conclude_statuses-passed ids _ a b
                      (ap (λ (r : Assessed). r.outcome) same ∙ passed) in
                  (va, e ∙ ap (λ v. ok v) vb, f ∙ ap (λ v. ok v) vc)
            ]
  ]

  assess_complete_run-Covered :
      (c : Assessed)
      → assess_complete_run x t task run contract configuration ≡ ok c
      → c.outcome ≡ outcome_passed
      → Covered
  assess_complete_run-Covered c h passed =
      let (a, b, d) = assess_complete_run-statuses c h passed in
      record {
        operations = operations-Covered a;
        assertions = assertions-Covered b;
        criteria = criteria-Covered _ d;
      }

  assess_bound-Covered :
      (candidate : Json) (c : Assessed)
      → assess_bound x t task run contract configuration candidate ≡ ok c
      → c.outcome ≡ outcome_passed
      → Covered × IsBound task run contract configuration candidate
  unfolding assess_bound
  assess_bound-Covered candidate c h passed = (
    assess_complete_run-Covered c (ground arith) passed,
    to_IsBound x t task run contract configuration candidate (ground arith),
  )

-- Where `_assess` concludes that a run passed, the task's latest attempt has a transition, the run is
-- bound to it (the task is VALIDATING under the run's contract and configuration, which fit each
-- other, and the attempt's candidate is the run's commit and tree), and there are: for each
-- operation that the contract requires, a result for that commit and tree, of the configured kind
-- and versions, that exited with 0, was not cancelled, was not cut off and left a valid repository;
-- for each typed assertion a result with the status PASSED and its kind and catalogue key; and for
-- each acceptance criterion of the contract's brief, a brief of the task, a result with the status
-- PASSED for that commit and tree.
pub assess-Covered :
    (x : Texts) (t : Tables) (task : AssessedTask) (run : ValidationRun) (transition_id : ℕ)
    (c : Assessed)
    → assess x t task run ≡ ok (transition_id, c)
    → c.outcome ≡ outcome_passed
    → (attempt : Attempt) × (contract : ValidationContract)
      × (configuration : RepositoryConfiguration) × (latest_attempt task.id t.attempts
          ≡ some attempt)
      × (attempt.transition_id ≡ some transition_id)
      × (find (λ (k : ValidationContract). k.id == run.validation_contract_id) t.contracts
          ≡ some contract)
      × (find
            (λ (k : RepositoryConfiguration). k.id == run.repository_configuration_id)
            t.configurations
          ≡ some configuration)
      × IsBound task run contract configuration attempt.candidate
      × Covered x t task run contract configuration
unfolding assess
assess-Covered x t task run transition_id c h passed =
    elim (Option-cases (latest_attempt task.id t.attempts)) [
      | inl e ↦ ground arith
      | inr (attempt, e) ↦ elim (Option-cases attempt.transition_id) [
        | inl f ↦ ground arith
        | inr (id, f) ↦
            elim (Option-cases
              (find (λ (k : ValidationContract). k.id == run.validation_contract_id) t.contracts)) [
                | inl g ↦ ground arith
                | inr (contract, g) ↦
                    elim (Option-cases (
                      find
                        (λ (k : RepositoryConfiguration). k.id == run.repository_configuration_id)
                        t.configurations)) [
                          | inl k ↦ ground arith
                          | inr (configuration, k) ↦
                              elim (Result-cases (
                                assess_bound x t task run contract configuration
                                  attempt.candidate)) [
                                    | inr (raised, b) ↦ ground arith
                                    | inl (d, b) ↦
                                        let same : d ≡ c = ground arith in
                                        let (covered, bound) =
                                          assess_bound-Covered x t task run contract configuration
                                            attempt.candidate d b
                                            (ap (λ (r : Assessed). r.outcome) same ∙ passed) in
                                        (
                                          attempt,
                                          contract,
                                          configuration,
                                          e,
                                          f ∙ ground arith,
                                          g,
                                          k,
                                          bound,
                                          covered,
                                        )
                                  ]
                        ]
              ]
      ]
    ]
