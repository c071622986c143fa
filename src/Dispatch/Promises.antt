-- ===== src/Dispatch/Promises.antt =====
-- What the status of a response says of the handler.
use mathews.Common.{
  ℕ, arith, ◌≡◌, ◌≢◌, refl, Bool, true, false, not, ◌&&◌, Option, none, some, Result, ok, err, inl,
  inr, Bool-cases, sym, ◌∙◌, ◌<◌, length,
}
use mathews.Common.Queries.{All}
use mathews.Journal.{
  HostRequest, ResponseStatus, status_ok, status_rejected, status_ambiguous, JournalResult, execute,
  JournalError, Journal, Encoding,
}
use mathews.Journal.Calls.{begin, finish}
use mathews.Journal.Trace.{run}
use mathews.Dispatch.{
  Stop, effect_ambiguous, operation_rejected, journal_error, operation_failed,
  HostOperationDefinition, Documents, HostResponse, HostOperationContext, Moments,
}
use mathews.Dispatch.Context.{new_context, run_handler, used_authorized_effect}
use mathews.Dispatch.Reaching.{
  IsUnmarked, started, completed, run_handler-IsUnmarked, run_handler-completed,
}
use mathews.Dispatch.Dispatcher.{
  signed_response, ambiguous_response, journal_result, conclude, finished_answer, execute_handler,
  dispatch_decided, dispatch_validated, is_ok, ambiguous_answer,
}

is_ok-status : (s : ResponseStatus) → is_ok s ≡ true → s ≡ status_ok
is_ok-status status_ok h = refl
is_ok-status status_rejected h = cc
is_ok-status status_ambiguous h = cc

module _ (x : Encoding) (d : Documents) (request : HostRequest) where
  -- What an answer that is not ambiguous came from.
  record Came (c : HostOperationContext) (r : Result ℕ JournalResult) (response : HostResponse)
      : Type 0 where
    result : JournalResult
    returned : r ≡ ok result
    same : response.status ≡ result.status
    untouched : c.effect_attempted ≡ true → response.status ≡ status_ok

  pub ambiguous_answer-status :
      (now : ℕ) (o : Option ℕ) (response : HostResponse)
      → ambiguous_answer x d request now o ≡ ok response
      → response.status ≡ status_ambiguous
  unfolding ambiguous_response signed_response
  ambiguous_answer-status now none response h = cc
  ambiguous_answer-status now (some result) response h = ground arith

  finished_answer-status :
      (now : ℕ) (r : JournalResult) (out : Journal × Result JournalError (Unit {0})) (j : Journal)
      (response : HostResponse)
      → finished_answer x d request now r out ≡ (j, ok response)
      → response.status ≢ status_ambiguous
      → response.status ≡ r.status
  unfolding ambiguous_response signed_response
  finished_answer-status now r (k, ok _) j response h definite = ground arith
  finished_answer-status now r (k, err e) j response h definite = ground arith

  conclude-Came :
      (m : Moments) (c : HostOperationContext) (r : Result ℕ JournalResult) (j : Journal)
      (response : HostResponse)
      → conclude x d request m c r ≡ (j, ok response)
      → response.status ≢ status_ambiguous
      → Came c r response
  unfolding conclude ambiguous_response signed_response
  conclude-Came m c (err result) j response h definite =
      absurd
        (definite (ambiguous_answer-status m.answered (d.normalize result) response (ground arith)))
  conclude-Came m c (ok r) j response h definite =
      elim (Bool-cases (c.effect_attempted && not (is_ok r.status))) [
        | inl t ↦ absurd (definite (ground arith))
        | inr t ↦
            let same =
              finished_answer-status m.answered r
                (finish x m.finished.now request r (run x m.finished.others c.journal)) j response
                (ground arith) definite in
            record {
              result = r;
              returned = refl;
              same = same;
              untouched = λ attempted. same ∙ is_ok-status r.status (ground arith);
            }
      ]

  pub dispatch_validated-execute :
      (m : Moments) (definition : HostOperationDefinition) (arguments : ℕ) (j k : Journal)
      → begin x m.begun request j ≡ (k, ok execute)
      → dispatch_validated x d request m definition arguments j
        ≡ execute_handler x d request m definition arguments k
  unfolding dispatch_validated dispatch_decided
  dispatch_validated-execute m definition arguments j k h = rw h refl

  journal_result-status_ok :
      (mutates_host : Bool) (c : HostOperationContext) (o : Result Stop ℕ) (r : JournalResult)
      → journal_result x d request mutates_host c o ≡ ok r
      → r.status ≡ status_ok
      → ((result : ℕ) × (o ≡ ok result)) × (mutates_host ≡ true → used_authorized_effect c ≡ true)
  unfolding journal_result
  journal_result-status_ok mutates_host c (ok result) r h good =
      ((result, refl), λ mutates. ground arith)
  journal_result-status_ok mutates_host c (err (effect_ambiguous result)) r h good = cc
  journal_result-status_ok mutates_host c (err (operation_rejected code)) r h good = ground arith
  journal_result-status_ok mutates_host c (err (journal_error e)) r h good = ground arith
  journal_result-status_ok mutates_host c (err operation_failed) r h good = ground arith

-- Where `_dispatch_validated` runs the handler and answers REJECTED, every effect that has started on
-- the host is one that the code does not record as attempted: not an authorized one, and a staged or
-- renewable one that does not mark its start.
pub rejected_before_effect :
    (x : Encoding) (d : Documents) (request : HostRequest) (m : Moments)
    (definition : HostOperationDefinition) (arguments : ℕ) (j k l : Journal)
    (response : HostResponse)
    → begin x m.begun request j ≡ (k, ok execute)
    → dispatch_validated x d request m definition arguments j ≡ (l, ok response)
    → response.status ≡ status_rejected
    → All IsUnmarked (started x request d (definition.handle arguments) (new_context k))
unfolding execute_handler
rejected_before_effect x d request m definition arguments j k l response begun h rejected =
    let done = run_handler x request d (definition.handle arguments) (new_context k) in
    let came =
      conclude-Came x d request m done.0 _ l response
        (sym (dispatch_validated-execute x d request m definition arguments j k begun) ∙ h)
        (ground arith) in
    let touched = came.untouched in
    let quiet : done.0.effect_attempted ≡ false = ground arith in
    (run_handler-IsUnmarked x request d (definition.handle arguments) (new_context k) quiet).1

-- Where `_dispatch_validated` runs the handler and answers OK, the handler has returned a result, and
-- where its operation mutates the host, at least one effect is complete: it has started under an
-- authorized lease of a task, has raised nothing, and its lease was authorized after it.
pub ok_after_effect :
    (x : Encoding) (d : Documents) (request : HostRequest) (m : Moments)
    (definition : HostOperationDefinition) (arguments : ℕ) (j k l : Journal)
    (response : HostResponse)
    → begin x m.begun request j ≡ (k, ok execute)
    → dispatch_validated x d request m definition arguments j ≡ (l, ok response)
    → response.status ≡ status_ok
    → ((result : ℕ) × ((run_handler x request d (definition.handle arguments) (new_context k)).1
          ≡ ok result))
      × (definition.mutates_host ≡ true
          → 0 < length (completed x request d (definition.handle arguments) (new_context k)))
unfolding execute_handler
ok_after_effect x d request m definition arguments j k l response begun h good =
    let handler = definition.handle arguments in
    let done = run_handler x request d handler (new_context k) in
    let came =
      conclude-Came x d request m done.0 _ l response
        (sym (dispatch_validated-execute x d request m definition arguments j k begun) ∙ h)
        (ground arith) in
    let (returned, counted) =
      journal_result-status_ok x d request definition.mutates_host done.0 _ came.result
        came.returned (sym came.same ∙ good) in
    (
      returned,
      λ mutates.
          let some_effect : 0 < done.0.authorized_effects = ground (arith, counted mutates) in
          omega (arith, run_handler-completed x request d handler (new_context k)),
    )
