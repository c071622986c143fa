-- ===== src/Dispatch/Reached.antt =====
-- What a dispatch does to the journal: calls of it, and nothing else.
use mathews.Common.{
  ℕ, arith, ◌≡◌, refl, sym, ap, ◌∙◌, not, ◌&&◌, List, [], ◌∷◌, ◌++◌, Result, ok, err, inl, inr,
  Bool-cases, Result-cases,
}
use mathews.Journal.{
  HostRequest, JournalResult, JournalDecision, execute, replay, ambiguous, JournalError, Journal,
  Encoding,
}
use mathews.Journal.Calls.{assert_authorized, begin}
use mathews.Journal.Operations.{is_task_scoped}
use mathews.Journal.Trace.{Call, begins, finishes, step, run}
use mathews.Dispatch.{
  Effect, Handler, returns, raises, performs, HostOperationDefinition, Documents,
  HostOperationContext, Moments,
}
use mathews.Dispatch.Context.{
  new_context, advance, attempt, after_effect, perform_under_guard, perform, run_handler,
}
use mathews.Dispatch.Dispatcher.{
  is_ok, conclude, finished_answer, execute_handler, dispatch_decided, dispatch_validated,
}

-- A journal that calls lead to.
abbrev pub Reached : Encoding → Journal → Journal → Type 0
Reached x j k = (calls : List Call) × (k ≡ run x calls j)

run-append :
    (x : Encoding) (cs ds : List Call) (j : Journal) → run x (cs ++ ds) j ≡ run x ds (run x cs j)
unfolding run
run-append x [] ds j = refl
run-append x (c ∷ cs) ds j = run-append x cs ds (step x c j)

module _ (x : Encoding) (request : HostRequest) (d : Documents) where
  pub Reached-trans : (j k l : Journal) → Reached x j k → Reached x k l → Reached x j l
  Reached-trans j k l (cs, e) (ds, f) = (cs ++ ds, f ∙ ap (run x ds) e ∙ sym (run-append x cs ds j))

  Reached-refl : (j : Journal) → Reached x j j
  unfolding run
  Reached-refl j = ([], refl)

  after_effect-journal :
      (e : Effect) (c : HostOperationContext) → (after_effect x request e c).0.journal ≡ c.journal
  unfolding after_effect
  after_effect-journal e c = ground arith

  perform_under_guard-Reached :
      (e : Effect) (c : HostOperationContext)
      → Reached x c.journal (perform_under_guard x request e c).0.journal
  unfolding perform_under_guard attempt run
  perform_under_guard-Reached e c =
      elim (Result-cases (assert_authorized e.before.now request c.journal)) [
        | inr (lost, f) ↦ rw (perform_under_guard, f) (Reached-refl c.journal)
        | inl (held, f) ↦ rw (perform_under_guard, f) (e.after.others, after_effect-journal e _)
      ]

  perform-Reached :
      (e : Effect) (c : HostOperationContext)
      → Reached x c.journal (perform x request d e c).0.journal
  unfolding perform
  perform-Reached e c = elim (Bool-cases (is_task_scoped request.authority)) [
    | inr t ↦ rw t (e.before.others, refl)
    | inl t ↦ rw t (
        Reached-trans c.journal (run x e.before.others c.journal) _ (e.before.others, refl)
          (perform_under_guard-Reached e (advance x e.before c)))
  ]

  pub run_handler-Reached :
      (handler : Handler) (c : HostOperationContext)
      → Reached x c.journal (run_handler x request d handler c).0.journal
  unfolding run_handler
  run_handler-Reached (returns result) c = Reached-refl c.journal
  run_handler-Reached (raises stop) c = Reached-refl c.journal
  run_handler-Reached (performs e next) c =
      let done = perform x request d e c in
      Reached-trans c.journal done.0.journal _ (perform-Reached e c)
        (run_handler-Reached (next done.1) done.0)

  finished_answer-journal :
      (now : ℕ) (r : JournalResult) (out : Journal × Result JournalError (Unit {0}))
      → (finished_answer x d request now r out).0 ≡ out.0
  finished_answer-journal now r (j, ok _) = refl
  finished_answer-journal now r (j, err e) = refl

  conclude-Reached :
      (m : Moments) (c : HostOperationContext) (r : Result ℕ JournalResult)
      → Reached x c.journal (conclude x d request m c r).0
  unfolding conclude run step
  conclude-Reached m c (err result) = ([], refl)
  conclude-Reached m c (ok r) = elim (Bool-cases (c.effect_attempted && not (is_ok r.status))) [
    | inl t ↦ rw t ([], refl)
    | inr t ↦ rw t (
      m.finished.others ++ (finishes m.finished.now request r ∷ []),
      finished_answer-journal m.answered r _
          ∙ sym (run-append x m.finished.others (finishes m.finished.now request r ∷ []) c.journal),
    )
  ]

  pub dispatch_decided-Reached :
      (m : Moments) (definition : HostOperationDefinition) (arguments : ℕ) (j : Journal)
      (decided : Result JournalError JournalDecision)
      → Reached x j (dispatch_decided x d request m definition arguments j decided).0
  unfolding dispatch_decided execute_handler
  dispatch_decided-Reached m definition arguments j (err e) = Reached-refl j
  dispatch_decided-Reached m definition arguments j (ok ambiguous) = Reached-refl j
  dispatch_decided-Reached m definition arguments j (ok (replay result)) = Reached-refl j
  dispatch_decided-Reached m definition arguments j (ok execute) =
      Reached-trans j _ _ (run_handler-Reached (definition.handle arguments) (new_context j))
        (conclude-Reached m _ _)

  -- A dispatch makes the calls of `begin`, and others after it.
  pub dispatch_validated-begins :
      (m : Moments) (definition : HostOperationDefinition) (arguments : ℕ) (j : Journal)
      → (rest : List Call) × ((dispatch_validated x d request m definition arguments j).0
          ≡ run x (begins m.begun request ∷ rest) j)
  unfolding dispatch_validated run step
  dispatch_validated-begins m definition arguments j =
      dispatch_decided-Reached m definition arguments (begin x m.begun request j).0 _
