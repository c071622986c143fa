-- ===== src/Dispatch/Reaching.antt =====
-- What a handler does on the host, apart from what its context records: the effects that start,
-- which are those of a request of a task whose lease is authorized just before, and those that are
-- complete, which raise nothing and whose lease is authorized after them.
use mathews.Common.{
  ◌+◌, arith, ◌≡◌, ◌≢◌, Bool, true, false, ◌&&◌, ◌||◌, Option, none, some, List, [], ◌∷◌, Result,
  ok, err, inl, inr, Bool-cases, Result-cases, if◌then◌else◌, length,
}
use mathews.Common.Queries.{All}
use mathews.Journal.{HostRequest, JournalError, Encoding}
use mathews.Journal.Calls.{assert_authorized}
use mathews.Journal.Operations.{is_task_scoped}
use mathews.Journal.Trace.{run}
use mathews.Dispatch.{
  Stop, EffectKind, authorized, staged, renewable, Effect, Handler, returns, raises, performs,
  Documents, HostOperationContext,
}
use mathews.Dispatch.Context.{
  advance, attempt, after_effect, perform_under_guard, perform, run_handler, is_authorized,
}

abbrev pub is_granted : Result JournalError (Unit {0}) → Bool
is_granted (ok _) = true
is_granted (err _) = false

abbrev pub raises_nothing : Option Stop → Bool
raises_nothing none = true
raises_nothing (some _) = false

-- An effect that says nothing of its start: no authorized one, and one that does not mark it.
abbrev pub IsUnmarked : Effect → Type 0
IsUnmarked e = (e.kind ≢ authorized) × (e.marks_attempted ≡ false)

unmarked :
    (k : EffectKind) (m b : Bool)
    → (is_authorized k || m || b) ≡ false
    → (b ≡ false) × (k ≢ authorized) × (m ≡ false)
unmarked authorized m b h = cc
unmarked staged m b h = (ground arith, (λ s. cc), ground arith)
unmarked renewable m b h = (ground arith, (λ s. cc), ground arith)

module _ (x : Encoding) (request : HostRequest) (d : Documents) where
  abbrev pub does_start : Effect → HostOperationContext → Bool
  does_start e c =
      is_task_scoped request.authority
      && is_granted (assert_authorized e.before.now request (run x e.before.others c.journal))

  abbrev pub is_complete : Effect → HostOperationContext → Bool
  is_complete e c =
      does_start e c
      && raises_nothing e.raised
      && is_granted (
          assert_authorized e.after.now request
            (run x e.after.others (run x e.before.others c.journal)))

  -- The effects that start on the host.
  abbrev pub started : Handler → HostOperationContext → List Effect
  started (returns result) c = []
  started (raises stop) c = []
  started (performs e next) c =
      let done = perform x request d e c in
      let rest = started (next done.1) done.0 in if does_start e c then e ∷ rest else rest

  -- The effects that are complete.
  abbrev pub completed : Handler → HostOperationContext → List Effect
  completed (returns result) c = []
  completed (raises stop) c = []
  completed (performs e next) c =
      let done = perform x request d e c in
      let rest = completed (next done.1) done.0 in if is_complete e c then e ∷ rest else rest

  after_effect-attempted :
      (e : Effect) (c : HostOperationContext)
      → (after_effect x request e c).0.effect_attempted ≡ c.effect_attempted
  unfolding after_effect
  after_effect-attempted e c = ground arith

  perform-attempted :
      (e : Effect) (c : HostOperationContext)
      → (perform x request d e c).0.effect_attempted ≡ false
      → (c.effect_attempted ≡ false) × (does_start e c ≡ true → IsUnmarked e)
  unfolding perform perform_under_guard attempt
  perform-attempted e c h = elim (Bool-cases (is_task_scoped request.authority)) [
    | inr t ↦ (ground arith, λ s. absurd (ground arith))
    | inl t ↦
        elim (Result-cases
          (assert_authorized e.before.now request (run x e.before.others c.journal))) [
            | inr (lost, f) ↦ (ground arith, λ s. absurd (ground arith))
            | inl (held, f) ↦
                let quiet = unmarked e.kind e.marks_attempted c.effect_attempted (
                  ground (
                    arith,
                    after_effect-attempted e
                        (advance x e.after (attempt x request e (advance x e.before c))),
                  )) in
                (quiet.0, λ s. (quiet.1, quiet.2))
          ]
  ]

  perform-completed :
      (e : Effect) (c : HostOperationContext)
      → (perform x request d e c).0.authorized_effects
        ≡ c.authorized_effects + (if is_complete e c then 1 else 0)
  unfolding perform perform_under_guard attempt after_effect
  perform-completed e c = ground arith

  pub run_handler-IsUnmarked :
      (h : Handler) (c : HostOperationContext)
      → (run_handler x request d h c).0.effect_attempted ≡ false
      → (c.effect_attempted ≡ false) × All IsUnmarked (started h c)
  unfolding run_handler
  run_handler-IsUnmarked (returns result) c h = (h, tt)
  run_handler-IsUnmarked (raises stop) c h = (h, tt)
  run_handler-IsUnmarked (performs e next) c h =
      let done = perform x request d e c in
      let (first, rest) = run_handler-IsUnmarked (next done.1) done.0 h in
      let (before, quiet) = perform-attempted e c first in
      (
        before,
        elim (Bool-cases (does_start e c)) [ inl t ↦ rw t (quiet t, rest) | inr t ↦ rw t rest ],
      )

  pub run_handler-completed :
      (h : Handler) (c : HostOperationContext)
      → (run_handler x request d h c).0.authorized_effects
        ≡ c.authorized_effects + length (completed h c)
  unfolding run_handler
  run_handler-completed (returns result) c = omega arith
  run_handler-completed (raises stop) c = omega arith
  run_handler-completed (performs e next) c =
      let done = perform x request d e c in
      let rest = run_handler-completed (next done.1) done.0 in
      let first = perform-completed e c in
      elim (Bool-cases (is_complete e c)) [ inl t ↦ ground arith | inr t ↦ ground arith ]
