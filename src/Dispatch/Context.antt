-- ===== src/Dispatch/Context.antt =====
-- services/host-agent/src/mathews_host_agent/dispatch.py: `HostOperationContext`, and the run of a
-- handler.
use mathews.Common.{
  ℕ, ◌+◌, Bool, true, false, ◌||◌, none, some, ltb, Result, ok, err, if◌then◌else◌,
}
use mathews.Journal.{HostRequest, Journal, Encoding}
use mathews.Journal.Operations.{is_task_scoped}
use mathews.Journal.Calls.{assert_authorized}
use mathews.Journal.Trace.{run}
use mathews.Dispatch.{
  Stop, effect_ambiguous, operation_rejected, journal_error, Moment, EffectKind, authorized, staged,
  renewable, Effect, Handler, returns, raises, performs, Documents, code_authority_not_allowed,
  HostOperationContext,
}

abbrev pub new_context : Journal → HostOperationContext
new_context j = record { journal = j; authorized_effects = 0; effect_attempted = false }

-- The journal at the next moment.
abbrev pub advance : Encoding → Moment → HostOperationContext → HostOperationContext
advance x m c = record c { journal = run x m.others c.journal }

abbrev pub is_authorized : EffectKind → Bool
is_authorized authorized = true
is_authorized _ = false

-- The last check of an effect: a renewable one has an ambiguous result where its lease is lost.
abbrev pub lost_lease : Effect → Stop → Stop
lost_lease e s = elim e.kind [ renewable ↦ effect_ambiguous e.result | authorized ↦ s | staged ↦ s ]

module _ (x : Encoding) (request : HostRequest) where
  -- After the effect itself.
  unfoldable pub after_effect : Effect → HostOperationContext → HostOperationContext × Result Stop ℕ
  after_effect e c = elim e.raised [
    | some stop ↦ (c, err stop)
    | none ↦ elim (assert_authorized e.after.now request c.journal) [
      | err lost ↦ (c, err (lost_lease e (journal_error lost)))
      | ok _ ↦ (record c { authorized_effects = c.authorized_effects + 1 }, ok e.result)
    ]
  ]

  -- The start of the effect, once its lease was checked.
  unfoldable pub attempt : Effect → HostOperationContext → HostOperationContext
  attempt e c = record c {
    effect_attempted = is_authorized e.kind || e.marks_attempted || c.effect_attempted;
  }

  unfoldable pub perform_under_guard :
      Effect → HostOperationContext → HostOperationContext × Result Stop ℕ
  perform_under_guard e c = elim (assert_authorized e.before.now request c.journal) [
    | err lost ↦ (c, err (journal_error lost))
    | ok _ ↦ after_effect e (advance x e.after (attempt e c))
  ]

  -- The three `perform_*` methods. Only a request of a task has a guard.
  unfoldable pub perform :
      Documents → Effect → HostOperationContext → HostOperationContext × Result Stop ℕ
  perform d e c =
      if is_task_scoped request.authority
      then perform_under_guard e (advance x e.before c)
      else (advance x e.before c, err (operation_rejected (d.literal code_authority_not_allowed)))

  -- A handler in its context.
  unfoldable pub run_handler :
      Documents → Handler → HostOperationContext → HostOperationContext × Result Stop ℕ
  run_handler d (returns result) c = (c, ok result)
  run_handler d (raises stop) c = (c, err stop)
  run_handler d (performs e next) c = let done = perform d e c in run_handler d (next done.1) done.0

-- `used_authorized_effect`
abbrev pub used_authorized_effect : HostOperationContext → Bool
used_authorized_effect c = ltb 0 c.authorized_effects
