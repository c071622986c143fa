-- ===== src/TaskMachine/Diagram.antt =====
-- `evaluate_task_transition` takes exactly the transitions of the diagram.
use mathews.Errors.{TransitionError}
use mathews.Common.{
  ◌↔◌, Result, ◌⊎◌, inl, inr, >>=-eq-ok, Option, none, ℕ, ◌≡◌, refl, true, false, some, Text, ok,
  err, arith,
}
use mathews.TaskMachine.{
  TaskState, intake, briefing, brief_pending_approval, implementing, validating, repairing,
  pr_active, ready_for_human_merge, handed_off, escalated, failed, cancelled, is_state, is_terminal,
  is_steerable, TaskTransitionKind, start_briefing, auto_accept_brief, request_brief_approval,
  revise_brief, approve_exact_brief, begin_validation, begin_repair, revalidate,
  open_verified_draft_pr, mark_merge_ready, invalidate_readiness, acknowledge_handoff, escalate,
  resume, cancel, fail, scope_steer, DraftPrGateFacts, ReadinessGateFacts, TaskTransitionGuards,
  TaskTransitionSnapshot, TaskTransitionPlan, basic_plan, verified_draft_head, readiness_head,
}
use mathews.TaskMachine.Edges.{
  IsWorking, at_intake, at_briefing, at_brief_pending, at_implementing, at_validating, at_repairing,
  at_pr_active, at_ready, IsActive, working, waiting, Permits, starts, bypasses, asks, revises,
  approves, validates, repairs_run, repairs_pr, revalidates, opens, marks, withdraws, hands_off,
  escalates, resumes, cancels, fails, steers,
}
use mathews.TaskMachine.Engine.{
  ladder, draft_gate_head, readiness_gate_head, gate_head, ordinary_transition, resume_plan,
  active_transition, evaluate_task_transition,
}
use mathews.TaskMachine.Gates.{
  DraftGatePassed, ReadinessGatePassed, verified_draft_head_iff, readiness_head_iff,
}

is_steerable-IsWorking : (s : TaskState) → is_steerable s ≡ true → IsWorking s
unfolding is_steerable
is_steerable-IsWorking intake h = at_intake
is_steerable-IsWorking briefing h = at_briefing
is_steerable-IsWorking brief_pending_approval h = at_brief_pending
is_steerable-IsWorking implementing h = at_implementing
is_steerable-IsWorking validating h = at_validating
is_steerable-IsWorking repairing h = at_repairing
is_steerable-IsWorking pr_active h = at_pr_active
is_steerable-IsWorking ready_for_human_merge h = at_ready
is_steerable-IsWorking _ h = cc

IsWorking-is_steerable : {s : TaskState} → IsWorking s → is_steerable s ≡ true
unfolding is_steerable
IsWorking-is_steerable at_intake = refl
IsWorking-is_steerable _ = refl

IsWorking-not_terminal : {s : TaskState} → IsWorking s → is_terminal s ≡ false
unfolding is_terminal
IsWorking-not_terminal at_intake = refl
IsWorking-not_terminal _ = refl

IsActive-not_terminal : {s : TaskState} → IsActive s → is_terminal s ≡ false
unfolding is_terminal
IsActive-not_terminal waiting = refl
IsActive-not_terminal (working w) = IsWorking-not_terminal w

not_terminal-IsActive : (s : TaskState) → is_terminal s ≡ false → IsActive s
unfolding is_terminal is_steerable
not_terminal-IsActive escalated h = waiting
not_terminal-IsActive handed_off h = cc
not_terminal-IsActive failed h = cc
not_terminal-IsActive cancelled h = cc
not_terminal-IsActive s h = working (is_steerable-IsWorking s refl)

draft_gate_head_ok :
    (o : Option DraftPrGateFacts) {r : Option Text}
    → draft_gate_head o ≡ ok r
    → (facts : DraftPrGateFacts) × (head : Text) × (o ≡ some facts)
      × DraftGatePassed facts head
      × (r ≡ some head)
unfolding draft_gate_head
draft_gate_head_ok none h = cc
draft_gate_head_ok (some facts) h =
    let (head, e, t) = >>=-eq-ok (verified_draft_head facts) (λ head. ok (some head)) h in
    (facts, head, refl, (verified_draft_head_iff facts head).0 e, cc)

readiness_gate_head_ok :
    (s : TaskTransitionSnapshot) (o : Option ReadinessGateFacts) {r : Option Text}
    → readiness_gate_head s o ≡ ok r
    → (facts : ReadinessGateFacts) × (head : Text) × (o ≡ some facts)
      × ReadinessGatePassed s.verified_pr_head_sha facts head
      × (r ≡ some head)
unfolding readiness_gate_head
readiness_gate_head_ok s none h = cc
readiness_gate_head_ok s (some facts) h =
    let (head, e, t) = >>=-eq-ok (readiness_head s facts) (λ head. ok (some head)) h in
    (facts, head, refl, (readiness_head_iff s facts head).0 e, cc)

resume_plan_ok :
    (s : TaskTransitionSnapshot) (g : TaskTransitionGuards) (o : Option TaskState)
    {p : TaskTransitionPlan}
    → resume_plan s g o ≡ ok p
    → (t : TaskState) × (id : ℕ) × ((o ≡ some t)
        × (s.state ≡ escalated)
        × (is_steerable t ≡ true)
        × (g.resume_decision_id ≡ some id)
        × (g.resume_decision_current ≡ true)
        × (g.resume_preconditions_rechecked ≡ true)
        × (p.to_state ≡ t))
unfolding resume_plan basic_plan
resume_plan_ok s g none h = cc
resume_plan_ok s g (some t) h =
    let (id, e) : (id : ℕ) × (g.resume_decision_id ≡ some id) = ground arith in
    (
      t,
      id,
      (
        refl,
        unfold is_state in ground arith,
        unfold is_steerable in ground arith,
        e,
        ground arith,
        ground arith,
        ground arith,
      ),
    )

module _ (s : TaskTransitionSnapshot) (g : TaskTransitionGuards) where
  -- An accepted transition of the ladder is valid, leads to its target, and has passed its gate.
  ordinary_transition_ok :
      (k : TaskTransitionKind) {p : TaskTransitionPlan}
      → ordinary_transition k s g ≡ ok p
      → ((ladder k s.state g).0 ≡ true)
        × (p.to_state ≡ (ladder k s.state g).1)
        × (gate_head k s g ≡ ok p.gate_head_sha)
  unfolding ordinary_transition basic_plan
  ordinary_transition_ok k h = ground arith

  reach : {k : TaskTransitionKind} {u t : TaskState} → u ≡ t → Permits s g k t → Permits s g k u
  reach e x = rw e x

  ordinary_transition-Permits :
      (k : TaskTransitionKind) {p : TaskTransitionPlan}
      → ordinary_transition k s g ≡ ok p
      → Permits s g k p.to_state
  unfolding ladder is_state gate_head
  ordinary_transition-Permits start_briefing h =
      let f = ordinary_transition_ok start_briefing h in reach f.1 (starts (ground arith))
  ordinary_transition-Permits auto_accept_brief h =
      let f = ordinary_transition_ok auto_accept_brief h in
      reach f.1 (bypasses (ground arith) (ground arith))
  ordinary_transition-Permits request_brief_approval h =
      let f = ordinary_transition_ok request_brief_approval h in
      reach f.1 (asks (ground arith) (ground arith))
  ordinary_transition-Permits revise_brief h =
      let f = ordinary_transition_ok revise_brief h in
      let (id, e) : (id : ℕ) × (g.brief_revision_request_id ≡ some id) = ground arith in
      reach f.1 (revises (ground arith) e)
  ordinary_transition-Permits approve_exact_brief h =
      let f = ordinary_transition_ok approve_exact_brief h in
      reach f.1 (approves (ground arith) (ground arith))
  ordinary_transition-Permits begin_validation h =
      let f = ordinary_transition_ok begin_validation h in reach f.1 (validates (ground arith))
  ordinary_transition-Permits begin_repair h =
      let f = ordinary_transition_ok begin_repair h in
      let c : (s.state ≡ validating) ⊎ (s.state ≡ pr_active) = ground arith in
      elim c [
        | inl e ↦ reach f.1 (repairs_run e (ground arith))
        | inr e ↦ reach f.1 (repairs_pr e (ground arith))
      ]
  ordinary_transition-Permits revalidate h =
      let f = ordinary_transition_ok revalidate h in reach f.1 (revalidates (ground arith))
  ordinary_transition-Permits open_verified_draft_pr h =
      let f = ordinary_transition_ok open_verified_draft_pr h in
      let (facts, head, e, d, r) = draft_gate_head_ok g.draft_pr f.2 in
      reach f.1 (opens (ground arith) e d)
  ordinary_transition-Permits mark_merge_ready h =
      let f = ordinary_transition_ok mark_merge_ready h in
      let (facts, head, e, d, r) = readiness_gate_head_ok s g.readiness f.2 in
      reach f.1 (marks (ground arith) e d)
  ordinary_transition-Permits invalidate_readiness h =
      let f = ordinary_transition_ok invalidate_readiness h in
      reach f.1 (withdraws (ground arith) (ground arith))
  ordinary_transition-Permits acknowledge_handoff h =
      let f = ordinary_transition_ok acknowledge_handoff h in
      let (facts, head, e, d, r) = readiness_gate_head_ok s g.readiness f.2 in
      reach f.1 (hands_off (ground arith) (ground arith) e d)
  ordinary_transition-Permits k h = absurd (ground (arith, ordinary_transition_ok k h))

  active_transition-Permits :
      (k : TaskTransitionKind) {p : TaskTransitionPlan}
      → is_terminal s.state ≡ false
      → active_transition k s g ≡ ok p
      → Permits s g k p.to_state
  unfolding active_transition basic_plan
  active_transition-Permits cancel n h =
      reach (ground arith) (cancels (not_terminal-IsActive s.state n))
  active_transition-Permits fail n h =
      reach (ground arith) (fails (not_terminal-IsActive s.state n))
  active_transition-Permits escalate n h =
      reach (ground arith)
        (escalates (is_steerable-IsWorking s.state (unfold is_steerable in ground arith)))
  active_transition-Permits scope_steer n h =
      reach (ground arith)
        (steers (is_steerable-IsWorking s.state (ground arith)) (ground arith) (ground arith))
  active_transition-Permits resume n h =
      let (t, id, f) = resume_plan_ok s g s.escalation_resume_state h in
      reach f.6 (resumes f.1 f.0 (is_steerable-IsWorking t f.2) f.3 f.4 f.5)
  active_transition-Permits k n h = ordinary_transition-Permits k h

-- The state to which an accepted transition leads.
abbrev pub target_of : Result TransitionError TaskTransitionPlan → Option TaskState
target_of (ok plan) = some plan.to_state
target_of (err e) = none

target_of_ok :
    (r : Result TransitionError TaskTransitionPlan) {t : TaskState}
    → target_of r ≡ some t
    → (p : TaskTransitionPlan) × (r ≡ ok p) × (p.to_state ≡ t)
target_of_ok (ok p) h = (p, refl, ground arith)
target_of_ok (err e) h = cc

module _ (s : TaskTransitionSnapshot) (g : TaskTransitionGuards) where
  target_of-Permits :
      (k : TaskTransitionKind) {t : TaskState}
      → target_of (evaluate_task_transition s k g) ≡ some t
      → Permits s g k t
  unfolding evaluate_task_transition
  target_of-Permits k h =
      let (p, e, d) = target_of_ok (evaluate_task_transition s k g) h in
      rw (← d) (active_transition-Permits s g k {p = p} (ground arith) (ground arith))

  Permits-target_of :
      {k : TaskTransitionKind} {t : TaskState}
      → Permits s g k t
      → target_of (evaluate_task_transition s k g) ≡ some t
  unfolding evaluate_task_transition active_transition ordinary_transition ladder gate_head
      basic_plan is_state is_terminal
  Permits-target_of (starts e) = rw e
  Permits-target_of (bypasses e f) = ground arith
  Permits-target_of (asks e f) = ground arith
  Permits-target_of (revises e f) = ground arith
  Permits-target_of (approves e f) = ground arith
  Permits-target_of (validates e) = ground arith
  Permits-target_of (repairs_run e f) = ground arith
  Permits-target_of (repairs_pr e f) = ground arith
  Permits-target_of (revalidates e) = ground arith
  Permits-target_of (opens {facts = f} {head = h} e o d) =
      unfold draft_gate_head in ground (arith, (verified_draft_head_iff f h).1 d)
  Permits-target_of (marks {facts = f} {head = h} e o d) =
      unfold readiness_gate_head in ground (arith, (readiness_head_iff s f h).1 d)
  Permits-target_of (withdraws e f) = ground arith
  Permits-target_of (hands_off {facts = f} {head = h} e a o d) =
      unfold readiness_gate_head in ground (arith, (readiness_head_iff s f h).1 d)
  Permits-target_of (escalates w) = unfold is_steerable in ground (arith, IsWorking-is_steerable w)
  Permits-target_of (resumes e r w d c q) =
      unfold is_steerable resume_plan in ground (arith, IsWorking-is_steerable w)
  Permits-target_of (cancels a) = ground (arith, IsActive-not_terminal a)
  Permits-target_of (fails a) = ground (arith, IsActive-not_terminal a)
  Permits-target_of (steers w f c) =
      ground (arith, IsWorking-is_steerable w, IsWorking-not_terminal w)

-- The code accepts a transition of a kind into a state exactly when the diagram permits it: from the
-- edge's state, with the edge's authority, and with the commits of its gate all one object id.
pub evaluate_task_transition_iff :
    (s : TaskTransitionSnapshot) (g : TaskTransitionGuards) (k : TaskTransitionKind) (t : TaskState)
    → (target_of (evaluate_task_transition s k g) ≡ some t) ↔ Permits s g k t
evaluate_task_transition_iff s g k t = (target_of-Permits s g k, Permits-target_of s g)
