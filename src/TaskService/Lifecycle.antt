-- ===== src/TaskService/Lifecycle.antt =====
-- What the audit log of a task must hold once the task has come far enough.
use mathlib.Core.Path.{subst}
use native.Mathlib.Decide.{dec_le}
use mathews.TaskMachine.{
  TaskState, implementing, validating, repairing, pr_active, ready_for_human_merge, handed_off,
  escalated, is_state, TaskTransitionKind, auto_accept_brief, approve_exact_brief,
  open_verified_draft_pr, mark_merge_ready, acknowledge_handoff, TaskTransitionGuards,
  TaskTransitionSnapshot,
}
use mathews.TaskMachine.Edges.{
  IsWorking, at_intake, Permits, starts, bypasses, asks, revises, approves, validates, repairs_run,
  repairs_pr, revalidates, opens, marks, withdraws, hands_off, escalates, resumes, cancels, fails,
  steers,
}
use mathews.TaskService.{Task, TaskEvent, Database, Command, find_task}
use mathews.TaskService.Apply.{Externals}
use mathews.TaskService.Calls.{transitions, transitions-IsAudited}
use mathews.TaskService.Acknowledged.{Acknowledged, IsNotHandedOff, transitions-Acknowledged}
use mathews.TaskService.Log.{history, last_from, resumable, IsPath, IsAudited}
use mathews.Common.{
  ℕ, ◌+◌, ◌≤◌, ◌<◌, ◌≡◌, refl, ap, sym, ◌∙◌, ◌⊎◌, inl, inr, some, List, [], ◌∷◌, arith, max,
}

-- How many of the four gates lie behind a state: an accepted brief, a verified draft pull request,
-- readiness, the human's acknowledgement.
abbrev pub stage : TaskState → ℕ
stage implementing = 1
stage validating = 1
stage repairing = 1
stage pr_active = 2
stage ready_for_human_merge = 3
stage handed_off = 4
stage _ = 0

-- The gate that a kind of transition passes.
abbrev pub gate : TaskTransitionKind → ℕ
gate auto_accept_brief = 1
gate approve_exact_brief = 1
gate open_verified_draft_pr = 2
gate mark_merge_ready = 3
gate acknowledge_handoff = 4
gate _ = 0

-- The stage of a task; while it is escalated, that of the state from which it was.
abbrev pub stage_at : TaskState → List TaskEvent → ℕ
stage_at escalated [] = 0
stage_at escalated (e ∷ es) = stage e.transition_from_state
stage_at s es = stage s

-- The log holds a transition that passed gate `n`.
abbrev pub Passed : ℕ → List TaskEvent → Type 0
Passed n [] = ⊥
Passed n (e ∷ es) = (gate e.transition_kind ≡ n) ⊎ Passed n es

IsWorking-stage_at : {s : TaskState} (es : List TaskEvent) → IsWorking s → stage_at s es ≡ stage s
IsWorking-stage_at es at_intake = refl
IsWorking-stage_at es _ = refl

last_from-stage_at :
    (t : TaskState) (es : List TaskEvent) → some t ≡ last_from es → stage_at escalated es ≡ stage t
last_from-stage_at t [] h = cc
last_from-stage_at t (e ∷ es) h = cc

-- A transition raises the stage by a gate alone, and by one at most.
Permits-stage :
    (s : TaskTransitionSnapshot) (g : TaskTransitionGuards) {k : TaskTransitionKind} {b : TaskState}
    (es : List TaskEvent)
    → s.escalation_resume_state ≡ resumable s.state es
    → Permits s g k b
    → (e : TaskEvent) → e.transition_from_state ≡ s.state
    → (stage_at b (e ∷ es) ≤ max (stage_at s.state es) (gate k))
      × (gate k ≤ stage_at s.state es + 1)
unfolding is_state
Permits-stage s g es r (starts f) e q = ground arith
Permits-stage s g es r (bypasses f _) e q = ground arith
Permits-stage s g es r (asks f _) e q = ground arith
Permits-stage s g es r (revises f _) e q = ground arith
Permits-stage s g es r (approves f _) e q = ground arith
Permits-stage s g es r (validates f) e q = ground arith
Permits-stage s g es r (repairs_run f _) e q = ground arith
Permits-stage s g es r (repairs_pr f _) e q = ground arith
Permits-stage s g es r (revalidates f) e q = ground arith
Permits-stage s g es r (opens f _ _) e q = ground arith
Permits-stage s g es r (marks f _ _) e q = ground arith
Permits-stage s g es r (withdraws f _) e q = ground arith
Permits-stage s g es r (hands_off f _ _ _) e q = ground arith
Permits-stage s g es r (escalates w) e q = omega (arith, IsWorking-stage_at es w, ap stage q)
Permits-stage s g es r (resumes {t = t} f h w _ _ _) e q =
    let rec : some t ≡ last_from es = sym h ∙ r ∙ ap (λ a. resumable a es) f in
    let here : stage_at s.state es ≡ stage t = rw f (last_from-stage_at t es rec) in
    omega (arith, IsWorking-stage_at (e ∷ es) w)
Permits-stage s g es r (cancels a) e q = omega arith
Permits-stage s g es r (fails a) e q = omega arith
Permits-stage s g es r (steers w _ _) e q = omega arith

IsPath-Passed :
    (s : TaskState) (h : List TaskEvent) (n : ℕ)
    → IsPath s h
    → 0 < n
    → n ≤ stage_at s h
    → Passed n h
IsPath-Passed s [] n p z le = absurd (ground arith)
IsPath-Passed s (e ∷ es) n (to, (sn, g, (f, r, pm)), rest) z le =
    let (up, one) = Permits-stage sn g es (r ∙ ap (λ a. resumable a es) (sym f)) pm e (sym f) in
    let le' : n ≤ stage_at e.transition_to_state (e ∷ es) =
      subst (λ b. n ≤ stage_at b (e ∷ es)) (sym to) le in
    let (up', one') : (n ≤ max (stage_at e.transition_from_state es) (gate e.transition_kind))
        × (gate e.transition_kind ≤ stage_at e.transition_from_state es + 1) =
      rw (← f) (omega arith, one) in
    elim (dec_le n (stage_at e.transition_from_state es)) [
      | yes l ↦ inr (IsPath-Passed e.transition_from_state es n rest z l)
      | no l ↦ inl (omega arith)
    ]

-- Where the tasks of a database are the projections of their logs, and a task is handed off after a
-- sequence of calls of `_transition_task`, but was not before: its log holds an accepted brief, a
-- verified draft pull request, a mark of readiness and an acknowledged handoff, and one of the calls
-- found the task ready, with guards that held the acknowledgement of a human.
pub handed_off-Passed :
    (x : Externals) (cs : List Command) (db : Database) (id : ℕ) (t : Task)
    → IsAudited db
    → IsNotHandedOff id db
    → find_task id (transitions x cs db).tasks ≡ some t
    → t.state ≡ handed_off
    → let log = history id (transitions x cs db).events in
      (Passed 1 log × Passed 2 log × Passed 3 log × Passed 4 log) × Acknowledged x cs id db
handed_off-Passed x cs db id t audited fresh f h =
    let log = history id (transitions x cs db).events in
    let path = (transitions-IsAudited x cs db audited id t f).path in
    let at : (n : ℕ) → 0 < n → n ≤ 4 → Passed n log =
      λ n z l. IsPath-Passed t.state log n path z (rw h l) in
    (
      (
        at 1 (omega arith) (omega arith),
        at 2 (omega arith) (omega arith),
        at 3 (omega arith) (omega arith),
        at 4 (omega arith) (omega arith),
      ),
      transitions-Acknowledged x cs db id t fresh f h,
    )
