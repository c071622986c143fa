-- ===== src/TaskMachine/Gates.antt =====
-- What `_verified_draft_head` and `_readiness_head` accept, and the gates that an accepted
-- transition has passed.
use mathews.Errors.{TransitionError, draft_gate}
use mathews.GitObject.{normalized_git_sha}
use mathews.Common.{
  ◌≡◌, refl, ◌↔◌, Bool, true, ◌&&◌, Option, none, some, Text, Result, ok, ◌>>=◌, ◌>>◌, guard,
  >>=-eq-ok, arith, text_eq, text_eq→eq, text_eq_refl,
}
use mathews.TaskMachine.{
  DraftPrGateFacts, ReadinessGateFacts, TaskTransitionSnapshot, verified_draft_head,
  same_verified_head, readiness_head,
}

-- Every commit that the facts name is `head`, and every check of the draft gate holds.
pub record DraftGatePassed (facts : DraftPrGateFacts) (head : Text) : Type 0 where
  pub current : normalized_git_sha facts.current_head_sha ≡ ok head
  pub validated : normalized_git_sha facts.validation_commit_sha ≡ ok head
  pub local : normalized_git_sha facts.local_branch_sha ≡ ok head
  pub remote : normalized_git_sha facts.remote_branch_sha ≡ ok head
  pub pull_request : normalized_git_sha facts.pull_request_head_sha ≡ ok head
  pub passed : facts.validation_passed ≡ true
  pub artifacts : facts.required_artifacts_present ≡ true
  pub clean : facts.branch_clean ≡ true
  pub draft : facts.pull_request_is_draft ≡ true
  pub approved : facts.no_unresolved_approval ≡ true
  pub not_cancelled : facts.cancellation_clear ≡ true

-- The recorded head is there, and is the commit `head`.
abbrev pub IsRecorded : Option Text → Text → Type 0
IsRecorded recorded head =
    (verified : Text) × (recorded ≡ some verified) × (normalized_git_sha verified ≡ ok head)

-- The draft gate, and besides: the verified head of the task is the same commit, and the three
-- checks of readiness hold.
pub record ReadinessGatePassed (verified_pr_head_sha : Option Text) (facts : ReadinessGateFacts)
    (head : Text) : Type 0 where
  pub draft_gate : DraftGatePassed facts.draft_pr head
  pub recorded : IsRecorded verified_pr_head_sha head
  pub green : facts.required_ci_green ≡ true
  pub unblocked : facts.no_blocking_review ≡ true
  pub authorized : facts.repairs_authorized ≡ true

-- The comparisons of `_verified_draft_head`, over the outcomes of its normalisations.
abbrev correlate :
    Result TransitionError Text
    → Result TransitionError Text
    → Result TransitionError Text
    → Result TransitionError Text
    → Result TransitionError Text
    → Bool
    → Result TransitionError Text
correlate c v l r p checks = do
  current ← c
  validation ← v
  local ← l
  remote ← r
  pull_request ← p
  guard
      (text_eq validation current
        && text_eq local current
        && text_eq remote current
        && text_eq pull_request current)
      draft_gate
  guard checks draft_gate
  ok current

correlate_ok :
    (c v l r p : Result TransitionError Text) (checks : Bool) {head : Text}
    → correlate c v l r p checks ≡ ok head
    → (c ≡ ok head)
      × (v ≡ ok head)
      × (l ≡ ok head)
      × (r ≡ ok head)
      × (p ≡ ok head)
      × (checks ≡ true)
correlate_ok (ok c) (ok v) (ok l) (ok r) (ok p) checks h =
    ground (arith, text_eq→eq v c, text_eq→eq l c, text_eq→eq r c, text_eq→eq p c)
correlate_ok _ _ _ _ _ checks h = ground arith

-- The gate of the draft pull request accepts exactly the facts in which the five commits are one
-- object id and all six checks hold, and it returns that object id.
pub verified_draft_head_iff :
    (facts : DraftPrGateFacts) (head : Text)
    → (verified_draft_head facts ≡ ok head) ↔ DraftGatePassed facts head
unfolding verified_draft_head
verified_draft_head_iff facts head = (sound, λ p. ground (arith, text_eq_refl head))
  where
    sound : verified_draft_head facts ≡ ok head → DraftGatePassed facts head
    sound h =
        let e =
          correlate_ok (normalized_git_sha facts.current_head_sha)
            (normalized_git_sha facts.validation_commit_sha)
            (normalized_git_sha facts.local_branch_sha) (normalized_git_sha facts.remote_branch_sha)
            (normalized_git_sha facts.pull_request_head_sha)
            (facts.validation_passed && facts.required_artifacts_present && facts.branch_clean
              && facts.pull_request_is_draft && facts.no_unresolved_approval
              && facts.cancellation_clear)
            h in
        ground arith

same_verified_head-true :
    (recorded : Option Text) (head : Text)
    → same_verified_head recorded head ≡ ok true
    → IsRecorded recorded head
unfolding same_verified_head
same_verified_head-true none head h = cc
same_verified_head-true (some v) head h =
    let (w, e, t) = >>=-eq-ok (normalized_git_sha v) (λ verified. ok (text_eq verified head)) h in
    (v, refl, ground (arith, text_eq→eq w head))

IsRecorded-same_verified_head :
    (recorded : Option Text) (head : Text)
    → IsRecorded recorded head
    → same_verified_head recorded head ≡ ok true
unfolding same_verified_head
IsRecorded-same_verified_head none head (v, e, n) = cc
IsRecorded-same_verified_head (some w) head (v, e, n) = ground (arith, text_eq_refl head)

-- The readiness gate accepts exactly the facts in which the draft gate passes for one commit, that
-- commit is the recorded verified head of the task, and the three readiness checks hold; it returns
-- that commit.
pub readiness_head_iff :
    (snapshot : TaskTransitionSnapshot) (facts : ReadinessGateFacts) (head : Text)
    → (readiness_head snapshot facts ≡ ok head)
      ↔ ReadinessGatePassed snapshot.verified_pr_head_sha facts head
unfolding readiness_head
readiness_head_iff snapshot facts head = (
  λ h. ground (
    arith,
    (verified_draft_head_iff facts.draft_pr head).0,
    same_verified_head-true snapshot.verified_pr_head_sha head,
  ),
  λ p. ground (
    arith,
    (verified_draft_head_iff facts.draft_pr head).1 p.draft_gate,
    IsRecorded-same_verified_head snapshot.verified_pr_head_sha head p.recorded,
  ),
)
