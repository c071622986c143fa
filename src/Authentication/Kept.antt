-- ===== src/Authentication/Kept.antt =====
-- What every call keeps of the sessions.
use mathews.Common.{
  ℕ, arith, ◌≡◌, refl, sym, Bool, Option, none, some, List, [], ◌∷◌, inl, inr, Bool-cases,
  Option-cases, is_some, Text, ◌||◌,
}
use mathlib.Core.Path.{subst}
use mathews.Common.Dict.{lookup}
use mathews.Common.Queries.{All, All-find, find}
use mathews.Authentication.{
  AuthenticationState, AuthSession, Accounts, AuthenticatedSession, Crypto, Generated, Lifetimes,
  local_user_id,
}
use mathews.Authentication.Tokens.{is_token, is_new_password, authentication_input_is_bounded}
use mathews.Authentication.Sessions.{
  get_or_create_state, with_state, is_before, clear_failures, password_matches, rehash, is_session,
  has_digest, is_expired, revoked, new_session, issue_session,
}
use mathews.Authentication.Service.{
  bootstrap_status, generate_bootstrap_token, is_bootstrap_token, bootstrap_with, bootstrap,
  accept_login, login, seen, authenticate_row, authenticate, reauthenticate_row, reauthenticate,
  logout, rotated, rotate_row, rotate_csrf, cleanup_stale_sessions,
}
use mathews.Authentication.Calls.{
  Request, request_status, request_token, request_bootstrap, request_login, request_authenticate,
  request_reauthenticate, request_logout, request_rotate, request_cleanup, Call, answer, run,
}
use mathews.Authentication.Rows.{
  All-update_session, All-delete_session, All-delete_stale_sessions, All-revoke_row,
  All-revoke_token,
}

-- A predicate of sessions that every change of a row keeps, and that a new row has where what the
-- call's clock shows and the random generator gives fits.
pub record IsClosed (x : Crypto) (l : Lifetimes) (P : AuthSession → Type 0)
    (Fits : ℕ → Generated → Type 0) : Type 0 where
  pub after_use : (now : ℕ) (r : AuthSession) → P r → P (seen l now r)
  pub after_revocation : (now : ℕ) (r : AuthSession) → P r → P (revoked now r)
  pub after_rotation : (token : Text) (r : AuthSession) → P r → P (rotated x token r)
  pub at_issue : (now : ℕ) (fresh : Generated) → Fits now fresh → P (new_session x l now fresh)

rehash-sessions :
    (x : Crypto) (fresh : Generated) (id : ℕ) (password : Text) (o : Option ℕ) (a : Accounts)
    → (rehash x fresh id password o a).sessions ≡ a.sessions
rehash-sessions x fresh id password none a = refl
rehash-sessions x fresh id password (some h) a = ground arith

generate_bootstrap_token-sessions :
    (x : Crypto) (raw_token : Text) (a : Accounts)
    → (generate_bootstrap_token x raw_token a).0.sessions ≡ a.sessions
unfolding generate_bootstrap_token
generate_bootstrap_token-sessions x raw_token a = ground arith

module _ (x : Crypto) (l : Lifetimes) {P : AuthSession → Type 0} {Fits : ℕ → Generated → Type 0}
    (closed : IsClosed x l P Fits) (now : ℕ) (fresh : Generated) where
  issue_session-All :
      (a : Accounts)
      → Fits now fresh
      → All P a.sessions
      → All P (issue_session x l now fresh a).sessions
  unfolding issue_session
  issue_session-All a fits h =
      (closed.at_issue now fresh fits, All-delete_stale_sessions P now a.sessions h)

  bootstrap_with-All :
      (token password : Text) (a : Accounts) (state : AuthenticationState) (o : Option ℕ)
      → Fits now fresh
      → All P a.sessions
      → All P (bootstrap_with x l now fresh token password a state o).0.sessions
  unfolding bootstrap_with
  bootstrap_with-All token password a state none fits h = h
  bootstrap_with-All token password a state (some digest) fits h =
      elim (Bool-cases (is_bootstrap_token x digest token)) [
        | inl t ↦ rw t (issue_session-All _ fits h)
        | inr t ↦ rw t h
      ]

  bootstrap-All :
      (token password : Text) (a : Accounts)
      → Fits now fresh
      → All P a.sessions
      → All P (bootstrap x l now fresh token password a).0.sessions
  unfolding bootstrap
  bootstrap-All token password a fits h = elim (Bool-cases (is_new_password password)) [
    | inr t ↦ rw t h
    | inl t ↦ elim (Bool-cases (is_some (lookup local_user_id a.users))) [
      | inl u ↦ rw t (rw u h)
      | inr u ↦ rw t (rw u (bootstrap_with-All token password a _ _ fits h))
    ]
  ]

  accept_login-All :
      (password : Text) (existing : Option Text) (state : AuthenticationState) (a : Accounts)
      → Fits now fresh
      → All P a.sessions
      → All P (accept_login x l now fresh password existing state a).0.sessions
  unfolding accept_login
  accept_login-All password existing state a fits h = issue_session-All _ fits (
      All-revoke_token P x now existing _ (closed.after_revocation now) (
        subst (All P)
          (sym (
            rehash-sessions x fresh local_user_id password (lookup local_user_id a.users)
              (with_state (clear_failures state) a)))
          h))

  login-All :
      (password : Text) (existing : Option Text) (a : Accounts)
      → Fits now fresh
      → All P a.sessions
      → All P (login x l now fresh password existing a).0.sessions
  unfolding login
  login-All password existing a fits h =
      elim (Bool-cases (authentication_input_is_bounded password)) [
        | inr t ↦ rw t h
        | inl t ↦ elim (Bool-cases (is_before now (get_or_create_state a).login_blocked_until)) [
          | inl u ↦ rw t (rw u h)
          | inr u ↦ elim (Bool-cases (password_matches x password (lookup local_user_id a.users))) [
            | inr v ↦ rw t (rw u (rw v h))
            | inl v ↦ rw t (rw u (rw v (accept_login-All password existing _ a fits h)))
          ]
        ]
      ]

  authenticate_row-All :
      (test : AuthSession → Bool) (a : Accounts)
      → All P a.sessions
      → All P (authenticate_row l now a (find test a.sessions)).0.sessions
  unfolding authenticate_row
  authenticate_row-All test a h = elim (Option-cases (find test a.sessions)) [
    | inl e ↦ rw e h
    | inr (r, e) ↦ elim (Bool-cases (is_some r.revoked_at)) [
      | inl t ↦ rw e (rw t h)
      | inr t ↦ elim (Bool-cases (is_expired now r)) [
        | inl u ↦ rw e (rw t (rw u (All-delete_session P r.id a.sessions h)))
        | inr u ↦ rw e (
            rw t (
              rw u (
                All-update_session P (seen l now r) a.sessions
                  (closed.after_use now r (All-find P test a.sessions h e)) h)))
      ]
    ]
  ]

  authenticate-All :
      (token : Option Text) (a : Accounts)
      → All P a.sessions
      → All P (authenticate x l now token a).0.sessions
  unfolding authenticate
  authenticate-All none a h = h
  authenticate-All (some token) a h = elim (Bool-cases (is_token token)) [
    | inl t ↦ rw t (authenticate_row-All (has_digest (x.token_digest token)) a h)
    | inr t ↦ rw t h
  ]

  reauthenticate_row-All :
      (password : Text) (state : AuthenticationState) (test : AuthSession → Bool) (a : Accounts)
      → Fits now fresh
      → All P a.sessions
      → All P (reauthenticate_row x l now fresh password state a (find test a.sessions)).0.sessions
  unfolding reauthenticate_row
  reauthenticate_row-All password state test a fits h = elim (Option-cases (find test a.sessions)) [
    | inl e ↦ rw e h
    | inr (r, e) ↦ elim (Bool-cases (is_some r.revoked_at)) [
      | inl t ↦ rw e (rw t h)
      | inr t ↦ elim (Bool-cases (is_expired now r)) [
        | inl u ↦ rw e (rw t (rw u (All-delete_session P r.id a.sessions h)))
        | inr u ↦ elim (Bool-cases (password_matches x password (lookup r.user_id a.users))) [
          | inr v ↦ rw e (rw t (rw u (rw v h)))
          | inl v ↦
              let same =
                rehash-sessions x fresh r.user_id password (lookup r.user_id a.users)
                  (with_state (clear_failures state) a) in
              rw e (
                rw t (
                  rw u (
                    rw v (
                      issue_session-All _ fits (
                        All-update_session P (revoked now r) _
                          (closed.after_revocation now r (All-find P test a.sessions h e))
                          (subst (All P) (sym same) h))))))
        ]
      ]
    ]
  ]

  reauthenticate-All :
      (authentication : AuthenticatedSession) (password : Text) (a : Accounts)
      → Fits now fresh
      → All P a.sessions
      → All P (reauthenticate x l now fresh authentication password a).0.sessions
  unfolding reauthenticate
  reauthenticate-All authentication password a fits h =
      elim (Bool-cases (authentication_input_is_bounded password)) [
        | inr t ↦ rw t h
        | inl t ↦ elim (Bool-cases (is_before now (get_or_create_state a).login_blocked_until)) [
          | inl u ↦ rw t (rw u h)
          | inr u ↦ rw t (
              rw u
                (reauthenticate_row-All password _ (is_session authentication.session_id) a fits h))
        ]
      ]

  rotate_csrf-All :
      (raw_token : Text) (authentication : AuthenticatedSession) (a : Accounts)
      → All P a.sessions
      → All P (rotate_csrf x now raw_token authentication a).0.sessions
  unfolding rotate_csrf rotate_row
  rotate_csrf-All raw_token authentication a h =
      elim (Option-cases (find (is_session authentication.session_id) a.sessions)) [
        | inl e ↦ rw e h
        | inr (r, e) ↦ elim (Bool-cases (is_some r.revoked_at || is_expired now r)) [
          | inl t ↦ rw e (rw t h)
          | inr t ↦ rw e (
              rw t (
                All-update_session P (rotated x raw_token r) a.sessions
                  (closed.after_rotation raw_token r (All-find P _ a.sessions h e)) h))
        ]
      ]

  answer-All :
      (request : Request) (a : Accounts)
      → Fits now fresh
      → All P a.sessions
      → All P (answer x l now fresh request a).sessions
  unfolding answer bootstrap_status logout cleanup_stale_sessions
  answer-All request_status a fits h = h
  answer-All (request_token raw_token) a fits h =
      subst (All P) (sym (generate_bootstrap_token-sessions x raw_token a)) h
  answer-All (request_bootstrap token password) a fits h = bootstrap-All token password a fits h
  answer-All (request_login password existing) a fits h = login-All password existing a fits h
  answer-All (request_authenticate token) a fits h = authenticate-All token a h
  answer-All (request_reauthenticate authentication password) a fits h =
      reauthenticate-All authentication password a fits h
  answer-All (request_logout authentication) a fits h =
      All-revoke_row P now _ a.sessions (closed.after_revocation now) h
  answer-All (request_rotate raw_token authentication) a fits h =
      rotate_csrf-All raw_token authentication a h
  answer-All request_cleanup a fits h = All-delete_stale_sessions P now a.sessions h

-- Over any calls with what fits.
pub run-AllSessions :
    (x : Crypto) (l : Lifetimes) {P : AuthSession → Type 0} {Fits : ℕ → Generated → Type 0}
    → IsClosed x l P Fits
    → (calls : List Call) (a : Accounts) → All (λ (c : Call). Fits c.now c.fresh) calls
    → All P a.sessions
    → All P (run x l calls a).sessions
unfolding run
run-AllSessions x l closed [] a fits h = h
run-AllSessions x l closed (c ∷ cs) a (fit, fits) h =
    run-AllSessions x l closed cs (answer x l c.now c.fresh c.request a) fits
      (answer-All x l closed c.now c.fresh c.request a fit h)
