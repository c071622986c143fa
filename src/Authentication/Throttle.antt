-- ===== src/Authentication/Throttle.antt =====
-- The bounds of the throttle of failed logins.
use mathlib.Core.Path.{subst}
use mathews.Common.{
  ℕ, ◌+◌, ◌*◌, ◌≤◌, arith, min, leb, ◌≡◌, refl, sym, Option, none, some, List, [], ◌∷◌, inl, inr,
  Bool-cases, is_some, Text,
}
use mathews.Common.Dict.{lookup}
use mathews.Common.Queries.{All}
use mathews.Authentication.{
  AuthenticationState, AuthSession, Accounts, AuthenticatedSession, Crypto, Generated, Lifetimes,
  local_user_id, second,
}
use mathews.Authentication.Tokens.{is_new_password, authentication_input_is_bounded}
use mathews.Authentication.Sessions.{
  throttle_max_seconds, throttle_max_failures, or_new, new_state, get_or_create_state, with_state,
  is_before, record_login_failure, clear_failures, password_matches, rehash, is_expired,
  issue_session,
}
use mathews.Authentication.Service.{
  bootstrap_status, generate_bootstrap_token, is_bootstrap_token, bootstrap_with, bootstrap,
  accept_login, login, authenticate_row, authenticate, reauthenticate_row, reauthenticate, logout,
  rotate_row, rotate_csrf, cleanup_stale_sessions,
}
use mathews.Authentication.Calls.{
  Request, request_status, request_token, request_bootstrap, request_login, request_authenticate,
  request_reauthenticate, request_logout, request_rotate, request_cleanup, Call, answer, run,
}

-- The block, if there is one, ends by a time.
abbrev pub BlockEndsBy : ℕ → Option ℕ → Type 0
BlockEndsBy end none = Unit
BlockEndsBy end (some until) = until ≤ end

-- Few failures, and a block that ends within five minutes of a time.
pub record IsThrottled (last : ℕ) (state : AuthenticationState) : Type 0 where
  pub few : state.failed_login_attempts ≤ throttle_max_failures
  pub short : BlockEndsBy (last + throttle_max_seconds * second) state.login_blocked_until

new_state-IsThrottled : (last : ℕ) → IsThrottled last new_state
new_state-IsThrottled last = record { few = omega arith; short = tt }

clear_failures-IsThrottled :
    (last : ℕ) (state : AuthenticationState) → IsThrottled last (clear_failures state)
unfolding clear_failures
clear_failures-IsThrottled last state = record { few = omega arith; short = tt }

record_login_failure-IsThrottled :
    (now last : ℕ) (state : AuthenticationState)
    → now ≤ last
    → IsThrottled last state
    → IsThrottled last (record_login_failure now state)
unfolding record_login_failure
record_login_failure-IsThrottled now last state early h =
    let failures = min (state.failed_login_attempts + 1) throttle_max_failures in
    elim (Bool-cases (leb 5 failures)) [
      | inl t ↦ rw t (record { few = omega arith; short = omega arith })
      | inr t ↦ rw t (record { few = omega arith; short = h.short })
    ]

rehash-state :
    (x : Crypto) (fresh : Generated) (id : ℕ) (password : Text) (o : Option ℕ) (a : Accounts)
    → (rehash x fresh id password o a).state ≡ a.state
rehash-state x fresh id password none a = refl
rehash-state x fresh id password (some h) a = ground arith

-- The tables keep to the throttle.
abbrev pub Throttled : ℕ → Accounts → Type 0
Throttled last a = IsThrottled last (get_or_create_state a)

module _ (x : Crypto) (l : Lifetimes) (now last : ℕ) (early : now ≤ last) (fresh : Generated) where
  generate_bootstrap_token-Throttled :
      (raw_token : Text) (a : Accounts)
      → Throttled last a
      → Throttled last (generate_bootstrap_token x raw_token a).0
  unfolding get_or_create_state generate_bootstrap_token
  generate_bootstrap_token-Throttled raw_token a h =
      elim (Bool-cases (is_some (lookup local_user_id a.users))) [
        | inl t ↦ rw t h
        | inr t ↦ rw t (record { few = h.few; short = h.short })
      ]

  bootstrap_with-Throttled :
      (token password : Text) (a : Accounts) (o : Option ℕ)
      → Throttled last a
      → Throttled last (bootstrap_with x l now fresh token password a (get_or_create_state a) o).0
  unfolding get_or_create_state bootstrap_with issue_session clear_failures
  bootstrap_with-Throttled token password a none h = h
  bootstrap_with-Throttled token password a (some digest) h =
      elim (Bool-cases (is_bootstrap_token x digest token)) [
        | inl t ↦ rw t (record { few = omega arith; short = tt })
        | inr t ↦ rw t h
      ]

  bootstrap-Throttled :
      (token password : Text) (a : Accounts)
      → Throttled last a
      → Throttled last (bootstrap x l now fresh token password a).0
  unfolding bootstrap
  bootstrap-Throttled token password a h = elim (Bool-cases (is_new_password password)) [
    | inr t ↦ rw t h
    | inl t ↦ elim (Bool-cases (is_some (lookup local_user_id a.users))) [
      | inl u ↦ rw t (rw u h)
      | inr u ↦ rw t (rw u (bootstrap_with-Throttled token password a _ h))
    ]
  ]

  rehashed-Throttled :
      (id : ℕ) (password : Text) (o : Option ℕ) (a : Accounts)
      → IsThrottled last (
          or_new
            (rehash x fresh id password o
              (with_state (clear_failures (get_or_create_state a)) a)).state)
  rehashed-Throttled id password o a =
      subst (λ s. IsThrottled last (or_new s))
        (sym (rehash-state x fresh id password o (with_state (clear_failures _) a)))
        (clear_failures-IsThrottled last _)

  login-Throttled :
      (password : Text) (existing : Option Text) (a : Accounts)
      → Throttled last a
      → Throttled last (login x l now fresh password existing a).0
  unfolding get_or_create_state login accept_login issue_session
  login-Throttled password existing a h =
      elim (Bool-cases (authentication_input_is_bounded password)) [
        | inr t ↦ rw t h
        | inl t ↦ elim (Bool-cases (is_before now (or_new a.state).login_blocked_until)) [
          | inl u ↦ rw t (rw u h)
          | inr u ↦ elim (Bool-cases (password_matches x password (lookup local_user_id a.users))) [
            | inr v ↦ rw t (rw u (rw v (record_login_failure-IsThrottled now last _ early h)))
            | inl v ↦ rw t (rw u (rw v (rehashed-Throttled local_user_id password _ a)))
          ]
        ]
      ]

  authenticate-Throttled :
      (token : Option Text) (a : Accounts)
      → Throttled last a
      → Throttled last (authenticate x l now token a).0
  unfolding get_or_create_state authenticate authenticate_row
  authenticate-Throttled none a h = h
  authenticate-Throttled (some token) a h =
      let same : a.state ≡ (authenticate x l now (some token) a).0.state = ground arith in
      subst (λ s. IsThrottled last (or_new s)) same h

  reauthenticate_row-Throttled :
      (password : Text) (a : Accounts) (o : Option AuthSession)
      → Throttled last a
      → Throttled last (reauthenticate_row x l now fresh password (get_or_create_state a) a o).0
  unfolding get_or_create_state reauthenticate_row issue_session
  reauthenticate_row-Throttled password a none h = h
  reauthenticate_row-Throttled password a (some r) h = elim (Bool-cases (is_some r.revoked_at)) [
    | inl t ↦ rw t h
    | inr t ↦ elim (Bool-cases (is_expired now r)) [
      | inl u ↦ rw t (rw u h)
      | inr u ↦ elim (Bool-cases (password_matches x password (lookup r.user_id a.users))) [
        | inr v ↦ rw t (rw u (rw v (record_login_failure-IsThrottled now last _ early h)))
        | inl v ↦ rw t (rw u (rw v (rehashed-Throttled r.user_id password _ a)))
      ]
    ]
  ]

  reauthenticate-Throttled :
      (authentication : AuthenticatedSession) (password : Text) (a : Accounts)
      → Throttled last a
      → Throttled last (reauthenticate x l now fresh authentication password a).0
  unfolding get_or_create_state reauthenticate
  reauthenticate-Throttled authentication password a h =
      elim (Bool-cases (authentication_input_is_bounded password)) [
        | inr t ↦ rw t h
        | inl t ↦ elim (Bool-cases (is_before now (or_new a.state).login_blocked_until)) [
          | inl u ↦ rw t (rw u h)
          | inr u ↦ rw t (rw u (reauthenticate_row-Throttled password a _ h))
        ]
      ]

  rotate_csrf-Throttled :
      (raw_token : Text) (authentication : AuthenticatedSession) (a : Accounts)
      → Throttled last a
      → Throttled last (rotate_csrf x now raw_token authentication a).0
  unfolding get_or_create_state rotate_csrf rotate_row
  rotate_csrf-Throttled raw_token authentication a h =
      let same : a.state ≡ (rotate_csrf x now raw_token authentication a).0.state = ground arith in
      subst (λ s. IsThrottled last (or_new s)) same h

  answer-Throttled :
      (request : Request) (a : Accounts)
      → Throttled last a
      → Throttled last (answer x l now fresh request a)
  unfolding get_or_create_state answer bootstrap_status logout cleanup_stale_sessions
  answer-Throttled request_status a h = h
  answer-Throttled (request_token raw_token) a h = generate_bootstrap_token-Throttled raw_token a h
  answer-Throttled (request_bootstrap token password) a h = bootstrap-Throttled token password a h
  answer-Throttled (request_login password existing) a h = login-Throttled password existing a h
  answer-Throttled (request_authenticate token) a h = authenticate-Throttled token a h
  answer-Throttled (request_reauthenticate authentication password) a h =
      reauthenticate-Throttled authentication password a h
  answer-Throttled (request_logout authentication) a h = h
  answer-Throttled (request_rotate raw_token authentication) a h =
      rotate_csrf-Throttled raw_token authentication a h
  answer-Throttled request_cleanup a h = h

-- Over any calls that are made by a time, at most 16 failures are counted, and a block ends within
-- five minutes of that time, where this was so before.
pub run-Throttled :
    (x : Crypto) (l : Lifetimes) (last : ℕ) (calls : List Call) (a : Accounts)
    → All (λ (c : Call). c.now ≤ last) calls
    → Throttled last a
    → Throttled last (run x l calls a)
unfolding run
run-Throttled x l last [] a early h = h
run-Throttled x l last (c ∷ cs) a (first, early) h =
    run-Throttled x l last cs (answer x l c.now c.fresh c.request a) early
      (answer-Throttled x l c.now last first c.fresh c.request a h)
