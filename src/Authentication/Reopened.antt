-- ===== src/Authentication/Reopened.antt =====
-- When a block of logins starts and ends.
use mathews.Common.{
  ℕ, ◌+◌, ◌-◌, ◌*◌, ◌^◌, ◌≤◌, ◌<◌, arith, min, ◌≡◌, refl, true, false, Option, none, some, List, ok,
  err, Text,
}
use mathews.Common.Dict.{lookup}
use mathews.Common.Queries.{All}
use mathews.Authentication.{
  invalid_credentials, AuthenticationState, Accounts, AuthenticatedSession, Crypto, Generated,
  Lifetimes, local_user_id, second,
}
use mathews.Authentication.Tokens.{authentication_input_is_bounded}
use mathews.Authentication.Sessions.{
  throttle_start, throttle_max_seconds, throttle_max_failures, get_or_create_state, with_state,
  is_before, record_login_failure, password_matches, issued,
}
use mathews.Authentication.Service.{accept_login, login, reauthenticate}
use mathews.Authentication.Calls.{Call, run}
use mathews.Authentication.Throttle.{BlockEndsBy, Throttled, run-Throttled}

is_before-BlockEndsBy :
    (now end : ℕ) (o : Option ℕ) → BlockEndsBy end o → end ≤ now → is_before now o ≡ false
is_before-BlockEndsBy now end none h late = refl
is_before-BlockEndsBy now end (some until) h late = ground arith

-- Whatever calls were made by a time, and however many logins failed among them, the right password
-- logs in from five minutes after that time on, where the throttle was kept to before.
pub login_reopens :
    (x : Crypto) (l : Lifetimes) (last now : ℕ) (fresh : Generated) (password : Text)
    (existing : Option Text) (calls : List Call) (a : Accounts)
    → Throttled last a
    → All (λ (c : Call). c.now ≤ last) calls
    → last + throttle_max_seconds * second ≤ now
    → authentication_input_is_bounded password ≡ true
    → password_matches x password (lookup local_user_id (run x l calls a).users) ≡ true
    → (login x l now fresh password existing (run x l calls a)).1 ≡ ok (issued x l now fresh)
unfolding login accept_login
login_reopens x l last now fresh password existing calls a throttled early late bounded right =
    let kept = run-Throttled x l last calls a early throttled in
    let ended = is_before-BlockEndsBy now _ _ kept.short late in
    rw bounded (rw ended (rw right refl))

-- How long the block after a number of failures is.
abbrev pub block_seconds : ℕ → ℕ
block_seconds failures = min (2 ^ (failures - throttle_start + 1)) throttle_max_seconds

-- A login that fails on the password.
pub record Fails (x : Crypto) (now : ℕ) (password : Text) (a : Accounts) : Type 0 where
  pub bounded : authentication_input_is_bounded password ≡ true
  pub unblocked : is_before now (get_or_create_state a).login_blocked_until ≡ false
  pub wrong : password_matches x password (lookup local_user_id a.users) ≡ false

login-Fails :
    (x : Crypto) (l : Lifetimes) (now : ℕ) (fresh : Generated) (password : Text)
    (existing : Option Text) (a : Accounts)
    → Fails x now password a
    → login x l now fresh password existing a
      ≡ (with_state (record_login_failure now (get_or_create_state a)) a, err invalid_credentials)
unfolding login
login-Fails x l now fresh password existing a f = rw f.bounded (rw f.unblocked (rw f.wrong refl))

-- In a block, neither call looks at the password.
blocked_calls :
    (x : Crypto) (l : Lifetimes) (now : ℕ) (fresh : Generated) (password : Text)
    (existing : Option Text) (authentication : AuthenticatedSession) (state : AuthenticationState)
    (a : Accounts)
    → a.state ≡ some state
    → is_before now state.login_blocked_until ≡ true
    → (login x l now fresh password existing a ≡ (a, err invalid_credentials))
      × (reauthenticate x l now fresh authentication password a ≡ (a, err invalid_credentials))
unfolding login reauthenticate get_or_create_state
blocked_calls x l now fresh password existing authentication state a stored blocked =
    (ground arith, ground arith)

-- After the fifth failure in a row, and each one after it, `login` and `reauthenticate` are refused and
-- change nothing, whatever the password is, until min(2^(n - 4), 300) seconds have passed. Here n is
-- the number of failures with the last one, and at most 16.
pub failed_login_blocks :
    (x : Crypto) (l : Lifetimes) (now later n : ℕ) (fresh new : Generated) (wrong password : Text)
    (existing other : Option Text) (authentication : AuthenticatedSession) (a : Accounts)
    → Fails x now wrong a
    → n ≡ min ((get_or_create_state a).failed_login_attempts + 1) throttle_max_failures
    → throttle_start ≤ n
    → later < now + block_seconds n * second
    → let b = (login x l now fresh wrong existing a).0 in
      (login x l later new password other b ≡ (b, err invalid_credentials))
      × (reauthenticate x l later new authentication password b ≡ (b, err invalid_credentials))
unfolding record_login_failure
failed_login_blocks x l now later n fresh new wrong password existing other authentication a f count
      enough soon =
    let state = record_login_failure now (get_or_create_state a) in
    let blocked : is_before later state.login_blocked_until ≡ true = ground arith in
    let calls =
      blocked_calls x l later new password other authentication state (with_state state a) refl
        blocked in
    rw (login-Fails x l now fresh wrong existing a f) calls
