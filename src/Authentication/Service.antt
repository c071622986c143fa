-- ===== src/Authentication/Service.antt =====
-- services/control-plane/src/mathews_control_plane/authentication.py: the calls of
-- `AuthenticationService`, and `generate_bootstrap_token`.
use mathews.Common.{
  ℕ, ◌+◌, min, Bool, false, not, ◌&&◌, ◌||◌, Option, none, some, is_some, ◌==◌, if◌then◌else◌, Text,
  Result, ok, err,
}
use mathews.Common.Dict.{lookup, insert}
use mathews.Common.Queries.{find}
use mathews.Authentication.{
  AuthenticationFailure, invalid_credentials, bootstrap_unavailable, bootstrap_already_completed,
  invalid_bootstrap_token, password_policy, AuthenticationState, AuthSession, Accounts,
  AuthenticatedSession, IssuedSession, Crypto, Generated, Lifetimes, local_user_id,
}
use mathews.Authentication.Tokens.{
  is_token, is_new_password, authentication_input_is_bounded, verify_double_submit_csrf,
}
use mathews.Authentication.Sessions.{
  get_or_create_state, with_state, is_before, record_login_failure, clear_failures,
  password_matches, rehash, is_session, has_digest, update_session, delete_session, is_expired,
  delete_stale_sessions, revoked, revoke_row, revoke_token, authentication_from_record, issued,
  issue_session,
}

-- The tables that a call commits, and its outcome.
abbrev pub Committed : Type 0 → Type 0
Committed A = Accounts × Result AuthenticationFailure A

abbrev pub refused : {A : Type 0} → Accounts → Committed A
refused a = (a, err invalid_credentials)

-- `bootstrap_status`: whether a bootstrap is required and available.
unfoldable pub bootstrap_status : Accounts → Accounts × (Bool × Bool)
bootstrap_status a =
    let state = get_or_create_state a in
    let user_exists = is_some (lookup local_user_id a.users) in
    (with_state state a, (not user_exists, not user_exists && is_some state.bootstrap_token_digest))

-- `generate_bootstrap_token`
unfoldable pub generate_bootstrap_token : Crypto → Text → Accounts → Committed Text
generate_bootstrap_token x raw_token a =
    if is_some (lookup local_user_id a.users) then (a, err bootstrap_already_completed) else (
      with_state
          (record (get_or_create_state a) {
            bootstrap_token_digest = some (x.token_digest raw_token);
          })
          a,
      ok raw_token,
    )

-- `hmac.compare_digest(expected_digest, presented_digest)`
unfoldable pub is_bootstrap_token : Crypto → ℕ → Text → Bool
is_bootstrap_token x expected_digest bootstrap_token =
    expected_digest
    == (if is_token bootstrap_token then x.token_digest bootstrap_token else x.invalid_token_digest)

-- With the state and the digest of its bootstrap token.
unfoldable pub bootstrap_with :
    Crypto
    → Lifetimes
    → ℕ
    → Generated
    → Text
    → Text
    → Accounts
    → AuthenticationState
    → Option ℕ
    → Committed IssuedSession
bootstrap_with x l now fresh bootstrap_token password a state none = (a, err bootstrap_unavailable)
bootstrap_with x l now fresh bootstrap_token password a state (some expected_digest) =
    if is_bootstrap_token x expected_digest bootstrap_token
    then (
      issue_session x l now fresh (record a {
        state = some (record (clear_failures state) { bootstrap_token_digest = none });
        users = insert local_user_id (x.hash fresh.salt password) a.users;
      }),
      ok (issued x l now fresh),
    )
    else (a, err invalid_bootstrap_token)

-- `bootstrap`
unfoldable pub bootstrap :
    Crypto → Lifetimes → ℕ → Generated → Text → Text → Accounts → Committed IssuedSession
bootstrap x l now fresh bootstrap_token password a =
    if not (is_new_password password)
    then (a, err password_policy)
    else if is_some (lookup local_user_id a.users)
    then (a, err bootstrap_already_completed)
    else bootstrap_with x l now fresh bootstrap_token password a (get_or_create_state a)
        (get_or_create_state a).bootstrap_token_digest

-- The last branch of `login`.
unfoldable pub accept_login :
    Crypto
    → Lifetimes
    → ℕ
    → Generated
    → Text
    → Option Text
    → AuthenticationState
    → Accounts
    → Committed IssuedSession
accept_login x l now fresh password existing state a =
    let b =
      rehash x fresh local_user_id password (lookup local_user_id a.users)
        (with_state (clear_failures state) a) in
    (
      issue_session x l now fresh (record b { sessions = revoke_token x now existing b.sessions }),
      ok (issued x l now fresh),
    )

-- `login`, with the token of the session that it replaces.
unfoldable pub login :
    Crypto → Lifetimes → ℕ → Generated → Text → Option Text → Accounts → Committed IssuedSession
login x l now fresh password existing a =
    let state = get_or_create_state a in
    if not (authentication_input_is_bounded password)
    then refused a
    else if is_before now state.login_blocked_until
    then refused (with_state state a)
    else if not (password_matches x password (lookup local_user_id a.users))
    then refused (with_state (record_login_failure now state) a)
    else accept_login x l now fresh password existing state a

-- A use of a session pushes its idle expiry on.
unfoldable pub seen : Lifetimes → ℕ → AuthSession → AuthSession
seen l now r = record r {
  last_seen_at = now;
  expires_at = min (now + l.idle_ttl) r.absolute_expires_at;
}

-- With the row of the token's digest.
unfoldable pub authenticate_row :
    Lifetimes → ℕ → Accounts → Option AuthSession → Accounts × Option AuthenticatedSession
authenticate_row l now a none = (a, none)
authenticate_row l now a (some r) =
    if is_some r.revoked_at
    then (a, none)
    else if is_expired now r
    then (record a { sessions = delete_session r.id a.sessions }, none)
    else (
      record a { sessions = update_session (seen l now r) a.sessions },
      some (authentication_from_record l now (seen l now r)),
    )

-- `authenticate`
unfoldable pub authenticate :
    Crypto → Lifetimes → ℕ → Option Text → Accounts → Accounts × Option AuthenticatedSession
authenticate x l now none a = (a, none)
authenticate x l now (some token) a =
    if is_token token
    then authenticate_row l now a (find (has_digest (x.token_digest token)) a.sessions)
    else (a, none)

-- With the row of the session.
unfoldable pub reauthenticate_row :
    Crypto
    → Lifetimes
    → ℕ
    → Generated
    → Text
    → AuthenticationState
    → Accounts
    → Option AuthSession
    → Committed IssuedSession
reauthenticate_row x l now fresh password state a none = refused (with_state state a)
reauthenticate_row x l now fresh password state a (some r) =
    let b =
      rehash x fresh r.user_id password (lookup r.user_id a.users)
        (with_state (clear_failures state) a) in
    if is_some r.revoked_at
    then refused (with_state state a)
    else if is_expired now r
    then refused (with_state state (record a { sessions = delete_session r.id a.sessions }))
    else if not (password_matches x password (lookup r.user_id a.users))
    then refused (with_state (record_login_failure now state) a)
    else (
      issue_session x l now fresh
          (record b { sessions = update_session (revoked now r) b.sessions }),
      ok (issued x l now fresh),
    )

-- `reauthenticate`
unfoldable pub reauthenticate :
    Crypto
    → Lifetimes
    → ℕ
    → Generated
    → AuthenticatedSession
    → Text
    → Accounts
    → Committed IssuedSession
reauthenticate x l now fresh authentication password a =
    let state = get_or_create_state a in
    if not (authentication_input_is_bounded password)
    then refused a
    else if is_before now state.login_blocked_until
    then refused (with_state state a)
    else reauthenticate_row x l now fresh password state a
        (find (is_session authentication.session_id) a.sessions)

-- `logout`
unfoldable pub logout : ℕ → AuthenticatedSession → Accounts → Accounts
logout now authentication a = record a {
  sessions = revoke_row now (find (is_session authentication.session_id) a.sessions) a.sessions;
}

-- `verify_bound_csrf`
unfoldable pub verify_bound_csrf : Crypto → AuthenticatedSession → Option Text → Option Text → Bool
verify_bound_csrf x authentication cookie_token none = false
verify_bound_csrf x authentication cookie_token (some header_token) =
    verify_double_submit_csrf cookie_token (some header_token)
    && authentication.csrf_token_digest == x.token_digest header_token

-- `csrf_cookie_is_bound`
unfoldable pub csrf_cookie_is_bound : Crypto → AuthenticatedSession → Option Text → Bool
csrf_cookie_is_bound x authentication none = false
csrf_cookie_is_bound x authentication (some cookie_token) =
    is_token cookie_token && authentication.csrf_token_digest == x.token_digest cookie_token

unfoldable pub rotated : Crypto → Text → AuthSession → AuthSession
rotated x raw_token r = record r { csrf_token_digest = x.token_digest raw_token }

-- The deletion of an expired session is rolled back by the exception after it.
unfoldable pub rotate_row : Crypto → ℕ → Text → Accounts → Option AuthSession → Committed Text
rotate_row x now raw_token a none = refused a
rotate_row x now raw_token a (some r) =
    if is_some r.revoked_at || is_expired now r
    then refused a
    else (record a { sessions = update_session (rotated x raw_token r) a.sessions }, ok raw_token)

-- `rotate_csrf`
unfoldable pub rotate_csrf : Crypto → ℕ → Text → AuthenticatedSession → Accounts → Committed Text
rotate_csrf x now raw_token authentication a =
    rotate_row x now raw_token a (find (is_session authentication.session_id) a.sessions)

-- `cleanup_stale_sessions`
unfoldable pub cleanup_stale_sessions : ℕ → Accounts → Accounts
cleanup_stale_sessions now a = record a { sessions = delete_stale_sessions now a.sessions }
