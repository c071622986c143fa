-- ===== src/Authentication/Sessions.antt =====
-- services/control-plane/src/mathews_control_plane/authentication.py: the parts that the calls of
-- `AuthenticationService` share.
use mathews.Common.{
  ℕ, ◌+◌, ◌-◌, ◌*◌, ◌^◌, min, Bool, false, not, ◌&&◌, ◌||◌, Option, none, some, List, [], ◌∷◌,
  is_some, leb, ltb, ◌==◌, if◌then◌else◌, Text,
}
use mathews.Common.Dict.{insert}
use mathews.Common.Queries.{find, filter}
use mathews.Authentication.{
  AuthenticationState, AuthSession, Accounts, AuthenticatedSession, IssuedSession, Crypto,
  Generated, Lifetimes, local_user_id, second,
}
use mathews.Authentication.Tokens.{token_is_canonical}

-- `_LOGIN_THROTTLE_START`, `_LOGIN_THROTTLE_MAX_SECONDS` and `_LOGIN_THROTTLE_MAX_FAILURES`
abbrev pub throttle_start : ℕ
throttle_start = 5

abbrev pub throttle_max_seconds : ℕ
throttle_max_seconds = 300

abbrev pub throttle_max_failures : ℕ
throttle_max_failures = 16

-- A state as it is added to its table.
abbrev pub new_state : AuthenticationState
new_state = record {
  bootstrap_token_digest = none;
  failed_login_attempts = 0;
  login_blocked_until = none;
}

abbrev pub or_new : Option AuthenticationState → AuthenticationState
or_new none = new_state
or_new (some state) = state

-- `_get_or_create_authentication_state`, without a second process that creates it too.
unfoldable pub get_or_create_state : Accounts → AuthenticationState
get_or_create_state a = or_new a.state

abbrev pub with_state : AuthenticationState → Accounts → Accounts
with_state state a = record a { state = some state }

-- `now < blocked_until`
abbrev pub is_before : ℕ → Option ℕ → Bool
is_before now none = false
is_before now (some until) = ltb now until

-- `_record_login_failure`
unfoldable pub record_login_failure : ℕ → AuthenticationState → AuthenticationState
record_login_failure now state =
    let failures = min (state.failed_login_attempts + 1) throttle_max_failures in
    if leb throttle_start failures
    then record state {
      failed_login_attempts = failures;
      login_blocked_until =
          some (now + min (2 ^ (failures - throttle_start + 1)) throttle_max_seconds * second);
    }
    else record state { failed_login_attempts = failures }

-- What a right password does to the state.
unfoldable pub clear_failures : AuthenticationState → AuthenticationState
clear_failures state = record state { failed_login_attempts = 0; login_blocked_until = none }

-- `_password_matches(password_hash, password) and user is not None`
abbrev pub password_matches : Crypto → Text → Option ℕ → Bool
password_matches x password none = false
password_matches x password (some password_hash) = x.verify password_hash password

abbrev pub rehash : Crypto → Generated → ℕ → Text → Option ℕ → Accounts → Accounts
rehash x fresh user_id password none a = a
rehash x fresh user_id password (some password_hash) a =
    if x.check_needs_rehash password_hash
    then record a { users = insert user_id (x.hash fresh.salt password) a.users }
    else a

unfoldable pub is_session : ℕ → AuthSession → Bool
is_session id r = r.id == id

unfoldable pub has_digest : ℕ → AuthSession → Bool
has_digest digest r = r.token_digest == digest

unfoldable pub update_session : AuthSession → List AuthSession → List AuthSession
update_session k [] = []
update_session k (r ∷ rs) =
    let rest = update_session k rs in if r.id == k.id then k ∷ rest else r ∷ rest

unfoldable pub delete_session : ℕ → List AuthSession → List AuthSession
delete_session id rs = filter (λ r. not (is_session id r)) rs

-- `now >= record.expires_at or now >= record.absolute_expires_at`
unfoldable pub is_expired : ℕ → AuthSession → Bool
is_expired now r = leb r.expires_at now || leb r.absolute_expires_at now

-- `_delete_stale_sessions`
unfoldable pub delete_stale_sessions : ℕ → List AuthSession → List AuthSession
delete_stale_sessions now rs = filter (λ r. not (is_some r.revoked_at || is_expired now r)) rs

unfoldable pub revoked : ℕ → AuthSession → AuthSession
revoked now r = record r { revoked_at = some now }

-- `if existing is not None and existing.revoked_at is None`
unfoldable pub revoke_row : ℕ → Option AuthSession → List AuthSession → List AuthSession
revoke_row now none rs = rs
revoke_row now (some r) rs = if is_some r.revoked_at then rs else update_session (revoked now r) rs

-- `_revoke_token`
unfoldable pub revoke_token : Crypto → ℕ → Option Text → List AuthSession → List AuthSession
revoke_token x now none rs = rs
revoke_token x now (some token) rs =
    if token_is_canonical (some token)
    then revoke_row now (find (has_digest (x.token_digest token)) rs) rs
    else rs

-- `_authentication_from_record`
unfoldable pub authentication_from_record : Lifetimes → ℕ → AuthSession → AuthenticatedSession
authentication_from_record l now r = record {
  session_id = r.id;
  user_id = r.user_id;
  csrf_token_digest = r.csrf_token_digest;
  expires_at = r.expires_at;
  absolute_expires_at = r.absolute_expires_at;
  reauthenticated_until =
      if ltb now r.reauthenticated_at then now else r.reauthenticated_at + l.reauthentication_ttl;
  evaluated_at = now;
  recent_password_verified =
      leb r.reauthenticated_at now && ltb now (r.reauthenticated_at + l.reauthentication_ttl);
}

-- The row that `_issue_session` adds.
unfoldable pub new_session : Crypto → Lifetimes → ℕ → Generated → AuthSession
new_session x l now fresh = record {
  id = fresh.session_id;
  user_id = local_user_id;
  token_digest = x.token_digest fresh.session_token;
  csrf_token_digest = x.token_digest fresh.csrf_token;
  last_seen_at = now;
  expires_at = min (now + l.idle_ttl) (now + l.absolute_ttl);
  absolute_expires_at = now + l.absolute_ttl;
  reauthenticated_at = now;
  revoked_at = none;
}

unfoldable pub issued : Crypto → Lifetimes → ℕ → Generated → IssuedSession
issued x l now fresh = record {
  authentication = authentication_from_record l now (new_session x l now fresh);
  session_token = fresh.session_token;
  csrf_token = fresh.csrf_token;
}

-- The tables after `_issue_session`.
unfoldable pub issue_session : Crypto → Lifetimes → ℕ → Generated → Accounts → Accounts
issue_session x l now fresh a = record a {
  sessions = new_session x l now fresh ∷ delete_stale_sessions now a.sessions;
}
