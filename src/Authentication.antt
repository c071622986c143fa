-- ===== src/Authentication.antt =====
-- services/control-plane/src/mathews_control_plane/authentication.py: the accounts of the control
-- plane's only user, his sessions, and the throttle of failed logins, with their tables in database.py.
--
-- A table is a list of rows. Ids, digests and password hashes are only compared, so they are numbers;
-- a password or token is a text. A time is a number of microseconds. Each call is one transaction, with
-- what the clock shows and what the random generator gives as arguments. A call that raises inside its
-- transaction leaves the tables as they were; one that raises after it, as `login` does, commits first.
pub mod Tokens
pub mod Sessions
pub mod Service
pub mod Calls
pub mod Rows
pub mod Kept
pub mod Revoked
pub mod Lifetime
pub mod Issued
pub mod Throttle
pub mod Reopened
use mathews.Common.{ℕ, ◌*◌, Bool, Option, List, Text, Result, ok, err, leb, ltb, guard, not, ◌>>◌}
use mathews.Common.Dict.{Dict}

-- `AuthenticationFailure` and its subclasses, and the `ValueError` of the constructor.
pub data AuthenticationFailure : Type 0 where
  invalid_credentials bootstrap_unavailable bootstrap_already_completed : AuthenticationFailure
  invalid_bootstrap_token password_policy lifetime_invalid : AuthenticationFailure

pub record AuthenticationState : Type 0 where
  pub bootstrap_token_digest : Option ℕ
  pub failed_login_attempts : ℕ
  pub login_blocked_until : Option ℕ

pub record AuthSession : Type 0 where
  pub id : ℕ
  pub user_id : ℕ
  pub token_digest : ℕ
  pub csrf_token_digest : ℕ
  pub last_seen_at : ℕ
  pub expires_at : ℕ
  pub absolute_expires_at : ℕ
  pub reauthenticated_at : ℕ
  pub revoked_at : Option ℕ

-- The tables. A user is a password hash under his id.
pub record Accounts : Type 0 where
  pub state : Option AuthenticationState
  pub users : Dict ℕ
  pub sessions : List AuthSession

pub record AuthenticatedSession : Type 0 where
  pub session_id : ℕ
  pub user_id : ℕ
  pub csrf_token_digest : ℕ
  pub expires_at : ℕ
  pub absolute_expires_at : ℕ
  pub reauthenticated_until : ℕ
  pub evaluated_at : ℕ
  pub recent_password_verified : Bool

pub record IssuedSession : Type 0 where
  pub authentication : AuthenticatedSession
  pub session_token : Text
  pub csrf_token : Text

-- `PasswordHasher` of argon2, with the salt of a hash as an argument, and SHA-256 of a token and of the
-- text that stands for a token which is not canonical.
pub record Crypto : Type 0 where
  pub hash : ℕ → Text → ℕ
  pub verify : ℕ → Text → Bool
  pub check_needs_rehash : ℕ → Bool
  pub token_digest : Text → ℕ
  pub invalid_token_digest : ℕ

-- What the random generator gives to a call.
pub record Generated : Type 0 where
  pub salt : ℕ
  pub session_id : ℕ
  pub session_token : Text
  pub csrf_token : Text

-- The lifetimes of a service.
pub record Lifetimes : Type 0 where
  pub idle_ttl : ℕ
  pub absolute_ttl : ℕ
  pub reauthentication_ttl : ℕ

-- The checks of the constructor. A lifetime below zero is not represented.
unfoldable pub lifetimes : ℕ → ℕ → ℕ → Result AuthenticationFailure Lifetimes
lifetimes idle absolute reauthentication = do
  guard (ltb 0 idle) lifetime_invalid
  guard (ltb 0 absolute) lifetime_invalid
  guard (leb idle absolute) lifetime_invalid
  guard (ltb 0 reauthentication) lifetime_invalid
  ok (record { idle_ttl = idle; absolute_ttl = absolute; reauthentication_ttl = reauthentication })

-- `_LOCAL_USER_ID`
abbrev pub local_user_id : ℕ
local_user_id = 1

-- A second in the unit of the model.
abbrev pub second : ℕ
second = 1000000
