-- ===== src/Tests/AuthenticationTests.antt =====
-- The user's accounts through a login, a logout and a block.
use mathews.Common.{
  ℕ, zero, suc, ◌+◌, ◌*◌, ◌≡◌, refl, true, false, none, some, [], ◌∷◌, length, ok, err, arith, ◌==◌,
  Text, text_eq,
}
use mathews.Common.Dict.{lookup, insert}
use mathews.Common.Queries.{find, filter}
use mathews.Authentication.{
  invalid_credentials, AuthSession, Accounts, AuthenticatedSession, IssuedSession, Crypto,
  Generated, Lifetimes, lifetimes, second,
}
use mathews.Authentication.Tokens.{
  is_token_character, is_token, utf8_length, is_new_password, authentication_input_is_bounded,
  verify_double_submit_csrf,
}
use mathews.Authentication.Sessions.{
  get_or_create_state, record_login_failure, clear_failures, is_session, has_digest, update_session,
  delete_session, is_expired, delete_stale_sessions, revoked, revoke_row, revoke_token,
  authentication_from_record, new_session, issued, issue_session,
}
use mathews.Authentication.Service.{
  bootstrap_status, generate_bootstrap_token, is_bootstrap_token, bootstrap_with, bootstrap,
  accept_login, login, seen, authenticate_row, authenticate, reauthenticate_row, reauthenticate,
  logout, verify_bound_csrf, csrf_cookie_is_bound, rotated, rotate_row, rotate_csrf,
  cleanup_stale_sessions,
}
use mathews.Authentication.Calls.{request_login, Call, answer, run}
use mathews.Authentication.Revoked.{logged_out_for_good}
use mathews.Authentication.Lifetime.{absolute_lifetime}
use mathews.Authentication.Issued.{login-authenticate}
use mathews.Authentication.Throttle.{Throttled, run-Throttled}
use mathews.Authentication.Reopened.{login_reopens, failed_login_blocks}

computes : ℕ
unfolding lookup insert find filter text_eq lifetimes is_token_character is_token utf8_length
    is_new_password authentication_input_is_bounded verify_double_submit_csrf get_or_create_state
    record_login_failure clear_failures is_session has_digest update_session delete_session
    is_expired delete_stale_sessions revoked revoke_row revoke_token authentication_from_record
    new_session issued issue_session bootstrap_status generate_bootstrap_token is_bootstrap_token
    bootstrap_with bootstrap accept_login login seen authenticate_row authenticate
    reauthenticate_row reauthenticate logout verify_bound_csrf csrf_cookie_is_bound rotated
    rotate_row rotate_csrf cleanup_stale_sessions answer run
computes = 0

-- A hash is the length of the password, and a digest the first character of a token.
abbrev first_character : Text → ℕ
first_character [] = 0
first_character (c ∷ cs) = c

abbrev crypto : Crypto
crypto = record {
  hash = λ salt password. length password;
  verify = λ h password. h == length password;
  check_needs_rehash = λ h. false;
  token_digest = first_character;
  invalid_token_digest = 0;
}

abbrev spans : Lifetimes
spans = record {
  idle_ttl = 1800 * second;
  absolute_ttl = 28800 * second;
  reauthentication_ttl = 300 * second;
}

-- `n` letters A.
abbrev letters : ℕ → Text
letters zero = []
letters (suc n) = 65 ∷ letters n

-- The 43 characters of a token.
abbrev token : ℕ → Text
token c = c ∷ letters 42

abbrev fresh : ℕ → Generated
fresh c = record {
  salt = 0;
  session_id = c + 500;
  session_token = token c;
  csrf_token = token (c + 1);
}

abbrev right : Text
right = letters 15

abbrev wrong : Text
wrong = letters 16

abbrev accounts : Accounts
accounts = record {
  state = some (record {
    bootstrap_token_digest = none;
    failed_login_attempts = 4;
    login_blocked_until = none;
  });
  users = (1, 15) ∷ [];
  sessions = [];
}

-- The user logs in with the token B, and the tables are then these.
abbrev row : AuthSession
row = record {
  id = 566;
  user_id = 1;
  token_digest = 66;
  csrf_token_digest = 67;
  last_seen_at = 10;
  expires_at = 1800000010;
  absolute_expires_at = 28800000010;
  reauthenticated_at = 10;
  revoked_at = none;
}

abbrev logged_in : Accounts
logged_in = record {
  state = some (record {
    bootstrap_token_digest = none;
    failed_login_attempts = 0;
    login_blocked_until = none;
  });
  users = (1, 15) ∷ [];
  sessions = row ∷ [];
}

abbrev answered : IssuedSession
answered = record {
  authentication = record {
    session_id = 566;
    user_id = 1;
    csrf_token_digest = 67;
    expires_at = 1800000010;
    absolute_expires_at = 28800000010;
    reauthenticated_until = 300000010;
    evaluated_at = 10;
    recent_password_verified = true;
  };
  session_token = token 66;
  csrf_token = token 67;
}

logs_in : login crypto spans 10 (fresh 66) right none accounts ≡ (logged_in, ok answered)
unfolding computes
logs_in = refl

-- Where the session of a CSRF rotation has expired, its row stays.
rotation_keeps_expired_row :
    rotate_csrf crypto 1800000010 (token 70) answered.authentication logged_in
    ≡ (logged_in, err invalid_credentials)
unfolding computes
rotation_keeps_expired_row = refl

abbrev relogin : Call
relogin = record { now = 30; fresh = fresh 80; request = request_login right (some (token 66)) }

abbrev failure : Call
failure = record { now = 20; fresh = fresh 90; request = request_login wrong none }

logged_out_for_good_example :
    (authenticate crypto spans 40
      (some (token 66))
      (run crypto spans (failure ∷ relogin ∷ []) (logout 20 answered.authentication logged_in))).1
    ≡ none
unfolding computes
logged_out_for_good_example =
    logged_out_for_good crypto spans 20 40 (token 66) answered.authentication row
      (failure ∷ relogin ∷ []) logged_in refl ((λ _. refl), tt)
      ((λ (e : 90 ≡ 66). ground arith), ((λ (e : 80 ≡ 66). ground arith), tt))

absolute_lifetime_example :
    (authenticate crypto spans 28800000030
      (some (token 80))
      (run crypto spans (relogin ∷ []) logged_in)).1
    ≡ none
unfolding computes
absolute_lifetime_example =
    absolute_lifetime crypto spans 30 28800000030 (token 80) (relogin ∷ []) logged_in
      ((λ (e : 66 ≡ 80). ground arith), tt) ((λ _. omega arith), tt) (omega arith)

login-authenticate_example :
    (s : AuthenticatedSession) × ((authenticate crypto spans 1800000009
        (some (token 66))
        logged_in).1
      ≡ some s)
    × (s.session_id ≡ 566)
    × (verify_bound_csrf crypto s (some (token 67)) (some (token 67)) ≡ true)
unfolding computes
login-authenticate_example =
    login-authenticate crypto spans 10 1800000009 (fresh 66) right none accounts logged_in answered
      logs_in refl refl (omega arith) (omega arith)

abbrev throttled : Throttled 20 accounts
unfolding computes
throttled = record { few = omega arith; short = tt }

run-Throttled_example : Throttled 20 (run crypto spans (failure ∷ []) accounts)
run-Throttled_example =
    run-Throttled crypto spans 20 (failure ∷ []) accounts (omega arith, tt) throttled

login_reopens_example :
    (login crypto spans 300000020
      (fresh 66)
      right
      none
      (run crypto spans (failure ∷ []) accounts)).1
    ≡ ok (issued crypto spans 300000020 (fresh 66))
unfolding computes
login_reopens_example =
    login_reopens crypto spans 20 300000020 (fresh 66) right none (failure ∷ []) accounts throttled
      (omega arith, tt) (omega arith) refl refl

failed_login_blocks_example :
    let b = (login crypto spans 20 (fresh 66) wrong none accounts).0 in
    (login crypto spans 2000019 (fresh 67) right none b ≡ (b, err invalid_credentials))
    × (reauthenticate crypto spans 2000019 (fresh 67) answered.authentication right b
        ≡ (b, err invalid_credentials))
unfolding computes
failed_login_blocks_example =
    failed_login_blocks crypto spans 20 2000019 5 (fresh 66) (fresh 67) wrong right none none
      answered.authentication accounts (record { bounded = refl; unblocked = refl; wrong = refl })
      refl (omega arith) (omega arith)
