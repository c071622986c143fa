-- ===== src/Authentication/Issued.antt =====
-- A session that was just issued.
use mathews.Common.{
  ℕ, ◌+◌, ◌<◌, arith, sym, ap, ◌∙◌, ==_refl, ◌≡◌, refl, true, Option, none, some, List, ◌∷◌, Result,
  ok, inl, inr, Bool-cases, Text, text_eq_refl,
}
use mathlib.Core.Path.{subst}
use mathews.Common.Dict.{lookup}
use mathews.Common.Queries.{find}
use mathews.Authentication.{
  AuthenticationState, AuthenticationFailure, AuthSession, Accounts, AuthenticatedSession,
  IssuedSession, Crypto, Generated, Lifetimes, local_user_id,
}
use mathews.Authentication.Tokens.{
  is_token, authentication_input_is_bounded, verify_double_submit_csrf,
}
use mathews.Authentication.Sessions.{
  get_or_create_state, is_before, password_matches, has_digest, is_expired, new_session, issued,
  issue_session, authentication_from_record,
}
use mathews.Authentication.Service.{
  accept_login, login, seen, authenticate_row, authenticate, verify_bound_csrf,
}

-- Where `login` succeeds, it took its last branch.
login-accepted :
    (x : Crypto) (l : Lifetimes) (now : ℕ) (fresh : Generated) (password : Text)
    (existing : Option Text) (a b : Accounts) (i : IssuedSession)
    → login x l now fresh password existing a ≡ (b, ok i)
    → accept_login x l now fresh password existing (get_or_create_state a) a ≡ (b, ok i)
unfolding login
login-accepted x l now fresh password existing a b i h =
    elim (Bool-cases (authentication_input_is_bounded password)) [
      | inr t ↦ ground arith
      | inl t ↦ elim (Bool-cases (is_before now (get_or_create_state a).login_blocked_until)) [
        | inl u ↦ ground arith
        | inr u ↦ elim (Bool-cases (password_matches x password (lookup local_user_id a.users))) [
          | inr v ↦ ground arith
          | inl v ↦ ground arith
        ]
      ]
    ]

-- Its tables start with the new session's row.
accept_login-first :
    (x : Crypto) (l : Lifetimes) (now : ℕ) (fresh : Generated) (password : Text)
    (existing : Option Text) (state : AuthenticationState) (a : Accounts)
    → (rest : List AuthSession) × ((accept_login x l now fresh password existing state a).0.sessions
        ≡ new_session x l now fresh ∷ rest)
unfolding accept_login issue_session
accept_login-first x l now fresh password existing state a = (_, refl)

-- A token is accepted where the first row is its live session.
authenticate-first :
    (x : Crypto) (l : Lifetimes) (now : ℕ) (token : Text) (r : AuthSession)
    (rest : List AuthSession) (a : Accounts)
    → a.sessions ≡ r ∷ rest
    → is_token token ≡ true
    → r.token_digest ≡ x.token_digest token
    → r.revoked_at ≡ none
    → now < r.expires_at
    → now < r.absolute_expires_at
    → (authenticate x l now (some token) a).1
      ≡ some (authentication_from_record l now (seen l now r))
unfolding authenticate authenticate_row find has_digest is_expired
authenticate-first x l now token r rest a first canonical digest live idle absolute =
    let found : find (has_digest (x.token_digest token)) a.sessions ≡ some r =
      rw first (ground arith) in
    rw canonical (rw found (ground arith))

-- Where `login` succeeds, `authenticate` accepts the token that it issued, as long as neither
-- the idle nor the absolute lifetime has passed. It gives the issued session, to which the issued CSRF
-- token is bound. The two tokens have the form of tokens.
pub login-authenticate :
    (x : Crypto) (l : Lifetimes) (now later : ℕ) (fresh : Generated) (password : Text)
    (existing : Option Text) (a b : Accounts) (i : IssuedSession)
    → login x l now fresh password existing a ≡ (b, ok i)
    → is_token fresh.session_token ≡ true
    → is_token fresh.csrf_token ≡ true
    → later < now + l.idle_ttl
    → later < now + l.absolute_ttl
    → (s : AuthenticatedSession) × ((authenticate x l later (some i.session_token) b).1 ≡ some s)
      × (s.session_id ≡ i.authentication.session_id)
      × (verify_bound_csrf x s (some i.csrf_token) (some i.csrf_token) ≡ true)
unfolding new_session issued accept_login authentication_from_record seen verify_bound_csrf
    verify_double_submit_csrf
login-authenticate x l now later fresh password existing a b i h token csrf idle absolute =
    let accepted = login-accepted x l now fresh password existing a b i h in
    let (rest, first) =
      accept_login-first x l now fresh password existing (get_or_create_state a) a in
    let same : issued x l now fresh ≡ i = ground arith in
    let rows : b.sessions ≡ new_session x l now fresh ∷ rest =
      ap (λ (o : Accounts × Result AuthenticationFailure IssuedSession). o.0.sessions)
        (sym accepted)
      ∙ first in
    let r = new_session x l now fresh in
    subst
      (λ (i : IssuedSession).
        (s : AuthenticatedSession) × ((authenticate x l later (some i.session_token) b).1 ≡ some s)
        × (s.session_id ≡ i.authentication.session_id)
        × (verify_bound_csrf x s (some i.csrf_token) (some i.csrf_token) ≡ true))
      same
      (
        authentication_from_record l later (seen l later r),
        authenticate-first x l later fresh.session_token r rest b rows token refl refl (omega arith)
            absolute,
        refl,
        rw csrf (rw (text_eq_refl fresh.csrf_token) (==_refl (x.token_digest fresh.csrf_token))),
      )
