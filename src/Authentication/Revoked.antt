-- ===== src/Authentication/Revoked.antt =====
-- A session that is logged out stays so.
use mathews.Common.{
  ℕ, arith, ◌≡◌, ◌≢◌, refl, ap, ◌∙◌, true, none, some, List, [], ◌∷◌, inl, inr, Bool-cases,
  Option-cases, is_some, Text, ◌==◌,
}
use mathews.Common.Queries.{All, All-find, All-map, find, find-holds}
use mathews.Authentication.{AuthSession, Accounts, AuthenticatedSession, Crypto, Lifetimes}
use mathews.Authentication.Tokens.{is_token}
use mathews.Authentication.Sessions.{
  is_session, has_digest, update_session, revoked, revoke_row, new_session,
}
use mathews.Authentication.Service.{seen, authenticate_row, authenticate, logout, rotated}
use mathews.Authentication.Calls.{Call, run}
use mathews.Authentication.Rows.{has_digest-eq}
use mathews.Authentication.Kept.{IsClosed, run-AllSessions}

-- A row of the token, if it is one, is revoked.
abbrev IsRevoked : ℕ → AuthSession → Type 0
IsRevoked digest r = r.token_digest ≡ digest → is_some r.revoked_at ≡ true

IsRevoked-IsClosed :
    (x : Crypto) (l : Lifetimes) (digest : ℕ)
    → IsClosed x l (IsRevoked digest) (λ _ fresh. x.token_digest fresh.session_token ≢ digest)
unfolding seen revoked rotated new_session
IsRevoked-IsClosed x l digest = record {
  after_use = λ now r h e. h e;
  after_revocation = λ now r h e. refl;
  after_rotation = λ token r h e. h e;
  at_issue = λ now fresh fits e. absurd (fits e);
}

-- Where all rows of a token are revoked, it is not accepted.
authenticate-IsRevoked :
    (x : Crypto) (l : Lifetimes) (now : ℕ) (token : Text) (a : Accounts)
    → All (IsRevoked (x.token_digest token)) a.sessions
    → (authenticate x l now (some token) a).1 ≡ none
unfolding authenticate authenticate_row
authenticate-IsRevoked x l now token a h = elim (Bool-cases (is_token token)) [
  | inr t ↦ ground arith
  | inl t ↦ elim (Option-cases (find (has_digest (x.token_digest token)) a.sessions)) [
    | inl e ↦ ground arith
    | inr (r, e) ↦
        let gone =
          All-find (IsRevoked (x.token_digest token)) _ a.sessions h e
            (has_digest-eq _ r (find-holds _ a.sessions e)) in
        ground arith
  ]
]

update_session-IsRevoked :
    (now digest : ℕ) (r : AuthSession) (rs : List AuthSession)
    → All (λ (q : AuthSession). q.token_digest ≡ digest → q ≡ r) rs
    → All (IsRevoked digest) (update_session (revoked now r) rs)
unfolding update_session revoked
update_session-IsRevoked now digest r [] h = tt
update_session-IsRevoked now digest r (q ∷ rs) (only, h) = elim (Bool-cases (q.id == r.id)) [
  | inl t ↦ rw t ((λ _. refl), update_session-IsRevoked now digest r rs h)
  | inr t ↦ rw t (
    (λ e. let same : q.id ≡ r.id = ap (λ (k : AuthSession). k.id) (only e) in ground arith),
    update_session-IsRevoked now digest r rs h,
  )
]

logout-IsRevoked :
    (now digest : ℕ) (authentication : AuthenticatedSession) (r : AuthSession) (a : Accounts)
    → find (is_session authentication.session_id) a.sessions ≡ some r
    → All (λ (q : AuthSession). q.token_digest ≡ digest → q ≡ r) a.sessions
    → All (IsRevoked digest) (logout now authentication a).sessions
unfolding logout revoke_row
logout-IsRevoked now digest authentication r a found only =
    elim (Bool-cases (is_some r.revoked_at)) [
      | inl t ↦ rw found (
          rw t (
            All-map (λ (q : AuthSession). q.token_digest ≡ digest → q ≡ r) (IsRevoked digest)
              (λ q same e. ap (λ (k : AuthSession). is_some k.revoked_at) (same e) ∙ t) a.sessions
              only))
      | inr t ↦ rw found (rw t (update_session-IsRevoked now digest r a.sessions only))
    ]

-- Once `logout` has ended a session, the session's token, which no other row has and which the random
-- generator does not give again, is never accepted by `authenticate`, whatever calls follow and
-- whatever the clock shows.
pub logged_out_for_good :
    (x : Crypto) (l : Lifetimes) (now later : ℕ) (token : Text)
    (authentication : AuthenticatedSession) (r : AuthSession) (calls : List Call) (a : Accounts)
    → find (is_session authentication.session_id) a.sessions ≡ some r
    → All (λ (q : AuthSession). q.token_digest ≡ x.token_digest token → q ≡ r) a.sessions
    → All (λ (c : Call). x.token_digest c.fresh.session_token ≢ x.token_digest token) calls
    → (authenticate x l later (some token) (run x l calls (logout now authentication a))).1 ≡ none
logged_out_for_good x l now later token authentication r calls a found only fits =
    authenticate-IsRevoked x l later token _ (
      run-AllSessions x l (IsRevoked-IsClosed x l (x.token_digest token)) calls _ fits
        (logout-IsRevoked now (x.token_digest token) authentication r a found only))
