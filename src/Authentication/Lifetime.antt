-- ===== src/Authentication/Lifetime.antt =====
-- The lifetime of a session.
use mathews.Common.{
  ℕ, ◌+◌, ◌≤◌, arith, ◌≡◌, ◌≢◌, none, some, List, inl, inr, Bool-cases, Option-cases, Text,
}
use mathews.Common.Queries.{All, All-find, All-map, find, find-holds}
use mathews.Authentication.{AuthSession, Accounts, Crypto, Lifetimes}
use mathews.Authentication.Tokens.{is_token}
use mathews.Authentication.Sessions.{has_digest, revoked, is_expired, new_session}
use mathews.Authentication.Service.{seen, authenticate_row, authenticate, rotated}
use mathews.Authentication.Calls.{Call, run}
use mathews.Authentication.Rows.{has_digest-eq}
use mathews.Authentication.Kept.{IsClosed, run-AllSessions}

-- A row of the token, if it is one, ends by a time.
abbrev EndsBy : ℕ → ℕ → AuthSession → Type 0
EndsBy digest end r = r.token_digest ≡ digest → r.absolute_expires_at ≤ end

EndsBy-IsClosed :
    (x : Crypto) (l : Lifetimes) (digest last : ℕ)
    → IsClosed x l
        (EndsBy digest (last + l.absolute_ttl))
        (λ now fresh. x.token_digest fresh.session_token ≡ digest → now ≤ last)
unfolding seen revoked rotated new_session
EndsBy-IsClosed x l digest last = record {
  after_use = λ now r h e. h e;
  after_revocation = λ now r h e. h e;
  after_rotation = λ token r h e. h e;
  at_issue = λ now fresh fits e. let early = fits e in omega arith;
}

authenticate-EndsBy :
    (x : Crypto) (l : Lifetimes) (now : ℕ) (token : Text) (a : Accounts)
    → All (EndsBy (x.token_digest token) now) a.sessions
    → (authenticate x l now (some token) a).1 ≡ none
unfolding authenticate authenticate_row is_expired
authenticate-EndsBy x l now token a h = elim (Bool-cases (is_token token)) [
  | inr t ↦ ground arith
  | inl t ↦ elim (Option-cases (find (has_digest (x.token_digest token)) a.sessions)) [
    | inl e ↦ ground arith
    | inr (r, e) ↦
        let ended =
          All-find (EndsBy (x.token_digest token) now) _ a.sessions h e
            (has_digest-eq _ r (find-holds _ a.sessions e)) in
        ground arith
  ]
]

-- A token that was not in use, and with which sessions are issued at one time at most or before it, is
-- not accepted by `authenticate` from that time and the absolute lifetime on, whatever calls were
-- made in between, and however often the session was used.
pub absolute_lifetime :
    (x : Crypto) (l : Lifetimes) (last now : ℕ) (token : Text) (calls : List Call) (a : Accounts)
    → All (λ (r : AuthSession). r.token_digest ≢ x.token_digest token) a.sessions
    → All
        (λ (c : Call). x.token_digest c.fresh.session_token ≡ x.token_digest token → c.now ≤ last)
        calls
    → last + l.absolute_ttl ≤ now
    → (authenticate x l now (some token) (run x l calls a)).1 ≡ none
absolute_lifetime x l last now token calls a unused fits late =
    authenticate-EndsBy x l now token _ (
      All-map (EndsBy (x.token_digest token) (last + l.absolute_ttl))
        (EndsBy (x.token_digest token) now) (λ r h e. let early = h e in omega arith)
        (run x l calls a).sessions
        (run-AllSessions x l (EndsBy-IsClosed x l (x.token_digest token) last) calls a fits (
          All-map (λ (r : AuthSession). r.token_digest ≢ x.token_digest token)
            (EndsBy (x.token_digest token) (last + l.absolute_ttl)) (λ r h e. absurd (h e))
            a.sessions unused)))
