-- ===== src/Authentication/Rows.antt =====
-- Predicates of all sessions, through the updates of their table.
use mathews.Common.{
  ℕ, arith, ◌≡◌, Bool, true, Option, none, some, List, [], ◌∷◌, inl, inr, Bool-cases, Option-cases,
  is_some, Text, ◌==◌,
}
use mathews.Common.Queries.{All, All-find, All-filter, find}
use mathews.Authentication.{AuthSession, Crypto}
use mathews.Authentication.Tokens.{is_token}
use mathews.Authentication.Sessions.{
  update_session, delete_session, delete_stale_sessions, revoked, revoke_row, revoke_token,
  has_digest,
}

pub has_digest-eq :
    (digest : ℕ) (r : AuthSession) → has_digest digest r ≡ true → r.token_digest ≡ digest
unfolding has_digest
has_digest-eq digest r h = ground arith

module _ (P : AuthSession → Type 0) where
  pub All-update_session :
      (k : AuthSession) (rs : List AuthSession) → P k → All P rs → All P (update_session k rs)
  unfolding update_session
  All-update_session k [] p h = tt
  All-update_session k (r ∷ rs) p (q, h) = elim (Bool-cases (r.id == k.id)) [
    | inl e ↦ rw e (p, All-update_session k rs p h)
    | inr e ↦ rw e (q, All-update_session k rs p h)
  ]

  pub All-delete_session :
      (id : ℕ) (rs : List AuthSession) → All P rs → All P (delete_session id rs)
  unfolding delete_session
  All-delete_session id rs h = All-filter P _ rs h

  pub All-delete_stale_sessions :
      (now : ℕ) (rs : List AuthSession) → All P rs → All P (delete_stale_sessions now rs)
  unfolding delete_stale_sessions
  All-delete_stale_sessions now rs h = All-filter P _ rs h

  pub All-revoke_row :
      (now : ℕ) (test : AuthSession → Bool) (rs : List AuthSession)
      → ((r : AuthSession) → P r → P (revoked now r))
      → All P rs
      → All P (revoke_row now (find test rs) rs)
  unfolding revoke_row
  All-revoke_row now test rs revoke h = elim (Option-cases (find test rs)) [
    | inl e ↦ rw e h
    | inr (r, e) ↦ elim (Bool-cases (is_some r.revoked_at)) [
      | inl t ↦ rw e (rw t h)
      | inr t ↦
          rw e (rw t (All-update_session (revoked now r) rs (revoke r (All-find P test rs h e)) h))
    ]
  ]

  pub All-revoke_token :
      (x : Crypto) (now : ℕ) (existing : Option Text) (rs : List AuthSession)
      → ((r : AuthSession) → P r → P (revoked now r))
      → All P rs
      → All P (revoke_token x now existing rs)
  unfolding revoke_token
  All-revoke_token x now none rs revoke h = h
  All-revoke_token x now (some token) rs revoke h = elim (Bool-cases (is_token token)) [
    | inl t ↦ rw t (All-revoke_row now (has_digest (x.token_digest token)) rs revoke h)
    | inr t ↦ rw t h
  ]
