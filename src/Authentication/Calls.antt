-- ===== src/Authentication/Calls.antt =====
-- services/control-plane/src/mathews_control_plane/authentication.py: sequences of calls of
-- `AuthenticationService`.
use mathews.Common.{ℕ, Option, List, [], ◌∷◌, Text}
use mathews.Authentication.{Accounts, AuthenticatedSession, Crypto, Generated, Lifetimes}
use mathews.Authentication.Service.{
  bootstrap_status, generate_bootstrap_token, bootstrap, login, authenticate, reauthenticate,
  logout, rotate_csrf, cleanup_stale_sessions,
}

pub data Request : Type 0 where
  request_status : Request
  request_token : Text → Request
  request_bootstrap : Text → Text → Request
  request_login : Text → Option Text → Request
  request_authenticate : Option Text → Request
  request_reauthenticate : AuthenticatedSession → Text → Request
  request_logout : AuthenticatedSession → Request
  request_rotate : Text → AuthenticatedSession → Request
  request_cleanup : Request

-- A call: what is asked, when, and what the random generator gives.
pub record Call : Type 0 where
  pub now : ℕ
  pub fresh : Generated
  pub request : Request

module _ (x : Crypto) (l : Lifetimes) where
  unfoldable pub answer : ℕ → Generated → Request → Accounts → Accounts
  answer now fresh request_status a = (bootstrap_status a).0
  answer now fresh (request_token raw_token) a = (generate_bootstrap_token x raw_token a).0
  answer now fresh (request_bootstrap token password) a =
      (bootstrap x l now fresh token password a).0
  answer now fresh (request_login password existing) a = (login x l now fresh password existing a).0
  answer now fresh (request_authenticate token) a = (authenticate x l now token a).0
  answer now fresh (request_reauthenticate authentication password) a =
      (reauthenticate x l now fresh authentication password a).0
  answer now fresh (request_logout authentication) a = logout now authentication a
  answer now fresh (request_rotate raw_token authentication) a =
      (rotate_csrf x now raw_token authentication a).0
  answer now fresh request_cleanup a = cleanup_stale_sessions now a

  unfoldable pub run : List Call → Accounts → Accounts
  run [] a = a
  run (c ∷ cs) a = run cs (answer c.now c.fresh c.request a)
