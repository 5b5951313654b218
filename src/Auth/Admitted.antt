-- ===== src/Auth/Admitted.antt =====
-- Whom the guard lets in (packages/auth-nest/src/auth.guard.ts), said without its order of checks.
use xitter.Prelude.{ℕ, ◌≡◌, true, false, Option, none, some, List}
use xitter.Auth.{
  AuthContext, RequestUser, Route, user_route, service_route, internal_route, Request, Options,
  issued_to, principal, is_admin_role, users, machines, admins, allows,
}

module _ (options : Options) where
  -- A token that makes a user of the service: the reason for which it is taken.
  pub data Credential (token : ℕ) : Route → RequestUser → Type 0 where
    human :
        (auth : AuthContext)
        → options.verify_user token ≡ some auth
        → issued_to (users options) auth ≡ true
        → Credential token user_route (principal auth false)
    machine :
        (auth : AuthContext)
        → options.verify_service token ≡ some auth
        → issued_to (machines options) auth ≡ true
        → Credential token service_route (principal auth true)
    named_machine :
        (clients : Option (List ℕ)) (auth : AuthContext)
        → options.verify_service token ≡ some auth
        → issued_to (machines options) auth ≡ true
        → allows options clients auth ≡ true
        → Credential token (internal_route false clients) (principal auth true)
    admin_machine :
        (clients : Option (List ℕ)) (auth : AuthContext)
        → options.verify_service token ≡ some auth
        → issued_to (machines options) auth ≡ true
        → is_admin_role auth.roles ≡ true
        → Credential token (internal_route true clients) (principal auth true)
    admin_human :
        (clients : Option (List ℕ)) (auth : AuthContext) (verify : ℕ → Option AuthContext)
        → options.verify_service token ≡ none
        → options.has_admin_issuer ≡ true
        → options.verify_admin ≡ some verify
        → verify token ≡ some auth
        → issued_to (admins options) auth ≡ true
        → is_admin_role auth.roles ≡ true
        → Credential token (internal_route true clients) (principal auth false)

  -- Whom a request is from, as far as the service believes it.
  pub data Admitted (request : Request) : Route → RequestUser → Type 0 where
    by_token :
        (route : Route) (token : ℕ) (user : RequestUser)
        → request.bearer_token ≡ some token
        → Credential token route user
        → Admitted request route user
    by_edge :
        (user : RequestUser)
        → request.bearer_token ≡ none
        → options.trust_edge_headers ≡ true
        → request.edge_identity ≡ some user
        → Admitted request user_route user
