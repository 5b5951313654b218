-- ===== src/Auth.antt =====
-- The guard of every request (packages/auth-nest/src/auth.guard.ts over packages/auth/src/admin.ts and
-- clients.ts). The texts that are only compared, of clients, roles and tokens, are numbers. What a
-- verifier makes of a token is a parameter, `none` where it throws; so is what is read of a request's
-- headers.
pub mod Admitted
mod Tests
use xitter.Prelude.{
  ℕ, ◌≡◌, Bool, true, false, not, ◌&&◌, ◌||◌, Option, none, some, List, [], ◌∷◌, ◌++◌, ◌==◌, any,
  if◌then◌else◌,
}
use xitter.Http.{Result, ok, err, unauthenticated, forbidden}

abbrev pub web : ℕ
web = 0

abbrev pub admin_panel : ℕ
admin_panel = 1

-- `SERVICE_CLIENTS`: social, posts, media, feed, search.
abbrev pub service_clients : List ℕ
service_clients = 2 ∷ 3 ∷ 4 ∷ 5 ∷ 6 ∷ []

-- The clients of the workers fanout, media-process and search-index, of the reset and of the admin.
abbrev pub worker_clients : List ℕ
worker_clients = 7 ∷ 8 ∷ 9 ∷ 10 ∷ 11 ∷ []

abbrev pub internal_clients : List ℕ
internal_clients = service_clients ++ worker_clients

abbrev pub includes : List ℕ → ℕ → Bool
includes xs x = any (λ y. y == x) xs

-- `system-admin` and `app-admin`
abbrev pub admin_roles : List ℕ
admin_roles = 0 ∷ 1 ∷ []

abbrev pub is_admin_role : List ℕ → Bool
is_admin_role roles = any (includes admin_roles) roles

-- What a verifier finds in a token; `azp` is the client that it was issued to.
pub record AuthContext : Type 0 where
  pub subject : ℕ
  pub username : ℕ
  pub roles : List ℕ
  pub azp : Option ℕ

pub record RequestUser : Type 0 where
  pub subject : ℕ
  pub username : ℕ
  pub roles : List ℕ
  pub service : Bool

-- The metadata of a handler: `@Public()`, none, or `@Internal(...)` with or without options.
pub data Route : Type 0 where
  public_route user_route service_route : Route
  internal_route : Bool → Option (List ℕ) → Route

pub record Request : Type 0 where
  -- the path is that of a health route
  pub is_probe : Bool
  pub bearer_token : Option ℕ
  -- what the edge's headers say
  pub edge_identity : Option RequestUser

pub record Options : Type 0 where
  pub user_clients : Option (List ℕ)
  pub service_clients : Option (List ℕ)
  pub admin_clients : Option (List ℕ)
  pub has_admin_issuer : Bool
  pub trust_edge_headers : Bool
  pub verify_user : ℕ → Option AuthContext
  pub verify_service : ℕ → Option AuthContext
  pub verify_admin : Option (ℕ → Option AuthContext)

abbrev pub or_default : Option (List ℕ) → List ℕ → List ℕ
or_default none xs = xs
or_default (some ys) xs = ys

-- The token was issued to one of the clients.
abbrev pub issued_to : List ℕ → AuthContext → Bool
issued_to clients auth = elim auth.azp [ none ↦ false | some azp ↦ includes clients azp ]

abbrev pub principal : AuthContext → Bool → RequestUser
principal auth service = record {
  subject = auth.subject;
  username = auth.username;
  roles = auth.roles;
  service = service;
}

module _ (options : Options) where
  abbrev pub users : List ℕ
  users = or_default options.user_clients (web ∷ [])

  abbrev pub machines : List ℕ
  machines = or_default options.service_clients internal_clients

  abbrev pub admins : List ℕ
  admins = or_default options.admin_clients (admin_panel ∷ [])

  unfoldable pub verify_user_token : ℕ → Result RequestUser
  verify_user_token token = elim (options.verify_user token) [
    | none ↦ err unauthenticated
    | some auth ↦ if issued_to users auth then ok (principal auth false) else err unauthenticated
  ]

  unfoldable pub verify_service_token : ℕ → Result AuthContext
  verify_service_token token = elim (options.verify_service token) [
    | none ↦ err unauthenticated
    | some auth ↦ if issued_to machines auth then ok auth else err unauthenticated
  ]

  unfoldable pub verify_service_route_token : ℕ → Result RequestUser
  verify_service_route_token token = elim (verify_service_token token) [
    | err e ↦ err e
    | ok auth ↦ ok (principal auth true)
  ]

  -- A token that the service's verifier takes is never tried as a human's.
  unfoldable pub verify_admin_token : ℕ → Result RequestUser
  verify_admin_token token = elim (options.verify_service token) [
    | some auth ↦
        if not (issued_to machines auth)
        then err unauthenticated
        else if not (is_admin_role auth.roles)
        then err forbidden
        else ok (principal auth true)
    | none ↦
        if not options.has_admin_issuer then err unauthenticated else elim options.verify_admin [
          | none ↦ err unauthenticated
          | some verify ↦ elim (verify token) [
            | none ↦ err unauthenticated
            | some auth ↦
                if not (issued_to admins auth)
                then err unauthenticated
                else if not (is_admin_role auth.roles)
                then err forbidden
                else ok (principal auth false)
          ]
        ]
  ]

  -- The route's own clients, if it names some.
  abbrev pub allows : Option (List ℕ) → AuthContext → Bool
  allows none auth = true
  allows (some clients) auth = issued_to clients auth

  unfoldable pub verify_internal_token : Bool → Option (List ℕ) → ℕ → Result RequestUser
  verify_internal_token true clients token = verify_admin_token token
  verify_internal_token false clients token = elim (verify_service_token token) [
    | err e ↦ err e
    | ok auth ↦ if allows clients auth then ok (principal auth true) else err unauthenticated
  ]

  unfoldable pub verify_token : Route → ℕ → Result RequestUser
  verify_token (internal_route admin clients) token = verify_internal_token admin clients token
  verify_token service_route token = verify_service_route_token token
  verify_token user_route token = verify_user_token token
  verify_token public_route token = err unauthenticated

  abbrev pub takes_edge : Route → Bool
  takes_edge user_route = options.trust_edge_headers
  takes_edge _ = false

  abbrev pub is_public : Route → Bool
  is_public public_route = true
  is_public _ = false

  -- `ok none` lets a request through without a user.
  unfoldable pub can_activate : Route → Request → Result (Option RequestUser)
  can_activate route request =
      if is_public route
      then ok none
      else if request.is_probe
      then ok none
      else elim request.bearer_token [
        | none ↦
            if takes_edge route
            then elim request.edge_identity [
              | none ↦ err unauthenticated
              | some user ↦ ok (some user)
            ]
            else err unauthenticated
        | some token ↦ elim (verify_token route token) [ err e ↦ err e | ok user ↦ ok (some user) ]
      ]
