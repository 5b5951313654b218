-- ===== src/Auth/Tests.antt =====
-- The theorem of the guard at a concrete route.
use xitter.Prelude.{◌≡◌, refl, true, false, none, some, [], ◌∷◌, any}
use xitter.Http.{ok}
use xitter.Auth
use xitter.Auth.{Options, Request, RequestUser, AuthContext, internal_route, user_route, principal}
use xitter.Auth.Admitted.{Admitted}

abbrev machine : AuthContext
machine = record { subject = 20; username = 21; roles = 1 ∷ []; azp = some 11 }

abbrev options : Options
options = record {
  user_clients = none;
  service_clients = none;
  admin_clients = none;
  has_admin_issuer = true;
  trust_edge_headers = true;
  verify_user = λ token. none;
  verify_service = λ token. some machine;
  verify_admin = none;
}

abbrev request : Request
request = record { is_probe = false; bearer_token = some 1; edge_identity = none }

let_in :
    Auth.can_activate options (internal_route true none) request
    ≡ ok (some (principal machine true))
unfolding Auth.can_activate Auth.verify_token Auth.verify_internal_token Auth.verify_admin_token any
let_in = refl
