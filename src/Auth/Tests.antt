-- ===== src/Auth/Tests.antt =====
-- Requests for src/auth and the routes of src/api/routes.rs at concrete inputs.
use tei_manager.Base.{
  ◌≡◌, ◌+◌, ℕ, inl, inr, refl, String, str_eq, Bool, true, false, ◌&&◌, if◌then◌else◌, Bool-cases,
  Listed, Option, none, some, List, [], ◌∷◌, Result, ok, err, arith,
}
use tei_manager.Config.{MtlsConfig, FilePath}
use tei_manager.Auth.{
  AuthError, AuthManager, AuthResult, AuthRequest, Der, TlsInfo, HeaderMap, authenticate, supports,
  judge, try_providers, Protocol,
}
use tei_manager.Auth.Mtls.{
  X509Parser, X509Certificate, X509Name, Moment, before_epoch, at, MtlsProvider, mtls_provider,
  auth_metadata, nats_eq,
}
use tei_manager.Auth.Mtls
use tei_manager.Auth.Mtls.Accepts.{authenticate_iff}
use tei_manager.Auth.Service
use tei_manager.Auth.Service.{Decoder, auth_middleware_with_options, extract_tls_info_from_headers}
use tei_manager.Auth.Service.Bypass.{middleware_iff}
use tei_manager.Api.Routes.{
  Handler, Method, Route, Layer, Request, refused, create_router, protected_routes, public_routes,
  passes, run_route, serve,
}
use tei_manager.Api.Routes.Guarded.{PresentsTrusted, serve-PresentsTrusted}

abbrev file : String → FilePath
file stem = record { dir = "/certs"; stem = stem; extension = some "pem" }

abbrev mtls_config : MtlsConfig
mtls_config = record {
  ca_cert = file "ca";
  server_cert = file "server";
  server_key = file "key";
  allow_self_signed = false;
  verify_subject = false;
  allowed_subjects = [];
  verify_san = false;
  allowed_sans = [];
}

abbrev ca_name : X509Name
ca_name = record { raw = 1 ∷ []; text = "CN=ca" }

-- The certificates 0 and 7: the CA's, and one that names it as its issuer.
abbrev certificate : Der → Result String X509Certificate
certificate [] = err "empty"
certificate (n ∷ _) = ok (record {
  issuer = ca_name;
  subject = record { raw = n ∷ []; text = "CN=client" };
  not_before = before_epoch;
  not_after = at 100;
  extensions = [];
})

abbrev toy_parser : X509Parser
toy_parser = record { from_der = certificate; ip_debug = λ ip. "ip" }

abbrev toy_provider : MtlsProvider
toy_provider = record { config = mtls_config; ca_cert_der = 1 ∷ [] }

abbrev toy_decoder : Decoder
toy_decoder = record {
  to_str = λ v. some "pem";
  url_decode = λ s. some s;
  pem_blocks = λ s. ok ((7 ∷ []) ∷ []);
}

abbrev toy_headers : HeaderMap
toy_headers name = some (112 ∷ [])

abbrev no_headers : HeaderMap
no_headers name = none

abbrev toy_manager : AuthManager
toy_manager = record { providers = mtls_provider toy_parser 50 toy_provider ∷ [] }

abbrev toy_info : TlsInfo
toy_info = record {
  peer_certificate = some (7 ∷ []);
  certificate_chain = [];
  tls_version = "pem";
  cipher_suite = "pem";
}

abbrev toy_request : AuthRequest
toy_request = record {
  protocol = Protocol.grpc;
  peer_addr = "127.0.0.1:1";
  headers = none;
  metadata = none;
  tls_info = some toy_info;
}

abbrev toy_result : AuthResult
toy_result = record {
  authenticated = true;
  principal = some "CN=client";
  metadata = auth_metadata "CN=client" [];
}

authenticate_iff_example : Mtls.authenticate toy_parser 50 toy_provider toy_request ≡ ok toy_result
unfolding Mtls.is_before Mtls.is_after Mtls.sans_of
authenticate_iff_example = (authenticate_iff toy_parser 50 toy_provider toy_request toy_result).1 (
  7 ∷ [],
  _,
  _,
  (toy_info, refl, refl),
  (refl, refl, inr refl, refl, refl),
  (inl refl, inl refl, refl),
)

middleware_iff_example :
    auth_middleware_with_options toy_decoder toy_manager false "peer" no_headers ≡ ok tt
unfolding Service.extract_tls_info_from_headers
middleware_iff_example =
    (middleware_iff toy_decoder toy_manager false "peer" no_headers).1 (inr (refl, refl))

-- The first route of the request's path and method.
abbrev same_method : Method → Method → Bool
same_method Method.get Method.get = true
same_method Method.post Method.post = true
same_method Method.delete Method.delete = true
same_method _ _ = false

abbrev first_match : List (Route × Layer) → Request → Option (Route × Layer)
first_match [] req = none
first_match (r ∷ routes) req =
    let rest = first_match routes req in
    if str_eq r.0.path req.path && same_method r.0.method req.method then some r else rest

first_match-Listed :
    (routes : List (Route × Layer)) (req : Request) (r : Route × Layer)
    → first_match routes req ≡ some r
    → Listed r routes
first_match-Listed [] req r h = absurd (ground (arith, h))
first_match-Listed (q ∷ routes) req r h =
    elim (Bool-cases (str_eq q.0.path req.path && same_method q.0.method req.method)) [
      | inl here ↦ inl (ground (arith, here, h))
      | inr later ↦ inr (first_match-Listed routes req r (ground (arith, later, h)))
    ]

-- A state that counts the handlers' runs.
abbrev count_runs : Handler → Request → ℕ → String × ℕ
count_runs Handler.health req n = ("OK", n)
count_runs Handler.metrics req n = ("metrics", n)
count_runs _ req n = ("done", n + 1)

abbrev to_create : HeaderMap → Request
to_create headers = record {
  method = Method.post;
  path = "/instances";
  peer = "peer";
  headers = headers;
}

abbrev toy_router : List (Route × Layer)
toy_router = create_router (some toy_manager) true

serve-PresentsTrusted_example : PresentsTrusted toy_decoder toy_parser 50 toy_provider toy_headers
unfolding Mtls.is_before Mtls.is_after Mtls.sans_of nats_eq Mtls.check_issuer Mtls.check_validity
    Mtls.verify_subject Mtls.verify_sans Mtls.extract_subject Mtls.extract_sans
    Mtls.verify_cert_chain Mtls.authenticate authenticate try_providers judge supports
    Service.extract_tls_info_from_headers Service.http_request Service.answer
    Service.auth_middleware_with_options Service.first_block create_router protected_routes
    public_routes passes run_route serve
serve-PresentsTrusted_example =
    serve-PresentsTrusted toy_decoder first_match count_runs toy_parser 50 toy_provider
      (to_create toy_headers) 0 (record { picks_listed = first_match-Listed })
      (record { health = λ req s. refl; metrics = λ req s. refl }) (λ h. omega (arith, h))

-- The same request without headers is refused, and nothing runs.
refused_without_headers :
    serve toy_decoder first_match count_runs toy_router (to_create no_headers) 0
    ≡ (refused AuthError.missing_client_cert, 0)
unfolding Service.extract_tls_info_from_headers Service.auth_middleware_with_options create_router
    protected_routes public_routes passes run_route serve
refused_without_headers = refl
