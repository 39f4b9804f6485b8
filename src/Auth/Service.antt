-- ===== src/Auth/Service.antt =====
-- src/auth/service.rs: the middleware in front of the HTTP API. Running the next handler is the
-- answer `ok`. The decoding of headers, the reader of PEM blocks and the peer's address are arguments.
pub mod Bypass
use tei_manager.Base.{
  ℕ, String, Bool, true, false, not, Option, none, some, List, [], ◌∷◌, if◌then◌else◌, Result, ok,
  err, unwrap_or,
}
use tei_manager.Auth.{
  AuthError, AuthMessage, AuthManager, AuthRequest, AuthResult, Protocol, Der, TlsInfo, HeaderMap,
  HeaderValue, authenticate,
}

-- `HeaderValue::to_str`, `urlencoding::decode`, and the parser of PEM blocks.
pub record Decoder : Type 0 where
  pub to_str : HeaderValue → Option String
  pub url_decode : String → Option String
  pub pem_blocks : String → Result String (List Der)

-- `Option::and_then`.
abbrev then_some : {A B : Type 0} → Option A → (A → Option B) → Option B
then_some none f = none
then_some (some a) f = f a

abbrev ok_of : {E A : Type 0} → Result E A → Option A
ok_of (ok a) = some a
ok_of (err e) = none

unfoldable pub first_block : Result String (List Der) → Result AuthError Der
first_block (err e) =
    err (AuthError.internal (AuthMessage.format "Failed to parse PEM certificate: {}" e))
first_block (ok []) =
    err (AuthError.internal (AuthMessage.text "No PEM blocks found in certificate"))
first_block (ok (block ∷ blocks)) = ok block

module _ (d : Decoder) where
  header_or_unknown : HeaderMap → String → String
  header_or_unknown headers name = unwrap_or (then_some (headers name) d.to_str) "unknown"

  unfoldable pub extract_tls_info_from_headers : HeaderMap → Option TlsInfo
  unfolding header_or_unknown
  extract_tls_info_from_headers headers = then_some (headers "x-ssl-client-cert") (λ value.
      then_some (d.to_str value) (λ cert_str. then_some (d.url_decode cert_str) (λ decoded.
        then_some (ok_of (first_block (d.pem_blocks decoded))) (λ der. some (record {
          peer_certificate = some der;
          certificate_chain = [];
          tls_version = header_or_unknown headers "x-ssl-protocol";
          cipher_suite = header_or_unknown headers "x-ssl-cipher";
        })))))

  unfoldable pub http_request : String → HeaderMap → TlsInfo → AuthRequest
  http_request peer headers info = record {
    protocol = Protocol.http;
    peer_addr = peer;
    headers = some headers;
    metadata = none;
    tls_info = some info;
  }

  unfoldable pub answer : Result AuthError AuthResult → Result AuthError (Unit {0})
  answer (ok r) =
      if r.authenticated
      then ok tt
      else err (AuthError.unauthorized (AuthMessage.text "Authentication failed"))
  answer (err e) = err e

  unfoldable pub auth_middleware_with_options :
      AuthManager → Bool → String → HeaderMap → Result AuthError (Unit {0})
  auth_middleware_with_options m require_cert_headers peer headers =
      elim (extract_tls_info_from_headers headers) [
        | none ↦ if require_cert_headers then err AuthError.missing_client_cert else ok tt
        | some info ↦ answer (authenticate m (http_request peer headers info))
      ]

  pub auth_middleware : AuthManager → String → HeaderMap → Result AuthError (Unit {0})
  auth_middleware m = auth_middleware_with_options m false

-- `IntoResponse for AuthError`, by the status.
pub auth_status : AuthError → ℕ
auth_status AuthError.missing_client_cert = 401
auth_status (AuthError.invalid_cert _) = 401
auth_status (AuthError.cert_verification_failed _) = 401
auth_status (AuthError.unauthorized _) = 401
auth_status (AuthError.provider_error _) = 500
auth_status (AuthError.internal _) = 500
