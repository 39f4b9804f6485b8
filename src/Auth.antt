-- ===== src/Auth.antt =====
-- src/auth/mod.rs: authentication by any of several providers. Logging is left out. The headers
-- and the metadata of a request are kept as the answers of a look-up by name.
pub mod Mtls
pub mod Providers
pub mod Service
pub mod Tests
use tei_manager.Base.{
  ℕ, String, Bool, true, false, not, ◌&&◌, Option, none, some, List, [], ◌∷◌, if◌then◌else◌, Result,
  ok, err, unwrap_or, length,
}
use tei_manager.Base.Dict.{Dict}

-- A message: a text, or a format of the source with its argument.
pub data AuthMessage : Type 0 where
  text : String → AuthMessage
  format : String → String → AuthMessage
  format_list : String → List String → AuthMessage

pub data AuthError : Type 0 where
  missing_client_cert : AuthError
  invalid_cert : AuthMessage → AuthError
  cert_verification_failed : AuthMessage → AuthError
  unauthorized : AuthMessage → AuthError
  provider_error : AuthMessage → AuthError
  internal : AuthMessage → AuthError

pub data Protocol : Type 0 where
  http grpc : Protocol

-- Bytes in DER.
abbrev pub Der : Type 0
Der = List ℕ

pub record TlsInfo : Type 0 where
  pub peer_certificate : Option Der
  pub certificate_chain : List Der
  pub tls_version : String
  pub cipher_suite : String

abbrev pub HeaderValue : Type 0
HeaderValue = List ℕ

abbrev pub HeaderMap : Type 0
HeaderMap = String → Option HeaderValue

pub record AuthRequest : Type 0 where
  pub protocol : Protocol
  pub peer_addr : String
  pub headers : Option HeaderMap
  pub metadata : Option HeaderMap
  pub tls_info : Option TlsInfo

pub record AuthResult : Type 0 where
  pub authenticated : Bool
  pub principal : Option String
  pub metadata : Dict String

-- `trait AuthProvider`, at one moment.
pub record AuthProvider : Type 0 where
  pub authenticate : AuthRequest → Result AuthError AuthResult
  pub supports_http : Bool
  pub supports_grpc : Bool
  pub name : String

pub supports : AuthProvider → Protocol → Bool
supports p Protocol.http = p.supports_http
supports p Protocol.grpc = p.supports_grpc

-- What a provider's answer is for the manager: the result, or the error to remember.
pub judge : AuthProvider → Result AuthError AuthResult → Result AuthError AuthResult
judge p (ok r) =
    if r.authenticated
    then ok r
    else err (AuthError.unauthorized (AuthMessage.format "{} authentication failed" p.name))
judge p (err e) = err e

-- The loop over the providers, with the last error.
pub try_providers : List AuthProvider → AuthRequest → Option AuthError → Result AuthError AuthResult
try_providers [] req last = err (
    unwrap_or last
      (AuthError.unauthorized (AuthMessage.text "No compatible authentication provider found")))
try_providers (p ∷ ps) req last = elim (supports p req.protocol) [
  | false ↦ try_providers ps req last
  | true ↦ elim (judge p (p.authenticate req)) [
    | ok r ↦ ok r
    | err e ↦ try_providers ps req (some e)
  ]
]

-- `AuthManager`: its providers.
pub record AuthManager : Type 0 where
  pub providers : List AuthProvider

-- `AuthManager::authenticate`.
pub authenticate : AuthManager → AuthRequest → Result AuthError AuthResult
authenticate m req = elim m.providers [
  | [] ↦ err (AuthError.internal (AuthMessage.text "No authentication providers configured"))
  | p ∷ ps ↦ try_providers m.providers req none
]

-- `AuthManager::provider_count`.
pub provider_count : AuthManager → ℕ
provider_count m = length m.providers
