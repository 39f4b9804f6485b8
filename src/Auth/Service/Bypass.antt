-- ===== src/Auth/Service/Bypass.antt =====
-- Which requests the middleware of src/auth/service.rs lets through.
use tei_manager.Base.{
  ◌≡◌, ◌↔◌, ◌⊎◌, inl, inr, refl, String, Bool, true, false, Option, none, some, [], ◌∷◌, arith,
  Result, ok, err,
}
use tei_manager.Auth.{
  AuthManager, AuthResult, Der, AuthRequest, AuthError, TlsInfo, HeaderMap, authenticate,
}
use tei_manager.Auth.Providers.{manager_iff}
use tei_manager.Config.{Timestamp}
use tei_manager.Auth.Mtls
use tei_manager.Auth.Mtls.{X509Parser, X509Certificate, MtlsProvider, mtls_provider, sans_of}
use tei_manager.Auth.Mtls.Accepts.{IsTrusted, SubjectAllowed, SansAllowed, authenticate_iff}
use tei_manager.Auth.Service.{
  Decoder, extract_tls_info_from_headers, http_request, answer, auth_middleware_with_options,
}

module _ (d : Decoder) (m : AuthManager) where
  answer_iff :
      (res : Result AuthError AuthResult)
      → (answer d res ≡ ok tt) ↔ ((r : AuthResult) × (res ≡ ok r) × (r.authenticated ≡ true))
  unfolding answer
  answer_iff (ok r) = (λ e. (r, refl, ground arith), λ (k, e, a). ground arith)
  answer_iff (err e) = ground arith

  -- A request is let through exactly if its headers hold a certificate with which the manager
  -- authenticates it, or if they hold none that can be read and certificate headers are not
  -- required: then no provider is asked.
  pub middleware_iff :
      (require : Bool) (peer : String) (headers : HeaderMap)
      → (auth_middleware_with_options d m require peer headers ≡ ok tt) ↔ (
          ((info : TlsInfo) × (r : AuthResult) × (extract_tls_info_from_headers d headers
              ≡ some info)
            × (authenticate m (http_request d peer headers info) ≡ ok r)
            × (r.authenticated ≡ true))
          ⊎ ((extract_tls_info_from_headers d headers ≡ none) × (require ≡ false)))
  unfolding auth_middleware_with_options
  middleware_iff require peer headers = go (extract_tls_info_from_headers d headers) refl
    where
      go :
          (t : Option TlsInfo)
          → extract_tls_info_from_headers d headers ≡ t
          → (auth_middleware_with_options d m require peer headers ≡ ok tt) ↔ (
              ((info : TlsInfo) × (r : AuthResult) × (extract_tls_info_from_headers d headers
                  ≡ some info)
                × (authenticate m (http_request d peer headers info) ≡ ok r)
                × (r.authenticated ≡ true))
              ⊎ ((extract_tls_info_from_headers d headers ≡ none) × (require ≡ false)))
      go none h = ground arith
      go (some info) h =
          ground (arith, answer_iff (authenticate m (http_request d peer headers info)))

-- The certificate of a request is the one of its TLS information.
presented_certificate :
    (t : Option TlsInfo) (info info' : TlsInfo) (der : Der)
    → t ≡ some info
    → t ≡ some info'
    → info'.peer_certificate ≡ some der
    → info.peer_certificate ≡ some der
presented_certificate t info info' der h h' c = ground arith

-- Where certificate headers are required and the mTLS provider is the only one, a request that is
-- let through has a certificate in its headers that the provider trusts, with an allowed subject
-- and an allowed alternative name.
pub strict_middleware-IsTrusted :
    (d : Decoder) (x : X509Parser) (now : Timestamp) (p : MtlsProvider) (peer : String)
    (headers : HeaderMap)
    → auth_middleware_with_options d
        (record { providers = mtls_provider x now p ∷ [] })
        true
        peer
        headers
      ≡ ok tt
    → (info : TlsInfo) × (der : Der) × (client : X509Certificate) × (ca : X509Certificate)
      × (extract_tls_info_from_headers d headers ≡ some info)
      × (info.peer_certificate ≡ some der)
      × IsTrusted x now p der client ca
      × SubjectAllowed p.config client.subject.text
      × SansAllowed p.config (sans_of x client.extensions)
unfolding http_request
strict_middleware-IsTrusted d x now p peer headers h =
    let manager : AuthManager = record { providers = mtls_provider x now p ∷ [] } in
    elim ((middleware_iff d manager true peer headers).0 h) [
      | inr (e, required) ↦ absurd (ground (arith, required))
      | inl (info, r, e, a, _) ↦
          let req : AuthRequest = http_request d peer headers info in
          let ran : Mtls.authenticate x now p req ≡ ok r =
            ground (arith, (manager_iff manager req r).0 a) in
          let (der, client, ca, presents, trusted, identity) =
            (authenticate_iff x now p req r).0 ran in
          (
            info,
            der,
            client,
            ca,
            e,
            presented_certificate (some info) info presents.0 der refl presents.1 presents.2,
            trusted,
            identity.0,
            identity.1,
          )
    ]
