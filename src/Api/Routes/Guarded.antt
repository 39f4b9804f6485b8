-- ===== src/Api/Routes/Guarded.antt =====
-- The router of src/api/routes.rs with the middleware of src/auth/service.rs: what reaches the state.
use tei_manager.Base.{
  ◌≡◌, ◌≢◌, ◌⊎◌, refl, ap, Bool, true, inl, inr, Option, some, List, [], ◌∷◌, arith, Result, ok,
  err, Listed, Option-cases,
}
use tei_manager.Auth.{AuthError, AuthManager, HeaderMap, TlsInfo, Der}
use tei_manager.Auth.Mtls.{X509Parser, X509Certificate, MtlsProvider, mtls_provider, sans_of}
use tei_manager.Auth.Mtls.Accepts.{IsTrusted, SubjectAllowed, SansAllowed}
use tei_manager.Auth.Service.{Decoder, auth_middleware_with_options, extract_tls_info_from_headers}
use tei_manager.Auth.Service.Bypass.{strict_middleware-IsTrusted}
use tei_manager.Config.{Timestamp}
use tei_manager.Api.Routes.{
  Handler, Route, Layer, Request, public_routes, protected_routes, layered, create_router, passes,
  run_route, serve,
}

-- The handlers of the public routes, which read only.
pub record PublicReads {A S : Type 0} (handle : Handler → Request → S → A × S) : Type 0 where
  pub health : (req : Request) (s : S) → (handle Handler.health req s).1 ≡ s
  pub metrics : (req : Request) (s : S) → (handle Handler.metrics req s).1 ≡ s

-- What axum picks is one of the routes.
pub record Dispatches (dispatch : List (Route × Layer) → Request → Option (Route × Layer))
    : Type 0 where
  pub picks_listed :
      (routes : List (Route × Layer)) (req : Request) (r : Route × Layer)
      → dispatch routes req ≡ some r
      → Listed r routes

layer-layered :
    (layer : Layer) (routes : List Route) (r : Route × Layer)
    → Listed r (layered layer routes)
    → r.1 ≡ layer
layer-layered layer [] r l = absurd l
layer-layered layer (q ∷ routes) r (inl e) = ap (λ x. x.1) e
layer-layered layer (q ∷ routes) r (inr l) = layer-layered layer routes r l

-- A route is public, or has the layer of the protected ones.
create_router-cases :
    (auth : AuthManager) (require : Bool) (r : Route × Layer)
    → Listed r (create_router (some auth) require)
    → ((r.0.handler ≡ Handler.health) ⊎ (r.0.handler ≡ Handler.metrics))
      ⊎ (r.1 ≡ some (auth, require))
unfolding create_router public_routes
create_router-cases auth require r (inl e) = inl (inl (ap (λ x. x.0.handler) e))
create_router-cases auth require r (inr (inl e)) = inl (inr (ap (λ x. x.0.handler) e))
create_router-cases auth require r (inr (inr l)) =
    inr (layer-layered (some (auth, require)) protected_routes r l)

module _ {A S : Type 0} (d : Decoder)
    (dispatch : List (Route × Layer) → Request → Option (Route × Layer))
    (handle : Handler → Request → S → A × S) where
  run_route-public :
      (r : Route) (layer : Layer) (req : Request) (s : S)
      → (handle r.handler req s).1 ≡ s
      → (run_route d dispatch handle r layer req s).1 ≡ s
  unfolding run_route passes
  run_route-public r layer req s h = ground (arith, h)

  run_route-refused :
      (auth : AuthManager) (require : Bool) (r : Route) (layer : Layer) (req : Request) (s : S)
      (e : AuthError)
      → layer ≡ some (auth, require)
      → auth_middleware_with_options d auth require req.peer req.headers ≡ err e
      → (run_route d dispatch handle r layer req s).1 ≡ s
  unfolding run_route passes
  run_route-refused auth require r layer req s e same h = ground (arith, same, h)

  picked_refused :
      PublicReads handle
      → (auth : AuthManager) (require : Bool) (r : Route × Layer) (req : Request) (s : S)
        (e : AuthError)
      → Listed r (create_router (some auth) require)
      → auth_middleware_with_options d auth require req.peer req.headers ≡ err e
      → (run_route d dispatch handle r.0 r.1 req s).1 ≡ s
  picked_refused reads auth require (r, layer) req s e l h =
      elim (create_router-cases auth require (r, layer) l) [
        | inl (inl public) ↦
            run_route-public r layer req s (ground (arith, public, reads.health req s))
        | inl (inr public) ↦
            run_route-public r layer req s (ground (arith, public, reads.metrics req s))
        | inr same ↦ run_route-refused auth require r layer req s e same h
      ]

  serve-refused :
      PublicReads handle
      → Dispatches dispatch
      → (auth : AuthManager) (require : Bool) (req : Request) (s : S) (e : AuthError)
      → auth_middleware_with_options d auth require req.peer req.headers ≡ err e
      → (serve d dispatch handle (create_router (some auth) require) req s).1 ≡ s
  unfolding serve
  serve-refused reads picks auth require req s e h =
      let routes = create_router (some auth) require in
      elim (Option-cases (dispatch routes req)) [
        | inl none_picked ↦ ground (arith, none_picked)
        | inr (r, picked) ↦
            let listed = picks.picks_listed routes req r picked in
            ground (arith, picked, picked_refused reads auth require r req s e listed h)
      ]

-- The request's headers have a certificate that the provider trusts, with an allowed subject and an
-- allowed alternative name.
abbrev pub PresentsTrusted : Decoder → X509Parser → Timestamp → MtlsProvider → HeaderMap → Type 0
PresentsTrusted d x now p headers =
    (info : TlsInfo) × (der : Der) × (client : X509Certificate) × (ca : X509Certificate)
    × (extract_tls_info_from_headers d headers ≡ some info)
    × (info.peer_certificate ≡ some der)
    × IsTrusted x now p der client ca
    × SubjectAllowed p.config client.subject.text
    × SansAllowed p.config (sans_of x client.extensions)

-- With authentication by client certificates on, and certificate headers required, no request changes
-- the state through the router unless its headers have a certificate that the provider trusts, and
-- whose subject and alternative names pass the allowlists: a subject passes if it contains some entry,
-- a name if it equals one, and everything passes where checking is off or the list is empty. It holds
-- however axum picks one of the routes, and for all handlers of which the two public ones only read.
pub serve-PresentsTrusted :
    {A S : Type 0} (d : Decoder)
    (dispatch : List (Route × Layer) → Request → Option (Route × Layer))
    (handle : Handler → Request → S → A × S) (x : X509Parser) (now : Timestamp) (p : MtlsProvider)
    (req : Request) (s : S)
    → Dispatches dispatch
    → PublicReads handle
    → let auth : AuthManager = record { providers = mtls_provider x now p ∷ [] } in
      (serve d dispatch handle (create_router (some auth) true) req s).1 ≢ s
      → PresentsTrusted d x now p req.headers
serve-PresentsTrusted d dispatch handle x now p req s picks reads changed =
    go (auth_middleware_with_options d auth true req.peer req.headers) refl
  where
    auth : AuthManager
    auth = record { providers = mtls_provider x now p ∷ [] }

    go :
        (answer : Result AuthError (Unit {0}))
        → auth_middleware_with_options d auth true req.peer req.headers ≡ answer
        → PresentsTrusted d x now p req.headers
    go (ok _) h = strict_middleware-IsTrusted d x now p req.peer req.headers h
    go (err e) h =
        absurd (changed (serve-refused d dispatch handle reads picks auth true req s e h))
