-- ===== src/Api/Routes.antt =====
-- src/api/routes.rs: the routes of the HTTP API, and the authentication in front of them. How axum
-- picks a route for a request, and the handlers, are arguments; tracing and CORS are left out.
pub mod Guarded
use tei_manager.Base.{String, Bool, Option, none, some, List, [], ◌∷◌, ◌++◌, map, Result, ok, err}
use tei_manager.Auth.{AuthError, AuthManager, HeaderMap}
use tei_manager.Auth.Service.{Decoder, auth_middleware_with_options}

pub data Method : Type 0 where
  get post delete : Method

-- The functions of src/api/handlers.rs.
pub data Handler : Type 0 where
  health metrics list_instances create_instance get_instance delete_instance : Handler
  start_instance stop_instance restart_instance get_logs : Handler
  list_models add_model get_model download_model load_model : Handler

-- `.route(path, method(handler))`.
pub record Route : Type 0 where
  pub path : String
  pub method : Method
  pub handler : Handler

abbrev route : String → Method → Handler → Route
route path method handler = record { path = path; method = method; handler = handler }

unfoldable pub public_routes : List Route
public_routes =
    route "/health" Method.get Handler.health ∷ route "/metrics" Method.get Handler.metrics ∷ []

unfoldable pub protected_routes : List Route
protected_routes =
    route "/instances" Method.get Handler.list_instances
    ∷ route "/instances" Method.post Handler.create_instance
    ∷ route "/instances/{name}" Method.get Handler.get_instance
    ∷ route "/instances/{name}" Method.delete Handler.delete_instance
    ∷ route "/instances/{name}/start" Method.post Handler.start_instance
    ∷ route "/instances/{name}/stop" Method.post Handler.stop_instance
    ∷ route "/instances/{name}/restart" Method.post Handler.restart_instance
    ∷ route "/instances/{name}/logs" Method.get Handler.get_logs
    ∷ route "/models" Method.get Handler.list_models
    ∷ route "/models" Method.post Handler.add_model
    ∷ route "/models/{model_id}" Method.get Handler.get_model
    ∷ route "/models/{model_id}/download" Method.post Handler.download_model
    ∷ route "/models/{model_id}/load" Method.post Handler.load_model
    ∷ []

-- The middleware around a route: none, or the manager that it asks, and whether it requires headers.
abbrev pub Layer : Type 0
Layer = Option (AuthManager × Bool)

abbrev pub auth_layer : Option AuthManager → Bool → Layer
auth_layer none require_cert_headers = none
auth_layer (some auth) require_cert_headers = some (auth, require_cert_headers)

abbrev pub layered : Layer → List Route → List (Route × Layer)
layered layer routes = map (λ r. (r, layer)) routes

unfoldable pub create_router : Option AuthManager → Bool → List (Route × Layer)
create_router auth_manager require_cert_headers =
    layered none public_routes
    ++ layered (auth_layer auth_manager require_cert_headers) protected_routes

pub data Answer (A : Type 0) : Type 0 where
  handled : A → Answer A
  refused : AuthError → Answer A
  unrouted : Answer A

pub record Request : Type 0 where
  pub method : Method
  pub path : String
  pub peer : String
  pub headers : HeaderMap

-- `dispatch` is how axum picks the route for a request, `handle` what a handler does with the request
-- and the state.
module _ {A S : Type 0} (d : Decoder)
    (dispatch : List (Route × Layer) → Request → Option (Route × Layer))
    (handle : Handler → Request → S → A × S) where
  -- The closure that is layered around the protected routes, or nothing.
  unfoldable pub passes : Layer → Request → Result AuthError (Unit {0})
  passes none req = ok tt
  passes (some (auth, require_cert_headers)) req =
      auth_middleware_with_options d auth require_cert_headers req.peer req.headers

  abbrev pub run_handler : Handler → Request → S → Answer A × S
  run_handler handler req s = let done = handle handler req s in (handled done.0, done.1)

  unfoldable pub run_route : Route → Layer → Request → S → Answer A × S
  unfolding passes
  run_route r layer req s = elim (passes layer req) [
    | ok _ ↦ run_handler r.handler req s
    | err e ↦ (refused e, s)
  ]

  -- A request at a router.
  unfoldable pub serve : List (Route × Layer) → Request → S → Answer A × S
  unfolding run_route
  serve routes req s = elim (dispatch routes req) [
    | none ↦ (unrouted, s)
    | some (r, layer) ↦ run_route r layer req s
  ]
