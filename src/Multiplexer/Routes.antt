-- ===== src/Multiplexer/Routes.antt =====
-- The unary methods of src/grpc/multiplexer.rs: what is answered, and by which instance.
use tei_manager.Base.{
  ℕ, ◌≤◌, ◌≡◌, ◌≢◌, ◌↔◌, refl, String, Option, none, some, arith, Result, ok, err, str_eq_iff,
}
use tei_manager.Pool.{BackendPool, BackendClients, Channel, Status}
use tei_manager.Multiplexer.{
  Target, Routing, TeiMultiplexerService, Future, Method, MuxRequest, Context, client_of,
  clients_for, extract_target, with_timeout, unary, route,
}

-- A target names an instance by a name that is not empty.
abbrev pub Names : Option Target → String → Type 0
Names none name = ⊥
Names (some t) name = (t.routing ≡ some (Routing.instance_name name)) × (name ≢ "")

route_iff :
    (r : Option Routing) (name : String)
    → (route r ≡ ok name) ↔ ((r ≡ some (Routing.instance_name name)) × (name ≢ ""))
unfolding route
route_iff none name = ground arith
route_iff (some (Routing.instance_name n)) name = ground (arith, str_eq_iff n "")
route_iff (some (Routing.model_id n)) name = ground arith
route_iff (some (Routing.instance_index n)) name = ground arith

pub extract_target_iff :
    (t : Option Target) (name : String) → (extract_target t ≡ ok name) ↔ Names t name
unfolding extract_target
extract_target_iff none name = ground arith
extract_target_iff (some t) name = route_iff t.routing name

abbrev pub InTime : Option ℕ → ℕ → Type 0
InTime none took = Unit
InTime (some limit) took = took ≤ limit

with_timeout_iff :
    {A : Type 0} (s : TeiMultiplexerService) (fut : Future A) (a : A)
    → (with_timeout s fut ≡ ok a) ↔ ((fut.output ≡ ok a) × InTime s.request_timeout fut.took)
unfolding with_timeout
with_timeout_iff s fut a = ground arith

module _ {Req Resp : Type 0} (s : TeiMultiplexerService) (ctx : Context)
    (call : Method → Channel → Req → Future Resp) (m : Method) (missing : String)
    (req : MuxRequest Req) where
  -- What a request that is answered went through.
  pub record Answered (pool : BackendPool) (resp : Resp) (pool' : BackendPool) : Type 0 where
    pub name : String
    pub inner : Req
    pub clients : BackendClients
    pub named : Names req.target name
    pub given : req.request ≡ some inner
    pub connected : clients_for ctx name pool ≡ (ok clients, pool')
    pub response : (call m (client_of m clients) inner).output ≡ ok resp
    pub in_time : InTime s.request_timeout (call m (client_of m clients) inner).took

  unary-Answered :
      (pool pool' : BackendPool) (resp : Resp)
      → unary s ctx call m missing req pool ≡ (ok resp, pool')
      → Answered pool resp pool'
  unfolding unary
  unary-Answered pool pool' resp h = routed (extract_target req.target) req.request refl refl
    where
      reached :
          (name : String) (inner : Req) (c : Result Status BackendClients × BackendPool)
          → extract_target req.target ≡ ok name
          → req.request ≡ some inner
          → clients_for ctx name pool ≡ c
          → Answered pool resp pool'
      reached name inner (err e, p) t r c = absurd (ground (arith, t, r, c, h))
      reached name inner (ok clients, p) t r c =
          let fut : Future Resp = call m (client_of m clients) inner in
          let run : with_timeout s fut ≡ ok resp = ground (arith, t, r, c, h) in
          let same : p ≡ pool' = ground (arith, t, r, c, h) in
          record {
            name = name;
            inner = inner;
            clients = clients;
            named = (extract_target_iff req.target name).0 t;
            given = r;
            connected = ground (arith, c, same);
            response = ((with_timeout_iff s fut resp).0 run).0;
            in_time = ((with_timeout_iff s fut resp).0 run).1;
          }

      routed :
          (t : Result Status String) (r : Option Req)
          → extract_target req.target ≡ t
          → req.request ≡ r
          → Answered pool resp pool'
      routed (err e) r t k = absurd (ground (arith, t, h))
      routed (ok name) none t k = absurd (ground (arith, t, k, h))
      routed (ok name) (some inner) t k = reached name inner (clients_for ctx name pool) t k refl

  Answered-unary :
      (pool pool' : BackendPool) (resp : Resp)
      → Answered pool resp pool'
      → unary s ctx call m missing req pool ≡ (ok resp, pool')
  unfolding unary
  Answered-unary pool pool' resp a = ground (
    arith,
    (extract_target_iff req.target a.name).1 a.named,
    a.given,
    a.connected,
    (with_timeout_iff s (call m (client_of m a.clients) a.inner) resp).1 (a.response, a.in_time),
  )

  -- A unary method answers exactly if the target names an instance, the inner request is there, the
  -- pool has or makes clients for that name, and the backend answers the inner request, unchanged,
  -- within the timeout, if there is one; the answer is the backend's, and the pool is as the look-up
  -- of the clients left it.
  pub unary_iff :
      (pool pool' : BackendPool) (resp : Resp)
      → (unary s ctx call m missing req pool ≡ (ok resp, pool')) ↔ Answered pool resp pool'
  unary_iff pool pool' resp = (unary-Answered pool pool' resp, Answered-unary pool pool' resp)
