-- ===== src/Multiplexer.antt =====
-- src/grpc/multiplexer.rs: the routing of requests to the instances. The messages that are passed on
-- unread are one type of requests and one of responses. What the backend answers is an argument.
pub mod Routes
pub mod Streams
pub mod Arrow
pub mod Tests
use tei_manager.Base.{
  ℕ, zero, suc, String, Bool, true, false, Option, none, some, List, [], ◌∷◌, ltb, ◌==◌,
  if◌then◌else◌, Result, ok, err, Action, pure, bail, lift, ok_or, ◌>>=◌, str_eq,
}
use tei_manager.Registry.{Registry}
use tei_manager.Pool.{BackendPool, BackendClients, Channel, Instant, Status, get_clients}

-- `mux::Target` and its routing.
pub data Routing : Type 0 where
  instance_name : String → Routing
  model_id : String → Routing
  instance_index : ℕ → Routing

pub record Target : Type 0 where
  pub routing : Option Routing

pub record TeiMultiplexerService : Type 0 where
  pub max_parallel_stream_requests : ℕ
  pub request_timeout : Option ℕ

-- `TeiMultiplexerService::new`, less the pool: 0 means no timeout.
unfoldable pub new_service : ℕ → ℕ → TeiMultiplexerService
new_service max_parallel request_timeout_secs = record {
  max_parallel_stream_requests = max_parallel;
  request_timeout = if ltb 0 request_timeout_secs then some request_timeout_secs else none;
}

-- A future: how long it takes, and what it gives.
pub record Future (A : Type 0) : Type 0 where
  pub took : ℕ
  pub output : Result Status A

-- `with_timeout`; a future that is ready when the time is over still counts.
unfoldable pub with_timeout : {A : Type 0} → TeiMultiplexerService → Future A → Result Status A
with_timeout s fut = elim s.request_timeout [
  | none ↦ fut.output
  | some duration ↦
      if ltb duration fut.took then err (Status.deadline_exceeded "Request timeout") else fut.output
]

route : Option Routing → Result Status String
route none = err (Status.invalid_argument "No routing specified")
route (some (Routing.instance_name name)) =
    if str_eq name ""
    then err (Status.invalid_argument "Instance name cannot be empty")
    else ok name
route (some (Routing.model_id _)) =
    err (Status.unimplemented "Model-based routing not yet implemented")
route (some (Routing.instance_index _)) =
    err (Status.unimplemented "Index-based routing not yet implemented")

-- `extract_target`.
unfoldable pub extract_target : Option Target → Result Status String
unfolding route
extract_target none = err (Status.invalid_argument "Missing target")
extract_target (some target) = route target.routing

-- The methods of the backend's clients.
pub data Method : Type 0 where
  info embed embed_sparse embed_all predict predict_pair rerank tokenize decode : Method

-- The client that has a method.
abbrev pub client_of : Method → BackendClients → Channel
client_of Method.info c = c.info
client_of Method.embed c = c.embed
client_of Method.embed_sparse c = c.embed
client_of Method.embed_all c = c.embed
client_of Method.predict c = c.predict
client_of Method.predict_pair c = c.predict
client_of Method.rerank c = c.rerank
client_of Method.tokenize c = c.tokenize
client_of Method.decode c = c.tokenize

-- A request of the multiplexer: a target and an inner request, each of which may be missing.
pub record MuxRequest (Req : Type 0) : Type 0 where
  pub target : Option Target
  pub request : Option Req

-- What a handler works with: the look-up of a port, the instances and the time.
pub record Context : Type 0 where
  pub connect : ℕ → Option String
  pub registry : Registry
  pub now : Instant

abbrev pub clients_for : Context → String → Action BackendPool Status BackendClients
clients_for ctx = get_clients ctx.connect ctx.registry ctx.now

module _ {Req Resp : Type 0} (s : TeiMultiplexerService) (ctx : Context)
    (call : Method → Channel → Req → Future Resp) where
  -- The common body of the unary methods, from the inner request on.
  abbrev forward : Method → String → Req → Action BackendPool Status Resp
  forward m name req = do
    clients ← clients_for ctx name
    lift (with_timeout s (call m (client_of m clients) req))

  -- `embed` and its like: the target, the inner request, the clients, the backend.
  unfoldable pub unary : Method → String → MuxRequest Req → Action BackendPool Status Resp
  unary m missing req = do
    name ← lift (extract_target req.target)
    inner ← lift (ok_or req.request (Status.invalid_argument missing))
    forward m name inner

  -- `info`, whose inner request is made here.
  pub info_rpc : Req → Option Target → Action BackendPool Status Resp
  info_rpc info_request target = do
    name ← lift (extract_target target)
    forward Method.info name info_request

  pub embed_rpc : MuxRequest Req → Action BackendPool Status Resp
  embed_rpc = unary Method.embed "Missing embed request"

  pub embed_sparse_rpc : MuxRequest Req → Action BackendPool Status Resp
  embed_sparse_rpc = unary Method.embed_sparse "Missing embed_sparse request"

  pub embed_all_rpc : MuxRequest Req → Action BackendPool Status Resp
  embed_all_rpc = unary Method.embed_all "Missing embed_all request"

  pub predict_rpc : MuxRequest Req → Action BackendPool Status Resp
  predict_rpc = unary Method.predict "Missing predict request"

  pub predict_pair_rpc : MuxRequest Req → Action BackendPool Status Resp
  predict_pair_rpc = unary Method.predict_pair "Missing predict_pair request"

  pub rerank_rpc : MuxRequest Req → Action BackendPool Status Resp
  rerank_rpc = unary Method.rerank "Missing rerank request"

  pub tokenize_rpc : MuxRequest Req → Action BackendPool Status Resp
  tokenize_rpc = unary Method.tokenize "Missing tokenize request"

  pub decode_rpc : MuxRequest Req → Action BackendPool Status Resp
  decode_rpc = unary Method.decode "Missing decode request"

-- A stream of incoming messages, each of which may be an error instead.
abbrev pub Incoming : Type 0 → Type 0
Incoming Req = List (Result String (MuxRequest Req))

-- The stream for the backend: the inner requests, up to the first error.
unfoldable pub inner_requests : {Req : Type 0} → Incoming Req → List Req
inner_requests [] = []
inner_requests (err e ∷ rest) = []
inner_requests (ok req ∷ rest) =
    let later = inner_requests rest in
    elim req.request [ none ↦ later | some inner ↦ inner ∷ later ]

unfoldable pub backend_stream : {Req : Type 0} → MuxRequest Req → Incoming Req → List Req
backend_stream first rest = elim first.request [
  | none ↦ inner_requests rest
  | some inner ↦ inner ∷ inner_requests rest
]

-- The first message of a stream.
unfoldable pub first_request :
    {Req : Type 0} → Incoming Req → Result Status (MuxRequest Req × Incoming Req)
first_request [] = err (Status.invalid_argument "Empty stream")
first_request (err e ∷ rest) = err (Status.internal "Stream error: {}" e)
first_request (ok req ∷ rest) = ok (req, rest)

-- An answer, or a panic on the way to it.
pub data Reply (A : Type 0) : Type 0 where
  replied : Result Status A → Reply A
  panicked : Reply A

-- `mpsc::channel`, which panics without room for a message.
unfoldable pub channel : {A : Type 0} → ℕ → A → Reply A
channel room a = if room == 0 then panicked else replied (ok a)

-- The task that forwards responses: the client takes as many as it wants.
unfoldable pub forward_responses :
    {Resp : Type 0} → ℕ → List (Result Status Resp) → List (Result Status Resp)
forward_responses zero responses = []
forward_responses (suc wanted) [] = []
forward_responses (suc wanted) (r ∷ responses) = r ∷ forward_responses wanted responses

-- What is sent to the client: the failure of the call, or the responses.
unfoldable pub stream_task :
    {Resp : Type 0} → ℕ → Result Status (List (Result Status Resp)) → List (Result Status Resp)
stream_task wanted (err e) = forward_responses wanted (err e ∷ [])
stream_task wanted (ok responses) = forward_responses wanted responses

-- What a stream request found out before it is answered.
pub record Opened (Req : Type 0) : Type 0 where
  pub clients : BackendClients
  pub requests : List Req

-- The first message decides on the instance for all of them.
unfoldable pub stream_start :
    {Req : Type 0} → Context → Incoming Req → Action BackendPool Status (Opened Req)
stream_start ctx incoming = do
  (first, rest) ← lift (first_request incoming)
  name ← lift (extract_target first.target)
  clients ← clients_for ctx name
  pure (record { clients = clients; requests = backend_stream first rest })

module _ {Req Resp : Type 0} (s : TeiMultiplexerService) (ctx : Context) where
  module _ (call : Method → Channel → List Req → Result Status (List (Result Status Resp))) where
    abbrev pub answer_stream :
        Method
        → ℕ
        → Result Status (Opened Req) × BackendPool
        → Reply (List (Result Status Resp)) × BackendPool
    answer_stream m wanted (err e, pool) = (replied (err e), pool)
    answer_stream m wanted (ok o, pool) = (
      channel s.max_parallel_stream_requests
          (stream_task wanted (call m (client_of m o.clients) o.requests)),
      pool,
    )

    -- `impl_stream_rpc!`; `wanted` is how many responses the client stays for.
    unfoldable pub stream_rpc :
        Method → ℕ → Incoming Req → BackendPool → Reply (List (Result Status Resp)) × BackendPool
    stream_rpc m wanted incoming pool = answer_stream m wanted (stream_start ctx incoming pool)

    pub embed_stream :
        ℕ → Incoming Req → BackendPool → Reply (List (Result Status Resp)) × BackendPool
    embed_stream = stream_rpc Method.embed

    pub embed_sparse_stream :
        ℕ → Incoming Req → BackendPool → Reply (List (Result Status Resp)) × BackendPool
    embed_sparse_stream = stream_rpc Method.embed_sparse

    pub embed_all_stream :
        ℕ → Incoming Req → BackendPool → Reply (List (Result Status Resp)) × BackendPool
    embed_all_stream = stream_rpc Method.embed_all

    pub predict_stream :
        ℕ → Incoming Req → BackendPool → Reply (List (Result Status Resp)) × BackendPool
    predict_stream = stream_rpc Method.predict

    pub predict_pair_stream :
        ℕ → Incoming Req → BackendPool → Reply (List (Result Status Resp)) × BackendPool
    predict_pair_stream = stream_rpc Method.predict_pair

    pub tokenize_stream :
        ℕ → Incoming Req → BackendPool → Reply (List (Result Status Resp)) × BackendPool
    tokenize_stream = stream_rpc Method.tokenize

    pub decode_stream :
        ℕ → Incoming Req → BackendPool → Reply (List (Result Status Resp)) × BackendPool
    decode_stream = stream_rpc Method.decode

  abbrev answer_rerank :
      (Channel → List Req → Result Status Resp)
      → Result Status (Opened Req) × BackendPool
      → Result Status Resp × BackendPool
  answer_rerank call (err e, pool) = (err e, pool)
  answer_rerank call (ok o, pool) = (call o.clients.rerank o.requests, pool)

  -- `rerank_stream`, which has one response.
  unfoldable pub rerank_stream :
      (Channel → List Req → Result Status Resp) → Incoming Req → Action BackendPool Status Resp
  rerank_stream call incoming pool = answer_rerank call (stream_start ctx incoming pool)
