-- ===== src/Multiplexer/Streams.antt =====
-- The streaming methods of src/grpc/multiplexer.rs: which instance a stream goes to, what the backend
-- is sent, and when the channel for the responses cannot be made.
use tei_manager.Base.{
  ℕ, zero, suc, ◌<◌, ◌≡◌, ◌↔◌, ◌∙◌, refl, sym, ap, String, Option, none, some, List, [], ◌∷◌, ◌++◌,
  arith, Result, ok, err, map, take,
}
use tei_manager.Pool.{BackendPool, BackendClients, Channel, Status}
use tei_manager.Multiplexer.{
  Target, TeiMultiplexerService, Method, MuxRequest, Context, client_of, clients_for,
  extract_target, Incoming, inner_requests, backend_stream, first_request, replied, channel,
  stream_task, forward_responses, Opened, stream_start, answer_stream, stream_rpc,
}
use tei_manager.Multiplexer.Routes.{Names, extract_target_iff}

-- The inner requests that are there.
abbrev pub given : {Req : Type 0} → List (MuxRequest Req) → List Req
given [] = []
given (req ∷ rest) = elim req.request [ none ↦ given rest | some inner ↦ inner ∷ given rest ]

inner_requests-map :
    {Req : Type 0} (reqs : List (MuxRequest Req)) → inner_requests (map ok reqs) ≡ given reqs
unfolding inner_requests
inner_requests-map [] = refl
inner_requests-map (req ∷ reqs) = ground (arith, inner_requests-map reqs)

inner_requests-err :
    {Req : Type 0} (reqs : List (MuxRequest Req)) (e : String) (rest : Incoming Req)
    → inner_requests (map ok reqs ++ (err e ∷ rest)) ≡ given reqs
unfolding inner_requests
inner_requests-err [] e rest = refl
inner_requests-err (req ∷ reqs) e rest = ground (arith, inner_requests-err reqs e rest)

-- Where the reading of a stream ends: it is over, or its next message cannot be read.
abbrev pub Ends : {Req : Type 0} → Incoming Req → Type 0
Ends [] = Unit
Ends (err e ∷ rest) = Unit
Ends (ok req ∷ rest) = ⊥

-- `msgs` are the messages before the first that cannot be read.
abbrev pub Readable : {Req : Type 0} → List (MuxRequest Req) → Incoming Req → Type 0
Readable {Req} msgs incoming = (tail : Incoming Req) × (incoming ≡ map ok msgs ++ tail) × Ends tail

Readable-exists :
    {Req : Type 0} (incoming : Incoming Req)
    → (msgs : List (MuxRequest Req)) × Readable msgs incoming
Readable-exists [] = ([], ([], refl, tt))
Readable-exists (err e ∷ rest) = ([], (err e ∷ rest, refl, tt))
Readable-exists (ok req ∷ rest) =
    let (msgs, (tail, cut, ends)) = Readable-exists rest in
    (req ∷ msgs, (tail, ap (λ r. ok req ∷ r) cut, ends))

inner_requests-Ends :
    {Req : Type 0} (msgs : List (MuxRequest Req)) (tail : Incoming Req)
    → Ends tail
    → inner_requests (map ok msgs ++ tail) ≡ given msgs
unfolding inner_requests
inner_requests-Ends [] [] h = refl
inner_requests-Ends [] (err e ∷ rest) h = refl
inner_requests-Ends [] (ok req ∷ rest) h = absurd h
inner_requests-Ends (req ∷ msgs) tail h = ground (arith, inner_requests-Ends msgs tail h)

inner_requests-Readable :
    {Req : Type 0} (msgs : List (MuxRequest Req)) (incoming : Incoming Req)
    → Readable msgs incoming
    → inner_requests incoming ≡ given msgs
inner_requests-Readable msgs incoming (tail, cut, ends) =
    ap inner_requests cut ∙ inner_requests-Ends msgs tail ends

-- What a client that stays for `wanted` responses is sent, by what the backend answers.
abbrev pub sent :
    {Resp : Type 0} → ℕ → Result Status (List (Result Status Resp)) → List (Result Status Resp)
sent wanted (ok responses) = take wanted responses
sent wanted (err e) = take wanted (err e ∷ [])

forward_responses-take :
    {Resp : Type 0} (wanted : ℕ) (responses : List (Result Status Resp))
    → forward_responses wanted responses ≡ take wanted responses
unfolding forward_responses
forward_responses-take zero responses = refl
forward_responses-take (suc wanted) [] = refl
forward_responses-take (suc wanted) (r ∷ responses) =
    ap (λ rs. r ∷ rs) (forward_responses-take wanted responses)

stream_task-sent :
    {Resp : Type 0} (wanted : ℕ) (answer : Result Status (List (Result Status Resp)))
    → stream_task wanted answer ≡ sent wanted answer
unfolding stream_task
stream_task-sent wanted (ok responses) = forward_responses-take wanted responses
stream_task-sent wanted (err e) = forward_responses-take wanted (err e ∷ [])

backend_stream_lem :
    {Req : Type 0} (first : MuxRequest Req) (rest : Incoming Req)
    → backend_stream first rest ≡ inner_requests (ok first ∷ rest)
unfolding backend_stream inner_requests
backend_stream_lem first rest = ground arith

backend_stream-same :
    {Req : Type 0} (first : MuxRequest Req) (rest rest' : Incoming Req)
    → inner_requests rest ≡ inner_requests rest'
    → backend_stream first rest ≡ backend_stream first rest'
unfolding backend_stream
backend_stream-same first rest rest' same = ground (arith, same)

-- A stream that found its instance and clients for it.
pub record Started {Req : Type 0} (ctx : Context) (incoming : Incoming Req) (pool : BackendPool)
    (clients : BackendClients) (pool' : BackendPool) : Type 0 where
  pub first : MuxRequest Req
  pub rest : Incoming Req
  pub name : String
  pub read : incoming ≡ ok first ∷ rest
  pub named : Names first.target name
  pub connected : clients_for ctx name pool ≡ (ok clients, pool')

module _ {Req : Type 0} (ctx : Context) (pool pool' : BackendPool) where
  stream_start-Started :
      (incoming : Incoming Req) (o : Opened Req)
      → stream_start ctx incoming pool ≡ (ok o, pool')
      → Started ctx incoming pool o.clients pool' × (o.requests ≡ inner_requests incoming)
  unfolding stream_start first_request
  stream_start-Started [] o h = absurd (ground (arith, h))
  stream_start-Started (err e ∷ rest) o h = absurd (ground (arith, h))
  stream_start-Started (ok first ∷ rest) o h = routed (extract_target first.target) refl
    where
      reached :
          (name : String) (c : Result Status BackendClients × BackendPool)
          → extract_target first.target ≡ ok name
          → clients_for ctx name pool ≡ c
          → Started ctx (ok first ∷ rest) pool o.clients pool'
            × (o.requests ≡ inner_requests (ok first ∷ rest))
      reached name (err e, p) t c = absurd (ground (arith, t, c, h))
      reached name (ok clients, p) t c = (
        record {
          first = first;
          rest = rest;
          name = name;
          read = refl;
          named = (extract_target_iff first.target name).0 t;
          connected = ground (arith, t, c, h);
        },
        ground (arith, t, c, h, backend_stream_lem first rest),
      )

      routed :
          (t : Result Status String)
          → extract_target first.target ≡ t
          → Started ctx (ok first ∷ rest) pool o.clients pool'
            × (o.requests ≡ inner_requests (ok first ∷ rest))
      routed (err e) t = absurd (ground (arith, t, h))
      routed (ok name) t = reached name (clients_for ctx name pool) t refl

  Started-stream_start :
      (incoming : Incoming Req) (clients : BackendClients)
      → Started ctx incoming pool clients pool'
      → stream_start ctx incoming pool
        ≡ (ok (record { clients = clients; requests = inner_requests incoming }), pool')
  unfolding stream_start first_request
  Started-stream_start incoming clients st = ground (
    arith,
    st.read,
    (extract_target_iff st.first.target st.name).1 st.named,
    st.connected,
    backend_stream_lem st.first st.rest,
  )

module _ {Req Resp : Type 0} (s : TeiMultiplexerService) (ctx : Context)
    (call : Method → Channel → List Req → Result Status (List (Result Status Resp))) (m : Method)
    (wanted : ℕ) (pool : BackendPool) where
  -- What the client of a stream that goes to `clients` is sent.
  abbrev pub served : BackendClients → Incoming Req → List (Result Status Resp)
  served clients incoming =
      stream_task wanted (call m (client_of m clients) (inner_requests incoming))

  stream_rpc_started :
      (incoming : Incoming Req) (clients : BackendClients) (pool' : BackendPool)
      → Started ctx incoming pool clients pool'
      → stream_rpc s ctx call m wanted incoming pool
        ≡ (channel s.max_parallel_stream_requests (served clients incoming), pool')
  unfolding stream_rpc
  stream_rpc_started incoming clients pool' st =
      ground (arith, Started-stream_start ctx pool pool' incoming clients st)

  served-sent :
      (incoming : Incoming Req) (clients : BackendClients) (msgs : List (MuxRequest Req))
      → Readable msgs incoming
      → served clients incoming ≡ sent wanted (call m (client_of m clients) (given msgs))
  served-sent incoming clients msgs read =
      stream_task-sent wanted _
      ∙ ap (λ reqs. sent wanted (call m (client_of m clients) reqs))
          (inner_requests-Readable msgs incoming read)

  stream_rpc-served_iff :
      (incoming : Incoming Req) (out : List (Result Status Resp)) (pool' : BackendPool)
      → (stream_rpc s ctx call m wanted incoming pool ≡ (replied (ok out), pool')) ↔ (
          (clients : BackendClients) × (0 < s.max_parallel_stream_requests)
          × Started ctx incoming pool clients pool'
          × (out ≡ served clients incoming))
  unfolding stream_rpc channel
  stream_rpc-served_iff incoming out pool' = (
    λ h. opened (stream_start ctx incoming pool) refl h,
    λ (clients, room, st, same).
        ground (arith, room, same, Started-stream_start ctx pool pool' incoming clients st),
  )
    where
      opened :
          (o : Result Status (Opened Req) × BackendPool)
          → stream_start ctx incoming pool ≡ o
          → answer_stream s ctx call m wanted (stream_start ctx incoming pool)
            ≡ (replied (ok out), pool')
          → (clients : BackendClients) × (0 < s.max_parallel_stream_requests)
            × Started ctx incoming pool clients pool'
            × (out ≡ served clients incoming)
      opened (err e, p) k h = absurd (ground (arith, k, h))
      opened (ok o, p) k h =
          let same : p ≡ pool' = ground (arith, k, h) in
          let (st, sent) =
            stream_start-Started ctx pool pool' incoming o (ground (arith, k, same)) in
          (o.clients, ground (arith, k, h), st, ground (arith, k, h, sent))

  -- A stream request is answered with a stream of responses exactly if its first message can be read
  -- and names an instance, the pool has or makes clients for that name, and the channel has room for
  -- at least one message. The backend's method is then called on the inner requests of the messages
  -- before the first that cannot be read, in order. If it answers, the client is sent its responses,
  -- and if it fails, the failure alone, in both cases up to as many as the client stays for. The
  -- timeout plays no part.
  pub stream_rpc_iff :
      (incoming : Incoming Req) (out : List (Result Status Resp)) (pool' : BackendPool)
      → (stream_rpc s ctx call m wanted incoming pool ≡ (replied (ok out), pool')) ↔ (
          (clients : BackendClients) × (0 < s.max_parallel_stream_requests)
          × Started ctx incoming pool clients pool'
          × ((msgs : List (MuxRequest Req)) × Readable msgs incoming
              × (out ≡ sent wanted (call m (client_of m clients) (given msgs)))))
  stream_rpc_iff incoming out pool' = (
    λ h.
        let (clients, room, st, same) = (stream_rpc-served_iff incoming out pool').0 h in
        let (msgs, read) = Readable-exists incoming in
        (clients, room, st, (msgs, read, same ∙ served-sent incoming clients msgs read)),
    λ (clients, room, st, (msgs, read, same)).
        (stream_rpc-served_iff incoming out pool').1
          (clients, room, st, same ∙ sym (served-sent incoming clients msgs read)),
  )

-- The same messages with other targets.
abbrev pub retarget :
    {Req : Type 0} → (Option Target → Option Target) → MuxRequest Req → MuxRequest Req
retarget f req = record req { target = f req.target }

given-retarget :
    {Req : Type 0} (f : Option Target → Option Target) (reqs : List (MuxRequest Req))
    → given (map (retarget f) reqs) ≡ given reqs
given-retarget f [] = refl
given-retarget f (req ∷ reqs) = ground (arith, given-retarget f reqs)

module _ {Req Resp : Type 0} (s : TeiMultiplexerService) (ctx : Context)
    (call : Method → Channel → List Req → Result Status (List (Result Status Resp))) (m : Method)
    (wanted : ℕ) (pool : BackendPool) where
  stream_rpc_first :
      (first : MuxRequest Req) (rest rest' : Incoming Req)
      → inner_requests rest ≡ inner_requests rest'
      → stream_rpc s ctx call m wanted (ok first ∷ rest) pool
        ≡ stream_rpc s ctx call m wanted (ok first ∷ rest') pool
  unfolding stream_rpc stream_start first_request
  stream_rpc_first first rest rest' same =
      let sent : backend_stream first rest ≡ backend_stream first rest' =
        backend_stream-same first rest rest' same in
      rw (sent) refl

  -- A stream that breaks after some messages is served like one that ends there, and the targets of
  -- the messages after the first play no part, even where they name other instances or none.
  pub stream_rpc_cut :
      (f : Option Target → Option Target) (first : MuxRequest Req) (reqs : List (MuxRequest Req))
      (e : String) (rest : Incoming Req)
      → stream_rpc s ctx call m wanted (ok first ∷ (map ok reqs ++ (err e ∷ rest))) pool
        ≡ stream_rpc s ctx call m wanted (ok first ∷ map ok (map (retarget f) reqs)) pool
  stream_rpc_cut f first reqs e rest = stream_rpc_first first _ _ (
      rw
        (
          inner_requests-err reqs e rest,
          inner_requests-map (map (retarget f) reqs),
          given-retarget f reqs,
        )
        refl)
