-- ===== src/Multiplexer/Tests.antt =====
-- Runs of the handlers of src/grpc/multiplexer.rs, and theorems about them at concrete inputs.
use tei_manager.Base.{
  ℕ, ◌+◌, ◌≡◌, refl, Option, none, some, List, [], ◌∷◌, map, arith, str_eq_iff, Result, ok, err,
}
use tei_manager.Base.Dict.{lookup}
use tei_manager.Pool.{BackendPool, BackendClients, Channel, Status, clients_of, get_clients}
use tei_manager.Pool.Tests.{answers, one_connection}
use tei_manager.Registry.Tests.{empty}
use tei_manager.Multiplexer.{
  Target, Routing, TeiMultiplexerService, Future, Method, MuxRequest, Context, clients_for, unary,
  Incoming, replied, stream_rpc,
}
use tei_manager.Multiplexer.Routes.{Names, unary_iff}
use tei_manager.Multiplexer.Streams.{Started, stream_rpc_iff, stream_rpc_cut}

abbrev pub ctx : Context
ctx = record { connect = answers; registry = empty; now = 9 }

abbrev service : ℕ → TeiMultiplexerService
service room = record { max_parallel_stream_requests = room; request_timeout = some 30 }

abbrev pub to_a : Option Target
to_a = some (record { routing = some (Routing.instance_name "a") })

abbrev backend : Method → Channel → ℕ → Future ℕ
backend m c n = record { took = 2; output = ok (n + 1) }

abbrev request : ℕ → MuxRequest ℕ
request n = record { target = to_a; request = some n }

abbrev pub clients : BackendClients
clients = clients_of (record { port = 8080 })

pub a_named : Names to_a "a"
a_named = (refl, λ e. ground (arith, (str_eq_iff "a" "").1 e))

abbrev pub used : BackendPool
used = (clients_for ctx "a" one_connection).1

pub connected : clients_for ctx "a" one_connection ≡ (ok clients, used)
unfolding get_clients lookup
connected = refl

unary_iff_example :
    unary (service 4) ctx backend Method.rerank "Missing" (request 7) one_connection ≡ (ok 8, used)
unary_iff_example =
    (unary_iff (service 4) ctx backend Method.rerank "Missing" (request 7) one_connection used 8).1
      (record {
        name = "a";
        inner = 7;
        clients = clients;
        named = a_named;
        given = refl;
        connected = connected;
        response = refl;
        in_time = omega arith;
      })

abbrev stream_backend : Method → Channel → List ℕ → Result Status (List (Result Status ℕ))
stream_backend m c xs = ok (map ok xs)

abbrev stream : Incoming ℕ
stream =
    ok (request 1)
    ∷ ok (record { target = none; request = some 2 })
    ∷ err "reset"
    ∷ ok (request 3)
    ∷ []

started : Started ctx stream one_connection clients used
started = record {
  first = request 1;
  rest = ok (record { target = none; request = some 2 }) ∷ err "reset" ∷ ok (request 3) ∷ [];
  name = "a";
  read = refl;
  named = a_named;
  connected = connected;
}

stream_rpc_iff_example :
    stream_rpc (service 4) ctx stream_backend Method.embed 5 stream one_connection
    ≡ (replied (ok (ok 1 ∷ ok 2 ∷ [])), used)
stream_rpc_iff_example =
    (stream_rpc_iff (service 4) ctx stream_backend Method.embed 5 one_connection stream
        (ok 1 ∷ ok 2 ∷ []) used).1
      (
        clients,
        omega arith,
        started,
        (
          request 1 ∷ record { target = none; request = some 2 } ∷ [],
          (err "reset" ∷ ok (request 3) ∷ [], refl, tt),
          refl,
        ),
      )

abbrev to_nobody : Option Target → Option Target
to_nobody t = none

stream_rpc_cut_example :
    stream_rpc
      (service 4)
      ctx
      stream_backend
      Method.embed
      5
      (ok (request 1) ∷ ok (request 2) ∷ err "reset" ∷ ok (request 3) ∷ [])
      one_connection
    ≡ stream_rpc
        (service 4)
        ctx
        stream_backend
        Method.embed
        5
        (ok (request 1) ∷ ok (record { target = none; request = some 2 }) ∷ [])
        one_connection
stream_rpc_cut_example =
    stream_rpc_cut (service 4) ctx stream_backend Method.embed 5 one_connection to_nobody
      (request 1) (request 2 ∷ []) "reset" (ok (request 3) ∷ [])
