-- ===== src/Server/SessionTests.antt =====
-- src/server.c: a session of one client, beside the reference.
use mathlib.Core.List.{Perm}
use bourse_server.Base.{◌≢◌, minus_one}
use bourse_server.Registry.{ClientRegistry}
use bourse_server.Registry.Contents.{registered}
use bourse_server.Registry.Invariant.{Inv}
use bourse_server.Registry.Tests.{one_client, one_client-Inv}
use bourse_server.Server.State.{Server}
use bourse_server.Server.Service.{brs_client_service}
use bourse_server.Server.Thread.{outcome_of, brs_client_service-converse}
use bourse_server.Base.{
  ◌≡◌, ◌<◌, refl, ◌⊎◌, true, none, some, List, [], ◌∷◌, ◌++◌, pos, done, blocked, fault, pure,
  ◌>>=◌, arith,
}
use bourse_server.Protocol.Types.{header_bytes}
use bourse_server.Protocol.Messages.{
  Request, login, deposit, withdraw, request_payload, request_header,
}
use bourse_server.Trader.Tests.{alice, with_alice}
use bourse_server.Server.Exchange.{Market}
use bourse_server.Server.State.{Locals}
use bourse_server.Server.Service.{serve_one, service_loop}
use bourse_server.Server.Reference.{serve_as}
use bourse_server.Server.Rounds.{serve_one-request, locals_as, left_to_read}
use bourse_server.Server.Conversation.{Sent, packets, converse, service_loop-converse}
use bourse_server.Server.Session.{Gated, handle-Gated}
use bourse_server.Server.Loop.{Finished, service_loop_lem}
use bourse_server.Server.Termination.{left}
use bourse_server.Server.Tests.{small_system, alice_market}
use bourse_server.Server.ServiceTests.{
  no_orders-ReadsNothing, no_locals, named, name_header, out_market,
}

-- The client has sent a request to withdraw 30, and then 2 bytes more.
abbrev asked : Request
asked = withdraw 30

abbrev asked_market : Market (Unit {0})
asked_market = record alice_market {
  traders = record (with_alice alice) {
    wire = record {
      incoming =
          λ fd. header_bytes (request_header asked 1 2) ++ (request_payload asked ++ 1 ∷ 2 ∷ []);
      outgoing = λ fd. [];
    };
  };
}

abbrev at_desk : Locals
at_desk = record { this_trader = some 7; payload = none }

serve_one-request_example :
    serve_one small_system 1 (pos 4) at_desk asked_market
    ≡ (serve_as small_system 1 (pos 4) (some 7) asked >>= λ t. pure (some (locals_as t asked none)))
        (left_to_read (pos 4) (1 ∷ 2 ∷ []) asked_market)
serve_one-request_example =
    serve_one-request small_system 1 (pos 4)
      (λ n w. record { result = refl; bytes = refl; wire = refl }) (some 7) none asked 1 2
      (1 ∷ 2 ∷ []) asked_market (omega arith) refl

-- A login and a deposit, and the end of the connection.
abbrev visit : List Sent
visit =
    record { request = login alice.name; sec = 1; nsec = 2 }
    ∷ record { request = deposit 5; sec = 3; nsec = 4 }
    ∷ []

abbrev visited_market : Market (Unit {0})
visited_market = record out_market {
  traders = record out_market.traders {
    wire = record { incoming = λ fd. packets visit; outgoing = λ fd. [] };
  };
}

service_loop-converse_example :
    service_loop small_system 1 3 (pos 4) no_locals visited_market
    ≡ converse small_system 1 (pos 4) visit none visited_market
service_loop-converse_example =
    service_loop-converse small_system 1 (pos 4)
      (λ n w. record { result = refl; bytes = refl; wire = refl }) no_orders-ReadsNothing visit 3
      none none visited_market (omega arith, (omega arith, tt)) (omega arith) refl

few : left (pos 4) alice_market < 18
unfolding header_bytes
few = omega arith

service_loop_example :
    (service_loop small_system 1 18 (pos 4) no_locals alice_market ≡ fault)
    ⊎ (((m : Market (Unit {0})) × (service_loop small_system 1 18 (pos 4) no_locals alice_market
            ≡ blocked m))
        ⊎ ((m : Market (Unit {0})) × (service_loop small_system 1 18 (pos 4) no_locals alice_market
              ≡ done true m)
            × Finished small_system 1 (pos 4) no_locals alice_market m))
service_loop_example =
    service_loop_lem small_system 1 (pos 4) 18 no_locals alice_market no_orders-ReadsNothing
      (λ n w. record { result = refl; bytes = refl; wire = refl }) few

handle-Gated_example : Gated small_system 1 (pos 9) name_header none named.payload out_market
handle-Gated_example = handle-Gated small_system 1 (pos 9) name_header none named.payload out_market

-- The thread of that session, in a registry with one other client.
abbrev visiting : Server (Unit {0})
visiting = record { market = visited_market; registry = one_client }

brs_client_service-converse_example :
    (during after : ClientRegistry) × (brs_client_service small_system 1 3 (pos 4) visiting
      ≡ outcome_of during after (converse small_system 1 (pos 4) visit none visited_market))
    × Inv during
    × Perm (registered during.fds) (pos 4 ∷ pos 5 ∷ [])
    × Inv after
    × Perm (registered after.fds) (pos 5 ∷ [])
brs_client_service-converse_example =
    brs_client_service-converse small_system 1 (pos 4)
      (λ n w. record { result = refl; bytes = refl; wire = refl }) no_orders-ReadsNothing visit 3
      visiting one_client-Inv real_4 (omega arith) (omega arith, (omega arith, tt)) (omega arith)
      refl
  where
    real_4 : pos 4 ≢ minus_one
    real_4 e = cc
