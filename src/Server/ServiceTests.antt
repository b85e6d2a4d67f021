-- ===== src/Server/ServiceTests.antt =====
-- src/server.c: logins, packets and hangups, of clients of the same small system.
use bourse_server.Base.{◌≡◌, refl, true, some, none, [], pos, done}
use bourse_server.Protocol.Types.{zero_header}
use bourse_server.Trader.{put}
use bourse_server.Trader.Tests.{alice, with_alice, zeros, live}
use bourse_server.Server.Exchange.{Market}
use bourse_server.Protocol.Types.{PacketHeader}
use bourse_server.Registry.Tests.{one_client, real}
use bourse_server.Trader.{held, find_named, update, update_self, at}
use bourse_server.Server.State.{Server, Locals}
use bourse_server.Server.Service.{service_loop}
use bourse_server.Server.Incoming.{ReadsNothing}
use bourse_server.Server.Hangup.{serve_one-end}
use bourse_server.Protocol.ByteOrder.{htons, ntohs}
use bourse_server.Protocol.Types.{type_code, nack_pkt}
use bourse_server.Trader.{Traders, trader_login}
use bourse_server.Trader.Login.{login_returning, login_again}
use bourse_server.Trader.Tests.{alice_out, found, found_out}
use bourse_server.Base.{length}
use bourse_server.Server.Tests.{no_orders, small_system}

-- Every client has hung up.
abbrev closed_market : Market (Unit {0})
closed_market = record {
  traders = record (with_alice alice) {
    wire = record { incoming = λ fd. []; outgoing = λ fd. [] };
  };
  book = tt;
}

pub no_orders-ReadsNothing : ReadsNothing no_orders
no_orders-ReadsNothing = record {
  status = λ info. record { kept = λ m. refl };
  buy = λ p quantity price. record { kept = λ m. refl };
  sell = λ p quantity price. record { kept = λ m. refl };
  cancel = λ p order quantity. record { kept = λ m. refl };
}

abbrev pub no_locals : Locals
no_locals = record { this_trader = none; payload = none }

-- A packet with the type LOGIN.
abbrev login_header : PacketHeader
login_header = record zero_header { type = 1 }

alice_found :
    find_named (closed_market.traders.heap) (closed_market.traders.all_traders) 0 alice.name
    ≡ at 0 7
unfolding find_named update
alice_found = refl

abbrev running : Server (Unit {0})
running = record { market = closed_market; registry = one_client }

closed_loop :
    service_loop small_system 1 1 (pos 4) no_locals closed_market ≡ done true closed_market
unfolding service_loop
closed_loop =
    rw
      (serve_one-end small_system 1 (pos 4)
        (λ n w. record { result = refl; bytes = refl; wire = refl }) none closed_market refl)
      refl

-- A LOGIN packet with a name of one byte.
abbrev pub name_header : PacketHeader
name_header = record zero_header { type = 1; size = 256 }

one_byte : length alice.name ≡ ntohs name_header.size
unfolding ntohs
one_byte = refl

abbrev pub out_market : Market (Unit {0})
out_market = record { traders = with_alice alice_out; book = tt }

abbrev alice_back : Traders
alice_back = put 7 (record alice { fd = pos 9 }) (with_alice alice_out)

back : trader_login zeros 1 (pos 9) alice.name (with_alice alice_out) ≡ done (some 7) alice_back
back =
    login_returning zeros 1 7 0 (with_alice alice_out) alice_out (held 1 0) (pos 9) alice.name
      found_out (live alice_out) refl refl

back_live : alice_back.heap 7 ≡ some (record alice { fd = pos 9 })
back_live = update_self (with_alice alice_out).heap 7 _

abbrev pub named : Locals
named = record { this_trader = none; payload = some alice.name }

abbrev alice_counted : Traders
alice_counted = put 7 (record alice { ref = pos 3 }) (with_alice alice)

again : trader_login zeros 1 (pos 9) alice.name (with_alice alice) ≡ done none alice_counted
again =
    login_again zeros 1 7 0 (with_alice alice) alice (held 1 0) (pos 9) alice.name found
      (live alice) refl (real 4)

abbrev refusal : PacketHeader
refusal = record zero_header { type = type_code nack_pkt; size = htons 0 }
