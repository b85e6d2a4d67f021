-- ===== src/Server/Tests.antt =====
-- src/server.c: requests of a trader who is logged in.
use bourse_server.Base.{
  ℕ, ◌-◌, ◌≡◌, ◌≢◌, ◌≤◌, ◌<◌, refl, ◌⊎◌, some, List, [], ◌∷◌, ◌++◌, pos, minus_one, done, arith,
}
use bourse_server.Protocol.ByteOrder.{ntohl}
use bourse_server.Protocol.Types.{StatusInfo, word32, zero_header}
use bourse_server.Protocol.Tests.{open_rio, five}
use bourse_server.Registry.Tests.{posix_sems}
use bourse_server.Trader.{put}
use bourse_server.Trader.Tests.{alice, with_alice, zeros, live}
use bourse_server.Server.Exchange.{Market, Exchange}
use bourse_server.Server.State.{System}
use bourse_server.Server.Requests.{withdraw_request}
use bourse_server.Server.Requests.{buy_request}
use bourse_server.Server.Orders.{buy_request_lem}
use bourse_server.Server.Accounts.{Acked, Nacked, withdraw_request_lem}

-- Takes no order, and knows of none.
abbrev pub no_orders : Exchange (Unit {0})
no_orders = record {
  exchange_get_status = λ info m. done info m;
  exchange_post_buy = λ p quantity price m. done 0 m;
  exchange_post_sell = λ p quantity price m. done 0 m;
  exchange_cancel = λ p order quantity m. done (minus_one, quantity) m;
}

-- Takes every order to buy, and cancels 3 of any order.
abbrev keen : Exchange (Unit {0})
keen = record no_orders {
  exchange_post_buy = λ p quantity price m. done 9 m;
  exchange_cancel = λ p order quantity m. done (pos 0, 3) m;
}

abbrev pub blank : StatusInfo
blank = record { balance = 0; inventory = 0; bid = 0; ask = 0; last = 0; orderid = 0; quantity = 0 }

abbrev pub small_system : System (Unit {0})
small_system = record {
  sems = posix_sems;
  rio = open_rio;
  exchange = no_orders;
  junk = zeros;
  stack_header = zero_header;
  stack_info = blank;
  stack_quantity = 0;
}

abbrev keen_system : System (Unit {0})
keen_system = record small_system { exchange = keen }

abbrev pub alice_market : Market (Unit {0})
alice_market = record { traders = with_alice alice; book = tt }

abbrev alice_with : ℕ → Market (Unit {0})
alice_with n = record alice_market {
  traders = put 7 (record alice { balance = n }) (with_alice alice);
}

withdraw_request_example :
    ((ntohl (word32 five 0) ≤ 100)
      × Acked small_system 1 7
          (record alice { balance = 100 - ntohl (word32 five 0) })
          (alice_with (100 - ntohl (word32 five 0)))
          blank
          (withdraw_request small_system 1 7 (some five) alice_market))
    ⊎ ((100 < ntohl (word32 five 0))
        × Nacked small_system 1 7 alice alice_market
            (withdraw_request small_system 1 7 (some five) alice_market))
withdraw_request_example =
    withdraw_request_lem small_system 1 7 five alice_market alice (live alice) refl
      (λ info m. (info, refl)) (omega arith)

-- An order of 5 at the price 0.
abbrev order_block : List ℕ
order_block = five ++ 0 ∷ 0 ∷ 0 ∷ 0 ∷ []

abbrev order_9 : ℕ
order_9 = 9

abbrev no_order : ℕ
no_order = 0

abbrev with_stock : ℕ → Market (Unit {0})
with_stock n = record alice_market {
  traders = put 7 (record alice { inventory = n }) (with_alice alice);
}

buy_request_example :
    ((order_9 ≡ 0)
      × Nacked keen_system 1 7 alice alice_market
          (buy_request keen_system 1 7 (some order_block) alice_market))
    ⊎ ((order_9 ≢ 0)
        × Acked keen_system 1 7 alice alice_market
            (record blank { orderid = order_9 })
            (buy_request keen_system 1 7 (some order_block) alice_market))
buy_request_example =
    buy_request_lem keen_system 1 7 order_block alice_market alice_market alice (live alice) refl
      (λ info m. (info, refl)) order_9 (omega arith) refl
