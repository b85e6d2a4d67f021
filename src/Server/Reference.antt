-- ===== src/Server/Reference.antt =====
-- include/protocol.h: what the server does for each request, in the terms of the protocol. A request
-- has an effect and an answer; no bytes, packet types or byte order.
use bourse_server.Base.{
  ℕ, Bool, true, false, Option, none, some, ℤ, pos, int_eq, M, pure, ◌>>=◌, ◌>>◌, ◌==◌, not,
}
use bourse_server.Protocol.{proto_send_packet}
use bourse_server.Protocol.ByteOrder.{htons}
use bourse_server.Protocol.Types.{StatusInfo, type_code, nack_pkt}
use bourse_server.Protocol.Messages.{
  Request, login, status, deposit, withdraw, escrow, release, buy, sell, cancel, Answer, ack, nack,
}
use bourse_server.Trader.{
  on_wire, trader_send_ack, trader_send_nack, trader_login, trader_increase_balance,
  trader_decrease_balance, trader_increase_inventory, trader_decrease_inventory,
}
use bourse_server.Server.Exchange.{Market}
use bourse_server.Server.State.{System, on_traders, c_string}

module _ {X : Type 0} (sys : System X) (me : ℕ) where
  open sys use {exchange, stack_info, stack_quantity}
  open exchange use {exchange_get_status, exchange_post_buy, exchange_post_sell, exchange_cancel}

  -- "ACK: sent in response to a successful request. NACK: sent in response to a failed request."
  abbrev pub answer_if : Bool → StatusInfo → Answer
  answer_if true info = ack (some info)
  answer_if false info = nack

  -- The answer to a request, with the status of the exchange behind its effect.
  abbrev pub status_after : Bool → StatusInfo → M (Market X) Answer
  status_after ok info₀ = exchange_get_status info₀ >>= λ info. pure (answer_if ok info)

  -- The effect of a request of the trader at `p`, who is logged in, and the answer to it.
  unfoldable pub answer_to : ℕ → Request → M (Market X) Answer
  answer_to p (login name) = pure nack
  answer_to p status = status_after true stack_info
  answer_to p (deposit amount) =
      on_traders (trader_increase_balance me p amount) >>= λ _. status_after true stack_info
  answer_to p (withdraw amount) = on_traders (trader_decrease_balance me p amount) >>= λ r.
      status_after (int_eq r (pos 0)) stack_info
  answer_to p (escrow quantity) =
      on_traders (trader_increase_inventory me p quantity) >>= λ _. status_after true stack_info
  answer_to p (release quantity) = on_traders (trader_decrease_inventory me p quantity) >>= λ r.
      status_after (int_eq r (pos 0)) stack_info
  answer_to p (buy quantity price) = exchange_post_buy p quantity price >>= λ order.
      status_after (not (order == 0)) (record stack_info { orderid = order })
  answer_to p (sell quantity price) = exchange_post_sell p quantity price >>= λ order.
      status_after (not (order == 0)) (record stack_info { orderid = order })
  answer_to p (cancel order) = exchange_cancel p order stack_quantity >>= λ r.
      status_after (int_eq r.0 (pos 0)) (record stack_info { quantity = r.1 })

  -- An answer on its way to the client.
  abbrev pub answer_with : ℕ → Answer → M (Market X) ℤ
  answer_with p (ack info) = on_traders (trader_send_ack sys.rio sys.stack_header me p info)
  answer_with p nack = on_traders (trader_send_nack sys.rio sys.stack_header me p)

  -- A request from its arrival to its answer.
  unfoldable pub serve : ℕ → Request → M (Market X) ℤ
  unfolding answer_to
  serve p r = answer_to p r >>= answer_with p

  -- The answer to a LOGIN, and who is logged in behind it: a NACK over the connection, which has no
  -- trader, or an ACK to the trader.
  abbrev pub greet : ℤ → Option ℕ → M (Market X) (Option ℕ)
  greet fd none =
      on_traders (
        on_wire (
          proto_send_packet sys.rio fd
            (record sys.stack_header { type = type_code nack_pkt; size = htons 0 }) none))
      >>= λ _. pure none
  greet fd (some p) =
      on_traders (trader_send_ack sys.rio sys.stack_header me p none) >>= λ _. pure (some p)

  -- A request of a client who is not logged in: "only LOGIN packets will be honored".
  abbrev pub admit : ℤ → Request → M (Market X) (Option ℕ)
  admit fd (login name) = on_traders (trader_login sys.junk me fd (c_string name)) >>= greet fd
  admit fd status = pure none
  admit fd (deposit amount) = pure none
  admit fd (withdraw amount) = pure none
  admit fd (escrow quantity) = pure none
  admit fd (release quantity) = pure none
  admit fd (buy quantity price) = pure none
  admit fd (sell quantity price) = pure none
  admit fd (cancel order) = pure none

  -- A request of a client, and who is logged in behind it.
  unfoldable pub serve_as : ℤ → Option ℕ → Request → M (Market X) (Option ℕ)
  unfolding serve
  serve_as fd none r = admit fd r
  serve_as fd (some p) r = serve p r >> pure (some p)
