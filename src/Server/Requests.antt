-- ===== src/Server/Requests.antt =====
-- src/server.c: what one packet of a client makes the service thread do.
use bourse_server.Base.{
  ℕ, Bool, Option, none, some, List, ℤ, pos, int_eq, M, pure, ◌>>=◌, ◌>>◌, ◌==◌, if◌then◌else◌,
}
use bourse_server.Protocol.{proto_send_packet}
use bourse_server.Protocol.ByteOrder.{htons, ntohs, ntohl}
use bourse_server.Protocol.Payloads.{funds_info, escrow_info, order_info, cancel_info}
use bourse_server.Protocol.Types.{
  PacketHeader, StatusInfo, type_code, no_pkt, login_pkt, status_pkt, deposit_pkt, withdraw_pkt,
  escrow_pkt, release_pkt, buy_pkt, sell_pkt, cancel_pkt, nack_pkt,
}
use bourse_server.Trader.{
  on_wire, trader_login, trader_send_ack, trader_send_nack, trader_increase_balance,
  trader_decrease_balance, trader_increase_inventory, trader_decrease_inventory,
}
use bourse_server.Server.Exchange.{Market}
use bourse_server.Server.State.{System, Locals, on_traders, read_info, copy_payload, c_string}

module _ {X : Type 0} (sys : System X) (me : ℕ) where
  open sys use {rio, exchange, junk, stack_header, stack_info, stack_quantity}
  open exchange use {exchange_get_status, exchange_post_buy, exchange_post_sell, exchange_cancel}

  abbrev pub send_ack : ℕ → Option StatusInfo → M (Market X) ℤ
  send_ack p info = on_traders (trader_send_ack rio stack_header me p info)

  abbrev pub send_nack : ℕ → M (Market X) ℤ
  send_nack p = on_traders (trader_send_nack rio stack_header me p)

  -- `alreadyRegistred`.
  unfoldable pub already_registred : ℤ → M (Market X) (ℤ × PacketHeader)
  already_registred fd = on_traders (
      on_wire (
        proto_send_packet rio fd (record stack_header { type = type_code nack_pkt; size = htons 0 })
          none))

  abbrev pub ack_if : Bool → ℕ → StatusInfo → M (Market X) ℤ
  ack_if ok p info = if ok then send_ack p (some info) else send_nack p

  unfoldable pub status_request : ℕ → M (Market X) ℤ
  status_request p = do info ← exchange_get_status stack_info; send_ack p (some info)

  unfoldable pub deposit_request : ℕ → Option (List ℕ) → M (Market X) ℤ
  deposit_request p payload = do
    info_f ← read_info 4 funds_info payload
    on_traders (trader_increase_balance me p (ntohl info_f.amount))
    info ← exchange_get_status stack_info
    send_ack p (some info)

  unfoldable pub withdraw_request : ℕ → Option (List ℕ) → M (Market X) ℤ
  withdraw_request p payload = do
    info_f ← read_info 4 funds_info payload
    what_happened ← on_traders (trader_decrease_balance me p (ntohl info_f.amount))
    info ← exchange_get_status stack_info
    ack_if (int_eq what_happened (pos 0)) p info

  unfoldable pub escrow_request : ℕ → Option (List ℕ) → M (Market X) ℤ
  escrow_request p payload = do
    info_e ← read_info 4 escrow_info payload
    on_traders (trader_increase_inventory me p (ntohl info_e.quantity))
    info ← exchange_get_status stack_info
    send_ack p (some info)

  unfoldable pub release_request : ℕ → Option (List ℕ) → M (Market X) ℤ
  release_request p payload = do
    info_e ← read_info 4 escrow_info payload
    what_happened ← on_traders (trader_decrease_inventory me p (ntohl info_e.quantity))
    info ← exchange_get_status stack_info
    ack_if (int_eq what_happened (pos 0)) p info

  -- An order id of 0 is a failure. The id goes into the answer as it is, not byte-swapped.
  unfoldable pub buy_request : ℕ → Option (List ℕ) → M (Market X) ℤ
  buy_request p payload = do
    info_o ← read_info 8 order_info payload
    order_id ← exchange_post_buy p (ntohl info_o.quantity) (ntohl info_o.price)
    info ← exchange_get_status (record stack_info { orderid = order_id })
    if order_id == 0 then send_nack p else send_ack p (some info)

  unfoldable pub sell_request : ℕ → Option (List ℕ) → M (Market X) ℤ
  sell_request p payload = do
    info_o ← read_info 8 order_info payload
    order_id ← exchange_post_sell p (ntohl info_o.quantity) (ntohl info_o.price)
    info ← exchange_get_status (record stack_info { orderid = order_id })
    if order_id == 0 then send_nack p else send_ack p (some info)

  unfoldable pub cancel_request : ℕ → Option (List ℕ) → M (Market X) ℤ
  cancel_request p payload = do
    info_o ← read_info 4 cancel_info payload
    (what_happened, quantity) ← exchange_cancel p (ntohl info_o.order) stack_quantity
    info ← exchange_get_status (record stack_info { quantity = quantity })
    ack_if (int_eq what_happened (pos 0)) p info

  -- The requests of a trader who is logged in, by the type of the packet; any other type is
  -- passed over with no answer.
  unfoldable pub request : ℕ → ℕ → Option (List ℕ) → M (Market X) ℤ
  unfolding status_request deposit_request withdraw_request escrow_request release_request
      buy_request sell_request cancel_request
  request type p payload =
      if type == type_code status_pkt
      then status_request p
      else if type == type_code deposit_pkt
      then deposit_request p payload
      else if type == type_code withdraw_pkt
      then withdraw_request p payload
      else if type == type_code escrow_pkt
      then escrow_request p payload
      else if type == type_code release_pkt
      then release_request p payload
      else if type == type_code buy_pkt
      then buy_request p payload
      else if type == type_code sell_pkt
      then sell_request p payload
      else if type == type_code cancel_pkt
      then cancel_request p payload
      else pure (pos 0)

  -- The end of a login: an answer, and the trader that the thread serves from then on.
  abbrev pub login_answer : ℤ → Option ℕ → M (Market X) (Option ℕ)
  login_answer fd none = already_registred fd >> pure none
  login_answer fd (some p) = send_ack p none >> pure (some p)

  unfoldable pub login_request : ℤ → PacketHeader → Locals → M (Market X) Locals
  unfolding already_registred
  login_request fd hdr locals = do
    bytes ← copy_payload locals.payload (ntohs hdr.size)
    trader ← on_traders (trader_login junk me fd (c_string bytes))
    this_trader ← login_answer fd trader
    pure (record locals { this_trader = this_trader })

  -- The packets of a client who is logged in, and of one who is not.
  abbrev pub handle_as : Option ℕ → ℤ → PacketHeader → Locals → M (Market X) Locals
  handle_as (some p) fd hdr locals =
      if hdr.type == type_code no_pkt
      then pure locals
      else if hdr.type == type_code login_pkt
      then (send_nack p >> pure locals)
      else (request hdr.type p locals.payload >> pure locals)
  handle_as none fd hdr locals =
      if hdr.type == type_code no_pkt
      then pure locals
      else if hdr.type == type_code login_pkt
      then login_request fd hdr locals
      else pure locals

  unfoldable pub handle : ℤ → PacketHeader → Locals → M (Market X) Locals
  unfolding login_request request
  handle fd hdr locals = handle_as locals.this_trader fd hdr locals
