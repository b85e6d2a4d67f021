-- ===== src/Server/Incoming.antt =====
-- src/server.c: the handling of a packet takes nothing more from the connections.
use bourse_server.Base.{
  ℕ, Bool, Option, some, none, List, ℤ, pos, int_eq, M, Outcome, done, blocked, fault, arith,
  IsKept, Keeps, bind-Keeps, if-Keeps, pure-Keeps, fault-Keeps, ◌==◌,
}
use bourse_server.Protocol.ByteOrder.{ntohs, ntohl}
use bourse_server.Protocol.Payloads.{funds_info, escrow_info, order_info, cancel_info}
use bourse_server.Protocol.Types.{
  PacketHeader, StatusInfo, type_code, no_pkt, login_pkt, status_pkt, deposit_pkt, withdraw_pkt,
  escrow_pkt, release_pkt, buy_pkt, sell_pkt, cancel_pkt,
}
use bourse_server.Trader.{Traders}
use bourse_server.Trader.Incoming.{
  incoming, on_wire-send-Keeps, trader_login-Keeps, trader_send_ack-Keeps, trader_send_nack-Keeps,
  trader_increase_balance-Keeps, trader_decrease_balance-Keeps, trader_increase_inventory-Keeps,
  trader_decrease_inventory-Keeps,
}
use bourse_server.Server.Exchange.{Market, Exchange}
use bourse_server.Server.State.{
  System, Locals, on_traders, in_traders, read_info, copy_payload, c_string,
}
use bourse_server.Server.Requests.{
  send_ack, send_nack, ack_if, request, handle, login_request, login_answer, already_registred,
  handle_as,
}

abbrev pub market_incoming : {X : Type 0} → Market X → ℤ → List ℕ
market_incoming m = m.traders.wire.incoming

-- The exchange sends to its traders, and reads from none of them.
pub record ReadsNothing {X : Type 0} (exchange : Exchange X) : Type 0 where
  pub status : (info : StatusInfo) → Keeps market_incoming (exchange.exchange_get_status info)
  pub buy :
      (p quantity price : ℕ) → Keeps market_incoming (exchange.exchange_post_buy p quantity price)
  pub sell :
      (p quantity price : ℕ) → Keeps market_incoming (exchange.exchange_post_sell p quantity price)
  pub cancel :
      (p order quantity : ℕ) → Keeps market_incoming (exchange.exchange_cancel p order quantity)

on_traders-IsKept :
    {X A : Type 0} (s : Market X) (o : Outcome Traders A)
    → IsKept incoming (market_incoming s) o
    → IsKept market_incoming (market_incoming s) (in_traders s o)
on_traders-IsKept s (done a t) e = e
on_traders-IsKept s (blocked t) e = tt
on_traders-IsKept s fault e = tt

pub on_traders-Keeps :
    {X A : Type 0} (m : M Traders A)
    → Keeps incoming m
    → Keeps {S = Market X} market_incoming (on_traders m)
on_traders-Keeps m k = record { kept = λ s. on_traders-IsKept s (m s.traders) (k.kept s.traders) }

read_info-Keeps :
    {X A : Type 0} (size : ℕ) (info : List ℕ → A) (payload : Option (List ℕ))
    → Keeps {S = Market X} market_incoming (read_info size info payload)
read_info-Keeps size info none = fault-Keeps
read_info-Keeps size info (some block) = record { kept = λ s. ground arith }

copy_payload-Keeps :
    {X : Type 0} (payload : Option (List ℕ)) (n : ℕ)
    → Keeps {S = Market X} market_incoming (copy_payload payload n)
copy_payload-Keeps none n = record { kept = λ s. ground arith }
copy_payload-Keeps (some block) n = record { kept = λ s. ground arith }

module _ {X : Type 0} (sys : System X) (me : ℕ) (quiet : ReadsNothing (sys.exchange)) where
  open sys use {rio, exchange, junk, stack_header, stack_info, stack_quantity}

  send_ack-Keeps :
      (p : ℕ) (info : Option StatusInfo) → Keeps market_incoming (send_ack sys me p info)
  send_ack-Keeps p info = on_traders-Keeps _ (trader_send_ack-Keeps rio me stack_header p info)

  send_nack-Keeps : (p : ℕ) → Keeps market_incoming (send_nack sys me p)
  send_nack-Keeps p = on_traders-Keeps _ (trader_send_nack-Keeps rio me stack_header p)

  ack_if-Keeps :
      (ok : Bool) (p : ℕ) (info : StatusInfo) → Keeps market_incoming (ack_if sys me ok p info)
  ack_if-Keeps ok p info = if-Keeps ok (send_ack-Keeps p (some info)) (send_nack-Keeps p)

  -- The requests of a trader, whatever the type of the packet.
  request-Keeps :
      (type p : ℕ) (payload : Option (List ℕ))
      → Keeps market_incoming (request sys me type p payload)
  unfolding request
  request-Keeps type p payload =
      if-Keeps (type == type_code status_pkt)
        (bind-Keeps (quiet.status stack_info) λ info. send_ack-Keeps p (some info))
        (if-Keeps (type == type_code deposit_pkt)
          (bind-Keeps (read_info-Keeps 4 funds_info payload) λ info_f.
            bind-Keeps
              (on_traders-Keeps _ (trader_increase_balance-Keeps me p (ntohl info_f.amount)))
              λ _. bind-Keeps (quiet.status stack_info) λ info. send_ack-Keeps p (some info))
          (if-Keeps (type == type_code withdraw_pkt)
            (bind-Keeps (read_info-Keeps 4 funds_info payload) λ info_f.
              bind-Keeps
                (on_traders-Keeps _ (trader_decrease_balance-Keeps me p (ntohl info_f.amount)))
                λ r.
                  bind-Keeps (quiet.status stack_info)
                    λ info. ack_if-Keeps (int_eq r (pos 0)) p info)
            (if-Keeps (type == type_code escrow_pkt)
              (bind-Keeps (read_info-Keeps 4 escrow_info payload) λ info_e.
                bind-Keeps
                  (on_traders-Keeps _
                    (trader_increase_inventory-Keeps me p (ntohl info_e.quantity)))
                  λ _. bind-Keeps (quiet.status stack_info) λ info. send_ack-Keeps p (some info))
              (if-Keeps (type == type_code release_pkt)
                (bind-Keeps (read_info-Keeps 4 escrow_info payload) λ info_e.
                  bind-Keeps
                    (on_traders-Keeps _
                      (trader_decrease_inventory-Keeps me p (ntohl info_e.quantity)))
                    λ r.
                      bind-Keeps (quiet.status stack_info)
                        λ info. ack_if-Keeps (int_eq r (pos 0)) p info)
                (if-Keeps (type == type_code buy_pkt)
                  (bind-Keeps (read_info-Keeps 8 order_info payload) λ info_o.
                    bind-Keeps (quiet.buy p (ntohl info_o.quantity) (ntohl info_o.price)) λ id.
                      bind-Keeps (quiet.status _) λ info.
                        if-Keeps (id == 0) (send_nack-Keeps p) (send_ack-Keeps p (some info)))
                  (if-Keeps (type == type_code sell_pkt)
                    (bind-Keeps (read_info-Keeps 8 order_info payload) λ info_o.
                      bind-Keeps (quiet.sell p (ntohl info_o.quantity) (ntohl info_o.price)) λ id.
                        bind-Keeps (quiet.status _) λ info.
                          if-Keeps (id == 0) (send_nack-Keeps p) (send_ack-Keeps p (some info)))
                    (if-Keeps (type == type_code cancel_pkt)
                      (bind-Keeps (read_info-Keeps 4 cancel_info payload) λ info_c.
                        bind-Keeps (quiet.cancel p (ntohl info_c.order) stack_quantity)
                          λ (r, quantity).
                            bind-Keeps (quiet.status _)
                              λ info. ack_if-Keeps (int_eq r (pos 0)) p info)
                      pure-Keeps)))))))

  login_request-Keeps :
      (fd : ℤ) (hdr : PacketHeader) (locals : Locals)
      → Keeps market_incoming (login_request sys me fd hdr locals)
  unfolding login_request already_registred
  login_request-Keeps fd hdr locals =
      bind-Keeps (copy_payload-Keeps locals.payload (ntohs hdr.size)) λ bytes.
        bind-Keeps (on_traders-Keeps _ (trader_login-Keeps me junk fd (c_string bytes)))
          λ trader. bind-Keeps (login_answer-Keeps trader) λ this_trader. pure-Keeps
    where
      login_answer-Keeps : (t : Option ℕ) → Keeps market_incoming (login_answer sys me fd t)
      login_answer-Keeps none =
          bind-Keeps (on_traders-Keeps _ (on_wire-send-Keeps rio me fd _ none)) λ _. pure-Keeps
      login_answer-Keeps (some p) = bind-Keeps (send_ack-Keeps p none) λ _. pure-Keeps

  handle_as-Keeps :
      (this_trader : Option ℕ) (fd : ℤ) (hdr : PacketHeader) (locals : Locals)
      → Keeps market_incoming (handle_as sys me this_trader fd hdr locals)
  handle_as-Keeps (some p) fd hdr locals = if-Keeps (hdr.type == type_code no_pkt) pure-Keeps (
      if-Keeps (hdr.type == type_code login_pkt) (bind-Keeps (send_nack-Keeps p) λ _. pure-Keeps)
        (bind-Keeps (request-Keeps hdr.type p locals.payload) λ _. pure-Keeps))
  handle_as-Keeps none fd hdr locals =
      if-Keeps (hdr.type == type_code no_pkt) pure-Keeps
        (if-Keeps (hdr.type == type_code login_pkt) (login_request-Keeps fd hdr locals) pure-Keeps)

  -- One packet has been read, and no more.
  pub handle-Keeps :
      (fd : ℤ) (hdr : PacketHeader) (locals : Locals)
      → Keeps market_incoming (handle sys me fd hdr locals)
  unfolding handle
  handle-Keeps fd hdr locals = handle_as-Keeps locals.this_trader fd hdr locals
