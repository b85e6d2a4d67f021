-- ===== src/Server/Accounts.antt =====
-- src/server.c: the requests that change an account, from the packet to the answer.
use bourse_server.Base.{
  ℕ, ◌+◌, ◌-◌, ◌%◌, ◌^◌, ◌≤◌, ◌<◌, ◌≡◌, refl, ◌⊎◌, inl, inr, true, some, List, [], ℤ, pos, Outcome,
  done, arith, length, take, leb, Bool-cases,
}
use bourse_server.Protocol.ByteOrder.{ntohl}
use bourse_server.Protocol.Types.{StatusInfo, word32, status_bytes}
use bourse_server.Protocol.Send.{packet}
use bourse_server.Trader.{free, held, Trader, put, update_self}
use bourse_server.Trader.Sending.{delivered, kept}
use bourse_server.Trader.Answers.{
  ack_header, nack_header, account_info, trader_send_ack_lem, trader_send_nack_lem,
}
use bourse_server.Trader.Balances.{trader_decrease_balance_lem, trader_increase_balance_lem}
use bourse_server.Server.Exchange.{Market}
use bourse_server.Server.State.{System}
use bourse_server.Server.Requests.{send_ack, send_nack, withdraw_request, deposit_request}

module _ {X : Type 0} (sys : System X) (me : ℕ) where
  open sys use {rio, exchange, stack_header, stack_info}

  -- `exchange_get_status` reports, and changes nothing.
  abbrev pub Reports : Type 0
  Reports =
      (info : StatusInfo) (m : Market X)
      → (info' : StatusInfo) × (exchange.exchange_get_status info m ≡ done info' m)

  -- The call is over, with the account as it is in `u`, and the client has been sent the packet
  -- `bs`; or it has been sent some first part of it, and the thread has kept the mutex of `u`.
  abbrev pub Answered : ℕ → Trader → Market X → List ℕ → Outcome (Market X) ℤ → Type 0
  Answered p u m bs r =
      (r ≡ done (pos 0) (record m { traders = delivered u bs m.traders }))
      ⊎ ((n : ℕ) × (r ≡ done (pos 0) (record m { traders = kept me p u (take n bs) m.traders })))

  -- The answer is an ACK with the status `info` and, in it, the account of `u`.
  abbrev pub Acked : ℕ → Trader → Market X → StatusInfo → Outcome (Market X) ℤ → Type 0
  Acked p u m info r =
      Answered p u m
        (packet rio (ack_header stack_header) m.traders.wire (status_bytes (account_info info u))) r

  -- The answer is a NACK.
  abbrev pub Nacked : ℕ → Trader → Market X → Outcome (Market X) ℤ → Type 0
  Nacked p u m r = Answered p u m (packet rio (nack_header stack_header) m.traders.wire []) r

  pub ack-Acked :
      (p : ℕ) (u : Trader) (m : Market X) (info : StatusInfo)
      → m.traders.heap p ≡ some u
      → u.trader_mutex ≡ free
      → Acked p u m info (send_ack sys me p (some info) m)
  ack-Acked p u m info live idle =
      elim (trader_send_ack_lem rio stack_header me p m.traders u live idle info) [
        | inl sent ↦ inl (rw sent refl)
        | inr (n, failed) ↦ inr (n, rw failed refl)
      ]

  pub nack-Nacked :
      (p : ℕ) (u : Trader) (m : Market X)
      → m.traders.heap p ≡ some u
      → u.trader_mutex ≡ free
      → Nacked p u m (send_nack sys me p m)
  nack-Nacked p u m live idle =
      elim (trader_send_nack_lem rio stack_header me p m.traders u live idle) [
        | inl sent ↦ inl (rw sent refl)
        | inr (n, failed) ↦ inr (n, rw failed refl)
      ]

  module _ (p : ℕ) (block : List ℕ) (m : Market X) (t : Trader) (live : m.traders.heap p ≡ some t)
      (idle : t.trader_mutex ≡ free) (reports : Reports) (whole : 4 ≤ length block) where
    -- The market in which the trader is `u`.
    abbrev pub with_trader : Trader → Market X
    with_trader u = record m { traders = put p u m.traders }

    enough_bytes : leb 4 (length block) ≡ true
    enough_bytes = ground arith

    -- A WITHDRAW of 4 or more bytes, from a trader whose mutex is free, with an exchange that
    -- reports its status and changes nothing: an amount that the balance covers, the first 4
    -- bytes of the payload in network byte order, is taken, and answered by an ACK with the new
    -- balance; one that is larger is answered by a NACK, and the account stays. The answer may
    -- break off, and then the thread keeps the mutex.
    pub withdraw_request_lem :
        ((ntohl (word32 block 0) ≤ t.balance)
          × Acked p
              (record t { balance = t.balance - ntohl (word32 block 0) })
              (with_trader (record t { balance = t.balance - ntohl (word32 block 0) }))
              (reports stack_info
                (with_trader (record t { balance = t.balance - ntohl (word32 block 0) }))).0
              (withdraw_request sys me p (some block) m))
        ⊎ ((t.balance < ntohl (word32 block 0))
            × Nacked p t m (withdraw_request sys me p (some block) m))
    unfolding withdraw_request
    withdraw_request_lem = elim (Bool-cases (leb (ntohl (word32 block 0)) t.balance)) [
      | inl covered ↦
          let u : Trader = record t { balance = t.balance - ntohl (word32 block 0) } in
          inl (
            ground arith,
            rw
                (
                  enough_bytes,
                  trader_decrease_balance_lem me p m.traders t (held me 0) live (rw idle refl)
                      (ntohl (word32 block 0)),
                  covered,
                  (reports stack_info (with_trader u)).1,
                )
                (ack-Acked p u (with_trader u) (reports stack_info (with_trader u)).0
                  (update_self m.traders.heap p _) idle),
          )
      | inr short ↦ inr (
        ground arith,
        rw
            (
              enough_bytes,
              trader_decrease_balance_lem me p m.traders t (held me 0) live (rw idle refl)
                  (ntohl (word32 block 0)),
              short,
              (reports stack_info m).1,
            )
            (nack-Nacked p t m live idle),
      )
    ]

    -- A DEPOSIT of 4 or more bytes, from a trader whose mutex is free, with an exchange that
    -- reports its status and changes nothing: the amount, the first 4 bytes of the payload in
    -- network byte order, is added modulo 2^32, and answered by an ACK with the new balance.
    -- The answer may break off, and then the thread keeps the mutex.
    pub deposit_request_lem :
        Acked p
          (record t { balance = (t.balance + ntohl (word32 block 0)) % 2 ^ 32 })
          (with_trader (record t { balance = (t.balance + ntohl (word32 block 0)) % 2 ^ 32 }))
          (reports stack_info
            (with_trader (record t { balance = (t.balance + ntohl (word32 block 0)) % 2 ^ 32 }))).0
          (deposit_request sys me p (some block) m)
    unfolding deposit_request
    deposit_request_lem =
        let u : Trader = record t { balance = (t.balance + ntohl (word32 block 0)) % 2 ^ 32 } in
        rw
          (
            enough_bytes,
            trader_increase_balance_lem me p m.traders t (held me 0) live (rw idle refl)
                (ntohl (word32 block 0)),
            (reports stack_info (with_trader u)).1,
          )
          (ack-Acked p u (with_trader u) (reports stack_info (with_trader u)).0
            (update_self m.traders.heap p _) idle)
