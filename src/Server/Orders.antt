-- ===== src/Server/Orders.antt =====
-- src/server.c: the requests that reach the exchange's order book, from the packet to the answer.
use bourse_server.Base.{
  ℕ, ◌≤◌, ◌≡◌, ◌≢◌, ◌⊎◌, inl, inr, true, some, List, ℤ, pos, int_eq, int_eq_iff, done, arith,
  length, leb, ◌==◌, Bool-cases,
}
use bourse_server.Protocol.ByteOrder.{ntohl}
use bourse_server.Protocol.Types.{word32}
use bourse_server.Trader.{free, Trader}
use bourse_server.Server.Exchange.{Market}
use bourse_server.Server.State.{System}
use bourse_server.Server.Requests.{buy_request, sell_request, cancel_request}
use bourse_server.Server.Accounts.{Reports, Acked, Nacked, ack-Acked, nack-Nacked}

module _ {X : Type 0} (sys : System X) (me p : ℕ) (block : List ℕ) (m m' : Market X) (u : Trader)
    (live : m'.traders.heap p ≡ some u) (idle : u.trader_mutex ≡ free)
    (reports : Reports sys me) where
  open sys use {exchange, stack_info, stack_quantity}
  open exchange use {exchange_post_buy, exchange_post_sell, exchange_cancel}

  -- A BUY of 8 or more bytes, whose quantity and price the exchange has been given in host byte
  -- order and has answered by an order id, after which the mutex of the trader is free; asked
  -- for its status, the exchange changes nothing. With the id 0 the answer is a NACK; with any
  -- other it is an ACK with the status that the exchange has given to a block that holds the
  -- order id, and the account as the exchange has left it. The answer may break off, and then
  -- the thread keeps the mutex.
  pub buy_request_lem :
      (id : ℕ)
      → 8 ≤ length block
      → exchange_post_buy p (ntohl (word32 block 0)) (ntohl (word32 block 4)) m ≡ done id m'
      → ((id ≡ 0) × Nacked sys me p u m' (buy_request sys me p (some block) m))
        ⊎ ((id ≢ 0)
            × Acked sys me p u m'
                (reports (record stack_info { orderid = id }) m').0
                (buy_request sys me p (some block) m))
  unfolding buy_request
  buy_request_lem id whole posted = elim (Bool-cases (id == 0)) [
    | inl refused ↦ inl (
      ground arith,
      rw (all_bytes, posted, (reports _ m').1, refused) (nack-Nacked sys me p u m' live idle),
    )
    | inr accepted ↦ inr (
      ground arith,
      rw (all_bytes, posted, (reports _ m').1, accepted) (ack-Acked sys me p u m' _ live idle),
    )
  ]
    where
      all_bytes : leb 8 (length block) ≡ true
      all_bytes = ground arith

  -- A SELL of 8 or more bytes, whose quantity and price the exchange has been given in host
  -- byte order and has answered by an order id, after which the mutex of the trader is free;
  -- asked for its status, the exchange changes nothing. With the id 0 the answer is a NACK;
  -- with any other it is an ACK with the status that the exchange has given to a block that
  -- holds the order id, and the account as the exchange has left it. The answer may break off,
  -- and then the thread keeps the mutex.
  pub sell_request_lem :
      (id : ℕ)
      → 8 ≤ length block
      → exchange_post_sell p (ntohl (word32 block 0)) (ntohl (word32 block 4)) m ≡ done id m'
      → ((id ≡ 0) × Nacked sys me p u m' (sell_request sys me p (some block) m))
        ⊎ ((id ≢ 0)
            × Acked sys me p u m'
                (reports (record stack_info { orderid = id }) m').0
                (sell_request sys me p (some block) m))
  unfolding sell_request
  sell_request_lem id whole posted = elim (Bool-cases (id == 0)) [
    | inl refused ↦ inl (
      ground arith,
      rw (all_bytes, posted, (reports _ m').1, refused) (nack-Nacked sys me p u m' live idle),
    )
    | inr accepted ↦ inr (
      ground arith,
      rw (all_bytes, posted, (reports _ m').1, accepted) (ack-Acked sys me p u m' _ live idle),
    )
  ]
    where
      all_bytes : leb 8 (length block) ≡ true
      all_bytes = ground arith

  -- A CANCEL of 4 or more bytes, whose order id the exchange has been given in host byte order
  -- and has answered by a result and a quantity, after which the mutex of the trader is free;
  -- asked for its status, the exchange changes nothing. With the result 0 the answer is an ACK
  -- with the status that the exchange has given to a block that holds the quantity, and the
  -- account as the exchange has left it; with any other result it is a NACK. The answer may
  -- break off, and then the thread keeps the mutex.
  pub cancel_request_lem :
      (r : ℤ) (quantity : ℕ)
      → 4 ≤ length block
      → exchange_cancel p (ntohl (word32 block 0)) stack_quantity m ≡ done (r, quantity) m'
      → ((r ≢ pos 0) × Nacked sys me p u m' (cancel_request sys me p (some block) m))
        ⊎ ((r ≡ pos 0)
            × Acked sys me p u m'
                (reports (record stack_info { quantity = quantity }) m').0
                (cancel_request sys me p (some block) m))
  unfolding cancel_request
  cancel_request_lem r quantity whole canceled = elim (Bool-cases (int_eq r (pos 0))) [
    | inl found ↦ inr (
      (int_eq_iff r (pos 0)).0 found,
      rw (enough_bytes, canceled, (reports _ m').1, found) (ack-Acked sys me p u m' _ live idle),
    )
    | inr missing ↦ inl (
      ground (arith, int_eq_iff r (pos 0)),
      rw (enough_bytes, canceled, (reports _ m').1, missing) (nack-Nacked sys me p u m' live idle),
    )
  ]
    where
      enough_bytes : leb 4 (length block) ≡ true
      enough_bytes = ground arith
