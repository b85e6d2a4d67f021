-- ===== src/Server/Inventory.antt =====
-- src/server.c: the requests that change an inventory, from the packet to the answer.
use bourse_server.Base.{
  ℕ, ◌+◌, ◌-◌, ◌%◌, ◌^◌, ◌≤◌, ◌<◌, ◌≡◌, refl, ◌⊎◌, inl, inr, true, some, List, arith, length, leb,
  Bool-cases,
}
use bourse_server.Protocol.ByteOrder.{ntohl}
use bourse_server.Protocol.Types.{word32}
use bourse_server.Trader.{free, held, Trader, update_self}
use bourse_server.Trader.Balances.{trader_decrease_inventory_lem, trader_increase_inventory_lem}
use bourse_server.Server.Exchange.{Market}
use bourse_server.Server.State.{System}
use bourse_server.Server.Requests.{release_request, escrow_request}
use bourse_server.Server.Accounts.{Reports, Acked, Nacked, ack-Acked, nack-Nacked, with_trader}

module _ {X : Type 0} (sys : System X) (me p : ℕ) (block : List ℕ) (m : Market X) (t : Trader)
    (live : m.traders.heap p ≡ some t) (idle : t.trader_mutex ≡ free) (reports : Reports sys me)
    (whole : 4 ≤ length block) where
  open sys use {stack_info}

  abbrev amount : ℕ
  amount = ntohl (word32 block 0)

  -- The market in which the inventory of the trader is `n`.
  abbrev pub with_inventory : ℕ → Market X
  with_inventory n =
      with_trader sys me p block m t live idle reports whole (record t { inventory = n })

  enough_bytes : leb 4 (length block) ≡ true
  enough_bytes = ground arith

  -- A RELEASE of 4 or more bytes, from a trader whose mutex is free, with an exchange that
  -- reports its status and changes nothing: a quantity that the inventory covers, the first 4
  -- bytes of the payload in network byte order, is taken, and answered by an ACK with the new
  -- inventory; one that is larger is answered by a NACK, and the account stays. The answer may
  -- break off, and then the thread keeps the mutex.
  pub release_request_lem :
      ((amount ≤ t.inventory)
        × Acked sys me p
            (record t { inventory = t.inventory - amount })
            (with_inventory (t.inventory - amount))
            (reports stack_info (with_inventory (t.inventory - amount))).0
            (release_request sys me p (some block) m))
      ⊎ ((t.inventory < amount) × Nacked sys me p t m (release_request sys me p (some block) m))
  unfolding release_request
  release_request_lem = elim (Bool-cases (leb amount t.inventory)) [
    | inl covered ↦
        let m' : Market X = with_inventory (t.inventory - amount) in
        inl (
          ground arith,
          rw
              (
                enough_bytes,
                trader_decrease_inventory_lem me p m.traders t (held me 0) live (rw idle refl)
                    amount,
                covered,
                (reports stack_info m').1,
              )
              (ack-Acked sys me p _ m' (reports stack_info m').0 (update_self m.traders.heap p _)
                idle),
        )
    | inr short ↦ inr (
      ground arith,
      rw
          (
            enough_bytes,
            trader_decrease_inventory_lem me p m.traders t (held me 0) live (rw idle refl) amount,
            short,
            (reports stack_info m).1,
          )
          (nack-Nacked sys me p t m live idle),
    )
  ]

  -- An ESCROW of 4 or more bytes, from a trader whose mutex is free, with an exchange that
  -- reports its status and changes nothing: the quantity, the first 4 bytes of the payload in
  -- network byte order, is added modulo 2^32, and answered by an ACK with the new inventory.
  -- The answer may break off, and then the thread keeps the mutex.
  pub escrow_request_lem :
      Acked sys me p
        (record t { inventory = (t.inventory + amount) % 2 ^ 32 })
        (with_inventory ((t.inventory + amount) % 2 ^ 32))
        (reports stack_info (with_inventory ((t.inventory + amount) % 2 ^ 32))).0
        (escrow_request sys me p (some block) m)
  unfolding escrow_request
  escrow_request_lem =
      let m' : Market X = with_inventory ((t.inventory + amount) % 2 ^ 32) in
      rw
        (
          enough_bytes,
          trader_increase_inventory_lem me p m.traders t (held me 0) live (rw idle refl) amount,
          (reports stack_info m').1,
        )
        (ack-Acked sys me p _ m' (reports stack_info m').0 (update_self m.traders.heap p _) idle)
