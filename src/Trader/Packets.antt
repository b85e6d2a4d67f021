-- ===== src/Trader/Packets.antt =====
-- src/trader.c: packets to one trader and to all.
use bourse_server.Base.{
  ℕ, Option, none, some, List, [], ◌∷◌, ℤ, pos, minus_one, int_eq, M, Outcome, done, blocked, fault,
  pure, ◌>>=◌, ◌>>◌, get, if◌then◌else◌,
}
use bourse_server.Protocol.{proto_send_packet}
use bourse_server.Protocol.ByteOrder.{htons, htonl}
use bourse_server.Protocol.Types.{
  PacketHeader, StatusInfo, type_code, ack_pkt, nack_pkt, status_bytes, status_size,
}
use bourse_server.Protocol.Wire.{Wire, Rio}
use bourse_server.Trader.Store.{Traders, load, lock, unlock}

-- A call that acts on the connections only.
abbrev pub with_wire : {A : Type 0} → Traders → Outcome Wire A → Outcome Traders A
with_wire s (done a w) = done a (record s { wire = w })
with_wire s (blocked w) = blocked (record s { wire = w })
with_wire s fault = fault

abbrev pub on_wire : {A : Type 0} → M Wire A → M Traders A
on_wire m s = with_wire s (m s.wire)

module _ (rio : Rio) (me : ℕ) where
  -- Returns the result and the header as the call leaves it.
  unfoldable pub trader_send_packet :
      ℕ → PacketHeader → Option (List ℕ) → M Traders (ℤ × PacketHeader)
  trader_send_packet p pkt payload = do
    lock me p
    t ← load p
    (r, pkt') ← on_wire (proto_send_packet rio t.fd pkt payload)
    if int_eq r minus_one then pure (minus_one, pkt') else do unlock me p; pure (pos 0, pkt')

  -- The loop of `trader_broadcast_packet` over the rest of the table.
  unfoldable pub broadcast_from : List (Option ℕ) → PacketHeader → Option (List ℕ) → M Traders ℤ
  broadcast_from [] pkt payload = pure (pos 0)
  broadcast_from (none ∷ slots) pkt payload = broadcast_from slots pkt payload
  broadcast_from (some p ∷ slots) pkt payload = do
    (r, pkt') ← trader_send_packet p pkt payload
    broadcast_from slots pkt' payload

  -- A send leaves the table as it is, so the loop runs over the table of the start.
  unfoldable pub trader_broadcast_packet : PacketHeader → Option (List ℕ) → M Traders ℤ
  unfolding broadcast_from
  trader_broadcast_packet pkt payload = do
    slots ← get (λ s. s.all_traders)
    broadcast_from slots pkt payload

-- `stack` is what a `BRS_PACKET_HEADER` on the stack holds before it is assigned to.
module _ (rio : Rio) (stack : PacketHeader) (me : ℕ) where
  unfoldable pub trader_send_ack : ℕ → Option StatusInfo → M Traders ℤ
  trader_send_ack p none = do
    trader_send_packet rio me p (record stack { type = type_code ack_pkt; size = htons 0 }) none
    pure (pos 0)
  trader_send_ack p (some info) = do
    t ← load p
    let info' = record info { balance = htonl t.balance; inventory = htonl t.inventory }
    trader_send_packet rio me p
        (record stack { type = type_code ack_pkt; size = htons status_size })
        (some (status_bytes info'))
    pure (pos 0)

  unfoldable pub trader_send_nack : ℕ → M Traders ℤ
  trader_send_nack p = do
    trader_send_packet rio me p (record stack { type = type_code nack_pkt; size = 0 }) none
    pure (pos 0)
