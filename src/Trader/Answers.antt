-- ===== src/Trader/Answers.antt =====
-- src/trader.c: the answers ACK and NACK as the client sees them.
use bourse_server.Base.{
  ℕ, ◌≡◌, refl, sym, ◌∙◌, ◌⊎◌, inl, inr, some, none, List, [], pos, done, arith, length, take,
}
use bourse_server.Protocol.ByteOrder.{htons, htonl, ntohs, ntohs-htons}
use bourse_server.Protocol.Types.{
  PacketHeader, StatusInfo, ack_pkt, nack_pkt, type_code, status_bytes, status_size,
  length-status_bytes,
}
use bourse_server.Protocol.Wire.{Rio}
use bourse_server.Protocol.Send.{packet}
use bourse_server.Trader.Store.{free, Trader, Traders, load_lem}
use bourse_server.Trader.Sending.{delivered, kept, trader_send_packet_lem}
use bourse_server.Trader.Packets.{trader_send_ack, trader_send_nack}

-- What the header of an answer holds before it is stamped.
abbrev pub ack_header : PacketHeader → PacketHeader
ack_header stack = record stack { type = type_code ack_pkt; size = htons status_size }

abbrev pub empty_ack : PacketHeader → PacketHeader
empty_ack stack = record stack { type = type_code ack_pkt; size = htons 0 }

abbrev pub nack_header : PacketHeader → PacketHeader
nack_header stack = record stack { type = type_code nack_pkt; size = 0 }

-- The status of the exchange, with the account of the trader in network byte order.
abbrev pub account_info : StatusInfo → Trader → StatusInfo
account_info info t = record info { balance = htonl t.balance; inventory = htonl t.inventory }

module _ (rio : Rio) (stack : PacketHeader) (me p : ℕ) (s : Traders) (t : Trader)
    (live : s.heap p ≡ some t) (idle : t.trader_mutex ≡ free) where
  -- A trader whose mutex is free gets an ACK with the given status and in it the balance and
  -- the inventory as they are, in network byte order, or some first part of it, and then the
  -- sending thread keeps the mutex. The result is 0 in both cases.
  pub trader_send_ack_lem :
      (info : StatusInfo)
      → (trader_send_ack rio stack me p (some info) s
          ≡ done (pos 0) (
              delivered t
                (packet rio (ack_header stack) s.wire (status_bytes (account_info info t)))
                s))
        ⊎ ((n : ℕ) × (trader_send_ack rio stack me p (some info) s
              ≡ done (pos 0) (
                  kept me p t
                    (take n
                      (packet rio (ack_header stack) s.wire (status_bytes (account_info info t))))
                    s)))
  unfolding trader_send_ack
  trader_send_ack_lem info =
      elim (trader_send_packet_lem rio me p s t (ack_header stack) (some body) body live idle sized
        (inl refl)) [
          | inl sent ↦ inl (rw (load_lem p s t live, sent) refl)
          | inr (n, failed) ↦ inr (n, rw (load_lem p s t live, failed) refl)
        ]
    where
      body : List ℕ
      body = status_bytes (account_info info t)

      sized : length body ≡ ntohs (htons status_size)
      sized =
          length-status_bytes (account_info info t) ∙ sym (ntohs-htons status_size (omega arith))

  -- The same for a NACK, which has no payload.
  pub trader_send_nack_lem :
      (trader_send_nack rio stack me p s
        ≡ done (pos 0) (delivered t (packet rio (nack_header stack) s.wire []) s))
      ⊎ ((n : ℕ) × (trader_send_nack rio stack me p s
            ≡ done (pos 0) (kept me p t (take n (packet rio (nack_header stack) s.wire [])) s)))
  unfolding trader_send_nack ntohs
  trader_send_nack_lem =
      elim (trader_send_packet_lem rio me p s t (nack_header stack) none [] live idle refl
        (inr refl)) [ inl sent ↦ inl (rw sent refl) | inr (n, failed) ↦ inr (n, rw failed refl) ]

  -- The same for an ACK without a status.
  pub trader_send_ack-none :
      (trader_send_ack rio stack me p none s
        ≡ done (pos 0) (delivered t (packet rio (empty_ack stack) s.wire []) s))
      ⊎ ((n : ℕ) × (trader_send_ack rio stack me p none s
            ≡ done (pos 0) (kept me p t (take n (packet rio (empty_ack stack) s.wire [])) s)))
  unfolding trader_send_ack
  trader_send_ack-none =
      elim (trader_send_packet_lem rio me p s t (empty_ack stack) none [] live idle
        (sym (ntohs-htons 0 (omega arith))) (inr refl)) [
          | inl sent ↦ inl (rw sent refl)
          | inr (n, failed) ↦ inr (n, rw failed refl)
        ]
