-- ===== src/Trader/Sending.antt =====
-- src/trader.c: what a packet to a trader does to the trader's mutex and connection.
use bourse_server.Base.{
  ℕ, ◌≡◌, ◌≢◌, refl, ◌∙◌, ◌⊎◌, inl, inr, Option, some, none, List, ℤ, pos, minus_one, done, blocked,
  arith, length, take,
}
use bourse_server.Protocol.{proto_send_packet, stamp}
use bourse_server.Protocol.ByteOrder.{ntohs}
use bourse_server.Protocol.Types.{PacketHeader}
use bourse_server.Protocol.Wire.{Wire, Rio, deliver}
use bourse_server.Protocol.Send.{proto_send_packet_lem, Holds, packet, proto_send_packet-bad_fd}
use bourse_server.Trader.Store.{
  Mutex, free, held, lock_mutex, Trader, Traders, update_self, put, unlock_mutex-lock_mutex,
  lock_lem, unlock_lem, load_lem, lock_blocked,
}
use bourse_server.Trader.RefCounts.{put-put, put_same}
use bourse_server.Trader.Lookup.{find_named-update}
use bourse_server.Trader.Table.{trader_ref, find_trader, at}
use bourse_server.Trader.Session.{trader_login}
use bourse_server.Trader.Packets.{trader_send_packet}

module _ (rio : Rio) (me p : ℕ) (s : Traders) (t : Trader) (m : Mutex) (live : s.heap p ≡ some t)
    (ready : lock_mutex me t.trader_mutex ≡ some m) (pkt pkt' : PacketHeader)
    (payload : Option (List ℕ)) (w : Wire) where
  abbrev locked : Trader
  locked = record t { trader_mutex = m }

  -- A packet that is sent leaves the mutex as it was.
  pub sent_lem :
      proto_send_packet rio t.fd pkt payload s.wire ≡ done (pos 0, pkt') w
      → trader_send_packet rio me p pkt payload s ≡ done (pos 0, pkt') (record s { wire = w })
  unfolding trader_send_packet
  sent_lem sent =
      rw
        (
          lock_lem p s t live me m ready,
          load_lem p (put p locked s) locked (update_self s.heap p _),
          sent,
          unlock_lem p (record (put p locked s) { wire = w }) locked (update_self s.heap p _) me,
          put-put p _ _ (record s { wire = w }),
          unlock_mutex-lock_mutex me t.trader_mutex m ready,
          put_same p t (record s { wire = w }) live,
        )
        refl

  -- A packet that is not sent leaves the mutex locked.
  pub unsent_lem :
      proto_send_packet rio t.fd pkt payload s.wire ≡ done (minus_one, pkt') w
      → trader_send_packet rio me p pkt payload s
        ≡ done (minus_one, pkt') (record (put p locked s) { wire = w })
  unfolding trader_send_packet
  unsent_lem failed =
      rw
        (
          lock_lem p s t live me m ready,
          load_lem p (put p locked s) locked (update_self s.heap p _),
          failed,
        )
        refl

-- The state in which `bs` have been sent to the trader `t`.
abbrev pub delivered : Trader → List ℕ → Traders → Traders
delivered t bs s = record s { wire = deliver t.fd bs s.wire }

-- The same, with the mutex of `t`, which is at `p`, kept by `me`.
abbrev pub kept : ℕ → ℕ → Trader → List ℕ → Traders → Traders
kept me p t bs s = delivered t bs (put p (record t { trader_mutex = held me 0 }) s)

-- A packet with the payload that its header states, to a trader whose mutex is free: either the
-- call returns 0, the packet is delivered whole and only the connection has changed; or the
-- call returns -1, some first part of the packet has been delivered, and the calling thread has
-- kept the mutex.
pub trader_send_packet_lem :
    (rio : Rio) (me p : ℕ) (s : Traders) (t : Trader) (pkt : PacketHeader)
    (payload : Option (List ℕ)) (body : List ℕ)
    → s.heap p ≡ some t
    → t.trader_mutex ≡ free
    → length body ≡ ntohs pkt.size
    → Holds payload body
    → (trader_send_packet rio me p pkt payload s
        ≡ done (pos 0, stamp rio pkt s.wire) (delivered t (packet rio pkt s.wire body) s))
      ⊎ ((n : ℕ) × (trader_send_packet rio me p pkt payload s
            ≡ done
                (minus_one, stamp rio pkt s.wire)
                (kept me p t (take n (packet rio pkt s.wire body)) s)))
trader_send_packet_lem rio me p s t pkt payload body live idle fits holds =
    elim (proto_send_packet_lem rio t.fd pkt payload body s.wire fits holds) [
      | inl sent ↦ inl (sent_lem rio me p s t (held me 0) live (rw idle refl) pkt _ payload _ sent)
      | inr (n, failed) ↦
          inr (n, unsent_lem rio me p s t (held me 0) live (rw idle refl) pkt _ payload _ failed)
    ]

-- A thread that is locked out of a trader waits for ever in the login of that trader.
pub login-LockedOut :
    (junk : Trader) (me me' p i : ℕ) (s : Traders) (t : Trader) (d : ℕ) (fd : ℤ) (name : List ℕ)
    → find_trader name s ≡ at i p
    → s.heap p ≡ some t
    → t.trader_mutex ≡ held me d
    → me ≢ me'
    → trader_login junk me' fd name s ≡ blocked s
unfolding trader_login trader_ref
login-LockedOut junk me me' p i s t d fd name found live busy other =
    rw (found, lock_blocked p s t live me' (rw busy refused)) refl
  where
    refused : lock_mutex me' (held me d) ≡ none
    refused = ground arith

-- A packet to a trader in the table who is logged out, with the mutex free, is not sent, and
-- shuts the trader out: the login of the trader by any other thread then waits.
pub send_logged_out :
    (rio : Rio) (junk : Trader) (me me' p i : ℕ) (s : Traders) (t : Trader) (fd : ℤ)
    (pkt : PacketHeader) (payload : Option (List ℕ))
    → find_trader t.name s ≡ at i p
    → s.heap p ≡ some t
    → t.trader_mutex ≡ free
    → t.fd ≡ minus_one
    → me ≢ me'
    → (s' : Traders) × (trader_send_packet rio me p pkt payload s
        ≡ done (minus_one, stamp rio pkt s.wire) s')
      × (trader_login junk me' fd t.name s' ≡ blocked s')
send_logged_out rio junk me me' p i s t fd pkt payload found live idle out other = (
  put p out_of_reach s,
  unsent_lem rio me p s t (held me 0) live (rw idle refl) pkt _ payload s.wire
      (rw out (proto_send_packet-bad_fd rio pkt payload s.wire)),
  login-LockedOut junk me me' p i (put p out_of_reach s) out_of_reach 0 fd t.name
      (same_search ∙ found) (update_self s.heap p _) refl other,
)
  where
    out_of_reach : Trader
    out_of_reach = record t { trader_mutex = held me 0 }

    same_search : find_trader t.name (put p out_of_reach s) ≡ find_trader t.name s
    same_search = find_named-update s.heap p t out_of_reach live refl s.all_traders 0 t.name
