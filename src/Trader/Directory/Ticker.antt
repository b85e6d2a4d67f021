-- ===== src/Trader/Directory/Ticker.antt =====
-- include/trader.h: "Broadcast a packet to all currently logged-in traders."
use bourse_server.Base.{
  ℕ, ◌≡◌, ◌≢◌, refl, inl, inr, false, Option, some, none, List, [], ◌∷◌, ℤ, pos, minus_one, done,
  arith, length, ◌==◌, Bool-cases,
}
use bourse_server.Protocol.ByteOrder.{ntohs}
use bourse_server.Protocol.Types.{PacketHeader}
use bourse_server.Protocol.Wire.{Wire, Rio}
use bourse_server.Protocol.Send.{Holds}
use bourse_server.Protocol.Reliable.{IsWritable}
use bourse_server.Trader.Store.{Trader, Traders}
use bourse_server.Trader.Table.{find_named}
use bourse_server.Trader.Lookup.{same_name_iff}
use bourse_server.Trader.Packets.{trader_broadcast_packet}
use bourse_server.Trader.Entries.{
  Entries, Missing, Missing-of, Missing-head, Missing-tail, same_object,
}
use bourse_server.Trader.Broadcast.{listed, AllIdle, all_reached, Heard, broadcast_from_lem}
use bourse_server.Trader.Directory.View.{IsSound}

-- The object of a name that no entry has is in no entry.
unlisted :
    (h : ℕ → Option Trader) (p : ℕ) (t : Trader) (slots : List (Option ℕ))
    → h p ≡ some t
    → Entries h slots
    → Missing h slots t.name
    → listed p slots ≡ false
unfolding find_named
unlisted h p t [] live e gone = refl
unlisted h p t (none ∷ slots) live e gone =
    unlisted h p t slots live e (Missing-of h slots t.name 1 (gone 0))
unlisted h p t (some q ∷ slots) live ((v, there, ok, once), e) gone = elim (Bool-cases (p == q)) [
  | inl here ↦ absurd (
      grind (
        arith,
        same_object h q p t v here live there,
        same_name_iff v.name t.name,
        Missing-head h slots q v t.name there gone,
      ))
  | inr other ↦ rw other (unlisted h p t slots live e (Missing-tail h slots q v t.name there gone))
]

Entries-AllIdle :
    (h : ℕ → Option Trader) (slots : List (Option ℕ)) → Entries h slots → AllIdle h slots
Entries-AllIdle h [] e = tt
Entries-AllIdle h (none ∷ slots) e = Entries-AllIdle h slots e
Entries-AllIdle h (some p ∷ slots) ((t, live, ok, once), e) =
    ((t, live, ok.idle, unlisted h p t slots live e once), Entries-AllIdle h slots e)

module _ (rio : Rio) (me : ℕ) (pkt : PacketHeader) (payload : Option (List ℕ)) (body : List ℕ) where
  -- In a sound state, over connections on which no write fails, the broadcast of a packet with
  -- the payload that its header states returns 0. Every connection but -1 has then been sent as
  -- many whole copies of the packet as traders are logged in over it, behind what it had been
  -- sent; the traders who are logged in are as they were, those who are logged out are left
  -- with their mutex locked by the calling thread, and the rest of the module's state is as it
  -- was.
  pub trader_broadcast_packet_lem :
      (s : Traders)
      → IsSound s
      → ((fd : ℤ) → fd ≢ minus_one → IsWritable rio fd)
      → length body ≡ ntohs pkt.size
      → Holds payload body
      → (w : Wire) × (trader_broadcast_packet rio me pkt payload s
          ≡ done (pos 0) (record s { heap = all_reached me s.all_traders s.heap; wire = w }))
        × Heard rio pkt body s.all_traders s w
  unfolding trader_broadcast_packet
  trader_broadcast_packet_lem s sound writable fits holds =
      broadcast_from_lem rio me pkt payload body s.all_traders s pkt writable
        (Entries-AllIdle s.heap s.all_traders sound.entries) (λ w. refl) fits holds
