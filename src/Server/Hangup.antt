-- ===== src/Server/Hangup.antt =====
-- src/server.c: the end of a connection, and the thread from its registration to its removal.
use mathlib.Core.List.{Perm, mem-cons_self}
use mathlib.Core.List.Perm
use bourse_server.Base.{
  ℕ, ◌≡◌, ◌≢◌, ◌<◌, refl, true, Option, some, none, List, [], ℤ, pos, minus_one, dec, done,
}
use bourse_server.Protocol.Receive.{IsReliable}
use bourse_server.Protocol.EndOfFile.{proto_recv_packet-end}
use bourse_server.Protocol.ByteOrder.{ntohs}
use bourse_server.Registry.{ClientRegistry}
use bourse_server.Registry.Contents.{registered}
use bourse_server.Registry.Invariant.{Inv, clients}
use bourse_server.Registry.Register.{creg_register_lem}
use bourse_server.Registry.Unregister.{creg_unregister_lem}
use bourse_server.Trader.{Trader, Mutex, lock_mutex, find_trader, at, put}
use bourse_server.Trader.LoginLogout.{trader_logout_lem}
use bourse_server.Server.Exchange.{Market}
use bourse_server.Server.State.{Server, System}
use bourse_server.Server.Service.{serve_one, service_loop, brs_client_service}

module _ {X : Type 0} (sys : System X) (me : ℕ) (fd : ℤ) (reliable : IsReliable (sys.rio) fd) where
  -- At the end of the connection of a client who is not logged in the loop is left, and nothing
  -- changes. No read on the connection fails.
  pub serve_one-end :
      (payload : Option (List ℕ)) (m : Market X)
      → m.traders.wire.incoming fd ≡ []
      → serve_one sys me fd (record { this_trader = none; payload = payload }) m ≡ done none m
  unfolding serve_one ntohs
  serve_one-end payload m ended =
      rw (proto_recv_packet-end sys.rio fd payload m.traders.wire reliable ended) refl

  -- At the end of the connection of a client who is logged in, as a trader in the table whose mutex
  -- the thread can lock and who has more references than one, the loop is left, and the trader is
  -- logged out: one reference is dropped and the descriptor forgotten. Nothing else changes. No
  -- read on the connection fails.
  pub serve_one-logout :
      (payload : Option (List ℕ)) (m : Market X) (p i : ℕ) (t : Trader) (mutex : Mutex)
      → m.traders.wire.incoming fd ≡ []
      → find_trader t.name m.traders ≡ at i p
      → m.traders.heap p ≡ some t
      → lock_mutex me t.trader_mutex ≡ some mutex
      → dec t.ref ≢ pos 0
      → serve_one sys me fd (record { this_trader = some p; payload = payload }) m
        ≡ done none
            (record m { traders = put p (record t { ref = dec t.ref; fd = minus_one }) m.traders })
  unfolding serve_one ntohs
  serve_one-logout payload m p i t mutex ended found live ready more =
      rw
        (
          proto_recv_packet-end sys.rio fd payload m.traders.wire reliable ended,
          trader_logout_lem me p i m.traders t mutex found live ready more,
        )
        refl

module _ {X : Type 0} (sys : System X) (me : ℕ) where
  -- A thread whose loop is left, on any fuel, has closed its connection at the end. The traders and
  -- the exchange are as the loop has left them; the registry, which was in order and had a free
  -- slot, is in order, with the same descriptors as before.
  pub brs_client_service_lem :
      (fuel : ℕ) (fd : ℤ) (s : Server X) (m : Market X)
      → Inv s.registry
      → fd ≢ minus_one
      → clients s.registry < s.registry.n
      → service_loop sys me fuel fd (record { this_trader = none; payload = none }) s.market
        ≡ done true m
      → (cr : ClientRegistry) × (brs_client_service sys me fuel fd s
          ≡ done (some true) (record { market = m; registry = cr }))
        × Inv cr
        × Perm (registered cr.fds) (registered s.registry.fds)
  unfolding brs_client_service
  brs_client_service_lem fuel fd s m inv real room ended =
      let (cr₁, entered, inv₁, kept₁, grown) =
        creg_register_lem sys.sems s.registry fd inv real room in
      let (cr₂, gone, inv₂, kept₂, shrunk) =
        creg_unregister_lem sys.sems cr₁ fd inv₁ real ((Perm.mem_iff grown).1 mem-cons_self) in
      (
        cr₂,
        rw (entered, ended, gone) refl,
        inv₂,
        Perm.cons_inv (Perm.trans (Perm.symm shrunk) grown),
      )
