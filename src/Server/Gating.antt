-- ===== src/Server/Gating.antt =====
-- src/server.c: what a packet does before and after a login.
use bourse_server.Base.{
  ℕ, ◌≡◌, ◌≢◌, ◌⊎◌, inl, inr, refl, Option, some, none, List, [], ℤ, done, arith, take,
}
use bourse_server.Protocol.Types.{PacketHeader}
use bourse_server.Protocol.Send.{packet}
use bourse_server.Trader.{free, Trader}
use bourse_server.Trader.Sending.{delivered, kept}
use bourse_server.Trader.Answers.{nack_header, trader_send_nack_lem}
use bourse_server.Server.Exchange.{Market}
use bourse_server.Server.State.{System}
use bourse_server.Server.Requests.{handle}

module _ {X : Type 0} (sys : System X) (me : ℕ) (fd : ℤ) (hdr : PacketHeader) (m : Market X) where
  -- Before a login, a packet of any type but LOGIN is passed over: nothing changes, in the accounts,
  -- in the exchange or on any connection.
  pub handle-gated :
      (payload : Option (List ℕ))
      → hdr.type ≢ 1
      → handle sys me fd hdr (record { this_trader = none; payload = payload }) m
        ≡ done (record { this_trader = none; payload = payload }) m
  unfolding handle
  handle-gated payload other = ground arith

  -- After a login, a LOGIN packet changes no account and no table: a trader whose mutex is free is
  -- sent a NACK, or some first part of it, and then the thread keeps the mutex. The thread serves
  -- the same trader as before.
  pub handle-second_login :
      (payload : Option (List ℕ)) (p : ℕ) (t : Trader)
      → hdr.type ≡ 1
      → m.traders.heap p ≡ some t
      → t.trader_mutex ≡ free
      → (handle sys me fd hdr (record { this_trader = some p; payload = payload }) m
          ≡ done
              (record { this_trader = some p; payload = payload })
              (record m {
                traders =
                    delivered t
                      (packet sys.rio (nack_header sys.stack_header) m.traders.wire [])
                      m.traders;
              }))
        ⊎ ((n : ℕ) × (handle sys me fd hdr (record { this_trader = some p; payload = payload }) m
              ≡ done
                  (record { this_trader = some p; payload = payload })
                  (record m {
                    traders =
                        kept me p t
                          (take n (packet sys.rio (nack_header sys.stack_header) m.traders.wire []))
                          m.traders;
                  })))
  unfolding handle
  handle-second_login payload p t login live idle =
      elim (trader_send_nack_lem sys.rio sys.stack_header me p m.traders t live idle) [
        | inl sent ↦ inl (rw (login, sent) refl)
        | inr (n, failed) ↦ inr (n, rw (login, failed) refl)
      ]
