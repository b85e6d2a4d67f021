-- ===== src/Server/Service.antt =====
-- src/server.c: `brs_client_service`.
use bourse_server.Base.{
  ℕ, zero, suc, Bool, true, false, Option, none, some, List, ℤ, minus_one, int_eq, M, done, fault,
  pure, ◌>>=◌, ◌>>◌, ltb, if◌then◌else◌,
}
use bourse_server.Protocol.{proto_recv_packet}
use bourse_server.Protocol.ByteOrder.{ntohs}
use bourse_server.Protocol.Types.{PacketHeader, zero_header}
use bourse_server.Registry.{creg_register, creg_unregister}
use bourse_server.Trader.{on_wire, trader_logout}
use bourse_server.Server.Exchange.{Market}
use bourse_server.Server.State.{Server, System, Locals, on_market, on_registry, on_traders}
use bourse_server.Server.Requests.{handle}

module _ {X : Type 0} (sys : System X) (me : ℕ) where
  open sys use {rio, sems}

  -- `free(payload)`, a fault on a pointer that was never set.
  abbrev pub free_payload : Option (List ℕ) → M (Market X) (Unit {0})
  free_payload none s = fault
  free_payload (some block) s = done tt s

  abbrev pub logout : Option ℕ → M (Market X) (Unit {0})
  logout none = pure tt
  logout (some p) = on_traders (trader_logout me p)

  -- What the thread does when no packet comes, before it leaves the loop.
  unfoldable pub hang_up : PacketHeader → Locals → M (Market X) (Unit {0})
  hang_up hdr locals =
      (if ltb 0 (ntohs hdr.size) then free_payload locals.payload else pure tt)
      >> logout locals.this_trader

  -- One round of `while(1)`: the locals for the next round, or `none` after a `break`.
  unfoldable pub serve_one : ℤ → Locals → M (Market X) (Option Locals)
  unfolding handle hang_up
  serve_one fd locals = do
    (r, hdr, payload) ← on_traders (on_wire (proto_recv_packet rio fd zero_header locals.payload))
    let locals' = record locals { payload = payload }
    if int_eq r minus_one
        then (hang_up hdr locals' >> pure none)
        else (handle sys me fd hdr locals' >>= λ l. pure (some l))

  -- `while(1)` on fuel: `true` if the loop has been left, `false` if the fuel has run out.
  unfoldable pub service_loop : ℕ → ℤ → Locals → M (Market X) Bool
  unfolding serve_one
  service_loop zero fd locals = pure false
  service_loop (suc fuel) fd locals = serve_one fd locals >>= λ next. elim next [
    | none ↦ pure true
    | some locals' ↦ service_loop fuel fd locals'
  ]

  -- What the thread leaves behind: the descriptor closed or not; `none` if the fuel has run out.
  unfoldable pub brs_client_service : ℕ → ℤ → M (Server X) (Option Bool)
  unfolding service_loop
  brs_client_service fuel connfd = do
    registered ← on_registry (creg_register sems connfd)
    if int_eq registered minus_one then pure (some false) else do
      left ← on_market (service_loop fuel connfd (record { this_trader = none; payload = none }))
      if left
          then (do
            unregistered ← on_registry (creg_unregister sems connfd)
            if int_eq unregistered minus_one then pure (some false) else pure (some true))
          else pure none
