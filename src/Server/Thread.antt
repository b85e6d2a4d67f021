-- ===== src/Server/Thread.antt =====
-- src/server.c: `brs_client_service` over a whole session, from the registration to the removal.
use mathlib.Core.List.{Perm, mem-cons_self}
use mathlib.Core.List.Perm
use bourse_server.Base.{
  ℕ, ◌≡◌, ◌≢◌, ◌<◌, refl, true, false, Bool, Option, some, none, List, ◌∷◌, ℤ, minus_one, Outcome,
  done, blocked, fault, and_then, pure, ◌>>=◌, pos, int_eq, if◌then◌else◌, length,
}
use bourse_server.Protocol.Receive.{IsReliable}
use bourse_server.Registry.{ClientRegistry, creg_unregister}
use bourse_server.Registry.Contents.{registered}
use bourse_server.Registry.Invariant.{Inv, clients}
use bourse_server.Registry.Register.{creg_register_lem}
use bourse_server.Registry.Unregister.{creg_unregister_lem}
use bourse_server.Server.Exchange.{Market}
use bourse_server.Server.State.{Server, System, in_market, on_registry}
use bourse_server.Server.Incoming.{ReadsNothing}
use bourse_server.Server.Service.{brs_client_service}
use bourse_server.Server.Conversation.{Sent, packets, AllRequests, converse, service_loop-converse}

-- What a thread comes to by what the session comes to, with the registry `during` while the client
-- is served and `after` behind the removal.
abbrev pub outcome_of :
    {X : Type 0}
    → ClientRegistry
    → ClientRegistry
    → Outcome (Market X) Bool
    → Outcome (Server X) (Option Bool)
outcome_of during after (done true m) = done (some true) (record { market = m; registry = after })
outcome_of during after (done false m) = done none (record { market = m; registry = during })
outcome_of during after (blocked m) = blocked (record { market = m; registry = during })
outcome_of during after fault = fault

-- What follows the loop.
behind_loop :
    {X : Type 0} (sys : System X) (fd : ℤ) (s : Server X) (during after : ClientRegistry)
    (o : Outcome (Market X) Bool)
    → creg_unregister sys.sems fd during ≡ done (pos 0) after
    → and_then (in_market (record s { registry = during }) o) (λ left.
      if left
      then (on_registry (creg_unregister sys.sems fd) >>= λ unregistered.
          if int_eq unregistered minus_one then pure (some false) else pure (some true))
      else pure none)
      ≡ outcome_of during after o
behind_loop sys fd s during after (done true m) gone = rw gone refl
behind_loop sys fd s during after (done false m) gone = refl
behind_loop sys fd s during after (blocked m) gone = refl
behind_loop sys fd s during after fault gone = refl

module _ {X : Type 0} (sys : System X) (me : ℕ) (fd : ℤ) (reliable : IsReliable sys.rio fd)
    (quiet : ReadsNothing sys.exchange) where
  -- A thread whose registry is in order and has a free slot, over a descriptor other than -1 on which
  -- no read fails, with nothing to read but the packets of some requests, whose numbers fit their
  -- fields, and an exchange that reads nothing from it: it registers the client, serves the
  -- requests as the reference says, and if they all return it takes the client out and closes the
  -- connection. If a request waits, or has undefined behaviour, so does the thread, with the
  -- client registered. The registry is in order in both cases, and in the first it has the
  -- descriptors of before. Fuel for one round more than there are requests is enough.
  pub brs_client_service-converse :
      (qs : List Sent) (fuel : ℕ) (s : Server X)
      → Inv s.registry
      → fd ≢ minus_one
      → clients s.registry < s.registry.n
      → AllRequests qs
      → length qs < fuel
      → s.market.traders.wire.incoming fd ≡ packets qs
      → (during after : ClientRegistry) × (brs_client_service sys me fuel fd s
          ≡ outcome_of during after (converse sys me fd qs none s.market))
        × Inv during
        × Perm (registered during.fds) (fd ∷ registered s.registry.fds)
        × Inv after
        × Perm (registered after.fds) (registered s.registry.fds)
  unfolding brs_client_service
  brs_client_service-converse qs fuel s inv real room fits enough front =
      let (during, entered, inv₁, kept₁, grown) =
        creg_register_lem sys.sems s.registry fd inv real room in
      let (after, gone, inv₂, kept₂, shrunk) =
        creg_unregister_lem sys.sems during fd inv₁ real ((Perm.mem_iff grown).1 mem-cons_self) in
      (
        during,
        after,
        rw
            (
              entered,
              service_loop-converse sys me fd reliable quiet qs fuel none none s.market fits enough
                  front,
            )
            (behind_loop sys fd s during after _ gone),
        inv₁,
        grown,
        inv₂,
        Perm.cons_inv (Perm.trans (Perm.symm shrunk) grown),
      )
