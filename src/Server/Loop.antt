-- ===== src/Server/Loop.antt =====
-- src/server.c: the service loop from its first round to its last.
use bourse_server.Base.{
  ℕ, zero, suc, [], ◌≡◌, refl, ap, ◌<◌, ◌∙◌, sym, Bool, true, false, Option, none, some, ℤ,
  minus_one, int_eq, Outcome, done, blocked, fault, ◌⊎◌, and_then, pure, inl, inr, Returns,
  and_then-Returns, next-Returns, if-Returns, Returns-done, done_state,
}
use bourse_server.Protocol.Types.{zero_header}
use bourse_server.Server.Exchange.{Market}
use bourse_server.Server.State.{System, Locals, on_traders}
use bourse_server.Protocol.{proto_recv_packet}
use bourse_server.Trader.{on_wire}
use bourse_server.Server.Requests.{handle}
use bourse_server.Protocol.Receive.{IsReliable}
use bourse_server.Protocol.Progress.{proto_recv_packet-result}
use bourse_server.Server.Incoming.{ReadsNothing}
use bourse_server.Server.Termination.{left, service_loop-HasFuel}
use bourse_server.Server.Service.{serve_one, hang_up, service_loop}
use bourse_server.Server.Session.{
  Step, passed_over, turned_away, let_in, stays, Follows, handle-Returns,
}

module _ {X : Type 0} (sys : System X) (me : ℕ) (fd : ℤ) where
  -- Rounds of the loop, one behind the other, none of which leaves it.
  pub data Rounds : Locals → Market X → Locals → Market X → Type 0 where
    still : {locals : Locals} {m : Market X} → Rounds locals m locals m
    round :
        {locals locals₁ locals₂ : Locals} {m m₁ m₂ : Market X}
        → serve_one sys me fd locals m ≡ done (some locals₁) m₁
        → Rounds locals₁ m₁ locals₂ m₂
        → Rounds locals m locals₂ m₂

  -- The client is logged in as the same trader as before, or not yet, or has been let in.
  abbrev pub IsLater : Option ℕ → Option ℕ → Type 0
  IsLater before after = (after ≡ before) ⊎ ((before ≡ none) × ((p : ℕ) × (after ≡ some p)))

  Step-IsLater :
      {type : ℕ} {before after : Option ℕ} → Step type before after → IsLater before after
  Step-IsLater (passed_over other) = inl refl
  Step-IsLater (turned_away kind) = inl refl
  Step-IsLater (let_in p kind) = inr (refl, (p, refl))
  Step-IsLater (stays p) = inl refl

  IsLater-trans : {a b c : Option ℕ} → IsLater a b → IsLater b c → IsLater a c
  IsLater-trans (inl e) (inl f) = inl (f ∙ e)
  IsLater-trans (inl e) (inr (out, member)) = inr (sym e ∙ out, member)
  IsLater-trans (inr (out, (p, e))) (inl f) = inr (out, (p, f ∙ e))
  IsLater-trans (inr (out, first)) (inr (again, member)) = inr (out, member)

  abbrev LaterThan : Locals → Option Locals → Type 0
  LaterThan locals none = Unit {0}
  LaterThan locals (some next) = IsLater locals.this_trader next.this_trader

  serve_one-Returns :
      (locals : Locals) (m : Market X) → Returns (LaterThan locals) (serve_one sys me fd locals m)
  unfolding serve_one
  serve_one-Returns locals m =
      and_then-Returns _
        (on_traders (on_wire (proto_recv_packet sys.rio fd zero_header locals.payload)) m) _
        λ got m₁.
          if-Returns _ (int_eq got.0 minus_one) _ _ m₁
            (λ _.
              and_then-Returns _ (hang_up sys me got.1 (record locals { payload = got.2 }) m₁) _
                (λ _ _. tt))
            (λ _.
              next-Returns (Follows sys me fd got.1 (record locals { payload = got.2 })) _
                (handle sys me fd got.1 (record locals { payload = got.2 }) m₁) _
                (handle-Returns sys me fd got.1 locals.this_trader got.2 m₁)
                (λ _ _ follows. Step-IsLater follows.0))

  Rounds-IsLater :
      {locals locals' : Locals} {m m' : Market X}
      → Rounds locals m locals' m'
      → IsLater locals.this_trader locals'.this_trader
  Rounds-IsLater still = inl refl
  Rounds-IsLater (round {locals} {m = m} ran rest) =
      IsLater-trans (Returns-done (LaterThan locals) (serve_one-Returns locals m) ran)
        (Rounds-IsLater rest)

  -- Where a round leaves the loop, there is nothing left to read.
  abbrev AtEnd : Market X → Outcome (Market X) (Option Locals) → Type 0
  AtEnd m (done none m') = m.traders.wire.incoming fd ≡ []
  AtEnd m (done (some next) m') = Unit {0}
  AtEnd m (blocked m') = Unit {0}
  AtEnd m fault = Unit {0}

  ended-AtEnd :
      (m : Market X) (o : Outcome (Market X) (Unit {0}))
      → m.traders.wire.incoming fd ≡ []
      → AtEnd m (and_then o (λ _. pure none))
  ended-AtEnd m (done a m') ended = ended
  ended-AtEnd m (blocked m') ended = tt
  ended-AtEnd m fault ended = tt

  next-AtEnd :
      (m : Market X) (o : Outcome (Market X) Locals) → AtEnd m (and_then o (λ l. pure (some l)))
  next-AtEnd m (done l m') = tt
  next-AtEnd m (blocked m') = tt
  next-AtEnd m fault = tt

  serve_one-AtEnd :
      (locals : Locals) (m : Market X)
      → IsReliable (sys.rio) fd
      → AtEnd m (serve_one sys me fd locals m)
  unfolding serve_one
  serve_one-AtEnd locals m reliable =
      let (r, h, payload', w', e, cases) =
        proto_recv_packet-result sys.rio fd zero_header locals.payload m.traders.wire reliable in
      elim cases [
        | inl (ended, failed, same) ↦ rw (e, failed) (ended-AtEnd m _ ended)
        | inr (ok, less) ↦ rw (e, ok) (next-AtEnd m _)
      ]

  -- The loop has been left: some rounds, and then one that finds nothing left to read.
  pub record Finished (locals : Locals) (m m' : Market X) : Type 0 where
    pub last : Locals
    pub market : Market X
    pub rounds : Rounds locals m last market
    pub leaves : serve_one sys me fd last market ≡ done none m'
    pub ended : market.traders.wire.incoming fd ≡ []
    pub later : IsLater locals.this_trader last.this_trader

  one_more :
      {locals next : Locals} {m m₁ m' : Market X}
      → serve_one sys me fd locals m ≡ done (some next) m₁
      → Finished next m₁ m'
      → Finished locals m m'
  one_more ran f = record {
    last = f.last;
    market = f.market;
    rounds = round ran f.rounds;
    leaves = f.leaves;
    ended = f.ended;
    later = Rounds-IsLater (round ran f.rounds);
  }

  after-Finished :
      (fuel : ℕ) (locals : Locals) (m m' : Market X) (o : Outcome (Market X) (Option Locals))
      → serve_one sys me fd locals m ≡ o
      → AtEnd m o
      → ((next : Locals) (m₁ : Market X)
          → service_loop sys me fuel fd next m₁ ≡ done true m'
          → Finished next m₁ m')
      → and_then o (λ next. elim next [ none ↦ pure true | some l ↦ service_loop sys me fuel fd l ])
        ≡ done true m'
      → Finished locals m m'
  after-Finished fuel locals m m' (done none m₁) ran at_end rest ended = record {
    last = locals;
    market = m;
    rounds = still;
    leaves = ran ∙ ap (done none) (done_state ended);
    ended = at_end;
    later = inl refl;
  }
  after-Finished fuel locals m m' (done (some next) m₁) ran at_end rest ended =
      one_more ran (rest next m₁ ended)
  after-Finished fuel locals m m' (blocked m₁) ran at_end rest ended = absurd (waits ended)
    where
      waits : ◌≡◌ {A = Outcome (Market X) Bool} (blocked m₁) (done true m') → ⊥
      waits e = cc
  after-Finished fuel locals m m' fault ran at_end rest ended = absurd (fails ended)
    where
      fails : ◌≡◌ {A = Outcome (Market X) Bool} fault (done true m') → ⊥
      fails e = cc

  service_loop-Finished :
      (fuel : ℕ) (locals : Locals) (m m' : Market X)
      → IsReliable (sys.rio) fd
      → service_loop sys me fuel fd locals m ≡ done true m'
      → Finished locals m m'
  unfolding service_loop
  service_loop-Finished zero locals m m' reliable ended = absurd (no_fuel ended)
    where
      no_fuel : ◌≡◌ {A = Outcome (Market X) Bool} (done false m) (done true m') → ⊥
      no_fuel e = cc
  service_loop-Finished (suc fuel) locals m m' reliable ended =
      after-Finished fuel locals m m' (serve_one sys me fd locals m) refl
        (serve_one-AtEnd locals m reliable)
        (λ next m₁. service_loop-Finished fuel next m₁ m' reliable) ended

  -- If no read on the connection fails, the exchange reads nothing from it, and the fuel is
  -- more than the bytes that the client has left to send, then the loop is left behind a
  -- sequence of rounds, by a round that starts with nothing left to read on the connection,
  -- unless the thread waits for another one or the program has undefined behaviour. In the rounds
  -- a client may be let in; once logged in, it is the same trader to the last round.
  pub service_loop_lem :
      (fuel : ℕ) (locals : Locals) (m : Market X)
      → ReadsNothing (sys.exchange)
      → IsReliable (sys.rio) fd
      → left fd m < fuel
      → (service_loop sys me fuel fd locals m ≡ fault)
        ⊎ (((m' : Market X) × (service_loop sys me fuel fd locals m ≡ blocked m'))
            ⊎ ((m' : Market X) × (service_loop sys me fuel fd locals m ≡ done true m')
                × Finished locals m m'))
  service_loop_lem fuel locals m quiet reliable enough =
      elim (service_loop-HasFuel sys me fd quiet reliable fuel locals m enough) [
        | inl failed ↦ inl failed
        | inr (inl waits) ↦ inr (inl waits)
        | inr (inr (m', ended)) ↦
            inr (inr (m', ended, service_loop-Finished fuel locals m m' reliable ended))
      ]
