-- ===== src/Server/Termination.antt =====
-- src/server.c: the loop of `brs_client_service` ends when the client has said all.
use bourse_server.Base.{
  ℕ, zero, suc, ◌<◌, ◌≤◌, ◌≡◌, refl, ◌⊎◌, inl, inr, Bool, true, Option, some, none, ℤ, Outcome,
  done, blocked, fault, arith, and_then, pure, IsKept, length,
}
use bourse_server.Protocol.Types.{zero_header}
use bourse_server.Protocol.Receive.{IsReliable}
use bourse_server.Protocol.Progress.{proto_recv_packet-result}
use bourse_server.Server.Exchange.{Market}
use bourse_server.Server.State.{System, Locals}
use bourse_server.Server.Service.{serve_one, service_loop}
use bourse_server.Server.Incoming.{ReadsNothing, market_incoming, handle-Keeps}

-- The bytes that the client on `fd` will still send.
abbrev pub left : {X : Type 0} → ℤ → Market X → ℕ
left fd m = length (market_incoming m fd)

-- If the thread goes on, the client has less than `n` bytes left to send.
abbrev Shrinks : {X : Type 0} → ℤ → ℕ → Outcome (Market X) (Option Locals) → Type 0
Shrinks fd n (done (some l) m) = left fd m < n
Shrinks fd n (done none m) = Unit {0}
Shrinks fd n (blocked m) = Unit {0}
Shrinks fd n fault = Unit {0}

-- The call has ended without a want of fuel: the loop is left, or it waits for another thread, or
-- the program has no behaviour.
abbrev pub HasFuel : {X : Type 0} → Outcome (Market X) Bool → Type 0
HasFuel {X} r =
    (r ≡ fault) ⊎ (((m : Market X) × (r ≡ blocked m)) ⊎ ((m : Market X) × (r ≡ done true m)))

break-Shrinks :
    {X : Type 0} (fd : ℤ) (n : ℕ) (o : Outcome (Market X) (Unit {0}))
    → Shrinks fd n (and_then o (λ _. pure none))
break-Shrinks fd n (done a m) = tt
break-Shrinks fd n (blocked m) = tt
break-Shrinks fd n fault = tt

next-Shrinks :
    {X : Type 0} (fd : ℤ) (n : ℕ) (m : Market X) (o : Outcome (Market X) Locals)
    → left fd m < n
    → IsKept market_incoming (market_incoming m) o
    → Shrinks fd n (and_then o (λ l. pure (some l)))
next-Shrinks fd n m (done l m') less e = rw e less
next-Shrinks fd n m (blocked m') less e = tt
next-Shrinks fd n m fault less e = tt

module _ {X : Type 0} (sys : System X) (me : ℕ) (fd : ℤ) (quiet : ReadsNothing (sys.exchange))
    (reliable : IsReliable (sys.rio) fd) where
  serve_one-Shrinks :
      (locals : Locals) (m : Market X) → Shrinks fd (left fd m) (serve_one sys me fd locals m)
  unfolding serve_one
  serve_one-Shrinks locals m =
      let (r, h, payload', w', e, cases) =
        proto_recv_packet-result sys.rio fd zero_header locals.payload m.traders.wire reliable in
      elim cases [
        | inl (ended, failed, same) ↦ rw (e, failed) (break-Shrinks fd (left fd m) _)
        | inr (ok, less) ↦
            rw (e, ok)
              (next-Shrinks fd (left fd m) (record m { traders = record m.traders { wire = w' } }) _
                less ((handle-Keeps sys me quiet fd h _).kept _))
      ]

  after-HasFuel :
      (fuel n : ℕ) (o : Outcome (Market X) (Option Locals))
      → Shrinks fd n o
      → n ≤ fuel
      → ((l : Locals) (m : Market X) → left fd m < fuel → HasFuel (service_loop sys me fuel fd l m))
      → HasFuel (
          and_then o
            (λ next. elim next [ none ↦ pure true | some l ↦ service_loop sys me fuel fd l ]))
  after-HasFuel fuel n (done (some l) m) less enough rest = rest l m (omega arith)
  after-HasFuel fuel n (done none m) less enough rest = inr (inr (m, refl))
  after-HasFuel fuel n (blocked m) less enough rest = inr (inl (m, refl))
  after-HasFuel fuel n fault less enough rest = inl refl

  -- If no read on the connection fails and the exchange reads nothing from it, fuel for one packet
  -- more than the client has bytes left to send is enough: the loop is left, at the end of the
  -- connection, unless the thread waits for another one or the program has undefined behaviour.
  pub service_loop-HasFuel :
      (fuel : ℕ) (locals : Locals) (m : Market X)
      → left fd m < fuel
      → HasFuel (service_loop sys me fuel fd locals m)
  unfolding service_loop
  service_loop-HasFuel zero locals m enough = absurd (omega arith)
  service_loop-HasFuel (suc fuel) locals m enough =
      after-HasFuel fuel (left fd m) (serve_one sys me fd locals m) (serve_one-Shrinks locals m)
        (omega arith) (service_loop-HasFuel fuel)
