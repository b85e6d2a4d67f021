-- ===== src/Server/Session.antt =====
-- include/server.h: the login of a client as a state machine, and the rounds of the service loop.
use bourse_server.Base.{
  ℕ, ◌≡◌, ◌≢◌, refl, Option, none, some, List, ℤ, ◌==◌, arith, Returns, inl, inr, ◌⊎◌, sym, Outcome,
  done, blocked, fault, and_then, pure, ◌>>=◌, ◌>>◌, Bool-cases, ==_iff, and_then-Returns,
  next-Returns, if-Returns,
}
use bourse_server.Protocol.Types.{PacketHeader}
use bourse_server.Server.Exchange.{Market}
use bourse_server.Server.State.{System, Locals, on_traders, copy_payload, c_string}
use bourse_server.Server.Reference.{admit}
use bourse_server.Server.Dispatch.{and_then_assoc}
use bourse_server.Server.Rounds.{login_answer-greet}
use bourse_server.Protocol.Messages.{login}
use bourse_server.Protocol.ByteOrder.{ntohs}
use bourse_server.Trader.{trader_login, trader_send_nack}
use bourse_server.Server.Requests.{
  handle, login_request, login_answer, request, send_ack, send_nack, already_registred,
}

-- "Until the client has logged in, only LOGIN packets will be honored. Once a client has logged in,
-- LOGIN packets will no longer be honored, but other packets will be." A packet with the given
-- type, and who is logged in before and behind it.
pub data Step (type : ℕ) : Option ℕ → Option ℕ → Type 0 where
  passed_over : type ≢ 1 → Step type none none
  turned_away : type ≡ 1 → Step type none none
  let_in : (p : ℕ) → type ≡ 1 → Step type none (some p)
  stays : (p : ℕ) → Step type (some p) (some p)

module _ {X : Type 0} (sys : System X) (me : ℕ) (fd : ℤ) (hdr : PacketHeader) where
  -- What a packet makes of the locals: a step of the login, and the payload pointer as it was.
  abbrev pub Follows : Locals → Locals → Type 0
  Follows locals locals' =
      Step hdr.type locals.this_trader locals'.this_trader × (locals'.payload ≡ locals.payload)

  login_answer-Returns :
      (trader : Option ℕ) (m : Market X)
      → hdr.type ≡ 1
      → Returns (Step hdr.type none) (login_answer sys me fd trader m)
  login_answer-Returns none m kind =
      and_then-Returns _ (already_registred sys me fd m) _ (λ _ _. turned_away kind)
  login_answer-Returns (some p) m kind =
      and_then-Returns _ (send_ack sys me p none m) _ (λ _ _. let_in p kind)

  login_request-Returns :
      (payload : Option (List ℕ)) (m : Market X)
      → hdr.type ≡ 1
      → Returns
          (Follows (record { this_trader = none; payload = payload }))
          (login_request sys me fd hdr (record { this_trader = none; payload = payload }) m)
  unfolding login_request
  login_request-Returns payload m kind =
      and_then-Returns _ (copy_payload payload (ntohs hdr.size) m) _ λ bytes m₁.
        and_then-Returns _ (on_traders (trader_login sys.junk me fd (c_string bytes)) m₁) _ λ t m₂.
          next-Returns (Step hdr.type none) _ (login_answer sys me fd t m₂) _
            (login_answer-Returns t m₂ kind) (λ _ _ step. (step, refl))

  -- Where the handling of a packet returns, it leaves the payload pointer as it was, and makes
  -- a step of the login: before a login only LOGIN can let the client in, and any other type is
  -- passed over; after a login the thread serves the same trader.
  pub handle-Returns :
      (trader : Option ℕ) (payload : Option (List ℕ)) (m : Market X)
      → Returns
          (Follows (record { this_trader = trader; payload = payload }))
          (handle sys me fd hdr (record { this_trader = trader; payload = payload }) m)
  unfolding handle
  handle-Returns (some p) payload m =
      if-Returns _ (hdr.type == 0) _ _ m (λ _. same)
        (λ _.
          if-Returns _ (hdr.type == 1) _ _ m
            (λ _. and_then-Returns _ (send_nack sys me p m) _ (λ _ _. same))
            (λ _. and_then-Returns _ (request sys me hdr.type p payload m) _ (λ _ _. same)))
    where
      same : Step hdr.type (some p) (some p) × (payload ≡ payload)
      same = (stays p, refl)
  handle-Returns none payload m =
      if-Returns _ (hdr.type == 0) _ _ m (λ e. (passed_over (ground arith), refl))
        (λ _.
          if-Returns _ (hdr.type == 1) _ _ m (λ e. login_request-Returns payload m (ground arith))
            (λ e. (passed_over (ground arith), refl)))

  login_request-admit :
      (payload : Option (List ℕ)) (m : Market X)
      → login_request sys me fd hdr (record { this_trader = none; payload = payload }) m
        ≡ (do
          name ← copy_payload payload (ntohs hdr.size)
          t ← admit sys me fd (login name)
          pure (record { this_trader = t; payload = payload }))
            m
  unfolding login_request
  login_request-admit payload m = go (copy_payload payload (ntohs hdr.size) m)
    where
      serving : Option ℕ → Locals
      serving t = record { this_trader = t; payload = payload }

      go :
          (o : Outcome (Market X) (List ℕ))
          → and_then o (λ bytes.
            on_traders (trader_login sys.junk me fd (c_string bytes)) >>= λ trader.
            login_answer sys me fd trader >>= λ t. pure (serving t))
            ≡ and_then o (λ name. admit sys me fd (login name) >>= λ t. pure (serving t))
      go (done name s) = sym (
          and_then_assoc (on_traders (trader_login sys.junk me fd (c_string name)) s) _ _ _
            (login_answer-greet sys me fd serving))
      go (blocked s) = refl
      go fault = refl

  -- From a client who is not logged in, a type other than LOGIN: nothing is done at all.
  abbrev pub PassedOver : Option (List ℕ) → Market X → Type 0
  PassedOver payload m =
      (hdr.type ≢ 1)
      × (handle sys me fd hdr (record { this_trader = none; payload = payload }) m
          ≡ done (record { this_trader = none; payload = payload }) m)

  -- From a client who is not logged in, a LOGIN: the name, and what the reference says of it.
  abbrev pub Admitted : Option (List ℕ) → Market X → Type 0
  Admitted payload m =
      (hdr.type ≡ 1)
      × (handle sys me fd hdr (record { this_trader = none; payload = payload }) m
          ≡ (do
            name ← copy_payload payload (ntohs hdr.size)
            t ← admit sys me fd (login name)
            pure (record { this_trader = t; payload = payload }))
              m)

  -- From a client who is logged in, a LOGIN: a NACK, and no more.
  abbrev pub Refused : ℕ → Option (List ℕ) → Market X → Type 0
  Refused p payload m =
      (hdr.type ≡ 1)
      × (handle sys me fd hdr (record { this_trader = some p; payload = payload }) m
          ≡ (do
            on_traders (trader_send_nack sys.rio sys.stack_header me p)
            pure (record { this_trader = some p; payload = payload }))
              m)

  -- From a client who is logged in, any other type: the same trader and pointer as before.
  abbrev pub StaysAs : ℕ → Option (List ℕ) → Market X → Type 0
  StaysAs p payload m =
      (hdr.type ≢ 1)
      × Returns (λ l. (l.this_trader ≡ some p) × (l.payload ≡ payload))
          (handle sys me fd hdr (record { this_trader = some p; payload = payload }) m)

  -- What the handling of a packet is, by who is logged in.
  abbrev pub Gated : Option ℕ → Option (List ℕ) → Market X → Type 0
  Gated none payload m = PassedOver payload m ⊎ Admitted payload m
  Gated (some p) payload m = Refused p payload m ⊎ StaysAs p payload m

  -- The four cases of a packet. From a client who is not logged in: a type other than LOGIN does
  -- nothing at all, to the market and to the locals; a LOGIN copies the name, logs in under it and
  -- answers as the reference says, which has the trader that the thread serves then. From one who
  -- is: a LOGIN sends a NACK and does no more; any other type leaves the thread with the same
  -- trader and payload pointer, where its handling returns.
  pub handle-Gated :
      (trader : Option ℕ) (payload : Option (List ℕ)) (m : Market X) → Gated trader payload m
  unfolding handle
  handle-Gated none payload m = elim (Bool-cases (hdr.type == 1)) [
    | inl kind ↦ inr (ground arith, rw ((==_iff hdr.type 1).0 kind) (login_request-admit payload m))
    | inr other ↦ elim (Bool-cases (hdr.type == 0)) [
      | inl zero_type ↦ inl (ground arith, rw zero_type refl)
      | inr other_type ↦ inl (ground arith, rw (other_type, other) refl)
    ]
  ]
  handle-Gated (some p) payload m = elim (Bool-cases (hdr.type == 1)) [
    | inl kind ↦ inl (ground arith, rw ((==_iff hdr.type 1).0 kind) refl)
    | inr other ↦ inr (
      ground arith,
      if-Returns _ (hdr.type == 0) _ _ m (λ _. (refl, refl))
          (λ _.
            rw other
              (and_then-Returns _ (request sys me hdr.type p payload m) _ (λ _ _. (refl, refl)))),
    )
  ]
