-- ===== src/Server/Conversation.antt =====
-- src/server.c: the service loop over the requests of a whole session, to the end of the connection.
use bourse_server.Base.{
  ℕ, zero, suc, ◌<◌, ◌≡◌, refl, ap, subst, ◌∙◌, Option, none, some, true, Bool, List, [], ◌∷◌, ◌++◌,
  ℤ, M, Outcome, done, blocked, fault, IsKept, and_then, pure, ◌>>=◌, ◌>>◌, length, arith,
  int_eq_self,
}
use bourse_server.Protocol.ByteOrder.{ntohs}
use bourse_server.Protocol.Types.{header_bytes}
use bourse_server.Protocol.Receive.{IsReliable}
use bourse_server.Protocol.EndOfFile.{proto_recv_packet-end}
use bourse_server.Protocol.Messages.{
  Request, IsRequest, request_payload, request_header, request_header-type, request_header-size,
}
use bourse_server.Trader.{trader_logout}
use bourse_server.Server.Exchange.{Market}
use bourse_server.Server.State.{System, Locals, on_traders}
use bourse_server.Server.Reference.{serve_as}
use bourse_server.Server.Dispatch.{and_then_assoc}
use bourse_server.Server.Rounds.{locals_as, left_to_read, handle-serve_as, serve_one-request}
use bourse_server.Server.Incoming.{ReadsNothing, market_incoming, handle-Keeps}
use bourse_server.Server.Service.{serve_one, service_loop, logout}

-- A request, and the time at which its packet was sent.
pub record Sent : Type 0 where
  pub request : Request
  pub sec : ℕ
  pub nsec : ℕ

-- What the client sends, to the end of the connection.
abbrev pub packets : List Sent → List ℕ
packets [] = []
packets (q ∷ qs) =
    header_bytes (request_header q.request q.sec q.nsec)
    ++ (request_payload q.request ++ packets qs)

abbrev pub AllRequests : List Sent → Type 0
AllRequests [] = Unit {0}
AllRequests (q ∷ qs) = IsRequest q.request × AllRequests qs

module _ {X : Type 0} (sys : System X) (me : ℕ) (fd : ℤ) where
  -- The requests one behind the other, and the logout. `trader` is who is logged in.
  unfoldable pub converse : List Sent → Option ℕ → M (Market X) Bool
  converse [] none m = done true m
  converse [] (some p) m = (on_traders (trader_logout me p) >>= λ _. pure true) m
  converse (q ∷ qs) trader m =
      (serve_as sys me fd trader q.request >>= converse qs) (left_to_read fd (packets qs) m)

  module _ (reliable : IsReliable sys.rio fd) (quiet : ReadsNothing sys.exchange) where
    IsKept-locals :
        {A : Type 0} (kept : ℤ → List ℕ) (o : Outcome (Market X) A) (f : A → Locals)
        → IsKept market_incoming kept (and_then o (λ t. pure (f t)))
        → IsKept market_incoming kept o
    IsKept-locals kept (done t s) f e = e
    IsKept-locals kept (blocked s) f e = tt
    IsKept-locals kept fault f e = tt

    serve_as-IsKept :
        (trader : Option ℕ) (r : Request) (m : Market X)
        → IsRequest r
        → IsKept market_incoming (market_incoming m) (serve_as sys me fd trader r m)
    serve_as-IsKept trader r m fits =
        let h = request_header r 0 0 in
        IsKept-locals (market_incoming m) _ (λ t. locals_as t r none)
          (subst (IsKept market_incoming (market_incoming m))
            (handle-serve_as sys me fd h none m trader r fits (request_header-type r 0 0)
              (request_header-size r 0 0 fits))
            ((handle-Keeps sys me quiet fd h (locals_as trader r none)).kept m))

    goes_on :
        (kept : ℤ → List ℕ) (fuel : ℕ) (qs : List Sent) (o : Outcome (Market X) (Option ℕ))
        (f : Option ℕ → Locals)
        → IsKept market_incoming kept o
        → ((t : Option ℕ) (s : Market X)
            → market_incoming s ≡ kept
            → service_loop sys me fuel fd (f t) s ≡ converse qs t s)
        → and_then
            (and_then o (λ t. pure (some (f t))))
            (λ next. elim next [ none ↦ pure true | some l ↦ service_loop sys me fuel fd l ])
          ≡ and_then o (converse qs)
    goes_on kept fuel qs (done t s) f e rest = rest t s e
    goes_on kept fuel qs (blocked s) f e rest = refl
    goes_on kept fuel qs fault f e rest = refl

    at_end :
        (trader : Option ℕ) (old : Option (List ℕ)) (m : Market X)
        → m.traders.wire.incoming fd ≡ []
        → serve_one sys me fd (record { this_trader = trader; payload = old }) m
          ≡ (logout sys me trader >> pure none) m
    unfolding serve_one ntohs
    at_end trader old m ended =
        rw (proto_recv_packet-end sys.rio fd old m.traders.wire reliable ended) refl

    -- On a connection on which no read fails, with nothing left to read but the packets of some
    -- requests, whose numbers fit their fields, and an exchange that reads nothing from it, the
    -- loop serves the requests one behind the other as the reference says, logs out whoever is
    -- logged in then, and is left; if a request waits, or the program has undefined behaviour
    -- in it, so does the loop. Fuel for one round more than there are requests is enough.
    pub service_loop-converse :
        (qs : List Sent) (fuel : ℕ) (trader : Option ℕ) (old : Option (List ℕ)) (m : Market X)
        → AllRequests qs
        → length qs < fuel
        → m.traders.wire.incoming fd ≡ packets qs
        → service_loop sys me fuel fd (record { this_trader = trader; payload = old }) m
          ≡ converse qs trader m
    unfolding service_loop converse
    service_loop-converse qs zero trader old m fits enough front = absurd (omega arith)
    service_loop-converse [] (suc fuel) none old m fits enough front =
        rw (at_end none old m front) refl
    service_loop-converse [] (suc fuel) (some p) old m fits enough front =
        rw (at_end (some p) old m front)
          (and_then_assoc (on_traders (trader_logout me p) m) _ _ _ (λ _ _. refl))
    service_loop-converse (q ∷ qs) (suc fuel) trader old m (fit, fits) enough front =
        rw
          (serve_one-request sys me fd reliable trader old q.request q.sec q.nsec (packets qs) m fit
            front)
          (goes_on _ fuel qs _ _
            (serve_as-IsKept trader q.request (left_to_read fd (packets qs) m) fit)
            (λ t s kept.
              service_loop-converse qs fuel t _ s fits (omega arith)
                (ap (λ f. f fd) kept ∙ rw (int_eq_self fd) refl)))
