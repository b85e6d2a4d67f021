-- ===== src/Server/Rounds.antt =====
-- src/server.c: rounds of the loop of `brs_client_service`, from the bytes of a request on.
use bourse_server.Base.{
  ℕ, suc, ◌≤◌, ◌≡◌, refl, sym, ap, ◌∙◌, Option, none, some, true, false, List, [], ◌∷◌, ◌++◌, ℤ,
  and_then, pure, ◌>>=◌, done, length, arith, leb, ◌==◌, if◌then◌else◌,
}
use bourse_server.Protocol.ByteOrder.{ntohs}
use bourse_server.Protocol.Types.{PacketHeader, header_bytes, zero_header, type_code}
use bourse_server.Protocol.Wire.{with_incoming}
use bourse_server.Protocol.Send.{take-length}
use bourse_server.Protocol.Receive.{IsReliable, proto_recv_packet-with_incoming}
use bourse_server.Protocol.Messages.{
  Request, login, status, deposit, withdraw, escrow, release, buy, sell, cancel, IsRequest,
  request_payload, request_type, request_header, request_header-type, request_header-IsHeader,
  request_header-size,
}
use bourse_server.Trader.{trader_login}
use bourse_server.Server.Exchange.{Market}
use bourse_server.Server.State.{System, Locals, copy_payload, c_string, on_traders}
use bourse_server.Server.Requests.{handle, login_request, login_answer, already_registred}
use bourse_server.Server.Reference.{serve, serve_as, admit, greet}
use bourse_server.Server.Dispatch.{handle-serve, and_then_assoc}
use bourse_server.Server.Service.{serve_one}

-- The payload pointer once the packet of a request has arrived: an empty payload leaves it.
abbrev pub arrived : Request → Option (List ℕ) → Option (List ℕ)
arrived r old = if length (request_payload r) == 0 then old else some (request_payload r)

abbrev pub locals_as : Option ℕ → Request → Option (List ℕ) → Locals
locals_as trader r old = record { this_trader = trader; payload = arrived r old }

within : (n k : ℕ) → n ≤ k → leb n k ≡ true
within n k fits = ground arith

not_zero : (n : ℕ) → (suc n == 0) ≡ false
not_zero n = ground arith

-- The name in the payload, of as many bytes as the header says.
copy_payload-arrived :
    {X : Type 0} (name : List ℕ) (old : Option (List ℕ)) (m : Market X)
    → copy_payload (arrived (login name) old) (length name) m ≡ done name m
unfolding request_payload
copy_payload-arrived [] none m = refl
copy_payload-arrived [] (some block) m = rw (within 0 (length block) (omega arith)) refl
copy_payload-arrived (b ∷ bs) old m =
    rw
      (
        not_zero (length bs),
        within (suc (length bs)) (suc (length bs)) (omega arith),
        take-length bs,
      )
      refl

module _ {X : Type 0} (sys : System X) (me : ℕ) (fd : ℤ) (f : Option ℕ → Locals) where
  -- The code's answer to a login, beside that of the reference.
  pub login_answer-greet :
      (t : Option ℕ) (s : Market X)
      → and_then (greet sys me fd t s) (λ t'. pure (f t'))
        ≡ and_then (login_answer sys me fd t s) (λ t'. pure (f t'))
  unfolding already_registred
  login_answer-greet none s = refl
  login_answer-greet (some p) s = refl

module _ {X : Type 0} (sys : System X) (me : ℕ) (fd : ℤ) (hdr : PacketHeader)
    (old : Option (List ℕ)) (m : Market X) where
  login-admit :
      (name : List ℕ)
      → length name ≡ ntohs hdr.size
      → login_request sys me fd hdr (locals_as none (login name) old) m
        ≡ (admit sys me fd (login name) >>= λ t. pure (locals_as t (login name) old)) m
  unfolding login_request
  login-admit name sized =
      rw (sym sized, copy_payload-arrived name old m)
        (sym (
          and_then_assoc (on_traders (trader_login sys.junk me fd (c_string name)) m) _ _ _
            (login_answer-greet sys me fd (λ t. locals_as t (login name) old))))

  pub handle-serve_as :
      (trader : Option ℕ) (r : Request)
      → IsRequest r
      → hdr.type ≡ type_code (request_type r)
      → length (request_payload r) ≡ ntohs hdr.size
      → handle sys me fd hdr (locals_as trader r old) m
        ≡ (serve_as sys me fd trader r >>= λ t. pure (locals_as t r old)) m
  unfolding handle serve_as request_type request_payload
  handle-serve_as (some p) r fits kind sized =
      handle-serve sys me p fd hdr old m r fits kind
      ∙ sym (and_then_assoc (serve sys me p r m) _ _ _ (λ _ _. refl))
  handle-serve_as none (login name) fits kind sized = rw kind (login-admit name sized)
  handle-serve_as none status fits kind sized = rw kind refl
  handle-serve_as none (deposit x) fits kind sized = rw kind refl
  handle-serve_as none (withdraw x) fits kind sized = rw kind refl
  handle-serve_as none (escrow x) fits kind sized = rw kind refl
  handle-serve_as none (release x) fits kind sized = rw kind refl
  handle-serve_as none (buy q x) fits kind sized = rw kind refl
  handle-serve_as none (sell q x) fits kind sized = rw kind refl
  handle-serve_as none (cancel x) fits kind sized = rw kind refl

-- The market with `bs` left to read on the connection `fd`.
abbrev pub left_to_read : {X : Type 0} → ℤ → List ℕ → Market X → Market X
left_to_read fd bs m = record m {
  traders = record m.traders { wire = with_incoming fd bs m.traders.wire };
}

module _ {X : Type 0} (sys : System X) (me : ℕ) (fd : ℤ) (reliable : IsReliable sys.rio fd) where
  -- On a connection on which no read fails, with the packet of a request at its front, whose
  -- numbers fit their fields and which was sent at any time, a round of the loop does what the
  -- reference says for the request, of a client who is logged in or not, in a state that
  -- differs from the one before in what is left to read: what the client has sent behind the
  -- packet. The next round has the trader that the reference gives.
  pub serve_one-request :
      (trader : Option ℕ) (old : Option (List ℕ)) (r : Request) (sec nsec : ℕ) (rest : List ℕ)
      (m : Market X)
      → IsRequest r
      → m.traders.wire.incoming fd
        ≡ header_bytes (request_header r sec nsec) ++ (request_payload r ++ rest)
      → serve_one sys me fd (record { this_trader = trader; payload = old }) m
        ≡ (serve_as sys me fd trader r >>= λ t. pure (some (locals_as t r old)))
            (left_to_read fd rest m)
  unfolding serve_one
  serve_one-request trader old r sec nsec rest m fits front =
      let h : PacketHeader = request_header r sec nsec in
      let sized = request_header-size r sec nsec fits in
      rw
        (
          proto_recv_packet-with_incoming sys.rio fd zero_header h old (request_payload r) rest
              m.traders.wire reliable (request_header-IsHeader r sec nsec) sized front,
          sym sized,
        )
        (ap (λ o. and_then o (λ l. pure (some l)))
            (handle-serve_as sys me fd h old (left_to_read fd rest m) trader r fits
              (request_header-type r sec nsec) sized)
          ∙ and_then_assoc (serve_as sys me fd trader r (left_to_read fd rest m)) _ _ _
              (λ _ _. refl))
