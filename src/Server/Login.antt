-- ===== src/Server/Login.antt =====
-- src/server.c: the LOGIN packet, from its bytes to the answer.
use bourse_server.Base.{
  ℕ, ◌≡◌, refl, sym, ◌∙◌, ap, ◌⊎◌, inl, inr, true, false, Option, some, none, List, [], ◌∷◌, ℤ,
  done, arith, length, take, leb, ◌==◌,
}
use bourse_server.Protocol.ByteOrder.{htons, ntohs, ntohs-htons}
use bourse_server.Protocol.Types.{PacketHeader, type_code, nack_pkt}
use bourse_server.Protocol.Wire.{deliver}
use bourse_server.Protocol.Send.{packet, take-length, proto_send_packet_lem}
use bourse_server.Trader.{free, Trader, Traders, trader_login}
use bourse_server.Trader.Sending.{delivered, kept}
use bourse_server.Trader.Answers.{empty_ack, trader_send_ack-none}
use bourse_server.Server.Exchange.{Market}
use bourse_server.Server.State.{System, Locals, c_string}
use bourse_server.Server.Requests.{handle}

-- No byte of the name is NUL.
abbrev pub NoNul : List ℕ → Type 0
NoNul [] = Unit {0}
NoNul (b ∷ bs) = ((b == 0) ≡ false) × NoNul bs

c_string-NoNul : (name : List ℕ) → NoNul name → c_string name ≡ name
c_string-NoNul [] h = refl
c_string-NoNul (b ∷ bs) h = rw h.0 (ap (◌∷◌ b) (c_string-NoNul bs h.1))

module _ {X : Type 0} (sys : System X) (me : ℕ) (fd : ℤ) (hdr : PacketHeader) (name : List ℕ)
    (m : Market X) (s' : Traders) (login : hdr.type ≡ 1) (size : length name ≡ ntohs hdr.size)
    (text : NoNul name) where
  open sys use {rio, junk, stack_header}

  fits : leb (ntohs hdr.size) (length name) ≡ true
  fits = ground arith

  whole : take (ntohs hdr.size) name ≡ name
  whole = ap (λ n. take n name) (sym size) ∙ take-length name

  abbrev locals : Option ℕ → Locals
  locals p = record { this_trader = p; payload = some name }

  -- A LOGIN packet from a client who is not logged in, whose payload is a name without NUL
  -- bytes: if the login of that name over the client's descriptor gives a trader whose mutex is
  -- free, the thread serves that trader from then on, and the client is sent an ACK without
  -- payload, or some first part of it, and then the thread keeps the mutex.
  pub handle-login_accepted :
      (p : ℕ) (u : Trader)
      → trader_login junk me fd name m.traders ≡ done (some p) s'
      → s'.heap p ≡ some u
      → u.trader_mutex ≡ free
      → (handle sys me fd hdr (locals none) m
          ≡ done (locals (some p)) (record m {
            traders = delivered u (packet rio (empty_ack stack_header) s'.wire []) s';
          }))
        ⊎ ((n : ℕ) × (handle sys me fd hdr (locals none) m
              ≡ done (locals (some p)) (record m {
                traders = kept me p u (take n (packet rio (empty_ack stack_header) s'.wire [])) s';
              })))
  unfolding handle
  handle-login_accepted p u accepted live idle =
      elim (trader_send_ack-none rio stack_header me p s' u live idle) [
        | inl sent ↦ inl (rw (login, fits, whole, c_string-NoNul name text, accepted, sent) refl)
        | inr (n, failed) ↦
            inr (n, rw (login, fits, whole, c_string-NoNul name text, accepted, failed) refl)
      ]

  abbrev refusal : PacketHeader
  refusal = record stack_header { type = type_code nack_pkt; size = htons 0 }

  -- A LOGIN packet from a client who is not logged in, whose payload is a name without NUL
  -- bytes: if the login of that name over the client's descriptor is refused, the client is
  -- still not logged in, and is sent a NACK without payload, or some first part of it, over its
  -- descriptor.
  pub handle-login_refused :
      trader_login junk me fd name m.traders ≡ done none s'
      → (handle sys me fd hdr (locals none) m
          ≡ done (locals none) (record m {
            traders = record s' { wire = deliver fd (packet rio refusal s'.wire []) s'.wire };
          }))
        ⊎ ((n : ℕ) × (handle sys me fd hdr (locals none) m
              ≡ done (locals none) (record m {
                traders = record s' {
                  wire = deliver fd (take n (packet rio refusal s'.wire [])) s'.wire;
                };
              })))
  unfolding handle
  handle-login_refused refused =
      elim (proto_send_packet_lem rio fd refusal none [] s'.wire (sym (ntohs-htons 0 (omega arith)))
        (inr refl)) [
          | inl sent ↦ inl (rw (login, fits, whole, c_string-NoNul name text, refused, sent) refl)
          | inr (n, failed) ↦
              inr (n, rw (login, fits, whole, c_string-NoNul name text, refused, failed) refl)
        ]
