-- ===== src/Protocol/RoundTrip.antt =====
-- src/protocol.c: what one side has sent, the other side receives.
use mathlib.Core.List.{append_assoc}
use bourse_server.Base.{
  ℕ, ◌≡◌, refl, sym, ◌∙◌, ap, inl, inr, Option, List, ◌++◌, ℤ, pos, minus_one, int_eq_self, Outcome,
  done, blocked, fault, length, drop, drop-append, arith, if◌then◌else◌, ◌==◌, some, [],
}
use bourse_server.Protocol.ByteOrder.{ntohs, htonl-lt}
use bourse_server.Protocol.Types.{PacketHeader, IsHeader, zero_header, header_bytes}
use bourse_server.Protocol.Wire.{Wire, Rio}
use bourse_server.Protocol.Defs.{stamp, proto_send_packet, proto_recv_packet}
use bourse_server.Protocol.Send.{Holds, packet, proto_send_packet_lem}
use bourse_server.Protocol.Receive.{IsReliable, proto_recv_packet_lem}

stamp-IsHeader :
    (rio : Rio) (hdr : PacketHeader) (w : Wire) → IsHeader hdr → IsHeader (stamp rio hdr w)
unfolding stamp
stamp-IsHeader rio hdr w v = record {
  type-lt = v.type-lt;
  padding-lt = v.padding-lt;
  size-lt = v.size-lt;
  sec-lt = htonl-lt _;
  nsec-lt = htonl-lt _;
}

-- The parts of a call that has returned.
abbrev result_of : Outcome Wire (ℤ × PacketHeader) → ℤ
result_of (done (r, h) w) = r
result_of (blocked w) = minus_one
result_of fault = minus_one

abbrev header_in : Outcome Wire (ℤ × PacketHeader) → PacketHeader
header_in (done (r, h) w) = h
header_in (blocked w) = zero_header
header_in fault = zero_header

abbrev sent_to : ℤ → Outcome Wire (ℤ × PacketHeader) → List ℕ
sent_to fd (done (r, h) w) = w.outgoing fd
sent_to fd (blocked w) = []
sent_to fd fault = []

cancel : (xs ys zs : List ℕ) → xs ++ ys ≡ xs ++ zs → ys ≡ zs
cancel xs ys zs e = sym (drop-append xs ys) ∙ ap (drop (length xs)) e ∙ drop-append xs zs

module _ (sender receiver : Rio) (fd fd' : ℤ) (hdr : PacketHeader) (payload : Option (List ℕ))
    (body rest : List ℕ) (w w₁ w' : Wire) (hdr₁ buffer : PacketHeader)
    (pointer : Option (List ℕ)) where
  -- A packet that a call has sent whole, with a header that fits its fields and a payload of
  -- the size stated, is what the other side receives, if none of its reads fails and it has
  -- read all that was sent before: the header with its timestamp, and the payload. What was
  -- sent behind the packet is left. With an empty payload the payload pointer stays.
  pub proto_recv_packet-proto_send_packet :
      IsHeader hdr
      → length body ≡ ntohs hdr.size
      → Holds payload body
      → IsReliable receiver fd'
      → proto_send_packet sender fd hdr payload w ≡ done (pos 0, hdr₁) w₁
      → w₁.outgoing fd ++ rest ≡ w.outgoing fd ++ w'.incoming fd'
      → (w'' : Wire) × (proto_recv_packet receiver fd' buffer pointer w'
          ≡ done (pos 0, hdr₁, (if ntohs hdr.size == 0 then pointer else some body)) w'')
        × (w''.incoming fd' ≡ rest)
  unfolding stamp
  proto_recv_packet-proto_send_packet v fits holds reliable sent front =
      elim (proto_send_packet_lem sender fd hdr payload body w fits holds) [
        | inl e ↦
            let stamped : hdr₁ ≡ stamp sender hdr w = ap header_in (sym sent ∙ e) in
            let grown : w₁.outgoing fd ≡ w.outgoing fd ++ packet sender hdr w body =
              ap (sent_to fd) (sym sent ∙ e) ∙ rw (int_eq_self fd) refl in
            rw stamped (
              proto_recv_packet_lem receiver fd' buffer (stamp sender hdr w) pointer body rest w'
                reliable (stamp-IsHeader sender hdr w v) fits
                (cancel (w.outgoing fd) _ _ (
                  sym front
                  ∙ ap (λ bs. bs ++ rest) grown
                  ∙ append_assoc (w.outgoing fd) (packet sender hdr w body) rest
                  ∙ ap (λ bs. w.outgoing fd ++ bs)
                      (append_assoc (header_bytes (stamp sender hdr w)) body rest))))
        | inr (n, e) ↦ absurd (ground (arith, ap result_of (sym sent ∙ e)))
      ]
