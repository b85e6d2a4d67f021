-- ===== src/Protocol/Reliable.antt =====
-- src/protocol.c: packets over a connection on which no write fails.
use mathlib.Core.List.{append-nil}
use bourse_server.Base.{
  ℕ, ◌≡◌, sym, ◌∙◌, ap, inl, inr, true, Option, List, [], ℤ, pos, done, length, arith, ◌==◌,
  Bool-cases,
}
use bourse_server.Protocol.ByteOrder.{ntohs}
use bourse_server.Protocol.Types.{PacketHeader, header_bytes}
use bourse_server.Protocol.Wire.{Wire, Rio, deliver, Delivered}
use bourse_server.Protocol.Defs.{proto_send_packet, stamp}
use bourse_server.Protocol.Send.{packet, Holds, header_alone, with_body, deliver-deliver}

module _ (rio : Rio) where
  -- No write on the connection fails.
  abbrev pub IsWritable : ℤ → Type 0
  IsWritable fd = (bs : List ℕ) (w : Wire) → Delivered fd bs w (rio.rio_writen fd bs w)

  -- The packet is sent whole.
  pub proto_send_packet-whole :
      (fd : ℤ) (hdr : PacketHeader) (payload : Option (List ℕ)) (body : List ℕ) (w : Wire)
      → IsWritable fd
      → length body ≡ ntohs hdr.size
      → Holds payload body
      → proto_send_packet rio fd hdr payload w
        ≡ done (pos 0, stamp rio hdr w) (deliver fd (packet rio hdr w body) w)
  proto_send_packet-whole fd hdr payload body w written fits holds =
      let head : List ℕ = header_bytes (stamp rio hdr w) in
      let d = written head w in
      elim (Bool-cases (ntohs hdr.size == 0)) [
        | inl empty ↦
            header_alone rio fd hdr payload w _ _ (λ i. (d.result i, d.wire i)) (ground arith)
            ∙ ap (λ bs. done (pos 0, stamp rio hdr w) (deliver fd bs w))
                (sym (rw (no_body empty) (append-nil head)))
        | inr full ↦ elim holds [
          | inl e ↦
              let b = written body (deliver fd head w) in
              rw e (
                with_body rio fd hdr body w (deliver fd head w) _ _ (pos (length body))
                  (λ i. (d.result i, d.wire i)) (ground arith) fits (λ i. (b.result i, b.wire i))
                ∙ ap (done (pos 0, stamp rio hdr w)) (deliver-deliver fd head body w))
          | inr none_held ↦ absurd (ground (arith, ap length none_held))
        ]
      ]
    where
      no_body : (ntohs hdr.size == 0) ≡ true → body ≡ []
      no_body empty = ground arith
