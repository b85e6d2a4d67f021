-- ===== src/Protocol/Incoming.antt =====
-- src/protocol.c: what `proto_send_packet` does to the bytes that are still to come: nothing.
use bourse_server.Base.{
  ℕ, ap, inl, inr, Option, some, none, List, ℤ, pos, minus_one, int_eq, ◌==◌, arith, Keeps,
  bind-Keeps, if-Keeps, pure-Keeps, get-Keeps, fault-Keeps,
}
use bourse_server.Protocol.ByteOrder.{ntohs}
use bourse_server.Protocol.Types.{PacketHeader, header_bytes}
use bourse_server.Protocol.Wire.{Wire, Rio}
use bourse_server.Protocol.Defs.{writen, read_block, stamp, proto_send_packet}

abbrev pub to_come : Wire → ℤ → List ℕ
to_come w = w.incoming

read_block-Keeps : (payload : Option (List ℕ)) (n : ℕ) → Keeps to_come (read_block payload n)
read_block-Keeps none n = fault-Keeps
read_block-Keeps (some block) n = record { kept = λ w. ground arith }

module _ (rio : Rio) where
  writen-Keeps : (fd : ℤ) (bs : List ℕ) → Keeps to_come (writen rio fd bs)
  writen-Keeps fd bs = record {
    kept = λ w. elim (rio.rio_writen_lem fd bs w) [
      | inl d ↦ ap to_come d.wire
      | inr u ↦ ap to_come u.wire
    ];
  }

  pub proto_send_packet-Keeps :
      (fd : ℤ) (hdr : PacketHeader) (payload : Option (List ℕ))
      → Keeps to_come (proto_send_packet rio fd hdr payload)
  unfolding proto_send_packet
  proto_send_packet-Keeps fd hdr payload = bind-Keeps (get-Keeps {f = stamp rio hdr}) λ hdr'.
      bind-Keeps (writen-Keeps fd (header_bytes hdr')) λ rio_hdr.
        if-Keeps (int_eq rio_hdr minus_one) (pure-Keeps {a = (minus_one, hdr')}) (
          if-Keeps (ntohs hdr'.size == 0) (pure-Keeps {a = (pos 0, hdr')}) (
            bind-Keeps (read_block-Keeps payload (ntohs hdr'.size)) λ bytes.
              bind-Keeps (writen-Keeps fd bytes) λ r.
                if-Keeps (int_eq r minus_one) (pure-Keeps {a = (minus_one, hdr')})
                  (pure-Keeps {a = (pos 0, hdr')})))
