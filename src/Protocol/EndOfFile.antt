-- ===== src/Protocol/EndOfFile.antt =====
-- src/protocol.c: `proto_recv_packet` on a connection that the client has closed.
use mathlib.Core.Path.{fun_ext}
use bourse_server.Base.{
  ℕ, ◌≡◌, refl, ◌∙◌, ap, inl, inr, Option, List, [], ℤ, pos, minus_one, int_eq, int_eq_iff, done,
  length, take, drop, Bool-cases,
}
use bourse_server.Protocol.Types.{header_size, header_bytes, header_of, zero_header}
use bourse_server.Protocol.Wire.{Wire, Rio, consume, update}
use bourse_server.Protocol.Defs.{proto_recv_packet}
use bourse_server.Protocol.Receive.{IsReliable, header_missing}

consume-end : (fd : ℤ) (w : Wire) → w.incoming fd ≡ [] → consume fd header_size w ≡ w
consume-end fd w ended = λ i. record w { incoming = fun_ext same_at i }
  where
    same_at : (x : ℤ) → update w.incoming fd (drop header_size (w.incoming fd)) x ≡ w.incoming x
    same_at x = elim (Bool-cases (int_eq x fd)) [
      | inl e ↦ rw (e, (int_eq_iff x fd).0 e, ended) refl
      | inr e ↦ rw e refl
    ]

module _ (rio : Rio) (fd : ℤ) (payload : Option (List ℕ)) (w : Wire) where
  -- On a connection on which no read fails and which is at its end, a call with a header of zeros
  -- returns -1 and changes nothing.
  pub proto_recv_packet-end :
      IsReliable rio fd
      → w.incoming fd ≡ []
      → proto_recv_packet rio fd zero_header payload w ≡ done (minus_one, zero_header, payload) w
  unfolding header_of header_bytes
  proto_recv_packet-end reliable ended =
      let r = reliable header_size w in
      let none_read : (rio.rio_readn fd header_size w).1 ≡ [] =
        r.bytes ∙ ap (take header_size) ended in
      header_missing rio fd zero_header payload w [] w λ i. (
        (r.result ∙ ap (λ l. pos (length l)) none_read) i,
        none_read i,
        (r.wire ∙ consume-end fd w ended) i,
      )
