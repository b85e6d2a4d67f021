-- ===== src/Protocol/Progress.antt =====
-- src/protocol.c: what `proto_recv_packet` returns on a connection, and how much is left there.
use bourse_server.Base.{
  ℕ, suc, ◌-◌, ◌<◌, ◌≡◌, refl, ◌∙◌, ap, ◌⊎◌, inl, inr, Option, List, [], ℤ, pos, minus_one, done,
  length, length-take, length-drop, take, arith, ◌==◌, Bool-cases,
}
use bourse_server.Protocol.ByteOrder.{ntohs}
use bourse_server.Protocol.Types.{PacketHeader, header_size}
use bourse_server.Protocol.Wire.{Wire, Rio, consume}
use bourse_server.Protocol.Defs.{proto_recv_packet}
use bourse_server.Protocol.Receive.{
  IsReliable, filled, header_missing, header_only, header_and_body, incoming-consume,
}

module _ (rio : Rio) where
  open rio use {rio_readn}

  shorter :
      (fd : ℤ) (n : ℕ) (w : Wire)
      → length ((consume fd n w).incoming fd) ≡ length (w.incoming fd) - n
  shorter fd n w = ap length (incoming-consume fd n w) ∙ length-drop n (w.incoming fd)

  -- At the end of the connection the call returns -1 and leaves the payload pointer.
  recv_end :
      (fd : ℤ) (hdr : PacketHeader) (payload : Option (List ℕ)) (w : Wire)
      → IsReliable rio fd
      → w.incoming fd ≡ []
      → (h : PacketHeader) × (w' : Wire) × (proto_recv_packet rio fd hdr payload w
          ≡ done (minus_one, h, payload) w')
  recv_end fd hdr payload w reliable ended =
      let r = reliable header_size w in
      let none_read : (rio_readn fd header_size w).1 ≡ [] = r.bytes ∙ ap (take header_size) ended in
      (
        _,
        _,
        header_missing rio fd hdr payload w _ _
            (λ i. ((r.result ∙ ap (λ l. pos (length l)) none_read) i, none_read i, r.wire i)),
      )

  -- With anything left on the connection, be it less than a header or less than the payload that
  -- the header announces, the call returns 0, and less is left than before.
  recv_some :
      (fd : ℤ) (hdr : PacketHeader) (payload : Option (List ℕ)) (w : Wire)
      → IsReliable rio fd
      → 0 < length (w.incoming fd)
      → (h : PacketHeader) × (payload' : Option (List ℕ)) × (w' : Wire) × (proto_recv_packet rio fd
            hdr payload w
          ≡ done (pos 0, h, payload') w')
        × (length (w'.incoming fd) < length (w.incoming fd))
  recv_some fd hdr payload w reliable more = elim (Bool-cases (ntohs h.size == 0)) [
    | inl empty ↦ (
      h,
      payload,
      w',
      header_only rio fd hdr payload w h got refl w' n first empty,
      omega (arith, shorter fd header_size w),
    )
    | inr full ↦
        let r' = reliable (ntohs h.size) w' in
        (
          h,
          _,
          consume fd (ntohs h.size) w',
          header_and_body rio fd hdr payload w h got refl _ w' _ n _ first full
              (λ i. (r'.result i, (rio_readn fd (ntohs h.size) w').1, r'.wire i)),
          omega (arith, shorter fd header_size w, shorter fd (ntohs h.size) w'),
        )
  ]
    where
      got : List ℕ
      got = take header_size (w.incoming fd)

      h : PacketHeader
      h = filled rio fd hdr payload w got

      w' : Wire
      w' = consume fd header_size w

      n : ℕ
      n = length got - 1

      first : rio_readn fd header_size w ≡ (pos (suc n), got, w')
      first =
          let r = reliable header_size w in
          let some_read : length got ≡ suc n =
            omega (arith, length-take header_size (w.incoming fd)) in
          λ i. (
            (r.result ∙ ap (λ l. pos (length l)) r.bytes ∙ ap pos some_read) i,
            r.bytes i,
            r.wire i,
          )

  -- On a connection on which no read fails, the call returns -1 at the end of the connection,
  -- and only there. With anything left, be it less than a header or less than the payload that
  -- the header announces, it returns 0, and less is left than before.
  pub proto_recv_packet-result :
      (fd : ℤ) (hdr : PacketHeader) (payload : Option (List ℕ)) (w : Wire)
      → IsReliable rio fd
      → (r : ℤ) × (h : PacketHeader) × (payload' : Option (List ℕ)) × (w' : Wire)
        × (proto_recv_packet rio fd hdr payload w ≡ done (r, h, payload') w')
        × (((w.incoming fd ≡ []) × (r ≡ minus_one) × (payload' ≡ payload))
            ⊎ ((r ≡ pos 0) × (length (w'.incoming fd) < length (w.incoming fd))))
  proto_recv_packet-result fd hdr payload w reliable =
      elim (Bool-cases (length (w.incoming fd) == 0)) [
        | inl ended ↦
            let nothing : w.incoming fd ≡ [] = ground arith in
            let (h, w', e) = recv_end fd hdr payload w reliable nothing in
            (minus_one, h, payload, w', e, inl (nothing, refl, refl))
        | inr more ↦
            let (h, payload', w', e, less) = recv_some fd hdr payload w reliable (ground arith) in
            (pos 0, h, payload', w', e, inr (refl, less))
      ]
