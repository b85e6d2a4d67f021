-- ===== src/Protocol/Receive.antt =====
-- src/protocol.c: what `proto_recv_packet` takes from a connection.
use mathlib.Core.Path.{fun_ext}
use bourse_server.Base.{
  ℕ, suc, ◌≡◌, refl, sym, ◌∙◌, subst, ap, inl, inr, true, false, Option, some, List, [], ◌∷◌, ◌++◌,
  ℤ, pos, minus_one, int_eq, int_eq_self, done, length, take, drop, take-append, drop-append, arith,
  if◌then◌else◌, ◌==◌, Bool-cases,
}
use bourse_server.Protocol.ByteOrder.{ntohs}
use bourse_server.Protocol.Types.{
  PacketHeader, IsHeader, header_bytes, header_size, header_of, overwrite, header_of-header_bytes,
  length-header_bytes,
}
use bourse_server.Protocol.Wire.{Wire, Rio, update, with_incoming, consume, Received}
use bourse_server.Protocol.Defs.{proto_recv_packet}

-- A block that is written over whole holds what was written.
overwrite_whole : (new old : List ℕ) → length new ≡ length old → overwrite new old ≡ new
overwrite_whole [] [] h = refl
overwrite_whole [] (o ∷ old) h = absurd (omega arith)
overwrite_whole (b ∷ new) [] h = absurd (omega arith)
overwrite_whole (b ∷ new) (o ∷ old) h = ap (◌∷◌ b) (overwrite_whole new old (omega arith))

pub incoming-consume :
    (fd : ℤ) (n : ℕ) (w : Wire) → (consume fd n w).incoming fd ≡ drop n (w.incoming fd)
incoming-consume fd n w = rw (int_eq_self fd)

consume-with_incoming :
    (fd : ℤ) (n : ℕ) (bs : List ℕ) (w : Wire)
    → (consume fd n w).incoming fd ≡ bs
    → consume fd n w ≡ with_incoming fd bs w
consume-with_incoming fd n bs w e =
    ap (λ x. with_incoming fd x w) (sym (incoming-consume fd n w) ∙ e)

with_incoming-with_incoming :
    (fd : ℤ) (bs bs' : List ℕ) (w : Wire)
    → with_incoming fd bs' (with_incoming fd bs w) ≡ with_incoming fd bs' w
with_incoming-with_incoming fd bs bs' w = λ i. record w { incoming = fun_ext same_at i }
  where
    same_at : (x : ℤ) → update (update w.incoming fd bs) fd bs' x ≡ update w.incoming fd bs' x
    same_at x = elim (Bool-cases (int_eq x fd)) [ inl e ↦ rw e refl | inr e ↦ rw e refl ]

suc-ne-zero : (n : ℕ) → (suc n == 0) ≡ false
suc-ne-zero n = ground arith

module _ (rio : Rio) where
  open rio use {rio_readn, malloc_bytes, malloc_bytes_lem}

  -- No read on the connection ends in an error.
  abbrev pub IsReliable : ℤ → Type 0
  IsReliable fd = (n : ℕ) (w : Wire) → Received fd n w (rio_readn fd n w)

  module _ (fd : ℤ) (hdr : PacketHeader) (payload : Option (List ℕ)) (w : Wire) where
    abbrev pub filled : List ℕ → PacketHeader
    filled got = header_of (overwrite got (header_bytes hdr))

    pub header_missing :
        (got : List ℕ) (w' : Wire)
        → rio_readn fd header_size w ≡ (pos 0, got, w')
        → proto_recv_packet rio fd hdr payload w ≡ done (minus_one, filled got, payload) w'
    unfolding proto_recv_packet
    header_missing got w' e = rw e

    module _ (h : PacketHeader) (got : List ℕ) (arrived : filled got ≡ h) where
      pub header_only :
          (w' : Wire) (n : ℕ)
          → rio_readn fd header_size w ≡ (pos (suc n), got, w')
          → (ntohs h.size == 0) ≡ true
          → proto_recv_packet rio fd hdr payload w ≡ done (pos 0, h, payload) w'
      unfolding proto_recv_packet
      header_only w' n e empty = rw (e, suc-ne-zero n, arrived, empty)

      pub header_and_body :
          (body : List ℕ) (w' w'' : Wire) (n m : ℕ)
          → rio_readn fd header_size w ≡ (pos (suc n), got, w')
          → (ntohs h.size == 0) ≡ false
          → rio_readn fd (ntohs h.size) w' ≡ (pos m, body, w'')
          → proto_recv_packet rio fd hdr payload w
            ≡ done (pos 0, h, some (overwrite body (malloc_bytes (ntohs h.size)))) w''
      unfolding proto_recv_packet
      header_and_body body w' w'' n m e full e' = rw (e, suc-ne-zero n, arrived, full, e')

  -- The header is memory of 12 bytes, so a header that arrives whole replaces it.
  filled-whole :
      (fd : ℤ) (hdr h : PacketHeader) (payload : Option (List ℕ)) (w : Wire)
      → IsHeader h
      → filled fd hdr payload w (header_bytes h) ≡ h
  filled-whole fd hdr h payload w v =
      ap header_of (
        overwrite_whole (header_bytes h) (header_bytes hdr)
          (length-header_bytes h ∙ sym (length-header_bytes hdr)))
      ∙ header_of-header_bytes h v

  -- A read of what is at the front of the connection.
  read_front :
      (fd : ℤ) (n : ℕ) (bs rest : List ℕ) (w : Wire)
      → IsReliable fd
      → length bs ≡ n
      → w.incoming fd ≡ bs ++ rest
      → (rio_readn fd n w ≡ (pos n, bs, consume fd n w)) × ((consume fd n w).incoming fd ≡ rest)
  read_front fd n bs rest w reliable size front =
      (λ i. ((r.result ∙ ap pos (ap length got ∙ size)) i, got i, r.wire i), left)
    where
      r : Received fd n w (rio_readn fd n w)
      r = reliable n w

      got : (rio_readn fd n w).1 ≡ bs
      got =
          r.bytes
          ∙ ap (take n) front
          ∙ subst (λ k. take k (bs ++ rest) ≡ bs) size (take-append bs rest)

      left : (consume fd n w).incoming fd ≡ rest
      left =
          incoming-consume fd n w
          ∙ ap (drop n) front
          ∙ subst (λ k. drop k (bs ++ rest) ≡ rest) size (drop-append bs rest)

  -- The same, with all of the state behind the call: what lies behind the packet is left to read, and
  -- nothing else is different.
  pub proto_recv_packet-with_incoming :
      (fd : ℤ) (hdr h : PacketHeader) (payload : Option (List ℕ)) (body rest : List ℕ) (w : Wire)
      → IsReliable fd
      → IsHeader h
      → length body ≡ ntohs h.size
      → w.incoming fd ≡ header_bytes h ++ (body ++ rest)
      → proto_recv_packet rio fd hdr payload w
        ≡ done
            (pos 0, h, (if ntohs h.size == 0 then payload else some body))
            (with_incoming fd rest w)
  proto_recv_packet-with_incoming fd hdr h payload body rest w reliable v fits front =
      elim (Bool-cases (ntohs h.size == 0)) [
        | inl empty ↦ rw empty (
            header_only fd hdr payload w h (header_bytes h) whole _ _ first.0 empty
            ∙ ap (done (pos 0, h, payload)) (
                consume-with_incoming fd header_size rest w
                  (first.1 ∙ ap (λ b. b ++ rest) (no_body empty))))
        | inr full ↦ rw full (
            header_and_body fd hdr payload w h (header_bytes h) whole body _ _ _ _ first.0 full
              second.0
            ∙ ap
                (λ b.
                  done (pos 0, h, some b) (consume fd (ntohs h.size) (consume fd header_size w)))
                (overwrite_whole body _ (fits ∙ sym (malloc_bytes_lem (ntohs h.size))))
            ∙ ap (done (pos 0, h, some body)) (
                consume-with_incoming fd (ntohs h.size) rest (consume fd header_size w) second.1
                ∙ with_incoming-with_incoming fd _ rest w))
      ]
    where
      whole : filled fd hdr payload w (header_bytes h) ≡ h
      whole = filled-whole fd hdr h payload w v

      first :
          (rio_readn fd header_size w ≡ (pos header_size, header_bytes h, consume fd header_size w))
          × ((consume fd header_size w).incoming fd ≡ body ++ rest)
      first =
          read_front fd header_size (header_bytes h) (body ++ rest) w reliable
            (length-header_bytes h) front

      second :
          (rio_readn fd (ntohs h.size) (consume fd header_size w)
            ≡ (pos (ntohs h.size), body, consume fd (ntohs h.size) (consume fd header_size w)))
          × ((consume fd (ntohs h.size) (consume fd header_size w)).incoming fd ≡ rest)
      second =
          read_front fd (ntohs h.size) body rest (consume fd header_size w) reliable fits first.1

      no_body : (ntohs h.size == 0) ≡ true → body ≡ []
      no_body empty = ground arith

  -- On a connection on which no read fails, with a packet at its front whose header fits its
  -- fields and whose payload has the size that the header states, the call returns 0 with that
  -- header and payload, and leaves what lies behind the packet. With an empty payload the
  -- payload pointer stays.
  pub proto_recv_packet_lem :
      (fd : ℤ) (hdr h : PacketHeader) (payload : Option (List ℕ)) (body rest : List ℕ) (w : Wire)
      → IsReliable fd
      → IsHeader h
      → length body ≡ ntohs h.size
      → w.incoming fd ≡ header_bytes h ++ (body ++ rest)
      → (w' : Wire) × (proto_recv_packet rio fd hdr payload w
          ≡ done (pos 0, h, (if ntohs h.size == 0 then payload else some body)) w')
        × (w'.incoming fd ≡ rest)
  proto_recv_packet_lem fd hdr h payload body rest w reliable v fits front = (
    with_incoming fd rest w,
    proto_recv_packet-with_incoming fd hdr h payload body rest w reliable v fits front,
    rw (int_eq_self fd) refl,
  )
