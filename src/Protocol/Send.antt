-- ===== src/Protocol/Send.antt =====
-- src/protocol.c: what `proto_send_packet` puts on a connection.
use mathlib.Core.Path.{fun_ext}
use mathlib.Core.List.{append_assoc, append-nil}
use Prim.Native.Nat.{min}
use native.Mathlib.Nat.{zero-min, min-zero, suc-min-suc, zero-add, suc-add}
use bourse_server.Base.{
  ℕ, zero, suc, ◌+◌, ◌≡◌, ◌≢◌, refl, sym, ◌∙◌, ap, ◌⊎◌, inl, inr, true, false, Option, some, List,
  [], ◌∷◌, ◌++◌, ℤ, pos, minus_one, int_eq, int_eq_self, done, Outcome, length, take, arith,
  if◌then◌else◌, ◌==◌, Bool-cases, leb,
}
use bourse_server.Protocol.ByteOrder.{ntohs}
use bourse_server.Protocol.Types.{PacketHeader, header_bytes, length-header_bytes}
use bourse_server.Protocol.Wire.{Wire, Rio, deliver, Delivered}
use bourse_server.Protocol.Defs.{proto_send_packet, stamp}

-- What is delivered later comes behind what was delivered before.
pub deliver-deliver :
    (fd : ℤ) (sent bs : List ℕ) (w : Wire)
    → deliver fd bs (deliver fd sent w) ≡ deliver fd (sent ++ bs) w
deliver-deliver fd sent bs w = λ i. record w { outgoing = fun_ext go i }
  where
    go :
        (x : ℤ)
        → (deliver fd bs (deliver fd sent w)).outgoing x ≡ (deliver fd (sent ++ bs) w).outgoing x
    go x = elim (Bool-cases (int_eq x fd)) [
      | inl same ↦ rw (same, int_eq_self fd) (append_assoc (w.outgoing fd) sent bs)
      | inr other ↦ rw other refl
    ]

take-prefix {ℓ} :
    {A : Type ℓ} (n : ℕ) (xs ys : List A) → take (min n (length xs)) (xs ++ ys) ≡ take n xs
take-prefix zero xs ys = rw (zero-min (length xs))
take-prefix (suc n) [] ys = rw (min-zero (suc n))
take-prefix (suc n) (x ∷ xs) ys = rw (suc-min-suc n (length xs)) (ap (◌∷◌ x) (take-prefix n xs ys))

take-suffix {ℓ} :
    {A : Type ℓ} (n : ℕ) (xs ys : List A) → take (length xs + n) (xs ++ ys) ≡ xs ++ take n ys
take-suffix n [] ys = rw (zero-add n)
take-suffix n (x ∷ xs) ys = rw (suc-add (length xs) n) (ap (◌∷◌ x) (take-suffix n xs ys))

pub take-length {ℓ} : {A : Type ℓ} (xs : List A) → take (length xs) xs ≡ xs
take-length [] = refl
take-length (x ∷ xs) = ap (◌∷◌ x) (take-length xs)

-- The block that the caller passes holds the payload; there need be none for an empty payload.
abbrev pub Holds : Option (List ℕ) → List ℕ → Type 0
Holds payload body = (payload ≡ some body) ⊎ (body ≡ [])

module _ (rio : Rio) where
  open rio use {rio_writen, rio_writen_lem}

  abbrev pub packet : PacketHeader → Wire → List ℕ → List ℕ
  packet hdr w body = header_bytes (stamp rio hdr w) ++ body

  pub stamp-size : (hdr : PacketHeader) (w : Wire) → (stamp rio hdr w).size ≡ hdr.size
  unfolding stamp
  stamp-size hdr w = refl

  header_failed :
      (fd : ℤ) (hdr : PacketHeader) (payload : Option (List ℕ)) (w w' : Wire)
      → rio_writen fd (header_bytes (stamp rio hdr w)) w ≡ (minus_one, w')
      → proto_send_packet rio fd hdr payload w ≡ done (minus_one, stamp rio hdr w) w'
  unfolding proto_send_packet
  header_failed fd hdr payload w w' e = rw e

  pub header_alone :
      (fd : ℤ) (hdr : PacketHeader) (payload : Option (List ℕ)) (w w' : Wire) (n : ℕ)
      → rio_writen fd (header_bytes (stamp rio hdr w)) w ≡ (pos n, w')
      → ntohs hdr.size ≡ 0
      → proto_send_packet rio fd hdr payload w ≡ done (pos 0, stamp rio hdr w) w'
  unfolding proto_send_packet
  header_alone fd hdr payload w w' n e empty = rw e (rw empty)

  pub with_body :
      (fd : ℤ) (hdr : PacketHeader) (body : List ℕ) (w w' w'' : Wire) (n : ℕ) (r : ℤ)
      → rio_writen fd (header_bytes (stamp rio hdr w)) w ≡ (pos n, w')
      → ntohs hdr.size ≢ 0
      → length body ≡ ntohs hdr.size
      → rio_writen fd body w' ≡ (r, w'')
      → proto_send_packet rio fd hdr (some body) w
        ≡ done (if int_eq r minus_one then minus_one else pos 0, stamp rio hdr w) w''
  unfolding proto_send_packet
  with_body fd hdr body w w' w'' n r e some_body fits e' =
      rw (e, not_zero, enough, whole, e')
        (elim (Bool-cases (int_eq r minus_one)) [ inl failed ↦ rw failed | inr wrote ↦ rw wrote ])
    where
      not_zero : (ntohs hdr.size == 0) ≡ false
      not_zero = ground arith

      enough : leb (ntohs hdr.size) (length body) ≡ true
      enough = ground arith

      whole : take (ntohs hdr.size) body ≡ body
      whole = rw (← fits) (take-length body)

  -- Either the call has returned 0 and the connection has been sent the whole packet, or it has
  -- returned -1 and some first part of the packet has been sent.
  abbrev pub Sends : ℤ → PacketHeader → Option (List ℕ) → List ℕ → Wire → Type 0
  Sends fd hdr payload body w =
      (proto_send_packet rio fd hdr payload w
        ≡ done (pos 0, stamp rio hdr w) (deliver fd (packet hdr w body) w))
      ⊎ ((sent : ℕ) × (proto_send_packet rio fd hdr payload w
            ≡ done (minus_one, stamp rio hdr w) (deliver fd (take sent (packet hdr w body)) w)))

  module _ (fd : ℤ) (hdr : PacketHeader) (body : List ℕ) (w : Wire) where
    abbrev head : List ℕ
    head = header_bytes (stamp rio hdr w)

    abbrev result : ℤ → List ℕ → Outcome Wire (ℤ × PacketHeader)
    result r bs = done (r, stamp rio hdr w) (deliver fd bs w)

    send_body :
        Delivered fd head w (rio_writen fd head w)
        → ntohs hdr.size ≢ 0
        → length body ≡ ntohs hdr.size
        → Sends fd hdr (some body) body w
    send_body d some_body fits = elim (rio_writen_lem fd body (deliver fd head w)) [
      | inl e ↦ inl (
          with_body fd hdr body w (deliver fd head w) _ _ (pos (length body))
            (λ i. (d.result i, d.wire i)) some_body fits (λ i. (e.result i, e.wire i))
          ∙ ap (done (pos 0, stamp rio hdr w)) (deliver-deliver fd head body w))
      | inr e ↦ inr (
        length head + e.sent,
        with_body fd hdr body w (deliver fd head w) _ _ minus_one (λ i. (d.result i, d.wire i))
              some_body fits (λ i. (e.result i, e.wire i))
            ∙ ap (done (minus_one, stamp rio hdr w)) (deliver-deliver fd head _ w)
            ∙ ap (result minus_one) (sym (take-suffix e.sent head body)),
      )
    ]

    send_rest :
        (payload : Option (List ℕ))
        → Delivered fd head w (rio_writen fd head w)
        → length body ≡ ntohs hdr.size
        → Holds payload body
        → Sends fd hdr payload body w
    send_rest payload d fits holds = elim (Bool-cases (ntohs hdr.size == 0)) [
      | inl empty ↦ inl (
          header_alone fd hdr payload w _ _ (λ i. (d.result i, d.wire i)) (ground arith)
          ∙ ap (result (pos 0)) (sym (rw (no_body empty) (append-nil head))))
      | inr full ↦ elim holds [
        | inl e ↦ rw e (send_body d (ground arith) fits)
        | inr none_held ↦ absurd (ground (arith, ap length none_held))
      ]
    ]
      where
        no_body : (ntohs hdr.size == 0) ≡ true → body ≡ []
        no_body empty = ground arith

  -- A packet whose payload has the size that its header states, in network byte order: either
  -- the call returns 0, and the connection has been sent the header, with its timestamp, and
  -- behind it the payload; or it returns -1, and some first part of these has been sent.
  pub proto_send_packet_lem :
      (fd : ℤ) (hdr : PacketHeader) (payload : Option (List ℕ)) (body : List ℕ) (w : Wire)
      → length body ≡ ntohs hdr.size
      → Holds payload body
      → Sends fd hdr payload body w
  proto_send_packet_lem fd hdr payload body w fits holds =
      elim (rio_writen_lem fd (head fd hdr body w) w) [
        | inl d ↦ send_rest fd hdr body w payload d fits holds
        | inr u ↦ inr (
          min u.sent (length (head fd hdr body w)),
          header_failed fd hdr payload w _ (λ i. (u.result i, u.wire i))
              ∙ ap (result fd hdr body w minus_one) (sym (take-prefix u.sent _ body)),
        )
      ]

  -- Nothing can be sent to the descriptor -1.
  pub proto_send_packet-bad_fd :
      (hdr : PacketHeader) (payload : Option (List ℕ)) (w : Wire)
      → proto_send_packet rio minus_one hdr payload w ≡ done (minus_one, stamp rio hdr w) w
  proto_send_packet-bad_fd hdr payload w = header_failed minus_one hdr payload w w (
      rio.rio_writen_bad_fd (header_bytes (stamp rio hdr w)) w
        (λ e. absurd (omega (arith, ap length e, length-header_bytes (stamp rio hdr w)))))
