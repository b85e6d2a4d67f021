-- ===== src/Protocol/Tests.antt =====
-- src/protocol.c: packets over a connection that never fails, and one that is closed.
use mathlib.Core.Path.{fun_ext}
use mathlib.Core.List.{append-nil}
use bourse_server.Base.{
  ℕ, suc, ◌<◌, ◌≡◌, refl, ap, sym, ◌≢◌, ◌⊎◌, inl, inr, Option, some, none, List, [], ◌∷◌, ◌++◌, ℤ,
  pos, minus_one, int_eq, int_eq_iff, length, length-replicate, replicate, take, done,
  if◌then◌else◌, Bool-cases, arith, ◌==◌,
}
use bourse_server.Protocol.ByteOrder.{ntohs}
use bourse_server.Protocol.Types.{PacketHeader, IsHeader, header_bytes, zero_header}
use bourse_server.Protocol.Wire.{Wire, Rio, deliver, update, consume, Writes}
use bourse_server.Protocol.Defs.{stamp, proto_send_packet, proto_recv_packet}
use bourse_server.Protocol.RoundTrip.{proto_recv_packet-proto_send_packet}
use bourse_server.Protocol.Send.{packet, Sends, proto_send_packet_lem}
use bourse_server.Protocol.Receive.{proto_recv_packet_lem}
use bourse_server.Protocol.Progress.{proto_recv_packet-result}

-- Writes are whole, but for those to the descriptor -1, which are refused.
abbrev pub writen_open : ℤ → List ℕ → Wire → ℤ × Wire
writen_open fd [] w = (pos 0, deliver fd [] w)
writen_open fd (b ∷ bs) w =
    if int_eq fd minus_one then (minus_one, w) else (pos (suc (length bs)), deliver fd (b ∷ bs) w)

deliver-nil : (fd : ℤ) (w : Wire) → deliver fd [] w ≡ w
deliver-nil fd w = λ i. record w { outgoing = same i }
  where
    same_at : (x : ℤ) → update w.outgoing fd (w.outgoing fd ++ []) x ≡ w.outgoing x
    same_at x = elim (Bool-cases (int_eq x fd)) [
      | inl e ↦ rw (e, append-nil (w.outgoing fd)) (ap w.outgoing (sym ((int_eq_iff x fd).0 e)))
      | inr e ↦ rw e refl
    ]

    same : update w.outgoing fd (w.outgoing fd ++ []) ≡ w.outgoing
    same = fun_ext same_at

pub writen_open_lem : (fd : ℤ) (bs : List ℕ) (w : Wire) → Writes fd bs w (writen_open fd bs w)
writen_open_lem fd [] w = inl (record { result = refl; wire = refl })
writen_open_lem fd (b ∷ bs) w = elim (Bool-cases (int_eq fd minus_one)) [
  | inl e ↦ rw e (inr (record { sent = 0; result = refl; wire = sym (deliver-nil fd w) }))
  | inr e ↦ rw e (inl (record { result = refl; wire = refl }))
]

pub writen_open_bad_fd :
    (bs : List ℕ) (w : Wire) → bs ≢ [] → writen_open minus_one bs w ≡ (minus_one, w)
writen_open_bad_fd [] w h = absurd (h refl)
writen_open_bad_fd (b ∷ bs) w h = refl

abbrev pub open_rio : Rio
open_rio = record {
  rio_writen = writen_open;
  rio_readn =
      λ fd n w. (pos (length (take n (w.incoming fd))), take n (w.incoming fd), consume fd n w);
  clock_gettime = λ w. (1, 2);
  malloc_bytes = λ n. replicate n 0;
  rio_writen_lem = writen_open_lem;
  rio_readn_lem = λ fd n w. inl (record { result = refl; bytes = refl; wire = refl });
  rio_writen_bad_fd = writen_open_bad_fd;
  malloc_bytes_lem = λ n. length-replicate n 0;
}

-- A WITHDRAW packet whose payload is 4 bytes long.
abbrev pub withdraw_header : PacketHeader
withdraw_header = record {
  type = 4;
  padding = 0;
  size = 1024;
  timestamp_sec = 0;
  timestamp_nsec = 0;
}

abbrev pub five : List ℕ
five = 0 ∷ 0 ∷ 0 ∷ 5 ∷ []

-- The packet, and a byte behind it, on every connection.
abbrev pub quiet : Wire
quiet = record {
  incoming = λ fd. header_bytes withdraw_header ++ (five ++ 7 ∷ []);
  outgoing = λ fd. [];
}

pub withdraw_header-IsHeader : IsHeader withdraw_header
withdraw_header-IsHeader = record {
  type-lt = omega arith;
  padding-lt = omega arith;
  size-lt = omega arith;
  sec-lt = omega arith;
  nsec-lt = omega arith;
}

pub size_4 : length five ≡ ntohs withdraw_header.size
unfolding ntohs
size_4 = refl

proto_send_packet_example : Sends open_rio (pos 4) withdraw_header (some five) five quiet
proto_send_packet_example =
    proto_send_packet_lem open_rio (pos 4) withdraw_header (some five) five quiet size_4 (inl refl)

proto_recv_packet_example :
    (w' : Wire) × (proto_recv_packet open_rio (pos 4) zero_header none quiet
      ≡ done
          (pos 0, withdraw_header, (if ntohs withdraw_header.size == 0 then none else some five))
          w')
    × (w'.incoming (pos 4) ≡ 7 ∷ [])
proto_recv_packet_example =
    proto_recv_packet_lem open_rio (pos 4) zero_header withdraw_header none five (7 ∷ []) quiet
      (λ n w. record { result = refl; bytes = refl; wire = refl }) withdraw_header-IsHeader size_4
      refl

proto_recv_packet-result_example :
    (r : ℤ) × (h : PacketHeader) × (payload' : Option (List ℕ)) × (w' : Wire) × (proto_recv_packet
        open_rio
        (pos 4)
        zero_header
        none
        quiet
      ≡ done (r, h, payload') w')
    × (((quiet.incoming (pos 4) ≡ []) × (r ≡ minus_one) × (payload' ≡ none))
        ⊎ ((r ≡ pos 0) × (length (w'.incoming (pos 4)) < length (quiet.incoming (pos 4)))))
proto_recv_packet-result_example =
    proto_recv_packet-result open_rio (pos 4) zero_header none quiet
      (λ n w. record { result = refl; bytes = refl; wire = refl })

-- The connection after the packet has been sent, and the connection on which it comes in.
abbrev sent : Wire
sent =
    deliver (pos 4) five
      (deliver (pos 4) (header_bytes (stamp open_rio withdraw_header quiet)) quiet)

abbrev arrived : Wire
arrived = record {
  incoming = λ fd. packet open_rio withdraw_header quiet five ++ 7 ∷ [];
  outgoing = λ fd. [];
}

sent_whole :
    proto_send_packet open_rio (pos 4) withdraw_header (some five) quiet
    ≡ done (pos 0, stamp open_rio withdraw_header quiet) sent
unfolding proto_send_packet header_bytes ntohs
sent_whole = refl

proto_recv_packet-proto_send_packet_example :
    (w'' : Wire) × (proto_recv_packet open_rio (pos 5) zero_header none arrived
      ≡ done
          (
            pos 0,
            stamp open_rio withdraw_header quiet,
            (if ntohs withdraw_header.size == 0 then none else some five),
          )
          w'')
    × (w''.incoming (pos 5) ≡ 7 ∷ [])
proto_recv_packet-proto_send_packet_example =
    proto_recv_packet-proto_send_packet open_rio open_rio (pos 4) (pos 5) withdraw_header
      (some five) five (7 ∷ []) quiet sent arrived (stamp open_rio withdraw_header quiet)
      zero_header none withdraw_header-IsHeader size_4 (inl refl)
      (λ n w. record { result = refl; bytes = refl; wire = refl }) sent_whole refl
