-- ===== src/Protocol/Messages.antt =====
-- include/protocol.h: the requests and the answers of the protocol, and their packets.
use bourse_server.Base.{ℕ, ◌^◌, ◌<◌, ◌≡◌, ap, sym, ◌∙◌, refl, Option, List, [], ◌++◌, length, arith}
use bourse_server.Protocol.ByteOrder.{
  bytes4, htonl, ntohl, htonl-lt, ntohl-htonl, of_bytes4-bytes4, htons, ntohs, htons-lt,
  ntohs-htons,
}
use bourse_server.Protocol.Types.{
  PacketType, PacketHeader, StatusInfo, type_code, word32, IsHeader, login_pkt, status_pkt,
  deposit_pkt, withdraw_pkt, escrow_pkt, release_pkt, buy_pkt, sell_pkt, cancel_pkt,
}

-- The client-to-server requests, with what their payloads say: a name, an amount, a quantity and a
-- price, or the id of an order.
pub data Request : Type 0 where
  login : List ℕ → Request
  status : Request
  deposit withdraw escrow release : ℕ → Request
  buy sell : ℕ → ℕ → Request
  cancel : ℕ → Request

unfoldable pub request_type : Request → PacketType
request_type (login name) = login_pkt
request_type status = status_pkt
request_type (deposit amount) = deposit_pkt
request_type (withdraw amount) = withdraw_pkt
request_type (escrow quantity) = escrow_pkt
request_type (release quantity) = release_pkt
request_type (buy quantity price) = buy_pkt
request_type (sell quantity price) = sell_pkt
request_type (cancel order) = cancel_pkt

-- The bytes of a field in network byte order.
abbrev pub field : ℕ → List ℕ
field x = bytes4 (htonl x)

unfoldable pub request_payload : Request → List ℕ
request_payload (login name) = name
request_payload status = []
request_payload (deposit amount) = field amount
request_payload (withdraw amount) = field amount
request_payload (escrow quantity) = field quantity
request_payload (release quantity) = field quantity
request_payload (buy quantity price) = field quantity ++ field price
request_payload (sell quantity price) = field quantity ++ field price
request_payload (cancel order) = field order

-- Every number fits the 32 bits of its field, and a name the 16 bits of its length.
abbrev pub IsRequest : Request → Type 0
IsRequest (login name) = length name < 2 ^ 16
IsRequest status = Unit {0}
IsRequest (deposit amount) = amount < 2 ^ 32
IsRequest (withdraw amount) = amount < 2 ^ 32
IsRequest (escrow quantity) = quantity < 2 ^ 32
IsRequest (release quantity) = quantity < 2 ^ 32
IsRequest (buy quantity price) = (quantity < 2 ^ 32) × (price < 2 ^ 32)
IsRequest (sell quantity price) = (quantity < 2 ^ 32) × (price < 2 ^ 32)
IsRequest (cancel order) = order < 2 ^ 32

-- The synchronous answers: an ACK, with or without a status, or a NACK.
pub data Answer : Type 0 where
  ack : Option StatusInfo → Answer
  nack : Answer

-- The header of the packet of a request that was sent at the time `sec` and `nsec`.
unfoldable pub request_header : Request → ℕ → ℕ → PacketHeader
unfolding request_type request_payload
request_header r sec nsec = record {
  type = type_code (request_type r);
  padding = 0;
  size = htons (length (request_payload r));
  timestamp_sec = htonl sec;
  timestamp_nsec = htonl nsec;
}

-- What the server reads in a field is the number that the client has put there.
pub field-read : (x : ℕ) → x < 2 ^ 32 → (rest : List ℕ) → ntohl (word32 (field x ++ rest) 0) ≡ x
field-read x fits rest = ap ntohl (of_bytes4-bytes4 (htonl x) (htonl-lt x)) ∙ ntohl-htonl x fits

pub request_payload-lt : (r : Request) → IsRequest r → length (request_payload r) < 2 ^ 16
unfolding request_payload
request_payload-lt (login name) fits = fits
request_payload-lt status fits = omega arith
request_payload-lt (deposit amount) fits = omega arith
request_payload-lt (withdraw amount) fits = omega arith
request_payload-lt (escrow quantity) fits = omega arith
request_payload-lt (release quantity) fits = omega arith
request_payload-lt (buy quantity price) fits = omega arith
request_payload-lt (sell quantity price) fits = omega arith
request_payload-lt (cancel order) fits = omega arith

request_type-lt : (r : Request) → type_code (request_type r) < 256
unfolding request_type
request_type-lt (login name) = omega arith
request_type-lt status = omega arith
request_type-lt (deposit amount) = omega arith
request_type-lt (withdraw amount) = omega arith
request_type-lt (escrow quantity) = omega arith
request_type-lt (release quantity) = omega arith
request_type-lt (buy quantity price) = omega arith
request_type-lt (sell quantity price) = omega arith
request_type-lt (cancel order) = omega arith

pub request_header-IsHeader : (r : Request) (sec nsec : ℕ) → IsHeader (request_header r sec nsec)
unfolding request_header
request_header-IsHeader r sec nsec = record {
  type-lt = request_type-lt r;
  padding-lt = omega arith;
  size-lt = htons-lt (length (request_payload r));
  sec-lt = htonl-lt sec;
  nsec-lt = htonl-lt nsec;
}

-- The size in the header is that of the payload.
pub request_header-size :
    (r : Request) (sec nsec : ℕ)
    → IsRequest r
    → length (request_payload r) ≡ ntohs (request_header r sec nsec).size
unfolding request_header
request_header-size r sec nsec fits =
    sym (ntohs-htons (length (request_payload r)) (request_payload-lt r fits))

pub request_header-type :
    (r : Request) (sec nsec : ℕ) → (request_header r sec nsec).type ≡ type_code (request_type r)
unfolding request_header
request_header-type r sec nsec = refl
