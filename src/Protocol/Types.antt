-- ===== src/Protocol/Types.antt =====
-- include/protocol.h: packet types, the header and the payloads, and their bytes in memory.
use bourse_server.Base.{ℕ, zero, suc, ◌^◌, ◌<◌, ◌≡◌, refl, List, [], ◌∷◌, ◌++◌, length}
use bourse_server.Protocol.ByteOrder.{
  bytes2, bytes4, of_bytes2, of_bytes4, of_bytes2-bytes2, of_bytes4-bytes4,
}

-- `BRS_PACKET_TYPE`.
pub data PacketType : Type 0 where
  no_pkt : PacketType
  login_pkt status_pkt : PacketType
  deposit_pkt withdraw_pkt : PacketType
  escrow_pkt release_pkt : PacketType
  buy_pkt sell_pkt cancel_pkt : PacketType
  ack_pkt nack_pkt : PacketType
  bought_pkt sold_pkt : PacketType
  posted_pkt canceled_pkt traded_pkt : PacketType

-- The value of an enumerator.
abbrev pub type_code : PacketType → ℕ
type_code no_pkt = 0
type_code login_pkt = 1
type_code status_pkt = 2
type_code deposit_pkt = 3
type_code withdraw_pkt = 4
type_code escrow_pkt = 5
type_code release_pkt = 6
type_code buy_pkt = 7
type_code sell_pkt = 8
type_code cancel_pkt = 9
type_code ack_pkt = 10
type_code nack_pkt = 11
type_code bought_pkt = 12
type_code sold_pkt = 13
type_code posted_pkt = 14
type_code canceled_pkt = 15
type_code traded_pkt = 16

-- `BRS_PACKET_HEADER`, with the byte that the compiler leaves between `type` and `size`. A field
-- is the number that the machine reads there, so `size` and the timestamps are byte-swapped.
pub record PacketHeader : Type 0 where
  pub type : ℕ
  pub padding : ℕ
  pub size : ℕ
  pub timestamp_sec : ℕ
  pub timestamp_nsec : ℕ

-- After `memset(hdr, 0, sizeof(BRS_PACKET_HEADER))`.
abbrev pub zero_header : PacketHeader
zero_header = record { type = 0; padding = 0; size = 0; timestamp_sec = 0; timestamp_nsec = 0 }

abbrev pub header_size : ℕ
header_size = 12

unfoldable pub header_bytes : PacketHeader → List ℕ
header_bytes h =
    h.type ∷ h.padding ∷ (bytes2 h.size ++ (bytes4 h.timestamp_sec ++ bytes4 h.timestamp_nsec))

abbrev pub byte : List ℕ → ℕ → ℕ
byte [] i = 0
byte (b ∷ bs) zero = b
byte (b ∷ bs) (suc i) = byte bs i

-- The 16-bit and 32-bit integers at an offset of a block of memory.
abbrev pub word16 : List ℕ → ℕ → ℕ
word16 bs i = of_bytes2 (byte bs i) (byte bs (suc i))

abbrev pub word32 : List ℕ → ℕ → ℕ
word32 bs i =
    of_bytes4 (byte bs i) (byte bs (suc i)) (byte bs (suc (suc i))) (byte bs (suc (suc (suc i))))

-- The header that 12 bytes of memory hold.
unfoldable pub header_of : List ℕ → PacketHeader
header_of bs = record {
  type = byte bs 0;
  padding = byte bs 1;
  size = word16 bs 2;
  timestamp_sec = word32 bs 4;
  timestamp_nsec = word32 bs 8;
}

-- A block of memory whose first bytes have been written over.
abbrev pub overwrite : List ℕ → List ℕ → List ℕ
overwrite [] old = old
overwrite (b ∷ bs) [] = []
overwrite (b ∷ bs) (o ∷ old) = b ∷ overwrite bs old

-- Every field fits its type.
pub record IsHeader (h : PacketHeader) : Type 0 where
  pub type-lt : h.type < 256
  pub padding-lt : h.padding < 256
  pub size-lt : h.size < 2 ^ 16
  pub sec-lt : h.timestamp_sec < 2 ^ 32
  pub nsec-lt : h.timestamp_nsec < 2 ^ 32

pub header_of-header_bytes : (h : PacketHeader) → IsHeader h → header_of (header_bytes h) ≡ h
unfolding header_of header_bytes
header_of-header_bytes h v = λ i. record {
  type = h.type;
  padding = h.padding;
  size = of_bytes2-bytes2 h.size v.size-lt i;
  timestamp_sec = of_bytes4-bytes4 h.timestamp_sec v.sec-lt i;
  timestamp_nsec = of_bytes4-bytes4 h.timestamp_nsec v.nsec-lt i;
}

-- `BRS_STATUS_INFO`, each field as the machine reads it.
pub record StatusInfo : Type 0 where
  pub balance : ℕ
  pub inventory : ℕ
  pub bid : ℕ
  pub ask : ℕ
  pub last : ℕ
  pub orderid : ℕ
  pub quantity : ℕ

abbrev pub status_size : ℕ
status_size = 28

unfoldable pub status_bytes : StatusInfo → List ℕ
status_bytes i =
    bytes4 i.balance
    ++ (bytes4 i.inventory
        ++ (bytes4 i.bid
            ++ (bytes4 i.ask ++ (bytes4 i.last ++ (bytes4 i.orderid ++ bytes4 i.quantity)))))

pub length-header_bytes : (h : PacketHeader) → length (header_bytes h) ≡ header_size
unfolding header_bytes
length-header_bytes h = refl

pub length-status_bytes : (i : StatusInfo) → length (status_bytes i) ≡ status_size
unfolding status_bytes
length-status_bytes i = refl
