-- ===== src/Protocol/Defs.antt =====
-- src/protocol.c, function by function.
use bourse_server.Base.{
  ℕ, ◌%◌, ◌^◌, Option, none, some, List, ℤ, pos, minus_one, int_eq, M, done, fault, pure, get,
  ◌>>=◌, ◌==◌, leb, length, take, if◌then◌else◌,
}
use bourse_server.Protocol.ByteOrder.{htonl, ntohs}
use bourse_server.Protocol.Types.{PacketHeader, header_size, header_bytes, header_of, overwrite}
use bourse_server.Protocol.Wire.{Wire, Rio}

-- The first `n` bytes of the block at a pointer; a fault at NULL and past the end of the block.
abbrev pub read_block : Option (List ℕ) → ℕ → M Wire (List ℕ)
read_block none n w = fault
read_block (some block) n w = if leb n (length block) then done (take n block) w else fault

module _ (rio : Rio) where
  open rio use {rio_writen, rio_readn, clock_gettime, malloc_bytes}

  -- The assignments to the timestamp: `tv_sec` and `tv_nsec` are cut to 32 bits.
  unfoldable pub stamp : PacketHeader → Wire → PacketHeader
  stamp hdr w =
      let (sec, nsec) = clock_gettime w in
      record hdr { timestamp_sec = htonl (sec % 2 ^ 32); timestamp_nsec = htonl (nsec % 2 ^ 32) }

  abbrev pub writen : ℤ → List ℕ → M Wire ℤ
  writen fd bs w = let (r, w') = rio_writen fd bs w in done r w'

  abbrev pub readn : ℤ → ℕ → M Wire (ℤ × List ℕ)
  readn fd n w = let (r, got, w') = rio_readn fd n w in done (r, got) w'

  -- Returns the result and the header, which has been given its timestamp.
  unfoldable pub proto_send_packet : ℤ → PacketHeader → Option (List ℕ) → M Wire (ℤ × PacketHeader)
  unfolding stamp
  proto_send_packet fd hdr payload = do
    hdr' ← get (stamp hdr)
    rio_hdr ← writen fd (header_bytes hdr')
    if int_eq rio_hdr minus_one
        then pure (minus_one, hdr')
        else if ntohs hdr'.size == 0
        then pure (pos 0, hdr')
        else do
          bytes ← read_block payload (ntohs hdr'.size)
          r ← writen fd bytes
          if int_eq r minus_one then pure (minus_one, hdr') else pure (pos 0, hdr')

  -- Returns the result, and the header and the payload pointer as the call leaves them.
  unfoldable pub proto_recv_packet :
      ℤ → PacketHeader → Option (List ℕ) → M Wire (ℤ × PacketHeader × Option (List ℕ))
  proto_recv_packet fd hdr payload = do
    (read, got) ← readn fd header_size
    let hdr' = header_of (overwrite got (header_bytes hdr))
    if int_eq read minus_one
        then pure (minus_one, hdr', payload)
        else if int_eq read (pos 0)
        then pure (minus_one, hdr', payload)
        else if ntohs hdr'.size == 0
        then pure (pos 0, hdr', payload)
        else do
          (read_status, body) ← readn fd (ntohs hdr'.size)
          let block = overwrite body (malloc_bytes (ntohs hdr'.size))
          if int_eq read_status minus_one
              then pure (minus_one, hdr', some block)
              else pure (pos 0, hdr', some block)
