-- ===== src/Protocol/Payloads.antt =====
-- include/protocol.h: the payloads of the requests, as the machine reads them in a block of memory.
use bourse_server.Base.{ℕ, List}
use bourse_server.Protocol.Types.{word32}

-- `BRS_FUNDS_INFO`, for DEPOSIT and WITHDRAW.
pub record FundsInfo : Type 0 where
  pub amount : ℕ

-- `BRS_ESCROW_INFO`, for ESCROW and RELEASE.
pub record EscrowInfo : Type 0 where
  pub quantity : ℕ

-- `BRS_ORDER_INFO`, for BUY and SELL.
pub record OrderInfo : Type 0 where
  pub quantity : ℕ
  pub price : ℕ

-- `BRS_CANCEL_INFO`, for CANCEL.
pub record CancelInfo : Type 0 where
  pub order : ℕ

abbrev pub funds_info : List ℕ → FundsInfo
funds_info block = record { amount = word32 block 0 }

abbrev pub escrow_info : List ℕ → EscrowInfo
escrow_info block = record { quantity = word32 block 0 }

abbrev pub order_info : List ℕ → OrderInfo
order_info block = record { quantity = word32 block 0; price = word32 block 4 }

abbrev pub cancel_info : List ℕ → CancelInfo
cancel_info block = record { order = word32 block 0 }
