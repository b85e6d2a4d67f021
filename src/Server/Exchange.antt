-- ===== src/Server/Exchange.antt =====
-- include/exchange.h: the calls of the exchange, whose code is in an archive of object files
-- (lib/bourse.a) and is a parameter here.
use bourse_server.Base.{ℕ, ℤ, M}
use bourse_server.Protocol.Types.{StatusInfo}
use bourse_server.Trader.{Traders}

-- What the calls act on: the traders, whose accounts, references and connections they change, and
-- the exchange's own state `X`.
pub record Market (X : Type 0) : Type 0 where
  pub traders : Traders
  pub book : X

pub record Exchange (X : Type 0) : Type 0 where
  -- `*infop` before and after the call.
  pub exchange_get_status : StatusInfo → M (Market X) StatusInfo
  -- The trader, the quantity and the price; the order's id, or 0.
  pub exchange_post_buy : ℕ → ℕ → ℕ → M (Market X) ℕ
  pub exchange_post_sell : ℕ → ℕ → ℕ → M (Market X) ℕ
  -- The trader, the order and `*quantity` before the call; the result and `*quantity` after it.
  pub exchange_cancel : ℕ → ℕ → ℕ → M (Market X) (ℤ × ℕ)
