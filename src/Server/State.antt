-- ===== src/Server/State.antt =====
-- src/server.c: the state that the service threads share, and the locals of one of them.
use bourse_server.Base.{
  ℕ, Option, none, some, List, [], ◌∷◌, M, Outcome, done, blocked, fault, leb, ◌==◌, take, length,
  if◌then◌else◌,
}
use bourse_server.Protocol.Types.{PacketHeader, StatusInfo}
use bourse_server.Protocol.Wire.{Rio}
use bourse_server.Registry.{ClientRegistry, Semaphores}
use bourse_server.Trader.{Trader, Traders}
use bourse_server.Server.Exchange.{Market, Exchange}

pub record Server (X : Type 0) : Type 0 where
  pub market : Market X
  pub registry : ClientRegistry

-- Everything outside src/ that a thread calls, and what the memory that it does not initialise
-- holds: blocks from malloc(3), a header, a `BRS_STATUS_INFO` and a quantity on the stack.
pub record System (X : Type 0) : Type 0 where
  pub sems : Semaphores
  pub rio : Rio
  pub exchange : Exchange X
  pub junk : Trader
  pub stack_header : PacketHeader
  pub stack_info : StatusInfo
  pub stack_quantity : ℕ

-- The local variables `this_trader` and `payload`: `none` is NULL, and a pointer not yet set.
pub record Locals : Type 0 where
  pub this_trader : Option ℕ
  pub payload : Option (List ℕ)

-- Calls into the parts of the state.
abbrev pub in_market : {X A : Type 0} → Server X → Outcome (Market X) A → Outcome (Server X) A
in_market s (done a m) = done a (record s { market = m })
in_market s (blocked m) = blocked (record s { market = m })
in_market s fault = fault

abbrev pub on_market : {X A : Type 0} → M (Market X) A → M (Server X) A
on_market m s = in_market s (m s.market)

abbrev pub in_traders : {X A : Type 0} → Market X → Outcome Traders A → Outcome (Market X) A
in_traders s (done a t) = done a (record s { traders = t })
in_traders s (blocked t) = blocked (record s { traders = t })
in_traders s fault = fault

abbrev pub on_traders : {X A : Type 0} → M Traders A → M (Market X) A
on_traders m s = in_traders s (m s.traders)

abbrev pub in_registry : {X A : Type 0} → Server X → Outcome ClientRegistry A → Outcome (Server X) A
in_registry s (done a r) = done a (record s { registry = r })
in_registry s (blocked r) = blocked (record s { registry = r })
in_registry s fault = fault

abbrev pub on_registry : {X A : Type 0} → M ClientRegistry A → M (Server X) A
on_registry m s = in_registry s (m s.registry)

-- The structure of `size` bytes at a payload pointer: a fault where the payload does not hold it.
abbrev pub read_info : {X A : Type 0} → ℕ → (List ℕ → A) → Option (List ℕ) → M (Market X) A
read_info size info none s = fault
read_info size info (some block) s = if leb size (length block) then done (info block) s else fault

-- `memcpy(to, payload, n)`: the bytes that are copied.
abbrev pub copy_payload : {X : Type 0} → Option (List ℕ) → ℕ → M (Market X) (List ℕ)
copy_payload none n s = if n == 0 then done [] s else fault
copy_payload (some block) n s = if leb n (length block) then done (take n block) s else fault

-- The text in a block that ends in a NUL byte: what stands before the first NUL.
abbrev pub c_string : List ℕ → List ℕ
c_string [] = []
c_string (b ∷ bs) = if b == 0 then [] else b ∷ c_string bs
