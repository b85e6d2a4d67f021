-- ===== src/Trader/Account.antt =====
-- src/trader.c: the balance and the inventory, `uint32_t` both.
use bourse_server.Base.{
  ℕ, ◌+◌, ◌-◌, ◌%◌, ◌^◌, ℤ, pos, minus_one, M, pure, ◌>>=◌, ◌>>◌, leb, if◌then◌else◌,
}
use bourse_server.Trader.Store.{Traders, load, assign, lock, unlock}

module _ (me : ℕ) where
  unfoldable pub trader_increase_balance : ℕ → ℕ → M Traders (Unit {0})
  trader_increase_balance p amount = do
    lock me p
    assign p (λ t. record t { balance = (t.balance + amount) % 2 ^ 32 })
    unlock me p

  unfoldable pub trader_decrease_balance : ℕ → ℕ → M Traders ℤ
  trader_decrease_balance p amount = do
    lock me p
    t ← load p
    if leb amount t.balance
        then (assign p (λ t. record t { balance = t.balance - amount })
            >> unlock me p
            >> pure (pos 0))
        else (unlock me p >> pure minus_one)

  unfoldable pub trader_increase_inventory : ℕ → ℕ → M Traders (Unit {0})
  trader_increase_inventory p quantity = do
    lock me p
    assign p (λ t. record t { inventory = (t.inventory + quantity) % 2 ^ 32 })
    unlock me p

  unfoldable pub trader_decrease_inventory : ℕ → ℕ → M Traders ℤ
  trader_decrease_inventory p quantity = do
    lock me p
    t ← load p
    if leb quantity t.inventory
        then (assign p (λ t. record t { inventory = t.inventory - quantity })
            >> unlock me p
            >> pure (pos 0))
        else (unlock me p >> pure minus_one)
