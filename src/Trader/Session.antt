-- ===== src/Trader/Session.antt =====
-- src/trader.c: `trader_login` and `trader_logout`.
use bourse_server.Base.{
  ℕ, suc, Option, none, some, List, ℤ, minus_one, int_eq, M, fault, pure, ◌>>=◌, ◌>>◌, modify, get,
  leb, not, if◌then◌else◌,
}
use bourse_server.Trader.Store.{Trader, Traders, free, load, assign, malloc, lock, unlock}
use bourse_server.Trader.Table.{
  max_traders, Found, at, nowhere, dangling, find_trader, get_first_available_index, set_slot,
  trader_ref, trader_unref,
}

-- `me` is the calling thread.
module _ (me : ℕ) where
  abbrev pub ref_found : Found → M Traders (Option ℕ)
  ref_found (at i p) = trader_ref me p >> pure (some p)
  ref_found nowhere = pure none
  ref_found dangling = λ s. fault

  -- `checkOldTraderAndLogin`.
  unfoldable pub check_old_trader_and_login : List ℕ → M Traders (Option ℕ)
  check_old_trader_and_login name = do found ← get (find_trader name); ref_found found

  abbrev pub logout_found : ℕ → Found → M Traders (Unit {0})
  logout_found p (at i q) = do trader_unref me p; assign p (λ t. record t { fd = minus_one })
  logout_found p nowhere = pure tt
  logout_found p dangling = λ s. fault

  unfoldable pub trader_logout : ℕ → M Traders (Unit {0})
  trader_logout p = do
    lock me p
    t ← load p
    found ← get (find_trader t.name)
    logout_found p found
    unlock me p

-- `trader_login` from `if(ret == -1)` on.
abbrev pub publish : Option (ℕ × ℤ) → M Traders (Option ℕ)
publish none = pure none
publish (some (p, ret)) =
    if int_eq ret minus_one then pure none else do modify (set_slot ret (some p)); pure (some p)

-- `junk` is what a block from malloc(3) holds.
module _ (junk : Trader) (me : ℕ) where
  -- `trader_login` from `if(oldTrader != NULL)` on.
  abbrev pub login_old : ℤ → ℕ → M Traders (Option ℕ)
  login_old fd p = do
    t ← load p
    if not (int_eq t.fd minus_one)
        then pure none
        else do assign p (λ t. record t { fd = fd }); pure (some p)

  -- `trader_login` from `if(count >= MAX_TRADERS)` to the call of `getFirstAvailableIndex`: the new
  -- trader and the index.
  unfoldable pub reserve : ℤ → List ℕ → M Traders (Option (ℕ × ℤ))
  reserve fd name = do
    count ← get (λ s. s.count)
    if leb max_traders count then pure none else do
      modify (λ s. record s { count = suc s.count })
      p ← malloc junk
      trader_ref me p
      trader_ref me p
      assign p (λ t. record t { fd = fd; balance = 0; inventory = 0; name = name })
      assign p (λ t. record t { trader_mutex = free })
      ret ← get get_first_available_index
      pure (some (p, ret))

  abbrev pub login_new : ℤ → List ℕ → M Traders (Option ℕ)
  login_new fd name = do reserved ← reserve fd name; publish reserved

  unfoldable pub trader_login : ℤ → List ℕ → M Traders (Option ℕ)
  unfolding check_old_trader_and_login
  trader_login fd name = do
    old ← check_old_trader_and_login me name
    elim old [ some p ↦ login_old fd p | none ↦ login_new fd name ]
