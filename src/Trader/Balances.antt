-- ===== src/Trader/Balances.antt =====
-- src/trader.c: deposits, withdrawals, escrow and release.
use bourse_server.Base.{
  ℕ, ◌+◌, ◌-◌, ◌%◌, ◌^◌, ◌<◌, ◌≡◌, refl, ◌∙◌, ap, inl, inr, Bool, true, some, pure, pos, minus_one,
  done, ◌>>=◌, ◌>>◌, leb, arith, Bool-cases, if◌then◌else◌,
}
use bourse_server.Trader.Store.{
  Mutex, lock_mutex, unlock_mutex, Trader, Traders, update_self, lock, load, assign, unlock, put,
  unlock_mutex-lock_mutex, lock_lem, assign_lem, unlock_lem, load_lem,
}
use bourse_server.Trader.RefCounts.{put-put, put_same, assign-locked}
use bourse_server.Trader.Account.{
  trader_increase_balance, trader_decrease_balance, trader_increase_inventory,
  trader_decrease_inventory,
}

module _ (me p : ℕ) (s : Traders) (t : Trader) (m : Mutex) (live : s.heap p ≡ some t)
    (ready : lock_mutex me t.trader_mutex ≡ some m) where
  undone : unlock_mutex me m ≡ t.trader_mutex
  undone = unlock_mutex-lock_mutex me t.trader_mutex m ready

  abbrev locked : Trader
  locked = record t { trader_mutex = m }

  abbrev unlocked : Trader → Trader
  unlocked u = record u { trader_mutex = unlock_mutex me u.trader_mutex }

  -- A call that takes from the object what it has enough of.
  take_locked :
      (enough : Trader → Bool) (f : Trader → Trader)
      → (lock me p
            >> (load p >>= λ u.
                if enough u
                then (assign p f >> unlock me p >> pure (pos 0))
                else (unlock me p >> pure minus_one)))
          s
        ≡ (if enough locked then done (pos 0) (put p (unlocked (f locked)) s) else done minus_one s)
  take_locked enough f = elim (Bool-cases (enough locked)) [
    | inl covered ↦
        rw
          (
            lock_lem p s t live me m ready,
            load_lem p (put p locked s) locked (update_self s.heap p _),
            covered,
            assign_lem p (put p locked s) locked (update_self s.heap p _) f,
            unlock_lem p (put p (f locked) (put p locked s)) (f locked) (update_self _ p _) me,
            put-put p (f locked) (unlocked (f locked)) (put p locked s),
            put-put p locked (unlocked (f locked)) s,
          )
          refl
    | inr short ↦
        rw
          (
            lock_lem p s t live me m ready,
            load_lem p (put p locked s) locked (update_self s.heap p _),
            short,
            unlock_lem p (put p locked s) locked (update_self s.heap p _) me,
          )
          (ap (done minus_one) (
            put-put p _ _ s
            ∙ ap (λ m'. put p (record t { trader_mutex = m' }) s) undone
            ∙ put_same p t s live))
  ]

  -- The amount is added modulo 2^32, and nothing else changes.
  pub trader_increase_balance_lem :
      (amount : ℕ)
      → trader_increase_balance me p amount s
        ≡ done tt (put p (record t { balance = (t.balance + amount) % 2 ^ 32 }) s)
  unfolding trader_increase_balance
  trader_increase_balance_lem amount =
      assign-locked me p s t m live ready _
      ∙ ap
          (λ m'.
            done tt
              (put p (record t { balance = (t.balance + amount) % 2 ^ 32; trader_mutex = m' }) s))
          undone

  pub trader_increase_inventory_lem :
      (quantity : ℕ)
      → trader_increase_inventory me p quantity s
        ≡ done tt (put p (record t { inventory = (t.inventory + quantity) % 2 ^ 32 }) s)
  unfolding trader_increase_inventory
  trader_increase_inventory_lem quantity =
      assign-locked me p s t m live ready _
      ∙ ap
          (λ m'. done tt (
            put p (record t { inventory = (t.inventory + quantity) % 2 ^ 32; trader_mutex = m' })
              s))
          undone

  -- On an object whose mutex the thread can lock, an amount that the balance covers is taken,
  -- and nothing else changes; any other is refused with -1, and nothing changes.
  pub trader_decrease_balance_lem :
      (amount : ℕ)
      → trader_decrease_balance me p amount s ≡ (
          if leb amount t.balance
          then done (pos 0) (put p (record t { balance = t.balance - amount }) s)
          else done minus_one s)
  unfolding trader_decrease_balance
  trader_decrease_balance_lem amount =
      take_locked (λ u. leb amount u.balance) (λ u. record u { balance = u.balance - amount })
      ∙ ap
          (λ m'.
            if leb amount t.balance
            then done (pos 0)
                (put p (record t { balance = t.balance - amount; trader_mutex = m' }) s)
            else done minus_one s)
          undone

  pub trader_decrease_inventory_lem :
      (quantity : ℕ)
      → trader_decrease_inventory me p quantity s ≡ (
          if leb quantity t.inventory
          then done (pos 0) (put p (record t { inventory = t.inventory - quantity }) s)
          else done minus_one s)
  unfolding trader_decrease_inventory
  trader_decrease_inventory_lem quantity =
      take_locked (λ u. leb quantity u.inventory)
        (λ u. record u { inventory = u.inventory - quantity })
      ∙ ap
          (λ m'.
            if leb quantity t.inventory
            then done (pos 0)
                (put p (record t { inventory = t.inventory - quantity; trader_mutex = m' }) s)
            else done minus_one s)
          undone

-- On an object whose mutex the thread can lock, what is deposited can be withdrawn again, and
-- then the state is what it was, if the balance does not reach 2^32.
pub decrease-increase_balance :
    (me p amount : ℕ) (s : Traders) (t : Trader) (m : Mutex)
    → s.heap p ≡ some t
    → lock_mutex me t.trader_mutex ≡ some m
    → t.balance + amount < 2 ^ 32
    → (trader_increase_balance me p amount >> trader_decrease_balance me p amount) s
      ≡ done (pos 0) s
decrease-increase_balance me p amount s t m live ready fits =
    rw
      (
        trader_increase_balance_lem me p s t m live ready amount,
        trader_decrease_balance_lem me p (put p richer s) richer m (update_self s.heap p _) ready
            amount,
        covered,
        put-put p richer (record richer { balance = richer.balance - amount }) s,
        same,
      )
      (ap (done (pos 0)) (put_same p t s live))
  where
    richer : Trader
    richer = record t { balance = (t.balance + amount) % 2 ^ 32 }

    covered : leb amount richer.balance ≡ true
    covered = ground arith

    same : richer.balance - amount ≡ t.balance
    same = omega arith
