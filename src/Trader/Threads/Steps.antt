-- ===== src/Trader/Threads/Steps.antt =====
-- src/trader.c: trader_increase_balance and trader_decrease_balance, one access to the memory at a
-- time, by any number of threads on one trader.
use bourse_server.Base.{
  move, ℕ, ◌+◌, ◌-◌, ◌%◌, ◌^◌, ◌≤◌, ◌<◌, ◌≡◌, some, List, [], ◌∷◌, ◌++◌, ℤ, pos, minus_one,
}
use bourse_server.Trader.Store.{Mutex, lock_mutex, unlock_mutex}

-- A call with its amount.
pub data Change : Type 0 where
  increase decrease : ℕ → Change

-- How far a thread is in its call. `testing` has the mutex, and has still to compare the balance
-- with the amount; `taking` has found that the balance covers it, `adding` and `taking` have still
-- to read it, and `writing` has the new balance in a register; `leaving` has still to unlock the
-- mutex, and returns the result.
pub data Counter : Type 0 where
  outside : Counter
  testing adding taking : ℕ → Counter
  writing : Change → ℕ → Counter
  leaving : ℤ → Counter

-- The balance and the mutex of the trader, and where each thread is.
pub record Shared : Type 0 where
  pub balance : ℕ
  pub trader_mutex : Mutex
  pub threads : ℕ → Counter

-- A call that has had its effect, by a thread, and its result.
pub record Effect : Type 0 where
  pub thread : ℕ
  pub change : Change
  pub result : ℤ

abbrev pub at_counter : Shared → ℕ → Counter → Shared
at_counter s me c = record s { threads = move s.threads me c }

-- One step of a thread, with the call whose effect it is, if it is one. The `uint32_t` of the
-- balance wraps around.
pub data Step (me : ℕ) : Shared → List Effect → Shared → Type 0 where
  lock_increase :
      (s : Shared) (m : Mutex) (amount : ℕ)
      → s.threads me ≡ outside
      → lock_mutex me s.trader_mutex ≡ some m
      → Step me s [] (at_counter (record s { trader_mutex = m }) me (adding amount))
  lock_decrease :
      (s : Shared) (m : Mutex) (amount : ℕ)
      → s.threads me ≡ outside
      → lock_mutex me s.trader_mutex ≡ some m
      → Step me s [] (at_counter (record s { trader_mutex = m }) me (testing amount))
  covered :
      (s : Shared) (amount : ℕ)
      → s.threads me ≡ testing amount
      → amount ≤ s.balance
      → Step me s [] (at_counter s me (taking amount))
  short :
      (s : Shared) (amount : ℕ)
      → s.threads me ≡ testing amount
      → s.balance < amount
      → Step me s
          (record { thread = me; change = decrease amount; result = minus_one } ∷ [])
          (at_counter s me (leaving minus_one))
  read_adding :
      (s : Shared) (amount : ℕ)
      → s.threads me ≡ adding amount
      → Step me s [] (at_counter s me (writing (increase amount) ((s.balance + amount) % 2 ^ 32)))
  read_taking :
      (s : Shared) (amount : ℕ)
      → s.threads me ≡ taking amount
      → Step me s []
          (at_counter s me (writing (decrease amount) ((s.balance + 2 ^ 32 - amount) % 2 ^ 32)))
  write :
      (s : Shared) (c : Change) (new : ℕ)
      → s.threads me ≡ writing c new
      → Step me s
          (record { thread = me; change = c; result = pos 0 } ∷ [])
          (at_counter (record s { balance = new }) me (leaving (pos 0)))
  unlock :
      (s : Shared) (r : ℤ)
      → s.threads me ≡ leaving r
      → Step me s []
          (at_counter (record s { trader_mutex = unlock_mutex me s.trader_mutex }) me outside)

-- Steps of the threads in any order, with the calls in the order of their effects.
pub data Run : Shared → List Effect → Shared → Type 0 where
  stop : (s : Shared) → Run s [] s
  step :
      {s s₁ s₂ : Shared} {es es' : List Effect} (me : ℕ)
      → Step me s es s₁
      → Run s₁ es' s₂
      → Run s (es ++ es') s₂
