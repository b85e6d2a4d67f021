-- ===== src/Trader/Store.antt =====
-- The memory of src/trader.c: `TRADER` objects at addresses, recursive mutexes, the table
-- `all_traders` and the counter `count`.
use mathlib.Core.Path.{fun_ext}
use bourse_server.Base.{
  ℕ, zero, suc, ◌≡◌, refl, false, Option, none, some, List, ℤ, M, done, blocked, fault, ◌>>=◌, ◌==◌,
  ==_iff, if◌then◌else◌, arith,
}
use bourse_server.Protocol.Wire.{Wire}

-- A PTHREAD_MUTEX_RECURSIVE mutex: `held o d` is locked by thread `o`, `d` times over.
pub data Mutex : Type 0 where
  free : Mutex
  held : ℕ → ℕ → Mutex

-- pthread_mutex_lock(3) by thread `me`: `none` if another thread holds the mutex.
abbrev pub lock_mutex : ℕ → Mutex → Option Mutex
lock_mutex me free = some (held me 0)
lock_mutex me (held o d) = if o == me then some (held o (suc d)) else none

-- pthread_mutex_unlock(3): an error, which the program ignores, unless `me` holds the mutex.
abbrev pub unlock_mutex : ℕ → Mutex → Mutex
unlock_mutex me free = free
unlock_mutex me (held o zero) = if o == me then free else held o zero
unlock_mutex me (held o (suc d)) = if o == me then held o d else held o (suc d)

-- `struct trader`. The name is the text at `name`, without its final NUL.
pub record Trader : Type 0 where
  pub ref : ℤ
  pub fd : ℤ
  pub balance : ℕ
  pub inventory : ℕ
  pub trader_mutex : Mutex
  pub name : List ℕ

-- The global state of the module, with the connections. `heap` holds the objects that are
-- allocated; malloc(3) gives the address `next`, never one that was in use before.
pub record Traders : Type 0 where
  pub heap : ℕ → Option Trader
  pub next : ℕ
  pub all_traders : List (Option ℕ)
  pub count : ℕ
  pub wire : Wire

unfoldable pub update : (ℕ → Option Trader) → ℕ → Option Trader → ℕ → Option Trader
update h p c q = if q == p then c else h q

pub update_self : (h : ℕ → Option Trader) (p : ℕ) (c : Option Trader) → update h p c p ≡ c
unfolding update
update_self h p c = rw ((==_iff p p).1 refl)

pub update_ne :
    (h : ℕ → Option Trader) (p q : ℕ) (c : Option Trader) → (q == p) ≡ false → update h p c q ≡ h q
unfolding update
update_ne h p q c e = rw e

pub update-update :
    (h : ℕ → Option Trader) (p : ℕ) (c d : Option Trader) → update (update h p c) p d ≡ update h p d
unfolding update
update-update h p c d = fun_ext λ q. ground arith

pub update_same : (h : ℕ → Option Trader) (p : ℕ) (c : Option Trader) → h p ≡ c → update h p c ≡ h
unfolding update
update_same h p c e = fun_ext λ q. ground arith

-- The state with the object at `p` replaced.
abbrev pub put : ℕ → Trader → Traders → Traders
put p t s = record s { heap = update s.heap p (some t) }

-- `*p`, a fault where nothing is allocated.
unfoldable pub load : ℕ → M Traders Trader
load p s = elim (s.heap p) [ none ↦ fault | some t ↦ done t s ]

-- An assignment to fields of `*p`.
unfoldable pub assign : ℕ → (Trader → Trader) → M Traders (Unit {0})
assign p f s = elim (s.heap p) [ none ↦ fault | some t ↦ done tt (put p (f t) s) ]

-- free(3).
unfoldable pub free_trader : ℕ → M Traders (Unit {0})
free_trader p s = elim (s.heap p) [
  | none ↦ fault
  | some t ↦ done tt (record s { heap = update s.heap p none })
]

-- `malloc(sizeof(TRADER))`, where the new block holds `junk`. It does not fail.
abbrev pub malloc : Trader → M Traders ℕ
malloc junk s =
    done s.next (record s { heap = update s.heap s.next (some junk); next = suc s.next })

-- `pthread_mutex_lock(&p->trader_mutex)` by thread `me`.
unfoldable pub lock : ℕ → ℕ → M Traders (Unit {0})
unfolding load assign
lock me p = do
  t ← load p
  elim (lock_mutex me t.trader_mutex) [
    | none ↦ blocked
    | some m ↦ assign p (λ t'. record t' { trader_mutex = m })
  ]

-- `pthread_mutex_unlock(&p->trader_mutex)` by thread `me`.
unfoldable pub unlock : ℕ → ℕ → M Traders (Unit {0})
unfolding assign
unlock me p = assign p (λ t. record t { trader_mutex = unlock_mutex me t.trader_mutex })

-- An unlock undoes a lock.
pub unlock_mutex-lock_mutex :
    (me : ℕ) (m m' : Mutex) → lock_mutex me m ≡ some m' → unlock_mutex me m' ≡ m
unlock_mutex-lock_mutex me free m' e = ground arith
unlock_mutex-lock_mutex me (held o d) m' e = ground arith

-- The calls above on an object that is allocated.
module _ (p : ℕ) (s : Traders) (t : Trader) (live : s.heap p ≡ some t) where
  pub load_lem : load p s ≡ done t s
  unfolding load
  load_lem = ground arith

  pub assign_lem : (f : Trader → Trader) → assign p f s ≡ done tt (put p (f t) s)
  unfolding assign
  assign_lem f = ground arith

  pub free_lem : free_trader p s ≡ done tt (record s { heap = update s.heap p none })
  unfolding free_trader
  free_lem = ground arith

  pub lock_lem :
      (me : ℕ) (m : Mutex)
      → lock_mutex me t.trader_mutex ≡ some m
      → lock me p s ≡ done tt (put p (record t { trader_mutex = m }) s)
  unfolding lock
  lock_lem me m ready = ground arith

  pub lock_blocked : (me : ℕ) → lock_mutex me t.trader_mutex ≡ none → lock me p s ≡ blocked s
  unfolding lock
  lock_blocked me busy = ground arith

  pub unlock_lem :
      (me : ℕ)
      → unlock me p s
        ≡ done tt (put p (record t { trader_mutex = unlock_mutex me t.trader_mutex }) s)
  unfolding unlock
  unlock_lem me = ground arith

pub load_fault : (p : ℕ) (s : Traders) → s.heap p ≡ none → load p s ≡ fault
unfolding load
load_fault p s dead = ground arith

pub unlock_fault : (me p : ℕ) (s : Traders) → s.heap p ≡ none → unlock me p s ≡ fault
unfolding unlock
unlock_fault me p s dead = ground arith
