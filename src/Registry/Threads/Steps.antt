-- ===== src/Registry/Threads/Steps.antt =====
-- src/client_registry.c: creg_register and creg_unregister, one access to the registry at a time, by
-- threads that serve one client each.
use bourse_server.Base.{ℕ, suc, ◌<◌, ◌≡◌, true, false, ℤ, pos, minus_one, int_eq, inc, dec, move}
use bourse_server.Registry.Defs.{
  ClientRegistry, search_from, search_for_empty_slot, is_fd, store_fd,
}

-- How far a thread is: before `creg_register`; in it, behind P(&cr->slots), behind P(&cr->mutex),
-- with the index that the search has returned, behind the store, behind `cr->count++`, behind the
-- test of the count, behind V(&cr->mutex); between the calls; in `creg_unregister`, the same way;
-- behind it. The search in `creg_register` may fail, and then the call returns -1 there; that in
-- `creg_unregister` may fail as well, and then -1 is returned behind the two calls of V.
pub data Counter : Type 0 where
  connected : Counter
  has_slot register_locked : Counter
  found : ℕ → Counter
  stored counted joined announcing : Counter
  serving : Counter
  has_item unregister_locked : Counter
  at_entry : ℕ → Counter
  cleared uncounted left returning : Counter
  gone : Counter
  refused : Counter
  missing missing_returning failed : Counter

-- A step of a thread that serves the descriptor `fd`. P(3) waits at 0, and takes 1 off the value
-- otherwise; V(3) adds 1.
pub data Move (fd : ℤ) (cr : ClientRegistry) : Counter → ClientRegistry → Counter → Type 0 where
  take_slot : {k : ℕ} → cr.slots ≡ suc k → Move fd cr connected (record cr { slots = k }) has_slot
  lock_register :
      {k : ℕ} → cr.mutex ≡ suc k → Move fd cr has_slot (record cr { mutex = k }) register_locked
  search_free : {i : ℕ} → search_for_empty_slot cr ≡ pos i → Move fd cr register_locked cr (found i)
  search_full : search_for_empty_slot cr ≡ minus_one → Move fd cr register_locked cr refused
  store : {i : ℕ} → Move fd cr (found i) (store_fd (pos i) fd cr) stored
  count_in : Move fd cr stored (record cr { count = inc cr.count }) counted
  mark_first :
      {k : ℕ}
      → int_eq cr.count (pos 1) ≡ true
      → cr.count_mutex ≡ suc k
      → Move fd cr counted (record cr { count_mutex = k }) joined
  mark_later : int_eq cr.count (pos 1) ≡ false → Move fd cr counted cr joined
  unlock_register : Move fd cr joined (record cr { mutex = suc cr.mutex }) announcing
  announce : Move fd cr announcing (record cr { items = suc cr.items }) serving
  take_item : {k : ℕ} → cr.items ≡ suc k → Move fd cr serving (record cr { items = k }) has_item
  lock_unregister :
      {k : ℕ} → cr.mutex ≡ suc k → Move fd cr has_item (record cr { mutex = k }) unregister_locked
  search_own :
      {i : ℕ}
      → search_from cr.fds cr.n 0 (is_fd fd) ≡ pos i
      → Move fd cr unregister_locked cr (at_entry i)
  search_missing :
      search_from cr.fds cr.n 0 (is_fd fd) ≡ minus_one → Move fd cr unregister_locked cr missing
  clear : {i : ℕ} → Move fd cr (at_entry i) (store_fd (pos i) minus_one cr) cleared
  count_out : Move fd cr cleared (record cr { count = dec cr.count }) uncounted
  unmark_last :
      int_eq cr.count (pos 0) ≡ true
      → Move fd cr uncounted (record cr { count_mutex = suc cr.count_mutex }) left
  unmark_other : int_eq cr.count (pos 0) ≡ false → Move fd cr uncounted cr left
  unlock_unregister : Move fd cr left (record cr { mutex = suc cr.mutex }) returning
  give_slot : Move fd cr returning (record cr { slots = suc cr.slots }) gone
  unlock_missing : Move fd cr missing (record cr { mutex = suc cr.mutex }) missing_returning
  give_missing : Move fd cr missing_returning (record cr { slots = suc cr.slots }) failed

-- The registry, and where each thread is.
pub record Shared : Type 0 where
  pub registry : ClientRegistry
  pub threads : ℕ → Counter

-- Steps in any order of the first `n` threads; `fds i` is the descriptor of thread `i`.
pub data Step (n : ℕ) (fds : ℕ → ℤ) (s : Shared) : Shared → Type 0 where
  pick :
      {cr : ClientRegistry} {c : Counter} (i : ℕ)
      → i < n
      → Move (fds i) s.registry (s.threads i) cr c
      → Step n fds s (record { registry = cr; threads = move s.threads i c })

pub data Reach (n : ℕ) (fds : ℕ → ℤ) (s : Shared) : Shared → Type 0 where
  here : Reach n fds s s
  later : {t u : Shared} → Reach n fds s t → Step n fds t u → Reach n fds s u
