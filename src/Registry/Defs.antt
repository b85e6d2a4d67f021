-- ===== src/Registry/Defs.antt =====
-- src/client_registry.c, function by function.
use bourse_server.Base.{
  ℕ, zero, suc, ◌≡◌, Bool, Option, none, some, List, [], ◌∷◌, ℤ, pos, negsuc, minus_one, int_eq,
  inc, dec, M, done, blocked, pure, ◌>>=◌, ◌>>◌, modify, get, when, replicate, set, if◌then◌else◌,
}

-- `P`, `V` and `Sem_init` of csapp.c on the value of a semaphore, as sem_wait(3) and sem_post(3)
-- describe them: `p` waits (`none`) at 0.
pub record Semaphores : Type 0 where
  pub sem_init : ℕ → ℕ
  pub p : ℕ → Option ℕ
  pub v : ℕ → ℕ
  pub sem_init_lem : (n : ℕ) → sem_init n ≡ n
  pub p-zero : p zero ≡ none
  pub p-suc : (n : ℕ) → p (suc n) ≡ some n
  pub v_lem : (n : ℕ) → v n ≡ suc n

-- `struct client_registry`. `fds` is the block of `n` ints that `creg_init` allocates.
pub record ClientRegistry : Type 0 where
  pub fds : List ℤ
  pub n : ℕ
  pub count : ℤ
  pub count_mutex : ℕ
  pub mutex : ℕ
  pub items : ℕ
  pub slots : ℕ

-- The number of descriptors in an `fd_set`.
abbrev pub fd_setsize : ℕ
fd_setsize = 1024

pub data Sem : Type 0 where
  count_mutex mutex items slots : Sem

abbrev pub value : Sem → ClientRegistry → ℕ
value Sem.count_mutex cr = cr.count_mutex
value Sem.mutex cr = cr.mutex
value Sem.items cr = cr.items
value Sem.slots cr = cr.slots

abbrev pub with_value : Sem → ℕ → ClientRegistry → ClientRegistry
with_value Sem.count_mutex k cr = record cr { count_mutex = k }
with_value Sem.mutex k cr = record cr { mutex = k }
with_value Sem.items k cr = record cr { items = k }
with_value Sem.slots k cr = record cr { slots = k }

-- The loop over `fds[i]` for `i < n`: the first argument is `fds + i`, the second `n - i`.
unfoldable pub search_from : List ℤ → ℕ → ℕ → (ℤ → Bool) → ℤ
search_from [] k i test = minus_one
search_from (fd ∷ fds) zero i test = minus_one
search_from (fd ∷ fds) (suc k) i test = if test fd then pos i else search_from fds k (suc i) test

abbrev pub is_free : ℤ → Bool
is_free fd = int_eq fd minus_one

abbrev pub is_fd : ℤ → ℤ → Bool
is_fd fd x = int_eq x fd

unfoldable pub search_for_empty_slot : ClientRegistry → ℤ
search_for_empty_slot cr = search_from cr.fds cr.n 0 is_free

-- `cr->fds[index] = fd`, at an index that a search has returned.
abbrev pub store_fd : ℤ → ℤ → ClientRegistry → ClientRegistry
store_fd (pos index) fd cr = record cr { fds = set cr.fds index fd }
store_fd (negsuc k) fd cr = cr

-- The calls of `shutdown(fds[i], SHUT_RD)`, in order.
abbrev pub shutdown_from : List ℤ → ℕ → List ℤ
shutdown_from [] k = []
shutdown_from (fd ∷ fds) zero = []
shutdown_from (fd ∷ fds) (suc k) = fd ∷ shutdown_from fds k

module _ (sems : Semaphores) where
  open sems use {sem_init, p, v}

  unfoldable pub creg_init : ClientRegistry
  creg_init = record {
    fds = replicate fd_setsize minus_one;
    n = fd_setsize;
    count = pos 0;
    count_mutex = sem_init 1;
    mutex = sem_init 1;
    items = sem_init 0;
    slots = sem_init fd_setsize;
  }

  -- `P(&cr->s)` and `V(&cr->s)`.
  abbrev pub wait : Sem → M ClientRegistry (Unit {0})
  wait s cr = elim (p (value s cr)) [ none ↦ blocked cr | some k ↦ done tt (with_value s k cr) ]

  abbrev pub post : Sem → M ClientRegistry (Unit {0})
  post s cr = done tt (with_value s (v (value s cr)) cr)

  unfoldable pub creg_register : ℤ → M ClientRegistry ℤ
  unfolding search_for_empty_slot
  creg_register fd = do
    wait Sem.slots
    wait Sem.mutex
    index ← get search_for_empty_slot
    if int_eq index minus_one then pure minus_one else do
      modify (store_fd index fd)
      modify (λ cr. record cr { count = inc cr.count })
      count ← get (λ cr. cr.count)
      when (int_eq count (pos 1)) (wait Sem.count_mutex)
      post Sem.mutex
      post Sem.items
      pure (pos 0)

  unfoldable pub creg_unregister : ℤ → M ClientRegistry ℤ
  creg_unregister fd = do
    wait Sem.items
    wait Sem.mutex
    index ← get (λ cr. search_from cr.fds cr.n 0 (is_fd fd))
    if int_eq index minus_one then (post Sem.mutex >> post Sem.slots >> pure minus_one) else do
      modify (store_fd index minus_one)
      modify (λ cr. record cr { count = dec cr.count })
      count ← get (λ cr. cr.count)
      when (int_eq count (pos 0)) (post Sem.count_mutex)
      post Sem.mutex
      post Sem.slots
      pure (pos 0)

  unfoldable pub creg_wait_for_empty : M ClientRegistry (Unit {0})
  creg_wait_for_empty = wait Sem.count_mutex

  -- Returns the descriptors that it shuts down, in order; what that does to the connections is in
  -- Main/Defs.
  unfoldable pub creg_shutdown_all : M ClientRegistry (List ℤ)
  creg_shutdown_all = do
    wait Sem.mutex
    shut ← get (λ cr. shutdown_from cr.fds cr.n)
    post Sem.mutex
    pure shut
