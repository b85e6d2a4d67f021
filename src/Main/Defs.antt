-- ===== src/Main/Defs.antt =====
-- src/main.c: `main` up to the loop that accepts connections, `terminate`, and the
-- handler of SIGHUP.
use bourse_server.Base.{
  ℕ, Option, none, some, List, [], ◌∷◌, M, Outcome, done, blocked, fault, pure, modify, ◌>>◌, ◌>>=◌,
  not, ℤ, minus_one, ◌≡◌, ◌≢◌, if◌then◌else◌,
}
use bourse_server.Registry.{
  ClientRegistry, Semaphores, creg_init, creg_shutdown_all, creg_wait_for_empty,
}
use bourse_server.Protocol.Wire.{Wire}
use bourse_server.Trader.{Traders, same_name, trader_init, trader_fini}

-- What the global `connfdp` points to.
pub data Connfdp : Type 0 where
  null allocated freed : Connfdp

-- The globals `client_registry` and `exchange`, which are NULL (`none`) until `main` sets them,
-- the traders, and how the process ended: `exit(status)`.
pub record Process (X : Type 0) : Type 0 where
  pub client_registry : Option ClientRegistry
  pub exchange : Option X
  pub traders : Traders
  pub connfdp : Connfdp
  pub exited : Option ℕ

-- The calls outside src/: those of the exchange's archive, with its state in `X`, and
-- `shutdown(fd, SHUT_RD)`, which disables further receive operations on the socket, as POSIX
-- describes it, and nothing else.
pub record Environment (X : Type 0) : Type 0 where
  pub sems : Semaphores
  pub shutdown : ℤ → Wire → Wire
  pub shutdown-ended : (fd : ℤ) (w : Wire) → fd ≢ minus_one → (shutdown fd w).incoming fd ≡ []
  pub shutdown-others :
      (fd other : ℤ) (w : Wire) → other ≢ fd → (shutdown fd w).incoming other ≡ w.incoming other
  pub shutdown-outgoing : (fd : ℤ) (w : Wire) → (shutdown fd w).outgoing ≡ w.outgoing
  pub exchange_init : X
  pub exchange_fini : Option X → Traders → Outcome Traders (Unit {0})

-- The text "-p".
abbrev pub dash_p : List ℕ
dash_p = b'-' ∷ b'p' ∷ []

module _ {X : Type 0} (env : Environment X) where
  open env use {shutdown}

  -- The calls of `shutdown(fds[i], SHUT_RD)`, in order, on the connections.
  abbrev pub shut_all : List ℤ → Wire → Wire
  shut_all [] w = w
  shut_all (fd ∷ fds) w = shut_all fds (shutdown fd w)

  -- The same on the process.
  abbrev pub shut_down : List ℤ → Process X → Process X
  shut_down fds s = record s { traders = record s.traders { wire = shut_all fds s.traders.wire } }

module _ {X : Type 0} (env : Environment X) (me : ℕ) where
  open env use {sems, exchange_init, exchange_fini}

  abbrev with_registry : {A : Type 0} → Process X → Outcome ClientRegistry A → Outcome (Process X) A
  with_registry s (done a cr) = done a (record s { client_registry = some cr })
  with_registry s (blocked cr) = blocked (record s { client_registry = some cr })
  with_registry s fault = fault

  -- A call on `client_registry`: a fault through NULL.
  abbrev on_client_registry : {A : Type 0} → M ClientRegistry A → M (Process X) A
  on_client_registry m s = elim s.client_registry [
    | none ↦ fault
    | some cr ↦ with_registry s (m cr)
  ]

  abbrev with_traders : {A : Type 0} → Process X → Outcome Traders A → Outcome (Process X) A
  with_traders s (done a t) = done a (record s { traders = t })
  with_traders s (blocked t) = blocked (record s { traders = t })
  with_traders s fault = fault

  abbrev fini_exchange : M (Process X) (Unit {0})
  fini_exchange s = with_traders s (exchange_fini s.exchange s.traders)

  -- `creg_fini` frees the registry.
  abbrev fini_registry : M (Process X) (Unit {0})
  fini_registry = modify (λ s. record s { client_registry = none })

  unfoldable pub terminate : ℕ → M (Process X) (Unit {0})
  terminate status = do
    fds ← on_client_registry (creg_shutdown_all sems)
    modify (shut_down env fds)
    on_client_registry (creg_wait_for_empty sems)
    fini_registry
    fini_exchange
    (λ s. with_traders s (trader_fini me s.traders))
    modify (λ s. record s { exited = some status })

  -- `main` once the arguments are in order, up to the call of `Open_listenfd(argv[2])`.
  abbrev start : M (Process X) (Unit {0})
  start = do
    modify (λ s. record s { client_registry = some (creg_init sems) })
    modify (λ s. record s { exchange = some exchange_init })
    (λ s. with_traders s (trader_init s.traders)) >> pure tt

  -- `main` up to `Open_listenfd`: the port to listen on.
  unfoldable pub main : List (List ℕ) → M (Process X) (Option (List ℕ))
  unfolding terminate
  main (program ∷ flag ∷ port ∷ []) =
      if not (same_name flag dash_p)
      then (terminate 1 >> pure none)
      else (start >> pure (some port))
  main argv = terminate 1 >> pure none

  -- `free(connfdp)`: the block is allocated by the loop that accepts connections, and freed by the
  -- thread that it starts.
  abbrev free_connfdp : M (Process X) (Unit {0})
  free_connfdp s = elim s.connfdp [
    | Connfdp.null ↦ done tt s
    | Connfdp.allocated ↦ done tt (record s { connfdp = Connfdp.freed })
    | Connfdp.freed ↦ fault
  ]

  -- The handler of SIGHUP.
  unfoldable pub sigup_handler : M (Process X) (Unit {0})
  unfolding terminate
  sigup_handler = free_connfdp >> terminate 0

  -- A round of the loop that accepts connections, up to the call of Accept: `connfdp` points to a
  -- new block, and the block before it is the thread's that was started with it.
  unfoldable pub await_client : M (Process X) (Unit {0})
  await_client = modify (λ s. record s { connfdp = Connfdp.allocated })

  -- The thread that the round starts has read its descriptor and freed the block, and `main` has not
  -- come to the next round yet.
  unfoldable pub client_served : M (Process X) (Unit {0})
  client_served = free_connfdp
