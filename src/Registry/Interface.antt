-- ===== src/Registry/Interface.antt =====
-- include/client_registry.h: what the module promises to its callers.
use mathlib.Core.List.{Mem, Perm}
use bourse_server.Base.{
  ℕ, ◌≡◌, ◌≢◌, ◌<◌, ◌==◌, List, [], ◌∷◌, ℤ, pos, minus_one, length, M, done, blocked, if◌then◌else◌,
}
use bourse_server.Registry.Defs.{
  Semaphores, ClientRegistry, creg_init, creg_register, creg_unregister, creg_wait_for_empty,
  creg_shutdown_all,
}
use bourse_server.Registry.Contents.{registered}
use bourse_server.Registry.Invariant.{Inv, creg_init-Inv}
use bourse_server.Registry.Register.{creg_register_lem}
use bourse_server.Registry.Unregister.{creg_unregister_lem}
use bourse_server.Registry.Waiting.{creg_wait_for_empty_lem, creg_shutdown_all-done, mem-registered}

-- "A client registry keeps track of the file descriptors for clients that are currently connected":
-- these are `connected`, in any order. A registry is ready while no call is under way. A law is what
-- the header says of the function before it.
pub record RegistryModule : Type 1 where
  pub Registry : Type 0
  pub IsReady : Registry → Type 0
  pub connected : Registry → List ℤ
  pub capacity : Registry → ℕ
  -- "Initialize a new client registry."
  pub init : Registry
  pub init_lem : IsReady init × (connected init ≡ [])
  -- "Register a client file descriptor": 0 "if registration succeeds".
  pub register : ℤ → M Registry ℤ
  pub register_lem :
      (r : Registry) (fd : ℤ)
      → IsReady r
      → fd ≢ minus_one
      → length (connected r) < capacity r
      → (r' : Registry) × (register fd r ≡ done (pos 0) r')
        × IsReady r'
        × (capacity r' ≡ capacity r)
        × Perm (connected r') (fd ∷ connected r)
  -- "Unregister a client file descriptor": 0 "if unregistration succeeds".
  pub unregister : ℤ → M Registry ℤ
  pub unregister_lem :
      (r : Registry) (fd : ℤ)
      → IsReady r
      → fd ≢ minus_one
      → Mem fd (connected r)
      → (r' : Registry) × (unregister fd r ≡ done (pos 0) r')
        × IsReady r'
        × (capacity r' ≡ capacity r)
        × Perm (connected r) (fd ∷ connected r')
  -- "A thread calling this function will block in the call until the number of registered clients
  -- has reached zero, at which point the function will return."
  pub wait_for_empty : M Registry (Unit {0})
  pub wait_for_empty_lem :
      (r : Registry)
      → IsReady r
      → (r' : Registry) × (wait_for_empty r
          ≡ (if length (connected r) == 0 then done tt r' else blocked r))
  -- "Shut down all the currently registered client file descriptors."
  pub shutdown_all : M Registry (List ℤ)
  pub shutdown_all_lem :
      (r : Registry)
      → IsReady r
      → (shut : List ℤ) × (shutdown_all r ≡ done shut r)
        × ((fd : ℤ) → Mem fd (connected r) → Mem fd shut)

-- The functions of src/client_registry.c.
abbrev pub client_registry : Semaphores → RegistryModule
client_registry sems = record {
  Registry = ClientRegistry;
  IsReady = Inv;
  connected = λ cr. registered cr.fds;
  capacity = λ cr. cr.n;
  init = creg_init sems;
  init_lem = creg_init-Inv sems;
  register = creg_register sems;
  register_lem = creg_register_lem sems;
  unregister = creg_unregister sems;
  unregister_lem = creg_unregister_lem sems;
  wait_for_empty = creg_wait_for_empty sems;
  wait_for_empty_lem =
      λ cr inv. (record cr { count_mutex = 0 }, creg_wait_for_empty_lem sems cr inv);
  shutdown_all = creg_shutdown_all sems;
  shutdown_all_lem =
      λ cr inv. (cr.fds, creg_shutdown_all-done sems cr inv, λ fd m. mem-registered cr.fds fd m);
}
